-- ===== src/Server/Drivers/Checks.antt =====
-- server/app/drivers/harbor_wrapper.py: is Harbor there, and does its doctor find anything. `str.strip`
-- and `str.split` without an argument are Python's, and arguments here, as is the text of an exception.
use lem.Base.{Bool, true, false, Option, none, some, List, [], ◌∷◌, ◌++◌, if◌then◌else◌}
use lem.Text.{Text}
use lem.Text.Methods.{lit}
use lem.Server.Drivers.Harbor.{
  Shell, Run, finished, timed_out, not_found, Outcome, returned, harbor_error, escaped, Completed,
  exit, split, is_in, checked,
}

abbrev last : List Text → Option Text
last [] = none
last (w ∷ []) = some w
last (w ∷ v ∷ ws) = last (v ∷ ws)

-- `split()[-1]`: an IndexError if nothing was printed
version_in : Option Text → Outcome Text
version_in none = escaped
version_in (some v) = returned v

version_of : (Text → List Text) → Outcome Completed → Outcome Text
unfolding version_in
version_of words (returned c) = version_in (last (words c.stdout))
version_of words (harbor_error e) = harbor_error e
version_of words escaped = escaped

-- A missing file is a HarborError here, with its defaults.
ended : Run → Outcome Completed
unfolding checked
ended (finished c) = checked c
ended timed_out = escaped
ended not_found = harbor_error (record { stderr = []; exit_code = exit 1 })

unfoldable pub check_harbor_installed : (Text → List Text) → Shell → Outcome Text
unfolding version_of ended
check_harbor_installed words run = version_of words (ended (run (lit "--version" ∷ []) 5))

abbrev last_part : List Text → Text
last_part [] = []
last_part (w ∷ []) = w
last_part (w ∷ v ∷ ws) = last_part (v ∷ ws)

-- The messages of the lines with an error, behind their last cross.
unfoldable pub issues : (Text → Text) → List Text → List Text
issues strip [] = []
issues strip (line ∷ lines) =
    let rest = issues strip lines in
    if is_in (lit "[ERROR]") line then strip (last_part (split 10008 line)) ∷ rest else rest

abbrev no_issues : List Text → Bool
no_issues [] = true
no_issues (i ∷ is) = false

abbrev judged : List Text → Bool × List Text
judged found = (no_issues found, found)

-- `check_harbor_requirements`; the exit code does not matter. `script` is the path of Harbor.
unfoldable pub check_harbor_requirements : (Text → Text) → Text → Shell → Bool × List Text
check_harbor_requirements strip script run = elim (run (lit "doctor" ∷ []) 10) [
  | finished c ↦ judged (issues strip (split b'\n' c.stdout))
  | timed_out ↦ (false, lit "Harbor doctor timed out after 10 seconds" ∷ [])
  | not_found ↦ (false, (lit "Harbor CLI not found at " ++ script) ∷ [])
]
