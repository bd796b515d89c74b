-- ===== src/Server/Drivers/Harbor.antt =====
-- server/app/drivers/harbor_wrapper.py: the commands that start, stop and list services. How a
-- command ends is an argument, and so are `str.strip`, `str.lower`, and `json.loads` of one line.
use lem.Base.{
  ℕ, Bool, true, false, ◌&&◌, not, Option, List, [], ◌∷◌, if◌then◌else◌, nat_beq, ◌==◌, seq_eq,
  Result, ok, err, json_error,
}
use lem.Base.Dict.{Dict, put, contains}
use lem.Text.{Text}
use lem.Text.Methods.{lit, starts_with, replace, truthy}
use lem.Server.Drivers.Ports.{parse_host_port}

-- `returncode`: an exit status, or the signal that ended the process.
pub data ExitCode : Type 0 where
  exit signal : ℕ → ExitCode

abbrev pub is_zero : ExitCode → Bool
is_zero (exit n) = nat_beq n 0
is_zero (signal n) = false

pub record Completed : Type 0 where
  pub returncode : ExitCode
  pub stdout : Text
  pub stderr : Text

-- How `subprocess.run` ends, before it looks at the exit code.
pub data Run : Type 0 where
  finished : Completed → Run
  timed_out not_found : Run

pub record HarborError : Type 0 where
  pub stderr : Text
  pub exit_code : ExitCode

-- A call: it returns, raises HarborError, or lets another exception through.
pub data Outcome (A : Type 0) : Type 0 where
  returned : A → Outcome A
  harbor_error : HarborError → Outcome A
  escaped : Outcome A

-- `check=True`
unfoldable pub checked : Completed → Outcome Completed
checked c =
    if is_zero c.returncode
    then returned c
    else harbor_error (record { stderr = c.stderr; exit_code = c.returncode })

abbrev pub Shell : Type 0
Shell = List Text → ℕ → Run

up_ended : Run → Outcome Completed
unfolding checked
up_ended (finished c) = checked c
up_ended timed_out = harbor_error (record { stderr = []; exit_code = exit 124 })
up_ended not_found = escaped

abbrev up_command : Bool → Text → List Text
up_command true service = lit "up" ∷ lit "--no-defaults" ∷ service ∷ []
up_command false service = lit "up" ∷ service ∷ []

unfoldable pub harbor_up : Shell → Text → ℕ → Bool → Outcome Completed
unfolding up_ended
harbor_up run service timeout skip_defaults =
    up_ended (run (up_command skip_defaults service) timeout)

-- Only `CalledProcessError` is caught.
down_ended : Run → Outcome Completed
unfolding checked
down_ended (finished c) = checked c
down_ended timed_out = escaped
down_ended not_found = escaped

unfoldable pub harbor_down : Shell → Text → ℕ → Outcome Completed
unfolding down_ended
harbor_down run service timeout = down_ended (run (lit "down" ∷ service ∷ []) timeout)

-- `s.split(c)` for one character
abbrev onto_first : ℕ → List Text → List Text
onto_first c [] = (c ∷ []) ∷ []
onto_first c (w ∷ ws) = (c ∷ w) ∷ ws

unfoldable pub split : ℕ → Text → List Text
split sep [] = [] ∷ []
split sep (c ∷ cs) =
    let rest = split sep cs in if nat_beq c sep then [] ∷ rest else onto_first c rest

abbrev first_part : List Text → Text
first_part [] = []
first_part (w ∷ ws) = w

-- `part in s`
unfoldable pub is_in : Text → Text → Bool
is_in part [] = starts_with part []
is_in part (c ∷ cs) = let rest = is_in part cs in if starts_with part (c ∷ cs) then true else rest

-- A line of `docker ps`, as far as it is read, and an entry of the result.
pub record Container : Type 0 where
  pub names : Text
  pub ports : Text
  pub state : Text
  pub status : Text

pub record Service : Type 0 where
  pub status : Text
  pub health : Bool
  pub ports : Text
  pub host_port : Option ℕ

pub record Python : Type 0 where
  pub strip : Text → Text
  pub lower : Text → Text
  pub loads : Text → Result Container

abbrev pub Services : Type 0
Services = Dict Text Service

-- The service of a container: `harbor.ollama-init` belongs to `ollama`.
unfoldable pub service_name : Text → Text
service_name name = first_part (split b'-' (replace (lit "harbor.") [] name))

abbrev pub container_port : Text → Text
container_port service = if service == lit "ollama" then lit "11434" else lit "8080"

module _ (py : Python) where
  unfoldable pub entry : Text → Container → Service
  entry service c = record {
    status = c.state;
    health = is_in (lit "healthy") (py.lower c.status);
    ports = c.ports;
    host_port = parse_host_port c.ports (container_port service);
  }

  -- One container: the first of a service is kept.
  unfoldable pub track : Container → Services → Services
  track c services =
      let service = service_name c.names in
      if starts_with (lit "harbor.") c.names && not (contains service services)
      then put service (entry service c) services
      else services

  -- One line, and the lines behind it: text that is not JSON gives an empty result.
  unfoldable pub step_line :
      Result Container → (Services → Outcome Services) → Services → Outcome Services
  unfolding track
  step_line (err json_error) rest services = returned []
  step_line (err e) rest services = escaped
  step_line (ok c) rest services = rest (track c services)

  unfoldable pub tracks : List Text → Services → Outcome Services
  unfolding step_line
  tracks [] services = returned services
  tracks (line ∷ lines) services =
      if truthy line
      then step_line (py.loads line) (tracks lines) services
      else tracks lines services

  listed : Run → Outcome Services
  unfolding tracks
  listed (finished c) =
      if is_zero c.returncode then tracks (split b'\n' (py.strip c.stdout)) [] else returned []
  listed timed_out = escaped
  listed not_found = escaped

  -- `harbor_ps`
  unfoldable pub harbor_ps : Shell → Outcome Services
  unfolding listed
  harbor_ps run = listed (
      run
        (lit "ps"
          ∷ lit "-a"
          ∷ lit "--filter"
          ∷ lit "name=harbor."
          ∷ lit "--format"
          ∷ lit "json"
          ∷ [])
        10)
