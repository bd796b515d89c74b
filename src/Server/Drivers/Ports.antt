-- ===== src/Server/Drivers/Ports.antt =====
-- server/app/drivers/harbor_wrapper.py, `parse_host_port`: the host's port for a port of a container.
-- Digits are those of ASCII.
use lem.Base.{
  ℕ, ◌+◌, ◌-◌, ◌*◌, ◌≡◌, refl, Bool, ◌&&◌, Option, none, some, [], ◌∷◌, ◌++◌, if◌then◌else◌, leb,
  length, drop,
}
use lem.Text.{Text}
use lem.Text.Methods.{lit, starts_with, truthy}

abbrev pub is_digit : ℕ → Bool
is_digit c = leb 48 c && leb c 57

-- `\d+`, as long as it goes, and what is behind it
unfoldable pub digits : Text → Text
digits [] = []
digits (c ∷ cs) = let rest = digits cs in if is_digit c then c ∷ rest else []

unfoldable pub behind : Text → Text
behind [] = []
behind (c ∷ cs) = let rest = behind cs in if is_digit c then rest else c ∷ cs

-- `int` of digits
unfoldable pub number_from : ℕ → Text → ℕ
number_from n [] = n
number_from n (c ∷ cs) = number_from (n * 10 + (c - 48)) cs

-- `(\d+)` and the rest of the pattern, here; a shorter run of digits is followed by a digit, and so
-- cannot match.
unfoldable pub match_digits : Text → Text → Option ℕ
match_digits suffix t =
    if truthy (digits t) && starts_with suffix (behind t)
    then some (number_from 0 (digits t))
    else none

abbrev pub or_next : Option ℕ → Option ℕ → Option ℕ
or_next none next = next
or_next (some n) next = some n

abbrev pub behind_prefix : Text → Text → Text → Option ℕ
behind_prefix prefix suffix t =
    if starts_with prefix t then match_digits suffix (drop (length prefix) t) else none

-- The pattern, here: with the first prefix, the second, or none.
unfoldable pub match_here : Text → Text → Option ℕ
match_here suffix t =
    or_next (behind_prefix (lit "0.0.0.0:") suffix t)
      (or_next (behind_prefix (lit "::]:") suffix t) (match_digits suffix t))

-- `re.search`
unfoldable pub search : Text → Text → Option ℕ
search suffix [] = none
search suffix (c ∷ cs) = or_next (match_here suffix (c ∷ cs)) (search suffix cs)

-- `parse_host_port`, with the container's port as text
unfoldable pub parse_host_port : Text → Text → Option ℕ
parse_host_port ports container_port = search (lit "->" ++ (container_port ++ lit "/tcp")) ports

parse_host_port_test :
    parse_host_port (lit "0.0.0.0:33821->11434/tcp, [::]:33821->11434/tcp") (lit "11434")
    ≡ some 33821
unfolding parse_host_port search match_here match_digits digits behind number_from starts_with
parse_host_port_test = refl

-- Another container port: no host port.
other_port_test :
    parse_host_port (lit "0.0.0.0:33801->8080/tcp, [::]:33801->8080/tcp") (lit "11434") ≡ none
unfolding parse_host_port search match_here match_digits digits behind number_from starts_with
other_port_test = refl
