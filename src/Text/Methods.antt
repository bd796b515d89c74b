-- ===== src/Text/Methods.antt =====
-- The methods of Python's `str` that the source calls, over code points.
use Prim.Native.Char.{code}
use Prim.Native.String.{String}
use lem.Base.{
  ℕ, zero, suc, ◌-◌, ◌≡◌, refl, Bool, true, false, ◌&&◌, [], ◌∷◌, ◌++◌, nat_beq, length, drop,
  if◌then◌else◌,
}
use lem.Text.{Text}

-- A literal of the source.
abbrev pub lit : String → Text
lit String.[] = []
lit (String.◌∷◌ c s) = code c ∷ lit s

unfoldable pub starts_with : Text → Text → Bool
starts_with [] s = true
starts_with (p ∷ ps) [] = false
starts_with (p ∷ ps) (c ∷ cs) = nat_beq p c && starts_with ps cs

-- Joins the characters that are kept: one that would end the text is dropped if it is `c`.
rstrip_keep : ℕ → ℕ → Text → Text
rstrip_keep c x [] = if nat_beq x c then [] else x ∷ []
rstrip_keep c x (y ∷ ys) = x ∷ y ∷ ys

-- `s.rstrip(c)` for one character `c`
unfoldable pub rstrip : ℕ → Text → Text
unfolding rstrip_keep
rstrip c [] = []
rstrip c (x ∷ xs) = rstrip_keep c x (rstrip c xs)

-- `s.endswith(suffix)`: the suffix is what is left behind as many characters as `s` has more.
unfoldable pub ends_with : Text → Text → Bool
unfolding starts_with
ends_with suffix s =
    let more = length s - length suffix in
    starts_with suffix (drop more s) && nat_beq (length (drop more s)) (length suffix)

-- `s.replace(pattern, by)` for a pattern that is not empty; `skip` characters of a match are left.
unfoldable pub replace_from : ℕ → Text → Text → Text → Text
unfolding starts_with
replace_from skip pattern_ by [] = []
replace_from (suc skip) pattern_ by (c ∷ cs) = replace_from skip pattern_ by cs
replace_from zero pattern_ by (c ∷ cs) =
    let found = starts_with pattern_ (c ∷ cs) in
    let rest = replace_from (if found then length pattern_ - 1 else 0) pattern_ by cs in
    if found then by ++ rest else c ∷ rest

unfoldable pub replace : Text → Text → Text → Text
unfolding replace_from
replace = replace_from 0

-- Whether a `str` counts as true.
abbrev pub truthy : Text → Bool
truthy [] = false
truthy (c ∷ cs) = true

replace_test : replace (lit "http://") (lit "ws://") (lit "http://a/http://") ≡ lit "ws://a/ws://"
unfolding replace
replace_test = refl

rstrip_test : rstrip b'/' (lit "http://a/b//") ≡ lit "http://a/b"
unfolding rstrip
rstrip_test = refl

ends_with_test : ends_with (lit "/signal") (lit "ws://h/signal") ≡ true
unfolding ends_with
ends_with_test = refl
