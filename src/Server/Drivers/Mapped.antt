-- ===== src/Server/Drivers/Mapped.antt =====
-- The port that Docker maps is the port that is found.
use lem.Base.{ℕ, ◌≡◌, refl, ap, true, false, none, some, [], ◌∷◌, ◌++◌, arith, All, nat_beq_refl}
use lem.Text.{Text}
use lem.Text.Methods.{lit, starts_with, truthy}
use lem.Server.Drivers.Ports.{
  is_digit, digits, behind, number_from, match_digits, match_here, search, parse_host_port,
}

-- The text of a number.
abbrev pub AreDigits : Text → Type 0
AreDigits ds = (truthy ds ≡ true) × All (λ c. is_digit c ≡ true) ds

digits-run :
    (ds : Text) (c : ℕ) (rest : Text)
    → All (λ d. is_digit d ≡ true) ds
    → is_digit c ≡ false
    → digits (ds ++ c ∷ rest) ≡ ds
unfolding digits
digits-run [] c rest all h = rw h
digits-run (d ∷ ds) c rest (p, all) h = rw p (ap (λ t. d ∷ t) (digits-run ds c rest all h))

behind-run :
    (ds : Text) (c : ℕ) (rest : Text)
    → All (λ d. is_digit d ≡ true) ds
    → is_digit c ≡ false
    → behind (ds ++ c ∷ rest) ≡ c ∷ rest
unfolding behind
behind-run [] c rest all h = rw h
behind-run (d ∷ ds) c rest (p, all) h = rw p (behind-run ds c rest all h)

starts_with-prefix : (p t : Text) → starts_with p (p ++ t) ≡ true
unfolding starts_with
starts_with-prefix [] t = refl
starts_with-prefix (c ∷ p) t = ground (arith, nat_beq_refl c, starts_with-prefix p t)

-- Behind the digits stands the arrow, and what is looked for.
match_digits-mapped :
    (ds suffix rest : Text)
    → AreDigits ds
    → match_digits (lit "->" ++ suffix) (ds ++ (lit "->" ++ (suffix ++ rest)))
      ≡ some (number_from 0 ds)
unfolding match_digits
match_digits-mapped ds suffix rest (some_, all) = rw (
  digits-run ds 45 (62 ∷ (suffix ++ rest)) all refl,
  behind-run ds 45 (62 ∷ (suffix ++ rest)) all refl,
  some_,
  starts_with-prefix (lit "->" ++ suffix) rest,
)

match_digits-none :
    (suffix : Text) (c : ℕ) (t : Text) → is_digit c ≡ false → match_digits suffix (c ∷ t) ≡ none
unfolding match_digits digits
match_digits-none suffix c t h = rw h

-- `0.0.0.0:<ds>-><port>/tcp`, and anything behind it.
abbrev pub mapping : Text → Text → Text → Text
mapping ds port rest = lit "0.0.0.0:" ++ (ds ++ (lit "->" ++ ((port ++ lit "/tcp") ++ rest)))

abbrev pub mapping_v6 : Text → Text → Text → Text
mapping_v6 ds port rest = lit "[::]:" ++ (ds ++ (lit "->" ++ ((port ++ lit "/tcp") ++ rest)))

-- If the text begins with the mapping of a container's port to digits, in either of the two forms
-- that Docker prints for all addresses, the host's port that is found is the number of those digits,
-- whatever other mappings follow.
pub parse_host_port-mapping :
    (ds port rest : Text)
    → AreDigits ds
    → (parse_host_port (mapping ds port rest) port ≡ some (number_from 0 ds))
      × (parse_host_port (mapping_v6 ds port rest) port ≡ some (number_from 0 ds))
unfolding parse_host_port search match_here starts_with
parse_host_port-mapping ds port rest h =
    let found = match_digits-mapped ds (port ++ lit "/tcp") rest h in
    (rw found, rw (match_digits-none (lit "->" ++ (port ++ lit "/tcp")) 91 _ refl, found))
