-- ===== src/Base/Tests.antt =====
-- Boolean tests on numbers and on sequences of numbers, and the branch of the source's `if`.
use Prim.Native.Nat.{ℕ, ◌≤◌, ◌<◌, compare, Ordering}
use mathlib.Core.Path.{◌≡◌, refl}
use mathlib.Core.Logic.{◌↔◌, ◌⊎◌, inl, inr}
use mathlib.Core.Bool.{Bool, true, false, ◌&&◌}
use mathlib.Core.Option.{Option, none, some}
use mathlib.Core.List.{List, [], ◌∷◌}
use native.Mathlib.Omega.{arith}

abbrev pub ltb : ℕ → ℕ → Bool
ltb a b = elim (compare a b) [ Ordering.lt ↦ true | _ ↦ false ]

abbrev pub leb : ℕ → ℕ → Bool
leb a b = elim (compare a b) [ Ordering.gt ↦ false | _ ↦ true ]

abbrev pub nat_beq : ℕ → ℕ → Bool
nat_beq a b = elim (compare a b) [ Ordering.eq ↦ true | _ ↦ false ]

infix 1 if◌then◌else◌
abbrev pub if◌then◌else◌ {ℓ} : {A : Type ℓ} → Bool → A → A → A
if true then x else y = x
if false then x else y = y

-- A branch has what both of its arms have.
pub if-both {ℓ κ} :
    {A : Type ℓ} (P : A → Type κ) (b : Bool) {x y : A} → P x → P y → P (if b then x else y)
if-both P true px py = px
if-both P false px py = py

pub ltb→lt : (a b : ℕ) → ltb a b ≡ true → a < b
ltb→lt a b h = ground arith

pub ltb→ge : (a b : ℕ) → ltb a b ≡ false → b ≤ a
ltb→ge a b h = ground arith

pub lt→ltb : (a b : ℕ) → a < b → ltb a b ≡ true
lt→ltb a b h = ground arith

pub ge→ltb : (a b : ℕ) → b ≤ a → ltb a b ≡ false
ge→ltb a b h = ground arith

pub nat_beq_iff : (a b : ℕ) → (nat_beq a b ≡ true) ↔ (a ≡ b)
nat_beq_iff a b = ((λ h. ground arith), (λ h. ground arith))

pub nat_beq_refl : (a : ℕ) → nat_beq a a ≡ true
nat_beq_refl a = ground arith

-- To split on a computed value and keep the equation.
pub Bool-cases : (b : Bool) → (b ≡ true) ⊎ (b ≡ false)
Bool-cases true = inl refl
Bool-cases false = inr refl

pub Option-cases {ℓ} : {A : Type ℓ} (o : Option A) → (o ≡ none) ⊎ ((a : A) × (o ≡ some a))
Option-cases none = inl refl
Option-cases (some a) = inr (a, refl)

-- The equality that the keys of a dictionary have.
pub record Eq {κ} (K : Type κ) : Type κ where
  pub beq : K → K → Bool
  pub beq_iff : (j k : K) → (beq j k ≡ true) ↔ (j ≡ k)

infix 50 ◌==◌
abbrev pub ◌==◌ {κ} : {K : Type κ} ⦃keys : Eq K⦄ → K → K → Bool
◌==◌ ⦃keys⦄ = keys.beq

abbrev pub seq_beq : List ℕ → List ℕ → Bool
seq_beq [] [] = true
seq_beq [] (y ∷ ys) = false
seq_beq (x ∷ xs) [] = false
seq_beq (x ∷ xs) (y ∷ ys) = nat_beq x y && seq_beq xs ys

pub seq_beq_sound : (xs ys : List ℕ) → seq_beq xs ys ≡ true → xs ≡ ys
seq_beq_sound [] [] h = refl
seq_beq_sound [] (y ∷ ys) h = ground arith
seq_beq_sound (x ∷ xs) [] h = ground arith
seq_beq_sound (x ∷ xs) (y ∷ ys) h = ground (arith, seq_beq_sound xs ys)

pub seq_beq_refl : (xs : List ℕ) → seq_beq xs xs ≡ true
seq_beq_refl [] = refl
seq_beq_refl (x ∷ xs) = ground (arith, seq_beq_refl xs)

pub seq_beq_complete : (xs ys : List ℕ) → xs ≡ ys → seq_beq xs ys ≡ true
seq_beq_complete xs ys h = ground (arith, h, seq_beq_refl xs)

pub seq_beq_iff : (xs ys : List ℕ) → (seq_beq xs ys ≡ true) ↔ (xs ≡ ys)
seq_beq_iff xs ys = (seq_beq_sound xs ys, seq_beq_complete xs ys)

instance abbrev pub nat_eq : Eq ℕ
nat_eq = record { beq = nat_beq; beq_iff = nat_beq_iff }

instance abbrev pub seq_eq : Eq (List ℕ)
seq_eq = record { beq = seq_beq; beq_iff = seq_beq_iff }
