-- ===== src/Base/Outcome.antt =====
-- What a call that may raise gives back, and the exceptions that the modelled code raises or sees.
use Prim.Native.Nat.{ℕ}
use mathlib.Core.Path.{◌≡◌, refl}
use mathlib.Core.Bool.{Bool, true, false}
use mathlib.Core.Logic.{◌⊎◌, inl, inr}

-- The part of a frame that a message `Insufficient data for ...` names.
pub data Part : Type 0 where
  frame_type request_id method_len method path_len path : Part
  headers_len headers body_len body status_code : Part
  connection_id url_len url opcode payload_len payload close_code reason_len reason : Part

pub data Exn : Type 0 where
  -- ValueError, raised by the frame code
  insufficient : Part → Exn
  wrong_type : ℕ → ℕ → Exn
  too_short : Exn
  unknown_type : ℕ → Exn
  -- UnicodeEncodeError and UnicodeDecodeError, json.JSONDecodeError, struct.error, KeyError
  unicode_error json_error struct_error key_error : Exn
  -- DatabaseError, RuntimeError, UnboundLocalError
  database_error not_started not_connected not_initialized not_set not_authenticated unbound_local :
      Exn
  -- what a call of a library or of the other end raised: `client` marks aiohttp.ClientError
  client_error foreign : ℕ → Exn

pub data Result {ℓ} (A : Type ℓ) : Type ℓ where
  err : Exn → Result A
  ok : A → Result A

infixl 5 ◌>>=◌
abbrev pub ◌>>=◌ {ℓ κ} : {A : Type ℓ} {B : Type κ} → Result A → (A → Result B) → Result B
err e >>= next = err e
ok a >>= next = next a

-- `if not test: raise e`
abbrev pub guard : Bool → Exn → Result (Unit {0})
guard false e = err e
guard true e = ok tt

infixl 5 ◌>>◌
abbrev pub ◌>>◌ {κ} : {B : Type κ} → Result (Unit {0}) → Result B → Result B
first >> rest = first >>= λ _. rest

-- Inversion of a successful bind.
pub >>=-eq-ok {ℓ κ} :
    {A : Type ℓ} {B : Type κ} (r : Result A) (next : A → Result B) {b : B}
    → (r >>= next) ≡ ok b
    → (a : A) × (r ≡ ok a) × (next a ≡ ok b)
>>=-eq-ok (err e) next returns = cc
>>=-eq-ok (ok a) next returns = (a, refl, returns)

-- The same, for a chain of binds: the rest of the proof is a function of what was returned.
pub bind-elim {ℓ κ μ} :
    {A : Type ℓ} {B : Type κ} {P : Type μ} (m : Result A) (f : A → Result B) {b : B}
    → (m >>= f) ≡ ok b
    → ((a : A) → m ≡ ok a → f a ≡ ok b → P)
    → P
bind-elim (ok a) f h k = k a refl h
bind-elim (err e) f h k = cc

pub guard-eq-ok : (b : Bool) (e : Exn) → guard b e ≡ ok tt → b ≡ true
guard-eq-ok true e h = refl
guard-eq-ok false e h = cc

pub ok-ne-err {ℓ} : {A : Type ℓ} (a : A) (e : Exn) → ok a ≡ err e → ⊥
ok-ne-err a e h = cc

pub ok-injective {ℓ} : {A : Type ℓ} {a b : A} → ok a ≡ ok b → a ≡ b
ok-injective h = cc

pub Result-cases {ℓ} :
    {A : Type ℓ} (r : Result A) → (((a : A) × (r ≡ ok a)) ⊎ ((e : Exn) × (r ≡ err e)))
Result-cases (ok a) = inl (a, refl)
Result-cases (err e) = inr (e, refl)
