-- ===== src/Wire/Codec.antt =====
-- Readers against the bytes that they read, one rule for each way to build a reader.
use lem.Base.{
  ℕ, ◌+◌, ◌-◌, ◌≤◌, ◌<◌, ◌≡◌, ◌≢◌, refl, sym, ap, ◌∙◌, [], ◌∷◌, ◌++◌, append_assoc, append-nil,
  arith, length, take, drop, slice, length-append, take-length, drop-length, drop-drop, length-drop,
  Result, ok, err, Exn, guard, Bool, true, Part, insufficient, prefix_split, append-cancel_left,
  subst, lt→ltb, ge→ltb,
}
use mathlib.Core.Path.{ap₂}
use native.Mathlib.Decide.{dec_lt}
use lem.Text.{Text, Bytes, encode, decode}
use lem.Text.RoundTrip.{decode-encode}
use lem.Wire.{
  Reader, pure, lift, check, ◌>>=◌, read_bytes, read_u8, read_u16, read_u32, read_text, pack_u8,
  pack_u16, pack_u32, unpack_u8, unpack_u16, unpack_u32, run,
}
use lem.Wire.Words.{unpack-pack_u8, unpack-pack_u16, unpack-pack_u32}

-- From `offset` on, `rest` is left of the data.
pub record At (bytes : Bytes) (offset : ℕ) (rest : Bytes) : Type 0 where
  pub within : offset ≤ length bytes
  pub left : drop offset bytes ≡ rest

-- On `bytes` the reader returns `a` and goes on behind them; on a part of them that is cut off it
-- raises `Insufficient data for ...`.
pub record Reads {ℓ} {A : Type ℓ} (m : Reader A) (bytes : Bytes) (a : A) : Type ℓ where
  pub whole :
      (input : Bytes) (offset : ℕ) (rest : Bytes)
      → At input offset (bytes ++ rest)
      → (m input offset ≡ ok (a, offset + length bytes)) × At input (offset + length bytes) rest
  pub cut :
      (input : Bytes) (offset : ℕ) (kept : Bytes) (lost : Bytes)
      → At input offset kept
      → bytes ≡ kept ++ lost
      → length kept < length bytes
      → (part : Part) × (m input offset ≡ err (insufficient part))

pub At-length :
    (input : Bytes) (offset : ℕ) (rest : Bytes)
    → At input offset rest
    → length input ≡ offset + length rest
At-length input offset rest h = omega (arith, ap length h.left, length-drop offset input, h.within)

pub At-start : (bytes : Bytes) → At bytes 0 bytes
At-start bytes = record { within = omega arith; left = refl }

At-next :
    (input : Bytes) (offset : ℕ) (bytes rest : Bytes)
    → At input offset (bytes ++ rest)
    → At input (offset + length bytes) rest
At-next input offset bytes rest h = record {
  within = omega (arith, At-length input offset (bytes ++ rest) h, length-append bytes rest);
  left =
      drop-drop offset (length bytes) input
      ∙ ap (drop (length bytes)) h.left
      ∙ drop-length bytes rest;
}

pub Reads-pure {ℓ} : {A : Type ℓ} (a : A) → Reads (pure a) [] a
unfolding pure
Reads-pure a = record {
  whole = λ input offset rest h. (
    ap (λ (k : ℕ). ok (a, k)) (omega arith),
    record {
      within = omega (arith, h.within);
      left = ap (λ (k : ℕ). drop k input) (omega arith) ∙ h.left;
    },
  );
  cut = λ input offset kept lost h e lt. absurd (omega arith);
}

pub Reads-lift {ℓ} : {A : Type ℓ} (r : Result A) {a : A} → r ≡ ok a → Reads (lift r) [] a
unfolding lift pure
Reads-lift r {a} e = rw e (Reads-pure a)

pub Reads-check : {test : Bool} (e : Exn) → test ≡ true → Reads (check test e) [] tt
unfolding check
Reads-check {test} e h = Reads-lift (guard test e) (rw h)

module _ {ℓ κ} {A : Type ℓ} {B : Type κ} (m : Reader A) (f : A → Reader B) (bs cs : Bytes) {a : A}
    {b : B} (rm : Reads m bs a) (rf : Reads (f a) cs b) where
  bind-whole :
      (input : Bytes) (offset : ℕ) (rest : Bytes)
      → At input offset ((bs ++ cs) ++ rest)
      → ((m >>= f) input offset ≡ ok (b, offset + length (bs ++ cs)))
        × At input (offset + length (bs ++ cs)) rest
  unfolding ◌>>=◌
  bind-whole input offset rest h =
      let (e, h') = rm.whole input offset (cs ++ rest) (rw append_assoc at h) in
      let (e', h'') = rf.whole input (offset + length bs) rest h' in
      let eq : offset + length bs + length cs ≡ offset + length (bs ++ cs) =
        omega (arith, length-append bs cs) in
      (rw e (rw e' (ap (λ (k : ℕ). ok (b, k)) eq)), subst (λ (k : ℕ). At input k rest) eq h'')

  bind-cut :
      (input : Bytes) (offset : ℕ) (kept : Bytes) (lost : Bytes)
      → At input offset kept
      → bs ++ cs ≡ kept ++ lost
      → length kept < length (bs ++ cs)
      → (part : Part) × ((m >>= f) input offset ≡ err (insufficient part))
  unfolding ◌>>=◌
  bind-cut input offset kept lost h e lt = elim (dec_lt (length kept) (length bs)) [
    | yes p ↦
        let (part, eq) =
          rm.cut input offset kept (drop (length kept) bs) h
            (prefix_split bs cs kept lost e (omega arith)) p in
        (part, rw eq)
    | no p ↦
        let kept' = drop (length bs) kept in
        let split : kept ≡ bs ++ kept' = prefix_split kept lost bs cs (sym e) (omega arith) in
        let rest : cs ≡ kept' ++ lost =
          append-cancel_left bs cs (kept' ++ lost)
            (e ∙ ap (λ t. t ++ lost) split ∙ append_assoc bs kept' lost) in
        let (eq, h') = rm.whole input offset kept' (subst (At input offset) split h) in
        let (part, eq') =
          rf.cut input (offset + length bs) kept' lost h' rest
            (omega (arith, ap length split, length-append bs cs, length-append bs kept')) in
        (part, rw eq eq')
  ]

  pub Reads-bind : Reads (m >>= f) (bs ++ cs) b
  Reads-bind = record { whole = bind-whole; cut = bind-cut }

pub Reads-read_bytes :
    (part : Part) (n : ℕ) (bs : Bytes) → length bs ≡ n → Reads (read_bytes part n) bs bs
unfolding read_bytes
Reads-read_bytes part n bs e = record {
  whole = λ input offset rest h. (
    rw
        (ge→ltb (length input) (offset + n)
          (omega (arith, At-length input offset (bs ++ rest) h, length-append bs rest)))
        (ap₂ (λ (x : Bytes) (k : ℕ). ok (x, k)) (sliced input offset rest h) (omega arith)),
    At-next input offset bs rest h,
  );
  cut = λ input offset kept lost h eq lt. (
    part,
    rw (lt→ltb (length input) (offset + n) (omega (arith, At-length input offset kept h))),
  );
}
  where
    sliced :
        (input : Bytes) (offset : ℕ) (rest : Bytes)
        → At input offset (bs ++ rest)
        → slice offset (offset + n) input ≡ bs
    sliced input offset rest h =
        ap₂ (λ (k : ℕ) (x : Bytes). take k x) {x = offset + n - offset} {y = length bs}
          (omega arith) h.left
        ∙ take-length bs rest

-- A word or a text, read as one part.
Reads-part {ℓ} :
    {A : Type ℓ} (part : Part) (n : ℕ) (bs : Bytes) (f : Bytes → Result A) {a : A}
    → length bs ≡ n
    → f bs ≡ ok a
    → Reads (read_bytes part n >>= λ x. lift (f x)) bs a
Reads-part part n bs f {a} e h =
    subst (λ (x : Bytes). Reads (read_bytes part n >>= λ y. lift (f y)) x a) (append-nil bs)
      (Reads-bind (read_bytes part n) (λ x. lift (f x)) bs [] (Reads-read_bytes part n bs e)
        (Reads-lift (f bs) h))

pub Reads-read_u8 :
    (part : Part) (n : ℕ) (bs : Bytes) → pack_u8 n ≡ ok bs → Reads (read_u8 part) bs n
unfolding read_u8
Reads-read_u8 part n bs h = let (e, l) = unpack-pack_u8 n bs h in Reads-part part 1 bs unpack_u8 l e

pub Reads-read_u16 :
    (part : Part) (n : ℕ) (bs : Bytes) → pack_u16 n ≡ ok bs → Reads (read_u16 part) bs n
unfolding read_u16
Reads-read_u16 part n bs h =
    let (e, l) = unpack-pack_u16 n bs h in Reads-part part 2 bs unpack_u16 l e

pub Reads-read_u32 :
    (part : Part) (n : ℕ) (bs : Bytes) → pack_u32 n ≡ ok bs → Reads (read_u32 part) bs n
unfolding read_u32
Reads-read_u32 part n bs h =
    let (e, l) = unpack-pack_u32 n bs h in Reads-part part 4 bs unpack_u32 l e

pub Reads-read_text :
    (part : Part) (t : Text) (bs : Bytes)
    → encode t ≡ ok bs
    → Reads (read_text part (length bs)) bs t
unfolding read_text
Reads-read_text part t bs h = Reads-part part (length bs) bs decode refl (decode-encode t bs h)

-- A whole frame, with whatever follows it, and a frame that is cut off.
module _ {ℓ} {A : Type ℓ} (m : Reader A) (bs : Bytes) {a : A} (r : Reads m bs a) where
  pub run-Reads : (junk : Bytes) → run m (bs ++ junk) ≡ ok a
  run-Reads junk = let (e, _) = r.whole (bs ++ junk) 0 junk (At-start (bs ++ junk)) in rw e

  pub run-cut :
      (kept lost : Bytes)
      → bs ≡ kept ++ lost
      → lost ≢ []
      → (part : Part) × (run m kept ≡ err (insufficient part))
  run-cut kept lost e ne =
      let (part, eq) = r.cut kept 0 kept lost (At-start kept) e (shorter lost e ne) in (part, rw eq)
    where
      shorter : (more : Bytes) → bs ≡ kept ++ more → more ≢ [] → length kept < length bs
      shorter [] h n = absurd (n refl)
      shorter (x ∷ xs) h n = omega (arith, ap length h, length-append kept (x ∷ xs))
