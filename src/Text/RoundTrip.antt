-- ===== src/Text/RoundTrip.antt =====
-- `s.encode("utf-8").decode("utf-8")` gives `s` back.
use lem.Base.{
  ℕ, suc, ◌+◌, ◌*◌, ◌/◌, ◌%◌, ◌<◌, ◌≤◌, ◌≡◌, refl, ap, ◌∙◌, true, ◌⊎◌, inl, inr, [], ◌∷◌, ◌++◌,
  arith, ok, ◌>>=◌, >>=-eq-ok, ok-injective,
}
use lem.Text.{
  Text, Bytes, is_scalar, encode_char, encode, Decoder, ready, due, emits, waits, decode_byte,
  decode_from, decode,
}

-- What each byte of a sequence does.
ascii_byte : (c : ℕ) → c < 0x80 → decode_byte ready c ≡ emits c
unfolding decode_byte
ascii_byte c h = ground arith

lead_two : (c : ℕ) → c < 0x800 → decode_byte ready (0xc0 + c / 64) ≡ waits (due 1 (c / 64) 0x80)
unfolding decode_byte
lead_two c h = ground arith

lead_three :
    (c : ℕ) → c < 0x10000 → decode_byte ready (0xe0 + c / 4096) ≡ waits (due 2 (c / 4096) 0x800)
unfolding decode_byte
lead_three c h = ground arith

lead_four :
    (c : ℕ)
    → c < 0x110000
    → decode_byte ready (0xf0 + c / 262144) ≡ waits (due 3 (c / 262144) 0x10000)
unfolding decode_byte
lead_four c h = ground arith

middle_byte :
    (n bits least x : ℕ)
    → x < 64
    → decode_byte (due (suc (suc n)) bits least) (0x80 + x)
      ≡ waits (due (suc n) (bits * 64 + x) least)
unfolding decode_byte
middle_byte n bits least x h = ground arith

last_byte_lem :
    (bits least x c : ℕ)
    → x < 64
    → c ≡ bits * 64 + x
    → least ≤ c
    → is_scalar c ≡ true
    → decode_byte (due 1 bits least) (0x80 + x) ≡ emits c
unfolding decode_byte
last_byte_lem bits least x c h e l s = ground arith

decode_emits :
    (d : Decoder) (b : ℕ) (rest : Bytes) {c : ℕ}
    → decode_byte d b ≡ emits c
    → decode_from d (b ∷ rest) ≡ (decode_from ready rest >>= λ t. ok (c ∷ t))
unfolding decode_from
decode_emits ready b rest h = rw (h, decode_from)
decode_emits (due n bits least) b rest h = rw (h, decode_from)

decode_waits :
    (d : Decoder) (b : ℕ) (rest : Bytes) {d' : Decoder}
    → decode_byte d b ≡ waits d'
    → decode_from d (b ∷ rest) ≡ decode_from d' rest
unfolding decode_from
decode_waits ready b rest h = rw (h, decode_from)
decode_waits (due n bits least) b rest h = rw (h, decode_from)

-- The branches of `encode_char`.
encode_char_cases :
    (c : ℕ) (bs : Bytes)
    → encode_char c ≡ ok bs
    → ((c < 0x80) × (bs ≡ c ∷ []))
      ⊎ ((0x80 ≤ c) × (c < 0x800) × (bs ≡ (0xc0 + c / 64) ∷ (0x80 + c % 64) ∷ []))
      ⊎ ((0x800 ≤ c)
          × (c < 0x10000)
          × (is_scalar c ≡ true)
          × (bs ≡ (0xe0 + c / 4096) ∷ (0x80 + c / 64 % 64) ∷ (0x80 + c % 64) ∷ []))
      ⊎ ((0x10000 ≤ c)
          × (c < 0x110000)
          × (is_scalar c ≡ true)
          × (bs
              ≡ (0xf0 + c / 262144)
                ∷ (0x80 + c / 4096 % 64)
                ∷ (0x80 + c / 64 % 64)
                ∷ (0x80 + c % 64)
                ∷ []))
unfolding encode_char
encode_char_cases c bs h = ground arith

decode-one :
    (c : ℕ) (rest : Bytes)
    → c < 0x80
    → decode_from ready (c ∷ rest) ≡ (decode_from ready rest >>= λ t. ok (c ∷ t))
decode-one c rest h = decode_emits ready c rest (ascii_byte c h)

decode-two :
    (c : ℕ) (rest : Bytes)
    → 0x80 ≤ c
    → c < 0x800
    → decode_from ready ((0xc0 + c / 64) ∷ (0x80 + c % 64) ∷ rest)
      ≡ (decode_from ready rest >>= λ t. ok (c ∷ t))
decode-two c rest l h =
    decode_waits ready (0xc0 + c / 64) _ (lead_two c h)
    ∙ decode_emits _ _ rest
        (last_byte_lem (c / 64) 0x80 (c % 64) c (omega arith) (omega arith) l (ground arith))

decode-three :
    (c : ℕ) (rest : Bytes)
    → 0x800 ≤ c
    → c < 0x10000
    → is_scalar c ≡ true
    → decode_from ready ((0xe0 + c / 4096) ∷ (0x80 + c / 64 % 64) ∷ (0x80 + c % 64) ∷ rest)
      ≡ (decode_from ready rest >>= λ t. ok (c ∷ t))
decode-three c rest l h s =
    decode_waits ready (0xe0 + c / 4096) _ (lead_three c h)
    ∙ decode_waits _ _ _ (middle_byte 0 (c / 4096) 0x800 (c / 64 % 64) (omega arith))
    ∙ decode_emits _ _ rest (
        last_byte_lem (c / 4096 * 64 + c / 64 % 64) 0x800 (c % 64) c (omega arith) (omega arith) l
          s)

decode-four :
    (c : ℕ) (rest : Bytes)
    → 0x10000 ≤ c
    → c < 0x110000
    → is_scalar c ≡ true
    → decode_from ready (
        (0xf0 + c / 262144)
        ∷ (0x80 + c / 4096 % 64)
        ∷ (0x80 + c / 64 % 64)
        ∷ (0x80 + c % 64)
        ∷ rest)
      ≡ (decode_from ready rest >>= λ t. ok (c ∷ t))
decode-four c rest l h s =
    decode_waits ready (0xf0 + c / 262144) _ (lead_four c h)
    ∙ decode_waits _ _ _ (middle_byte 1 (c / 262144) 0x10000 (c / 4096 % 64) (omega arith))
    ∙ decode_waits _ _ _
        (middle_byte 0 (c / 262144 * 64 + c / 4096 % 64) 0x10000 (c / 64 % 64) (omega arith))
    ∙ decode_emits _ _ rest (
        last_byte_lem ((c / 262144 * 64 + c / 4096 % 64) * 64 + c / 64 % 64) 0x10000 (c % 64) c
          (omega arith) (omega arith) l s)

decode_from-encode_char :
    (c : ℕ) (bs rest : Bytes)
    → encode_char c ≡ ok bs
    → decode_from ready (bs ++ rest) ≡ (decode_from ready rest >>= λ t. ok (c ∷ t))
decode_from-encode_char c bs rest h = elim (encode_char_cases c bs h) [
  | inl (a, e) ↦ rw e (decode-one c rest a)
  | inr (inl (a, b, e)) ↦ rw e (decode-two c rest a b)
  | inr (inr (inl (a, b, s, e))) ↦ rw e (decode-three c rest a b s)
  | inr (inr (inr (a, b, s, e))) ↦ rw e (decode-four c rest a b s)
]

decode_from-encode : (t : Text) (bs : Bytes) → encode t ≡ ok bs → decode_from ready bs ≡ ok t
unfolding encode
decode_from-encode [] bs h = rw (← ok-injective h) (unfold decode_from in refl)
decode_from-encode (c ∷ t) bs h =
    let (xs, ex, h') = >>=-eq-ok (encode_char c) _ h in
    let (ys, ey, e) = >>=-eq-ok (encode t) _ h' in
    rw (← ok-injective e) (
      decode_from-encode_char c xs ys ex
      ∙ ap (λ r. r >>= λ u. ok (c ∷ u)) (decode_from-encode t ys ey))

-- A text that has a UTF-8 form is what decoding that form gives.
pub decode-encode : (t : Text) (bs : Bytes) → encode t ≡ ok bs → decode bs ≡ ok t
unfolding decode
decode-encode t bs h = decode_from-encode t bs h
