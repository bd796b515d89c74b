-- ===== src/Text.antt =====
-- Python's `str` as its code points, and `str.encode("utf-8")` and `bytes.decode("utf-8")` in
-- their strict mode, as http_frame.py and ws_frame.py use them.
pub mod RoundTrip
pub mod Methods
use lem.Base.{
  ℕ, suc, ◌+◌, ◌*◌, ◌/◌, ◌%◌, ◌-◌, Bool, true, false, ◌&&◌, ◌||◌, List, [], ◌∷◌, ◌++◌, ltb, leb,
  if◌then◌else◌, Result, ok, err, unicode_error, ◌>>=◌,
}

abbrev pub Text : Type 0
Text = List ℕ

abbrev pub Bytes : Type 0
Bytes = List ℕ

-- A code point that UTF-8 has a form for: below 0x110000, and no surrogate.
abbrev pub is_scalar : ℕ → Bool
is_scalar c = ltb c 0xd800 || (ltb 0xdfff c && ltb c 0x110000)

unfoldable pub encode_char : ℕ → Result Bytes
encode_char c =
    if ltb c 0x80
    then ok (c ∷ [])
    else if ltb c 0x800
    then ok ((0xc0 + c / 64) ∷ (0x80 + c % 64) ∷ [])
    else if ltb 0xd7ff c && ltb c 0xe000
    then err unicode_error
    else if ltb c 0x10000
    then ok ((0xe0 + c / 4096) ∷ (0x80 + c / 64 % 64) ∷ (0x80 + c % 64) ∷ [])
    else if ltb c 0x110000
    then ok
        ((0xf0 + c / 262144) ∷ (0x80 + c / 4096 % 64) ∷ (0x80 + c / 64 % 64) ∷ (0x80 + c % 64) ∷ [])
    else err unicode_error

unfoldable pub encode : Text → Result Bytes
encode [] = ok []
encode (c ∷ t) = do bs ← encode_char c; rest ← encode t; ok (bs ++ rest)

-- Between two bytes of a sequence: how many continuation bytes are due, the bits read so far, and
-- the least code point that a sequence of this length may stand for.
pub data Decoder : Type 0 where
  ready : Decoder
  due : ℕ → ℕ → ℕ → Decoder

-- What a byte does: it ends a code point, it only changes the state, or it is not allowed here.
pub data Decoded : Type 0 where
  emits : ℕ → Decoded
  waits : Decoder → Decoded
  invalid : Decoded

first_byte : ℕ → Decoded
first_byte b =
    if ltb b 0x80
    then emits b
    else if ltb b 0xc0
    then invalid
    else if ltb b 0xe0
    then waits (due 1 (b - 0xc0) 0x80)
    else if ltb b 0xf0
    then waits (due 2 (b - 0xe0) 0x800)
    else if ltb b 0xf8
    then waits (due 3 (b - 0xf0) 0x10000)
    else invalid

last_byte : ℕ → ℕ → Decoded
last_byte least c = if leb least c && is_scalar c then emits c else invalid

unfoldable pub decode_byte : Decoder → ℕ → Decoded
unfolding first_byte last_byte
decode_byte ready b = first_byte b
decode_byte (due n bits least) b =
    if ltb b 0x80 || ltb 0xbf b
    then invalid
    else if leb n 1
    then last_byte least (bits * 64 + (b - 0x80))
    else waits (due (n - 1) (bits * 64 + (b - 0x80)) least)

unfoldable pub decode_from : Decoder → Bytes → Result Text
decode_from ready [] = ok []
decode_from (due n bits least) [] = err unicode_error
decode_from d (b ∷ bs) = elim (decode_byte d b) [
  | emits c ↦ (decode_from ready bs >>= λ t. ok (c ∷ t))
  | waits d' ↦ decode_from d' bs
  | invalid ↦ err unicode_error
]

unfoldable pub decode : Bytes → Result Text
unfolding decode_from
decode = decode_from ready
