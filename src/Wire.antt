-- ===== src/Wire.antt =====
-- Python's `struct.pack` and `struct.unpack` for the formats >B, >H and >I, and the reading of a
-- frame at an offset, as the functions of http_frame.py and ws_frame.py do it.
pub mod Codec
pub mod Words
use lem.Base.{
  ℕ, ◌+◌, ◌*◌, ◌/◌, ◌%◌, ◌≡◌, List, [], ◌∷◌, ltb, if◌then◌else◌, length, slice, Result, ok, err,
  Part, insufficient, struct_error, Exn, Bool, guard, ◌++◌,
}
use lem.Base
use lem.Text.{Text, Bytes, decode}

-- `struct.error` is raised for a number that the format cannot hold.
unfoldable pub pack_u8 : ℕ → Result Bytes
pack_u8 n = if ltb n 256 then ok (n ∷ []) else err struct_error

unfoldable pub pack_u16 : ℕ → Result Bytes
pack_u16 n = if ltb n 65536 then ok ((n / 256) ∷ (n % 256) ∷ []) else err struct_error

unfoldable pub pack_u32 : ℕ → Result Bytes
pack_u32 n =
    if ltb n 4294967296
    then ok ((n / 16777216) ∷ (n / 65536 % 256) ∷ (n / 256 % 256) ∷ (n % 256) ∷ [])
    else err struct_error

unfoldable pub unpack_u8 : Bytes → Result ℕ
unpack_u8 (a ∷ []) = ok a
unpack_u8 _ = err struct_error

unfoldable pub unpack_u16 : Bytes → Result ℕ
unpack_u16 (a ∷ b ∷ []) = ok (a * 256 + b)
unpack_u16 _ = err struct_error

unfoldable pub unpack_u32 : Bytes → Result ℕ
unpack_u32 (a ∷ b ∷ c ∷ d ∷ []) = ok (((a * 256 + b) * 256 + c) * 256 + d)
unpack_u32 _ = err struct_error

-- A step of a `deserialize_...` function: it reads `data` at `offset`, and returns a value and
-- the next offset.
abbrev pub Reader {ℓ} : Type ℓ → Type ℓ
Reader A = Bytes → ℕ → Result (A × ℕ)

unfoldable pub pure {ℓ} : {A : Type ℓ} → A → Reader A
pure a data_ offset = ok (a, offset)

unfoldable pub lift {ℓ} : {A : Type ℓ} → Result A → Reader A
lift r data_ offset = Base.◌>>=◌ r (λ a. ok (a, offset))

infixl 5 ◌>>=◌ ◌>>◌
unfoldable pub ◌>>=◌ {ℓ κ} : {A : Type ℓ} {B : Type κ} → Reader A → (A → Reader B) → Reader B
unfolding pure lift
◌>>=◌ m f data_ offset = Base.◌>>=◌ (m data_ offset) (λ (a, next). f a data_ next)

abbrev pub ◌>>◌ {ℓ} : {B : Type ℓ} → Reader (Unit {0}) → Reader B → Reader B
m >> k = m >>= λ _. k

-- `if len(data) < offset + n: raise ValueError("Insufficient data for ...")`, then
-- `data[offset : offset + n]` and `offset += n`
unfoldable pub read_bytes : Part → ℕ → Reader Bytes
read_bytes part n data_ offset =
    if ltb (length data_) (offset + n)
    then err (insufficient part)
    else ok (slice offset (offset + n) data_, offset + n)

unfoldable pub read_u8 : Part → Reader ℕ
read_u8 part = do bs ← read_bytes part 1; lift (unpack_u8 bs)

unfoldable pub read_u16 : Part → Reader ℕ
read_u16 part = do bs ← read_bytes part 2; lift (unpack_u16 bs)

unfoldable pub read_u32 : Part → Reader ℕ
read_u32 part = do bs ← read_bytes part 4; lift (unpack_u32 bs)

-- `data[offset : offset + n].decode("utf-8")`
unfoldable pub read_text : Part → ℕ → Reader Text
read_text part n = do bs ← read_bytes part n; lift (decode bs)

-- `if not test: raise ...`
unfoldable pub check : Bool → Exn → Reader (Unit {0})
check test e = lift (guard test e)

-- `b"".join(parts)`
abbrev pub join : List Bytes → Bytes
join [] = []
join (x ∷ xs) = x ++ join xs

-- What a `deserialize_...` function returns: the offset is a local variable of it.
abbrev pub run {ℓ} : {A : Type ℓ} → Reader A → Bytes → Result A
run m data_ = Base.◌>>=◌ (m data_ 0) (λ (a, _). ok a)
