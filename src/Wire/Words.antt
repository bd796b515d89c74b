-- ===== src/Wire/Words.antt =====
-- Packed words: `struct.unpack` gives back what `struct.pack` was given.
use lem.Base.{ℕ, ◌/◌, ◌%◌, ◌<◌, ◌≡◌, [], ◌∷◌, arith, length, ok}
use lem.Text.{Bytes}
use lem.Wire.{pack_u8, pack_u16, pack_u32, unpack_u8, unpack_u16, unpack_u32}

pub unpack-pack_u8 :
    (n : ℕ) (bs : Bytes) → pack_u8 n ≡ ok bs → (unpack_u8 bs ≡ ok n) × (length bs ≡ 1)
unfolding pack_u8 unpack_u8
unpack-pack_u8 n bs h = ground arith

pub unpack-pack_u16 :
    (n : ℕ) (bs : Bytes) → pack_u16 n ≡ ok bs → (unpack_u16 bs ≡ ok n) × (length bs ≡ 2)
unfolding pack_u16 unpack_u16
unpack-pack_u16 n bs h = ground arith

pub unpack-pack_u32 :
    (n : ℕ) (bs : Bytes) → pack_u32 n ≡ ok bs → (unpack_u32 bs ≡ ok n) × (length bs ≡ 4)
unfolding pack_u32 unpack_u32
unpack-pack_u32 n bs h = ground arith

pub pack_u8-total : (n : ℕ) → n < 256 → (bs : Bytes) × (pack_u8 n ≡ ok bs)
unfolding pack_u8
pack_u8-total n h = (n ∷ [], ground arith)

pub pack_u16-total : (n : ℕ) → n < 65536 → (bs : Bytes) × (pack_u16 n ≡ ok bs)
unfolding pack_u16
pack_u16-total n h = ((n / 256) ∷ (n % 256) ∷ [], ground arith)

pub pack_u32-total : (n : ℕ) → n < 4294967296 → (bs : Bytes) × (pack_u32 n ≡ ok bs)
unfolding pack_u32
pack_u32-total n h =
    ((n / 16777216) ∷ (n / 65536 % 256) ∷ (n / 256 % 256) ∷ (n % 256) ∷ [], ground arith)

pub pack_u8-bytes : (n : ℕ) (bs : Bytes) → pack_u8 n ≡ ok bs → bs ≡ n ∷ []
unfolding pack_u8
pack_u8-bytes n bs h = ground arith
