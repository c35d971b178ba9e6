-- ===== src/Hex/RoundTrip.antt =====
-- hex.c: decoding what was encoded, and what a decoded text looks like.
use pettycoin.Base.{
  ℕ, ◌+◌, ◌-◌, ◌*◌, ◌/◌, ◌%◌, ◌<◌, ◌≡◌, refl, some, [], ◌∷◌, ◌++◌, arith, ltb, if◌then◌else◌, Bytes,
  bit_or, shl, u8, length, All, IsByte, bit_or-shl, bit_and-mask, suc, Option-cases, inl, inr,
}
use pettycoin.Hex.{char_to_hex, from_hex, hexchar, to_hex_loop, to_hex}

abbrev digit : ℕ → ℕ
digit v = if ltb v 10 then b'0' + v else b'a' + v - 10

hexchar-digit : (v : ℕ) → v < 16 → hexchar v ≡ some (digit v)
unfolding hexchar
hexchar-digit v h = ground arith

char_to_hex-digit : (v : ℕ) → v < 16 → char_to_hex (digit v) ≡ some v
unfolding char_to_hex
char_to_hex-digit v h = ground arith

char_to_hex-lt : (c v : ℕ) → char_to_hex c ≡ some v → v < 16
unfolding char_to_hex
char_to_hex-lt c v h = ground arith

-- The two characters of each byte.
text : Bytes → Bytes
text [] = []
text (c ∷ buf) = digit (c / 16) ∷ digit (c % 16) ∷ text buf

length-text : (buf : Bytes) → length (text buf) ≡ 2 * length buf
unfolding text
length-text [] = refl
length-text (c ∷ buf) = omega (arith, length-text buf)

to_hex_loop-text :
    (buf : Bytes) (destlen : ℕ)
    → All IsByte buf
    → 2 * length buf < destlen
    → to_hex_loop destlen buf ≡ some (text buf ++ 0 ∷ [], length buf)
unfolding to_hex_loop text
to_hex_loop-text [] destlen h room = refl
to_hex_loop-text (c ∷ buf) destlen h room = ground (
  arith,
  hexchar-digit (c / 16),
  hexchar-digit (c % 16),
  bit_and-mask 4 c,
  to_hex_loop-text buf (destlen - 2) h.1 (omega arith),
)

nibbles : (c : ℕ) → c < 256 → u8 (bit_or (shl (c / 16) 4) (c % 16)) ≡ c
nibbles c h = ground (arith, bit_or-shl 4 (c / 16) (c % 16))

pred-suc : (n : ℕ) → suc n - 1 ≡ n
pred-suc n = omega arith

from_hex-text : (buf : Bytes) → All IsByte buf → from_hex (text buf) (length buf) ≡ some buf
unfolding from_hex text
from_hex-text [] h = refl
from_hex-text (c ∷ buf) h = ground (
  arith,
  char_to_hex-digit (c / 16),
  char_to_hex-digit (c % 16),
  from_hex-text buf h.1,
  nibbles c h.0,
  pred-suc (length buf),
)

-- Every buffer of bytes is printed, with a NUL behind twice as many characters, and `from_hex` reads
-- the text back into a buffer of that size.
pub from_hex-to_hex :
    (buf : Bytes)
    → All IsByte buf
    → (hex : Bytes) × (to_hex buf ≡ some (hex ++ 0 ∷ []))
      × (length hex ≡ 2 * length buf)
      × (from_hex hex (length buf) ≡ some buf)
unfolding to_hex
from_hex-to_hex buf h = (
  text buf,
  ground (arith, to_hex_loop-text buf (length buf * 2 + 1) h),
  length-text buf,
  from_hex-text buf h,
)

-- A text that `from_hex` accepts for a buffer of `n` bytes has exactly two characters for each, and
-- fills the buffer with bytes.
from_hex_accepts :
    (str : Bytes) (n : ℕ) (buf : Bytes)
    → from_hex str n ≡ some buf
    → (length str ≡ 2 * n) × (length buf ≡ n) × All IsByte buf
unfolding from_hex
from_hex_accepts [] n buf h = ground arith
from_hex_accepts (c ∷ []) n buf h = ground arith
from_hex_accepts (c ∷ d ∷ str) n buf h = elim (Option-cases (from_hex str (n - 1))) [
  | inl e ↦ ground arith
  | inr (p, e) ↦ ground (arith, from_hex_accepts str (n - 1) p e)
]
