-- ===== src/Base/Le.antt =====
-- Little-endian integers in memory (`le16`, `le32` and their conversions).
use Prim.Native.Nat.{ℕ, zero, suc, ◌+◌, ◌*◌, ◌/◌, ◌%◌, ◌^◌, ◌<◌}
use mathlib.Core.Path.{◌≡◌, ap}
use mathlib.Core.List.{[], ◌∷◌, ◌++◌}
use native.Mathlib.Omega.{arith}
use pettycoin.Base.Lists.{length, take, drop}
use pettycoin.Base.Words.{Bytes}

abbrev pub le16 : ℕ → Bytes
le16 n = n % 256 ∷ n / 256 % 256 ∷ []

abbrev pub le32 : ℕ → Bytes
le32 n = n % 256 ∷ n / 256 % 256 ∷ n / 65536 % 256 ∷ n / 16777216 % 256 ∷ []

-- The first two, or four, bytes of the memory; a read past its end gives 0.
abbrev pub le16_at : Bytes → ℕ
le16_at (a ∷ b ∷ _) = a + 256 * b
le16_at _ = 0

abbrev pub le32_at : Bytes → ℕ
le32_at (a ∷ b ∷ c ∷ d ∷ _) = a + 256 * b + 65536 * c + 16777216 * d
le32_at _ = 0

pub le16_at-le16 : (n : ℕ) (rest : Bytes) → n < 2 ^ 16 → le16_at (le16 n ++ rest) ≡ n
le16_at-le16 n rest h = omega arith

pub le32_at-le32 : (n : ℕ) (rest : Bytes) → n < 2 ^ 32 → le32_at (le32 n ++ rest) ≡ n
le32_at-le32 n rest h = omega arith

-- Memory from `off` on, `len` bytes.
abbrev pub slice : ℕ → ℕ → Bytes → Bytes
slice off len mem = take len (drop off mem)

-- A field that ends before `k` is passed over.
pub drop-skip : (k m : ℕ) (xs ys : Bytes) → k ≡ length xs + m → drop k (xs ++ ys) ≡ drop m ys
drop-skip k m [] ys e = ap (λ (t : ℕ). drop t ys) (omega arith)
drop-skip zero m (x ∷ xs) ys e = absurd (omega arith)
drop-skip (suc k) m (x ∷ xs) ys e = drop-skip k m xs ys (omega arith)
