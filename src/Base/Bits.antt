-- ===== src/Base/Bits.antt =====
-- What the native `|` and `&` do at variables: digits that do not meet, and masks.
use Prim.Native.Nat.{
  ℕ, zero, suc, ◌+◌, ◌-◌, ◌*◌, ◌/◌, ◌%◌, ◌^◌, ◌≤◌, ◌<◌, min, max, bit_or, bit_or-bitwise, bit_and,
  bit_and-bitwise, digits,
}
use mathlib.Core.Path.{◌≡◌, refl, ap, sym, ◌∙◌}
use native.Mathlib.Nat.{
  pow-suc, one-le-pow, div-add-mod, mod-lt, add-mul-mod_self_right, mod-eq_of_lt,
}
use native.Mathlib.Omega.{arith}

abbrev or_with : ℕ → ℕ → ℕ → ℕ
or_with fuel a b = digits (λ y. y) max fuel a b

-- Any fuel that reaches the first number gives the same digits.
or_with_fuel : (n m a b : ℕ) → a ≤ n → a ≤ m → or_with n a b ≡ or_with m a b
or_with_fuel zero zero a b p q = refl
or_with_fuel zero (suc m) zero b p q = refl
or_with_fuel zero (suc m) (suc a) b p q = absurd (omega arith)
or_with_fuel (suc n) zero zero b p q = refl
or_with_fuel (suc n) zero (suc a) b p q = absurd (omega arith)
or_with_fuel (suc n) (suc m) zero b p q = refl
or_with_fuel (suc n) (suc m) (suc a) b p q =
    omega (arith, or_with_fuel n m (suc a / 2) (b / 2) (omega arith) (omega arith))

pub zero-bit_or : (b : ℕ) → bit_or 0 b ≡ b
zero-bit_or b = bit_or-bitwise 0 b

-- The lowest digit and the rest.
bit_or-div : (a b : ℕ) → bit_or a b ≡ bit_or (a / 2) (b / 2) * 2 + max (a % 2) (b % 2)
bit_or-div zero b = omega (arith, zero-bit_or b, zero-bit_or (b / 2))
bit_or-div (suc a) b =
    let same = or_with_fuel a (suc a / 2) (suc a / 2) (b / 2) (omega arith) (omega arith) in
    omega (arith, bit_or-bitwise (suc a) b, bit_or-bitwise (suc a / 2) (b / 2), same)

bit_or-zero : (n a : ℕ) → a ≤ n → bit_or a 0 ≡ a
bit_or-zero n zero h = refl
bit_or-zero zero (suc a) h = absurd (omega arith)
bit_or-zero (suc n) (suc a) h =
    omega (arith, bit_or-div (suc a) 0, bit_or-zero n (suc a / 2) (omega arith))

-- `(q << k) | r` is a sum where `r` fits below the shift.
pub bit_or-shl : (k q r : ℕ) → r < 2 ^ k → bit_or (q * 2 ^ k) r ≡ q * 2 ^ k + r
bit_or-shl zero q r h = ground (arith, bit_or-zero q q)
bit_or-shl (suc k) q r h =
    let half : r / 2 < 2 ^ k = omega (arith, pow-suc 2 k) in
    let twice : q * 2 ^ suc k ≡ 2 * (q * 2 ^ k) =
      omega (arith, ap (λ (t : ℕ). q * t) (pow-suc 2 k)) in
    ground (arith, twice, bit_or-div (q * 2 ^ suc k) r, bit_or-shl k q (r / 2) half)

abbrev and_with : ℕ → ℕ → ℕ → ℕ
and_with fuel a b = digits (λ _. 0) min fuel a b

and_with_fuel : (n m a b : ℕ) → a ≤ n → a ≤ m → and_with n a b ≡ and_with m a b
and_with_fuel zero zero a b p q = refl
and_with_fuel zero (suc m) zero b p q = refl
and_with_fuel zero (suc m) (suc a) b p q = absurd (omega arith)
and_with_fuel (suc n) zero zero b p q = refl
and_with_fuel (suc n) zero (suc a) b p q = absurd (omega arith)
and_with_fuel (suc n) (suc m) zero b p q = refl
and_with_fuel (suc n) (suc m) (suc a) b p q =
    omega (arith, and_with_fuel n m (suc a / 2) (b / 2) (omega arith) (omega arith))

zero-bit_and : (b : ℕ) → bit_and 0 b ≡ 0
zero-bit_and b = bit_and-bitwise 0 b

bit_and-div : (a b : ℕ) → bit_and a b ≡ bit_and (a / 2) (b / 2) * 2 + min (a % 2) (b % 2)
bit_and-div zero b = omega (arith, zero-bit_and b, zero-bit_and (b / 2))
bit_and-div (suc a) b =
    let same = and_with_fuel a (suc a / 2) (suc a / 2) (b / 2) (omega arith) (omega arith) in
    omega (arith, bit_and-bitwise (suc a) b, bit_and-bitwise (suc a / 2) (b / 2), same)

bit_and-zero : (n a : ℕ) → a ≤ n → bit_and a 0 ≡ 0
bit_and-zero n zero h = refl
bit_and-zero zero (suc a) h = absurd (omega arith)
bit_and-zero (suc n) (suc a) h =
    omega (arith, bit_and-div (suc a) 0, bit_and-zero n (suc a / 2) (omega arith))

-- Doubling a bound of remainders: the digits of `a % 2 ^ (k + 1)`.
mod-pow-suc : (k a : ℕ) → a % 2 ^ suc k ≡ a / 2 % 2 ^ k * 2 + a % 2
mod-pow-suc k a =
    let q = a / 2 / 2 ^ k in
    let r = a / 2 % 2 ^ k in
    let parts : a / 2 ≡ 2 ^ k * q + r = sym (div-add-mod (a / 2) (2 ^ k)) in
    let small : r < 2 ^ k = mod-lt (a / 2) (one-le-pow k 2 (omega arith)) in
    let whole : a ≡ (r * 2 + a % 2) + q * 2 ^ suc k =
      omega (arith, pow-suc 2 k, ap (λ (t : ℕ). q * t) (pow-suc 2 k)) in
    ap (λ (t : ℕ). t % 2 ^ suc k) whole
    ∙ add-mul-mod_self_right (r * 2 + a % 2) q (2 ^ suc k)
    ∙ mod-eq_of_lt (omega (arith, pow-suc 2 k))

-- A mask of `k` ones takes the remainder by `2 ^ k`.
pub bit_and-mask : (k a : ℕ) → bit_and a (2 ^ k - 1) ≡ a % 2 ^ k
bit_and-mask zero a = omega (arith, bit_and-zero a a)
bit_and-mask (suc k) a =
    let one : 1 ≤ 2 ^ k = one-le-pow k 2 (omega arith) in
    let half : (2 ^ suc k - 1) / 2 ≡ 2 ^ k - 1 = omega (arith, pow-suc 2 k) in
    ground (
      arith,
      pow-suc 2 k,
      half,
      bit_and-div a (2 ^ suc k - 1),
      bit_and-mask k (a / 2),
      mod-pow-suc k a,
    )
