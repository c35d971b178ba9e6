-- ===== src/Difficulty/Encode.antt =====
-- difficulty.c: the compact form of a target.
use pettycoin.Base.{
  ℕ, zero, suc, ◌+◌, ◌-◌, ◌*◌, ◌/◌, ◌^◌, ◌<◌, ◌≤◌, ◌≡◌, inl, inr, refl, ap, ◌∙◌, subst, some, arith,
  bit_and, bit_or, ltb, ltb→lt, ltb→ge, Bool-cases, u32, shl, shr, bit_or-shl, bit_and-mask,
}
use native.Mathlib.Nat.{
  mul_comm, pow-suc, one-le-pow, div-mul-le_self, lt-div-mul-add, le-div_iff_mul-le,
}
use native.Mathlib.Numerals.{add-one}
use pettycoin.Difficulty.{decode_difficulty, num_bytes_loop, num_bytes, encode_difficulty}
use pettycoin.Difficulty.Target.{pow_bytes, target_is}

num_bytes_loop-zero : (fuel : ℕ) → num_bytes_loop fuel 0 ≡ 0
unfolding num_bytes_loop
num_bytes_loop-zero zero = refl
num_bytes_loop-zero (suc fuel) = refl

num_bytes_loop_bounds :
    (fuel n : ℕ)
    → n ≤ fuel
    → (n < 256 ^ num_bytes_loop fuel n) × (0 < n → 256 ^ num_bytes_loop fuel n ≤ 256 * n)
unfolding num_bytes_loop
num_bytes_loop_bounds zero n h = (omega arith, λ pos. absurd (omega arith))
num_bytes_loop_bounds (suc fuel) zero h = (omega arith, λ pos. absurd (omega arith))
num_bytes_loop_bounds (suc fuel) (suc n) h =
    let r = num_bytes_loop fuel (suc n / 256) in
    let (above, below) = num_bytes_loop_bounds fuel (suc n / 256) (omega arith) in
    let unit : 256 ^ (r + 1) ≡ 256 * 256 ^ r = rw (add-one r) (omega (arith, pow-suc 256 r)) in
    let low : 256 ^ r ≤ suc n = elim (Bool-cases (ltb 0 (suc n / 256))) [
      | inl pos ↦ omega (arith, below (ltb→lt 0 (suc n / 256) pos))
      | inr small ↦
          let nothing : suc n / 256 ≡ 0 = omega (arith, ltb→ge 0 (suc n / 256) small) in
          let stop : r ≡ 0 = ap (num_bytes_loop fuel) nothing ∙ num_bytes_loop-zero fuel in
          rw stop (omega arith)
    ] in
    let step : num_bytes_loop (suc fuel) (suc n) ≡ r + 1 = ground arith in
    (rw (step, unit) (omega arith), λ pos. rw (step, unit) (omega arith))

-- `BN_num_bytes` of a number that is not 0: the least number of bytes that holds it.
pub num_bytes_bounds : (n : ℕ) → 0 < n → (n < 256 ^ num_bytes n) × (256 ^ num_bytes n ≤ 256 * n)
unfolding num_bytes
num_bytes_bounds n pos =
    let (above, below) = num_bytes_loop_bounds n n (omega arith) in (above, below pos)

-- The compact form of an exponent and a mantissa.
abbrev pub pack : ℕ → ℕ → ℕ
pack exp mantissa = bit_or (u32 (shl exp 24)) mantissa

pack_fields :
    (exp m : ℕ)
    → exp < 256
    → m < 2 ^ 24
    → (shr (pack exp m) 24 ≡ exp) × (bit_and (pack exp m) 0x00ffffff ≡ m)
pack_fields exp m he hm =
    let small : u32 (shl exp 24) ≡ exp * 2 ^ 24 = omega arith in
    let sum : pack exp m ≡ exp * 2 ^ 24 + m = rw small (bit_or-shl 24 exp m hm) in
    (rw sum (omega arith), rw (bit_and-mask 24 (pack exp m), sum) (omega arith))

pub decode_difficulty-pack :
    (exp m : ℕ)
    → 3 ≤ exp
    → exp < 256
    → m < 2 ^ 24
    → decode_difficulty (pack exp m) ≡ some (m * 256 ^ (exp - 3))
decode_difficulty-pack exp m low he hm =
    let (top, bottom) = pack_fields exp m he hm in
    target_is (pack exp m) (exp - 3) (omega arith)
    ∙ ap (λ (v : ℕ). some (v * 256 ^ (exp - 3))) (omega (arith, bit_and-mask 24 (pack exp m)))

-- What `encode_difficulty` makes of a target: a mantissa of three bytes, the first of them not 0, that
-- is the target but for the bytes that the exponent leaves out.
pub record IsCompact (target exp m : ℕ) : Type 0 where
  pub exponent : 3 < exp
  pub low : 65536 ≤ m
  pub high : m < 0x00ffffff
  pub below : m * 256 ^ (exp - 3) ≤ target
  pub above : target < (m + 1) * 256 ^ (exp - 3)
  pub short : 256 ^ (exp - 1) ≤ target

encode_difficulty_ok :
    (target exp m : ℕ)
    → encode_difficulty target ≡ some (exp, m)
    → (exp ≡ num_bytes target) × (3 < exp) × (m ≡ target / 2 ^ (8 * (exp - 3))) × (m < 0x00ffffff)
unfolding encode_difficulty
encode_difficulty_ok target exp m e = ground arith

nonzero_of_bytes : (n : ℕ) → 0 < num_bytes n → 0 < n
unfolding num_bytes num_bytes_loop
nonzero_of_bytes zero h = h
nonzero_of_bytes (suc n) h = omega arith

first_byte : (n k : ℕ) → 0 < n → k ≡ num_bytes n → 3 < k → 256 ^ (k - 1) ≤ n
first_byte n k pos e long =
    let (_, below) = num_bytes_bounds n pos in
    let k' : num_bytes n ≡ suc (k - 1) = omega arith in
    omega (arith, pow-suc 256 (k - 1), subst (λ (t : ℕ). 256 ^ t ≤ 256 * n) k' below)

two_more : (k j : ℕ) → j ≡ suc (suc k) → 65536 * 256 ^ k ≡ 256 ^ j
two_more k j e = rw e (omega (arith, pow-suc 256 k, pow-suc 256 (suc k)))

-- `encode_difficulty` makes a compact form of its target whenever it makes one.
pub encode_difficulty-IsCompact :
    (target exp m : ℕ) → encode_difficulty target ≡ some (exp, m) → IsCompact target exp m
encode_difficulty-IsCompact target exp m e =
    let (bytes, long, part, high) = encode_difficulty_ok target exp m e in
    let k = exp - 3 in
    let unit : 2 ^ (8 * k) ≡ 256 ^ k = ap (λ (t : ℕ). 2 ^ t) (mul_comm 8 k) ∙ pow_bytes k in
    let some_unit : 0 < 256 ^ k = one-le-pow k 256 (omega arith) in
    let m_is : m ≡ target / 256 ^ k = part ∙ ap (λ (t : ℕ). target / t) unit in
    let pos : 0 < target = nonzero_of_bytes target (omega arith) in
    let short : 256 ^ (exp - 1) ≤ target = first_byte target exp pos bytes long in
    let three : 65536 * 256 ^ k ≡ 256 ^ (exp - 1) = two_more k (exp - 1) (omega arith) in
    record {
      exponent = long;
      low = rw m_is ((le-div_iff_mul-le some_unit).1 (omega arith));
      high = high;
      below = rw m_is (div-mul-le_self target (256 ^ k));
      above = rw m_is (omega (arith, lt-div-mul-add {a = target} some_unit));
      short = short;
    }
