-- ===== src/Difficulty/Retarget.antt =====
-- difficulty.c: how far the end of an interval can move the target.
use pettycoin.Base.{
  ℕ, suc, ◌-◌, ◌*◌, ◌/◌, ◌%◌, ◌^◌, ◌<◌, ◌≤◌, ◌≡◌, inl, inr, sym, ◌∙◌, Bool, true, false, ◌&&◌, ◌||◌,
  some, arith, bit_and, ltb, ◌==◌, ltb→lt, ltb→ge, Bool-cases, >>=-eq-some, some-injective, sub64,
  shr, bit_and-mask,
}
use native.Mathlib.Nat.{
  pow-suc, mul-le-mul_right, mul-le-mul_left, pow-le-pow_right, div-le_of_le-mul, mul-le-mul,
}
use pettycoin.Protocol.{block_target_time, difficulty_update_blocks}
use pettycoin.Difficulty.{
  decode_difficulty, encode_difficulty, clamp_time, limit_to_genesis, retarget,
}
use pettycoin.Difficulty.Target.{target_is}
use pettycoin.Difficulty.Encode.{IsCompact, encode_difficulty-IsCompact, decode_difficulty-pack}

-- The time counted for an interval is within a factor of 4 of the ideal one.
clamp_time_bounds :
    (actual ideal : ℕ)
    → (ideal / 4 ≤ clamp_time actual ideal) × (clamp_time actual ideal ≤ ideal * 4)
unfolding clamp_time
clamp_time_bounds actual ideal = ground arith

-- An interval whose last block is older than its first counts as one that took four times too long, as
-- the difference of the timestamps is compared without its sign.
pub clamp_time_backwards :
    (test_net : Bool) (prev_timestamp start_timestamp : ℕ)
    → prev_timestamp < start_timestamp
    → start_timestamp < 2 ^ 32
    → let ideal = block_target_time test_net * difficulty_update_blocks in
      clamp_time (sub64 prev_timestamp start_timestamp) ideal ≡ ideal * 4
unfolding clamp_time
clamp_time_backwards true p s older small = ground arith
clamp_time_backwards false p s older small = ground arith

abbrev pub genesis_target : ℕ → ℕ
genesis_target genesis = genesis % 2 ^ 24 * 256 ^ (shr genesis 24 - 3)

-- A larger exponent makes a larger target, whatever the mantissas.
exponent_wins :
    (m e m' e' : ℕ)
    → m < 2 ^ 24
    → 3 ≤ e
    → e < e'
    → 65536 ≤ m'
    → m * 256 ^ (e - 3) ≤ m' * 256 ^ (e' - 3)
exponent_wins m e m' e' fits low lt big =
    let up : 256 ^ suc (e - 3) ≤ 256 ^ (e' - 3) = pow-le-pow_right (omega arith) (omega arith) in
    let a : m * 256 ^ (e - 3) ≤ 16777216 * 256 ^ (e - 3) =
      mul-le-mul_right (256 ^ (e - 3)) (omega arith) in
    let b : 65536 * 256 ^ (e' - 3) ≤ m' * 256 ^ (e' - 3) = mul-le-mul_right (256 ^ (e' - 3)) big in
    omega (arith, pow-suc 256 (e - 3))

-- The test that picks the genesis block's difficulty.
abbrev over : (g gm exp m : ℕ) → Bool
over g gm exp m = ltb g exp || (exp == g && ltb gm m)

over_target :
    (g gm exp m : ℕ)
    → gm < 2 ^ 24
    → 3 ≤ g
    → 65536 ≤ m
    → over g gm exp m ≡ true
    → gm * 256 ^ (g - 3) ≤ m * 256 ^ (exp - 3)
over_target g gm exp m fits low big h = elim (Bool-cases (ltb g exp)) [
  | inl lt ↦ exponent_wins gm g m exp fits low (ltb→lt g exp lt) big
  | inr ge ↦
      let same : exp ≡ g = ground arith in
      let less : gm ≤ m = ground arith in rw same (mul-le-mul_right (256 ^ (g - 3)) less)
]

within_target :
    (g gm exp m : ℕ)
    → m < 2 ^ 24
    → 3 ≤ exp
    → 65536 ≤ gm
    → over g gm exp m ≡ false
    → m * 256 ^ (exp - 3) ≤ gm * 256 ^ (g - 3)
within_target g gm exp m fits low big h = elim (Bool-cases (ltb exp g)) [
  | inl lt ↦ exponent_wins m exp gm g fits low (ltb→lt exp g lt) big
  | inr ge ↦
      let same : exp ≡ g = ground arith in
      let less : m ≤ gm = ground arith in rw same (mul-le-mul_right (256 ^ (g - 3)) less)
]

-- The result is the new target or that of the genesis block, whichever is smaller.
limit_to_genesis_target :
    (genesis exp m target : ℕ)
    → IsCompact target exp m
    → exp < 256
    → 3 ≤ shr genesis 24
    → shr genesis 24 < 256
    → 65536 ≤ genesis % 2 ^ 24
    → (new : ℕ) × (decode_difficulty (limit_to_genesis genesis (exp, m)) ≡ some new)
      × (new ≤ m * 256 ^ (exp - 3))
      × (new ≤ genesis_target genesis)
unfolding limit_to_genesis
limit_to_genesis_target genesis exp m target c he low top big =
    let g = shr genesis 24 in
    let gm = genesis % 2 ^ 24 in
    let mask : bit_and genesis 0x00ffffff ≡ gm = bit_and-mask 24 genesis in
    elim (Bool-cases (over g gm exp m)) [
      | inl easier ↦ (
        gm * 256 ^ (g - 3),
        rw (mask, easier) (decode_difficulty-pack g gm low top (omega arith)),
        over_target g gm exp m (omega arith) low c.low easier,
        omega arith,
      )
      | inr harder ↦ (
        m * 256 ^ (exp - 3),
        rw (mask, harder)
            (decode_difficulty-pack exp m (omega (arith, c.exponent)) he (omega (arith, c.high))),
        omega arith,
        within_target g gm exp m (omega (arith, c.high)) (omega (arith, c.exponent)) big harder,
      )
    ]

scaled_time : (old actual ideal : ℕ) → actual ≤ ideal * 4 → old * actual ≤ ideal * (4 * old)
scaled_time old actual ideal h = omega (arith, mul-le-mul_left old h)

pub decoded_lt :
    (d target : ℕ) → shr d 24 ≤ 32 → decode_difficulty d ≡ some target → target < 2 ^ 256
decoded_lt d target small e = elim (Bool-cases (ltb (shr d 24) 3)) [
  | inl short ↦ absurd (unfold decode_difficulty in ground arith)
  | inr long ↦
      let k = shr d 24 - 3 in
      let is : target ≡ d % 2 ^ 24 * 256 ^ k =
        some-injective (sym e ∙ target_is d k (omega (arith, ltb→ge (shr d 24) 3 long))) in
      let unit : 256 ^ k ≤ 256 ^ 29 = pow-le-pow_right (omega arith) {j = 29} (omega arith) in
      let fits : d % 2 ^ 24 ≤ 16777215 = omega arith in omega (arith, mul-le-mul fits unit)
]

short_exponent : (exp target : ℕ) → 256 ^ (exp - 1) ≤ target → target < 4 * 2 ^ 256 → exp < 256
short_exponent exp target short small = elim (Bool-cases (ltb exp 256)) [
  | inl lt ↦ ltb→lt exp 256 lt
  | inr ge ↦
      let big : 256 ^ 34 ≤ 256 ^ (exp - 1) =
        pow-le-pow_right (omega arith) {i = 34} (omega (arith, ltb→ge exp 256 ge)) in
      absurd (omega arith)
]

-- `get_difficulty` at the end of an interval, from a valid difficulty and over a genesis block with a
-- full mantissa: the new difficulty is valid, its target is at most four times the previous one, and it
-- is never easier than that of the genesis block.
pub retarget_bounds :
    (test_net : Bool) (prev p s genesis old d : ℕ)
    → shr prev 24 ≤ 32
    → decode_difficulty prev ≡ some old
    → 3 ≤ shr genesis 24
    → shr genesis 24 < 256
    → 65536 ≤ genesis % 2 ^ 24
    → retarget test_net prev p s genesis ≡ some d
    → (new : ℕ) × (decode_difficulty d ≡ some new)
      × (new ≤ 4 * old)
      × (new ≤ genesis_target genesis)
unfolding retarget
retarget_bounds test_net prev p s genesis old d small e low top big r =
    let ideal = block_target_time test_net * difficulty_update_blocks in
    let actual = clamp_time (sub64 p s) ideal in
    let (parts, packed, done) =
      >>=-eq-some (encode_difficulty (old * actual / ideal))
        (λ (q : ℕ × ℕ). some (limit_to_genesis genesis q)) (rw e at r) in
    let c = encode_difficulty-IsCompact (old * actual / ideal) parts.0 parts.1 packed in
    let four : old * actual / ideal ≤ 4 * old =
      div-le_of_le-mul ideal
        (scaled_time old actual ideal (clamp_time_bounds (sub64 p s) ideal).1) in
    let short : parts.0 < 256 =
      short_exponent parts.0 (old * actual / ideal) c.short
        (omega (arith, decoded_lt prev old small e)) in
    let (new, is, under, capped) =
      limit_to_genesis_target genesis parts.0 parts.1 (old * actual / ideal) c short low top big in
    (new, rw (sym (some-injective done)) is, omega (arith, c.below), capped)
