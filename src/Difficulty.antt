-- ===== src/Difficulty.antt =====
-- difficulty.c and difficulty.h. A BIGNUM is a natural number; OpenSSL's failures for want of memory
-- are not modelled. `none` is a failed assertion or an exit with an error.
pub mod Target
pub mod Encode
pub mod Retarget
pub mod Work
use pettycoin.Base.{
  ℕ, zero, suc, ◌+◌, ◌-◌, ◌*◌, ◌/◌, ◌^◌, Bool, true, false, not, ◌&&◌, ◌||◌, Option, none, some,
  List, [], ◌∷◌, Bytes, ltb, leb, ◌==◌, if◌then◌else◌, get_or, drop, bit_and, bit_or, shl, shr, u32,
  sub64, ◌>>=◌,
}
use pettycoin.Protocol.{block_target_time, difficulty_update_blocks}

abbrev pub sha256_digest_length : ℕ
sha256_digest_length = 32

-- Top 8 bits are exponent, in bytes; bottom 24 bits are value. `BN_lshift` refuses a negative shift.
unfoldable pub decode_difficulty : ℕ → Option ℕ
decode_difficulty difficulty =
    let exp = shr difficulty 24 in
    if ltb exp 3 then none else some (shl (bit_and difficulty 0x00ffffff) ((exp - 3) * 8))

-- All the bytes are zero.
all_zero : Bytes → Bool
all_zero [] = true
all_zero (b ∷ bs) = (b == 0) && all_zero bs

-- The last three of the `exp` low bytes, as a number.
abbrev pub top_three : Bytes → ℕ → ℕ
top_three sha exp =
    bit_or (bit_or (shl (get_or sha (exp - 1) 0) 16) (shl (get_or sha (exp - 2) 0) 8))
      (get_or sha (exp - 3) 0)

unfoldable pub beats_target : Bytes → ℕ → Option Bool
unfolding all_zero
beats_target sha difficulty =
    let exp = shr difficulty 24 in
    if ltb sha256_digest_length exp || ltb exp 3
    then none
    else if not (all_zero (drop exp sha))
    then some false
    else some (ltb (top_three sha exp) (bit_and difficulty 0x00ffffff))

unfoldable pub difficulty_one_sixteenth : ℕ → ℕ
difficulty_one_sixteenth difficulty =
    let exp = shr difficulty 24 in
    let mantissa = bit_and difficulty 0x00ffffff in
    if bit_and (u32 (shl mantissa 4)) 0xff000000 == 0
    then bit_or (u32 (shl exp 24)) (shl mantissa 4)
    else if exp == sha256_digest_length - 1
    then bit_or (u32 (shl exp 24)) 0x00ffffff
    else bit_or (u32 (shl (exp + 1) 24)) (shr mantissa 4)

-- `BN_num_bytes`; a number is fuel enough for its own bytes.
num_bytes_loop : ℕ → ℕ → ℕ
num_bytes_loop zero n = 0
num_bytes_loop (suc fuel) n =
    let rest = num_bytes_loop fuel (n / 256) in if n == 0 then 0 else rest + 1

unfoldable pub num_bytes : ℕ → ℕ
unfolding num_bytes_loop
num_bytes n = num_bytes_loop n n

-- The exponent and the mantissa.
unfoldable pub encode_difficulty : ℕ → Option (ℕ × ℕ)
encode_difficulty target =
    let exp = num_bytes target in
    let mantissa = shr target (8 * (exp - 3)) in
    if leb exp 3 then none else if ltb mantissa 0x00ffffff then some (exp, mantissa) else none

-- The time that the last interval took, in the unsigned arithmetic of the comparisons, kept within a
-- factor of 4 of the time that it should take.
unfoldable pub clamp_time : (actual_time ideal_time : ℕ) → ℕ
clamp_time actual_time ideal_time =
    let slow = if ltb actual_time (ideal_time / 4) then ideal_time / 4 else actual_time in
    if ltb (ideal_time * 4) slow then ideal_time * 4 else slow

-- Don't go below genesis block difficulty!
unfoldable pub limit_to_genesis : ℕ → ℕ × ℕ → ℕ
limit_to_genesis genesis (exp, base) =
    let genesis_exp = shr genesis 24 in
    let genesis_base = bit_and genesis 0x00ffffff in
    if ltb genesis_exp exp || ((exp == genesis_exp) && ltb genesis_base base)
    then bit_or (u32 (shl genesis_exp 24)) genesis_base
    else bit_or (u32 (shl exp 24)) base

-- `get_difficulty` from the timestamps on: what it computes at the end of an interval.
unfoldable pub retarget :
    (test_net : Bool) (prev_difficulty prev_timestamp start_timestamp genesis : ℕ) → Option ℕ
retarget test_net prev_difficulty prev_timestamp start_timestamp genesis = do
  let ideal_time = block_target_time test_net * difficulty_update_blocks
  let actual_time = clamp_time (sub64 prev_timestamp start_timestamp) ideal_time
  target ← decode_difficulty prev_difficulty
  parts ← encode_difficulty (target * actual_time / ideal_time)
  some (limit_to_genesis genesis parts)

-- Work = 2^256 / (target + 1), on top of the work of the blocks before.
unfoldable pub total_work_done : (difficulty prev : ℕ) → Option ℕ
total_work_done difficulty prev = do
  target ← decode_difficulty difficulty
  some (2 ^ 256 / (target + 1) + prev)
