-- ===== src/Examples/Target.antt =====
-- difficulty.c at concrete inputs.
use pettycoin.Base.{
  ℕ, zero, suc, ◌*◌, ◌≤◌, ◌≡◌, refl, true, some, arith, ltb, replicate, All, sub64, Bytes, IsByte,
}
use pettycoin.Protocol.{block_target_time, difficulty_update_blocks}
use pettycoin.Difficulty.{
  decode_difficulty, beats_target, encode_difficulty, num_bytes, clamp_time, limit_to_genesis,
  retarget,
}
use pettycoin.Difficulty.Target.{le_value, beats_target-decode}
use pettycoin.Difficulty.Retarget.{genesis_target, clamp_time_backwards, retarget_bounds}

abbrev nine_sha : Bytes
nine_sha = replicate 32 9

nine_bytes : (n : ℕ) → All IsByte (replicate n 9)
nine_bytes zero = _
nine_bytes (suc n) = (omega arith, nine_bytes n)

beats_target-decode_example :
    (target : ℕ) × (decode_difficulty 0x1effffff ≡ some target)
    × (beats_target nine_sha 0x1effffff ≡ some (ltb (le_value nine_sha) target))
beats_target-decode_example =
    beats_target-decode nine_sha 0x1effffff (nine_bytes 32) refl (omega arith) (omega arith)

clamp_time_backwards_example :
    clamp_time (sub64 999 1000) (block_target_time true * difficulty_update_blocks)
    ≡ block_target_time true * difficulty_update_blocks * 4
clamp_time_backwards_example = clamp_time_backwards true 999 1000 (omega arith) (omega arith)

abbrev genesis : ℕ
genesis = 0x1effffff

retarget_bounds_example :
    (new : ℕ) × (decode_difficulty 0x04800000 ≡ some new)
    × (new ≤ 4 * 0x80000000)
    × (new ≤ genesis_target genesis)
unfolding decode_difficulty retarget clamp_time limit_to_genesis encode_difficulty num_bytes
retarget_bounds_example =
    retarget_bounds true 0x04800000 20161 1 genesis 0x80000000 0x04800000 (omega arith) refl
      (omega arith) (omega arith) (omega arith) refl
