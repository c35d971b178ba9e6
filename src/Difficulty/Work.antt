-- ===== src/Difficulty/Work.antt =====
-- difficulty.c: the work of a chain.
use pettycoin.Base.{
  ℕ, ◌+◌, ◌-◌, ◌*◌, ◌/◌, ◌%◌, ◌^◌, ◌<◌, ◌≤◌, ◌≡◌, refl, some, arith, some-injective, shr,
}
use native.Mathlib.Nat.{le-div_iff_mul-le, div-mul-le_self, mul-le-mul_left, le_trans}
use pettycoin.Difficulty.{decode_difficulty, total_work_done}
use pettycoin.Difficulty.Target.{target_is}
use pettycoin.Difficulty.Retarget.{decoded_lt}

div_anti : (n a b : ℕ) → 0 < a → a ≤ b → n / b ≤ n / a
div_anti n a b pos le =
    (le-div_iff_mul-le pos).1 (le_trans (mul-le-mul_left (n / b) le) (div-mul-le_self n b))

-- A valid difficulty adds work: a chain that grows by a block has more work than before.
total_work_done_increases :
    (d prev : ℕ)
    → 3 ≤ shr d 24
    → shr d 24 ≤ 32
    → (work : ℕ) × (total_work_done d prev ≡ some work) × (prev < work)
unfolding total_work_done
total_work_done_increases d prev low high =
    let k = shr d 24 - 3 in
    let t = d % 2 ^ 24 * 256 ^ k in
    let is : decode_difficulty d ≡ some t = target_is d k (omega arith) in
    let one : 1 ≤ 2 ^ 256 / (t + 1) =
      (le-div_iff_mul-le (omega arith)).1 (omega (arith, decoded_lt d t high is)) in
    (2 ^ 256 / (t + 1) + prev, rw is refl, omega (arith, one))

-- Of two blocks over one chain, the one with the smaller target has at least as much work.
total_work_done_monotone :
    (d d' t t' prev w w' : ℕ)
    → decode_difficulty d ≡ some t
    → decode_difficulty d' ≡ some t'
    → t ≤ t'
    → total_work_done d prev ≡ some w
    → total_work_done d' prev ≡ some w'
    → w' ≤ w
unfolding total_work_done
total_work_done_monotone d d' t t' prev w w' is is' le e e' =
    let a : 2 ^ 256 / (t + 1) + prev ≡ w = some-injective (rw is at e) in
    let b : 2 ^ 256 / (t' + 1) + prev ≡ w' = some-injective (rw is' at e') in
    let c : 2 ^ 256 / (t' + 1) ≤ 2 ^ 256 / (t + 1) =
      div_anti (2 ^ 256) (t + 1) (t' + 1) (omega arith) (omega arith) in
    omega (arith, a, b, c)
