-- ===== src/Marshal/Overflow.antt =====
-- overflows.h: the tests for 64 bits.
use pettycoin.Base.{
  ℕ, zero, suc, ◌+◌, ◌*◌, ◌/◌, ◌^◌, ◌<◌, ◌≤◌, ◌≡◌, ◌≢◌, ◌↔◌, inl, inr, subst, true, arith, ltb,
  ltb→ge, Bool-cases, u64,
}
use native.Mathlib.Nat.{mul-div_cancel, mod-eq_of_lt, div-mul-le_self}
use pettycoin.Marshal.{mul_overflows, add_overflows}

-- Of two numbers of 64 bits, `add_overflows` finds exactly a sum that does not fit.
pub add_overflows_exact :
    (a b : ℕ) → a < 2 ^ 64 → b < 2 ^ 64 → (add_overflows a b ≡ true) ↔ (2 ^ 64 ≤ a + b)
unfolding add_overflows
add_overflows_exact a b ha hb = (λ h. ground arith, λ h. ground arith)

product_fits : (a b : ℕ) → 0 < b → a * b < 2 ^ 64 → u64 (a * b) / b ≡ a
product_fits a b pos h = rw (mod-eq_of_lt h) (mul-div_cancel a pos)

product_wraps : (a b : ℕ) → 2 ^ 64 ≤ a * b → u64 (a * b) / b ≢ a
product_wraps a b h e =
    let back : a * b ≤ u64 (a * b) =
      subst (λ (t : ℕ). t * b ≤ u64 (a * b)) e (div-mul-le_self (u64 (a * b)) b) in
    omega arith

-- `mul_overflows` finds exactly a product that does not fit.
pub mul_overflows_exact : (a b : ℕ) → (mul_overflows a b ≡ true) ↔ (2 ^ 64 ≤ a * b)
unfolding mul_overflows
mul_overflows_exact a zero = (λ h. absurd (ground arith), λ h. absurd (omega arith))
mul_overflows_exact a (suc b) = (
  λ h. elim (Bool-cases (ltb (a * suc b) (2 ^ 64))) [
    | inl small ↦ absurd (ground (arith, product_fits a (suc b)))
    | inr big ↦ ltb→ge (a * suc b) (2 ^ 64) big
  ],
  λ h. ground (arith, product_wraps a (suc b) h),
)
