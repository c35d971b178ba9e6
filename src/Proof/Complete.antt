-- ===== src/Proof/Complete.antt =====
-- proof.c: the siblings on the way up from a place of a shard, and `combine` over them.
use pettycoin.Base.{
  ℕ, zero, suc, ◌+◌, ◌-◌, ◌*◌, ◌/◌, ◌%◌, ◌^◌, ◌<◌, ◌≡◌, inl, inr, sym, ap, ap₂, ◌∙◌, true, false,
  List, [], ◌∷◌, arith, ◌==◌, if◌then◌else◌, ==→eq, Bool-cases, bit, Bytes,
}
use native.Mathlib.Nat.{sub-zero, pow-suc, div-div-eq-div-mul}
use native.Mathlib.Numerals.{add-one}
use pettycoin.Crypto.{Crypto}
use pettycoin.Merkle.{merkle_two_hashes}
use pettycoin.Merkle.Tree.{leaf_at, tree}
use pettycoin.Proof.{combine}

-- The place of the sibling of place `q` of a level.
abbrev pub sibling : ℕ → ℕ
sibling q = if q % 2 == 1 then q - 1 else q + 1

-- Where a pair of places begins, seen from the level above.
pair_start : (t i : ℕ) → t / 2 ^ suc i * 2 ^ suc i ≡ (t / 2 ^ i - t / 2 ^ i % 2) * 2 ^ i
pair_start t i =
    let q = t / 2 ^ i in
    let up : t / 2 ^ suc i ≡ q / 2 =
      ap (λ (d : ℕ). t / d) (pow-suc 2 i) ∙ sym (div-div-eq-div-mul t (2 ^ i) 2) in
    let even : q / 2 * 2 ≡ q - q % 2 = omega arith in
    rw (up, pow-suc 2 i) (omega (arith, ap (λ (x : ℕ). x * 2 ^ i) even))

pair_left : (t i : ℕ) → bit t i ≡ true → (t / 2 ^ i - 1) * 2 ^ i ≡ t / 2 ^ suc i * 2 ^ suc i
pair_left t i odd =
    let one : t / 2 ^ i % 2 ≡ 1 = ==→eq (t / 2 ^ i % 2) 1 odd in rw (pair_start t i, one)

pair_right : (t i : ℕ) → bit t i ≡ true → t / 2 ^ i * 2 ^ i ≡ t / 2 ^ suc i * 2 ^ suc i + 2 ^ i
pair_right t i odd =
    let one : t / 2 ^ i % 2 ≡ 1 = ==→eq (t / 2 ^ i % 2) 1 odd in
    let back : t / 2 ^ i ≡ t / 2 ^ i - 1 + 1 = omega arith in
    rw (pair_start t i, one) (omega (arith, ap (λ (x : ℕ). x * 2 ^ i) back))

pair_even : (t i : ℕ) → bit t i ≡ false → t / 2 ^ i * 2 ^ i ≡ t / 2 ^ suc i * 2 ^ suc i
pair_even t i even =
    let none : t / 2 ^ i % 2 ≡ 0 = ground arith in rw (pair_start t i, none, sub-zero)

module _ ⦃c : Crypto⦄ (max_off : ℕ) (leaf : ℕ → Bytes) where
  -- The roots beside the way up from leaf `t`, for `n` levels from `i` on.
  unfoldable pub siblings : (t n i : ℕ) → List Bytes
  siblings t zero i = []
  siblings t (suc n) i = tree max_off leaf i (sibling (t / 2 ^ i) * 2 ^ i) ∷ siblings t n (suc i)

  step_up :
      (t i : ℕ)
      → (if bit t i
          then merkle_two_hashes
              (tree max_off leaf i (sibling (t / 2 ^ i) * 2 ^ i))
              (tree max_off leaf i (t / 2 ^ i * 2 ^ i))
          else merkle_two_hashes
              (tree max_off leaf i (t / 2 ^ i * 2 ^ i))
              (tree max_off leaf i (sibling (t / 2 ^ i) * 2 ^ i)))
        ≡ tree max_off leaf (suc i) (t / 2 ^ suc i * 2 ^ suc i)
  unfolding tree
  step_up t i = elim (Bool-cases (bit t i)) [
    | inl odd ↦ rw odd (
        ap₂ merkle_two_hashes (ap (tree max_off leaf i) (pair_left t i odd))
          (ap (tree max_off leaf i) (pair_right t i odd)))
    | inr even ↦ rw even (
        ap₂ merkle_two_hashes (ap (tree max_off leaf i) (pair_even t i even))
          (ap (tree max_off leaf i) (omega (arith, pair_even t i even))))
  ]

  combine-siblings :
      (t n i : ℕ)
      → combine t i (siblings t n i) (tree max_off leaf i (t / 2 ^ i * 2 ^ i))
        ≡ tree max_off leaf (i + n) (t / 2 ^ (i + n) * 2 ^ (i + n))
  unfolding combine siblings
  combine-siblings t zero i = ap (λ (k : ℕ). tree max_off leaf k (t / 2 ^ k * 2 ^ k)) (omega arith)
  combine-siblings t (suc n) i =
      let level : suc i + n ≡ i + suc n = omega arith in
      let rest = siblings t n (suc i) in
      ap (combine t (i + 1) rest) (step_up t i)
      ∙ ap (λ (j : ℕ). combine t j rest (tree max_off leaf (suc i) (t / 2 ^ suc i * 2 ^ suc i)))
          (add-one i)
      ∙ combine-siblings t n (suc i)
      ∙ ap (λ (k : ℕ). tree max_off leaf k (t / 2 ^ k * 2 ^ k)) level

  -- The way up of eight levels ends in the root of the whole tree.
  pub combine_root :
      (t : ℕ)
      → t < 256
      → combine t 0 (siblings t 8 0) (leaf_at max_off leaf t) ≡ tree max_off leaf 8 0
  combine_root t h =
      let bottom : t ≡ t / 2 ^ 0 * 2 ^ 0 = omega arith in
      let top : t / 2 ^ 8 * 2 ^ 8 ≡ 0 = omega arith in
      ap (λ (k : ℕ). combine t 0 (siblings t 8 0) (leaf_at max_off leaf k)) bottom
      ∙ unfold tree in combine-siblings t 8 0 ∙ ap (tree max_off leaf 8) top
