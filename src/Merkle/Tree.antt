-- ===== src/Merkle/Tree.antt =====
-- merkle_recurse.c against the complete binary tree over the leaves.
use pettycoin.Base.{
  ℕ, zero, suc, ◌+◌, ◌-◌, ◌/◌, ◌^◌, ◌<◌, ◌≡◌, ◌∙◌, false, Option, some, arith, bit_and, leb, ◌==◌,
  if◌then◌else◌, Bytes, bit_and-mask,
}
use native.Mathlib.Nat.{pow-suc, one-le-pow, mod_self}
use pettycoin.Crypto.{Crypto}
use pettycoin.Merkle.{zero_sha, merkle_two_hashes, merkle_recurse}

module _ ⦃c : Crypto⦄ (max_off : ℕ) (leaf : ℕ → Bytes) where
  unfoldable pub leaf_at : ℕ → Bytes
  leaf_at n = if leb max_off n then zero_sha else leaf n

  -- The root of the complete tree of `2 ^ k` leaves that begins at `off`.
  unfoldable pub tree : ℕ → ℕ → Bytes
  tree zero off = leaf_at off
  tree (suc k) off = merkle_two_hashes (tree k off) (tree k (off + 2 ^ k))

is_power : (k : ℕ) → bit_and (2 ^ k) (2 ^ k - 1) ≡ 0
is_power k = bit_and-mask k (2 ^ k) ∙ mod_self (2 ^ k)

module _ ⦃c : Crypto⦄ (max_off : ℕ) (leaf : ℕ → Bytes) (fn : ℕ → Option Bytes)
    (defined : (n : ℕ) → n < max_off → fn n ≡ some (leaf n)) where
  -- With more fuel than levels the recursion over `2 ^ k` leaves ends, no assertion fails, and its
  -- result is the root of their tree.
  pub merkle_recurse-tree :
      (fuel k off : ℕ)
      → k < fuel
      → merkle_recurse fuel off max_off (2 ^ k) fn ≡ some (tree max_off leaf k off)
  unfolding merkle_recurse tree leaf_at
  merkle_recurse-tree zero k off h = absurd (omega arith)
  merkle_recurse-tree (suc fuel) zero off h = ground (arith, defined off)
  merkle_recurse-tree (suc fuel) (suc k) off h =
      let two : 2 ^ suc k / 2 ≡ 2 ^ k = omega (arith, pow-suc 2 k) in
      let one : (2 ^ suc k == 1) ≡ false = ground (arith, pow-suc 2 k, one-le-pow k 2) in
      let some_leaf : (2 ^ suc k == 0) ≡ false = ground (arith, pow-suc 2 k, one-le-pow k 2) in
      rw (
        is_power (suc k),
        some_leaf,
        one,
        two,
        merkle_recurse-tree fuel k off (omega arith),
        merkle_recurse-tree fuel k (off + 2 ^ k) (omega arith),
      )
