-- ===== src/Reward/Decider.antt =====
-- reward.c: the way back to the block that decides a reward.
use pettycoin.Base.{
  ℕ, zero, suc, ◌%◌, ◌^◌, ◌<◌, ◌≤◌, ◌≡◌, ◌≢◌, inl, inr, refl, true, false, none, some, List, arith,
  leb, gt→leb, get_elem?, sub32,
}
use pettycoin.Crypto.{Crypto}
use pettycoin.Block.{Block, depth_of, block_empty}
use pettycoin.Chain.{block_preceeds, block_ancestor}
use pettycoin.Chain.Precedes.{IsRooted}
use pettycoin.Reward.{reward_end, decided_place, reward_get_tx}

-- Behind the genesis block there is nothing.
ancestor_past_root :
    (blocks : List Block)
    → IsRooted blocks
    → (count b : ℕ) (block : Block) → get_elem? blocks b ≡ some block
    → depth_of block < count
    → block_ancestor blocks b count ≡ none
unfolding block_ancestor
ancestor_past_root blocks rooted zero b block at deep = absurd (omega arith)
ancestor_past_root blocks rooted (suc count) b block at deep = elim (rooted b block at) [
  | inl root ↦ rw (at, root.0) refl
  | inr (p, parent, up, at_p, one) ↦
      rw (at, up) (ancestor_past_root blocks rooted count p parent at_p (omega arith))
]

count_wraps :
    (b : Block)
    → depth_of b < 2 ^ 31
    → depth_of b % 100 ≢ 0
    → 2 ^ 31 ≤ sub32 (depth_of b) (reward_end b)
unfolding reward_end
count_wraps b early odd = omega (arith, odd)

module _ ⦃c : Crypto⦄ where
  -- For a reward block that is not empty, not at the end of its period and before a claim block that is
  -- late enough, `reward_get_tx` reads through NULL: the number of blocks to go back is below 0 and
  -- wraps, and the walk goes past the genesis block.
  pub reward_get_tx_null :
      (blocks : List Block) (fuel r q : ℕ) (reward_block claim_block : Block)
      → IsRooted blocks
      → get_elem? blocks r ≡ some reward_block
      → get_elem? blocks q ≡ some claim_block
      → block_preceeds fuel blocks r q ≡ some true
      → block_empty reward_block ≡ false
      → depth_of reward_block % 100 ≢ 0
      → reward_end reward_block < depth_of claim_block
      → depth_of reward_block < 2 ^ 31
      → depth_of claim_block < 2 ^ 31
      → reward_get_tx fuel blocks r q ≡ none
  unfolding reward_get_tx decided_place
  reward_get_tx_null blocks fuel r q reward_block claim_block rooted at_r at_q pre full odd late
        early deep =
      let count = sub32 (depth_of reward_block) (reward_end reward_block) in
      let far : depth_of claim_block < count = omega (arith, count_wraps reward_block early odd) in
      let lost : block_ancestor blocks q count ≡ none =
        ancestor_past_root blocks rooted count q claim_block at_q far in
      let not_yet : leb (depth_of claim_block) (reward_end reward_block) ≡ false =
        gt→leb (depth_of claim_block) (reward_end reward_block) late in
      rw (at_r, at_q, pre, full, not_yet, lost) refl
