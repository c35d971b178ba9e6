-- ===== src/Examples/Rewards.antt =====
-- reward.c at concrete inputs: a chain of blocks, in which a transaction of depth 101 claims the reward
-- for the block of depth 1.
use pettycoin.Base.{
  ℕ, zero, suc, ◌+◌, ◌-◌, ◌<◌, ◌≡◌, ◌⊎◌, inl, inr, refl, sym, ap, ◌∙◌, subst, true, false, none,
  some, List, [], ◌∷◌, arith, ◌==◌, if◌then◌else◌, some-injective, get_elem?, replicate,
}
use pettycoin.Block.{Block, depth_of, block_empty}
use pettycoin.Shard.{num_shards}
use pettycoin.Chain.{block_preceeds}
use pettycoin.Chain.Precedes.{IsRooted, HasParent}
use pettycoin.Reward.{num_txs, reward_end, reward_get_tx}
use pettycoin.Reward.Place.{num_txs_shards}
use pettycoin.Reward.Decider.{reward_get_tx_null}
use pettycoin.Examples.{toy_crypto, old_hash, address}

abbrev link : ℕ → Block
link depth = record {
  hdr = record {
    version = 1;
    features_vote = 0;
    shard_order = 1;
    nonce2 = replicate 13 0;
    prev_block = old_hash;
    num_prev_txhashes = 0;
    depth = depth;
    fees_to = address;
  };
  shard_nums = 5 ∷ 0 ∷ [];
  merkles = old_hash ∷ old_hash ∷ [];
  prev_txhashes = [];
  tailer = record { timestamp = 1000; difficulty = 0; nonce1 = 0 };
  sha = old_hash;
  shard = [];
  total_work = depth;
  pending_features = 0;
  all_known = true;
  complaint = false;
  prev = if depth == 0 then none else some (depth - 1);
  children = [];
}

abbrev links : (n depth : ℕ) → List Block
links zero depth = []
links (suc n) depth = link depth ∷ links n (depth + 1)

num_txs_shards_example : num_txs (link 1) ≡ num_shards (link 1).hdr
unfolding num_shards
num_txs_shards_example = num_txs_shards (link 1) refl

links_get :
    (n d b : ℕ) (block : Block)
    → get_elem? (links n d) b ≡ some block
    → (block ≡ link (d + b)) × (b < n)
links_get zero d b block at = cc at
links_get (suc n) d zero block at = (sym (some-injective at) ∙ ap link (omega arith), omega arith)
links_get (suc n) d (suc b) block at =
    let (is, small) = links_get n (d + 1) b block at in (is ∙ ap link (omega arith), omega arith)

links_at : (n d b : ℕ) → b < n → get_elem? (links n d) b ≡ some (link (d + b))
links_at zero d b h = absurd (omega arith)
links_at (suc n) d zero h = ap (λ (t : ℕ). some (link t)) (omega arith)
links_at (suc n) d (suc b) h =
    links_at n (d + 1) b (omega arith) ∙ ap (λ (t : ℕ). some (link t)) (omega arith)

abbrev Linked : ℕ → Block → Type 0
Linked n x = ((x.prev ≡ none) × (depth_of x ≡ 0)) ⊎ HasParent (links n 0) x

link_prev : (b : ℕ) → (link (0 + suc b)).prev ≡ some b
link_prev b =
    let not_root : (0 + suc b == 0) ≡ false = ground arith in
    rw not_root (ap (λ (t : ℕ). some t) (omega arith))

links-IsRooted : (n : ℕ) → IsRooted (links n 0)
links-IsRooted zero b block at = cc at
links-IsRooted (suc n) zero block at = subst (Linked (suc n)) (some-injective at) (inl (refl, refl))
links-IsRooted (suc n) (suc b) block at =
    let (is, small) = links_get (suc n) 0 (suc b) block at in
    subst (Linked (suc n)) (sym is)
      (inr (b, link (0 + b), link_prev b, links_at (suc n) 0 b (omega arith), omega arith))

reward_get_tx_null_example : reward_get_tx 102 (links 102 0) 1 101 ≡ none
unfolding block_preceeds block_empty num_shards reward_end
reward_get_tx_null_example =
    reward_get_tx_null (links 102 0) 102 1 101 (link 1) (link 101) (links-IsRooted 102) refl refl
      refl refl (omega arith) (omega arith) (omega arith) (omega arith)
