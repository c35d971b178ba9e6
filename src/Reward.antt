-- ===== src/Reward.antt =====
-- reward.c: which transaction of a block decides the reward for it. `none` is `abort` or a read through
-- NULL.
pub mod Place
pub mod Decider
use pettycoin.Base.{
  ℕ, ◌+◌, ◌-◌, ◌*◌, ◌/◌, ◌%◌, not, ◌||◌, Option, none, some, List, [], ◌∷◌, ltb, leb, if◌then◌else◌,
  ◌>>=◌, get_elem?, take, u32, u64, sub32, Bytes,
}
use pettycoin.Crypto.{Crypto}
use pettycoin.Protocol.{Tx, reward_period}
use pettycoin.Tx.{tx_pays_fee, tx_amount_sent}
use pettycoin.Shard.{num_shards}
use pettycoin.Block.{Block, depth_of, block_empty}
use pettycoin.Chain.{block_preceeds, block_ancestor}
use pettycoin.Merkle.{merkle_two_hashes}

-- The loop over the shards, from shard `i` on.
unfoldable pub shard_and_off : (shard_nums : List ℕ) → (n i : ℕ) → Option (ℕ × ℕ)
shard_and_off [] n i = none
shard_and_off (num ∷ nums) n i =
    let rest = shard_and_off nums (n - num) (i + 1) in if ltb n num then some (i, n) else rest

unfoldable pub get_shard_and_off : Block → ℕ → Option (ℕ × ℕ)
get_shard_and_off b n = shard_and_off (take (num_shards b.hdr) b.shard_nums) n 0

-- The index `i` and the total at the end of the loop.
unfoldable pub count_txs : (shard_nums : List ℕ) → (i total : ℕ) → ℕ × ℕ
count_txs [] i total = (i, total)
count_txs (num ∷ nums) i total = count_txs nums (i + 1) (u32 (total + num))

-- The function returns the index.
unfoldable pub num_txs : Block → ℕ
num_txs b = (count_txs (take (num_shards b.hdr) b.shard_nums) 0 0).0

-- PROTOCOL_REWARD, in 64 bits.
unfoldable pub reward : (total num_tx : ℕ) → ℕ
reward total num_tx = u64 (total * num_tx * 3 + 1024) / 1027

unfoldable pub reward_amount : Block → Tx → ℕ
reward_amount block tx =
    if not (tx_pays_fee tx) then 0 else u32 (reward (tx_amount_sent tx) (num_txs block))

-- `BN_bin2bn`: the bytes as a number, the first byte on top.
unfoldable pub bin2bn : Bytes → ℕ → ℕ
bin2bn [] acc = acc
bin2bn (b ∷ bs) acc = bin2bn bs (acc * 256 + b)

-- End of reward period.
unfoldable pub reward_end : Block → ℕ
reward_end b = u32 (u32 (depth_of b + reward_period - 1) / reward_period * reward_period)

module _ ⦃c : Crypto⦄ where
  -- From the decider on: `from` is the claim block, whose ancestor it is.
  unfoldable pub decided_place : List Block → (reward_block : Block) → (from : ℕ) → Option (ℕ × ℕ)
  decided_place blocks reward_block from = do
    d ← block_ancestor blocks from (sub32 (depth_of reward_block) (reward_end reward_block))
    decider ← get_elem? blocks d
    get_shard_and_off reward_block
        (bin2bn (merkle_two_hashes reward_block.sha decider.sha) 0 % num_txs reward_block)

  -- `some none` is false; the fuel is that of `block_preceeds`.
  unfoldable pub reward_get_tx :
      (fuel : ℕ) → List Block → (reward_num claim_num : ℕ) → Option (Option (ℕ × ℕ))
  reward_get_tx fuel blocks reward_num claim_num = do
    reward_block ← get_elem? blocks reward_num
    let rest = (do
      preceeds ← block_preceeds fuel blocks reward_num claim_num
      claim_block ← get_elem? blocks claim_num
      let decided = (do place ← decided_place blocks reward_block claim_num; some (some place))
      (if not preceeds || leb (depth_of claim_block) (reward_end reward_block)
          then some none
          else decided))
    (if block_empty reward_block then some none else rest)
