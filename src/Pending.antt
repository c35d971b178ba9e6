-- ===== src/Pending.antt =====
-- pending.h and pending.c: the transactions that wait for a block.
pub mod Array
use pettycoin.Base.{ℕ, zero, suc, ◌+◌, true, Option, none, some, [], ◌∷◌, ◌++◌, get_elem?, ◌>>=◌}
use pettycoin.Protocol.{Tx}
use pettycoin.Block.{Block}
use pettycoin.Shard.{BlockShard, num_shards, tx_for}
use pettycoin.State.{PendingBlock}

unfoldable pub add_to_unknown_pending : PendingBlock → Tx → PendingBlock
add_to_unknown_pending pending tx = record pending {
  unknown_tx = pending.unknown_tx ++ tx ∷ [];
  num_unknown = pending.num_unknown + 1;
}

-- What `block_to_pending` does at one place, given the transaction that it reads there.
unfoldable pub place_to_pending : Option Tx → PendingBlock → PendingBlock
place_to_pending none pending = pending
place_to_pending (some tx) pending = record (add_to_unknown_pending pending tx) {
  needs_recheck = true;
}

-- Its inner loop, over `count` places from `i`.
unfoldable pub places_to_pending : BlockShard → (i count : ℕ) → PendingBlock → PendingBlock
places_to_pending shard i zero pending = pending
places_to_pending shard i (suc count) pending =
    places_to_pending shard (i + 1) count (place_to_pending (tx_for shard i) pending)

-- Its outer loop, over `count` shards from `shard`; `none` is a read past the end.
unfoldable pub shards_to_pending : Block → (shard count : ℕ) → PendingBlock → Option PendingBlock
shards_to_pending block shard zero pending = some pending
shards_to_pending block shard (suc count) pending = do
  num ← get_elem? block.shard_nums shard
  own ← get_elem? block.shard shard
  shards_to_pending block (shard + 1) count (places_to_pending own 0 num pending)

-- Transfer all transactions from this block into the pending array.
unfoldable pub block_to_pending : PendingBlock → Block → Option PendingBlock
block_to_pending pending block = shards_to_pending block 0 (num_shards block.hdr) pending
