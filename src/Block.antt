-- ===== src/Block.antt =====
-- block.h and block.c: the blocks, in the store of all blocks. A block is named by its number in the
-- store, which stands for its pointer; `complaint` says whether the pointer is set.
use pettycoin.Base.{
  ℕ, zero, suc, Bool, true, false, ◌&&◌, Option, none, some, List, [], ◌∷◌, Bytes, ltb, ◌==◌,
  if◌then◌else◌, get_elem?, get_or, ◌>>=◌,
}
use pettycoin.Protocol.{BlockHeader, BlockTailer, Tx, InputRef}
use pettycoin.Shard.{
  TxpOrHash, txp, hash, BlockShard, unknown, entry_tx, shard_all_known, num_shards,
}

pub record Block : Type 0 where
  pub hdr : BlockHeader
  pub shard_nums : List ℕ
  pub merkles : List Bytes
  pub prev_txhashes : Bytes
  pub tailer : BlockTailer
  pub sha : Bytes
  pub shard : List BlockShard
  pub total_work : ℕ
  pub pending_features : ℕ
  pub all_known : Bool
  pub complaint : Bool
  pub prev : Option ℕ
  pub children : List ℕ

abbrev pub depth_of : Block → ℕ
depth_of b = b.hdr.depth

-- The first `n` of the list are all true.
abbrev all_first : List Bool → ℕ → Bool
all_first xs zero = true
all_first [] (suc n) = false
all_first (x ∷ xs) (suc n) = x && all_first xs n

abbrev known_flags : List BlockShard → List Bool
known_flags [] = []
known_flags (s ∷ ss) = shard_all_known s ∷ known_flags ss

abbrev empty_flags : List ℕ → List Bool
empty_flags [] = []
empty_flags (n ∷ ns) = (n == 0) ∷ empty_flags ns

-- Do we have every tx in this block?
unfoldable pub block_all_known : Block → Bool
block_all_known block = all_first (known_flags block.shard) (num_shards block.hdr)

-- Does the block have 0 transactions?
unfoldable pub block_empty : Block → Bool
block_empty block = all_first (empty_flags block.shard_nums) (num_shards block.hdr)

-- What stands at a place, behind the assertions that the shard and the place exist.
place : Block → (shardnum txoff : ℕ) → Option TxpOrHash
place block shardnum txoff = do
  s ← get_elem? block.shard shardnum
  (if ltb shardnum (num_shards block.hdr) && ltb txoff s.size
      then some (get_or s.u txoff unknown)
      else none)

-- `some none` is NULL, `none` a failed assertion.
unfoldable pub block_get_tx : Block → (shardnum txoff : ℕ) → Option (Option Tx)
unfolding place
block_get_tx block shardnum txoff = do
  u ← place block shardnum txoff
  some (do t ← entry_tx u; some t.tx)

-- The references behind a transaction; for one that is not known they are looked for behind NULL.
abbrev pub refs_behind : TxpOrHash → Option (Option (List InputRef))
refs_behind unknown = none
refs_behind (txp t) = some (some t.refs)
refs_behind (hash h) = some none

unfoldable pub block_get_refs : Block → (shardnum txoff : ℕ) → Option (Option (List InputRef))
unfolding place
block_get_refs block shardnum txoff = do u ← place block shardnum txoff; refs_behind u
