-- ===== src/PrevTxHashes.antt =====
-- prev_txhashes.c, with `check_num_prev_txhashes` and `check_prev_txhashes` of check_block.c: the bytes of a
-- block which show that its maker knew the transactions of the blocks before it. `none` is a failed
-- assertion, or a read through NULL or behind an array.
pub mod Trip
use pettycoin.Base.{
  ℕ, zero, suc, ◌+◌, ◌^◌, Bool, true, false, Option, none, some, List, [], ◌∷◌, ◌++◌, ◌==◌,
  if◌then◌else◌, ◌>>=◌, get_elem?, take, Bytes,
}
use pettycoin.Crypto.{Crypto, sha256_double}
use pettycoin.Protocol.{BlockHeader, prev_block_txhashes}
use pettycoin.Marshal.{marshal_tx_len, marshal_input_ref_len}
use pettycoin.Marshal.Layout.{tx_bytes, array_bytes, ref_bytes}
use pettycoin.Shard.{BlockShard, shard_all_known, num_shards}
use pettycoin.Block.{Block, block_get_tx, block_get_refs}
use pettycoin.Chain.{block_ancestor}

-- `for_each_prev_txhash` from its `i` on: the blocks at the distances of the powers of two.
unfoldable pub each_prev : (rounds i : ℕ) → List Block → Option ℕ → Option (List Block)
each_prev zero i blocks b = some []
each_prev (suc rounds) i blocks none = some []
each_prev (suc rounds) i blocks (some b) = do
  block ← get_elem? blocks b
  rest ← each_prev rounds (i + 1) blocks (block_ancestor blocks b (2 ^ i))
  some (block ∷ rest)

unfoldable pub for_each_prev_txhash : List Block → Option ℕ → Option (List Block)
for_each_prev_txhash blocks prev = each_prev prev_block_txhashes 0 blocks prev

unfoldable pub sum_shards : List Block → ℕ
sum_shards [] = 0
sum_shards (b ∷ bs) = num_shards b.hdr + sum_shards bs

unfoldable pub num_prev_txhashes : List Block → Option ℕ → Option ℕ
num_prev_txhashes blocks prev = do bs ← for_each_prev_txhash blocks prev; some (sum_shards bs)

unfoldable pub check_num_prev_txhashes : List Block → Option ℕ → BlockHeader → Option Bool
check_num_prev_txhashes blocks prev hdr = do
  num ← num_prev_txhashes blocks prev
  some (hdr.num_prev_txhashes == num)

-- The transactions of a shard with their references, from number `i` on.
unfoldable pub shard_bytes : (count i : ℕ) → Block → (shard : ℕ) → Option Bytes
shard_bytes zero i block shard = some []
shard_bytes (suc count) i block shard = do
  known ← block_get_tx block shard i
  behind ← block_get_refs block shard i
  tx ← known
  refs ← behind
  rest ← shard_bytes count (i + 1) block shard
  some (
      take (marshal_tx_len tx) (tx_bytes tx)
      ++ (take (marshal_input_ref_len tx) (array_bytes ref_bytes refs) ++ rest))

-- What `check_prev_txhashes` finds: nothing, with the number of hashes that it has passed, or a shard of a
-- block before.
pub data PrevCheck : Type 0 where
  all_right : (off : ℕ) → PrevCheck
  bad_shard : (bad_prev : Block) (shard : ℕ) → PrevCheck

-- `none` for a shard that is not all known: NULL is returned.
abbrev pub and_more : Option Bytes → Option (Option Bytes) → Option (Option Bytes)
and_more none rest = some none
and_more (some here) rest = do m ← rest; some (do m' ← m; some (here ++ m'))

abbrev pub make_known : Bool → Option ℕ → Option (Option Bytes) → Option (Option Bytes)
make_known false prev_txh rest = some none
make_known true prev_txh rest = do h ← prev_txh; and_more (some (h ∷ [])) rest

abbrev pub make_one : Option BlockShard → Option ℕ → Option (Option Bytes) → Option (Option Bytes)
make_one none prev_txh rest = none
make_one (some shard) prev_txh rest = make_known (shard_all_known shard) prev_txh rest

module _ ⦃c : Crypto⦄ where
  -- Hash has block reward address prepended; we only use top byte.
  unfoldable pub prev_txhash : (addr : Bytes) → Block → (shard : ℕ) → Option ℕ
  prev_txhash addr block shard = do
    num ← get_elem? block.shard_nums shard
    bytes ← shard_bytes num 0 block shard
    get_elem? (sha256_double (addr ++ bytes)) 0

  -- The shards of one block, from `j` on.
  unfoldable pub make_shards : (count j : ℕ) → (addr : Bytes) → Block → Option (Option Bytes)
  make_shards zero j addr b = some (some [])
  make_shards (suc count) j addr b =
      make_one (get_elem? b.shard j) (prev_txhash addr b j) (make_shards count (j + 1) addr b)

  unfoldable pub make_blocks : (addr : Bytes) → List Block → Option (Option Bytes)
  make_blocks addr [] = some (some [])
  make_blocks addr (b ∷ bs) = do
    let rest = make_blocks addr bs
    here ← make_shards (num_shards b.hdr) 0 addr b
    and_more here rest

  unfoldable pub make_prev_txhashes : List Block → Option ℕ → (addr : Bytes) → Option (Option Bytes)
  make_prev_txhashes blocks prev addr = do
    bs ← for_each_prev_txhash blocks prev
    make_blocks addr bs

  -- The shards of one block, from `j` on; `some none` if none of them is bad.
  unfoldable pub check_shards :
      (count j : ℕ)
      → (addr : Bytes) → (off : ℕ) → (prev_txhashes : Bytes) → Block
      → Option (Option ℕ)
  check_shards zero j addr off prev_txhashes b = some none
  check_shards (suc count) j addr off prev_txhashes b = do
    shard ← get_elem? b.shard j
    let rest = check_shards count (j + 1) addr off prev_txhashes b
    let known = (do
      prev_txh ← prev_txhash addr b j
      h ← get_elem? prev_txhashes (off + j)
      (if prev_txh == h then rest else some (some j)))
    (if shard_all_known shard then known else rest)

  abbrev pub or_later : Block → Option ℕ → Option PrevCheck → Option PrevCheck
  or_later b none later = later
  or_later b (some j) later = some (bad_shard b j)

  unfoldable pub check_blocks :
      (addr : Bytes) → (off : ℕ) → (prev_txhashes : Bytes) → List Block → Option PrevCheck
  check_blocks addr off prev_txhashes [] = some (all_right off)
  check_blocks addr off prev_txhashes (b ∷ bs) = do
    let later = check_blocks addr (off + num_shards b.hdr) prev_txhashes bs
    bad ← check_shards (num_shards b.hdr) 0 addr off prev_txhashes b
    or_later b bad later

  -- Must have exactly the right number of previous txhashes hashes.
  abbrev pub at_end : ℕ → PrevCheck → Option PrevCheck
  at_end num (all_right off) = if off == num then some (all_right off) else none
  at_end num (bad_shard b j) = some (bad_shard b j)

  unfoldable pub check_prev_txhashes : List Block → Block → Option PrevCheck
  check_prev_txhashes blocks block = do
    bs ← for_each_prev_txhash blocks block.prev
    found ← check_blocks block.hdr.fees_to 0 block.prev_txhashes bs
    at_end block.hdr.num_prev_txhashes found
