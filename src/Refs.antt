-- ===== src/Refs.antt =====
-- input_refs.c: the references of a transaction to the places where its inputs are. `none` is a failed
-- assertion or a read through NULL.
pub mod Resolved
use pettycoin.Base.{
  ℕ, ◌+◌, Bool, true, false, Option, none, some, List, [], ◌∷◌, ltb, leb, if◌then◌else◌, ◌>>=◌,
  get_elem?, get_or, take, u32, bytes_eq,
}
use pettycoin.Crypto.{Crypto}
use pettycoin.Protocol.{
  Ecode, ecode_none, ref_bad_blocks_ago, ref_bad_shard, ref_bad_txoff, tx_horizon_secs, InputRef,
  Tx, TxInput,
}
use pettycoin.Tx.{num_inputs, tx_input}
use pettycoin.Shard.{num_shards, TxRefHash, txrefhash_in_shard}
use pettycoin.Block.{Block}
use pettycoin.Chain.{block_ancestor}

-- The tests of a reference in block `this`, to the block that it is found to refer to.
unfoldable pub check_place : Bool → (this : Block) → Option Block → InputRef → Ecode
check_place test_net this none ref = ref_bad_blocks_ago
check_place test_net this (some b) ref =
    if ltb (u32 (b.tailer.timestamp + tx_horizon_secs test_net)) this.tailer.timestamp
    then ref_bad_blocks_ago
    else if leb (num_shards b.hdr) ref.shard
    then ref_bad_shard
    else if leb (get_or b.shard_nums ref.shard 0) ref.txoff
    then ref_bad_txoff
    else ecode_none

-- The block that a reference from block number `block` refers to.
unfoldable pub referred_to : List Block → (block : ℕ) → InputRef → Option Block
referred_to blocks block ref = do b ← block_ancestor blocks block ref.blocks_ago; get_elem? blocks b

unfoldable pub check_ref : Bool → List Block → (block : ℕ) → (this : Block) → InputRef → Ecode
check_ref test_net blocks block this ref =
    check_place test_net this (referred_to blocks block ref) ref

-- The first code that is not PROTOCOL_ECODE_NONE.
unfoldable pub or_next : Ecode → Ecode → Ecode
or_next ecode_none next = next
or_next e next = e

-- `this` is block number `block`; the list has the references that are to be checked.
unfoldable pub check_refs : Bool → List Block → (block : ℕ) → (this : Block) → List InputRef → Ecode
check_refs test_net blocks block this [] = ecode_none
check_refs test_net blocks block this (ref ∷ refs) =
    or_next (check_ref test_net blocks block this ref) (check_refs test_net blocks block this refs)

-- enum ref_ecode, with what is handed back through the pointers.
pub data RefCheck : Type 0 where
  refs_ok : RefCheck
  refs_unknown refs_bad_hash : (bad_ref : ℕ) → (block_referred_to : Block) → RefCheck

-- The end of the loop: the last unknown reference, if there was one.
unfoldable pub unknown_or_ok : Option (ℕ × Block) → RefCheck
unknown_or_ok none = refs_ok
unknown_or_ok (some (i, b)) = refs_unknown i b

module _ ⦃c : Crypto⦄ where
  -- What is known of the place: `txrefhash_in_shard` behind its assertion.
  unfoldable pub known_at : Block → InputRef → Option (Option TxRefHash)
  known_at b ref = do
    shard ← get_elem? b.shard ref.shard
    if ltb ref.txoff shard.size then some (txrefhash_in_shard shard ref.txoff) else none

  -- One round: an unknown hash is remembered, a wrong one ends the loop.
  unfoldable pub ref_round :
      (i : ℕ)
      → Block
      → Option TxRefHash
      → Option TxInput
      → Option (ℕ × Block)
      → (Option (ℕ × Block) → Option RefCheck)
      → Option RefCheck
  ref_round i b none inp unknown next = next (some (i, b))
  ref_round i b (some h) none unknown next = none
  ref_round i b (some h) (some inp) unknown next =
      if bytes_eq h.txhash inp.input then next unknown else some (refs_bad_hash i b)

  -- The loop, from reference `i` on.
  unfoldable pub refs_from :
      List Block → (block : ℕ) → Tx → (i : ℕ) → List InputRef → Option (ℕ × Block) → Option RefCheck
  refs_from blocks block tx i [] unknown = some (unknown_or_ok unknown)
  refs_from blocks block tx i (ref ∷ refs) unknown = do
    b ← referred_to blocks block ref
    known ← known_at b ref
    ref_round i b known (tx_input tx i) unknown (refs_from blocks block tx (i + 1) refs)

  abbrev pub is_none : Ecode → Bool
  is_none ecode_none = true
  is_none e = false

  unfoldable pub check_tx_refs :
      Bool → List Block → (block : ℕ) → Tx → List InputRef → Option RefCheck
  check_tx_refs test_net blocks block tx refs = do
    this ← get_elem? blocks block
    let nums = take (num_inputs tx) refs
    (if is_none (check_refs test_net blocks block this nums)
        then refs_from blocks block tx 0 nums none
        else none)
