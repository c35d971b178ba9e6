-- ===== src/CreateRefs.antt =====
-- create_refs.c: the references of a new transaction to the places of its inputs. The time is an argument.
use pettycoin.Base.{
  ℕ, zero, suc, ◌+◌, Bool, Option, none, some, List, [], ◌∷◌, ltb, if◌then◌else◌, ◌>>=◌, get_elem?,
  u32, sub32, Bytes,
}
use pettycoin.Protocol.{Tx, InputRef, tx_horizon_secs}
use pettycoin.Tx.{num_inputs, tx_input}
use pettycoin.Block.{Block, depth_of}
use pettycoin.TxHash.{BlockOrTx, in_block, pending, TxHashElem, TxTable}
use pettycoin.InputHash.{InputTable}
use pettycoin.TxInHashes.{Hashes, txhash_gettx_ancestor}

abbrev pub close_to_horizon : ℕ
close_to_horizon = 3600

-- The reference to a place of block `there`, for a transaction that goes `offset` blocks after `prev`.
unfoldable pub reference :
    (test_net : Bool) → (now offset : ℕ) → (prev there : Block) → TxHashElem → Option InputRef
reference test_net now offset prev there te =
    if ltb (sub32 (u32 (there.tailer.timestamp + tx_horizon_secs test_net)) close_to_horizon) now
    then none
    else some (record {
      blocks_ago = u32 (sub32 (depth_of prev) (depth_of there) + offset);
      shard = te.shardnum;
      txoff = te.txoff;
      unused = 0;
    })

module _ (h : TxTable) (hash_any : Bytes → ℕ → ℕ) (inputs : InputTable hash_any) where
  -- `none` is a read through NULL, `some none` that the input is not known or too old.
  abbrev pub resolve_elem :
      (test_net : Bool)
      → (now offset : ℕ) → List Block
      → (prev_block : ℕ) → Option TxHashElem
      → Option (Option InputRef)
  resolve_elem test_net now offset blocks prev_block none = some none
  resolve_elem test_net now offset blocks prev_block (some te) = in_place te.u
    where
      in_place : BlockOrTx → Option (Option InputRef)
      in_place (pending tx) = none
      in_place (in_block b) = do
        prev ← get_elem? blocks prev_block
        there ← get_elem? blocks b
        some (reference test_net now offset prev there te)

  unfoldable pub resolve_input :
      (test_net : Bool)
      → (now offset : ℕ) → List Block
      → Hashes h hash_any inputs
      → (prev_block : ℕ) → Tx
      → (num : ℕ) → Option (Option InputRef)
  resolve_input test_net now offset blocks t prev_block tx num = do
    inp ← tx_input tx num
    te ← txhash_gettx_ancestor h hash_any inputs blocks t inp.input prev_block
    resolve_elem test_net now offset blocks prev_block te

  abbrev pub and_then :
      Option InputRef → Option (Option (List InputRef)) → Option (Option (List InputRef))
  and_then none rest = some none
  and_then (some ref) rest = do refs ← rest; some (do all ← refs; some (ref ∷ all))

  -- The loop over the inputs, `count` of them from `i`.
  unfoldable pub refs_loop :
      (test_net : Bool)
      → (now offset : ℕ) → List Block
      → Hashes h hash_any inputs
      → (block : ℕ) → Tx
      → (i count : ℕ) → Option (Option (List InputRef))
  refs_loop test_net now offset blocks t block tx i zero = some (some [])
  refs_loop test_net now offset blocks t block tx i (suc count) = do
    let rest = refs_loop test_net now offset blocks t block tx (i + 1) count
    ref ← resolve_input test_net now offset blocks t block tx i
    and_then ref rest

  -- Try to find the inputs in block and its ancestors.
  unfoldable pub create_refs :
      (test_net : Bool)
      → (now offset : ℕ) → List Block
      → Hashes h hash_any inputs
      → (block : ℕ) → Tx
      → Option (Option (List InputRef))
  create_refs test_net now offset blocks t block tx =
      refs_loop test_net now offset blocks t block tx 0 (num_inputs tx)
