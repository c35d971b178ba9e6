-- ===== src/TxInHashes.antt =====
-- tx_in_hashes.h and tx_in_hashes.c: the two tables together, as transactions become known in a block or
-- pending, and as they go. `none` is a failed assertion or a read through NULL.
use pettycoin.Base.{
  ℕ, true, Option, none, some, List, [], ◌∷◌, if◌then◌else◌, is_some, ◌>>=◌, length, get_elem?,
  Bytes,
}
use pettycoin.Crypto.{Crypto}
use pettycoin.Protocol.{Tx}
use pettycoin.Shard.{TxpOrHash, unknown, txp, hash, hash_tx}
use pettycoin.Block.{Block}
use pettycoin.Chain.{block_preceeds}
use pettycoin.Table.{matching}
use pettycoin.TxHash.{
  BlockOrTx, in_block, pending, TxHashElem, txhash_hashfn, txhash_eq, TxTable, txhash_gettx,
  txhash_del_tx, txhash_add_tx,
}
use pettycoin.InputHash.{InputTable, inputhash_add_tx, inputhash_del_tx}

-- The loop of `txhash_gettx_ancestor`: the first element in a block that is before this one.
unfoldable pub ancestor_loop :
    List Block → (block : ℕ) → List TxHashElem → Option (Option TxHashElem)
ancestor_loop blocks block [] = some none
ancestor_loop blocks block (te ∷ tes) =
    let later = ancestor_loop blocks block tes in round te.u later
  where
    round : BlockOrTx → Option (Option TxHashElem) → Option (Option TxHashElem)
    round (pending tx) later = later
    round (in_block b) later = do
      before ← block_preceeds (length blocks) blocks b block
      (if before then some (some te) else later)

unfoldable pub pending_loop : List TxHashElem → Option Tx
pending_loop [] = none
pending_loop (te ∷ tes) = let later = pending_loop tes in round te.u later
  where
    round : BlockOrTx → Option Tx → Option Tx
    round (pending tx) later = some tx
    round (in_block b) later = later

module _ (h : TxTable) (hash_any : Bytes → ℕ → ℕ) (inputs : InputTable hash_any) where
  -- The two tables of the state.
  pub record Hashes : Type 0 where
    pub txhash : h.Raw
    pub inputhash : inputs.Raw

  abbrev pub elems_of : Hashes → Bytes → List TxHashElem
  elems_of t sha = matching txhash_eq sha (h.vals t.txhash (txhash_hashfn sha))

  unfoldable pub txhash_gettx_ancestor :
      List Block → Hashes → Bytes → (block : ℕ) → Option (Option TxHashElem)
  txhash_gettx_ancestor blocks t sha block = ancestor_loop blocks block (elems_of t sha)

  unfoldable pub txhash_get_pending_tx : Hashes → Bytes → Option Tx
  txhash_get_pending_tx t sha = pending_loop (elems_of t sha)

  unfoldable pub add_txhash_to_hashes : Hashes → (block shard txoff : ℕ) → Bytes → Hashes
  add_txhash_to_hashes t block shard txoff txhash = record t {
    txhash = txhash_add_tx h t.txhash (in_block block) shard txoff txhash;
  }

  module _ ⦃c : Crypto⦄ where
    -- The inputs are added when the transaction is not known yet, in any block or pending.
    abbrev pub add_inputs_unless : Hashes → Tx → Option Tx → Option Hashes
    add_inputs_unless t tx (some other) = some t
    add_inputs_unless t tx none = do
      table ← inputhash_add_tx hash_any inputs t.inputhash tx
      some (record t { inputhash = table })

    -- And deleted when it is no longer known at all.
    abbrev pub del_inputs_unless : Hashes → Tx → Option Tx → Option Hashes
    del_inputs_unless t tx (some other) = some t
    del_inputs_unless t tx none = do
      table ← inputhash_del_tx hash_any inputs t.inputhash tx
      some (record t { inputhash = table })

    unfoldable pub upgrade_tx_in_hashes : List Block → Hashes → Bytes → Tx → Option Hashes
    upgrade_tx_in_hashes blocks t sha tx = do
      other ← txhash_gettx h blocks t.txhash sha true
      add_inputs_unless t tx other

    unfoldable pub add_tx_to_hashes :
        List Block → Hashes → (block shard txoff : ℕ) → Tx → Option Hashes
    add_tx_to_hashes blocks t block shard txoff tx = do
      other ← txhash_gettx h blocks t.txhash (hash_tx tx) true
      now ← add_inputs_unless t tx other
      some (add_txhash_to_hashes now block shard txoff (hash_tx tx))

    -- What is taken out for each kind of entry of the shard. An entry that is not known is a NULL
    -- transaction, of which the hash is taken.
    abbrev pub remove_entry :
        List Block → Hashes → (block shard txoff : ℕ) → TxpOrHash → Option Hashes
    remove_entry blocks t block shard txoff unknown = none
    remove_entry blocks t block shard txoff (hash known) =
        some
          (record t { txhash = txhash_del_tx h t.txhash (in_block block) shard txoff known.txhash })
    remove_entry blocks t block shard txoff (txp both) = do
      let sha = hash_tx both.tx
      let now = record t { txhash = txhash_del_tx h t.txhash (in_block block) shard txoff sha }
      other ← txhash_gettx h blocks now.txhash sha true
      del_inputs_unless now both.tx other

    unfoldable pub remove_tx_from_hashes :
        List Block → Hashes → (block shard txoff : ℕ) → Option Hashes
    remove_tx_from_hashes blocks t b shard txoff = do
      block ← get_elem? blocks b
      own ← get_elem? block.shard shard
      entry ← get_elem? own.u txoff
      remove_entry blocks t b shard txoff entry

    unfoldable pub add_pending_tx_to_hashes : List Block → Hashes → Tx → Option Hashes
    add_pending_tx_to_hashes blocks t tx =
        if is_some (txhash_get_pending_tx t (hash_tx tx)) then none else do
          other ← txhash_gettx h blocks t.txhash (hash_tx tx) true
          now ← add_inputs_unless t tx other
          some (record now { txhash = txhash_add_tx h now.txhash (pending tx) 0 0 (hash_tx tx) })

    unfoldable pub remove_pending_tx_from_hashes : List Block → Hashes → Tx → Option Hashes
    remove_pending_tx_from_hashes blocks t tx = do
      let now = record t { txhash = txhash_del_tx h t.txhash (pending tx) 0 0 (hash_tx tx) }
      other ← txhash_gettx h blocks now.txhash (hash_tx tx) true
      del_inputs_unless now tx other
