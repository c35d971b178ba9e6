-- ===== src/Pending/Array.antt =====
-- pending.c: the sorted arrays of the transactions that are ready for the next block, one for each shard.
pub mod Search
use pettycoin.Base.{
  ℕ, zero, suc, ◌+◌, ◌-◌, ◌/◌, Bool, true, false, not, ◌&&◌, Option, none, some, List, [], ◌∷◌, ltb,
  ◌==◌, if◌then◌else◌, ◌>>=◌, length, get_elem?, set, take, bytes_eq, sub32, is_some, Bytes,
}
use pettycoin.Crypto.{Crypto}
use pettycoin.Protocol.{Tx, InputRef}
use pettycoin.Marshal.{marshal_tx_len}
use pettycoin.Marshal.Layout.{tx_bytes}
use pettycoin.Shard.{shard_of_tx, next_shard_order, hash_tx}
use pettycoin.Pending.{add_to_unknown_pending}
use pettycoin.TxCmp.{Sign, before, equal, after, tx_cmp}
use pettycoin.TxHash.{TxTable}
use pettycoin.InputHash.{InputTable}
use pettycoin.TxInHashes.{Hashes, txhash_get_pending_tx}
use pettycoin.State.{PendingTx, PendingBlock}

-- What stands at a place once there is one more element there: `tal_arr_add`.
abbrev pub insert_at : List PendingTx → (pos : ℕ) → PendingTx → List PendingTx
insert_at xs zero x = x ∷ xs
insert_at [] (suc pos) x = x ∷ []
insert_at (y ∷ ys) (suc pos) x = y ∷ insert_at ys pos x

-- `tal_arr_del`.
abbrev pub delete_at : List PendingTx → (pos : ℕ) → List PendingTx
delete_at [] pos = []
delete_at (y ∷ ys) zero = ys
delete_at (y ∷ ys) (suc pos) = y ∷ delete_at ys pos

-- What the loop of `find_pending_in_arr` does with a comparison. When the transaction is found, `*pos` is
-- left as it is.
abbrev pub narrow :
    Sign → (pos halfway end : ℕ) → (go : (pos end : ℕ) → Option (Bool × ℕ)) → Option (Bool × ℕ)
narrow before pos halfway end go = go pos halfway
narrow after pos halfway end go = go (halfway + 1) end
narrow equal pos halfway end go = some (true, pos)

unfoldable pub sum_lengths : List (List PendingTx) → ℕ
sum_lengths [] = 0
sum_lengths (p ∷ ps) = length p + sum_lengths ps

unfoldable pub num_pending_known : PendingBlock → ℕ
num_pending_known pending = sum_lengths pending.pend

module _ ⦃c : Crypto⦄ where
  -- The loop, with its bounds.
  unfoldable pub find_between : ℕ → List PendingTx → Tx → (pos end : ℕ) → Option (Bool × ℕ)
  find_between zero pend tx pos end = none
  find_between (suc fuel) pend tx pos end = if not (ltb pos end) then some (false, pos) else do
    let halfway = (pos + end) / 2
    p ← get_elem? pend halfway
    cmp ← tx_cmp tx p.tx
    narrow cmp pos halfway end (find_between fuel pend tx)

  -- Whether the transaction is in the array, and `*pos`. Each round leaves less than there was.
  unfoldable pub find_pending_in_arr : List PendingTx → Tx → Option (Bool × ℕ)
  find_pending_in_arr pend tx = find_between (suc (length pend)) pend tx 0 (length pend)

  -- The array of a shard, and the pending block with a new one in its place.
  abbrev pub with_array : PendingBlock → (shard : ℕ) → List PendingTx → PendingBlock
  with_array pending shard arr = record pending { pend = set pending.pend shard arr }

  abbrev pub insert_found :
      PendingBlock
      → (shard : ℕ) → List PendingTx
      → Tx
      → Option (List InputRef)
      → (Bool × ℕ)
      → Option (PendingBlock × Bool)
  insert_found pending shard arr tx refs (true, pos) = none
  insert_found pending shard arr tx none (false, pos) = some (pending, false)
  insert_found pending shard arr tx (some refs) (false, pos) =
      some (with_array pending shard (insert_at arr pos (record { tx = tx; refs = refs })), true)

  -- `insert_pending_tx`, given what `create_refs` makes of the transaction. `none` is `abort`: the
  -- transaction is there already.
  unfoldable pub insert_pending_tx :
      PendingBlock → Tx → (refs : Option (Option (List InputRef))) → Option (PendingBlock × Bool)
  insert_pending_tx pending tx refs = do
    shard ← shard_of_tx tx next_shard_order
    arr ← get_elem? pending.pend shard
    (if length arr == 255 then some (add_to_unknown_pending pending tx, true) else (do
      found ← find_pending_in_arr arr tx
      made ← (if found.0 then some none else refs)
      insert_found pending shard arr tx made found))

  -- Is it the same transaction, byte for byte?
  unfoldable pub same_tx : Tx → Tx → Bool
  same_tx a b =
      marshal_tx_len a == marshal_tx_len b
      && bytes_eq (take (marshal_tx_len a) (tx_bytes a)) (take (marshal_tx_len a) (tx_bytes b))

  -- The list without the first one that is the same; `none` is `abort`.
  unfoldable pub without_first : List Tx → Tx → Option (List Tx)
  without_first [] tx = none
  without_first (t ∷ ts) tx =
      let rest = without_first ts tx in
      if same_tx t tx then some ts else do others ← rest; some (t ∷ others)

  abbrev pub drop_found :
      PendingBlock → (shard : ℕ) → List PendingTx → Tx → (Bool × ℕ) → Option PendingBlock
  drop_found pending shard arr tx (true, pos) = some (with_array pending shard (delete_at arr pos))
  drop_found pending shard arr tx (false, pos) = do
    others ← without_first pending.unknown_tx tx
    some (record pending { unknown_tx = others; num_unknown = sub32 pending.num_unknown 1 })

  module _ (h : TxTable) (hash_any : Bytes → ℕ → ℕ) (inputs : InputTable hash_any) where
    -- Nothing is dropped of a transaction that the table does not have as pending. The restart of the
    -- generator is left out.
    unfoldable pub drop_pending_tx :
        Hashes h hash_any inputs → PendingBlock → Tx → Option PendingBlock
    drop_pending_tx t pending tx =
        let known = is_some (txhash_get_pending_tx h hash_any inputs t (hash_tx tx)) in
        let dropped = (do
          shard ← shard_of_tx tx next_shard_order
          arr ← get_elem? pending.pend shard
          found ← find_pending_in_arr arr tx
          drop_found pending shard arr tx found) in
        if known then dropped else some pending
