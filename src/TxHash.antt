-- ===== src/TxHash.antt =====
-- txhash.h and txhash.c: the table of all transactions that are known, by their hash, with the places
-- where they are. The status of an element says which member of its union is in use, and is the
-- constructor here.
pub mod Trip
use pettycoin.Base.{
  ℕ, zero, suc, ◌+◌, ◌*◌, Bool, false, ◌&&◌, Option, none, some, List, [], ◌∷◌, ◌==◌, if◌then◌else◌,
  ◌>>=◌, get_elem?, take, Bytes, bytes_eq,
}
use pettycoin.Protocol.{Tx}
use pettycoin.Marshal.{marshal_tx_len}
use pettycoin.Marshal.Layout.{tx_bytes}
use pettycoin.Shard.{shard_is_tx}
use pettycoin.Block.{Block, block_get_tx}
use pettycoin.Table.{HTable, matching, del_first}

-- `union txhash_block_or_tx` with its status: TX_IN_BLOCK or TX_PENDING.
pub data BlockOrTx : Type 0 where
  in_block : (block : ℕ) → BlockOrTx
  pending : (tx : Tx) → BlockOrTx

pub record TxHashElem : Type 0 where
  pub sha : Bytes
  pub u : BlockOrTx
  pub shardnum : ℕ
  pub txoff : ℕ

-- The first eight bytes, as a number of the machine.
unfoldable pub txhash_hashfn : Bytes → ℕ
txhash_hashfn sha = word 8 sha
  where
    word : ℕ → Bytes → ℕ
    word zero bs = 0
    word (suc n) [] = 0
    word (suc n) (b ∷ bs) = b + 256 * word n bs

abbrev pub txhash_eq : TxHashElem → Bytes → Bool
txhash_eq elem sha = bytes_eq sha elem.sha

-- The interface of the table. `HTABLE_DEFINE_TYPE` names it.
abbrev pub TxTable : Type 1
TxTable = HTable TxHashElem Bytes txhash_hashfn txhash_eq

-- A place of a block: is there a transaction, or only a hash; `none` is a read past the end.
unfoldable pub place_is_tx : List Block → (block shardnum txoff : ℕ) → Option Bool
place_is_tx blocks b shardnum txoff = do
  block ← get_elem? blocks b
  shard ← get_elem? block.shard shardnum
  some (shard_is_tx shard txoff)

unfoldable pub tx_at : List Block → (block shardnum txoff : ℕ) → Option (Option Tx)
tx_at blocks b shardnum txoff = do block ← get_elem? blocks b; block_get_tx block shardnum txoff

-- One round of `txhash_gettx`. `none` is a failed assertion: the place is not that of a hash, but empty.
unfoldable pub gettx_round :
    List Block
    → (pending_too : Bool) → TxHashElem
    → BlockOrTx
    → (later : Option (Option Tx)) → Option (Option Tx)
gettx_round blocks pending_too te (pending tx) later = if pending_too then some (some tx) else later
gettx_round blocks pending_too te (in_block b) later = do
  is_tx ← place_is_tx blocks b te.shardnum te.txoff
  (if is_tx
      then (do found ← tx_at blocks b te.shardnum te.txoff; tx ← found; some (some tx))
      else later)

unfoldable pub gettx_loop : List Block → (pending_too : Bool) → List TxHashElem → Option (Option Tx)
gettx_loop blocks pending_too [] = some none
gettx_loop blocks pending_too (te ∷ tes) =
    let later = gettx_loop blocks pending_too tes in gettx_round blocks pending_too te te.u later

-- The comparison of the unions in `txhash_del_tx`, with that of the status.
unfoldable pub same_u : BlockOrTx → BlockOrTx → Bool
same_u (in_block a) (in_block b) = a == b
same_u (in_block a) (pending tx) = false
same_u (pending tx) (in_block b) = false
same_u (pending a) (pending b) =
    marshal_tx_len a == marshal_tx_len b
    && bytes_eq (take (marshal_tx_len a) (tx_bytes a)) (take (marshal_tx_len a) (tx_bytes b))

unfoldable pub is_place : (u : BlockOrTx) (shard txoff : ℕ) → TxHashElem → Bool
is_place u shard txoff te = te.shardnum == shard && te.txoff == txoff && same_u te.u u

module _ (h : TxTable) where
  -- Get the actual transaction, we don't care about which block it's in.
  unfoldable pub txhash_gettx :
      List Block → h.Raw → Bytes → (pending_too : Bool) → Option (Option Tx)
  txhash_gettx blocks t sha pending_too =
      gettx_loop blocks pending_too (matching txhash_eq sha (h.vals t (txhash_hashfn sha)))

  unfoldable pub txhash_del_tx : h.Raw → BlockOrTx → (shard txoff : ℕ) → Bytes → h.Raw
  txhash_del_tx t u shard txoff sha = del_first h (is_place u shard txoff) sha t

  unfoldable pub txhash_add_tx : h.Raw → BlockOrTx → (shard txoff : ℕ) → Bytes → h.Raw
  txhash_add_tx t u shard txoff sha =
      h.add t (record { sha = sha; u = u; shardnum = shard; txoff = txoff })
