-- ===== src/Shard.antt =====
-- hash_tx.c, block_shard.h and block_shard.c: the transactions of one shard of a block, as far as
-- they are known, and shard.h and shard.c: which shard an address, or a transaction, is in.
use pettycoin.Base.{
  ℕ, ◌+◌, ◌*◌, ◌-◌, ◌^◌, Bool, true, false, Option, none, some, List, Bytes, ◌==◌, get_elem?,
  get_or, take, replicate, shr, ◌>>=◌,
}
use pettycoin.Crypto.{Crypto, sha256_double}
use pettycoin.Protocol.{
  Tx, normal, from_gateway, to_gateway, claim, InputRef, TxFromGateway, BlockHeader,
  initial_shard_order,
}
use pettycoin.Tx.{num_inputs, get_tx_input_address}
use pettycoin.Marshal.{marshal_tx_len}
use pettycoin.Marshal.Layout.{tx_bytes, array_bytes, ref_bytes}

pub record TxRefHash : Type 0 where
  pub txhash : Bytes
  pub refhash : Bytes

pub record Position : Type 0 where
  pub block : Bytes
  pub shard : ℕ
  pub txoff : ℕ
  pub unused : ℕ

-- `struct protocol_proof`.
pub record MerkleProof : Type 0 where
  pub pos : Position
  pub merkles : List Bytes

-- A transaction and the references that follow it in memory.
pub record TxPtrWithRef : Type 0 where
  pub tx : Tx
  pub refs : List InputRef

-- `union txp_or_hash` with its bit of the bitmap: a pointer, which may be NULL, or a hash.
pub data TxpOrHash : Type 0 where
  unknown : TxpOrHash
  txp : TxPtrWithRef → TxpOrHash
  hash : TxRefHash → TxpOrHash

pub record BlockShard : Type 0 where
  pub shardnum : ℕ
  pub txcount : ℕ
  pub hashcount : ℕ
  pub size : ℕ
  pub proof : Option (List (Option MerkleProof))
  pub u : List TxpOrHash

unfoldable pub new_block_shard : ℕ → ℕ → BlockShard
new_block_shard shardnum num = record {
  shardnum = shardnum;
  txcount = 0;
  hashcount = 0;
  size = num;
  proof = none;
  u = replicate num unknown;
}

abbrev pub entry_is_tx : TxpOrHash → Bool
entry_is_tx (hash h) = false
entry_is_tx unknown = true
entry_is_tx (txp t) = true

abbrev pub entry_tx : TxpOrHash → Option TxPtrWithRef
entry_tx (txp t) = some t
entry_tx unknown = none
entry_tx (hash h) = none

unfoldable pub shard_is_tx : BlockShard → ℕ → Bool
shard_is_tx s txoff = entry_is_tx (get_or s.u txoff unknown)

unfoldable pub tx_for : BlockShard → ℕ → Option Tx
tx_for s txoff = do t ← entry_tx (get_or s.u txoff unknown); some t.tx

unfoldable pub shard_all_known : BlockShard → Bool
shard_all_known shard = shard.txcount == shard.size

unfoldable pub shard_all_hashes : BlockShard → Bool
shard_all_hashes shard = shard.txcount + shard.hashcount == shard.size

-- The shard is the top `shard_order` bits of the first two bytes of the address.
unfoldable pub shard_of : Bytes → ℕ → ℕ
shard_of addr shard_order = shr (get_or addr 0 0 * 256 + get_or addr 1 0) (16 - shard_order)

unfoldable pub next_shard_order : ℕ
next_shard_order = initial_shard_order

unfoldable pub num_shards : BlockHeader → ℕ
num_shards hdr = 2 ^ hdr.shard_order

-- The address of the first output; `none` is a read past the end, as there is no output.
first_output : TxFromGateway → Option Bytes
first_output t = do out ← get_elem? t.outputs 0; some out.output_addr

module _ ⦃c : Crypto⦄ where
  -- The address by which transactions are sorted, and which decides their shard.
  unfoldable pub order_address : Tx → Option Bytes
  unfolding first_output
  order_address (normal t) = get_tx_input_address (normal t)
  order_address (to_gateway t) = get_tx_input_address (to_gateway t)
  order_address (claim t) = get_tx_input_address (claim t)
  order_address (from_gateway t) = first_output t

  unfoldable pub shard_of_tx : Tx → ℕ → Option ℕ
  shard_of_tx tx shard_order = do addr ← order_address tx; some (shard_of addr shard_order)

  unfoldable pub hash_tx : Tx → Bytes
  hash_tx tx = sha256_double (take (marshal_tx_len tx) (tx_bytes tx))

  unfoldable pub hash_refs : List InputRef → ℕ → Bytes
  hash_refs refs num_refs = sha256_double (array_bytes ref_bytes (take num_refs refs))

  unfoldable pub hash_tx_and_refs : Tx → List InputRef → TxRefHash
  hash_tx_and_refs tx refs = record {
    txhash = hash_tx tx;
    refhash = hash_refs refs (num_inputs tx);
  }

  unfoldable pub entry_hash : TxpOrHash → Option TxRefHash
  entry_hash unknown = none
  entry_hash (txp t) = some (hash_tx_and_refs t.tx t.refs)
  entry_hash (hash h) = some h

  -- If we have the tx, hash it, otherwise return hash.
  unfoldable pub txrefhash_in_shard : BlockShard → ℕ → Option TxRefHash
  unfolding entry_hash
  txrefhash_in_shard s txoff = entry_hash (get_or s.u txoff unknown)
