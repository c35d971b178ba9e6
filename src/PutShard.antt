-- ===== src/PutShard.antt =====
-- check_block.c: `shard_belongs_in_block`, `put_txhash_in_shard` and `put_proof_in_shard`, which fill the shards
-- of a block, with the check at the end. `none` is a failed assertion, or a read through NULL or behind an
-- array.
pub mod Counts
use pettycoin.Base.{
  ℕ, ◌+◌, Bool, true, false, ◌&&◌, Option, none, some, List, ltb, ◌==◌, if◌then◌else◌, ◌>>=◌,
  get_elem?, set, replicate, u8, Bytes, bytes_eq,
}
use pettycoin.Crypto.{Crypto}
use pettycoin.Shard.{TxRefHash, MerkleProof, hash, BlockShard, shard_all_hashes, txrefhash_in_shard}
use pettycoin.Block.{Block}
use pettycoin.Merkle.{merkle_txs}
use pettycoin.CheckShard.{check_block_shard}
use pettycoin.State.{State}
use pettycoin.TxHash.{TxTable}
use pettycoin.InputHash.{InputTable}
use pettycoin.TxInHashes.{Hashes, add_txhash_to_hashes}

-- `structeq` of two hashes.
abbrev pub same_hashes : TxRefHash → TxRefHash → Bool
same_hashes a b = bytes_eq a.txhash b.txhash && bytes_eq a.refhash b.refhash

-- Now it's a hash.
unfoldable pub set_hash : BlockShard → (txoff : ℕ) → TxRefHash → BlockShard
set_hash shard txoff txrefhash = record shard {
  u = set shard.u txoff (hash txrefhash);
  hashcount = u8 (shard.hashcount + 1);
}

-- The block with this shard at its place.
abbrev pub with_shard : State → (b : ℕ) → Block → (shardnum : ℕ) → BlockShard → State
with_shard state b block shardnum shard = record state {
  blocks = set state.blocks b (record block { shard = set block.shard shardnum shard });
}

abbrev pub asks_recheck : State → State
asks_recheck state = record state { pending = record state.pending { needs_recheck = true } }

-- The array of proofs, made on the first proof.
abbrev pub proofs_of : BlockShard → Option (List (Option MerkleProof)) → List (Option MerkleProof)
proofs_of shard none = replicate shard.size none
proofs_of shard (some proofs) = proofs

abbrev pub keep_first : Option MerkleProof → MerkleProof → Option MerkleProof
keep_first none proof = some proof
keep_first (some old) proof = some old

-- The first proof of a place is kept.
unfoldable pub add_proof : BlockShard → MerkleProof → Option BlockShard
add_proof shard proof = do
  let proofs = proofs_of shard shard.proof
  old ← get_elem? proofs proof.pos.txoff
  some (record shard { proof = some (set proofs proof.pos.txoff (keep_first old proof)) })

-- If we have all hashes, we don't need to keep proof.
unfoldable pub put_proof_in_shard : State → (b : ℕ) → MerkleProof → Option State
put_proof_in_shard state b proof = do
  block ← get_elem? state.blocks b
  shard ← get_elem? block.shard proof.pos.shard
  let added = add_proof shard proof
  let put = (do more ← added; some (with_shard state b block proof.pos.shard more))
  (if shard_all_hashes shard then some state else put)

module _ ⦃c : Crypto⦄ where
  unfoldable pub shard_belongs_in_block : Block → BlockShard → Option Bool
  shard_belongs_in_block block shard = do
    num ← get_elem? block.shard_nums shard.shardnum
    merkle ← merkle_txs shard
    wanted ← get_elem? block.merkles shard.shardnum
    (if shard.txcount + shard.hashcount == num then some (bytes_eq wanted merkle) else none)

  module _ (test_net : Bool) (h : TxTable) (hash_any : Bytes → ℕ → ℕ)
      (inputs : InputTable hash_any) where
    abbrev pub put_new :
        State
        → Hashes h hash_any inputs
        → (b : ℕ) → Block
        → BlockShard
        → (shardnum txoff : ℕ) → TxRefHash
        → (State × Hashes h hash_any inputs) × Bool
    put_new state t b block shard shardnum txoff txrefhash = (
      (
        asks_recheck (with_shard state b block shardnum (set_hash shard txoff txrefhash)),
        add_txhash_to_hashes h hash_any inputs t b shardnum txoff txrefhash.txhash,
      ),
      true,
    )

    -- What the check of the shard at the end finds, of the state that it is called on.
    abbrev pub shard_checked :
        State
        → Hashes h hash_any inputs
        → (b : ℕ) → Block
        → (shardnum : ℕ) → BlockShard
        → Option Bool
    shard_checked state t b block shardnum shard =
        check_block_shard test_net h hash_any inputs
          ((with_shard state b block shardnum shard).blocks) t b
          (record block { shard = set block.shard shardnum shard }) shard

    abbrev pub if_checked :
        Option Bool
        → (State × Hashes h hash_any inputs) × Bool
        → Option ((State × Hashes h hash_any inputs) × Bool)
    if_checked found result = do ok ← found; (if ok then some result else none)

    -- If we already have it, it must be the same.
    abbrev pub keep_or_put :
        State
        → Hashes h hash_any inputs
        → (b : ℕ) → Block
        → BlockShard
        → (shardnum txoff : ℕ) → TxRefHash
        → Option TxRefHash
        → Option ((State × Hashes h hash_any inputs) × Bool)
    keep_or_put state t b block shard shardnum txoff txrefhash (some p) =
        if same_hashes p txrefhash then some ((state, t), false) else none
    keep_or_put state t b block shard shardnum txoff txrefhash none =
        if_checked
          (shard_checked state
            (add_txhash_to_hashes h hash_any inputs t b shardnum txoff txrefhash.txhash) b block
            shardnum (set_hash shard txoff txrefhash))
          (put_new state t b block shard shardnum txoff txrefhash)

    -- The state after it, and whether the hash is new.
    unfoldable pub put_txhash_in_shard :
        State
        → Hashes h hash_any inputs
        → (b shardnum txoff : ℕ) → TxRefHash
        → Option ((State × Hashes h hash_any inputs) × Bool)
    put_txhash_in_shard state t b shardnum txoff txrefhash = do
      block ← get_elem? state.blocks b
      shard ← get_elem? block.shard shardnum
      let known = txrefhash_in_shard shard txoff
      (if ltb txoff shard.size
          then keep_or_put state t b block shard shardnum txoff txrefhash known
          else none)
