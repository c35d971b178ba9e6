-- ===== src/Proof.antt =====
-- proof.c: making and checking the proof that a transaction is in a block.
pub mod Complete
pub mod Accepts
pub mod Binding
use pettycoin.Base.{
  ℕ, zero, suc, ◌+◌, ◌^◌, Bool, true, false, not, Option, none, some, List, [], ◌∷◌, Bytes, ltb,
  leb, if◌then◌else◌, bytes_eq, get_elem?, get_or, bit, ◌>>=◌,
}
use pettycoin.Crypto.{Crypto}
use pettycoin.Protocol.{Tx, InputRef}
use pettycoin.Shard.{TxRefHash, MerkleProof, BlockShard, shard_all_hashes, hash_tx_and_refs}
use pettycoin.Merkle.{merkle_two_hashes, merkle_some_txs}
use pettycoin.Block.{Block}

abbrev pub or_else : Option MerkleProof → Option MerkleProof → Option MerkleProof
or_else (some p) q = some p
or_else none q = q

-- The canned proof of a place, if the shard has one.
unfoldable pub canned : Option (List (Option MerkleProof)) → ℕ → Option MerkleProof
canned none txoff = none
canned (some proofs) txoff = get_or proofs txoff none

module _ ⦃c : Crypto⦄ where
  -- The hash for level `i` of a proof.
  unfoldable pub side_hash : BlockShard → (txoff i : ℕ) → Option Bytes
  side_hash shard txoff i =
      if bit txoff i then merkle_some_txs shard 0 (2 ^ i) else merkle_some_txs shard (2 ^ i) (2 ^ i)

  -- The hashes for `n` levels from `i` on.
  unfoldable pub side_hashes : BlockShard → (txoff n i : ℕ) → Option (List Bytes)
  unfolding side_hash
  side_hashes shard txoff zero i = some []
  side_hashes shard txoff (suc n) i = do
    m ← side_hash shard txoff i
    ms ← side_hashes shard txoff n (i + 1)
    some (m ∷ ms)

  -- A proof with what the shard knows; `none` is a failed assertion or a read through NULL.
  unfoldable pub fresh_proof : Block → BlockShard → (shardnum txoff : ℕ) → Option MerkleProof
  unfolding side_hashes
  fresh_proof block shard shardnum txoff =
      if shard_all_hashes shard
      then (do
        merkles ← side_hashes shard txoff 8 0
        some (record {
          pos = record { block = block.sha; shard = shardnum; txoff = txoff; unused = 0 };
          merkles = merkles;
        }))
      else none

  unfoldable pub create_proof : Block → (shardnum txoff : ℕ) → Option MerkleProof
  create_proof block shardnum txoff = do
    shard ← get_elem? block.shard shardnum
    or_else (canned shard.proof txoff) (fresh_proof block shard shardnum txoff)

  -- The rounds of `proof_merkles_to` from level `i` on.
  unfoldable pub combine : ℕ → ℕ → List Bytes → Bytes → Bytes
  combine txoff i [] sha = sha
  combine txoff i (m ∷ ms) sha =
      combine txoff (i + 1) ms
        (if bit txoff i then merkle_two_hashes m sha else merkle_two_hashes sha m)

  -- What does proof say the merkle should be?
  unfoldable pub proof_merkles_to : TxRefHash → MerkleProof → Bytes
  unfolding combine
  proof_merkles_to h proof =
      combine proof.pos.txoff 0 proof.merkles (merkle_two_hashes h.txhash h.refhash)

  -- `none` is the assertion that the proof is for this block.
  unfoldable pub check_proof_byhash : MerkleProof → Block → TxRefHash → Option Bool
  check_proof_byhash proof b h =
      if not (bytes_eq b.sha proof.pos.block)
      then none
      else some (
          if leb (2 ^ b.hdr.shard_order) proof.pos.shard
          then false
          else if leb (get_or b.shard_nums proof.pos.shard 0) proof.pos.txoff
          then false
          else bytes_eq (get_or b.merkles proof.pos.shard []) (proof_merkles_to h proof))

  unfoldable pub check_proof : MerkleProof → Block → Tx → List InputRef → Option Bool
  check_proof proof b tx refs = check_proof_byhash proof b (hash_tx_and_refs tx refs)
