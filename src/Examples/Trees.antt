-- ===== src/Examples/Trees.antt =====
-- proof.c and merkle_recurse.c at concrete inputs.
use pettycoin.Base.{
  ℕ, zero, suc, ◌<◌, ◌≡◌, ◌⊎◌, refl, true, false, none, some, [], ◌∷◌, arith, replicate, Bytes,
}
use pettycoin.Protocol.{BlockHeader}
use pettycoin.Shard.{TxRefHash, BlockShard, hash, shard_all_hashes, txrefhash_in_shard}
use pettycoin.Merkle.{merkle_two_hashes, merkle_recurse, merkle_tx, merkle_some_txs, merkle_txs}
use pettycoin.Merkle.Tree.{tree, merkle_recurse-tree}
use pettycoin.Block.{Block}
use pettycoin.Proof.{canned, create_proof, check_proof_byhash}
use pettycoin.Proof.Accepts.{
  KnowsHashes, Holds, sibling_proof, check_proof_byhash-sibling_proof, create_proof_accepted,
}
use pettycoin.Proof.Binding.{Collides, hashed_pairs, check_proof_binding}
use pettycoin.Examples.{toy_crypto, old_hash, address}

abbrev a_hash : TxRefHash
a_hash = record { txhash = replicate 32 1; refhash = replicate 32 2 }

abbrev a_leaf : ℕ → Bytes
a_leaf n = merkle_two_hashes a_hash.txhash a_hash.refhash

abbrev a_shard : BlockShard
a_shard = record {
  shardnum = 0;
  txcount = 0;
  hashcount = 3;
  size = 3;
  proof = none;
  u = hash a_hash ∷ hash a_hash ∷ hash a_hash ∷ [];
}

abbrev a_header : BlockHeader
a_header = record {
  version = 1;
  features_vote = 0;
  shard_order = 0;
  nonce2 = replicate 13 0;
  prev_block = old_hash;
  num_prev_txhashes = 0;
  depth = 1;
  fees_to = address;
}

abbrev a_block : Block
a_block = record {
  hdr = a_header;
  shard_nums = 3 ∷ [];
  merkles = tree 3 a_leaf 8 0 ∷ [];
  prev_txhashes = [];
  tailer = record { timestamp = 1000; difficulty = 0; nonce1 = 0 };
  sha = replicate 32 8;
  shard = a_shard ∷ [];
  total_work = 0;
  pending_features = 0;
  all_known = false;
  complaint = false;
  prev = none;
  children = [];
}

a_shard-known : KnowsHashes a_shard a_leaf
unfolding merkle_tx txrefhash_in_shard shard_all_hashes
a_shard-known = record { leaves = known; all = refl; small = omega arith }
  where
    known : (n : ℕ) → n < 3 → merkle_tx a_shard n ≡ some (a_leaf n)
    known zero h = refl
    known (suc zero) h = refl
    known (suc (suc zero)) h = refl
    known (suc (suc (suc n))) h = absurd (omega arith)

a_root : merkle_txs a_shard ≡ some (tree 3 a_leaf 8 0)
unfolding merkle_txs merkle_some_txs
a_root = merkle_recurse-tree 3 a_leaf (merkle_tx a_shard) a_shard-known.leaves 9 8 0 (omega arith)

a_shard-held : Holds a_block 0 a_shard
a_shard-held = record { in_order = omega arith; at = refl; size = refl; merkle = a_root }

merkle_recurse-tree_example :
    merkle_recurse 9 0 3 256 (merkle_tx a_shard) ≡ some (tree 3 a_leaf 8 0)
merkle_recurse-tree_example =
    merkle_recurse-tree 3 a_leaf (merkle_tx a_shard) a_shard-known.leaves 9 8 0 (omega arith)

check_proof_byhash-sibling_proof_example :
    check_proof_byhash (sibling_proof a_block 0 2 a_shard a_leaf) a_block a_hash ≡ some true
check_proof_byhash-sibling_proof_example =
    check_proof_byhash-sibling_proof 0 2 a_hash a_shard-known a_shard-held (omega arith) refl

create_proof_accepted_example :
    (create_proof a_block 0 1 ≡ some (sibling_proof a_block 0 1 a_shard a_leaf))
    × (check_proof_byhash (sibling_proof a_block 0 1 a_shard a_leaf) a_block a_hash ≡ some true)
unfolding canned
create_proof_accepted_example =
    create_proof_accepted 0 1 a_hash a_shard-known a_shard-held (omega arith) refl (omega arith)
      refl

check_proof_binding_example :
    ((a_hash.txhash ≡ a_hash.txhash) × (a_hash.refhash ≡ a_hash.refhash))
    ⊎ Collides
        (hashed_pairs (sibling_proof a_block 0 2 a_shard a_leaf) a_hash)
        (hashed_pairs (sibling_proof a_block 0 2 a_shard a_leaf) a_hash)
check_proof_binding_example =
    check_proof_binding (sibling_proof a_block 0 2 a_shard a_leaf)
      (sibling_proof a_block 0 2 a_shard a_leaf) a_block a_hash a_hash refl refl refl
      check_proof_byhash-sibling_proof_example check_proof_byhash-sibling_proof_example
