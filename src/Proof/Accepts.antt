-- ===== src/Proof/Accepts.antt =====
-- proof.c: the proofs that it makes, and proofs that it accepts.
use pettycoin.Base.{
  ℕ, zero, suc, ◌+◌, ◌*◌, ◌/◌, ◌^◌, ◌<◌, ◌≡◌, inl, inr, refl, sym, ap, true, none, some, [], arith,
  gt→leb, Bool-cases, get_elem?, get_or, bit, Bytes, bytes_eq_refl,
}
use native.Mathlib.Nat.{div-le_self, zero-mul, one-mul}
use native.Mathlib.Numerals.{add-one}
use pettycoin.Crypto.{Crypto}
use pettycoin.Shard.{TxRefHash, MerkleProof, BlockShard, shard_all_hashes}
use pettycoin.Merkle.{merkle_two_hashes, merkle_tx, merkle_some_txs, merkle_txs}
use pettycoin.Merkle.Tree.{leaf_at, tree, merkle_recurse-tree}
use pettycoin.Block.{Block}
use pettycoin.Proof.{
  canned, side_hash, side_hashes, fresh_proof, create_proof, proof_merkles_to, check_proof_byhash,
}
use pettycoin.Proof.Complete.{sibling, siblings, combine_root}

module _ ⦃c : Crypto⦄ where
  -- The shard knows every hash: `leaf n` is what `merkle_tx` gives for its entry `n`.
  pub record KnowsHashes (shard : BlockShard) (leaf : ℕ → Bytes) : Type 0 where
    pub leaves : (n : ℕ) → n < shard.size → merkle_tx shard n ≡ some (leaf n)
    pub all : shard_all_hashes shard ≡ true
    pub small : shard.size < 256

  -- The block has the shard at its place, with its size and its merkle.
  pub record Holds (b : Block) (s : ℕ) (shard : BlockShard) : Type 0 where
    pub in_order : s < 2 ^ b.hdr.shard_order
    pub at : get_elem? b.shard s ≡ some shard
    pub size : get_or b.shard_nums s 0 ≡ shard.size
    pub merkle : merkle_txs shard ≡ some (get_or b.merkles s [])

  -- The proof that has the roots beside the way up from the place.
  unfoldable pub sibling_proof : Block → (s t : ℕ) → BlockShard → (leaf : ℕ → Bytes) → MerkleProof
  sibling_proof b s t shard leaf = record {
    pos = record { block = b.sha; shard = s; txoff = t; unused = 0 };
    merkles = siblings shard.size leaf t 8 0;
  }

module _ ⦃c : Crypto⦄ {b : Block} {shard : BlockShard} {leaf : ℕ → Bytes} (s t : ℕ) (h : TxRefHash)
    (known : KnowsHashes shard leaf) (held : Holds b s shard) (inside : t < shard.size)
    (mine : leaf t ≡ merkle_two_hashes h.txhash h.refhash) where
  root_is : get_or b.merkles s [] ≡ tree shard.size leaf 8 0
  unfolding merkle_txs merkle_some_txs
  root_is =
      let root =
        merkle_recurse-tree shard.size leaf (merkle_tx shard) known.leaves 9 8 0 (omega arith) in
      cc (root, held.merkle)

  -- The sibling proof of every place is accepted.
  pub check_proof_byhash-sibling_proof :
      check_proof_byhash (sibling_proof b s t shard leaf) b h ≡ some true
  unfolding check_proof_byhash sibling_proof proof_merkles_to
  check_proof_byhash-sibling_proof =
      let own : leaf_at shard.size leaf t ≡ merkle_two_hashes h.txhash h.refhash =
        unfold leaf_at in rw (gt→leb shard.size t inside) mine in
      let up = combine_root shard.size leaf t (omega (arith, known.small)) in
      rw
        (
          bytes_eq_refl b.sha,
          gt→leb (2 ^ b.hdr.shard_order) s held.in_order,
          held.size,
          gt→leb shard.size t inside,
          root_is,
          ← own,
          up,
        )
        (ap some (bytes_eq_refl (tree shard.size leaf 8 0)))

  some_txs_tree :
      (k off : ℕ) → k < 9 → merkle_some_txs shard off (2 ^ k) ≡ some (tree shard.size leaf k off)
  unfolding merkle_some_txs
  some_txs_tree k off k<9 =
      merkle_recurse-tree shard.size leaf (merkle_tx shard) known.leaves 9 k off k<9

  -- At a level that the place begins, `create_proof` hashes the sibling.
  side_hash-sibling :
      (i : ℕ)
      → i < 9
      → t / 2 ^ i < 2
      → side_hash shard t i ≡ some (tree shard.size leaf i (sibling (t / 2 ^ i) * 2 ^ i))
  unfolding side_hash
  side_hash-sibling i i<9 first = elim (Bool-cases (bit t i)) [
    | inl odd ↦
        let one : t / 2 ^ i ≡ 1 = ground arith in
        rw (odd, some_txs_tree i 0 i<9)
          (ap (λ (o : ℕ). some (tree shard.size leaf i o)) (rw one (sym (zero-mul (2 ^ i)))))
    | inr even ↦
        let none : t / 2 ^ i ≡ 0 = ground arith in
        rw (even, some_txs_tree i (2 ^ i) i<9)
          (ap (λ (o : ℕ). some (tree shard.size leaf i o)) (rw none (sym (one-mul (2 ^ i)))))
  ]

  side_hashes-siblings :
      (n i : ℕ)
      → i + n < 10
      → t < 2
      → side_hashes shard t n i ≡ some (siblings shard.size leaf t n i)
  unfolding side_hashes siblings
  side_hashes-siblings zero i small first = refl
  side_hashes-siblings (suc n) i small first = rw (
    side_hash-sibling i (omega arith) (omega (arith, div-le_self t (2 ^ i))),
    add-one i,
    side_hashes-siblings n (suc i) (omega arith) first,
  )

  -- For the first two places of a shard that keeps no proof for the place, `create_proof` makes the
  -- sibling proof, and `check_proof_byhash` accepts it.
  pub create_proof_accepted :
      t < 2
      → canned shard.proof t ≡ none
      → (create_proof b s t ≡ some (sibling_proof b s t shard leaf))
        × (check_proof_byhash (sibling_proof b s t shard leaf) b h ≡ some true)
  unfolding create_proof fresh_proof sibling_proof
  create_proof_accepted first fresh = (
    rw (held.at, fresh, known.all, side_hashes-siblings 8 0 (omega arith) first),
    check_proof_byhash-sibling_proof,
  )
