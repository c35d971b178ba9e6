-- ===== src/Proof/Binding.antt =====
-- proof.c: what an accepted proof fixes.
use pettycoin.Base.{
  bytes_eq, some, some-injective, if◌then◌else◌, ℕ, ◌+◌, ◌≡◌, ◌≢◌, ◌⊎◌, inl, inr, sym, ap, ◌∙◌,
  true, List, [], ◌∷◌, arith, if◌then◌else◌, Bool-cases, length, get_or, bit, Bytes, bytes_eq→eq,
}
use native.Mathlib.Decide.{ℕ_discrete}
use pettycoin.Crypto.{Crypto}
use pettycoin.Shard.{TxRefHash, MerkleProof}
use pettycoin.Merkle.{merkle_two_hashes}
use pettycoin.Block.{Block}
use pettycoin.Proof.{combine, proof_merkles_to, check_proof_byhash}

module _ ⦃c : Crypto⦄ where
  -- The pairs that `combine` hashes on its way up.
  unfoldable pub pairs_up : (t i : ℕ) → List Bytes → Bytes → List (Bytes × Bytes)
  pairs_up t i [] x = []
  pairs_up t i (m ∷ ms) x =
      let pair = if bit t i then (m, x) else (x, m) in
      pair ∷ pairs_up t (i + 1) ms (merkle_two_hashes pair.0 pair.1)

  -- Somewhere along the two ways up, two different pairs are hashed to one value.
  pub data Collides : List (Bytes × Bytes) → List (Bytes × Bytes) → Type 0 where
    here :
        {p q : Bytes × Bytes} {ps qs : List (Bytes × Bytes)}
        → p ≢ q
        → merkle_two_hashes p.0 p.1 ≡ merkle_two_hashes q.0 q.1
        → Collides (p ∷ ps) (q ∷ qs)
    there :
        {p q : Bytes × Bytes} {ps qs : List (Bytes × Bytes)}
        → Collides ps qs
        → Collides (p ∷ ps) (q ∷ qs)

  Bytes-discrete : Discrete (Bytes × Bytes)
  Bytes-discrete = hlevel ℕ_discrete

  -- If the pairs at the head have one hash, they are the same or show the collision.
  pairs_or_collision :
      (p q : Bytes × Bytes) (ps qs : List (Bytes × Bytes))
      → (merkle_two_hashes p.0 p.1 ≡ merkle_two_hashes q.0 q.1) ⊎ Collides ps qs
      → (p ≡ q) ⊎ Collides (p ∷ ps) (q ∷ qs)
  pairs_or_collision p q ps qs (inr k) = inr (there k)
  pairs_or_collision p q ps qs (inl e) = elim (Bytes-discrete p q) [
    | yes same ↦ inl same
    | no ne ↦ inr (here ne e)
  ]

  -- Two ways up from one place to one root begin at one hash, or show a collision.
  combine_injective :
      (t i : ℕ) (ms ms' : List Bytes) (x y : Bytes)
      → length ms ≡ length ms'
      → combine t i ms x ≡ combine t i ms' y
      → (x ≡ y) ⊎ Collides (pairs_up t i ms x) (pairs_up t i ms' y)
  unfolding combine pairs_up
  combine_injective t i [] [] x y l e = inl e
  combine_injective t i [] (m' ∷ ms') x y l e = absurd (omega arith)
  combine_injective t i (m ∷ ms) [] x y l e = absurd (omega arith)
  combine_injective t i (m ∷ ms) (m' ∷ ms') x y l e = elim (Bool-cases (bit t i)) [
    | inl odd ↦
        let rest =
          combine_injective t (i + 1) ms ms' (merkle_two_hashes m x) (merkle_two_hashes m' y)
            (omega arith) (rw odd at e) in
        rw odd (elim (pairs_or_collision (m, x) (m', y) _ _ rest) [
          | inl p ↦ inl (ap (λ q. q.1) p)
          | inr k ↦ inr k
        ])
    | inr even ↦
        let rest =
          combine_injective t (i + 1) ms ms' (merkle_two_hashes x m) (merkle_two_hashes y m')
            (omega arith) (rw even at e) in
        rw even (elim (pairs_or_collision (x, m) (y, m') _ _ rest) [
          | inl p ↦ inl (ap (λ q. q.0) p)
          | inr k ↦ inr k
        ])
  ]

  -- The pairs that `check_proof_byhash` hashes for a proof, the one of the leaf first.
  unfoldable pub hashed_pairs : MerkleProof → TxRefHash → List (Bytes × Bytes)
  hashed_pairs p h =
      (h.txhash, h.refhash)
      ∷ pairs_up p.pos.txoff 0 p.merkles (merkle_two_hashes h.txhash h.refhash)

  accepted_root :
      (p : MerkleProof) (b : Block) (h : TxRefHash)
      → check_proof_byhash p b h ≡ some true
      → get_or b.merkles p.pos.shard []
        ≡ combine p.pos.txoff 0 p.merkles (merkle_two_hashes h.txhash h.refhash)
  unfolding check_proof_byhash proof_merkles_to
  accepted_root p b h e = elim (Bool-cases (bytes_eq b.sha p.pos.block)) [
    | inr other ↦ absurd (cc (rw other at e))
    | inl own ↦
        let checked = some-injective (rw own at e) in
        bytes_eq→eq (get_or b.merkles p.pos.shard [])
          (combine p.pos.txoff 0 p.merkles (merkle_two_hashes h.txhash h.refhash)) (ground arith)
  ]

  -- If two proofs with as many hashes for one place of a block are accepted, with two transaction
  -- hashes, then these are the same, or at one level of the two checks `merkle_two_hashes` gave one
  -- value for two different pairs.
  pub check_proof_binding :
      (p p' : MerkleProof) (b : Block) (h h' : TxRefHash)
      → length p.merkles ≡ length p'.merkles
      → p.pos.shard ≡ p'.pos.shard
      → p.pos.txoff ≡ p'.pos.txoff
      → check_proof_byhash p b h ≡ some true
      → check_proof_byhash p' b h' ≡ some true
      → ((h.txhash ≡ h'.txhash) × (h.refhash ≡ h'.refhash))
        ⊎ Collides (hashed_pairs p h) (hashed_pairs p' h')
  unfolding hashed_pairs
  check_proof_binding p p' b h h' l s t e e' =
      let root : get_or b.merkles p.pos.shard [] ≡ get_or b.merkles p'.pos.shard [] =
        ap (λ (k : ℕ). get_or b.merkles k []) s in
      let leaf = merkle_two_hashes h.txhash h.refhash in
      let leaf' = merkle_two_hashes h'.txhash h'.refhash in
      let back : combine p'.pos.txoff 0 p'.merkles leaf' ≡ combine p.pos.txoff 0 p'.merkles leaf' =
        ap (λ (k : ℕ). combine k 0 p'.merkles leaf') (sym t) in
      let inj =
        combine_injective p.pos.txoff 0 p.merkles p'.merkles leaf leaf' l
          (sym (accepted_root p b h e) ∙ root ∙ accepted_root p' b h' e' ∙ back) in
      elim (pairs_or_collision (h.txhash, h.refhash) (h'.txhash, h'.refhash) _ _ inj) [
        | inl same ↦ inl (ap (λ q. q.0) same, ap (λ q. q.1) same)
        | inr k ↦ inr (rw (← t) k)
      ]
