-- ===== src/Refs/Resolved.antt =====
-- input_refs.c: what accepted references point to.
use pettycoin.Base.{
  ℕ, zero, suc, ap, ◌∙◌, subst, ◌>>=◌, ◌+◌, ◌^◌, ◌<◌, ◌≤◌, ◌≡◌, ◌↔◌, inl, inr, refl, Bool, Option,
  none, some, List, [], ◌∷◌, arith, Bool-cases, >>=-eq-some, some-injective, get_elem?, get_or,
  take, All, u32, bytes_eq, bytes_eq→eq,
}
use pettycoin.Crypto.{Crypto}
use pettycoin.Protocol.{Ecode, ecode_none, tx_horizon_secs, InputRef, Tx, TxInput}
use pettycoin.Tx.{num_inputs, tx_input}
use pettycoin.Shard.{num_shards, TxRefHash}
use pettycoin.Block.{Block}
use pettycoin.Chain.{block_ancestor}
use pettycoin.Refs.{
  check_place, referred_to, check_ref, or_next, check_refs, RefCheck, refs_ok, refs_bad_hash,
  unknown_or_ok, known_at, ref_round, refs_from, is_none, check_tx_refs,
}

-- The second block is so many steps of the way back behind the first; 0 steps stay at the block.
pub data Behind (blocks : List Block) (a : ℕ) : (steps b : ℕ) → Type 0 where
  itself : Behind blocks a 0 a
  one_back :
      {steps b p : ℕ} {block : Block}
      → Behind blocks a steps b
      → get_elem? blocks b ≡ some block
      → block.prev ≡ some p
      → Behind blocks a (suc steps) p

Behind-first :
    (blocks : List Block) (a p b : ℕ) (block : Block) (steps : ℕ)
    → get_elem? blocks a ≡ some block
    → block.prev ≡ some p
    → Behind blocks p steps b
    → Behind blocks a (suc steps) b
Behind-first blocks a p b block zero at up itself = one_back itself at up
Behind-first blocks a p b block (suc steps) at up (one_back way at_b up_b) =
    one_back (Behind-first blocks a p _ block steps at up way) at_b up_b

block_ancestor-Behind :
    (blocks : List Block) (a steps b : ℕ)
    → block_ancestor blocks a steps ≡ some b
    → Behind blocks a steps b
unfolding block_ancestor
block_ancestor-Behind blocks a zero b is =
    subst (λ x. Behind blocks a 0 x) (some-injective is) itself
block_ancestor-Behind blocks a (suc steps) b is =
    let (block, at, rest) =
      >>=-eq-some (get_elem? blocks a) (λ block. block.prev >>= λ p. block_ancestor blocks p steps)
        is in
    let (p, up, more) = >>=-eq-some block.prev (λ p. block_ancestor blocks p steps) rest in
    Behind-first blocks a p b block steps at up (block_ancestor-Behind blocks p steps b more)

ancestor_further :
    (blocks : List Block) (a steps b p : ℕ) (block : Block)
    → block_ancestor blocks a steps ≡ some b
    → get_elem? blocks b ≡ some block
    → block.prev ≡ some p
    → block_ancestor blocks a (suc steps) ≡ some p
unfolding block_ancestor
ancestor_further blocks a zero b p block is at up =
    let here : get_elem? blocks a ≡ some block = ap (get_elem? blocks) (some-injective is) ∙ at in
    rw (here, up) refl
ancestor_further blocks a (suc steps) b p block is at up =
    let (first, at_a, rest) =
      >>=-eq-some (get_elem? blocks a) (λ block. block.prev >>= λ p. block_ancestor blocks p steps)
        is in
    let (q, up_a, more) = >>=-eq-some first.prev (λ p. block_ancestor blocks p steps) rest in
    rw (at_a, up_a) (ancestor_further blocks q steps b p block more at up)

Behind-block_ancestor :
    (blocks : List Block) (a steps b : ℕ)
    → Behind blocks a steps b
    → block_ancestor blocks a steps ≡ some b
unfolding block_ancestor
Behind-block_ancestor blocks a zero b itself = refl
Behind-block_ancestor blocks a (suc steps) b (one_back {b = c} {block = block} way at up) =
    ancestor_further blocks a steps c b block (Behind-block_ancestor blocks a steps c way) at up

-- The reference is to a place of a block that lies `blocks_ago` steps behind the block, and that is in
-- the horizon.
pub record Points (test_net : Bool) (blocks : List Block) (block : ℕ) (this : Block)
    (ref : InputRef) : Type 0 where
  pub number : ℕ
  pub target : Block
  pub way : Behind blocks block ref.blocks_ago number
  pub at : get_elem? blocks number ≡ some target
  pub recent : this.tailer.timestamp ≤ u32 (target.tailer.timestamp + tx_horizon_secs test_net)
  pub shard_there : ref.shard < 2 ^ target.hdr.shard_order
  pub place_there : ref.txoff < get_or target.shard_nums ref.shard 0

module _ (test_net : Bool) (blocks : List Block) (block : ℕ) (this : Block) where
  place_accepted :
      (ref : InputRef) (b : Option Block)
      → referred_to blocks block ref ≡ b
      → check_place test_net this b ref ≡ ecode_none
      → Points test_net blocks block this ref
  unfolding check_place num_shards referred_to
  place_accepted ref none e h = cc h
  place_accepted ref (some b) e h =
      let (number, found, at) =
        >>=-eq-some (block_ancestor blocks block ref.blocks_ago) (get_elem? blocks) e in
      record {
        number = number;
        target = b;
        way = block_ancestor-Behind blocks block ref.blocks_ago number found;
        at = at;
        recent = ground arith;
        shard_there = ground arith;
        place_there = ground arith;
      }

  accepted_place :
      (ref : InputRef)
      → Points test_net blocks block this ref
      → check_ref test_net blocks block this ref ≡ ecode_none
  unfolding check_ref check_place num_shards referred_to
  accepted_place ref p =
      rw (Behind-block_ancestor blocks block ref.blocks_ago p.number p.way, p.at)
        (ground (arith, p.recent, p.shard_there, p.place_there))

  both_none :
      (e next : Ecode) → or_next e next ≡ ecode_none → (e ≡ ecode_none) × (next ≡ ecode_none)
  unfolding or_next
  both_none ecode_none next h = (refl, h)
  both_none e next h = cc h

  -- The references of a list are accepted exactly if each points to a place of a block that is on
  -- the way back from the block, as many steps behind it as the reference says, and in the horizon.
  pub check_refs_accepts :
      (refs : List InputRef)
      → (check_refs test_net blocks block this refs ≡ ecode_none)
        ↔ All (Points test_net blocks block this) refs
  unfolding check_refs check_ref or_next
  check_refs_accepts [] = (λ h. _, λ h. refl)
  check_refs_accepts (ref ∷ refs) = (
    λ h.
        let (one, more) =
          both_none (check_ref test_net blocks block this ref)
            (check_refs test_net blocks block this refs) h in
        (place_accepted ref _ refl one, (check_refs_accepts refs).0 more),
    λ h. rw (accepted_place ref h.0) ((check_refs_accepts refs).1 h.1),
  )

module _ ⦃c : Crypto⦄ (blocks : List Block) (block : ℕ) (tx : Tx) where
  -- The hash that is known at the place of reference `i` is the one that input `i` names.
  pub record Resolves (i : ℕ) (ref : InputRef) : Type 0 where
    pub target : Block
    pub found : referred_to blocks block ref ≡ some target
    pub hashes : TxRefHash
    pub known : known_at target ref ≡ some (some hashes)
    pub input : TxInput
    pub input_is : tx_input tx i ≡ some input
    pub same_hash : hashes.txhash ≡ input.input

  abbrev pub AllResolve : ℕ → List InputRef → Type 0
  AllResolve i [] = Unit
  AllResolve i (ref ∷ refs) = Resolves i ref × AllResolve (i + 1) refs

  no_unknown : (unknown : Option (ℕ × Block)) → unknown_or_ok unknown ≡ refs_ok → unknown ≡ none
  unfolding unknown_or_ok
  no_unknown none h = refl
  no_unknown (some (i, b)) h = cc h

  -- What a round must have found if the loop ends well.
  round_ok :
      (i : ℕ) (b : Block) (known : Option TxRefHash) (inp : Option TxInput)
      (unknown : Option (ℕ × Block)) (next : Option (ℕ × Block) → Option RefCheck)
      → ((u : Option (ℕ × Block)) → next u ≡ some refs_ok → u ≡ none)
      → ref_round i b known inp unknown next ≡ some refs_ok
      → (h : TxRefHash) × (x : TxInput) × (known ≡ some h)
        × (inp ≡ some x)
        × (h.txhash ≡ x.input)
        × (next unknown ≡ some refs_ok)
  unfolding ref_round
  round_ok i b none inp unknown next good h = absurd (cc (good (some (i, b)) h))
  round_ok i b (some k) none unknown next good h = cc h
  round_ok i b (some k) (some x) unknown next good h =
      elim (Bool-cases (bytes_eq k.txhash x.input)) [
        | inl same ↦ (k, x, refl, refl, bytes_eq→eq k.txhash x.input same, rw same at h)
        | inr differ ↦ absurd (bad (some-injective (rw differ at h)))
      ]
    where
      bad : refs_bad_hash i b ≡ refs_ok → ⊥
      bad e = cc e

  refs_from_ok :
      (i : ℕ) (refs : List InputRef) (unknown : Option (ℕ × Block))
      → refs_from blocks block tx i refs unknown ≡ some refs_ok
      → (unknown ≡ none) × AllResolve i refs
  unfolding refs_from
  refs_from_ok i [] unknown h = (no_unknown unknown (some-injective h), _)
  refs_from_ok i (ref ∷ refs) unknown h =
      let (b, found, rest) = >>=-eq-some (referred_to blocks block ref) _ h in
      let (known, at, last) = >>=-eq-some (known_at b ref) _ rest in
      let (k, x, known_is, input_is, same, next) =
        round_ok i b known (tx_input tx i) unknown (refs_from blocks block tx (i + 1) refs)
          (λ u e. (refs_from_ok (i + 1) refs u e).0) last in
      let (fresh, more) = refs_from_ok (i + 1) refs unknown next in
      (
        fresh,
        (
          record {
            target = b;
            found = found;
            hashes = k;
            known = rw (← known_is) at;
            input = x;
            input_is = input_is;
            same_hash = same;
          },
          more,
        ),
      )

  -- If `check_tx_refs` finds the references of a transaction good, then each of them points to a place
  -- that holds a transaction, known by itself or by its hash, with the hash that the input names.
  pub check_tx_refs_ok :
      (test_net : Bool) (refs : List InputRef)
      → check_tx_refs test_net blocks block tx refs ≡ some refs_ok
      → AllResolve 0 (take (num_inputs tx) refs)
  unfolding check_tx_refs
  check_tx_refs_ok test_net refs h =
      let nums = take (num_inputs tx) refs in
      let (this, at, rest) = >>=-eq-some (get_elem? blocks block) _ h in
      elim (Bool-cases (is_none (check_refs test_net blocks block this nums))) [
        | inl good ↦ (refs_from_ok 0 nums none (rw good at rest)).1
        | inr bad ↦ absurd (ground arith)
      ]
