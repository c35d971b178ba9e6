-- ===== src/PutShard/Counts.antt =====
-- check_block.c and block_shard.c: the counts of a shard are right, and stay so.
use pettycoin.Base.{
  is_some, Bool, true, false, ◌≢◌, ◌==◌, Bool-cases, inl, inr, >>=-eq-some, ℕ, zero, suc, ◌+◌, ◌<◌,
  ◌≤◌, ◌≡◌, refl, sym, ap, ◌∙◌, true, Option, none, some, List, [], ◌∷◌, arith, lt→ltb,
  some-injective, length, get_elem?, get_or, set, length-set, get_elem?-lt, get_elem?-set, u8,
  Bytes,
}
use pettycoin.Crypto.{Crypto}
use pettycoin.Shard.{
  TxRefHash, TxpOrHash, unknown, txp, hash, BlockShard, txrefhash_in_shard, shard_all_hashes,
  entry_hash,
}
use pettycoin.Block.{Block}
use pettycoin.State.{State}
use pettycoin.TxHash.{TxTable}
use pettycoin.InputHash.{InputTable}
use pettycoin.TxInHashes.{Hashes, add_txhash_to_hashes}
use pettycoin.CheckShard.{tally_txs, tally_hashes, check_block_shard}
use pettycoin.PutShard.{if_checked, set_hash, with_shard, asks_recheck, put_txhash_in_shard}

-- The counts are those of the entries, and fit their bytes.
pub record IsCounted (shard : BlockShard) : Type 0 where
  pub sized : length shard.u ≡ shard.size
  pub room : shard.size < 256
  pub txs : shard.txcount ≡ tally_txs shard.u
  pub hashes : shard.hashcount ≡ tally_hashes shard.u

-- What the result of `put_txhash_in_shard` is, given the check of the new shard.
abbrev pub PutIf :
    ⦃c : Crypto⦄
    → (test_net : Bool) (h : TxTable) (hash_any : Bytes → ℕ → ℕ) (inputs : InputTable hash_any)
    → State
    → Hashes h hash_any inputs
    → (b shardnum txoff : ℕ) → TxRefHash
    → (next : State) → (block' : Block) → (shard' : BlockShard) → Type 0
PutIf test_net h hash_any inputs state t b shardnum txoff txrefhash next block' shard' =
    let known = add_txhash_to_hashes h hash_any inputs t b shardnum txoff txrefhash.txhash in
    put_txhash_in_shard test_net h hash_any inputs state t b shardnum txoff txrefhash
    ≡ if_checked test_net h hash_any inputs
        (check_block_shard test_net h hash_any inputs next.blocks known b block' shard')
        ((next, known), true)

counts_fit : (us : List TxpOrHash) → tally_txs us + tally_hashes us ≤ length us
unfolding tally_txs tally_hashes
counts_fit [] = omega arith
counts_fit (unknown ∷ us) = omega (arith, counts_fit us)
counts_fit (txp t ∷ us) = omega (arith, counts_fit us)
counts_fit (hash h ∷ us) = omega (arith, counts_fit us)

-- An unknown entry becomes a hash.
counts-set :
    (us : List TxpOrHash) (i : ℕ) (h : TxRefHash)
    → get_elem? us i ≡ some unknown
    → (tally_hashes (set us i (hash h)) ≡ suc (tally_hashes us))
      × (tally_txs (set us i (hash h)) ≡ tally_txs us)
      × (tally_txs us + tally_hashes us < length us)
unfolding tally_txs tally_hashes
counts-set [] i h at = absurd (cc at)
counts-set (unknown ∷ us) zero h at = (refl, refl, omega (arith, counts_fit us))
counts-set (txp t ∷ us) zero h at = absurd (cc (some-injective at))
counts-set (hash x ∷ us) zero h at = absurd (cc (some-injective at))
counts-set (unknown ∷ us) (suc i) h at =
    let (more, same, room) = counts-set us i h at in (more, same, omega (arith, room))
counts-set (txp t ∷ us) (suc i) h at =
    let (more, same, room) = counts-set us i h at in (more, ap suc same, omega (arith, room))
counts-set (hash x ∷ us) (suc i) h at =
    let (more, same, room) = counts-set us i h at in (ap suc more, same, omega (arith, room))

module _ ⦃c : Crypto⦄ where
  entry_hash-none : (u : TxpOrHash) → entry_hash u ≡ none → u ≡ unknown
  unfolding entry_hash
  entry_hash-none unknown e = refl
  entry_hash-none (txp t) e = absurd (cc e)
  entry_hash-none (hash h) e = absurd (cc e)

  get_or-eq :
      (us : List TxpOrHash) (i : ℕ) → i < length us → get_elem? us i ≡ some (get_or us i unknown)
  get_or-eq [] i room = absurd (omega arith)
  get_or-eq (x ∷ us) zero room = refl
  get_or-eq (x ∷ us) (suc i) room = get_or-eq us i (omega arith)

  get_or-set :
      (us : List TxpOrHash) (i : ℕ) (v : TxpOrHash)
      → i < length us
      → get_or (set us i v) i unknown ≡ v
  get_or-set [] i v room = absurd (omega arith)
  get_or-set (x ∷ us) zero v room = refl
  get_or-set (x ∷ us) (suc i) v room = get_or-set us i v (omega arith)

  set_hash-IsCounted :
      (shard : BlockShard) (txoff : ℕ) (h : TxRefHash)
      → IsCounted shard
      → txoff < shard.size
      → txrefhash_in_shard shard txoff ≡ none
      → IsCounted (set_hash shard txoff h)
        × (shard.hashcount + 1 ≡ (set_hash shard txoff h).hashcount)
        × (txrefhash_in_shard (set_hash shard txoff h) txoff ≡ some h)
  unfolding txrefhash_in_shard set_hash entry_hash
  set_hash-IsCounted shard txoff h c room off =
      let inside : txoff < length shard.u = omega (arith, c.sized, room) in
      let at =
        get_or-eq shard.u txoff inside
        ∙ ap some (entry_hash-none (get_or shard.u txoff unknown) off) in
      let (more, same, fits) = counts-set shard.u txoff h at in
      let exact : u8 (shard.hashcount + 1) ≡ suc (tally_hashes shard.u) =
        omega (arith, c.hashes, fits, c.sized, c.room) in
      (
        record {
          sized = length-set shard.u txoff (hash h) ∙ c.sized;
          room = c.room;
          txs = c.txs ∙ sym same;
          hashes = exact ∙ sym more;
        },
        omega (arith, exact, c.hashes),
        rw (get_or-set shard.u txoff (hash h) inside) refl,
      )

  -- With a proof kept and all hashes known, the check fails.
  check_block_shard-proof :
      (test_net : Bool) (h : TxTable) (hash_any : Bytes → ℕ → ℕ) (inputs : InputTable hash_any)
      (blocks : List Block) (t : Hashes h hash_any inputs) (b : ℕ) (block : Block)
      (shard : BlockShard)
      → is_some shard.proof ≡ true
      → shard_all_hashes shard ≡ true
      → check_block_shard test_net h hash_any inputs blocks t b block shard ≢ some true
  unfolding check_block_shard
  check_block_shard-proof test_net h hash_any inputs blocks t b block shard keeps all is =
      let (num, at, rest) = >>=-eq-some (get_elem? block.shard_nums shard.shardnum) _ is in
      elim (Bool-cases (shard.size == num)) [
        | inl fits ↦ absurd (cc (some-injective (rw (fits, all, keeps) at rest)))
        | inr off ↦ absurd (cc (some-injective (rw off at rest)))
      ]

  not_passed :
      (test_net : Bool) (h : TxTable) (hash_any : Bytes → ℕ → ℕ) (inputs : InputTable hash_any)
      (found : Option Bool) (result : (State × Hashes h hash_any inputs) × Bool)
      → found ≢ some true
      → if_checked test_net h hash_any inputs found result ≡ none
  not_passed test_net h hash_any inputs none result ne = refl
  not_passed test_net h hash_any inputs (some false) result ne = refl
  not_passed test_net h hash_any inputs (some true) result ne = absurd (ne refl)

  keeps_proof :
      (shard : BlockShard) (txoff : ℕ) (h : TxRefHash)
      → is_some shard.proof ≡ true
      → is_some (set_hash shard txoff h).proof ≡ true
  unfolding set_hash
  keeps_proof shard txoff h keeps = keeps

  now_all :
      (shard : BlockShard) (txoff : ℕ) (h : TxRefHash)
      → shard.hashcount + 1 ≡ (set_hash shard txoff h).hashcount
      → shard.txcount + shard.hashcount + 1 ≡ shard.size
      → shard_all_hashes (set_hash shard txoff h) ≡ true
  unfolding shard_all_hashes set_hash
  now_all shard txoff h more last = ground (arith, more, last)

  -- If the shard of a block counts its entries rightly and one of them is not known, then
  -- `put_txhash_in_shard` puts the hash there: the shard at its place in the block counts rightly one hash
  -- more and has this hash, and the pending transactions are to be checked again. The function answers with
  -- that state, and that the hash is new, exactly if `check_block_shard` finds nothing wrong with it, and
  -- aborts otherwise. It does abort if the shard keeps proofs and the hash is the last one that was missing.
  pub put_txhash_in_shard-IsCounted :
      (test_net : Bool) (h : TxTable) (hash_any : Bytes → ℕ → ℕ) (inputs : InputTable hash_any)
      (state : State) (t : Hashes h hash_any inputs) (b shardnum txoff : ℕ) (txrefhash : TxRefHash)
      (block : Block) (shard : BlockShard)
      → get_elem? state.blocks b ≡ some block
      → get_elem? block.shard shardnum ≡ some shard
      → IsCounted shard
      → txoff < shard.size
      → txrefhash_in_shard shard txoff ≡ none
      → (next : State) × (block' : Block) × (shard' : BlockShard) × (next.pending.needs_recheck
          ≡ true)
        × (get_elem? next.blocks b ≡ some block')
        × (get_elem? block'.shard shardnum ≡ some shard')
        × IsCounted shard'
        × (shard.hashcount + 1 ≡ shard'.hashcount)
        × (txrefhash_in_shard shard' txoff ≡ some txrefhash)
        × PutIf test_net h hash_any inputs state t b shardnum txoff txrefhash next block' shard'
        × (is_some shard.proof ≡ true
            → shard.txcount + shard.hashcount + 1 ≡ shard.size
            → put_txhash_in_shard test_net h hash_any inputs state t b shardnum txoff txrefhash
              ≡ none)
  unfolding put_txhash_in_shard
  put_txhash_in_shard-IsCounted test_net h hash_any inputs state t b shardnum txoff txrefhash block
        shard at at_shard c room off =
      let shard' = set_hash shard txoff txrefhash in
      let block' : Block = record block { shard = set block.shard shardnum shard' } in
      let (counted, more, there) = set_hash-IsCounted shard txoff txrefhash c room off in
      let runs : PutIf test_net h hash_any inputs state t b shardnum txoff txrefhash
          (asks_recheck (with_shard state b block shardnum shard')) block' shard' =
        rw (at, at_shard, lt→ltb txoff shard.size room, off) refl in
      (
        asks_recheck (with_shard state b block shardnum shard'),
        block',
        shard',
        refl,
        get_elem?-set state.blocks b block' (get_elem?-lt state.blocks b at),
        get_elem?-set block.shard shardnum shard' (get_elem?-lt block.shard shardnum at_shard),
        counted,
        more,
        there,
        runs,
        λ keeps last.
            runs
            ∙ not_passed test_net h hash_any inputs
                (check_block_shard test_net h hash_any inputs
                  ((asks_recheck (with_shard state b block shardnum shard')).blocks)
                  (add_txhash_to_hashes h hash_any inputs t b shardnum txoff txrefhash.txhash) b
                  block' shard')
                _
                (check_block_shard-proof test_net h hash_any inputs _ _ b block' shard'
                  (keeps_proof shard txoff txrefhash keeps)
                  (now_all shard txoff txrefhash more last)),
      )
