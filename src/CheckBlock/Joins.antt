-- ===== src/CheckBlock/Joins.antt =====
-- check_block.c: what a block header that passes `check_block_header` is, and what becomes of such a block in
-- `block_add` of block.c.
use pettycoin.Base.{
  ◌&&◌, if◌then◌else◌, ℕ, suc, ◌+◌, ◌-◌, ◌*◌, ◌^◌, ◌<◌, ◌≡◌, inl, inr, refl, sym, ap, ◌∙◌, subst,
  Bool, true, false, Option, none, some, List, arith, bit_and, ltb, ◌==◌, ==→eq, Bool-cases,
  >>=-eq-some, some-injective, length, get_elem?, u32, shl, shr, Bytes,
}
use pettycoin.Crypto.{Crypto}
use pettycoin.Protocol.{
  BlockHeader, BlockTailer, Ecode, bad_shard_order, block_high_version, bad_timestamp,
  bad_difficulty, insufficient_work, bad_depth,
}
use pettycoin.Marshal.{version_ok}
use pettycoin.Shard.{next_shard_order, num_shards}
use pettycoin.Block.{Block, depth_of}
use pettycoin.Difficulty.{beats_target, decode_difficulty}
use pettycoin.State.{State}
use pettycoin.Chain.NewBlock.{block_add}
use pettycoin.Chain.Checks.{leads_back, not_connected}
use pettycoin.Chain.Reach.{Acceptable, IsStored, block_add_valid}
use pettycoin.Chain.Valid.{IsValid}
use pettycoin.CheckBlock.{
  block_find_any, check_timestamp, get_difficulty, HeaderCheck, accepted, unless, with_work,
  with_prev, against_parent, against_time, against_difficulty, hash_block, check_block_header,
}
use pettycoin.CheckBlock.Found.{HasSha, block_find_any_finds}

unless-accepted :
    (b : Bool) (e : Ecode) (next : Option HeaderCheck) (prev : ℕ) (sha : Bytes)
    → unless b e next ≡ some (accepted prev sha)
    → (b ≡ true) × (next ≡ some (accepted prev sha))
unless-accepted true e next prev sha is = (refl, is)
unless-accepted false e next prev sha is = absurd (cc (some-injective is))

accepted-injective : (p q : ℕ) (s t : Bytes) → accepted p s ≡ accepted q t → (p ≡ q) × (s ≡ t)
accepted-injective p q s t e = (cc e, cc e)

beats_target-decodes :
    (sha : Bytes) (difficulty : ℕ)
    → beats_target sha difficulty ≡ some true
    → (target : ℕ) × (decode_difficulty difficulty ≡ some target)
unfolding beats_target decode_difficulty
beats_target-decodes sha difficulty is = elim (Bool-cases (ltb (shr difficulty 24) 3)) [
  | inl low ↦ elim (Bool-cases (ltb 32 (shr difficulty 24))) [
    | inl big ↦ absurd (cc (rw big at is))
    | inr small ↦ absurd (cc (rw (small, low) at is))
  ]
  | inr high ↦ (shl (bit_and difficulty 0x00ffffff) ((shr difficulty 24 - 3) * 8), rw high refl)
]

module _ ⦃c : Crypto⦄ (test_net : Bool) (asort : (ℕ → ℕ → ℕ) → List ℕ → List ℕ) (now : ℕ)
    (state : State) (hdr : BlockHeader) (tailer : BlockTailer) where
  -- All that the header and the tailer must be, with this block as the parent.
  pub record IsFollower (prev : ℕ) (sha : Bytes) : Type 0 where
    pub parent : Block
    pub at : get_elem? state.blocks prev ≡ some parent
    pub version : version_ok hdr.version ≡ true
    pub beats : beats_target sha tailer.difficulty ≡ some true
    pub found : block_find_any state hdr.prev_block ≡ some (some prev)
    pub shard_order : (hdr.shard_order == next_shard_order) ≡ true
    pub deeper : (hdr.depth == u32 (depth_of parent + 1)) ≡ true
    pub in_time : check_timestamp asort now state.blocks tailer.timestamp prev ≡ some true
    pub difficulty : get_difficulty test_net state.blocks prev ≡ some tailer.difficulty

  -- A header that passes `check_block_header` is that of a follower of the block that is handed back, and
  -- the hash that is handed back is that of the header.
  pub check_block_header-accepted :
      (shard_nums : List ℕ) (merkles : List Bytes) (prev_txhashes : Bytes) (prev : ℕ) (sha : Bytes)
      → check_block_header test_net asort now state hdr tailer shard_nums merkles prev_txhashes
        ≡ some (accepted prev sha)
      → IsFollower prev (hash_block hdr shard_nums merkles prev_txhashes tailer)
        × (sha ≡ hash_block hdr shard_nums merkles prev_txhashes tailer)
  unfolding check_block_header
  check_block_header-accepted shard_nums merkles prev_txhashes prev sha is =
      let own = hash_block hdr shard_nums merkles prev_txhashes tailer in
      let (version, is1) =
        unless-accepted (version_ok hdr.version) block_high_version _ prev sha is in
      let (b, beat, is2) =
        >>=-eq-some (beats_target own tailer.difficulty)
          (λ b. with_work test_net asort now state hdr tailer own b) is1 in
      let (beats, is3) = unless-accepted b insufficient_work _ prev sha is2 in
      let (p, found, is4) =
        >>=-eq-some (block_find_any state hdr.prev_block)
          (λ p. with_prev test_net asort now state hdr tailer own p) is3 in
      from_prev own version (rw beats at beat) p found is4
    where
      from_prev :
          (own : Bytes)
          → version_ok hdr.version ≡ true
          → beats_target own tailer.difficulty ≡ some true
          → (p : Option ℕ) → block_find_any state hdr.prev_block ≡ some p
          → with_prev test_net asort now state hdr tailer own p ≡ some (accepted prev sha)
          → IsFollower prev own × (sha ≡ own)
      from_prev own version beats none found is = absurd (cc (some-injective is))
      from_prev own version beats (some p) found is =
          let (parent, at, is1) =
            >>=-eq-some (get_elem? state.blocks p)
              (λ b. against_parent test_net asort now state hdr tailer p own b) is in
          let (order, is2) =
            unless-accepted (hdr.shard_order == next_shard_order) bad_shard_order _ prev sha is1 in
          let (deeper, is3) =
            unless-accepted (hdr.depth == u32 (depth_of parent + 1)) bad_depth _ prev sha is2 in
          let (fits, timed, is4) =
            >>=-eq-some (check_timestamp asort now state.blocks tailer.timestamp p)
              (λ f. against_time test_net asort now state hdr tailer p own f) is3 in
          let (in_time, is5) = unless-accepted fits bad_timestamp _ prev sha is4 in
          let (wanted, walked, is6) =
            >>=-eq-some (get_difficulty test_net state.blocks p)
              (λ d. against_difficulty test_net asort now state hdr tailer p own d) is5 in
          let (same, is7) =
            unless-accepted (tailer.difficulty == wanted) bad_difficulty _ prev sha is6 in
          let (p≡, own≡) = accepted-injective p prev own sha (some-injective is7) in
          let follower : IsFollower p own = record {
            parent = parent;
            at = at;
            version = version;
            beats = beats;
            found = found;
            shard_order = order;
            deeper = deeper;
            in_time = rw in_time at timed;
            difficulty = walked ∙ ap some (sym (==→eq tailer.difficulty wanted same));
          } in
          (subst (λ x. IsFollower x own) p≡ follower, sym own≡)

-- In a valid state, let a block's header pass `check_block_header`, let it have a number of transactions for
-- each shard, and let its parent not be as deep as a depth can be. Then, under the parent and with the
-- hash that were handed back, the block is put in the store with its content, to a state that is valid, has
-- one more block, and in which `block_find_any` finds a block with that hash. `block_add` answers with that
-- state unless one of the two assertions of `check_chains` fails in it that are about the way back from the
-- preferred chain and about known blocks on the way to a longest chain; then it aborts.
pub check_block_header-block_add :
    ⦃c : Crypto⦄
    → (test_net : Bool) (asort : (ℕ → ℕ → ℕ) → List ℕ → List ℕ) (now : ℕ)
      (recheck_merkles : State → ℕ → Option State) (state : State) (hdr : BlockHeader)
      (shard_nums : List ℕ) (merkles : List Bytes) (prev_txhashes : Bytes) (tailer : BlockTailer)
      (prev : ℕ) (sha : Bytes)
    → IsValid state
    → check_block_header test_net asort now state hdr tailer shard_nums merkles prev_txhashes
      ≡ some (accepted prev sha)
    → length shard_nums ≡ num_shards hdr
    → ((parent : Block) → get_elem? state.blocks prev ≡ some parent → depth_of parent + 1 < 2 ^ 32)
    → (next : State) × (known : ℕ) × (back : Bool) × (apart : Bool) × IsValid next
      × (length next.blocks ≡ suc (length state.blocks))
      × IsStored next (length state.blocks) sha prev hdr shard_nums merkles prev_txhashes tailer
      × (get_elem? next.longest_knowns 0 ≡ some known)
      × (leads_back (length next.blocks) next.blocks next.preferred_chain known ≡ some back)
      × (not_connected next ≡ some apart)
      × (block_add recheck_merkles state prev sha hdr shard_nums merkles prev_txhashes tailer
          ≡ (if back && apart then some (next, length state.blocks) else none))
      × ((b : ℕ) × (block_find_any next sha ≡ some (some b)) × HasSha next.blocks sha b)
check_block_header-block_add test_net asort now recheck_merkles state hdr shard_nums merkles
      prev_txhashes tailer prev sha v is nums shallow =
    let (f, own) =
      check_block_header-accepted test_net asort now state hdr tailer shard_nums merkles
        prev_txhashes prev sha is in
    let (target, decodes) = beats_target-decodes _ tailer.difficulty f.beats in
    let deep = ==→eq hdr.depth (u32 (depth_of f.parent + 1)) f.deeper in
    let a : Acceptable f.parent hdr shard_nums tailer = record {
      deeper = omega (arith, deep, shallow f.parent f.at);
      target = target;
      decodes = decodes;
      nums = nums;
    } in
    let (next, known, back, apart, valid, len, s, first, is_back, is_apart, added) =
      block_add_valid recheck_merkles state v prev f.parent f.at sha hdr shard_nums merkles
        prev_txhashes tailer a (rw own f.beats) (sym own) in
    (
      next,
      known,
      back,
      apart,
      valid,
      len,
      s,
      first,
      is_back,
      is_apart,
      added,
      elim (block_find_any_finds next sha valid) [
        | inl (null, off) ↦ absurd (off (length state.blocks) (s.block, s.at, s.sha_is))
        | inr found ↦ found
      ],
    )
