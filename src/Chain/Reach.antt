-- ===== src/Chain/Reach.antt =====
-- block.c: `block_add` as a whole, and the states that a node reaches by it.
use pettycoin.Base.{
  inl, inr, Bool-cases, ==_refl, bytes_eq, bytes_eq_refl, not, ◌&&◌, ◌||◌, ◌==◌, if◌then◌else◌,
  ◌>>=◌, >>=-eq-some, ℕ, suc, ◌+◌, ◌/◌, ◌^◌, ◌≡◌, refl, sym, ap, ◌∙◌, subst, Bool, true, false,
  Option, none, some, List, [], arith, some-injective, length, get_elem?, get_elem?-lt, Bytes,
}
use pettycoin.Protocol.{BlockHeader, BlockTailer}
use pettycoin.Block.{Block, block_all_known, depth_of}
use pettycoin.Shard.{num_shards}
use pettycoin.Difficulty.{beats_target, decode_difficulty, total_work_done}
use pettycoin.State.{State}
use pettycoin.Crypto.{Crypto}
use pettycoin.CheckBlock.{parent_fits, check_block, hash_block}
use pettycoin.Chain.Checks.{leads_back, not_connected, check_chains}
use pettycoin.Chain.Assertions.{check_chains_ends}
use pettycoin.Chain.Tree.{IsTree}
use pettycoin.Chain.Pointers.{prev_all_known}
use pettycoin.Chain.Family.{Fits, length-family, family_at}
use pettycoin.Chain.Levels.{new_shards_ends, pending_features_ends, Placed, add_to_depth_places}
use pettycoin.Chain.Valid.{IsValid, linked, linked_bad, linked_good}
use pettycoin.Chain.NewBlock.{new_block, if_right, add_checked, unless_problem, block_add}

-- What the caller of `block_add` has checked: the header is one deeper than the parent, the difficulty
-- can be decoded, and there is a number of transactions for each shard.
pub record Acceptable (parent : Block) (hdr : BlockHeader) (shard_nums : List ℕ)
    (tailer : BlockTailer) : Type 0 where
  pub deeper : hdr.depth ≡ suc (depth_of parent)
  pub target : ℕ
  pub decodes : decode_difficulty tailer.difficulty ≡ some target
  pub nums : length shard_nums ≡ num_shards hdr

-- The store has a block with this number, hash and parent, and with this content.
pub record IsStored (state : State) (b : ℕ) (sha : Bytes) (prev : ℕ) (hdr : BlockHeader)
    (shard_nums : List ℕ) (merkles : List Bytes) (prev_txhashes : Bytes) (tailer : BlockTailer)
    : Type 0 where
  pub block : Block
  pub at : get_elem? state.blocks b ≡ some block
  pub sha_is : block.sha ≡ sha
  pub prev_is : block.prev ≡ some prev
  pub hdr_is : block.hdr ≡ hdr
  pub nums_is : block.shard_nums ≡ shard_nums
  pub merkles_is : block.merkles ≡ merkles
  pub txhashes_is : block.prev_txhashes ≡ prev_txhashes
  pub tailer_is : block.tailer ≡ tailer

-- The tests of `check_block` on the parent hold for every block of a valid state.
parent_fits_ends :
    (state : State)
    → IsValid state
    → (b : ℕ) (block : Block) → get_elem? state.blocks b ≡ some block
    → parent_fits state.blocks block block.prev ≡ some true
unfolding prev_all_known
parent_fits_ends state v b block at = elim (tree.rooted b block at) [
  | inl root ↦ rw root.0 refl
  | inr (p, parent, up, at_p, deep) ↦ rw (up, at_p) (ap some (both p parent up at_p))
]
  where
    tree : IsTree state.blocks
    tree = v.core.ready.tree

    inherited :
        (p : ℕ) (parent : Block)
        → block.prev ≡ some p
        → get_elem? state.blocks p ≡ some parent
        → (not parent.complaint || block.complaint) ≡ true
    inherited p parent up at_p = elim (Bool-cases parent.complaint) [
      | inr ok ↦ rw ok refl
      | inl bad ↦ rw (bad, tree.inherits b p block parent at up at_p bad) refl
    ]

    known :
        (p : ℕ) (parent : Block)
        → block.prev ≡ some p
        → get_elem? state.blocks p ≡ some parent
        → (not block.all_known || parent.all_known) ≡ true
    known p parent up at_p = elim (Bool-cases block.all_known) [
      | inr off ↦ rw off refl
      | inl on ↦
          rw (on, parent_known p parent up at_p (v.core.ready.honest.closed b block at on)) refl
    ]
      where
        parent_known :
            (p : ℕ) (parent : Block)
            → block.prev ≡ some p
            → get_elem? state.blocks p ≡ some parent
            → prev_all_known state.blocks block.prev ≡ some true
            → parent.all_known ≡ true
        parent_known p parent up at_p flags = some-injective (rw (up, at_p) at flags)

    both :
        (p : ℕ) (parent : Block)
        → block.prev ≡ some p
        → get_elem? state.blocks p ≡ some parent
        → ((not block.all_known || parent.all_known) && (not parent.complaint || block.complaint))
          ≡ true
    both p parent up at_p = rw (known p parent up at_p, inherited p parent up at_p) refl

module _ ⦃c : Crypto⦄ where
  -- `check_block` finds nothing wrong with a block whose hash is its own and beats its target.
  check_block_passes :
      (state : State)
      → IsValid state
      → (b : ℕ) (sha : Bytes) (prev : ℕ) (hdr : BlockHeader) (shard_nums : List ℕ)
        (merkles : List Bytes) (prev_txhashes : Bytes) (tailer : BlockTailer)
      → IsStored state b sha prev hdr shard_nums merkles prev_txhashes tailer
      → beats_target sha tailer.difficulty ≡ some true
      → hash_block hdr shard_nums merkles prev_txhashes tailer ≡ sha
      → check_block state b ≡ some true
  unfolding check_block
  check_block_passes state v b sha prev hdr shard_nums merkles prev_txhashes tailer s beats own =
      let fits = parent_fits_ends state v b s.block s.at in
      let shape : (length s.block.shard == num_shards s.block.hdr) ≡ true =
        rw ((v.core.ready.tree.shaped b s.block s.at).0) (==_refl (num_shards s.block.hdr)) in
      let same : bytes_eq
            (hash_block s.block.hdr s.block.shard_nums s.block.merkles s.block.prev_txhashes
              s.block.tailer)
            s.block.sha
          ≡ true =
        rw (s.hdr_is, s.nums_is, s.merkles_is, s.txhashes_is, s.tailer_is, s.sha_is, own)
          (bytes_eq_refl sha) in
      let beats' : beats_target s.block.sha s.block.tailer.difficulty ≡ some true =
        rw (s.sha_is, s.tailer_is) beats in
      elim (Bool-cases (b == 0)) [
        | inl first ↦ rw (s.at, first, fits, same) refl
        | inr later ↦ rw (s.at, later, beats', fits, shape, same) refl
      ]

  module _ (recheck_merkles : State → ℕ → Option State) where
    -- In a valid state a block that is acceptable comes in its lists and the pointers are updated, to a
    -- valid state; then come the assertions.
    pub block_add_places :
        (state : State)
        → IsValid state
        → (prev : ℕ) (parent : Block) → get_elem? state.blocks prev ≡ some parent
        → (sha : Bytes) (hdr : BlockHeader) (shard_nums : List ℕ) (merkles : List Bytes)
          (prev_txhashes : Bytes) (tailer : BlockTailer)
        → Acceptable parent hdr shard_nums tailer
        → (next : State) × (block_add recheck_merkles state prev sha hdr shard_nums merkles
              prev_txhashes tailer
            ≡ add_checked recheck_merkles parent.complaint next (length state.blocks))
          × IsValid next
          × (length next.blocks ≡ suc (length state.blocks))
          × IsStored next (length state.blocks) sha prev hdr shard_nums merkles prev_txhashes tailer
    unfolding block_add new_block total_work_done
    block_add_places state v prev parent at sha hdr shard_nums merkles prev_txhashes tailer a =
        let tree = v.core.ready.tree in
        let (shards, made, len) =
          new_shards_ends shard_nums 0 (num_shards hdr) (omega (arith, a.nums)) in
        let work = 2 ^ 256 / (a.target + 1) + parent.total_work in
        let linked_to : Block = record {
          hdr = hdr;
          shard_nums = shard_nums;
          merkles = merkles;
          prev_txhashes = prev_txhashes;
          tailer = tailer;
          sha = sha;
          shard = shards;
          total_work = work;
          pending_features = 0;
          all_known = false;
          complaint = parent.complaint;
          prev = some prev;
          children = [];
        } in
        let (features, voted) =
          pending_features_ends state.blocks tree prev parent linked_to at refl a.deeper in
        let block : Block = record linked_to { pending_features = features } in
        let f : Fits state.blocks tree prev parent at block = record {
          prev_is = refl;
          childless = refl;
          deeper = a.deeper;
          complaint = refl;
          not_known = refl;
          shards = len;
          nums = a.nums;
        } in
        let (level, j, at_l, at_j) = v.leveled.held prev parent at in
        let p =
          add_to_depth_places state.block_depth hdr.depth (length state.blocks)
            (omega (arith, get_elem?-lt state.block_depth (depth_of parent) at_l, a.deeper)) in
        let (next, is, valid, len', stored) =
          joins state v prev parent at block f p parent.complaint refl in
        (next, rw (at, a.decodes, made, p.returns, voted) is, valid, len', stored)
      where
        joins :
            (state : State) (v : IsValid state) (prev : ℕ) (parent : Block)
            (at : get_elem? state.blocks prev ≡ some parent) (block : Block)
            (f : Fits state.blocks v.core.ready.tree prev parent at block)
            (p : Placed state.block_depth (depth_of block) (length state.blocks)) (complaint : Bool)
            → block.complaint ≡ complaint
            → (next : State) × (unless_problem recheck_merkles complaint
                  (linked state v prev parent at block f p.next)
                  (length state.blocks)
                ≡ add_checked recheck_merkles complaint next (length state.blocks))
              × IsValid next
              × (length next.blocks ≡ suc (length state.blocks))
              × IsStored next
                  (length state.blocks)
                  block.sha
                  prev
                  block.hdr
                  block.shard_nums
                  block.merkles
                  block.prev_txhashes
                  block.tailer
        joins state v prev parent at block f p true e = (
          linked state v prev parent at block f p.next,
          refl,
          linked_bad state v prev parent at block f p.next p refl e,
          length-family state.blocks v.core.ready.tree prev parent at block,
          record {
            block = block;
            at = family_at state.blocks v.core.ready.tree prev parent at block;
            sha_is = refl;
            prev_is = f.prev_is;
            hdr_is = refl;
            nums_is = refl;
            merkles_is = refl;
            txhashes_is = refl;
            tailer_is = refl;
          },
        )
        joins state v prev parent at block f p false e =
            let (next, is, valid, same) =
              linked_good state v prev parent at block f p.next recheck_merkles p refl e in
            let (stored, at', like) =
              same.to (length state.blocks) block
                (family_at state.blocks v.core.ready.tree prev parent at block) in
            (
              next,
              rw is refl,
              valid,
              same.len ∙ length-family state.blocks v.core.ready.tree prev parent at block,
              record {
                block = stored;
                at = at';
                sha_is = like.sha;
                prev_is = like.prev ∙ f.prev_is;
                hdr_is = like.hdr;
                nums_is = like.shard_nums;
                merkles_is = like.merkles;
                txhashes_is = like.prev_txhashes;
                tailer_is = like.tailer;
              },
            )

    -- The assertions answer with the state as it is, or abort.
    add_checked-state :
        (complaint : Bool) (state next : State) (b b' : ℕ)
        → add_checked recheck_merkles complaint state b ≡ some (next, b')
        → state ≡ next
    add_checked-state true state next b b' is =
        let (ok, found, rest) = >>=-eq-some (check_chains state) _ is in by_answer ok rest
      where
        by_answer :
            (ok : Bool) → if_right recheck_merkles ok (state, b) ≡ some (next, b') → state ≡ next
        by_answer true e = ap (λ (r : State × ℕ). r.0) (some-injective e)
        by_answer false e = absurd (cc e)
    add_checked-state false state next b b' is =
        let (ok, found, rest) =
          >>=-eq-some (check_chains state)
            (λ chains. check_block state b >>= λ right.
              if_right recheck_merkles (chains && right) (state, b))
            is in
        let (right, found', rest') =
          >>=-eq-some (check_block state b)
            (λ right. if_right recheck_merkles (ok && right) (state, b)) rest in
        by_answer (ok && right) rest'
      where
        by_answer :
            (ok : Bool) → if_right recheck_merkles ok (state, b) ≡ some (next, b') → state ≡ next
        by_answer true e = ap (λ (r : State × ℕ). r.0) (some-injective e)
        by_answer false e = absurd (cc e)

    add_checked_ends :
        (complaint : Bool) (state : State) (b : ℕ) (ok : Bool)
        → check_chains state ≡ some ok
        → check_block state b ≡ some true
        → add_checked recheck_merkles complaint state b ≡ if_right recheck_merkles ok (state, b)
    add_checked_ends true state b ok chains right = rw chains refl
    add_checked_ends false state b true chains right = rw (chains, right) refl
    add_checked_ends false state b false chains right = rw (chains, right) refl

    -- In a valid state a block that is one deeper than a block of it, which has a number of transactions
    -- for each shard, a difficulty that can be decoded, and a hash that is its own and beats its target, is
    -- put in the store behind the last one, with its content, this hash and this parent, to a new state
    -- that is valid and has one more block. `block_add` answers with that state if the two assertions of
    -- `check_chains` hold in it that a valid state does not vouch for: that no block on the way back from the
    -- preferred chain to the first known block is known, and that no known block is on the way to a longest
    -- chain unless the preferred chain is the first of them. Otherwise it aborts.
    pub block_add_valid :
        (state : State)
        → IsValid state
        → (prev : ℕ) (parent : Block) → get_elem? state.blocks prev ≡ some parent
        → (sha : Bytes) (hdr : BlockHeader) (shard_nums : List ℕ) (merkles : List Bytes)
          (prev_txhashes : Bytes) (tailer : BlockTailer)
        → Acceptable parent hdr shard_nums tailer
        → beats_target sha tailer.difficulty ≡ some true
        → hash_block hdr shard_nums merkles prev_txhashes tailer ≡ sha
        → (next : State) × (known : ℕ) × (back : Bool) × (apart : Bool) × IsValid next
          × (length next.blocks ≡ suc (length state.blocks))
          × IsStored next (length state.blocks) sha prev hdr shard_nums merkles prev_txhashes tailer
          × (get_elem? next.longest_knowns 0 ≡ some known)
          × (leads_back (length next.blocks) next.blocks next.preferred_chain known ≡ some back)
          × (not_connected next ≡ some apart)
          × (block_add recheck_merkles state prev sha hdr shard_nums merkles prev_txhashes tailer
              ≡ (if back && apart then some (next, length state.blocks) else none))
    block_add_valid state v prev parent at sha hdr shard_nums merkles prev_txhashes tailer a beats
          own =
        let (next, is, valid, len, stored) =
          block_add_places state v prev parent at sha hdr shard_nums merkles prev_txhashes tailer
            a in
        let (known, back, apart, first, is_back, is_apart, chains) = check_chains_ends next valid in
        let right =
          check_block_passes next valid (length state.blocks) sha prev hdr shard_nums merkles
            prev_txhashes tailer stored beats own in
        (
          next,
          known,
          back,
          apart,
          valid,
          len,
          stored,
          first,
          is_back,
          is_apart,
          is
              ∙ add_checked_ends parent.complaint next (length state.blocks) (back && apart) chains
                  right
              ∙ by_answer (back && apart) (next, length state.blocks),
        )
      where
        by_answer :
            (ok : Bool) (added : State × ℕ)
            → if_right recheck_merkles ok added ≡ (if ok then some added else none)
        by_answer true added = refl
        by_answer false added = refl

    -- One block is added.
    pub data Adds (state : State) : State → Type 0 where
      adds :
          (prev : ℕ) (parent : Block) (sha : Bytes) (hdr : BlockHeader) (shard_nums : List ℕ)
          (merkles : List Bytes) (prev_txhashes : Bytes) (tailer : BlockTailer) {next : State}
          {b : ℕ}
          → get_elem? state.blocks prev ≡ some parent
          → Acceptable parent hdr shard_nums tailer
          → block_add recheck_merkles state prev sha hdr shard_nums merkles prev_txhashes tailer
            ≡ some (next, b)
          → Adds state next

    pub data Reaches (start : State) : State → Type 0 where
      here : Reaches start start
      one_more : {mid next : State} → Reaches start mid → Adds mid next → Reaches start next

    Adds-IsValid : (state next : State) → IsValid state → Adds state next → IsValid next
    Adds-IsValid state next v (adds prev parent sha hdr nums merkles hashes tailer at a is) =
        let (now, is', valid, _, _) =
          block_add_places state v prev parent at sha hdr nums merkles hashes tailer a in
        subst IsValid
          (add_checked-state parent.complaint now next (length state.blocks) _ (sym is' ∙ is)) valid

    pub Reaches-IsValid : (start next : State) → IsValid start → Reaches start next → IsValid next
    Reaches-IsValid start next v here = v
    Reaches-IsValid start next v (one_more {mid = mid} r a) =
        Adds-IsValid mid next (Reaches-IsValid start mid v r) a

-- The genesis block: it has no parent and no child, its shards are all known, and it is flagged.
pub record IsGenesis (genesis : Block) : Type 0 where
  pub no_parent : genesis.prev ≡ none
  pub depth : depth_of genesis ≡ 0
  pub no_children : genesis.children ≡ []
  pub flagged : genesis.all_known ≡ true
  pub no_problem : genesis.complaint ≡ false
  pub all : block_all_known genesis ≡ true
  pub shards : length genesis.shard ≡ num_shards genesis.hdr
  pub nums : length genesis.shard_nums ≡ num_shards genesis.hdr
