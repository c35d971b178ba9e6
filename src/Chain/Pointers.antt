-- ===== src/Chain/Pointers.antt =====
-- chain.c: how the pointers to the longest chains, to the longest known ones and to the preferred
-- chain follow the blocks. Fuel is the number of the blocks: a way back or down through the tree is
-- shorter. `none` is a read through NULL or past an end, or fuel that has run out.
use pettycoin.Base.{
  ℕ, zero, suc, ◌+◌, Bool, true, false, ◌&&◌, ◌||◌, Option, none, some, List, [], ◌∷◌, length,
  get_elem?, set, ◌==◌, ◌>>=◌, if◌then◌else◌,
}
use pettycoin.Block.{Block, block_all_known}
use pettycoin.Chain.{
  Compared, less, same, more, cmp_work, best_of, block_preceeds, step_towards,
  update_preferred_chain,
}
use pettycoin.State.{State, PendingBlock}
use pettycoin.Pending.{block_to_pending}

-- The inner loop of `find_connected_pair`: the first of the known blocks, from number `j` on, that is
-- before this one.
unfoldable pub first_known_before : List Block → (chain j : ℕ) → List ℕ → Option (Option ℕ)
first_known_before blocks chain j [] = some none
first_known_before blocks chain j (known ∷ knowns) = do
  on ← block_preceeds (length blocks) blocks known chain
  if on then some (some j) else first_known_before blocks chain (j + 1) knowns

-- The outer loop goes on unless there is one.
abbrev pub connected_or : (i : ℕ) → Option (Option (ℕ × ℕ)) → Option ℕ → Option (Option (ℕ × ℕ))
connected_or i later (some j) = some (some (i, j))
connected_or i later none = later

-- Its outer loop, over the longest chains from number `i` on.
unfoldable pub first_connected :
    List Block → (i : ℕ) → (chains knowns : List ℕ) → Option (Option (ℕ × ℕ))
first_connected blocks i [] knowns = some none
first_connected blocks i (chain ∷ chains) knowns = do
  let later = first_connected blocks (i + 1) chains knowns
  found ← first_known_before blocks chain 0 knowns
  connected_or i later found

-- Find a link between a known and a longest chain.
unfoldable pub find_connected_pair : State → Option (Option (ℕ × ℕ))
find_connected_pair state = first_connected state.blocks 0 state.longest_chains state.longest_knowns

-- The first pointer of the array and this one change places.
unfoldable pub swap_blockptr : List ℕ → (k : ℕ) → Option (List ℕ)
swap_blockptr ptrs k = do a ← get_elem? ptrs 0; b ← get_elem? ptrs k; some (set (set ptrs 0 b) k a)

-- What `order_block_pointers` does with the pair.
unfoldable pub move_to_front : State → Option (ℕ × ℕ) → Option (State × Bool)
move_to_front state none = some (state, false)
move_to_front state (some (chain, known)) =
    if chain == 0 && known == 0 then some (state, false) else do
      chains ← swap_blockptr state.longest_chains chain
      knowns ← swap_blockptr state.longest_knowns known
      some (record state { longest_chains = chains; longest_knowns = knowns }, true)

-- Moves a pair of a known and a longest block that are on one chain to the front.
unfoldable pub order_block_pointers : State → Option (State × Bool)
order_block_pointers state = do pair ← find_connected_pair state; move_to_front state pair

-- `update_preferred_chain` of the state.
unfoldable pub set_preferred_chain : State → Option State
set_preferred_chain state = do
  chain ← update_preferred_chain state.blocks state.longest_knowns
  some (record state { preferred_chain = chain })

-- There is no parent, or all its transactions and those of its ancestors are known.
unfoldable pub prev_all_known : List Block → Option ℕ → Option Bool
prev_all_known blocks none = some true
prev_all_known blocks (some p) = do prev ← get_elem? blocks p; some prev.all_known

abbrev pub known : Block → Block
known block = record block { all_known = true }

abbrev pub flag_known : State → ℕ → Block → State
flag_known state b block = record state { blocks = set state.blocks b (known block) }

abbrev pub knowns_changed : Compared → Bool
knowns_changed less = false
knowns_changed same = true
knowns_changed more = true

-- The loop over the children, with `knowns_changed` so far.
unfoldable pub known_children :
    (State → ℕ → Option (State × Bool)) → (children : List ℕ) → State → Bool → Option (State × Bool)
known_children visit [] state changed = some (state, changed)
known_children visit (c ∷ cs) state changed = do
  both ← visit state c
  known_children visit cs both.0 (changed || both.1)

-- The early returns of `update_known_recursive`: the parent or the block is not all known, or the
-- block, now flagged, has a problem.
abbrev pub known_step :
    (ready complaint : Bool)
    → (state flagged : State) → Option (State × Bool)
    → Option (State × Bool)
known_step false complaint state flagged rest = some (state, false)
known_step true true state flagged rest = some (flagged, false)
known_step true false state flagged rest = rest

-- Flags the block and its descendents that are all known, and compares each with the longest known.
unfoldable pub update_known_recursive : ℕ → State → (block : ℕ) → Option (State × Bool)
update_known_recursive zero state b = none
update_known_recursive (suc fuel) state b = do
  block ← get_elem? state.blocks b
  prev_known ← prev_all_known state.blocks block.prev
  let flagged = flag_known state b block
  let rest = (do
    first ← get_elem? state.longest_knowns 0
    best ← get_elem? flagged.blocks first
    known_children (update_known_recursive fuel) block.children
        (record flagged { longest_knowns = best_of (cmp_work block best) b state.longest_knowns })
        (knowns_changed (cmp_work block best)))
  known_step (prev_known && block_all_known block) block.complaint state flagged rest

-- The loop of `steal_pending_txs`, back from `b` until `stop`.
unfoldable pub steal_back : ℕ → List Block → (b stop : ℕ) → PendingBlock → Option PendingBlock
steal_back zero blocks b stop pending = none
steal_back (suc fuel) blocks b stop pending = if b == stop then some pending else do
  block ← get_elem? blocks b
  now ← block_to_pending pending block
  prev ← block.prev
  steal_back fuel blocks prev stop now

abbrev pub steal_until : State → (old : ℕ) → Option ℕ → Option State
steal_until state old none = some state
steal_until state old (some end) = do
  block ← get_elem? state.blocks end
  stop ← block.prev
  pending ← steal_back (length state.blocks) state.blocks old stop state.pending
  some (record state { pending = pending })

-- We're moving longest_known from old to new. Dump all its transactions into pending.
unfoldable pub steal_pending_txs : State → (old new : ℕ) → Option State
steal_pending_txs state old new = do
  end ← step_towards (length state.blocks) state.blocks new old
  steal_until state old end

abbrev pub recheck_later : State → State
recheck_later state = record state { pending = record state.pending { needs_recheck = true } }

-- The end of `update_known`, when the longest known chains have changed.
unfoldable pub knowns_moved : State → (prev_known : ℕ) → Option State
knowns_moved state prev_known = do
  ordered ← order_block_pointers (recheck_later state)
  preferred ← set_preferred_chain ordered.0
  now ← get_elem? preferred.longest_knowns 0
  if now == prev_known then some preferred else steal_pending_txs preferred prev_known now

-- We now know complete contents of block.
unfoldable pub update_known : State → (block : ℕ) → Option (State × Bool)
update_known state b = do
  prev_known ← get_elem? state.longest_knowns 0
  both ← update_known_recursive (length state.blocks) state b
  if both.1 then (do moved ← knowns_moved both.0 prev_known; some (moved, true)) else some both
