-- ===== src/Chain/NewBlock.antt =====
-- chain.c and block.c: a block joins the chain, with what becomes of the pointers.
use pettycoin.Base.{
  ℕ, zero, suc, ◌+◌, Bool, true, false, not, ◌&&◌, Option, none, some, List, [], ◌∷◌, ◌++◌, length,
  get_elem?, set, leb, ◌==◌, ◌>>=◌, if◌then◌else◌, Bytes,
}
use pettycoin.Crypto.{Crypto}
use pettycoin.CheckBlock.{check_block}
use pettycoin.Chain.Checks.{check_chains}
use pettycoin.Protocol.{BlockHeader, BlockTailer}
use pettycoin.Shard.{BlockShard, new_block_shard, num_shards}
use pettycoin.Block.{Block, block_all_known}
use pettycoin.Difficulty.{total_work_done}
use pettycoin.Features.{pending_features}
use pettycoin.Chain.{Compared, less, same, more, cmp_work, best_of}
use pettycoin.State.{State}
use pettycoin.Chain.Pointers.{order_block_pointers, set_preferred_chain, update_known}

-- The loop of `new_block` over the shards, `count` of them from number `i`.
unfoldable pub new_shards : (shard_nums : List ℕ) → (i count : ℕ) → Option (List BlockShard)
new_shards shard_nums i zero = some []
new_shards shard_nums i (suc count) = do
  num ← get_elem? shard_nums i
  rest ← new_shards shard_nums (i + 1) count
  some (new_block_shard i num ∷ rest)

-- A block before it is sewn into the data structures: `prev` is still NULL.
unfoldable pub new_block :
    (prev_work : ℕ) → Bytes → BlockHeader → List ℕ → List Bytes → Bytes → BlockTailer → Option Block
new_block prev_work sha hdr shard_nums merkles prev_txhashes tailer = do
  work ← total_work_done tailer.difficulty prev_work
  shards ← new_shards shard_nums 0 (num_shards hdr)
  some (record {
    hdr = hdr;
    shard_nums = shard_nums;
    merkles = merkles;
    prev_txhashes = prev_txhashes;
    tailer = tailer;
    sha = sha;
    shard = shards;
    total_work = work;
    pending_features = 0;
    all_known = false;
    complaint = false;
    prev = none;
    children = [];
  })

-- `state->upcoming_features`, which the first vote sets.
abbrev pub upcoming : (features upcoming : ℕ) → ℕ
upcoming features now = if not (features == 0) && now == 0 then features else now

-- Now this block is the end of the longest chain.
unfoldable pub new_longest : State → Block → Option State
new_longest state block = do
  ordered ←
      order_block_pointers (record state {
        upcoming_features = upcoming block.pending_features state.upcoming_features;
      })
  set_preferred_chain ordered.0

-- The switch of `update_block_ptrs_new_block`: nothing happens to a block with less work.
unfoldable pub longest_step : Compared → State → (b : ℕ) → Block → Option State
longest_step less state b block = some state
longest_step same state b block =
    new_longest (record state { longest_chains = best_of same b state.longest_chains }) block
longest_step more state b block =
    new_longest (record state { longest_chains = best_of more b state.longest_chains }) block

-- The new depth, if it is one, and the end of the list of its blocks.
unfoldable pub add_to_depth : List (List ℕ) → (depth b : ℕ) → Option (List (List ℕ))
add_to_depth block_depth depth b =
    if leb (length block_depth) depth
    then (if depth == length block_depth then some (block_depth ++ (b ∷ []) ∷ []) else none)
    else (do level ← get_elem? block_depth depth; some (set block_depth depth (level ++ b ∷ [])))

-- `recheck_merkles`, which checks the hashes of earlier transactions in a block again and complains
-- about it, is an argument.
module _ (recheck_merkles : State → ℕ → Option State) where
  -- Once for each child, for the block itself.
  unfoldable pub update_block_ptrs_new_shard_or_empty :
      (children : List ℕ) → State → (block : ℕ) → Option State
  update_block_ptrs_new_shard_or_empty [] state b = some state
  update_block_ptrs_new_shard_or_empty (c ∷ cs) state b = do
    now ← recheck_merkles state b
    update_block_ptrs_new_shard_or_empty cs now b

  -- The loop over the shards, `count` from number `i`, which looks for those without a transaction.
  unfoldable pub empty_shards : (i count : ℕ) → State → (b : ℕ) → Option State
  empty_shards i zero state b = some state
  empty_shards i (suc count) state b = do
    block ← get_elem? state.blocks b
    num ← get_elem? block.shard_nums i
    now ←
        (if num == 0
          then update_block_ptrs_new_shard_or_empty block.children state b
          else some state)
    empty_shards (i + 1) count now b

  -- Update the pointers as required by a new block.
  unfoldable pub update_block_ptrs_new_block : State → (block : ℕ) → Option State
  update_block_ptrs_new_block state b = do
    block ← get_elem? state.blocks b
    first ← get_elem? state.longest_chains 0
    best ← get_elem? state.blocks first
    longest ← longest_step (cmp_work block best) state b block
    checked ← empty_shards 0 (num_shards block.hdr) longest b
    this ← get_elem? checked.blocks b
    both ← (if block_all_known this then update_known checked b else some (checked, false))
    set_preferred_chain both.0

  module _ ⦃c : Crypto⦄ where
    abbrev pub if_right : Bool → State × ℕ → Option (State × ℕ)
    if_right true added = some added
    if_right false added = none

    -- The assertions at the end of `block_add`.
    abbrev pub add_checked : (complaint : Bool) → State → (b : ℕ) → Option (State × ℕ)
    add_checked true state b = do chains ← check_chains state; if_right chains (state, b)
    add_checked false state b = do
      chains ← check_chains state
      right ← check_block state b
      if_right (chains && right) (state, b)

    -- What `block_add` does once the block is in its lists: a block with a problem, or with a parent
    -- that has one, is no candidate.
    abbrev pub unless_problem : (complaint : Bool) → State → (b : ℕ) → Option (State × ℕ)
    unless_problem true state b = add_checked true state b
    unless_problem false state b = do
      now ← update_block_ptrs_new_block state b
      add_checked false now b

    -- Create a new block and add it to the state.
    unfoldable pub block_add :
        State
        → (prev : ℕ) → Bytes
        → BlockHeader
        → List ℕ
        → List Bytes
        → Bytes
        → BlockTailer
        → Option (State × ℕ)
    block_add state prev sha hdr shard_nums merkles prev_txhashes tailer = do
      parent ← get_elem? state.blocks prev
      block ← new_block parent.total_work sha hdr shard_nums merkles prev_txhashes tailer
      let linked = record block { prev = some prev; complaint = parent.complaint }
      let b = length state.blocks
      block_depth ← add_to_depth state.block_depth hdr.depth b
      features ← pending_features state.blocks linked
      let family = set state.blocks prev (record parent { children = parent.children ++ b ∷ [] })
      unless_problem parent.complaint
          (record state {
            blocks = family ++ (record linked { pending_features = features }) ∷ [];
            block_depth = block_depth;
          })
          b
