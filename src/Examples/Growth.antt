-- ===== src/Examples/Growth.antt =====
-- block.c and chain.c at concrete inputs: a genesis block, to which two chains of two blocks are added.
use pettycoin.Base.{
  is_some, Bool, Bytes, ◌&&◌, if◌then◌else◌, ℕ, suc, ◌<◌, ◌≡◌, refl, true, false, Option, none,
  some, List, [], ◌∷◌, ◌>>=◌, length, get_elem?, All,
}
use pettycoin.Protocol.{BlockTailer}
use pettycoin.Block.{Block, block_all_known}
use pettycoin.Shard.{num_shards, new_block_shard, shard_all_known}
use pettycoin.State.{State, new_state, new_pending_block}
use pettycoin.Chain.Reach.{
  Acceptable, IsStored, IsGenesis, Reaches, here, one_more, adds, block_add_valid,
}
use pettycoin.Chain.Valid.{IsValid}
use pettycoin.Chain.Connected.{Ordered, order_block_pointers_orders}
use pettycoin.Chain.Start.{new_state-IsValid}
use pettycoin.Chain.Chosen.{Sound, FullyKnown, IsChosen, Reaches-IsChosen}
use pettycoin.Chain.NewBlock.{
  new_shards, new_block, new_longest, longest_step, add_to_depth,
  update_block_ptrs_new_shard_or_empty, empty_shards, update_block_ptrs_new_block, block_add,
}
use pettycoin.Chain.Pointers.{
  first_known_before, first_connected, find_connected_pair, swap_blockptr, move_to_front,
  order_block_pointers, set_preferred_chain, update_known,
}
use pettycoin.Chain.{
  cmp_work, best_of, keep_best, each_child, find_longest_descendents, update_preferred_chain,
  block_preceeds,
}
use pettycoin.Difficulty.{decode_difficulty, total_work_done}
use pettycoin.Features.{pending_features}
use pettycoin.Crypto.{sha256_double}
use pettycoin.Marshal.Blocks.{header_bytes, tailer_bytes}
use pettycoin.Difficulty.{beats_target}
use pettycoin.CheckBlock.{check_block, hash_block}
use pettycoin.Chain.Checks.{
  all_same_work, same_work, no_complaint, leads_back, not_connected, check_chains,
}
use pettycoin.Examples.{old_hash, toy_crypto}
use pettycoin.Examples.Chains.{header_at}

abbrev work_tailer : BlockTailer
work_tailer = record { timestamp = 1000; difficulty = 0x20ffffff; nonce1 = 0 }

abbrev pub the_genesis : Block
the_genesis = record {
  hdr = header_at 0;
  shard_nums = 0 ∷ 0 ∷ [];
  merkles = old_hash ∷ old_hash ∷ [];
  prev_txhashes = [];
  tailer = work_tailer;
  sha = old_hash;
  shard = new_block_shard 0 0 ∷ new_block_shard 1 0 ∷ [];
  total_work = 0;
  pending_features = 0;
  all_known = true;
  complaint = false;
  prev = none;
  children = [];
}

the_genesis-IsGenesis : IsGenesis the_genesis
unfolding block_all_known num_shards shard_all_known new_block_shard
the_genesis-IsGenesis = record {
  no_parent = refl;
  depth = refl;
  no_children = refl;
  flagged = refl;
  no_problem = refl;
  all = refl;
  shards = refl;
  nums = refl;
}

-- Nothing is checked again.
abbrev pub no_recheck : State → ℕ → Option State
no_recheck state b = some state

abbrev sha_at : List ℕ → (depth : ℕ) → Bytes
sha_at nums depth = hash_block (header_at depth) nums (old_hash ∷ old_hash ∷ []) [] work_tailer

abbrev add : List ℕ → (prev depth : ℕ) → State → Option (State × ℕ)
add nums prev depth state =
    block_add no_recheck state prev (sha_at nums depth) (header_at depth) nums
      (old_hash ∷ old_hash ∷ []) [] work_tailer

-- Two chains whose transactions are not known: the first block of the first chain, then both of the
-- second.
abbrev three_blocks : Option State
three_blocks = do
  a ← add (1 ∷ 0 ∷ []) 0 1 (new_state the_genesis)
  b ← add (1 ∷ 0 ∷ []) 0 1 a.0
  c ← add (1 ∷ 0 ∷ []) 2 2 b.0
  some c.0

three_added : is_some three_blocks ≡ true
unfolding new_state new_pending_block block_add new_block new_shards total_work_done
    decode_difficulty new_block_shard num_shards add_to_depth pending_features
    update_block_ptrs_new_block longest_step new_longest order_block_pointers find_connected_pair
    first_connected first_known_before move_to_front swap_blockptr set_preferred_chain
    update_preferred_chain find_longest_descendents each_child keep_best cmp_work best_of
    block_preceeds empty_shards update_block_ptrs_new_shard_or_empty block_all_known shard_all_known
    check_chains same_work all_same_work no_complaint leads_back not_connected update_known
    check_block hash_block header_bytes tailer_bytes sha256_double beats_target
three_added = refl

-- The second block of the first chain, of equal work, is not added: the search for the preferred chain
-- goes down the children in order, and the longest chains stand in the order in which they came, so that
-- the assertion of `check_chains` on connected pairs fails.
fourth_aborts : (do s ← three_blocks; add (1 ∷ 0 ∷ []) 1 2 s) ≡ none
unfolding new_state new_pending_block block_add new_block new_shards total_work_done
    decode_difficulty new_block_shard num_shards add_to_depth pending_features
    update_block_ptrs_new_block longest_step new_longest order_block_pointers find_connected_pair
    first_connected first_known_before move_to_front swap_blockptr set_preferred_chain
    update_preferred_chain find_longest_descendents each_child keep_best cmp_work best_of
    block_preceeds empty_shards update_block_ptrs_new_shard_or_empty block_all_known shard_all_known
    check_chains same_work all_same_work no_complaint leads_back not_connected update_known
    check_block hash_block header_bytes tailer_bytes sha256_double beats_target
fourth_aborts = refl

first_accepted : Acceptable the_genesis (header_at 1) (1 ∷ 0 ∷ []) work_tailer
unfolding decode_difficulty num_shards
first_accepted = record { deeper = refl; target = _; decodes = refl; nums = refl }

abbrev the_start : IsValid (new_state the_genesis)
the_start = new_state-IsValid the_genesis the_genesis-IsGenesis

at_start : get_elem? ((new_state the_genesis).blocks) 0 ≡ some the_genesis
unfolding new_state
at_start = refl

first_beats : beats_target (sha_at (1 ∷ 0 ∷ []) 1) work_tailer.difficulty ≡ some true
unfolding beats_target hash_block header_bytes tailer_bytes sha256_double num_shards
first_beats = refl

block_add_valid_example :
    (next : State) × (known : ℕ) × (back : Bool) × (apart : Bool) × IsValid next
    × (length next.blocks ≡ suc (length ((new_state the_genesis).blocks)))
    × IsStored next
        (length ((new_state the_genesis).blocks))
        (sha_at (1 ∷ 0 ∷ []) 1)
        0
        (header_at 1)
        (1 ∷ 0 ∷ [])
        (old_hash ∷ old_hash ∷ [])
        []
        work_tailer
    × (get_elem? next.longest_knowns 0 ≡ some known)
    × (leads_back (length next.blocks) next.blocks next.preferred_chain known ≡ some back)
    × (not_connected next ≡ some apart)
    × (add (1 ∷ 0 ∷ []) 0 1 (new_state the_genesis)
        ≡ (if back && apart then some (next, length ((new_state the_genesis).blocks)) else none))
block_add_valid_example =
    block_add_valid no_recheck (new_state the_genesis) the_start 0
      (record the_genesis { total_work = 0 }) at_start (sha_at (1 ∷ 0 ∷ []) 1) (header_at 1)
      (1 ∷ 0 ∷ []) (old_hash ∷ old_hash ∷ []) [] work_tailer first_accepted first_beats refl

abbrev get_state : Option (State × ℕ) → State
get_state none = new_state the_genesis
get_state (some both) = both.0

abbrev after_one : State
after_one = get_state (add (1 ∷ 0 ∷ []) 0 1 (new_state the_genesis))

added_one : add (1 ∷ 0 ∷ []) 0 1 (new_state the_genesis) ≡ some (after_one, 1)
unfolding new_state new_pending_block block_add new_block new_shards total_work_done
    decode_difficulty new_block_shard num_shards add_to_depth pending_features
    update_block_ptrs_new_block longest_step new_longest order_block_pointers find_connected_pair
    first_connected first_known_before move_to_front swap_blockptr set_preferred_chain
    update_preferred_chain find_longest_descendents each_child keep_best cmp_work best_of
    block_preceeds empty_shards update_block_ptrs_new_shard_or_empty block_all_known shard_all_known
    check_chains same_work all_same_work no_complaint leads_back not_connected update_known
    check_block hash_block header_bytes tailer_bytes sha256_double beats_target
added_one = refl

one_reached : Reaches no_recheck (new_state the_genesis) after_one
one_reached = one_more here (
    adds 0 the_genesis (sha_at (1 ∷ 0 ∷ []) 1) (header_at 1) (1 ∷ 0 ∷ []) (old_hash ∷ old_hash ∷ [])
      [] work_tailer at_start first_accepted added_one)

Reaches-IsChosen_example :
    All (IsChosen after_one.blocks (Sound after_one.blocks)) after_one.longest_chains
    × All (IsChosen after_one.blocks (FullyKnown after_one.blocks)) after_one.longest_knowns
    × (0 < length after_one.longest_chains)
    × (0 < length after_one.longest_knowns)
Reaches-IsChosen_example =
    Reaches-IsChosen no_recheck the_genesis after_one the_genesis-IsGenesis one_reached

order_block_pointers_orders_example : Ordered (new_state the_genesis)
order_block_pointers_orders_example =
    order_block_pointers_orders (new_state the_genesis) the_start.core.ready.tree
      the_start.core.best_chains the_start.core.ready.best_knowns
