-- ===== src/Chain.antt =====
-- chain.h and chain.c: the ways back from a block, and the pointers to the longest chains. A block is
-- named by its number in the store. `none` is a read through NULL, or fuel that has run out.
pub mod Precedes
pub mod Walks
pub mod Meeting
pub mod Step
pub mod Best
pub mod Longest
pub mod Pointers
pub mod Tree
pub mod Heads
pub mod Connected
pub mod Flags
pub mod Known
pub mod Moves
pub mod Family
pub mod Joined
pub mod Levels
pub mod Update
pub mod Valid
pub mod Reach
pub mod Start
pub mod Chosen
pub mod Assertions
pub mod Checks
pub mod NewBlock
use pettycoin.Base.{
  ℕ, zero, suc, Bool, true, false, Option, none, some, List, [], ◌∷◌, ◌++◌, ltb, leb, ◌==◌,
  if◌then◌else◌, ◌>>=◌, length, get_elem?,
}
use pettycoin.Block.{Block, depth_of}

-- Is a in the chain before b (or == b)?
unfoldable pub block_preceeds : ℕ → List Block → (a b : ℕ) → Option Bool
block_preceeds zero blocks a b = none
block_preceeds (suc fuel) blocks a b = if a == b then some true else do
  block_a ← get_elem? blocks a
  block_b ← get_elem? blocks b
  if leb (depth_of block_b) (depth_of block_a)
      then some false
      else do prev ← block_b.prev; block_preceeds fuel blocks a prev

-- Follow ->prev count times; `none` is the NULL behind the genesis block.
unfoldable pub block_ancestor : List Block → (a count : ℕ) → Option ℕ
block_ancestor blocks a zero = some a
block_ancestor blocks a (suc count) = do
  block ← get_elem? blocks a
  prev ← block.prev
  block_ancestor blocks prev count

-- The first loop of `step_towards`: back until a depth is reached.
unfoldable pub rewind : ℕ → List Block → (b depth : ℕ) → Option ℕ
rewind zero blocks b depth = none
rewind (suc fuel) blocks b depth = do
  block ← get_elem? blocks b
  if leb (depth_of block) depth then some b else do prev ← block.prev; rewind fuel blocks prev depth

-- The second loop, with `prev_target`, which is not set if the loop has no round.
unfoldable pub advance : ℕ → List Block → Option ℕ → (target depth : ℕ) → Option (Option ℕ × ℕ)
advance zero blocks prev_target target depth = none
advance (suc fuel) blocks prev_target target depth = do
  block ← get_elem? blocks target
  if leb (depth_of block) depth
      then some (prev_target, target)
      else do prev ← block.prev; advance fuel blocks (some target) prev depth

-- The third loop: both back until they meet.
unfoldable pub meet : ℕ → List Block → (curr : ℕ) → Option ℕ → (target : ℕ) → Option (Option ℕ)
meet zero blocks curr prev_target target = none
meet (suc fuel) blocks curr prev_target target = if curr == target then some prev_target else do
  from ← get_elem? blocks target
  next_target ← from.prev
  block ← get_elem? blocks curr
  next_curr ← block.prev
  meet fuel blocks next_curr (some target) next_target

-- One step from the common ancestor towards the target; NULL if there is none.
unfoldable pub step_towards : ℕ → List Block → (curr target : ℕ) → Option (Option ℕ)
step_towards fuel blocks curr target = do
  end ← get_elem? blocks target
  back ← rewind fuel blocks curr (depth_of end)
  if back == target then some none else do
    block ← get_elem? blocks back
    both ← advance fuel blocks none target (depth_of block)
    meet fuel blocks back both.0 both.1

-- BN_cmp of the work of two blocks: less, equal or more.
pub data Compared : Type 0 where
  less same more : Compared

unfoldable pub cmp_work : Block → Block → Compared
cmp_work a b =
    if ltb a.total_work b.total_work
    then less
    else if a.total_work == b.total_work
    then same
    else more

-- What the code does with a block, given the array of the best blocks so far: it replaces them, joins
-- them, or is ignored.
unfoldable pub best_of : Compared → ℕ → List ℕ → List ℕ
best_of less block bests = bests
best_of same block bests = bests ++ block ∷ []
best_of more block bests = block ∷ []

-- The comparison with the first of the best blocks; `none` is a NULL pointer.
unfoldable pub keep_best : List Block → ℕ → List ℕ → Option (List ℕ)
keep_best blocks block bests = do
  first ← get_elem? bests 0
  best ← get_elem? blocks first
  this ← get_elem? blocks block
  some (best_of (cmp_work this best) block bests)

-- A loop over the children of a block.
unfoldable pub each_child :
    (ℕ → List ℕ → Option (List ℕ)) → (children bests : List ℕ) → Option (List ℕ)
each_child visit [] bests = some bests
each_child visit (c ∷ cs) bests = visit c bests >>= each_child visit cs

-- A block with a problem is passed over, with its descendents.
abbrev pub unless_complaint : Bool → List ℕ → Option (List ℕ) → Option (List ℕ)
unless_complaint true bests rest = some bests
unless_complaint false bests rest = rest

-- Search descendents to find if there's one with more work than bests.
unfoldable pub find_longest_descendents :
    ℕ → List Block → (block : ℕ) → (bests : List ℕ) → Option (List ℕ)
find_longest_descendents zero blocks b bests = none
find_longest_descendents (suc fuel) blocks b bests = do
  block ← get_elem? blocks b
  let rest = (do
    kept ← keep_best blocks b bests
    each_child (find_longest_descendents fuel blocks) block.children kept)
  unless_complaint block.complaint bests rest

-- The new value of state->preferred_chain: the first of the best descendents of longest_knowns[0].
unfoldable pub update_preferred_chain : List Block → (longest_knowns : List ℕ) → Option ℕ
update_preferred_chain blocks longest_knowns = do
  known ← get_elem? longest_knowns 0
  arr ← find_longest_descendents (length blocks) blocks known (known ∷ [])
  get_elem? arr 0
