-- ===== src/Chain/Checks.antt =====
-- chain.c: the assertions of `check_chains` on the pointers, as a test; false is a failed assertion. The
-- assertions on all blocks, which are made on request only, are left out.
use pettycoin.Base.{
  ℕ, zero, suc, Bool, true, false, not, ◌&&◌, ◌||◌, Option, none, some, List, [], ◌∷◌, ◌++◌, ◌==◌,
  if◌then◌else◌, is_some, ◌>>=◌, length, get_elem?,
}
use pettycoin.Block.{Block}
use pettycoin.State.{State}
use pettycoin.Chain.{Compared, less, same, more, cmp_work}
use pettycoin.Chain.Pointers.{find_connected_pair}

abbrev pub is_same : Compared → Bool
is_same same = true
is_same less = false
is_same more = false

-- All of the blocks have the work of the given one.
unfoldable pub all_same_work : List Block → Block → List ℕ → Option Bool
all_same_work blocks first [] = some true
all_same_work blocks first (b ∷ bs) = do
  block ← get_elem? blocks b
  rest ← all_same_work blocks first bs
  some (is_same (cmp_work block first) && rest)

-- The first two loops: if there are several longest chains, all have the same work.
unfoldable pub same_work : List Block → List ℕ → Option Bool
same_work blocks [] = some true
same_work blocks (first ∷ others) = do
  block ← get_elem? blocks first
  all_same_work blocks block others

-- None of the blocks has a problem.
unfoldable pub no_complaint : List Block → List ℕ → Option Bool
no_complaint blocks [] = some true
no_complaint blocks (b ∷ bs) = do
  block ← get_elem? blocks b
  rest ← no_complaint blocks bs
  some (not block.complaint && rest)

-- From the preferred chain back to the first known block: no block on the way, before that, is all
-- known or the genesis block.
unfoldable pub leads_back : ℕ → List Block → (i known : ℕ) → Option Bool
leads_back zero blocks i known = none
leads_back (suc fuel) blocks i known = if i == known then some true else do
  block ← get_elem? blocks i
  if i == 0 || block.all_known
      then some false
      else do prev ← block.prev; leads_back fuel blocks prev known

-- If the preferred chain is not the first of the longest, no known block is on the way to one.
unfoldable pub not_connected : State → Option Bool
not_connected state = do
  longest ← get_elem? state.longest_chains 0
  pair ← find_connected_pair state
  some (state.preferred_chain == longest || not (is_some pair))

unfoldable pub check_chains : State → Option Bool
check_chains state = do
  first ← get_elem? state.longest_knowns 0
  chains ← same_work state.blocks state.longest_chains
  knowns ← same_work state.blocks state.longest_knowns
  back ← leads_back (length state.blocks) state.blocks state.preferred_chain first
  apart ← not_connected state
  clean ←
      no_complaint state.blocks
        (state.preferred_chain ∷ state.longest_knowns ++ state.longest_chains)
  some (chains && knowns && back && apart && clean)
