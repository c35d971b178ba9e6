-- ===== src/Features.antt =====
-- features.c: which features of the protocol the blocks of the last period have voted in.
use pettycoin.Base.{
  ℕ, zero, suc, ◌+◌, ◌-◌, ◌*◌, ◌/◌, ◌%◌, ◌^◌, Option, some, List, [], ◌∷◌, leb, ◌==◌, bit, bit_or,
  replicate, get_elem?, ◌>>=◌, if◌then◌else◌,
}
use pettycoin.Protocol.{feature_vote_blocks}
use pettycoin.Block.{Block, depth_of}

-- The loop over the counts of the eight features, from feature `j`, for the votes of one block.
unfoldable pub add_votes : (features_vote j : ℕ) → List ℕ → List ℕ
add_votes features_vote j [] = []
add_votes features_vote j (n ∷ ns) =
    (if bit features_vote j then n + 1 else n) ∷ add_votes features_vote (j + 1) ns

-- The loop back over `more` blocks before this one, and this one.
unfoldable pub count_votes : List Block → (more : ℕ) → Block → List ℕ → Option (List ℕ)
count_votes blocks zero b counts = some (add_votes b.hdr.features_vote 0 counts)
count_votes blocks (suc more) b counts = do
  p ← b.prev
  prev ← get_elem? blocks p
  count_votes blocks more prev (add_votes b.hdr.features_vote 0 counts)

-- The loop that sets a bit of the result for every feature from `j` that has three quarters.
unfoldable pub supermajorities : (j : ℕ) → List ℕ → (result : ℕ) → ℕ
supermajorities j [] result = result
supermajorities j (n ∷ ns) result =
    supermajorities (j + 1) ns
      (if leb 3 (n * 4 / feature_vote_blocks) then bit_or result (2 ^ j) else result)

unfoldable pub pending_features : List Block → Block → Option ℕ
pending_features blocks block =
    if depth_of block % feature_vote_blocks == 0
    then (do
      counts ← count_votes blocks (feature_vote_blocks - 1) block (replicate 8 0)
      some (supermajorities 0 counts 0))
    else (do p ← block.prev; prev ← get_elem? blocks p; some prev.pending_features)
