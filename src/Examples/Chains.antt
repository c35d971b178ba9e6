-- ===== src/Examples/Chains.antt =====
-- chain.c and the blocks of marshal.c at concrete inputs: a genesis block with two children, of which
-- the second has more work.
use pettycoin.Base.{
  get_elem?, ℕ, zero, suc, ◌<◌, ◌≤◌, ◌≡◌, ◌↔◌, ◌⊎◌, inl, inr, refl, sym, ap, subst, Bool, true,
  false, Option, none, some, List, [], ◌∷◌, ◌++◌, arith, some-injective, length, replicate, All,
  slice,
}
use pettycoin.Result.{ok}
use pettycoin.Protocol.{BlockHeader, BlockTailer}
use pettycoin.Block.{Block, depth_of}
use pettycoin.Chain.Walks.{HasOneRoot}
use pettycoin.Chain.Step.{step_towards_descends}
use pettycoin.Chain.{rewind, advance, meet, step_towards}
use pettycoin.Marshal.Blocks.{
  tailer_bytes, marshal_block_len, marshal_block_into, unmarshal_block_into,
}
use pettycoin.Marshal.BlockTrip.{BlockFits, places_at, unmarshal_block_into-marshal_block_into}
use pettycoin.Chain.{
  find_longest_descendents, keep_best, best_of, cmp_work, each_child, block_preceeds,
  update_preferred_chain,
}
use pettycoin.Chain.Precedes.{Precedes, IsRooted, HasParent, block_preceeds-Precedes}
use pettycoin.Chain.Best.{HasWork, Usable, InOrder}
use pettycoin.Chain.Longest.{update_preferred_chain_most}
use pettycoin.Examples.{old_hash, address}

abbrev pub header_at : ℕ → BlockHeader
header_at depth = record {
  version = 1;
  features_vote = 0;
  shard_order = 1;
  nonce2 = replicate 13 0;
  prev_block = old_hash;
  num_prev_txhashes = 2;
  depth = depth;
  fees_to = address;
}

abbrev a_tailer : BlockTailer
a_tailer = record { timestamp = 1000; difficulty = 0; nonce1 = 0 }

abbrev a_block_at : (depth work : ℕ) → Option ℕ → List ℕ → Block
a_block_at depth work prev children = record {
  hdr = header_at depth;
  shard_nums = 0 ∷ 0 ∷ [];
  merkles = old_hash ∷ old_hash ∷ [];
  prev_txhashes = 5 ∷ 6 ∷ [];
  tailer = a_tailer;
  sha = old_hash;
  shard = [];
  total_work = work;
  pending_features = 0;
  all_known = true;
  complaint = false;
  prev = prev;
  children = children;
}

abbrev genesis_block : Block
genesis_block = a_block_at 0 10 none (1 ∷ 2 ∷ [])

abbrev first_child : Block
first_child = a_block_at 1 15 (some 0) []

abbrev second_child : Block
second_child = a_block_at 1 17 (some 0) []

abbrev fork : List Block
fork = genesis_block ∷ first_child ∷ second_child ∷ []

fork-IsRooted : IsRooted fork
fork-IsRooted zero block at = inl (
  ap (λ (x : Block). x.prev) (sym (some-injective at)),
  ap (λ (x : Block). x.hdr.depth) (sym (some-injective at)),
)
fork-IsRooted (suc zero) block at =
    subst (λ (x : Block). ((x.prev ≡ none) × (x.hdr.depth ≡ 0)) ⊎ HasParent fork x)
      (some-injective at) (inr (0, genesis_block, refl, refl, refl))
fork-IsRooted (suc (suc zero)) block at =
    subst (λ (x : Block). ((x.prev ≡ none) × (x.hdr.depth ≡ 0)) ⊎ HasParent fork x)
      (some-injective at) (inr (0, genesis_block, refl, refl, refl))
fork-IsRooted (suc (suc (suc n))) block at = cc at

fork-InOrder : InOrder fork
fork-InOrder zero block at =
    subst (λ (x : Block). All (λ c. (0 < c) × (c < 3)) x.children) (some-injective at)
      ((omega arith, omega arith), ((omega arith, omega arith), _))
fork-InOrder (suc zero) block at =
    subst (λ (x : Block). All (λ c. (1 < c) × (c < 3)) x.children) (some-injective at) _
fork-InOrder (suc (suc zero)) block at =
    subst (λ (x : Block). All (λ c. (2 < c) × (c < 3)) x.children) (some-injective at) _
fork-InOrder (suc (suc (suc n))) block at = cc at

block_preceeds-Precedes_example :
    (answer : Bool) × (block_preceeds 2 fork 0 2 ≡ some answer)
    × ((answer ≡ true) ↔ Precedes fork 0 2)
block_preceeds-Precedes_example =
    block_preceeds-Precedes fork fork-IsRooted 2 0 2 genesis_block second_child refl refl
      (omega arith)

update_preferred_chain_most_example :
    (chain : ℕ) × (best : ℕ) × (update_preferred_chain fork (0 ∷ []) ≡ some chain)
    × HasWork fork best chain
    × ((chain ≡ 0) ⊎ Usable fork 0 chain)
    × ((d v : ℕ) → Usable fork 0 d → HasWork fork v d → v ≤ best)
update_preferred_chain_most_example =
    update_preferred_chain_most fork fork-InOrder 0 [] (omega arith)

header-BlockFits : BlockFits (header_at 1) (0 ∷ 0 ∷ []) (old_hash ++ old_hash) (5 ∷ 6 ∷ [])
header-BlockFits = record {
  nonce2 = refl;
  prev_block = refl;
  fees_to = refl;
  order = omega arith;
  count = omega arith;
  shards = refl;
  roots = refl;
  prevs = refl;
}

unmarshal_block_into-marshal_block_into_example :
    let buf =
      marshal_block_into (header_at 1) (0 ∷ 0 ∷ []) (old_hash ++ old_hash) (5 ∷ 6 ∷ []) a_tailer in
    let at = places_at 1 2 in
    (unmarshal_block_into buf ≡ ok at)
    × (marshal_block_len (header_at 1) ≡ length buf)
    × (slice at.shard_nums 2 buf ≡ 0 ∷ 0 ∷ [])
    × (slice at.merkles 64 buf ≡ old_hash ++ old_hash)
    × (slice at.prev_txhashes 2 buf ≡ 5 ∷ 6 ∷ [])
    × (slice at.tailer 12 buf ≡ tailer_bytes a_tailer)
unmarshal_block_into-marshal_block_into_example =
    unmarshal_block_into-marshal_block_into (header_at 1) (0 ∷ 0 ∷ []) (old_hash ++ old_hash)
      (5 ∷ 6 ∷ []) a_tailer header-BlockFits refl

fork_runs : update_preferred_chain fork (0 ∷ []) ≡ some 2
unfolding update_preferred_chain find_longest_descendents keep_best best_of cmp_work each_child
fork_runs = refl

fork-HasOneRoot : HasOneRoot fork
fork-HasOneRoot zero block at deep = refl
fork-HasOneRoot (suc zero) block at deep = absurd (omega (arith, ap depth_of (some-injective at)))
fork-HasOneRoot (suc (suc zero)) block at deep =
    absurd (omega (arith, ap depth_of (some-injective at)))
fork-HasOneRoot (suc (suc (suc n))) block at deep = cc at

step_towards_descends_example :
    ((step_towards 2 fork 1 2 ≡ some none) × Precedes fork 2 1)
    ⊎ ((x : ℕ) × (block : Block) × (parent : ℕ) × (step_towards 2 fork 1 2 ≡ some (some x))
        × (get_elem? fork x ≡ some block)
        × (block.prev ≡ some parent)
        × Precedes fork x 2
        × Precedes fork parent 1
        × ¬ Precedes fork x 1)
step_towards_descends_example =
    step_towards_descends fork fork-IsRooted fork-HasOneRoot 2 1 2 first_child second_child refl
      refl (omega arith) (omega arith)

fork_steps : step_towards 2 fork 1 2 ≡ some (some 2)
unfolding step_towards rewind advance meet
fork_steps = refl
