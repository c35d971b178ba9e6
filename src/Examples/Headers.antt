-- ===== src/Examples/Headers.antt =====
-- check_block.c, and what stands on it, at a concrete input: the block after a genesis block.
use pettycoin.Base.{
  Bool, ◌&&◌, if◌then◌else◌, ℕ, suc, ◌+◌, ◌<◌, ◌^◌, ◌≡◌, ◌⊎◌, refl, false, none, some, List, [],
  ◌∷◌, length, get_elem?, some-injective, arith, ap, Bytes,
}
use pettycoin.Crypto.{sha256_double}
use pettycoin.Protocol.{BlockHeader, BlockTailer}
use pettycoin.Block.{Block, block_all_known, depth_of}
use pettycoin.Shard.{num_shards, next_shard_order, new_block_shard, shard_all_known}
use pettycoin.State.{State, new_state}
use pettycoin.Chain.Reach.{IsGenesis, IsStored}
use pettycoin.Chain.Valid.{IsValid}
use pettycoin.Chain.Start.{new_state-IsValid}
use pettycoin.Chain.Checks.{leads_back, not_connected}
use pettycoin.Chain.NewBlock.{block_add}
use pettycoin.Difficulty.{beats_target}
use pettycoin.Marshal.{version_ok}
use pettycoin.Marshal.Blocks.{header_bytes, tailer_bytes}
use pettycoin.CheckBlock.{
  find_in_level, find_in_levels, block_find_any, check_timestamp, times_back, get_difficulty,
  accepted, hash_block, check_block_header,
}
use pettycoin.CheckBlock.Found.{HasSha, block_find_any_finds}
use pettycoin.CheckBlock.Joins.{check_block_header-block_add}
use pettycoin.Examples.{toy_crypto, old_hash}
use pettycoin.Examples.Chains.{header_at}
use pettycoin.Examples.Growth.{the_genesis, no_recheck}

-- A target that every hash beats.
abbrev easy : BlockTailer
easy = record { timestamp = 1000; difficulty = 0x20ffffff; nonce1 = 0 }

abbrev easy_genesis : Block
easy_genesis = record the_genesis { tailer = easy }

abbrev at_easy : State
at_easy = new_state easy_genesis

abbrev header_one : BlockHeader
header_one = record (header_at 1) { shard_order = next_shard_order }

abbrev nums : List ℕ
nums = 1 ∷ 0 ∷ 0 ∷ 0 ∷ []

-- Nothing is sorted.
abbrev as_is : (ℕ → ℕ → ℕ) → List ℕ → List ℕ
as_is cmp times = times

easy_sha : Bytes
easy_sha = hash_block header_one nums [] [] easy

easy_passes :
    check_block_header false as_is 1000 at_easy header_one easy nums [] []
    ≡ some (accepted 0 easy_sha)
unfolding easy_sha check_block_header hash_block new_state block_find_any find_in_levels
    find_in_level check_timestamp times_back get_difficulty beats_target version_ok next_shard_order
    num_shards sha256_double header_bytes tailer_bytes
easy_passes = refl

easy_genesis-IsGenesis : IsGenesis easy_genesis
unfolding block_all_known num_shards shard_all_known new_block_shard
easy_genesis-IsGenesis = record {
  no_parent = refl;
  depth = refl;
  no_children = refl;
  flagged = refl;
  no_problem = refl;
  all = refl;
  shards = refl;
  nums = refl;
}

abbrev easy_valid : IsValid at_easy
easy_valid = new_state-IsValid easy_genesis easy_genesis-IsGenesis

nums_fit : length nums ≡ num_shards header_one
unfolding num_shards next_shard_order
nums_fit = refl

shallow : (parent : Block) → get_elem? at_easy.blocks 0 ≡ some parent → depth_of parent + 1 < 2 ^ 32
unfolding new_state
shallow parent at = omega (arith, ap depth_of (some-injective at))

check_block_header-block_add_example :
    (next : State) × (known : ℕ) × (back : Bool) × (apart : Bool) × IsValid next
    × (length next.blocks ≡ suc (length at_easy.blocks))
    × IsStored next (length at_easy.blocks) easy_sha 0 header_one nums [] [] easy
    × (get_elem? next.longest_knowns 0 ≡ some known)
    × (leads_back (length next.blocks) next.blocks next.preferred_chain known ≡ some back)
    × (not_connected next ≡ some apart)
    × (block_add no_recheck at_easy 0 easy_sha header_one nums [] [] easy
        ≡ (if back && apart then some (next, length at_easy.blocks) else none))
    × ((b : ℕ) × (block_find_any next easy_sha ≡ some (some b)) × HasSha next.blocks easy_sha b)
check_block_header-block_add_example =
    check_block_header-block_add false as_is 1000 no_recheck at_easy header_one nums [] [] easy 0
      easy_sha easy_valid easy_passes nums_fit shallow

block_find_any_finds_example :
    ((block_find_any at_easy old_hash ≡ some none) × ((b : ℕ) → ¬ HasSha at_easy.blocks old_hash b))
    ⊎ ((b : ℕ) × (block_find_any at_easy old_hash ≡ some (some b))
        × HasSha at_easy.blocks old_hash b)
block_find_any_finds_example = block_find_any_finds at_easy old_hash easy_valid
