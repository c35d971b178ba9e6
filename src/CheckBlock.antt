-- ===== src/CheckBlock.antt =====
-- hash_block.c, timestamp.c, the walk of difficulty.c, the searches of block.c, and `check_block_header` of
-- check_block.c: may a block join the tree? The time, and `asort` of ccan, are arguments. `none` is a read
-- through NULL or behind an array.
pub mod Found
pub mod Joins
use pettycoin.Base.{
  ◌&&◌, ◌||◌, ℕ, zero, suc, ◌+◌, ◌-◌, ◌*◌, ◌/◌, ◌%◌, ◌^◌, Bool, true, false, not, Option, none,
  some, List, [], ◌∷◌, ◌++◌, ltb, leb, ◌==◌, if◌then◌else◌, ◌>>=◌, length, get_elem?, take, u32,
  Bytes, bytes_eq,
}
use pettycoin.Crypto.{Crypto, sha256_double}
use pettycoin.Protocol.{
  BlockHeader, BlockTailer, Ecode, bad_shard_order, block_high_version, bad_timestamp,
  bad_difficulty, insufficient_work, bad_depth, priv_unknown_prev, difficulty_update_blocks,
}
use pettycoin.Marshal.{version_ok}
use pettycoin.Marshal.Blocks.{header_bytes, tailer_bytes}
use pettycoin.Shard.{next_shard_order, num_shards}
use pettycoin.Block.{Block, depth_of}
use pettycoin.Chain.{block_ancestor}
use pettycoin.Difficulty.{beats_target, retarget}
use pettycoin.State.{State}

-- Follows ->prev to the first block whose hash begins with these four bytes; `some none` is NULL.
unfoldable pub block_find :
    ℕ → List Block → (start : Option ℕ) → (lower_sha : Bytes) → Option (Option ℕ)
block_find fuel blocks none lower_sha = some none
block_find zero blocks (some b) lower_sha = none
block_find (suc fuel) blocks (some b) lower_sha = do
  block ← get_elem? blocks b
  let rest = block_find fuel blocks block.prev lower_sha
  (if bytes_eq (take 4 block.sha) lower_sha then some (some b) else rest)

abbrev pub found_or : Option (Option ℕ) → Option ℕ → Option (Option ℕ)
found_or later none = later
found_or later (some b) = some (some b)

-- The blocks of one depth, in order.
unfoldable pub find_in_level : List Block → Bytes → List ℕ → Option (Option ℕ)
find_in_level blocks sha [] = some none
find_in_level blocks sha (b ∷ bs) = do
  block ← get_elem? blocks b
  let rest = find_in_level blocks sha bs
  (if bytes_eq block.sha sha then some (some b) else rest)

-- Search recent blocks first.
unfoldable pub find_in_levels : List Block → Bytes → List (List ℕ) → Option (Option ℕ)
find_in_levels blocks sha [] = some none
find_in_levels blocks sha (level ∷ levels) = do
  let here = find_in_level blocks sha level
  deeper ← find_in_levels blocks sha levels
  found_or here deeper

unfoldable pub block_find_any : State → Bytes → Option (Option ℕ)
block_find_any state sha = find_in_levels state.blocks sha state.block_depth

-- 1 is greater; the second test is the same as the first.
unfoldable pub cmp_times : ℕ → ℕ → ℕ
cmp_times a b = if ltb b a then 1 else if ltb b a then 2 ^ 32 - 1 else 0

-- The timestamps of up to `count` blocks back from this one, without the genesis block.
unfoldable pub times_back : List Block → (count : ℕ) → (prev : ℕ) → Option (List ℕ)
times_back blocks zero prev = some []
times_back blocks (suc count) prev = do
  block ← get_elem? blocks prev
  next block.prev (λ p. times_back blocks count p) block.tailer.timestamp
  where
    next : Option ℕ → (ℕ → Option (List ℕ)) → ℕ → Option (List ℕ)
    next none rest timestamp = some []
    next (some p) rest timestamp = do times ← rest p; some (timestamp ∷ times)

abbrev pub after_median : (sorted : List ℕ) → (count timestamp now : ℕ) → Option Bool
after_median sorted zero timestamp now = some (ltb timestamp (now + 2 * 60 * 60))
after_median sorted (suc count) timestamp now = do
  median ← get_elem? sorted (suc count / 2)
  some (if leb timestamp median then false else ltb timestamp (now + 2 * 60 * 60))

-- Must be before now + 2 hours, after median of last 11 transactions.
unfoldable pub check_timestamp :
    (asort : (ℕ → ℕ → ℕ) → List ℕ → List ℕ)
    → (now : ℕ) → List Block
    → (timestamp prev : ℕ) → Option Bool
check_timestamp asort now blocks timestamp prev = do
  times ← times_back blocks 11 prev
  after_median (asort cmp_times times) (length times) timestamp now

-- `get_difficulty`: the walk back at the end of an interval.
unfoldable pub get_difficulty : (test_net : Bool) → List Block → (prev : ℕ) → Option ℕ
get_difficulty test_net blocks prev = do
  block ← get_elem? blocks prev
  (if not (u32 (depth_of block + 1) % difficulty_update_blocks == 0)
      then some block.tailer.difficulty
      else (do
        genesis ← get_elem? blocks 0
        first ←
            (if depth_of block == difficulty_update_blocks - 1
              then some 0
              else block_ancestor blocks prev difficulty_update_blocks)
        start ← get_elem? blocks first
        retarget test_net block.tailer.difficulty block.tailer.timestamp start.tailer.timestamp
            genesis.tailer.difficulty))

-- A code, or the parent and the hash that are handed back.
pub data HeaderCheck : Type 0 where
  refused : Ecode → HeaderCheck
  accepted : (prev : ℕ) (sha : Bytes) → HeaderCheck

-- One test of `check_block_header`, which returns a code if it fails.
abbrev pub unless : Bool → Ecode → Option HeaderCheck → Option HeaderCheck
unless true e next = next
unless false e next = some (refused e)

-- A block is known or without a problem only if its parent is.
abbrev pub parent_fits : List Block → Block → Option ℕ → Option Bool
parent_fits blocks block none = some true
parent_fits blocks block (some p) = do
  parent ← get_elem? blocks p
  some ((not block.all_known || parent.all_known) && (not parent.complaint || block.complaint))

concat : List Bytes → Bytes
concat [] = []
concat (m ∷ ms) = m ++ concat ms

module _ ⦃c : Crypto⦄ where
  unfoldable pub hash_block :
      BlockHeader
      → (shard_nums : List ℕ) → (merkles : List Bytes) → (prev_txhashes : Bytes) → BlockTailer
      → Bytes
  unfolding concat
  hash_block hdr shard_nums merkles prev_txhashes tailer = sha256_double (
      sha256_double (take hdr.num_prev_txhashes prev_txhashes)
      ++ (sha256_double (concat (take (num_shards hdr) merkles))
          ++ (header_bytes hdr ++ (take (num_shards hdr) shard_nums ++ tailer_bytes tailer))))

  -- `check_block` without the shards, which `block_add` does not ask for; block number 0 is the genesis
  -- block. False is a failed assertion.
  unfoldable pub check_block : State → (b : ℕ) → Option Bool
  check_block state b = do
    block ← get_elem? state.blocks b
    worked ← (if b == 0 then some true else beats_target block.sha block.tailer.difficulty)
    fits ← parent_fits state.blocks block block.prev
    let sha = hash_block block.hdr block.shard_nums block.merkles block.prev_txhashes block.tailer
    some (
        worked
        && (b == 0 || length block.shard == num_shards block.hdr)
        && bytes_eq sha block.sha
        && fits)

  module _ (test_net : Bool) (asort : (ℕ → ℕ → ℕ) → List ℕ → List ℕ) (now : ℕ) (state : State)
      (hdr : BlockHeader) (tailer : BlockTailer) where
    -- The tests that need the parent, the last of them first.
    abbrev pub against_difficulty :
        (prev : ℕ) → (sha : Bytes) → (difficulty : ℕ) → Option HeaderCheck
    against_difficulty prev sha difficulty =
        unless (tailer.difficulty == difficulty) bad_difficulty (some (accepted prev sha))

    abbrev pub against_time : (prev : ℕ) → (sha : Bytes) → Bool → Option HeaderCheck
    against_time prev sha fits =
        unless fits bad_timestamp
          (get_difficulty test_net state.blocks prev >>= (λ d. against_difficulty prev sha d))

    abbrev pub against_parent : (prev : ℕ) → (sha : Bytes) → Block → Option HeaderCheck
    against_parent prev sha parent = unless (hdr.shard_order == next_shard_order) bad_shard_order (
        unless (hdr.depth == u32 (depth_of parent + 1)) bad_depth (
          check_timestamp asort now state.blocks tailer.timestamp prev
          >>= (λ fits. against_time prev sha fits)))

    abbrev pub with_prev : (sha : Bytes) → Option ℕ → Option HeaderCheck
    with_prev sha none = some (refused priv_unknown_prev)
    with_prev sha (some prev) = get_elem? state.blocks prev >>= (λ b. against_parent prev sha b)

    abbrev pub with_work : (sha : Bytes) → Bool → Option HeaderCheck
    with_work sha beats =
        unless beats insufficient_work
          (block_find_any state hdr.prev_block >>= (λ prev. with_prev sha prev))

    unfoldable pub check_block_header :
        (shard_nums : List ℕ)
        → (merkles : List Bytes) → (prev_txhashes : Bytes) → Option HeaderCheck
    check_block_header shard_nums merkles prev_txhashes = do
      let sha = hash_block hdr shard_nums merkles prev_txhashes tailer
      let worked = (do beats ← beats_target sha tailer.difficulty; with_work sha beats)
      unless (version_ok hdr.version) block_high_version worked
