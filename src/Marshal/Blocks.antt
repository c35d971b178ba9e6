-- ===== src/Marshal/Blocks.antt =====
-- The part of marshal.c that lays blocks out in a buffer and accepts them from one. The pointers that
-- are handed back are offsets in the buffer.
use pettycoin.Base.{
  ℕ, ◌+◌, ◌*◌, not, ◌∷◌, ◌++◌, ltb, ◌==◌, if◌then◌else◌, length, get_or, take, drop, u32, u64, shl,
  Bytes, le32, le32_at,
}
use pettycoin.Result.{Result, ok, err, ◌>>=◌}
use pettycoin.Protocol.{
  BlockHeader, BlockTailer, invalid_len, block_high_version, bad_shard_order, max_shard_order,
}
use pettycoin.Marshal.{version_ok, mul_overflows, add_overflows}

abbrev pub sizeof_block_header : ℕ
sizeof_block_header = 76

abbrev pub sizeof_block_tailer : ℕ
sizeof_block_tailer = 12

abbrev pub sizeof_double_sha : ℕ
sizeof_double_sha = 32

-- The structures in memory.
unfoldable pub header_bytes : BlockHeader → Bytes
header_bytes hdr =
    hdr.version
    ∷ hdr.features_vote
    ∷ hdr.shard_order
    ∷ (hdr.nonce2
        ++ (hdr.prev_block ++ (le32 hdr.num_prev_txhashes ++ (le32 hdr.depth ++ hdr.fees_to))))

unfoldable pub tailer_bytes : BlockTailer → Bytes
tailer_bytes tailer = le32 tailer.timestamp ++ (le32 tailer.difficulty ++ le32 tailer.nonce1)

-- shardnum_len, merkle_len and prev_merkle_len.
unfoldable pub block_lengths : BlockHeader → ℕ × ℕ × ℕ
block_lengths hdr =
    let num_shards = u32 (shl 1 hdr.shard_order) in
    (num_shards, u64 (sizeof_double_sha * num_shards), hdr.num_prev_txhashes)

unfoldable pub marshal_block_len : BlockHeader → ℕ
marshal_block_len hdr =
    let (shardnum_len, merkle_len, prev_merkle_len) = block_lengths hdr in
    u64 (sizeof_block_header + shardnum_len + merkle_len + prev_merkle_len + sizeof_block_tailer)

-- The bytes that the five copies write; `merkles` is the memory of the array.
unfoldable pub marshal_block_into :
    BlockHeader → (shard_nums merkles prev_txhashes : Bytes) → BlockTailer → Bytes
marshal_block_into hdr shard_nums merkles prev_txhashes tailer =
    let (shardnum_len, merkle_len, prev_merkle_len) = block_lengths hdr in
    header_bytes hdr
    ++ (take shardnum_len shard_nums
        ++ (take merkle_len merkles ++ (take prev_merkle_len prev_txhashes ++ tailer_bytes tailer)))

-- Where the parts of an accepted block begin.
pub record BlockPlaces : Type 0 where
  pub shard_nums : ℕ
  pub merkles : ℕ
  pub prev_txhashes : ℕ
  pub tailer : ℕ

-- `len += more`, behind its test.
unfoldable pub add_len : ℕ → ℕ → Result ℕ
add_len a b = if add_overflows a b then err invalid_len else ok (u64 (a + b))

unfoldable pub mul_len : ℕ → ℕ → Result ℕ
mul_len a b = if mul_overflows a b then err invalid_len else ok (u64 (a * b))

-- The end of the function: the size must be exactly right.
unfoldable pub exact_len : (size len : ℕ) → BlockPlaces → Result BlockPlaces
exact_len size len places = if size == len then ok places else err invalid_len

-- From the shard order on.
unfoldable pub block_places : (size shard_order num_prev_txhashes : ℕ) → Result BlockPlaces
block_places size shard_order num_prev_txhashes = do
  let shard_len = shl 1 shard_order
  merkles ← add_len shard_len sizeof_block_header
  merkle_len ← mul_len shard_len sizeof_double_sha
  prev_txhashes ← add_len merkles merkle_len
  tailer ← add_len prev_txhashes num_prev_txhashes
  len ← add_len tailer sizeof_block_tailer
  exact_len size len (record {
    shard_nums = sizeof_block_header;
    merkles = merkles;
    prev_txhashes = prev_txhashes;
    tailer = tailer;
  })

unfoldable pub unmarshal_block_into : Bytes → Result BlockPlaces
unmarshal_block_into buffer =
    let size = length buffer in
    let shard_order = get_or buffer 2 0 in
    if ltb size sizeof_block_header
    then err invalid_len
    else if not (version_ok (get_or buffer 0 0))
    then err block_high_version
    else if ltb max_shard_order shard_order
    then err bad_shard_order
    else block_places size shard_order (le32_at (drop 48 buffer))
