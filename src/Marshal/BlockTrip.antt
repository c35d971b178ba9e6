-- ===== src/Marshal/BlockTrip.antt =====
-- marshal.c: a block on its way into a buffer and out again.
use pettycoin.Base.{
  ℕ, ◌+◌, ◌*◌, ◌^◌, ◌<◌, ◌≤◌, ◌≡◌, refl, sym, ◌∙◌, ◌++◌, arith, ge→ltb, length, get_or, drop,
  length-append, take-append, drop-append, take_all, u32, u64, Bytes, le32_at, slice, drop-skip,
}
use mathlib.Core.List.{append_assoc}
use native.Mathlib.Nat.{pow-le-pow_right}
use pettycoin.Result.{ok}
use pettycoin.Protocol.{BlockHeader, BlockTailer}
use pettycoin.Marshal.{version_ok}
use pettycoin.Marshal.Overflow.{add_overflows_exact, mul_overflows_exact}
use pettycoin.Marshal.Blocks.{
  header_bytes, tailer_bytes, block_lengths, marshal_block_len, marshal_block_into, BlockPlaces,
  add_len, mul_len, exact_len, block_places, unmarshal_block_into,
}

pub add_len_fits : (a b : ℕ) → a < 2 ^ 64 → b < 2 ^ 64 → a + b < 2 ^ 64 → add_len a b ≡ ok (a + b)
unfolding add_len
add_len_fits a b ha hb h = ground (arith, add_overflows_exact a b ha hb)

pub mul_len_fits : (a b : ℕ) → a * b < 2 ^ 64 → mul_len a b ≡ ok (a * b)
unfolding mul_len
mul_len_fits a b h = ground (arith, mul_overflows_exact a b)

-- The size of a block whose shard order and count are those.
abbrev pub block_size : (order prev : ℕ) → ℕ
block_size order prev = 88 + 33 * 2 ^ order + prev

abbrev pub places_at : (order prev : ℕ) → BlockPlaces
places_at order prev = record {
  shard_nums = 76;
  merkles = 2 ^ order + 76;
  prev_txhashes = 2 ^ order + 76 + 2 ^ order * 32;
  tailer = 2 ^ order + 76 + 2 ^ order * 32 + prev;
}

shards_bound : (order : ℕ) → order ≤ 16 → 2 ^ order ≤ 65536
shards_bound order h = pow-le-pow_right (omega arith) {j = 16} h

-- No length overflows, so that only the size is left to be compared.
pub block_places_exact :
    (size order prev : ℕ)
    → order ≤ 16
    → prev < 2 ^ 32
    → block_places size order prev
      ≡ exact_len size (2 ^ order + 76 + 2 ^ order * 32 + prev + 12) (places_at order prev)
unfolding block_places
block_places_exact size order prev ho hp =
    let few = shards_bound order ho in
    let one : 1 * 2 ^ order ≡ 2 ^ order = omega arith in
    rw
      (
        one,
        add_len_fits (2 ^ order) 76 (omega arith) (omega arith) (omega arith),
        mul_len_fits (2 ^ order) 32 (omega arith),
        add_len_fits (2 ^ order + 76) (2 ^ order * 32) (omega arith) (omega arith) (omega arith),
        add_len_fits (2 ^ order + 76 + 2 ^ order * 32) prev (omega arith) (omega arith)
            (omega arith),
        add_len_fits (2 ^ order + 76 + 2 ^ order * 32 + prev) 12 (omega arith) (omega arith)
            (omega arith),
      )
      refl

-- The parts have the sizes that the header says.
pub record BlockFits (hdr : BlockHeader) (shard_nums merkles prev_txhashes : Bytes) : Type 0 where
  pub nonce2 : length hdr.nonce2 ≡ 13
  pub prev_block : length hdr.prev_block ≡ 32
  pub fees_to : length hdr.fees_to ≡ 20
  pub order : hdr.shard_order ≤ 16
  pub count : hdr.num_prev_txhashes < 2 ^ 32
  pub shards : length shard_nums ≡ 2 ^ hdr.shard_order
  pub roots : length merkles ≡ 32 * 2 ^ hdr.shard_order
  pub prevs : length prev_txhashes ≡ hdr.num_prev_txhashes

abbrev parts :
    (hdr : BlockHeader) (shard_nums merkles prev_txhashes : Bytes) (tailer : BlockTailer) → Bytes
parts hdr shard_nums merkles prev_txhashes tailer =
    header_bytes hdr ++ (shard_nums ++ (merkles ++ (prev_txhashes ++ tailer_bytes tailer)))

module _ (hdr : BlockHeader) (shard_nums merkles prev_txhashes : Bytes) (tailer : BlockTailer)
    (fit : BlockFits hdr shard_nums merkles prev_txhashes) where
  length-header_bytes : length (header_bytes hdr) ≡ 76
  unfolding header_bytes
  length-header_bytes = omega (arith, length-append {0}, fit.nonce2, fit.prev_block, fit.fees_to)

  length-tailer_bytes : length (tailer_bytes tailer) ≡ 12
  unfolding tailer_bytes
  length-tailer_bytes = omega (arith, length-append {0})

  lengths_are :
      block_lengths hdr ≡ (2 ^ hdr.shard_order, 32 * 2 ^ hdr.shard_order, hdr.num_prev_txhashes)
  unfolding block_lengths
  lengths_are =
      let few = shards_bound hdr.shard_order fit.order in
      let n : u32 (1 * 2 ^ hdr.shard_order) ≡ 2 ^ hdr.shard_order = omega arith in
      let m : u64 (32 * 2 ^ hdr.shard_order) ≡ 32 * 2 ^ hdr.shard_order = omega arith in
      rw (n, m) refl

  marshal_is :
      marshal_block_into hdr shard_nums merkles prev_txhashes tailer
      ≡ parts hdr shard_nums merkles prev_txhashes tailer
  unfolding marshal_block_into
  marshal_is =
      rw
        (
          lengths_are,
          take_all (2 ^ hdr.shard_order) shard_nums fit.shards,
          take_all (32 * 2 ^ hdr.shard_order) merkles fit.roots,
          take_all hdr.num_prev_txhashes prev_txhashes fit.prevs,
        )
        refl

  length-parts :
      length (parts hdr shard_nums merkles prev_txhashes tailer)
      ≡ block_size hdr.shard_order hdr.num_prev_txhashes
  length-parts = omega (
    arith,
    length-append {0},
    length-header_bytes,
    length-tailer_bytes,
    fit.shards,
    fit.roots,
    fit.prevs,
  )

  marshal_block_len_is : marshal_block_len hdr ≡ block_size hdr.shard_order hdr.num_prev_txhashes
  unfolding marshal_block_len
  marshal_block_len_is =
      let few = shards_bound hdr.shard_order fit.order in
      rw lengths_are (omega (arith, few, fit.count))

  count_at :
      le32_at (drop 48 (parts hdr shard_nums merkles prev_txhashes tailer)) ≡ hdr.num_prev_txhashes
  unfolding header_bytes
  count_at = simp append_assoc (
      rw (drop-skip 45 32 hdr.nonce2 _ (omega (arith, fit.nonce2))) (
        rw (drop-skip 32 0 hdr.prev_block _ (omega (arith, fit.prev_block)))
          (omega (arith, fit.count))))

  -- A part stands behind the parts before it.
  part_at :
      (off len : ℕ) (before part after : Bytes)
      → off ≡ length before
      → len ≡ length part
      → slice off len (before ++ (part ++ after)) ≡ part
  part_at off len before part after o l =
      rw (drop-append off before (part ++ after) (sym o), take-append len part after (sym l)) refl

  abbrev n : ℕ
  n = 2 ^ hdr.shard_order

  tailer_found :
      slice
        (n + 76 + n * 32 + hdr.num_prev_txhashes)
        12
        (parts hdr shard_nums merkles prev_txhashes tailer)
      ≡ tailer_bytes tailer
  tailer_found =
      let np = hdr.num_prev_txhashes in
      rw
        (drop-skip (n + 76 + n * 32 + np) (33 * n + np) (header_bytes hdr) _
          (omega (arith, length-header_bytes)))
        (rw (drop-skip (33 * n + np) (32 * n + np) shard_nums _ (omega (arith, fit.shards))) (
          rw (drop-skip (32 * n + np) np merkles _ (omega (arith, fit.roots))) (
            rw (drop-append np prev_txhashes (tailer_bytes tailer) fit.prevs)
              (take_all 12 (tailer_bytes tailer) length-tailer_bytes))))

  first_bytes :
      (get_or (parts hdr shard_nums merkles prev_txhashes tailer) 0 0 ≡ hdr.version)
      × (get_or (parts hdr shard_nums merkles prev_txhashes tailer) 2 0 ≡ hdr.shard_order)
  unfolding header_bytes
  first_bytes = (refl, refl)

  accepted :
      hdr.version ≡ 1
      → unmarshal_block_into (parts hdr shard_nums merkles prev_txhashes tailer)
        ≡ ok (places_at hdr.shard_order hdr.num_prev_txhashes)
  unfolding unmarshal_block_into version_ok exact_len
  accepted v =
      rw
        (
          ge→ltb (length (parts hdr shard_nums merkles prev_txhashes tailer)) 76
              (omega (arith, length-parts)),
          first_bytes.0 ∙ v,
          first_bytes.1,
          ge→ltb 16 hdr.shard_order fit.order,
          count_at,
          block_places_exact (length (parts hdr shard_nums merkles prev_txhashes tailer))
              hdr.shard_order hdr.num_prev_txhashes fit.order fit.count,
        )
        (ground (arith, length-parts))

  -- A block that is marshalled with a current version is accepted, in exactly the bytes that
  -- `marshal_block_len` asks for, and each of its parts stands where `unmarshal_block_into` says.
  pub unmarshal_block_into-marshal_block_into :
      hdr.version ≡ 1
      → let buf = marshal_block_into hdr shard_nums merkles prev_txhashes tailer in
        let at = places_at hdr.shard_order hdr.num_prev_txhashes in
        (unmarshal_block_into buf ≡ ok at)
        × (marshal_block_len hdr ≡ length buf)
        × (slice at.shard_nums (2 ^ hdr.shard_order) buf ≡ shard_nums)
        × (slice at.merkles (32 * 2 ^ hdr.shard_order) buf ≡ merkles)
        × (slice at.prev_txhashes hdr.num_prev_txhashes buf ≡ prev_txhashes)
        × (slice at.tailer 12 buf ≡ tailer_bytes tailer)
  unmarshal_block_into-marshal_block_into v = rw marshal_is (
    accepted v,
    marshal_block_len_is ∙ sym length-parts,
    part_at 76 n (header_bytes hdr) shard_nums _ (sym length-header_bytes) (sym fit.shards),
    rw (drop-skip (n + 76) n (header_bytes hdr) _ (omega (arith, length-header_bytes)))
        (part_at n (32 * n) shard_nums merkles _ (sym fit.shards) (sym fit.roots)),
    rw
        (drop-skip (n + 76 + n * 32) (33 * n) (header_bytes hdr) _
          (omega (arith, length-header_bytes)))
        (rw (drop-skip (33 * n) (32 * n) shard_nums _ (omega (arith, fit.shards))) (
          part_at (32 * n) hdr.num_prev_txhashes merkles prev_txhashes _ (sym fit.roots)
            (sym fit.prevs))),
    tailer_found,
  )
