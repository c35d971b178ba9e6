-- ===== src/Merkle.antt =====
-- merkle_recurse.c, merkle_hashes.c and merkle_txs.c.
pub mod Tree
use pettycoin.Base.{
  ℕ, zero, suc, ◌+◌, ◌-◌, ◌/◌, Bool, not, ◌||◌, Option, none, some, List, ◌++◌, Bytes, leb, ◌==◌,
  if◌then◌else◌, get_elem?, replicate, bit_and, ◌>>=◌,
}
use pettycoin.Crypto.{Crypto, sha256_double}
use pettycoin.Shard.{TxRefHash, BlockShard, txrefhash_in_shard}

-- The hash that stands for a missing leaf.
abbrev pub zero_sha : Bytes
zero_sha = replicate 32 0

module _ ⦃c : Crypto⦄ where
  unfoldable pub merkle_two_hashes : Bytes → Bytes → Bytes
  merkle_two_hashes a b = sha256_double (a ++ b)

  -- `num` leaves from `off` on; leaves from `max_off` on are missing. `none` is a failed assertion, a
  -- callback that reads through a null pointer, or fuel that has run out.
  pub merkle_recurse : ℕ → (off max_off num : ℕ) → (fn : ℕ → Option Bytes) → Option Bytes
  merkle_recurse zero off max_off num fn = none
  merkle_recurse (suc fuel) off max_off num fn =
      let half = num / 2 in
      let inner = (do
        left ← merkle_recurse fuel off max_off half fn
        right ← merkle_recurse fuel (off + half) max_off half fn
        some (merkle_two_hashes left right)) in
      if not (bit_and num (num - 1) == 0) || num == 0
      then none
      else if num == 1
      then (if leb max_off off then some zero_sha else fn off)
      else inner

  -- Nine levels are enough for the 256 leaves that the callers ask for at most.
  abbrev pub merkle_fuel : ℕ
  merkle_fuel = 9

  txrefhash_leaf : Option TxRefHash → Option Bytes
  txrefhash_leaf h = do h' ← h; some (merkle_two_hashes h'.txhash h'.refhash)

  unfoldable pub merkle_hashes : List TxRefHash → (off num_hashes : ℕ) → Option Bytes
  unfolding txrefhash_leaf
  merkle_hashes hashes off num_hashes =
      merkle_recurse merkle_fuel off num_hashes 256 (λ n. txrefhash_leaf (get_elem? hashes n))

  unfoldable pub merkle_tx : BlockShard → ℕ → Option Bytes
  unfolding txrefhash_leaf
  merkle_tx shard n = txrefhash_leaf (txrefhash_in_shard shard n)

  unfoldable pub merkle_some_txs : BlockShard → (off max : ℕ) → Option Bytes
  merkle_some_txs shard off max = merkle_recurse merkle_fuel off shard.size max (merkle_tx shard)

  unfoldable pub merkle_txs : BlockShard → Option Bytes
  merkle_txs shard = merkle_some_txs shard 0 256
