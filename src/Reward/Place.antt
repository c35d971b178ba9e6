-- ===== src/Reward/Place.antt =====
-- reward.c: the place of a number among the transactions of all shards.
use pettycoin.Base.{
  ℕ, suc, ◌+◌, ◌-◌, ◌<◌, ◌≤◌, ◌≡◌, inl, inr, refl, ap, ◌∙◌, some, List, [], ◌∷◌, arith, ltb, ltb→lt,
  ltb→ge, Bool-cases, length, get_elem?, take, take_all, u32,
}
use pettycoin.Block.{Block}
use pettycoin.Shard.{num_shards}
use pettycoin.Reward.{shard_and_off, count_txs, num_txs}

-- How many transactions shards have together.
unfoldable pub sum : List ℕ → ℕ
sum [] = 0
sum (n ∷ ns) = n + sum ns

-- Every number below the count of all transactions is found, in the shard and at the place that
-- counting the transactions shard by shard gives.
shard_and_off_found :
    (nums : List ℕ) (n i : ℕ)
    → n < sum nums
    → (j : ℕ) × (off : ℕ) × (num : ℕ) × (shard_and_off nums n i ≡ some (i + j, off))
      × (get_elem? nums j ≡ some num)
      × (off < num)
      × (n ≡ sum (take j nums) + off)
unfolding shard_and_off sum
shard_and_off_found [] n i h = absurd (omega arith)
shard_and_off_found (num ∷ nums) n i h = elim (Bool-cases (ltb n num)) [
  | inl lt ↦ (
    0,
    n,
    num,
    rw lt (ap (λ (t : ℕ). some (t, n)) (omega arith)),
    refl,
    ltb→lt n num lt,
    omega arith,
  )
  | inr ge ↦
      let past : num ≤ n = ltb→ge n num ge in
      let (j, off, k, is, at, small, where_it_is) =
        shard_and_off_found nums (n - num) (i + 1) (omega arith) in
      (
        suc j,
        off,
        k,
        rw ge (is ∙ ap (λ (t : ℕ). some (t, off)) (omega arith)),
        at,
        small,
        omega arith,
      )
]

count_txs_index : (nums : List ℕ) (i total : ℕ) → (count_txs nums i total).0 ≡ i + length nums
unfolding count_txs
count_txs_index [] i total = omega arith
count_txs_index (num ∷ nums) i total =
    omega (arith, count_txs_index nums (i + 1) (u32 (total + num)))

-- `num_txs` of a block with a count for each of its shards is the number of the shards, whatever is in
-- them.
pub num_txs_shards :
    (b : Block) → length b.shard_nums ≡ num_shards b.hdr → num_txs b ≡ num_shards b.hdr
unfolding num_txs
num_txs_shards b h =
    let nums = take (num_shards b.hdr) b.shard_nums in
    let all : length nums ≡ length b.shard_nums =
      ap (λ (ns : List ℕ). length ns) (take_all (num_shards b.hdr) b.shard_nums h) in
    omega (arith, count_txs_index nums 0 0, all, h)
