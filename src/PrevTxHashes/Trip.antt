-- ===== src/PrevTxHashes/Trip.antt =====
-- prev_txhashes.c and check_block.c: the hashes that are made are those that are accepted.
use pettycoin.Base.{
  ℕ, zero, suc, ◌+◌, ◌≡◌, refl, sym, ap, ◌∙◌, subst, Bool, true, false, Option, none, some, List,
  [], ◌∷◌, ◌++◌, arith, ==_refl, >>=-eq-some, some-injective, length, get_elem?, length-append,
  get_elem?-lt, get_elem?-append, Bytes,
}
use pettycoin.Crypto.{Crypto}
use pettycoin.Shard.{BlockShard, shard_all_known, num_shards}
use pettycoin.Block.{Block}
use pettycoin.PrevTxHashes.{
  for_each_prev_txhash, sum_shards, num_prev_txhashes, check_num_prev_txhashes, all_right, and_more,
  make_known, make_one, prev_txhash, make_shards, make_blocks, make_prev_txhashes, check_shards,
  check_blocks, check_prev_txhashes,
}

-- The second list holds the first one from this place on.
abbrev Holds : Bytes → ℕ → Bytes → Type 0
Holds hashes off m = (k h : ℕ) → get_elem? m k ≡ some h → get_elem? hashes (off + k) ≡ some h

Holds-left :
    (hashes : Bytes) (off : ℕ) (m n : Bytes) → Holds hashes off (m ++ n) → Holds hashes off m
Holds-left hashes off m n holds k h at =
    holds k h (get_elem?-append m n k (get_elem?-lt m k at) ∙ at)

get_elem?-behind : (m n : Bytes) (k : ℕ) → get_elem? (m ++ n) (length m + k) ≡ get_elem? n k
get_elem?-behind [] n k = ap (get_elem? n) (omega arith)
get_elem?-behind (x ∷ m) n k =
    let further : length (x ∷ m) + k ≡ suc (length m + k) = omega arith in
    ap (get_elem? (x ∷ m ++ n)) further ∙ get_elem?-behind m n k

Holds-right :
    (hashes : Bytes) (off : ℕ) (m n : Bytes)
    → Holds hashes off (m ++ n)
    → Holds hashes (off + length m) n
Holds-right hashes off m n holds k h at =
    ap (get_elem? hashes) (omega arith) ∙ holds (length m + k) h (get_elem?-behind m n k ∙ at)

and_more-eq-some :
    (here : Option Bytes) (rest : Option (Option Bytes)) (m : Bytes)
    → and_more here rest ≡ some (some m)
    → (a : Bytes) × (b : Bytes) × (here ≡ some a) × (rest ≡ some (some b)) × (m ≡ a ++ b)
and_more-eq-some none rest m e = absurd (cc (some-injective e))
and_more-eq-some (some a) none m e = absurd (cc e)
and_more-eq-some (some a) (some none) m e = absurd (cc (some-injective e))
and_more-eq-some (some a) (some (some b)) m e =
    (a, b, refl, refl, sym (some-injective (some-injective e)))

make_one-eq-some :
    (s : Option BlockShard) (prev_txh : Option ℕ) (rest : Option (Option Bytes)) (m : Bytes)
    → make_one s prev_txh rest ≡ some (some m)
    → (shard : BlockShard) × (h : ℕ) × (n : Bytes) × (s ≡ some shard)
      × (shard_all_known shard ≡ true)
      × (prev_txh ≡ some h)
      × (rest ≡ some (some n))
      × (m ≡ h ∷ n)
make_one-eq-some none prev_txh rest m e = absurd (cc e)
make_one-eq-some (some shard) prev_txh rest m e =
    let (h, n, known, is_h, is_n, is_m) = known_one (shard_all_known shard) prev_txh rest e in
    (shard, h, n, refl, known, is_h, is_n, is_m)
  where
    known_one :
        (known : Bool) (prev_txh : Option ℕ) (rest : Option (Option Bytes))
        → make_known known prev_txh rest ≡ some (some m)
        → (h : ℕ) × (n : Bytes) × (known ≡ true)
          × (prev_txh ≡ some h)
          × (rest ≡ some (some n))
          × (m ≡ h ∷ n)
    known_one false prev_txh rest e = absurd (cc (some-injective e))
    known_one true none rest e = absurd (cc e)
    known_one true (some h) rest e =
        let (a, n, is_a, is_n, is_m) = and_more-eq-some (some (h ∷ [])) rest m e in
        (h, n, refl, refl, is_n, is_m ∙ ap (λ x. x ++ n) (some-injective (sym is_a)))

module _ ⦃c : Crypto⦄ (addr hashes : Bytes) where
  check_shards-make_shards :
      (count j : ℕ) (b : Block) (off : ℕ) (m : Bytes)
      → make_shards count j addr b ≡ some (some m)
      → Holds hashes (off + j) m
      → (check_shards count j addr off hashes b ≡ some none) × (length m ≡ count)
  unfolding make_shards check_shards
  check_shards-make_shards zero j b off m made holds =
      (refl, sym (ap length (some-injective (some-injective made))))
  check_shards-make_shards (suc count) j b off m made holds =
      let (shard, h, n, at, known, is_h, is_n, is_m) =
        make_one-eq-some (get_elem? b.shard j) (prev_txhash addr b j)
          (make_shards count (j + 1) addr b) m made in
      let here : get_elem? hashes (off + j) ≡ some h =
        ap (get_elem? hashes) (omega arith) ∙ holds 0 h (ap (λ x. get_elem? x 0) is_m) in
      let further : Holds hashes (off + (j + 1)) n = λ k x e.
        ap (get_elem? hashes) (omega arith)
        ∙ holds (suc k) x (ap (λ y. get_elem? y (suc k)) is_m ∙ e) in
      let (none_bad, len) = check_shards-make_shards count (j + 1) b off n is_n further in
      (rw (at, known, is_h, here, ==_refl h) none_bad, ap length is_m ∙ ap suc len)

  check_blocks-make_blocks :
      (bs : List Block) (off : ℕ) (m : Bytes)
      → make_blocks addr bs ≡ some (some m)
      → Holds hashes off m
      → (check_blocks addr off hashes bs ≡ some (all_right (off + length m)))
        × (length m ≡ sum_shards bs)
  unfolding make_blocks check_blocks sum_shards
  check_blocks-make_blocks [] off m made holds =
      let nothing : length m ≡ 0 = sym (ap length (some-injective (some-injective made))) in
      (ap (λ n. some (all_right n)) (omega (arith, nothing)), nothing)
  check_blocks-make_blocks (b ∷ bs) off m made holds =
      let (here, made_here, more) =
        >>=-eq-some (make_shards (num_shards b.hdr) 0 addr b)
          (λ h. and_more h (make_blocks addr bs)) made in
      let (a, n, is_a, is_n, is_m) = and_more-eq-some here (make_blocks addr bs) m more in
      let all : Holds hashes off (a ++ n) = subst (λ x. Holds hashes off x) is_m holds in
      let (none_bad, len) =
        check_shards-make_shards (num_shards b.hdr) 0 b off a (made_here ∙ ap some is_a)
          (subst (λ o. Holds hashes o a) (omega arith) (Holds-left hashes off a n all)) in
      let (right, len') =
        check_blocks-make_blocks bs (off + num_shards b.hdr) n is_n
          (subst (λ l. Holds hashes (off + l) n) len (Holds-right hashes off a n all)) in
      let total : length m ≡ num_shards b.hdr + length n =
        ap length is_m ∙ length-append a n ∙ ap (λ l. l + length n) len in
      (
        rw none_bad (right ∙ ap (λ o. some (all_right o)) (omega (arith, total))),
        omega (arith, total, len'),
      )

-- The hashes that `make_prev_txhashes` makes for an address on top of a block are accepted by
-- `check_num_prev_txhashes` and `check_prev_txhashes` in a block with that parent, address and number.
pub check_prev_txhashes-make_prev_txhashes :
    ⦃c : Crypto⦄
    → (blocks : List Block) (prev : Option ℕ) (addr : Bytes) (m : Bytes) (block : Block)
    → make_prev_txhashes blocks prev addr ≡ some (some m)
    → block.prev ≡ prev
    → block.hdr.fees_to ≡ addr
    → block.prev_txhashes ≡ m
    → block.hdr.num_prev_txhashes ≡ length m
    → (check_num_prev_txhashes blocks prev block.hdr ≡ some true)
      × (check_prev_txhashes blocks block ≡ some (all_right (length m)))
unfolding make_prev_txhashes check_num_prev_txhashes num_prev_txhashes check_prev_txhashes
check_prev_txhashes-make_prev_txhashes blocks prev addr m block made is_prev is_addr is_m num =
    let (bs, walked, made') =
      >>=-eq-some (for_each_prev_txhash blocks prev) (λ bs. make_blocks addr bs) made in
    let (right, len) =
      check_blocks-make_blocks addr m bs 0 m made' (λ k h e. ap (get_elem? m) (omega arith) ∙ e) in
    let right' : check_blocks addr 0 m bs ≡ some (all_right (length m)) =
      right ∙ ap (λ n. some (all_right n)) (omega arith) in
    (
      rw (walked, num, len, ==_refl (sum_shards bs)) refl,
      rw (is_prev, walked, is_addr, is_m, right', num, ==_refl (length m)) refl,
    )
