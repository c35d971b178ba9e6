-- ===== src/Pending/Array/Search.antt =====
-- pending.c: the binary search of a sorted array of pending transactions.
use pettycoin.Base.{
  ℕ, zero, suc, ◌+◌, ◌-◌, ◌/◌, ◌<◌, ◌≤◌, ◌≡◌, ◌⊎◌, inl, inr, refl, sym, ap, ◌∙◌, subst, Bool, true,
  false, Option, some, List, [], ◌∷◌, arith, ltb, ◌==◌, ltb→lt, lt→ltb, ltb→ge, ==→eq, Bool-cases,
  some-injective, length, take, drop, ◌++◌, get_elem?, get_elem?-some, get_elem?-lt, Bytes,
}
use pettycoin.Crypto.{Crypto}
use pettycoin.Protocol.{Tx}
use pettycoin.TxCmp.{Sign, before, equal, after, tx_cmp}
use pettycoin.TxCmp.Order.{
  SortsBy, tx_cmp-lexicographic, tx_cmp_ordered, tx_cmp_flip, lexicographic,
}
use pettycoin.Shard.{shard_of_tx, next_shard_order, hash_tx}
use pettycoin.TxHash.{TxTable}
use pettycoin.InputHash.{InputTable}
use pettycoin.TxInHashes.{Hashes, txhash_get_pending_tx}
use pettycoin.State.{PendingTx, PendingBlock}
use pettycoin.Pending.Array.{
  insert_at, delete_at, with_array, drop_pending_tx, narrow, find_between, find_pending_in_arr,
}

insert_at-take :
    (xs : List PendingTx) (pos : ℕ) (x : PendingTx)
    → pos ≤ length xs
    → insert_at xs pos x ≡ take pos xs ++ x ∷ drop pos xs
insert_at-take xs zero x inside = refl
insert_at-take [] (suc pos) x inside = absurd (omega arith)
insert_at-take (y ∷ ys) (suc pos) x inside =
    ap (λ zs. y ∷ zs) (insert_at-take ys pos x (omega arith))

half_between : (a b : ℕ) → a < b → (a ≤ (a + b) / 2) × ((a + b) / 2 < b)
half_between a b h = (omega arith, omega arith)

module _ ⦃c : Crypto⦄ where
  -- The transactions of the array are in order, and have addresses and their layout.
  pub record IsSorted (pend : List PendingTx) : Type 0 where
    pub sorted :
        (i j : ℕ) (p q : PendingTx)
        → i < j
        → get_elem? pend i ≡ some p
        → get_elem? pend j ≡ some q
        → tx_cmp p.tx q.tx ≡ some before
    pub keys :
        (i : ℕ) (p : PendingTx) → get_elem? pend i ≡ some p → (key : Bytes) × SortsBy p.tx key

  -- All before a place are before the transaction, and all from a place on are after it.
  abbrev pub AllBefore : List PendingTx → Tx → (pos : ℕ) → Type 0
  AllBefore pend tx pos =
      (i : ℕ) (p : PendingTx) → i < pos → get_elem? pend i ≡ some p → tx_cmp p.tx tx ≡ some before

  abbrev pub AllAfter : List PendingTx → Tx → (end : ℕ) → Type 0
  AllAfter pend tx end =
      (i : ℕ) (p : PendingTx) → end ≤ i → get_elem? pend i ≡ some p → tx_cmp tx p.tx ≡ some before

  -- Found, at a place that is not before `*pos`; or not found, and `*pos` is where it belongs.
  abbrev pub Searched : List PendingTx → Tx → Option (Bool × ℕ) → Type 0
  Searched pend tx found =
      ((k : ℕ) × (p : PendingTx) × (pos : ℕ) × (found ≡ some (true, pos))
        × (get_elem? pend k ≡ some p)
        × (tx_cmp tx p.tx ≡ some equal)
        × (pos ≤ k))
      ⊎ ((pos : ℕ) × (found ≡ some (false, pos))
          × (pos ≤ length pend)
          × AllBefore pend tx pos
          × AllAfter pend tx pos)

  module _ (pend : List PendingTx) (s : IsSorted pend) (tx : Tx) (key : Bytes)
      (k : SortsBy tx key) where
    -- One comparison with the transaction at `halfway`.
    narrow_ends :
        (sign : Sign) (pos half end : ℕ) (p : PendingTx) (go : (pos end : ℕ) → Option (Bool × ℕ))
        → get_elem? pend half ≡ some p
        → tx_cmp tx p.tx ≡ some sign
        → pos ≤ half
        → half < end
        → AllBefore pend tx pos
        → AllAfter pend tx end
        → ((a b : ℕ)
            → pos ≤ a
            → b ≤ end
            → a ≤ b
            → b - a < end - pos
            → AllBefore pend tx a
            → AllAfter pend tx b
            → Searched pend tx (go a b))
        → Searched pend tx (narrow sign pos half end go)
    narrow_ends equal pos half end p go at cmp low high all_low all_high next =
        inl (half, p, pos, refl, at, cmp, low)
    narrow_ends before pos half end p go at cmp low high all_low all_high next =
        next pos half (omega arith) (omega arith) low (omega arith) all_low (λ i q h at_q.
          elim (Bool-cases (half == i)) [
            | inl eq ↦
                let same : p ≡ q =
                  some-injective (sym at ∙ ap (get_elem? pend) (==→eq half i eq) ∙ at_q) in
                ap (λ (x : PendingTx). tx_cmp tx x.tx) (sym same) ∙ cmp
            | inr ne ↦
                let (key_p, kp) = s.keys half p at in
                let (key_q, kq) = s.keys i q at_q in
                (tx_cmp_ordered tx p.tx q.tx key key_p key_q k kp kq).0 cmp
                  (s.sorted half i p q (ground arith) at at_q)
          ])
    narrow_ends after pos half end p go at cmp low high all_low all_high next =
        let (key_p, kp) = s.keys half p at in
        let flipped = tx_cmp_flip tx p.tx key key_p k kp cmp in
        next (half + 1) end (omega arith) (omega arith) (omega arith) (omega arith)
          (λ i q h at_q. elim (Bool-cases (i == half)) [
            | inl eq ↦
                let same : p ≡ q =
                  some-injective (sym at ∙ ap (get_elem? pend) (sym (==→eq i half eq)) ∙ at_q) in
                ap (λ (x : PendingTx). tx_cmp x.tx tx) (sym same) ∙ flipped
            | inr ne ↦
                let (key_q, kq) = s.keys i q at_q in
                (tx_cmp_ordered q.tx p.tx tx key_q key_p key kq kp k).0
                  (s.sorted i half q p (ground arith) at_q at) flipped
          ])
          all_high

    find_between_ends :
        (fuel pos end : ℕ)
        → pos ≤ end
        → end ≤ length pend
        → end - pos < fuel
        → AllBefore pend tx pos
        → AllAfter pend tx end
        → Searched pend tx (find_between fuel pend tx pos end)
    unfolding find_between
    find_between_ends zero pos end h inside enough low high = absurd (omega arith)
    find_between_ends (suc fuel) pos end h inside enough low high =
        elim (Bool-cases (ltb pos end)) [
          | inr ge ↦
              let same : end ≡ pos = omega (arith, ltb→ge pos end ge) in
              inr (pos, rw ge refl, omega arith, low, subst (AllAfter pend tx) same high)
          | inl lt ↦
              let gap = ltb→lt pos end lt in
              let (above, under) = half_between pos end gap in
              let (p, at) = get_elem?-some pend ((pos + end) / 2) (omega (arith, under)) in
              let (key_p, kp) = s.keys ((pos + end) / 2) p at in
              let cmp = tx_cmp-lexicographic tx p.tx key key_p k kp in
              rw (lt, at, cmp)
                (narrow_ends (lexicographic key key_p) pos ((pos + end) / 2) end p
                  (find_between fuel pend tx) at cmp above under low high
                  (λ a b pa be ab less l r.
                    find_between_ends fuel a b ab (omega arith) (omega arith) l r))
        ]

    -- In a sorted array `find_pending_in_arr` ends. If it says that the transaction is there, then one that
    -- compares equal is in the array, at or after `*pos`; if it says that it is not, then all before
    -- `*pos` are before it and all others after it.
    pub find_pending_in_arr_ends : Searched pend tx (find_pending_in_arr pend tx)
    unfolding find_pending_in_arr
    find_pending_in_arr_ends =
        find_between_ends (suc (length pend)) 0 (length pend) (omega arith) (omega arith)
          (omega arith) (λ i p h at. absurd (omega arith))
          (λ i p h at. absurd (omega (arith, get_elem?-lt pend i at)))

  insert_at-cases :
      (xs : List PendingTx) (pos i : ℕ) (x p : PendingTx)
      → pos ≤ length xs
      → get_elem? (insert_at xs pos x) i ≡ some p
      → ((i < pos) × (get_elem? xs i ≡ some p))
        ⊎ (((i ≡ pos) × (x ≡ p)) ⊎ ((j : ℕ) × (i ≡ suc j) × (pos ≤ j) × (get_elem? xs j ≡ some p)))
  insert_at-cases xs zero zero x p h at = inr (inl (refl, some-injective at))
  insert_at-cases xs zero (suc i) x p h at = inr (inr (i, refl, omega arith, at))
  insert_at-cases [] (suc pos) i x p h at = absurd (omega arith)
  insert_at-cases (y ∷ ys) (suc pos) zero x p h at = inl (omega arith, at)
  insert_at-cases (y ∷ ys) (suc pos) (suc i) x p h at =
      elim (insert_at-cases ys pos i x p (omega arith) at) [
        | inl (lt, old) ↦ inl (omega arith, old)
        | inr (inl (e, is)) ↦ inr (inl (ap suc e, is))
        | inr (inr (j, e, le, old)) ↦ inr (inr (suc j, ap suc e, omega arith, old))
      ]

  insert_at-IsSorted :
      (pend : List PendingTx)
      → IsSorted pend
      → (x : PendingTx) (key : Bytes) → SortsBy x.tx key
      → (pos : ℕ) → pos ≤ length pend
      → AllBefore pend x.tx pos
      → AllAfter pend x.tx pos
      → IsSorted (insert_at pend pos x)
  insert_at-IsSorted pend s x key k pos inside low high = record {
    sorted = λ i j p q lt at_i at_j. elim (insert_at-cases pend pos i x p inside at_i) [
      | inl (below, old) ↦ elim (insert_at-cases pend pos j x q inside at_j) [
        | inl (below', old') ↦ s.sorted i j p q lt old old'
        | inr (inl (e, is)) ↦ ap (λ (z : PendingTx). tx_cmp p.tx z.tx) (sym is) ∙ low i p below old
        | inr (inr (j', e, le, old')) ↦ s.sorted i j' p q (omega arith) old old'
      ]
      | inr (inl (e, is)) ↦ elim (insert_at-cases pend pos j x q inside at_j) [
        | inl (below', old') ↦ absurd (omega arith)
        | inr (inl (e', is')) ↦ absurd (omega arith)
        | inr (inr (j', e', le, old')) ↦
            ap (λ (z : PendingTx). tx_cmp z.tx q.tx) (sym is) ∙ high j' q le old'
      ]
      | inr (inr (i', e, le, old)) ↦ elim (insert_at-cases pend pos j x q inside at_j) [
        | inl (below', old') ↦ absurd (omega arith)
        | inr (inl (e', is')) ↦ absurd (omega arith)
        | inr (inr (j', e', le', old')) ↦ s.sorted i' j' p q (omega arith) old old'
      ]
    ];
    keys = λ i p at. elim (insert_at-cases pend pos i x p inside at) [
      | inl (below, old) ↦ s.keys i p old
      | inr (inl (e, is)) ↦ subst (λ (z : PendingTx). (key : Bytes) × SortsBy z.tx key) is (key, k)
      | inr (inr (i', e, le, old)) ↦ s.keys i' p old
    ];
  }

  -- A transaction that the search does not find in a sorted array is put at the place that the search
  -- says: before it stand the same ones as before, behind it the others, and the array is still sorted.
  pub find-insert_at-IsSorted :
      (pend : List PendingTx)
      → IsSorted pend
      → (x : PendingTx) (key : Bytes) → SortsBy x.tx key
      → (pos : ℕ) → find_pending_in_arr pend x.tx ≡ some (false, pos)
      → IsSorted (insert_at pend pos x)
        × (insert_at pend pos x ≡ take pos pend ++ x ∷ drop pos pend)
        × (pos ≤ length pend)
  find-insert_at-IsSorted pend s x key k pos is =
      elim (find_pending_in_arr_ends pend s x.tx key k) [
        | inl (j, p, pos', found, at, cmp, le) ↦
            absurd (cc (ap (λ (r : Bool × ℕ). r.0) (some-injective (sym is ∙ found))))
        | inr (pos', found, inside, low, high) ↦
            let same : pos' ≡ pos = ap (λ (r : Bool × ℕ). r.1) (some-injective (sym found ∙ is)) in
            let inside' : pos ≤ length pend = omega (arith, same, inside) in
            (
              subst (λ n. IsSorted (insert_at pend n x)) same
                  (insert_at-IsSorted pend s x key k pos' inside low high),
              insert_at-take pend pos x inside',
              inside',
            )
      ]

  -- A transaction that is found at once, in the middle of the array, is reported at place 0.
  find_middle :
      (pend : List PendingTx) (tx : Tx) (p : PendingTx)
      → get_elem? pend (length pend / 2) ≡ some p
      → tx_cmp tx p.tx ≡ some equal
      → find_pending_in_arr pend tx ≡ some (true, 0)
  unfolding find_pending_in_arr find_between
  find_middle pend tx p at cmp =
      rw
        (
          lt→ltb 0 (length pend) (omega (arith, get_elem?-lt pend (length pend / 2) at)),
          zero_left (length pend),
          at,
          cmp,
        )
        refl
    where
      zero_left : (n : ℕ) → 0 + n ≡ n
      zero_left n = omega arith

  -- A pending transaction that stands in the middle of the array of its shard, with others in the
  -- array, is not dropped: `drop_pending_tx` takes out the first one of the array, and the transaction
  -- still stands in it, one place further to the front.
  pub drop_pending_tx_first :
      (h : TxTable) (hash_any : Bytes → ℕ → ℕ) (inputs : InputTable hash_any)
      (t : Hashes h hash_any inputs) (pending : PendingBlock) (tx other : Tx) (p : PendingTx)
      (shard : ℕ) (arr : List PendingTx)
      → txhash_get_pending_tx h hash_any inputs t (hash_tx tx) ≡ some other
      → shard_of_tx tx next_shard_order ≡ some shard
      → get_elem? pending.pend shard ≡ some arr
      → get_elem? arr (length arr / 2) ≡ some p
      → tx_cmp tx p.tx ≡ some equal
      → 1 < length arr
      → (drop_pending_tx h hash_any inputs t pending tx
          ≡ some (with_array pending shard (delete_at arr 0)))
        × (get_elem? (delete_at arr 0) (length arr / 2 - 1) ≡ some p)
  unfolding drop_pending_tx
  drop_pending_tx_first h hash_any inputs t pending tx other p shard arr is_pending in_shard
        at_shard at cmp several =
      (
        rw (is_pending, in_shard, at_shard, find_middle arr tx p at cmp) refl,
        behind_first arr (length arr / 2) p (omega (arith, several)) at,
      )
    where
      behind_first :
          (xs : List PendingTx) (i : ℕ) (p : PendingTx)
          → 0 < i
          → get_elem? xs i ≡ some p
          → get_elem? (delete_at xs 0) (i - 1) ≡ some p
      behind_first xs zero p pos at = absurd (omega arith)
      behind_first [] (suc i) p pos at = absurd (cc at)
      behind_first (x ∷ xs) (suc i) p pos at =
          let same : suc i - 1 ≡ i = omega arith in ap (get_elem? xs) same ∙ at
