-- ===== src/TxCmp/Sorted.antt =====
-- check_block.c: `check_tx_ordering` over a shard whose known transactions are in order.
use pettycoin.Base.{
  ℕ, zero, suc, ◌+◌, ◌-◌, ◌<◌, ◌≤◌, ◌≡◌, ◌≢◌, ◌↔◌, ◌⊎◌, inl, inr, refl, sym, ap, ◌∙◌, subst, Option,
  none, some, arith, ltb, ◌==◌, ltb→lt, ==→eq, Bool-cases, Option-cases, >>=-eq-some,
  some-injective, Bytes,
}
use pettycoin.Crypto.{Crypto}
use pettycoin.Protocol.{Tx}
use pettycoin.Shard.{BlockShard, tx_for}
use pettycoin.TxCmp.{
  Sign, before, equal, after, tx_cmp, nearest_below, nearest_above, OrderCheck, in_order, bad_order,
  must_precede, check_below, check_above, check_tx_ordering,
}
use pettycoin.TxCmp.Order.{SortsBy, tx_cmp_ordered}

-- No transaction is known in the places from `from` up to below `to`.
NoneKnown : BlockShard → (from to : ℕ) → Type 0
NoneKnown shard from to = (i : ℕ) (t : Tx) → from ≤ i → i < to → tx_for shard i ≢ some t

nearest_below_is :
    (shard : BlockShard) (n : ℕ)
    → ((nearest_below shard n ≡ none) × NoneKnown shard 0 n)
      ⊎ ((i : ℕ) × (t : Tx) × (nearest_below shard n ≡ some (i, t))
          × (i < n)
          × (tx_for shard i ≡ some t)
          × NoneKnown shard (suc i) n)
unfolding nearest_below NoneKnown
nearest_below_is shard zero = inl (refl, λ i t low high. absurd (omega arith))
nearest_below_is shard (suc n) = elim (Option-cases (tx_for shard n)) [
  | inr (t, at) ↦ inr (n, t, rw at refl, omega arith, at, λ i u low high. absurd (omega arith))
  | inl gap ↦
      let last : (i : ℕ) (u : Tx) → i ≡ n → tx_for shard i ≢ some u =
        λ i u e is. absurd (cc (ap (tx_for shard) e, is, gap)) in
      elim (nearest_below_is shard n) [
        | inl (is, free) ↦ inl (
          rw gap is,
          λ i u low high is'. elim (Bool-cases (i == n)) [
            | inl eq ↦ last i u (==→eq i n eq) is'
            | inr ne ↦ free i u low (ground arith) is'
          ],
        )
        | inr (k, t, is, lt, at, free) ↦ inr (
          k,
          t,
          rw gap is,
          omega arith,
          at,
          λ i u low high is'. elim (Bool-cases (i == n)) [
            | inl eq ↦ last i u (==→eq i n eq) is'
            | inr ne ↦ free i u low (ground arith) is'
          ],
        )
      ]
]

nearest_above_is :
    (shard : BlockShard) (n from : ℕ)
    → ((nearest_above shard n from ≡ none) × NoneKnown shard from (from + n))
      ⊎ ((i : ℕ) × (t : Tx) × (nearest_above shard n from ≡ some (i, t))
          × (from ≤ i)
          × (i < from + n)
          × (tx_for shard i ≡ some t)
          × NoneKnown shard from i)
unfolding nearest_above NoneKnown
nearest_above_is shard zero from = inl (refl, λ i t low high. absurd (omega arith))
nearest_above_is shard (suc n) from = elim (Option-cases (tx_for shard from)) [
  | inr (t, at) ↦
      inr (from, t, rw at refl, omega arith, omega arith, at, λ i u low high. absurd (omega arith))
  | inl gap ↦
      let first : (i : ℕ) (u : Tx) → i ≡ from → tx_for shard i ≢ some u =
        λ i u e is. absurd (cc (ap (tx_for shard) e, is, gap)) in
      elim (nearest_above_is shard n (from + 1)) [
        | inl (is, free) ↦ inl (
          rw gap is,
          λ i u low high is'. elim (Bool-cases (i == from)) [
            | inl eq ↦ first i u (==→eq i from eq) is'
            | inr ne ↦ free i u (ground arith) (omega arith) is'
          ],
        )
        | inr (k, t, is, lt, under, at, free) ↦ inr (
          k,
          t,
          rw gap is,
          omega arith,
          omega arith,
          at,
          λ i u low high is'. elim (Bool-cases (i == from)) [
            | inl eq ↦ first i u (==→eq i from eq) is'
            | inr ne ↦ free i u (ground arith) high is'
          ],
        )
      ]
]

module _ ⦃c : Crypto⦄ where
  -- The known transactions of the shard are in order, none is known if the count of them is 0, and all
  -- have addresses and their layout, as the new one.
  pub record IsSorted (shard : BlockShard) : Type 0 where
    pub sorted :
        (i j : ℕ) (t u : Tx)
        → i < j
        → tx_for shard i ≡ some t
        → tx_for shard j ≡ some u
        → tx_cmp t u ≡ some before
    pub counted : shard.txcount ≡ 0 → (i : ℕ) → tx_for shard i ≡ none
    pub keys : (i : ℕ) (t : Tx) → tx_for shard i ≡ some t → (key : Bytes) × SortsBy t key

  must_precede_ok :
      (s : Sign) (i : ℕ) (next : Option OrderCheck)
      → must_precede s i next ≡ some in_order
      → (s ≡ before) × (next ≡ some in_order)
  unfolding must_precede
  must_precede_ok before i next h = (refl, h)
  must_precede_ok equal i next h = absurd (bad (some-injective h))
    where
      bad : bad_order i ≢ in_order
      bad e = cc e
  must_precede_ok after i next h = absurd (bad (some-injective h))
    where
      bad : bad_order i ≢ in_order
      bad e = cc e

  below_ok :
      (i : ℕ) (t tx : Tx) (next : Option OrderCheck)
      → check_below (some (i, t)) tx next ≡ some in_order
      → (tx_cmp t tx ≡ some before) × (next ≡ some in_order)
  unfolding check_below
  below_ok i t tx next h =
      let (s, is, rest) = >>=-eq-some (tx_cmp t tx) _ h in
      let (first, more) = must_precede_ok s i next rest in (is ∙ ap some first, more)

  above_ok :
      (i : ℕ) (t tx : Tx) → check_above (some (i, t)) tx ≡ some in_order → tx_cmp tx t ≡ some before
  unfolding check_above
  above_ok i t tx h =
      let (s, is, rest) = >>=-eq-some (tx_cmp tx t) _ h in
      is ∙ ap some (must_precede_ok s i (some in_order) rest).0

  below_all :
      (shard : BlockShard) (txoff : ℕ) (tx : Tx) (key : Bytes)
      → IsSorted shard
      → SortsBy tx key
      → (next : Option OrderCheck) → check_below (nearest_below shard txoff) tx next ≡ some in_order
      → ((i : ℕ) (t : Tx) → i < txoff → tx_for shard i ≡ some t → tx_cmp t tx ≡ some before)
        × (next ≡ some in_order)
  unfolding check_below NoneKnown
  below_all shard txoff tx key order mine next h = elim (nearest_below_is shard txoff) [
    | inl (is, free) ↦ (λ i t low at. absurd (free i t (omega arith) low at), rw is at h)
    | inr (k, u, is, lt, at_u, free) ↦
        let (first, rest) = below_ok k u tx next (ap (λ o. check_below o tx next) (sym is) ∙ h) in
        (
          λ i t low at. elim (Bool-cases (ltb i k)) [
            | inl less ↦
                let key_t = order.keys i t at in
                let key_u = order.keys k u at_u in
                (tx_cmp_ordered t u tx key_t.0 key_u.0 key key_t.1 key_u.1 mine).0
                  (order.sorted i k t u (ltb→lt i k less) at at_u) first
            | inr more ↦ elim (Bool-cases (i == k)) [
              | inl eq ↦
                  let same_tx : u ≡ t =
                    some-injective (sym at_u ∙ ap (tx_for shard) (sym (==→eq i k eq)) ∙ at) in
                  subst (λ x. tx_cmp x tx ≡ some before) same_tx first
              | inr ne ↦ absurd (free i t (ground arith) low at)
            ]
          ],
          rest,
        )
  ]

  above_all :
      (shard : BlockShard) (n from : ℕ) (tx : Tx) (key : Bytes)
      → IsSorted shard
      → SortsBy tx key
      → check_above (nearest_above shard n from) tx ≡ some in_order
      → (i : ℕ) (t : Tx) → from ≤ i
      → i < from + n
      → tx_for shard i ≡ some t
      → tx_cmp tx t ≡ some before
  unfolding check_above NoneKnown
  above_all shard n from tx key order mine h i t low high at =
      elim (nearest_above_is shard n from) [
        | inl (is, free) ↦ absurd (free i t low high at)
        | inr (k, u, is, le, under, at_u, free) ↦
            let first = above_ok k u tx (ap (λ o. check_above o tx) (sym is) ∙ h) in
            elim (Bool-cases (ltb k i)) [
              | inl more ↦
                  let key_t = order.keys i t at in
                  let key_u = order.keys k u at_u in
                  (tx_cmp_ordered tx u t key key_u.0 key_t.0 mine key_u.1 key_t.1).0 first
                    (order.sorted k i u t (ltb→lt k i more) at_u at)
              | inr less ↦ elim (Bool-cases (i == k)) [
                | inl eq ↦
                    let same_tx : u ≡ t =
                      some-injective (sym at_u ∙ ap (tx_for shard) (sym (==→eq i k eq)) ∙ at) in
                    subst (λ x. tx_cmp tx x ≡ some before) same_tx first
                | inr ne ↦ absurd (free i t low (ground arith) at)
              ]
            ]
      ]

  -- What an accepted transaction is: behind all that are known below it, before all above.
  abbrev pub FitsIn : BlockShard → (txoff : ℕ) → Tx → Type 0
  FitsIn shard txoff tx =
      (i : ℕ) (t : Tx)
      → i < shard.size
      → tx_for shard i ≡ some t
      → (i < txoff → tx_cmp t tx ≡ some before) × (txoff < i → tx_cmp tx t ≡ some before)

  fits_between :
      (shard : BlockShard) (txoff : ℕ) (tx : Tx) (key : Bytes)
      → IsSorted shard
      → SortsBy tx key
      → check_tx_ordering shard txoff tx ≡ some in_order
      → FitsIn shard txoff tx
  unfolding check_tx_ordering NoneKnown
  fits_between shard txoff tx key order mine h i t inside at =
      elim (Bool-cases (shard.txcount == 0)) [
        | inl empty ↦ absurd (cc (order.counted (==→eq shard.txcount 0 empty) i, at))
        | inr some_known ↦
            let (below, rest) = below_all shard txoff tx key order mine _ (rw some_known at h) in
            let above =
              above_all shard (shard.size - (txoff + 1)) (txoff + 1) tx key order mine rest in
            (λ low. below i t low at, λ high. above i t (omega arith) (omega arith) at)
      ]

  between_fits :
      (shard : BlockShard) (txoff : ℕ) (tx : Tx)
      → txoff < shard.size
      → FitsIn shard txoff tx
      → check_tx_ordering shard txoff tx ≡ some in_order
  unfolding check_tx_ordering check_below check_above must_precede
  between_fits shard txoff tx inside fit =
      let n = shard.size - (txoff + 1) in
      let above : check_above (nearest_above shard n (txoff + 1)) tx ≡ some in_order =
        elim (nearest_above_is shard n (txoff + 1)) [
          | inl (is, free) ↦ rw is refl
          | inr (k, u, is, le, under, at, free) ↦
              rw (is, (fit k u (omega arith) at).1 (omega arith)) refl
        ] in
      elim (Bool-cases (shard.txcount == 0)) [
        | inl empty ↦ rw empty refl
        | inr some_known ↦ elim (nearest_below_is shard txoff) [
          | inl (is, free) ↦ rw (some_known, is) above
          | inr (k, u, is, lt, at, free) ↦
              rw (some_known, is, (fit k u (omega arith) at).0 lt) above
        ]
      ]

  -- Over a shard whose known transactions are in order, `check_tx_ordering` says yes for a place of the
  -- shard exactly if every known transaction at a lower place comes before the new one, and the new one
  -- comes before every known one at a higher place.
  pub check_tx_ordering_exact :
      (shard : BlockShard) (txoff : ℕ) (tx : Tx) (key : Bytes)
      → IsSorted shard
      → SortsBy tx key
      → txoff < shard.size
      → (check_tx_ordering shard txoff tx ≡ some in_order) ↔ FitsIn shard txoff tx
  check_tx_ordering_exact shard txoff tx key order mine inside =
      (fits_between shard txoff tx key order mine, between_fits shard txoff tx inside)
