-- ===== src/Chain/Connected.antt =====
-- chain.c: the search for a known block on the way to one of the longest chains, and what it is for.
use pettycoin.Base.{
  ℕ, zero, suc, ◌+◌, ◌≡◌, ◌⊎◌, inl, inr, refl, sym, ap, ap₂, ◌∙◌, subst, Bool, true, false, ◌&&◌,
  none, some, List, [], ◌∷◌, arith, ◌==◌, Bool-cases, some-injective, length, get_elem?, All,
  get_elem?-lt,
}
use pettycoin.Block.{Block}
use pettycoin.Chain.{block_preceeds}
use pettycoin.State.{State}
use pettycoin.Chain.Precedes.{Precedes, block_preceeds-Precedes}
use pettycoin.Chain.Tree.{IsTree, depth_low}
use pettycoin.Chain.Heads.{IsClean, IsKnown, Head, Heads, Heads-swap}
use pettycoin.Chain.Pointers.{
  first_known_before, first_connected, find_connected_pair, move_to_front, order_block_pointers,
}

module _ (blocks : List Block) (t : IsTree blocks) where
  abbrev InStore : ℕ → Type 0
  InStore b = (block : Block) × (get_elem? blocks b ≡ some block)

  -- `block_preceeds` with the fuel that is given.
  pub preceeds_ends :
      (a b : ℕ)
      → InStore a
      → InStore b
      → ((block_preceeds (length blocks) blocks a b ≡ some true) × Precedes blocks a b)
        ⊎ ((block_preceeds (length blocks) blocks a b ≡ some false) × ¬ Precedes blocks a b)
  preceeds_ends a b (from, at_a) (to, at_b) =
      let low = depth_low blocks t (suc b) b to (omega arith) at_b in
      let (answer, is, iff) =
        block_preceeds-Precedes blocks t.rooted (length blocks) a b from to at_a at_b
          (omega (arith, low, get_elem?-lt blocks b at_b)) in
      elim (Bool-cases answer) [
        | inl on ↦ inl (is ∙ ap some on, iff.0 on)
        | inr off ↦ inr (is ∙ ap some off, λ on. absurd (cc (iff.1 on, off)))
      ]

  first_known_before_is :
      (chain base : ℕ) (knowns : List ℕ)
      → InStore chain
      → All InStore knowns
      → ((first_known_before blocks chain base knowns ≡ some none)
          × ((j k : ℕ) → get_elem? knowns j ≡ some k → ¬ Precedes blocks k chain))
        ⊎ ((j : ℕ) × (k : ℕ) × (first_known_before blocks chain base knowns
              ≡ some (some (base + j)))
            × (get_elem? knowns j ≡ some k)
            × Precedes blocks k chain)
  unfolding first_known_before
  first_known_before_is chain base [] at all = inl (refl, λ j k e. absurd (cc e))
  first_known_before_is chain base (k ∷ ks) at all = elim (preceeds_ends k chain all.0 at) [
    | inl (is, on) ↦ inr (0, k, rw is (ap (λ n. some (some n)) (omega arith)), refl, on)
    | inr (is, off) ↦ elim (first_known_before_is chain (base + 1) ks at all.1) [
      | inl (e, none_on) ↦ inl (rw is e, λ j k' at_j. not_first j k' at_j off none_on)
      | inr (j, k', e, at_j, on) ↦
          inr (suc j, k', rw is (e ∙ ap (λ n. some (some n)) (omega arith)), at_j, on)
    ]
  ]
    where
      not_first :
          (j k' : ℕ)
          → get_elem? (k ∷ ks) j ≡ some k'
          → ¬ Precedes blocks k chain
          → ((j k : ℕ) → get_elem? ks j ≡ some k → ¬ Precedes blocks k chain)
          → ¬ Precedes blocks k' chain
      not_first zero k' e off later on =
          off (subst (λ x. Precedes blocks x chain) (sym (some-injective e)) on)
      not_first (suc j) k' e off later on = later j k' e on

  -- The search answers. Either no known block is on the way to a chain, or it gives the places of two
  -- that are.
  pub first_connected_is :
      (base : ℕ) (chains knowns : List ℕ)
      → All InStore chains
      → All InStore knowns
      → ((first_connected blocks base chains knowns ≡ some none)
          × ((i c j k : ℕ)
              → get_elem? chains i ≡ some c
              → get_elem? knowns j ≡ some k
              → ¬ Precedes blocks k c))
        ⊎ ((i : ℕ) × (c : ℕ) × (j : ℕ) × (k : ℕ) × (first_connected blocks base chains knowns
              ≡ some (some (base + i, j)))
            × (get_elem? chains i ≡ some c)
            × (get_elem? knowns j ≡ some k)
            × Precedes blocks k c)
  unfolding first_connected
  first_connected_is base [] knowns all known = inl (refl, λ i c j k e. absurd (cc e))
  first_connected_is base (c ∷ cs) knowns all known =
      elim (first_known_before_is c 0 knowns all.0 known) [
        | inr (j, k, is, at, on) ↦ inr (
          0,
          c,
          j,
          k,
          rw is (ap₂ (λ n m. some (some (n, m))) (omega arith) (omega arith)),
          refl,
          at,
          on,
        )
        | inl (is, none_on) ↦ elim (first_connected_is (base + 1) cs knowns all.1 known) [
          | inl (e, off) ↦
              inl (rw is e, λ i c' j k at_i at_j. not_first i c' j k at_i at_j none_on off)
          | inr (i, c', j, k, e, at_i, at_j, on) ↦ inr (
            suc i,
            c',
            j,
            k,
            rw is (e ∙ ap (λ n. some (some (n, j))) (omega arith)),
            at_i,
            at_j,
            on,
          )
        ]
      ]
    where
      not_first :
          (i c' j k : ℕ)
          → get_elem? (c ∷ cs) i ≡ some c'
          → get_elem? knowns j ≡ some k
          → ((j k : ℕ) → get_elem? knowns j ≡ some k → ¬ Precedes blocks k c)
          → ((i c j k : ℕ)
              → get_elem? cs i ≡ some c
              → get_elem? knowns j ≡ some k
              → ¬ Precedes blocks k c)
          → ¬ Precedes blocks k c'
      not_first zero c' j k e at_j here later on =
          here j k at_j (subst (λ x. Precedes blocks k x) (sym (some-injective e)) on)
      not_first (suc i) c' j k e at_j here later on = later i c' j k e at_j on

heads_stored :
    (Counts : Block → Type 0) (blocks : List Block) (work : ℕ) (heads : List ℕ)
    → All (Head Counts blocks work) heads
    → All (λ b. (block : Block) × (get_elem? blocks b ≡ some block)) heads
heads_stored Counts blocks work [] h = _
heads_stored Counts blocks work (x ∷ xs) h =
    ((h.0.block, h.0.at), heads_stored Counts blocks work xs h.1)

-- The state's search.
pub find_connected_pair_is :
    (state : State)
    → IsTree state.blocks
    → Heads IsClean state.blocks state.longest_chains
    → Heads IsKnown state.blocks state.longest_knowns
    → ((find_connected_pair state ≡ some none)
        × ((i c j k : ℕ)
            → get_elem? state.longest_chains i ≡ some c
            → get_elem? state.longest_knowns j ≡ some k
            → ¬ Precedes state.blocks k c))
      ⊎ ((i : ℕ) × (c : ℕ) × (j : ℕ) × (k : ℕ) × (find_connected_pair state ≡ some (some (i, j)))
          × (get_elem? state.longest_chains i ≡ some c)
          × (get_elem? state.longest_knowns j ≡ some k)
          × Precedes state.blocks k c)
unfolding find_connected_pair
find_connected_pair_is state t hc hk =
    elim (first_connected_is state.blocks t 0 state.longest_chains state.longest_knowns
      (heads_stored IsClean state.blocks hc.work state.longest_chains hc.each)
      (heads_stored IsKnown state.blocks hk.work state.longest_knowns hk.each)) [
        | inl (is, off) ↦ inl (is, off)
        | inr (i, c, j, k, is, at_i, at_j, on) ↦
            inr (i, c, j, k, is ∙ ap (λ n. some (some (n, j))) (omega arith), at_i, at_j, on)
      ]

-- What `order_block_pointers` gives back: the same state, but for the order of the two arrays.
pub record Ordered (state : State) : Type 0 where
  pub chains : List ℕ
  pub knowns : List ℕ
  pub moved : Bool
  pub returns :
      order_block_pointers state
      ≡ some (record state { longest_chains = chains; longest_knowns = knowns }, moved)
  pub best_chains : Heads IsClean state.blocks chains
  pub best_knowns : Heads IsKnown state.blocks knowns
  pub linked :
      (i c j k : ℕ)
      → get_elem? state.longest_chains i ≡ some c
      → get_elem? state.longest_knowns j ≡ some k
      → Precedes state.blocks k c
      → (c' : ℕ) × (k' : ℕ) × (get_elem? chains 0 ≡ some c')
        × (get_elem? knowns 0 ≡ some k')
        × Precedes state.blocks k' c'

-- In a tree, with arrays of the best blocks, `order_block_pointers` answers, and leaves the arrays best.
-- If any known block in its array is on the way to any of the longest chains, then afterwards the
-- first known block is on the way to the first of the longest chains.
pub order_block_pointers_orders :
    (state : State)
    → IsTree state.blocks
    → Heads IsClean state.blocks state.longest_chains
    → Heads IsKnown state.blocks state.longest_knowns
    → Ordered state
unfolding order_block_pointers move_to_front
order_block_pointers_orders state t hc hk = elim (find_connected_pair_is state t hc hk) [
  | inl (is, off) ↦ record {
    chains = state.longest_chains;
    knowns = state.longest_knowns;
    moved = false;
    returns = rw is refl;
    best_chains = hc;
    best_knowns = hk;
    linked = λ i c j k at_i at_j on. absurd (off i c j k at_i at_j on);
  }
  | inr (i, c, j, k, is, at_i, at_j, on) ↦ elim (Bool-cases (i == 0 && j == 0)) [
    | inl front ↦ record {
      chains = state.longest_chains;
      knowns = state.longest_knowns;
      moved = false;
      returns = rw (is, front) refl;
      best_chains = hc;
      best_knowns = hk;
      linked = λ i' c' j' k' at at' on'.
          (c, k, rw (← zero_of i j front) at_i, rw (← zero_of' i j front) at_j, on);
    }
    | inr behind ↦
        let (cs, e, first, best) =
          Heads-swap IsClean state.blocks state.longest_chains i c hc at_i in
        let (ks, e', first', best') =
          Heads-swap IsKnown state.blocks state.longest_knowns j k hk at_j in
        record {
          chains = cs;
          knowns = ks;
          moved = true;
          returns = rw (is, behind, e, e') refl;
          best_chains = best;
          best_knowns = best';
          linked = λ i' c' j' k' at at' on'. (c, k, first, first', on);
        }
  ]
]
  where
    zero_of : (i j : ℕ) → (i == 0 && j == 0) ≡ true → i ≡ 0
    zero_of i j e = ground (arith, e)

    zero_of' : (i j : ℕ) → (i == 0 && j == 0) ≡ true → j ≡ 0
    zero_of' i j e = ground (arith, e)
