-- ===== src/CheckBlock/Found.antt =====
-- block.c: what `block_find_any` finds.
use pettycoin.Base.{
  ℕ, zero, suc, ◌≡◌, ◌⊎◌, inl, inr, refl, sym, ap, ◌∙◌, false, none, some, List, [], ◌∷◌,
  Bool-cases, some-injective, get_elem?, All, Bytes, bytes_eq, bytes_eq_refl, bytes_eq→eq,
}
use pettycoin.Block.{Block, depth_of}
use pettycoin.State.{State}
use pettycoin.Chain.Valid.{IsValid}
use pettycoin.CheckBlock.{find_in_level, find_in_levels, block_find_any}

module _ (blocks : List Block) (sha : Bytes) where
  abbrev pub HasSha : ℕ → Type 0
  HasSha b = (block : Block) × (get_elem? blocks b ≡ some block) × (block.sha ≡ sha)

  abbrev InStore : ℕ → Type 0
  InStore b = (block : Block) × (get_elem? blocks b ≡ some block)

  find_in_level_ends :
      (level : List ℕ)
      → All InStore level
      → ((find_in_level blocks sha level ≡ some none)
          × ((j b : ℕ) → get_elem? level j ≡ some b → ¬ HasSha b))
        ⊎ ((b : ℕ) × (find_in_level blocks sha level ≡ some (some b)) × HasSha b)
  unfolding find_in_level
  find_in_level_ends [] all = inl (refl, λ j b e. absurd (cc e))
  find_in_level_ends (b ∷ bs) all =
      let (block, at) = all.0 in
      elim (Bool-cases (bytes_eq block.sha sha)) [
        | inl eq ↦ inr (b, rw (at, eq) refl, (block, at, bytes_eq→eq block.sha sha eq))
        | inr ne ↦ elim (find_in_level_ends bs all.1) [
          | inl (is, off) ↦ inl (rw (at, ne) is, λ j x e. not_here block at ne off j x e)
          | inr (x, is, has) ↦ inr (x, rw (at, ne) is, has)
        ]
      ]
    where
      not_here :
          (block : Block)
          → get_elem? blocks b ≡ some block
          → bytes_eq block.sha sha ≡ false
          → ((j x : ℕ) → get_elem? bs j ≡ some x → ¬ HasSha x)
          → (j x : ℕ) → get_elem? (b ∷ bs) j ≡ some x
          → ¬ HasSha x
      not_here block at ne off (suc j) x e has = off j x e has
      not_here block at ne off zero x e (block', at', is) =
          let same : block ≡ block' =
            some-injective (sym at ∙ ap (get_elem? blocks) (some-injective e) ∙ at') in
          let own : block.sha ≡ sha = ap (λ (z : Block). z.sha) same ∙ is in
          cc (ap (λ s. bytes_eq s sha) own, bytes_eq_refl sha, ne)

  find_in_levels_ends :
      (levels : List (List ℕ))
      → All (All InStore) levels
      → ((find_in_levels blocks sha levels ≡ some none)
          × ((d j b : ℕ) (level : List ℕ)
              → get_elem? levels d ≡ some level
              → get_elem? level j ≡ some b
              → ¬ HasSha b))
        ⊎ ((b : ℕ) × (find_in_levels blocks sha levels ≡ some (some b)) × HasSha b)
  unfolding find_in_levels
  find_in_levels_ends [] all = inl (refl, λ d j b level e. absurd (cc e))
  find_in_levels_ends (level ∷ levels) all = elim (find_in_levels_ends levels all.1) [
    | inr (b, is, has) ↦ inr (b, rw is refl, has)
    | inl (is, off) ↦ elim (find_in_level_ends level all.0) [
      | inr (b, is', has) ↦ inr (b, rw is is', has)
      | inl (is', off') ↦ inl (rw is is', λ d j b own at at_j. nowhere off off' d j b own at at_j)
    ]
  ]
    where
      nowhere :
          ((d j b : ℕ) (l : List ℕ)
            → get_elem? levels d ≡ some l
            → get_elem? l j ≡ some b
            → ¬ HasSha b)
          → ((j b : ℕ) → get_elem? level j ≡ some b → ¬ HasSha b)
          → (d j b : ℕ) (l : List ℕ) → get_elem? (level ∷ levels) d ≡ some l
          → get_elem? l j ≡ some b
          → ¬ HasSha b
      nowhere off off' zero j b l at at_j =
          off' j b (ap (λ x. get_elem? x j) (some-injective at) ∙ at_j)
      nowhere off off' (suc d) j b l at at_j = off d j b l at at_j

  All-tabulate :
      (level : List ℕ) → ((j b : ℕ) → get_elem? level j ≡ some b → InStore b) → All InStore level
  All-tabulate [] f = _
  All-tabulate (b ∷ bs) f = (f 0 b refl, All-tabulate bs (λ j x e. f (suc j) x e))

  All-levels :
      (levels : List (List ℕ))
      → ((d j b : ℕ) (level : List ℕ)
          → get_elem? levels d ≡ some level
          → get_elem? level j ≡ some b
          → InStore b)
      → All (All InStore) levels
  All-levels [] f = _
  All-levels (level ∷ levels) f = (
    All-tabulate level (λ j b e. f 0 j b level refl e),
    All-levels levels (λ d j b l e e'. f (suc d) j b l e e'),
  )

-- In a valid state `block_find_any` answers: with the number of a block that has the hash, or with NULL,
-- and then no block of the state has it.
pub block_find_any_finds :
    (state : State) (sha : Bytes)
    → IsValid state
    → ((block_find_any state sha ≡ some none) × ((b : ℕ) → ¬ HasSha state.blocks sha b))
      ⊎ ((b : ℕ) × (block_find_any state sha ≡ some (some b)) × HasSha state.blocks sha b)
unfolding block_find_any
block_find_any_finds state sha v =
    elim (find_in_levels_ends state.blocks sha state.block_depth (
      All-levels state.blocks sha state.block_depth (λ d j b level at at_j.
        let (block, at_b, deep) = v.leveled.only d j b level at at_j in (block, at_b)))) [
          | inr found ↦ inr found
          | inl (is, off) ↦ inl (
            is,
            λ b has.
                let (level, j, at_l, at_j) = v.leveled.held b has.0 has.1 in
                off (depth_of has.0) j b level at_l at_j has,
          )
        ]
