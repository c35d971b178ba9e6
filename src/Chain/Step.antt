-- ===== src/Chain/Step.antt =====
-- chain.c: `step_towards` as a whole.
use pettycoin.Base.{
  ℕ, ◌<◌, ◌≡◌, ◌≢◌, ◌⊎◌, inl, inr, refl, sym, ap, ◌∙◌, subst, false, Option, none, some, List,
  arith, ◌==◌, ==→eq, Bool-cases, get_elem?,
}
use pettycoin.Block.{Block, depth_of}
use pettycoin.Chain.{rewind, advance, meet, step_towards}
use pettycoin.Chain.Precedes.{Precedes, same_block, IsRooted, Precedes-depth}
use pettycoin.Chain.Walks.{HasOneRoot, one_at_depth, Rewound, rewind_ends, deeper_off, same_depth}
use pettycoin.Chain.Meeting.{advance_ends, meet_ends}

module _ (blocks : List Block) (rooted : IsRooted blocks) where
  off_way :
      (curr target : ℕ) (start end : Block)
      → get_elem? blocks curr ≡ some start
      → get_elem? blocks target ≡ some end
      → {found : Option ℕ} (r : Rewound blocks rooted curr (depth_of end) found)
      → (x : ℕ) (block : Block) → get_elem? blocks x ≡ some block
      → depth_of r.block < depth_of block
      → Precedes blocks x target
      → ¬ Precedes blocks x curr
  off_way curr target start end at_s at_e r x block at above on on_curr = elim r.exact [
    | inl e ↦
        deeper_off blocks rooted x curr block start at at_s
          (omega (arith, same_depth blocks rooted r.back curr r.block start r.at at_s e)) on_curr
    | inr e ↦ deeper_off blocks rooted x target block end at at_e (omega arith) on
  ]

  not_below :
      (curr target : ℕ) (start end : Block)
      → get_elem? blocks curr ≡ some start
      → get_elem? blocks target ≡ some end
      → {found : Option ℕ} (r : Rewound blocks rooted curr (depth_of end) found) → r.back ≢ target
      → ¬ Precedes blocks target curr
  not_below curr target start end at_s at_e r ne on = elim r.exact [
    | inl e ↦ elim (Precedes-depth blocks rooted target curr end start at_e at_s on) [
      | inl same ↦ ne (e ∙ sym same)
      | inr lt ↦
          absurd (
            omega
              (arith, lt, r.low, same_depth blocks rooted r.back curr r.block start r.at at_s e))
    ]
    | inr e ↦ ne (
        one_at_depth blocks rooted r.back target curr r.block end start r.at at_e at_s e r.on_way
          on)
  ]

  towards :
      (fuel curr target back t : ℕ) (end block : Block) (prev found : Option ℕ)
      → get_elem? blocks target ≡ some end
      → rewind fuel blocks curr (depth_of end) ≡ some back
      → (back == target) ≡ false
      → get_elem? blocks back ≡ some block
      → advance fuel blocks none target (depth_of block) ≡ some (prev, t)
      → meet fuel blocks back prev t ≡ some found
      → step_towards fuel blocks curr target ≡ some found
  unfolding step_towards
  towards fuel curr target back t end block prev found at_e rew ne at_b adv met =
      rw (at_e, rew, ne, at_b, adv) met

  -- In a rooted store with one root, for two blocks in it and with fuel for every depth, `step_towards`
  -- answers. Either it gives NULL, and the target is on the way back from the other block (or is it), or
  -- it gives a block on the way back from the target, but not on that from the other block, whose parent
  -- is on both.
  pub step_towards_descends :
      HasOneRoot blocks
      → (fuel curr target : ℕ) (start end : Block) → get_elem? blocks curr ≡ some start
      → get_elem? blocks target ≡ some end
      → depth_of start < fuel
      → depth_of end < fuel
      → ((step_towards fuel blocks curr target ≡ some none) × Precedes blocks target curr)
        ⊎ ((x : ℕ) × (block : Block) × (parent : ℕ) × (step_towards fuel blocks curr target
              ≡ some (some x))
            × (get_elem? blocks x ≡ some block)
            × (block.prev ≡ some parent)
            × Precedes blocks x target
            × Precedes blocks parent curr
            × ¬ Precedes blocks x curr)
  unfolding step_towards
  step_towards_descends root fuel curr target start end at_s at_e enough_s enough_e =
      let r = rewind_ends blocks rooted fuel curr (depth_of end) start at_s enough_s in
      elim (Bool-cases (r.back == target)) [
        | inl eq ↦ inl (
          rw (at_e, r.returns, eq) refl,
          subst (λ x. Precedes blocks x curr) (==→eq r.back target eq) r.on_way,
        )
        | inr ne ↦
            let off = off_way curr target start end at_s at_e r in
            let a =
              advance_ends blocks rooted curr target (depth_of r.block) off fuel none target end
                at_e enough_e r.low same_block (inl (refl, refl)) in
            let m =
              meet_ends blocks rooted root curr target start at_s fuel r.back a.prev a.t r.block
                a.block r.at a.at (sym a.level) (omega (arith, a.level, r.low)) r.on_way a.on_way
                a.stepped in
            let is =
              towards fuel curr target r.back a.t end r.block a.prev m.prev at_e r.returns ne r.at
                a.returns m.returns in
            elim m.stepped [
              | inl none_yet ↦ absurd (
                  not_below curr target start end at_s at_e r (λ e. ground (arith, e))
                    (subst (λ x. Precedes blocks x curr) none_yet.1 m.common))
              | inr (x, block, prev_is, at, up, on, off_curr) ↦
                  inr (x, block, m.t, is ∙ ap some prev_is, at, up, on, m.common, off_curr)
            ]
      ]
