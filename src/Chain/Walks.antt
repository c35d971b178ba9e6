-- ===== src/Chain/Walks.antt =====
-- chain.c: the ways back from a block, and the first loop of `step_towards`.
use pettycoin.Base.{
  ℕ, zero, suc, ◌<◌, ◌≤◌, ◌≡◌, ◌≢◌, ◌⊎◌, inl, inr, refl, sym, ap, ◌∙◌, subst, false, Option, some,
  List, arith, leb, leb→le, leb→gt, Bool-cases, some-injective, get_elem?,
}
use pettycoin.Block.{Block, depth_of}
use pettycoin.Chain.{rewind}
use pettycoin.Chain.Precedes.{
  Precedes, same_block, further, HasParent, IsRooted, Precedes-depth, back_one,
}

module _ (blocks : List Block) where
  -- Only block number 0 has no parent.
  abbrev pub HasOneRoot : Type 0
  HasOneRoot =
      (b : ℕ) (block : Block) → get_elem? blocks b ≡ some block → depth_of block ≡ 0 → b ≡ 0

module _ (blocks : List Block) (rooted : IsRooted blocks) where
  pub Precedes-trans : (a b c : ℕ) → Precedes blocks a b → Precedes blocks b c → Precedes blocks a c
  Precedes-trans a b c p same_block = p
  Precedes-trans a b c p (further at up rest) = further at up (Precedes-trans a b _ p rest)

  -- Every block but a root has a parent in the store.
  pub parent_of :
      (b : ℕ) (block : Block)
      → get_elem? blocks b ≡ some block
      → 0 < depth_of block
      → HasParent blocks block
  parent_of b block at deep = elim (rooted b block at) [
    | inl root ↦ absurd (omega (arith, root.1))
    | inr parent ↦ parent
  ]

  -- The way back from a block has one block at each depth.
  pub one_at_depth :
      (a b c : ℕ) (block_a block_b block_c : Block)
      → get_elem? blocks a ≡ some block_a
      → get_elem? blocks b ≡ some block_b
      → get_elem? blocks c ≡ some block_c
      → depth_of block_a ≡ depth_of block_b
      → Precedes blocks a c
      → Precedes blocks b c
      → a ≡ b
  one_at_depth a b c block_a block_b block_c at_a at_b at_c same same_block p =
      elim (Precedes-depth blocks rooted b a block_b block_a at_b at_a p) [
        | inl e ↦ sym e
        | inr lt ↦ absurd (omega arith)
      ]
  one_at_depth a b c block_a block_b block_c at_a at_b at_c same
        (further {p = p} {block = block} at up rest) on =
      let block_is : block ≡ block_c = some-injective (sym at ∙ at_c) in
      let up_c : block_c.prev ≡ some p = subst (λ (x : Block). x.prev ≡ some p) block_is up in
      elim (rooted c block_c at_c) [
        | inl root ↦ absurd (cc (root.0, up_c))
        | inr (q, parent, up', at_q, deep) ↦
            let q_is : q ≡ p = some-injective (sym up' ∙ up_c) in
            let at_p : get_elem? blocks p ≡ some parent = rw (← q_is) at_q in
            let shallow : depth_of block_a < depth_of block_c =
              elim (Precedes-depth blocks rooted a p block_a parent at_a at_p rest) [
                | inl e ↦ omega (
                  arith,
                  ap depth_of (some-injective (sym at_a ∙ ap (get_elem? blocks) e ∙ at_p)),
                )
                | inr lt ↦ omega (arith, lt)
              ] in
            let not_c : b ≢ c = λ e. absurd (
              omega (
                arith,
                ap depth_of (some-injective (sym at_b ∙ ap (get_elem? blocks) e ∙ at_c)),
              )) in
            one_at_depth a b p block_a block_b parent at_a at_b at_p same rest
              (back_one blocks b c p block_c at_c up_c not_c on)
      ]

  rewind_step :
      (fuel b depth p : ℕ) (block : Block)
      → get_elem? blocks b ≡ some block
      → leb (depth_of block) depth ≡ false
      → block.prev ≡ some p
      → rewind (suc fuel) blocks b depth ≡ rewind fuel blocks p depth
  unfolding rewind
  rewind_step fuel b depth p block at high up = rw (at, high, up) refl

  -- Where the first loop ends.
  pub record Rewound (curr depth : ℕ) (found : Option ℕ) : Type 0 where
    pub back : ℕ
    pub block : Block
    pub returns : found ≡ some back
    pub at : get_elem? blocks back ≡ some block
    pub on_way : Precedes blocks back curr
    pub low : depth_of block ≤ depth
    pub exact : (back ≡ curr) ⊎ (depth_of block ≡ depth)

  pub rewind_ends :
      (fuel curr depth : ℕ) (block : Block)
      → get_elem? blocks curr ≡ some block
      → depth_of block < fuel
      → Rewound curr depth (rewind fuel blocks curr depth)
  unfolding rewind
  rewind_ends zero curr depth block at enough = absurd (omega arith)
  rewind_ends (suc fuel) curr depth block at enough =
      elim (Bool-cases (leb (depth_of block) depth)) [
        | inl low ↦ record {
          back = curr;
          block = block;
          returns = rw (at, low) refl;
          at = at;
          on_way = same_block;
          low = leb→le (depth_of block) depth low;
          exact = inl refl;
        }
        | inr high ↦
            let above : depth < depth_of block = leb→gt (depth_of block) depth high in
            let (p, parent, up, at_p, one) = parent_of curr block at (omega arith) in
            let r = rewind_ends fuel p depth parent at_p (omega arith) in
            record {
              back = r.back;
              block = r.block;
              returns = rewind_step fuel curr depth p block at high up ∙ r.returns;
              at = r.at;
              on_way = Precedes-trans r.back p curr r.on_way (further at up same_block);
              low = r.low;
              exact = inr (elim r.exact [
                | inl e ↦ omega (
                  arith,
                  r.low,
                  ap depth_of (some-injective (sym r.at ∙ ap (get_elem? blocks) e ∙ at_p)),
                )
                | inr e ↦ e
              ]);
            }
      ]

  -- A deeper block is not on the way back from a block.
  pub deeper_off :
      (x w : ℕ) (block_x block_w : Block)
      → get_elem? blocks x ≡ some block_x
      → get_elem? blocks w ≡ some block_w
      → depth_of block_w < depth_of block_x
      → ¬ Precedes blocks x w
  deeper_off x w block_x block_w at_x at_w deep on =
      elim (Precedes-depth blocks rooted x w block_x block_w at_x at_w on) [
        | inl e ↦ absurd (
            omega (arith, ap depth_of (some-injective (sym at_x ∙ ap (get_elem? blocks) e ∙ at_w))))
        | inr lt ↦ absurd (omega (arith, lt))
      ]

  pub same_depth :
      (x w : ℕ) (block_x block_w : Block)
      → get_elem? blocks x ≡ some block_x
      → get_elem? blocks w ≡ some block_w
      → x ≡ w
      → depth_of block_x ≡ depth_of block_w
  same_depth x w block_x block_w at_x at_w e =
      ap depth_of (some-injective (sym at_x ∙ ap (get_elem? blocks) e ∙ at_w))
