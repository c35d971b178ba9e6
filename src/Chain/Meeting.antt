-- ===== src/Chain/Meeting.antt =====
-- chain.c: the second and the third loop of `step_towards`.
use pettycoin.Base.{
  ℕ, zero, suc, ◌<◌, ◌≤◌, ◌≡◌, ◌≢◌, ◌⊎◌, inl, inr, refl, sym, ◌∙◌, subst, false, Option, none, some,
  List, arith, leb, ◌==◌, leb→le, leb→gt, ==→eq, Bool-cases, get_elem?,
}
use pettycoin.Block.{Block, depth_of}
use pettycoin.Chain.{advance, meet}
use pettycoin.Chain.Precedes.{Precedes, same_block, further, IsRooted}
use pettycoin.Chain.Walks.{HasOneRoot, Precedes-trans, parent_of, one_at_depth}

module _ (blocks : List Block) (rooted : IsRooted blocks) where
  advance_step :
      (fuel : ℕ) (prev : Option ℕ) (t depth p : ℕ) (block : Block)
      → get_elem? blocks t ≡ some block
      → leb (depth_of block) depth ≡ false
      → block.prev ≡ some p
      → advance (suc fuel) blocks prev t depth ≡ advance fuel blocks (some t) p depth
  unfolding advance
  advance_step fuel prev t depth p block at high up = rw (at, high, up) refl

  meet_step :
      (fuel c : ℕ) (prev : Option ℕ) (t p q : ℕ) (block_c block_t : Block)
      → (c == t) ≡ false
      → get_elem? blocks t ≡ some block_t
      → block_t.prev ≡ some p
      → get_elem? blocks c ≡ some block_c
      → block_c.prev ≡ some q
      → meet (suc fuel) blocks c prev t ≡ meet fuel blocks q (some t) p
  unfolding meet
  meet_step fuel c prev t p q block_c block_t ne at_t up_t at_c up_c =
      rw (ne, at_t, up_t, at_c, up_c) refl

  -- `prev_target` is not set and no step was made, or it is one step from `t` towards the target, off the
  -- way of the other block.
  abbrev pub Stepped : (curr target : ℕ) → Option ℕ → (t : ℕ) → Type 0
  Stepped curr target prev t =
      ((prev ≡ none) × (t ≡ target))
      ⊎ ((x : ℕ) × (block : Block) × (prev ≡ some x)
          × (get_elem? blocks x ≡ some block)
          × (block.prev ≡ some t)
          × Precedes blocks x target
          × ¬ Precedes blocks x curr)

  pub record Advanced (curr target depth : ℕ) (found : Option (Option ℕ × ℕ)) : Type 0 where
    pub prev : Option ℕ
    pub t : ℕ
    pub block : Block
    pub returns : found ≡ some (prev, t)
    pub at : get_elem? blocks t ≡ some block
    pub on_way : Precedes blocks t target
    pub stepped : Stepped curr target prev t
    pub level : depth_of block ≡ depth

  pub advance_ends :
      (curr target depth : ℕ)
      → ((x : ℕ) (block : Block)
          → get_elem? blocks x ≡ some block
          → depth < depth_of block
          → Precedes blocks x target
          → ¬ Precedes blocks x curr)
      → (fuel : ℕ) (prev : Option ℕ) (t : ℕ) (block : Block) → get_elem? blocks t ≡ some block
      → depth_of block < fuel
      → depth ≤ depth_of block
      → Precedes blocks t target
      → Stepped curr target prev t
      → Advanced curr target depth (advance fuel blocks prev t depth)
  unfolding advance
  advance_ends curr target depth off zero prev t block at enough deep on st = absurd (omega arith)
  advance_ends curr target depth off (suc fuel) prev t block at enough deep on st =
      elim (Bool-cases (leb (depth_of block) depth)) [
        | inl low ↦ record {
          prev = prev;
          t = t;
          block = block;
          returns = rw (at, low) refl;
          at = at;
          on_way = on;
          stepped = st;
          level = omega (arith, leb→le (depth_of block) depth low);
        }
        | inr high ↦
            let above : depth < depth_of block = leb→gt (depth_of block) depth high in
            let (p, parent, up, at_p, one) = parent_of blocks rooted t block at (omega arith) in
            let r =
              advance_ends curr target depth off fuel (some t) p parent at_p (omega arith)
                (omega arith)
                (Precedes-trans blocks rooted p t target (further at up same_block) on)
                (inr (t, block, refl, at, up, on, off t block at above on)) in
            record {
              prev = r.prev;
              t = r.t;
              block = r.block;
              returns = advance_step fuel prev t depth p block at high up ∙ r.returns;
              at = r.at;
              on_way = r.on_way;
              stepped = r.stepped;
              level = r.level;
            }
      ]

  pub record Met (curr target : ℕ) (found : Option (Option ℕ)) : Type 0 where
    pub prev : Option ℕ
    pub t : ℕ
    pub returns : found ≡ some prev
    pub common : Precedes blocks t curr
    pub stepped : Stepped curr target prev t

  pub meet_ends :
      HasOneRoot blocks
      → (curr target : ℕ) (start : Block) → get_elem? blocks curr ≡ some start
      → (fuel c : ℕ) (prev : Option ℕ) (t : ℕ) (block_c block_t : Block)
      → get_elem? blocks c ≡ some block_c
      → get_elem? blocks t ≡ some block_t
      → depth_of block_c ≡ depth_of block_t
      → depth_of block_t < fuel
      → Precedes blocks c curr
      → Precedes blocks t target
      → Stepped curr target prev t
      → Met curr target (meet fuel blocks c prev t)
  unfolding meet
  meet_ends root curr target start at_s zero c prev t block_c block_t at_c at_t level enough on_c
        on_t st =
      absurd (omega arith)
  meet_ends root curr target start at_s (suc fuel) c prev t block_c block_t at_c at_t level enough
        on_c on_t st =
      elim (Bool-cases (c == t)) [
        | inl eq ↦ record {
          prev = prev;
          t = t;
          returns = rw eq refl;
          common = subst (λ x. Precedes blocks x curr) (==→eq c t eq) on_c;
          stepped = st;
        }
        | inr ne ↦
            let apart : c ≢ t = λ e. ground (arith, e) in
            let deep : 0 < depth_of block_t = elim (Bool-cases (depth_of block_t == 0)) [
              | inl z ↦
                  let zt = ==→eq (depth_of block_t) 0 z in
                  absurd (apart (root c block_c at_c (omega arith) ∙ sym (root t block_t at_t zt)))
              | inr nz ↦ ground arith
            ] in
            let (p, parent_t, up_t, at_p, one_t) = parent_of blocks rooted t block_t at_t deep in
            let (q, parent_c, up_c, at_q, one_c) =
              parent_of blocks rooted c block_c at_c (omega arith) in
            let off : ¬ Precedes blocks t curr = λ on. apart (
              one_at_depth blocks rooted c t curr block_c block_t start at_c at_t at_s level on_c
                on) in
            let r =
              meet_ends root curr target start at_s fuel q (some t) p parent_c parent_t at_q at_p
                (omega arith) (omega arith)
                (Precedes-trans blocks rooted q c curr (further at_c up_c same_block) on_c)
                (Precedes-trans blocks rooted p t target (further at_t up_t same_block) on_t)
                (inr (t, block_t, refl, at_t, up_t, on_t, off)) in
            record {
              prev = r.prev;
              t = r.t;
              returns =
                  meet_step fuel c prev t p q block_c block_t ne at_t up_t at_c up_c ∙ r.returns;
              common = r.common;
              stepped = r.stepped;
            }
      ]
