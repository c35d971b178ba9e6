-- ===== src/Chain/Joined.antt =====
-- block.c: the flags of the blocks and the arrays of the best ones when a block joins the tree.
use pettycoin.Base.{
  ℕ, ◌≡◌, ◌⊎◌, inl, inr, refl, sym, ap, ◌∙◌, true, false, Option, none, some, List, >>=-eq-some,
  some-injective, length, get_elem?,
}
use pettycoin.Block.{Block, block_all_known}
use pettycoin.Chain.Best.{Usable, this, below}
use pettycoin.Chain.Tree.{IsTree}
use pettycoin.Chain.Heads.{IsClean, IsKnown, Head, Heads, Keeps, Heads-keep}
use pettycoin.Chain.Flags.{IsHonest, IsComplete, IsReady}
use pettycoin.Chain.Pointers.{prev_all_known}
use pettycoin.Chain.Moves.{Nowhere}
use pettycoin.Chain.Family.{family, Fits, Grown, family_at, family_to, family_from, family-IsTree}

module _ (blocks : List Block) (t : IsTree blocks) (prev : ℕ) (parent : Block)
    (at_prev : get_elem? blocks prev ≡ some parent) (block : Block)
    (f : Fits blocks t prev parent at_prev block) where
  abbrev all : List Block
  all = family blocks t prev parent at_prev block

  abbrev to :
      (x : ℕ) (a : Block)
      → get_elem? blocks x ≡ some a
      → (b : Block) × (get_elem? all x ≡ some b) × Grown blocks t prev parent at_prev block x a b
  to = family_to blocks t prev parent at_prev block

  abbrev from :
      (x : ℕ) (b : Block)
      → get_elem? all x ≡ some b
      → ((x ≡ length blocks) × (b ≡ block))
        ⊎ ((a : Block) × (get_elem? blocks x ≡ some a)
            × Grown blocks t prev parent at_prev block x a b)
  from = family_from blocks t prev parent at_prev block

  block_all_known-Grown :
      (x : ℕ) (a b : Block)
      → Grown blocks t prev parent at_prev block x a b
      → block_all_known b ≡ block_all_known a
  unfolding block_all_known
  block_all_known-Grown x a b g = rw (g.shard, g.hdr) refl

  up_known : (p : Option ℕ) → prev_all_known blocks p ≡ some true → prev_all_known all p ≡ some true
  unfolding prev_all_known
  up_known none h = refl
  up_known (some p) h =
      let (a, at, flag) = >>=-eq-some _ _ h in
      let (b, at_b, g) = to p a at in rw at_b (ap some g.all_known ∙ flag)

  was_known :
      (p : Option ℕ) → prev_all_known all p ≡ some true → prev_all_known blocks p ≡ some true
  unfolding prev_all_known
  was_known none h = refl
  was_known (some p) h =
      let (b, at, flag) = >>=-eq-some _ _ h in
      elim (from p b at) [
        | inl (last, new) ↦
            absurd (cc (ap (λ (z : Block). z.all_known) new, some-injective flag, f.not_known))
        | inr (a, at_a, g) ↦ rw at_a (ap some (sym g.all_known) ∙ flag)
      ]

  pub family-IsHonest : IsHonest blocks → IsHonest all
  family-IsHonest h = record {
    closed = λ x b at k. elim (from x b at) [
      | inl (last, new) ↦ absurd (cc (ap (λ (z : Block). z.all_known) new, k, f.not_known))
      | inr (a, at_a, g) ↦
          ap (prev_all_known all) g.up ∙ up_known a.prev (h.closed x a at_a (sym g.all_known ∙ k))
    ];
    truthful = λ x b at k. elim (from x b at) [
      | inl (last, new) ↦ absurd (cc (ap (λ (z : Block). z.all_known) new, k, f.not_known))
      | inr (a, at_a, g) ↦ block_all_known-Grown x a b g ∙ h.truthful x a at_a (sym g.all_known ∙ k)
    ];
  }

  -- Only the new block may have to be flagged.
  pub family-IsComplete :
      IsComplete Nowhere blocks → IsComplete (λ x. (x ≡ length blocks) ⊎ Nowhere x) all
  family-IsComplete h x b at ok known up = elim (from x b at) [
    | inl (last, new) ↦ inr (inl last)
    | inr (a, at_a, g) ↦
        elim (h x a at_a (sym g.complaint ∙ ok) (sym (block_all_known-Grown x a b g) ∙ known)
          (was_known a.prev (sym (ap (prev_all_known all) g.up) ∙ up))) [
            | inl k ↦ inl (g.all_known ∙ k)
            | inr o ↦ inr (inr o)
          ]
  ]

  pub Keeps-IsClean : Keeps IsClean blocks all
  Keeps-IsClean x a at c =
      let (b, at_b, g) = to x a at in
      record { block = b; at = at_b; is_work = g.work; counts = g.complaint ∙ c }

  pub fresh-IsClean :
      (x : ℕ) (b : Block)
      → get_elem? all x ≡ some b
      → IsClean b
      → (x ≡ length blocks) ⊎ Head IsClean blocks b.total_work x
  fresh-IsClean x b at c = elim (from x b at) [
    | inl (last, new) ↦ inl last
    | inr (a, at_a, g) ↦
        inr (record { block = a; at = at_a; is_work = sym g.work; counts = sym g.complaint ∙ c })
  ]

  Keeps-IsKnown : Keeps IsKnown blocks all
  Keeps-IsKnown x a at c =
      let (b, at_b, g) = to x a at in
      record {
        block = b;
        at = at_b;
        is_work = g.work;
        counts = (g.all_known ∙ c.0, g.complaint ∙ c.1);
      }

  IsKnown-before : Keeps IsKnown all blocks
  IsKnown-before x b at c = elim (from x b at) [
    | inl (last, new) ↦ absurd (cc (ap (λ (z : Block). z.all_known) new, c.0, f.not_known))
    | inr (a, at_a, g) ↦ record {
      block = a;
      at = at_a;
      is_work = sym g.work;
      counts = (sym g.all_known ∙ c.0, sym g.complaint ∙ c.1);
    }
  ]

  pub family-best_knowns :
      (knowns : List ℕ) → Heads IsKnown blocks knowns → Heads IsKnown all knowns
  family-best_knowns knowns h = Heads-keep IsKnown blocks all knowns Keeps-IsKnown IsKnown-before h

  pub family-IsReady :
      (knowns : List ℕ)
      → IsReady Nowhere blocks knowns
      → IsReady (λ x. (x ≡ length blocks) ⊎ Nowhere x) all knowns
  family-IsReady knowns r = record {
    tree = family-IsTree blocks t prev parent at_prev block f;
    best_knowns = family-best_knowns knowns r.best_knowns;
    honest = family-IsHonest r.honest;
    complete = family-IsComplete r.complete;
  }

  -- A new block with a problem does not count, and no usable block is after it.
  module _ (bad : block.complaint ≡ true) where
    IsClean-before : Keeps IsClean all blocks
    IsClean-before x b at c = elim (fresh-IsClean x b at c) [
      | inr h ↦ h
      | inl last ↦
          let same : block ≡ b = some-injective (
            sym (family_at blocks t prev parent at_prev block)
            ∙ ap (get_elem? all) (sym last)
            ∙ at) in
          absurd (cc (ap (λ (z : Block). z.complaint) same, bad, c))
    ]

    pub family-best_chains :
        (chains : List ℕ) → Heads IsClean blocks chains → Heads IsClean all chains
    family-best_chains chains h =
        Heads-keep IsClean blocks all chains Keeps-IsClean IsClean-before h

    -- Before and after, the same blocks are usable.
    clean_old :
        (x : ℕ) (b : Block)
        → get_elem? all x ≡ some b
        → b.complaint ≡ false
        → (a : Block) × (get_elem? blocks x ≡ some a)
          × (a.complaint ≡ false)
          × (b.children ≡ a.children)
    clean_old x b at ok = elim (from x b at) [
      | inl (last, new) ↦ absurd (cc (ap (λ (z : Block). z.complaint) new, bad, ok))
      | inr (a, at_a, g) ↦ elim g.children [
        | inl same ↦ (a, at_a, sym g.complaint ∙ ok, same)
        | inr (is, same, more) ↦
            absurd (cc (ap (λ (z : Block). z.complaint) same, f.complaint, bad, g.complaint, ok))
      ]
    ]

    pub Usable-before : (b d : ℕ) → Usable all b d → Usable blocks b d
    Usable-before b d (this at ok) =
        let (a, at_a, ok_a, same) = clean_old b _ at ok in this at_a ok_a
    Usable-before b d (below j {c = c} at ok child u) =
        let (a, at_a, ok_a, same) = clean_old b _ at ok in
        below j at_a ok_a (sym (ap (λ cs. get_elem? cs j) same) ∙ child) (Usable-before c d u)

    pub Usable-after : (b d : ℕ) → Usable blocks b d → Usable all b d
    Usable-after b d (this at ok) = let (a, at_a, g) = to b _ at in this at_a (g.complaint ∙ ok)
    Usable-after b d (below j {c = c} at ok child u) =
        let (a, at_a, g) = to b _ at in
        let (o, at_o, ok_o, same) = clean_old b a at_a (g.complaint ∙ ok) in
        let same_block = some-injective (sym at_o ∙ at) in
        below j at_a (g.complaint ∙ ok)
          (ap (λ cs. get_elem? cs j) (same ∙ ap (λ (z : Block). z.children) same_block) ∙ child)
          (Usable-after c d u)
