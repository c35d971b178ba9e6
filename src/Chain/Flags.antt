-- ===== src/Chain/Flags.antt =====
-- chain.c: what `update_known_recursive` makes of the flags of the blocks and of the longest known ones.
use pettycoin.Base.{
  ℕ, ◌≡◌, ◌≢◌, ◌⊎◌, inl, inr, refl, sym, ap, ◌∙◌, Bool, true, false, Option, none, some, List,
  arith, ◌==◌, ==→eq, Bool-cases, >>=-eq-some, some-injective, get_elem?, set, get_elem?-lt,
  get_elem?-set, get_elem?-set_other,
}
use pettycoin.Block.{Block, block_all_known}
use pettycoin.State.{State}
use pettycoin.Chain.Tree.{IsTree, Alike-known, SameTree, SameTree-set}
use pettycoin.Chain.Heads.{IsKnown, Head, Heads}
use pettycoin.Chain.Pointers.{prev_all_known, known}

-- The flags tell the truth: a block that is flagged has all its transactions, and a flagged parent.
pub record IsHonest (blocks : List Block) : Type 0 where
  pub closed :
      (b : ℕ) (block : Block)
      → get_elem? blocks b ≡ some block
      → block.all_known ≡ true
      → prev_all_known blocks block.prev ≡ some true
  pub truthful :
      (b : ℕ) (block : Block)
      → get_elem? blocks b ≡ some block
      → block.all_known ≡ true
      → block_all_known block ≡ true

-- Every block without a complaint that could be flagged is flagged, or is one of the open ones.
abbrev pub IsComplete : (ℕ → Type 0) → List Block → Type 0
IsComplete Open blocks =
    (b : ℕ) (block : Block)
    → get_elem? blocks b ≡ some block
    → block.complaint ≡ false
    → block_all_known block ≡ true
    → prev_all_known blocks block.prev ≡ some true
    → (block.all_known ≡ true) ⊎ Open b

pub record IsReady (Open : ℕ → Type 0) (blocks : List Block) (knowns : List ℕ) : Type 0 where
  pub tree : IsTree blocks
  pub best_knowns : Heads IsKnown blocks knowns
  pub honest : IsHonest blocks
  pub complete : IsComplete Open blocks

abbrev pub learned : State → List Block → List ℕ → State
learned state blocks knowns = record state { blocks = blocks; longest_knowns = knowns }

-- What comes back: a state that differs in flags and in the longest known blocks.
pub record Learned (Open : ℕ → Type 0) (state : State) (found : Option (State × Bool))
    : Type 0 where
  pub blocks : List Block
  pub knowns : List ℕ
  pub changed : Bool
  pub returns : found ≡ some (learned state blocks knowns, changed)
  pub same : SameTree state.blocks blocks
  pub ready : IsReady Open blocks knowns

abbrev pub Listed : List ℕ → ℕ → Type 0
Listed cs x = (j : ℕ) × (get_elem? cs j ≡ some x)

prev_all_known-SameTree :
    (old new : List Block) (prev : Option ℕ)
    → SameTree old new
    → prev_all_known old prev ≡ some true
    → prev_all_known new prev ≡ some true
unfolding prev_all_known
prev_all_known-SameTree old new none s h = refl
prev_all_known-SameTree old new (some p) s h =
    let (parent, at, flag) = >>=-eq-some _ _ h in
    let (parent', at', like) = s.to p parent at in
    rw at' (ap some (like.keeps (some-injective flag)))

block_all_known-known : (block : Block) → block_all_known (known block) ≡ block_all_known block
unfolding block_all_known
block_all_known-known block = refl

module _ (blocks : List Block) (b : ℕ) (block : Block) (at : get_elem? blocks b ≡ some block) where
  abbrev pub flagged : List Block
  flagged = set blocks b (known block)

  pub flagged-SameTree : SameTree blocks flagged
  flagged-SameTree = SameTree-set blocks b block (known block) at (Alike-known block)

  -- What stands in the list after the flag is set.
  pub flagged_cases :
      (x : ℕ) (a : Block)
      → get_elem? flagged x ≡ some a
      → ((x ≡ b) × (a ≡ known block)) ⊎ ((x ≢ b) × (get_elem? blocks x ≡ some a))
  flagged_cases x a at_a = elim (Bool-cases (b == x)) [
    | inl eq ↦
        let same_place : b ≡ x = ==→eq b x eq in
        inl (
          sym same_place,
          some-injective (
              sym at_a
              ∙ ap (get_elem? flagged) (sym same_place)
              ∙ get_elem?-set blocks b (known block) (get_elem?-lt blocks b at)),
        )
    | inr ne ↦ inr (
      λ e. ground (arith, e),
      sym (get_elem?-set_other blocks b x (known block) (λ e. ground (arith, e))) ∙ at_a,
    )
  ]

  prev_all_known-flagged :
      (prev : Option ℕ)
      → prev_all_known flagged prev ≡ some true
      → (prev ≡ some b) ⊎ (prev_all_known blocks prev ≡ some true)
  unfolding prev_all_known
  prev_all_known-flagged none h = inr refl
  prev_all_known-flagged (some p) h =
      let (parent, at_p, flag) = >>=-eq-some _ _ h in
      elim (flagged_cases p parent at_p) [
        | inl (e, is) ↦ inl (ap some e)
        | inr (ne, at') ↦ inr (rw at' flag)
      ]

  pub flagged-IsHonest :
      prev_all_known blocks block.prev ≡ some true
      → block_all_known block ≡ true
      → IsHonest blocks
      → IsHonest flagged
  flagged-IsHonest up all h = record {
    closed = λ x a at_a k. elim (flagged_cases x a at_a) [
      | inl (e, is) ↦
          ap (λ (z : Block). prev_all_known flagged z.prev) is
          ∙ prev_all_known-SameTree blocks flagged block.prev flagged-SameTree up
      | inr (ne, at') ↦
          prev_all_known-SameTree blocks flagged a.prev flagged-SameTree (h.closed x a at' k)
    ];
    truthful = λ x a at_a k. elim (flagged_cases x a at_a) [
      | inl (e, is) ↦ ap block_all_known is ∙ block_all_known-known block ∙ all
      | inr (ne, at') ↦ h.truthful x a at' k
    ];
  }

  -- Now the children of the block are open instead of the block.
  pub flagged-IsComplete :
      (Open : ℕ → Type 0)
      → IsTree blocks
      → IsComplete (λ x. (x ≡ b) ⊎ Open x) blocks
      → IsComplete (λ x. Listed block.children x ⊎ Open x) flagged
  flagged-IsComplete Open t h x a at_a ok all up = elim (flagged_cases x a at_a) [
    | inl (e, is) ↦ inl (ap (λ (z : Block). z.all_known) is)
    | inr (ne, at') ↦ elim (prev_all_known-flagged a.prev up) [
      | inl under ↦ inr (inl (t.listed x b a block at' under at))
      | inr up' ↦ elim (h x a at' ok all up') [
        | inl k ↦ inl k
        | inr (inl e) ↦ absurd (ne e)
        | inr (inr o) ↦ inr (inr o)
      ]
    ]
  ]

  pub flagged-fresh :
      (x : ℕ) (a : Block)
      → get_elem? flagged x ≡ some a
      → IsKnown a
      → (x ≡ b) ⊎ Head IsKnown blocks a.total_work x
  flagged-fresh x a at_a k = elim (flagged_cases x a at_a) [
    | inl (e, is) ↦ inl e
    | inr (ne, at') ↦ inr (record { block = a; at = at'; is_work = refl; counts = k })
  ]

  pub flagged_at : get_elem? flagged b ≡ some (known block)
  flagged_at = get_elem?-set blocks b (known block) (get_elem?-lt blocks b at)
