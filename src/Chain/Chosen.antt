-- ===== src/Chain/Chosen.antt =====
-- chain.c: which blocks the pointers of a reached state choose.
use pettycoin.Base.{
  ℕ, zero, suc, ◌<◌, ◌≤◌, ◌≡◌, inl, inr, refl, sym, ap, ◌∙◌, true, Option, none, some, List, [],
  ◌∷◌, arith, Bool-cases, some-injective, length, get_elem?, All,
}
use pettycoin.Crypto.{Crypto}
use pettycoin.Block.{Block, block_all_known}
use pettycoin.State.{State, new_state}
use pettycoin.Chain.Best.{HasWork}
use pettycoin.Chain.Tree.{IsTree}
use pettycoin.Chain.Heads.{IsClean, IsKnown, Head}
use pettycoin.Chain.Flags.{IsHonest, IsComplete}
use pettycoin.Chain.Moves.{Nowhere}
use pettycoin.Chain.Reach.{IsGenesis, Reaches, Reaches-IsValid}
use pettycoin.Chain.Start.{new_state-IsValid}
use pettycoin.Chain.Pointers.{prev_all_known}

module _ (blocks : List Block) where
  -- The block has no problem.
  abbrev pub Sound : ℕ → Type 0
  Sound b = (block : Block) × (get_elem? blocks b ≡ some block) × IsClean block

  -- No problem, and all transactions of the block and of the blocks behind it are there.
  pub data FullyKnown : ℕ → Type 0 where
    root :
        {b : ℕ} {block : Block}
        → get_elem? blocks b ≡ some block
        → IsClean block
        → block_all_known block ≡ true
        → block.prev ≡ none
        → FullyKnown b
    onto :
        {b p : ℕ} {block : Block}
        → get_elem? blocks b ≡ some block
        → IsClean block
        → block_all_known block ≡ true
        → block.prev ≡ some p
        → FullyKnown p
        → FullyKnown b

  -- The block is a good one, and no good one has more work.
  abbrev pub IsChosen : (ℕ → Type 0) → ℕ → Type 0
  IsChosen Good b =
      (block : Block) × (get_elem? blocks b ≡ some block)
      × Good b
      × ((d work : ℕ) → Good d → HasWork blocks work d → work ≤ block.total_work)

  FullyKnown-IsKnown :
      IsComplete Nowhere blocks
      → (b : ℕ) → FullyKnown b
      → (block : Block) × (get_elem? blocks b ≡ some block) × IsKnown block
  unfolding prev_all_known
  FullyKnown-IsKnown h b (root {block = block} at ok all up) =
      elim (h b block at ok all (rw up refl)) [
        | inl k ↦ (block, at, (k, ok))
        | inr o ↦ absurd (omega (arith, o))
      ]
  FullyKnown-IsKnown h b (onto {p = p} {block = block} at ok all up k) =
      let (parent, at_p, flags) = FullyKnown-IsKnown h p k in
      elim (h b block at ok all (rw (up, at_p) (ap some flags.0))) [
        | inl k' ↦ (block, at, (k', ok))
        | inr o ↦ absurd (omega (arith, o))
      ]

  IsKnown-FullyKnown :
      IsTree blocks
      → IsHonest blocks
      → (fuel b : ℕ) (block : Block) → b < fuel
      → get_elem? blocks b ≡ some block
      → IsKnown block
      → FullyKnown b
  unfolding prev_all_known
  IsKnown-FullyKnown t h zero b block lt at k = absurd (omega arith)
  IsKnown-FullyKnown t h (suc fuel) b block lt at k = elim (t.rooted b block at) [
    | inl is_root ↦ root at k.1 (h.truthful b block at k.0) is_root.0
    | inr (p, parent, up, at_p, deep) ↦
        let flag : parent.all_known ≡ true =
          some-injective (parent_flag p parent up at_p (h.closed b block at k.0)) in
        onto at k.1 (h.truthful b block at k.0) up (
          IsKnown-FullyKnown t h fuel p parent (omega (arith, t.older b p block at up)) at_p (
            flag,
            elim (Bool-cases parent.complaint) [
              | inr ok ↦ ok
              | inl bad ↦ absurd (cc (t.inherits b p block parent at up at_p bad, k.1))
            ],
          ))
  ]
    where
      parent_flag :
          (p : ℕ) (parent : Block)
          → block.prev ≡ some p
          → get_elem? blocks p ≡ some parent
          → prev_all_known blocks block.prev ≡ some true
          → some parent.all_known ≡ some true
      parent_flag p parent up at_p known = sym (rw (up, at_p) refl) ∙ known

  IsChosen-chains :
      (work : ℕ) (heads : List ℕ)
      → ((b : ℕ) (block : Block)
          → get_elem? blocks b ≡ some block
          → IsClean block
          → block.total_work ≤ work)
      → All (Head IsClean blocks work) heads
      → All (IsChosen Sound) heads
  IsChosen-chains work [] most each = _
  IsChosen-chains work (x ∷ xs) most each =
      let h = each.0 in
      (
        (
          h.block,
          h.at,
          (h.block, h.at, h.counts),
          λ d w good has.
              let same : good.0 ≡ has.0 = some-injective (sym good.1 ∙ has.1) in
              omega (
                arith,
                most d good.0 good.1 good.2,
                ap (λ (z : Block). z.total_work) same,
                has.2,
                h.is_work,
              ),
        ),
        IsChosen-chains work xs most each.1,
      )

  IsChosen-knowns :
      (work : ℕ) (heads : List ℕ)
      → IsTree blocks
      → IsHonest blocks
      → IsComplete Nowhere blocks
      → ((b : ℕ) (block : Block)
          → get_elem? blocks b ≡ some block
          → IsKnown block
          → block.total_work ≤ work)
      → All (Head IsKnown blocks work) heads
      → All (IsChosen FullyKnown) heads
  IsChosen-knowns work [] t honest complete most each = _
  IsChosen-knowns work (x ∷ xs) t honest complete most each =
      let h = each.0 in
      (
        (
          h.block,
          h.at,
          IsKnown-FullyKnown t honest (suc x) x h.block (omega arith) h.at h.counts,
          λ d w good has.
              let (own, at, k) = FullyKnown-IsKnown complete d good in
              let same : own ≡ has.0 = some-injective (sym at ∙ has.1) in
              omega
                (arith, most d own at k, ap (λ (z : Block). z.total_work) same, has.2, h.is_work),
        ),
        IsChosen-knowns work xs t honest complete most each.1,
      )

-- In every state that a node reaches from its genesis block by adding blocks: each of the longest
-- chains has no problem, and no block without one has more work; each of the longest known chains is
-- known in full, with its ancestors, and no block of which that holds has more work; and there is at
-- least one of each.
pub Reaches-IsChosen :
    ⦃c : Crypto⦄
    → (recheck_merkles : State → ℕ → Option State) (genesis : Block) (state : State)
    → IsGenesis genesis
    → Reaches recheck_merkles (new_state genesis) state
    → All (IsChosen state.blocks (Sound state.blocks)) state.longest_chains
      × All (IsChosen state.blocks (FullyKnown state.blocks)) state.longest_knowns
      × (0 < length state.longest_chains)
      × (0 < length state.longest_knowns)
Reaches-IsChosen recheck_merkles genesis state g r =
    let v =
      Reaches-IsValid recheck_merkles (new_state genesis) state (new_state-IsValid genesis g) r in
    let chains = v.core.best_chains in
    let ready = v.core.ready in
    (
      IsChosen-chains state.blocks chains.work state.longest_chains chains.most chains.each,
      IsChosen-knowns state.blocks ready.best_knowns.work state.longest_knowns ready.tree
          ready.honest ready.complete ready.best_knowns.most ready.best_knowns.each,
      chains.some_head,
      ready.best_knowns.some_head,
    )
