-- ===== src/Chain/Valid.antt =====
-- block.c: what holds of the state of a node, and that it does after a block has joined.
use pettycoin.Base.{
  ℕ, ◌≡◌, ◌⊎◌, inl, inr, sym, ap, ◌∙◌, true, false, Option, some, List, arith, some-injective,
  length, get_elem?, get_elem?-lt,
}
use pettycoin.Block.{Block, depth_of}
use pettycoin.State.{State}
use pettycoin.Chain.Best.{HasWork, Usable, this, below}
use pettycoin.Chain.Tree.{IsTree, SameTree, SameTree-from}
use pettycoin.Chain.Heads.{IsClean, Heads-best_of, first-Head, move-Head}
use pettycoin.Chain.Flags.{IsReady}
use pettycoin.Chain.Moves.{Nowhere, Core, IsPreferred}
use pettycoin.Chain.Family.{family, Fits, family_at, family_to, family_from}
use pettycoin.Chain.Joined.{
  family-IsReady, Keeps-IsClean, fresh-IsClean, family-best_chains, Usable-before, Usable-after,
}
use pettycoin.Chain.Levels.{IsLeveled, Placed}
use pettycoin.Chain.Update.{update_block_ptrs_new_block_ends}
use pettycoin.Chain.NewBlock.{update_block_ptrs_new_block}

-- The pointers of the state: the arrays hold the blocks with the most work of those without a problem,
-- and of those of them that are all known; the flags of the blocks are right, the preferred chain is
-- the best one after the first known block, and each block is in the list of its depth.
pub record IsValid (state : State) : Type 0 where
  pub core : Core Nowhere state
  pub preferred : IsPreferred state
  pub leveled : IsLeveled state.blocks state.block_depth

SameTree-IsLeveled :
    (old new : List Block) (block_depth : List (List ℕ))
    → SameTree old new
    → IsLeveled old block_depth
    → IsLeveled new block_depth
SameTree-IsLeveled old new block_depth s l = record {
  held = λ b block at.
      let (a, at_a, like) = SameTree-from old new s b block at in
      rw (ap (λ h. h.depth) like.hdr) (l.held b a at_a);
  only = λ d j b level at at_j.
      let (a, at_a, deep) = l.only d j b level at at_j in
      let (b', at_b, like) = s.to b a at_a in (b', at_b, ap (λ h. h.depth) like.hdr ∙ deep);
}

module _ (state : State) (v : IsValid state) (prev : ℕ) (parent : Block)
    (at_prev : get_elem? state.blocks prev ≡ some parent) (block : Block)
    (f : Fits state.blocks v.core.ready.tree prev parent at_prev block)
    (levels : List (List ℕ)) where
  abbrev tree : IsTree state.blocks
  tree = v.core.ready.tree

  abbrev blocks : List Block
  blocks = family state.blocks tree prev parent at_prev block

  -- The state in which the new block is in its lists, and the pointers are as they were.
  abbrev pub linked : State
  linked = record state { blocks = blocks; block_depth = levels }

  family-IsLeveled :
      (p : Placed state.block_depth (depth_of block) (length state.blocks))
      → IsLeveled blocks p.next
  family-IsLeveled p = record {
    held = λ b own at. elim (family_from state.blocks tree prev parent at_prev block b own at) [
      | inl (last, new) ↦
          let (level, j, at_l, at_j) = p.new in
          (
            level,
            j,
            ap (λ (z : Block). get_elem? p.next (depth_of z)) new ∙ at_l,
            at_j ∙ ap some (sym last),
          )
      | inr (a, at_a, g) ↦
          let (level, j, at_l, at_j) = v.leveled.held b a at_a in
          let (level', j', at_l', at_j') = p.keeps (depth_of a) j b level at_l at_j in
          (level', j', ap (λ h. get_elem? p.next h.depth) g.hdr ∙ at_l', at_j')
    ];
    only = λ d j b level at at_j. elim (p.only d j b level at at_j) [
      | inl (deep, last) ↦ (
        block,
        ap (get_elem? blocks) last ∙ family_at state.blocks tree prev parent at_prev block,
        sym deep,
      )
      | inr (level', at_l, at_j') ↦
          let (a, at_a, deep) = v.leveled.only d j b level' at_l at_j' in
          let (b', at_b, g) = family_to state.blocks tree prev parent at_prev block b a at_a in
          (b', at_b, ap (λ h. h.depth) g.hdr ∙ deep)
    ];
  }

  -- A block with a problem changes no pointer.
  pub linked_bad :
      (p : Placed state.block_depth (depth_of block) (length state.blocks))
      → levels ≡ p.next
      → block.complaint ≡ true
      → IsValid linked
  linked_bad p is bad = record {
    core = record {
      ready = record {
        tree = ready.tree;
        best_knowns = ready.best_knowns;
        honest = ready.honest;
        complete = λ x a at ok all up. elim (ready.complete x a at ok all up) [
          | inl k ↦ inl k
          | inr (inr o) ↦ inr o
          | inr (inl last) ↦
              let same : block ≡ a = some-injective (
                sym (family_at state.blocks tree prev parent at_prev block)
                ∙ ap (get_elem? blocks) (sym last)
                ∙ at) in
              absurd (cc (ap (λ (z : Block). z.complaint) same, bad, ok))
        ];
      };
      best_chains =
          family-best_chains state.blocks tree prev parent at_prev block f bad state.longest_chains
            v.core.best_chains;
    };
    preferred =
        let (a, at_a, work) = v.preferred.work in
        let (b, at_b, g) = family_to state.blocks tree prev parent at_prev block _ a at_a in
        record {
          known = v.preferred.known;
          first = v.preferred.first;
          best = v.preferred.best;
          work = (b, at_b, g.work ∙ work);
          below = elim v.preferred.below [
            | inl same ↦ inl same
            | inr u ↦ inr (Usable-after state.blocks tree prev parent at_prev block f bad _ _ u)
          ];
          most = λ d w u has.
              let u' = Usable-before state.blocks tree prev parent at_prev block f bad _ d u in
              v.preferred.most d w u' (work_before d w u has);
        };
    leveled = rw is (family-IsLeveled p);
  }
    where
      ready : IsReady (λ x. (x ≡ length state.blocks) ⊎ Nowhere x) blocks state.longest_knowns
      ready =
          family-IsReady state.blocks tree prev parent at_prev block f state.longest_knowns
            v.core.ready

      work_before :
          (d w : ℕ)
          → Usable blocks v.preferred.known d
          → HasWork blocks w d
          → HasWork state.blocks w d
      work_before d w u (b, at, is_w) =
          elim (family_from state.blocks tree prev parent at_prev block d b at) [
            | inr (a, at_a, g) ↦ (a, at_a, sym g.work ∙ is_w)
            | inl (last, new) ↦
                let (a, at_a) =
                  stored _ d
                    (Usable-before state.blocks tree prev parent at_prev block f bad _ d u) in
                absurd (omega (arith, last, get_elem?-lt state.blocks d at_a))
          ]
        where
          stored :
              (b d : ℕ)
              → Usable state.blocks b d
              → (a : Block) × (get_elem? state.blocks d ≡ some a)
          stored b d (this {block = a} at ok) = (a, at)
          stored b d (below j at ok child u) = stored _ d u

  -- For a block without a problem the pointers are updated.
  pub linked_good :
      (recheck_merkles : State → ℕ → Option State)
      → (p : Placed state.block_depth (depth_of block) (length state.blocks)) → levels ≡ p.next
      → block.complaint ≡ false
      → (next : State) × (update_block_ptrs_new_block recheck_merkles linked (length state.blocks)
          ≡ some next)
        × IsValid next
        × SameTree blocks next.blocks
  linked_good recheck_merkles p is ok =
      let (first, at_first, head) =
        first-Head IsClean state.blocks state.longest_chains v.core.best_chains in
      let keeps = Keeps-IsClean state.blocks tree prev parent at_prev block f in
      let moved = move-Head IsClean state.blocks blocks v.core.best_chains.work first keeps head in
      let there = family_at state.blocks tree prev parent at_prev block in
      let (m, pref) =
        update_block_ptrs_new_block_ends recheck_merkles linked (length state.blocks) block
          moved.block first
          (family-IsReady state.blocks tree prev parent at_prev block f state.longest_knowns
            v.core.ready)
          there f.childless at_first moved.at
          (Heads-best_of IsClean state.blocks blocks state.longest_chains (length state.blocks)
            block moved.block v.core.best_chains there ok keeps
            (fresh-IsClean state.blocks tree prev parent at_prev block f) moved.is_work) in
      (
        m.next,
        m.returns,
        record {
          core = m.core;
          preferred = pref;
          leveled =
              rw m.levels (
                SameTree-IsLeveled blocks m.next.blocks levels m.same (rw is (family-IsLeveled p)));
        },
        m.same,
      )
