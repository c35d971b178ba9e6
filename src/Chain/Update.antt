-- ===== src/Chain/Update.antt =====
-- block.c and chain.c: what holds of the state of a node after each block that joins it.
use pettycoin.Base.{
  ℕ, zero, suc, ◌+◌, ◌≤◌, ◌≡◌, ◌⊎◌, inl, inr, refl, sym, ap, ◌∙◌, subst, Option, some, [], arith,
  ◌==◌, Bool-cases, some-injective, length, get_elem?, get_elem?-some, get_elem?-lt,
}
use pettycoin.Block.{Block, block_all_known}
use pettycoin.Shard.{num_shards}
use pettycoin.State.{State}
use pettycoin.Chain.{Compared, less, same, more, cmp_work, best_of}
use pettycoin.Chain.Tree.{SameTree, SameTree-refl, SameTree-trans}
use pettycoin.Chain.Heads.{IsClean, Heads}
use pettycoin.Chain.Flags.{IsReady}
use pettycoin.Chain.Moves.{
  Nowhere, Core, IsPreferred, Moved, set_preferred_chain_ends, order_block_pointers_ends,
  update_known_ends,
}
use pettycoin.Chain.NewBlock.{
  upcoming, new_longest, longest_step, update_block_ptrs_new_shard_or_empty, empty_shards,
  update_block_ptrs_new_block,
}

new_longest_ends :
    (Open : ℕ → Type 0) (state : State) (block : Block)
    → Core Open state
    → Moved Open state (new_longest state block)
unfolding new_longest
new_longest_ends Open state block c =
    let voted = record state {
      upcoming_features = upcoming block.pending_features state.upcoming_features;
    } in
    let (ordered, moved, is, same_blocks, same_levels, c1) =
      order_block_pointers_ends Open voted
        (record { ready = c.ready; best_chains = c.best_chains }) in
    let (m, p) = set_preferred_chain_ends Open ordered c1 in
    record {
      next = m.next;
      returns = rw is m.returns;
      same = subst (λ bs. SameTree bs m.next.blocks) same_blocks m.same;
      levels = m.levels ∙ same_levels;
      core = m.core;
    }

-- The switch on the comparison, for a state in which the best chains are right once it is done.
longest_step_ends :
    (Open : ℕ → Type 0) (how : Compared) (state : State) (b : ℕ) (block : Block)
    → IsReady Open state.blocks state.longest_knowns
    → Heads IsClean state.blocks (best_of how b state.longest_chains)
    → Moved Open state (longest_step how state b block)
unfolding longest_step best_of
longest_step_ends Open less state b block r h = record {
  next = state;
  returns = refl;
  same = SameTree-refl state.blocks;
  levels = refl;
  core = record { ready = r; best_chains = h };
}
longest_step_ends Open same state b block r h =
    let m =
      new_longest_ends Open (record state { longest_chains = best_of same b state.longest_chains })
        block (record { ready = r; best_chains = h }) in
    record { next = m.next; returns = m.returns; same = m.same; levels = m.levels; core = m.core }
longest_step_ends Open more state b block r h =
    let m =
      new_longest_ends Open (record state { longest_chains = best_of more b state.longest_chains })
        block (record { ready = r; best_chains = h }) in
    record { next = m.next; returns = m.returns; same = m.same; levels = m.levels; core = m.core }

module _ (recheck_merkles : State → ℕ → Option State) where
  -- A block without children is not checked again.
  empty_shards_idle :
      (i count b : ℕ) (state : State) (block : Block)
      → get_elem? state.blocks b ≡ some block
      → block.children ≡ []
      → i + count ≤ length block.shard_nums
      → empty_shards recheck_merkles i count state b ≡ some state
  unfolding empty_shards update_block_ptrs_new_shard_or_empty
  empty_shards_idle i zero b state block at none_yet h = refl
  empty_shards_idle i (suc count) b state block at none_yet h =
      let (num, at_i) = get_elem?-some block.shard_nums i (omega arith) in
      let rest = empty_shards_idle (i + 1) count b state block at none_yet (omega arith) in
      elim (Bool-cases (num == 0)) [
        | inl eq ↦ rw (at, at_i, eq, none_yet) rest
        | inr ne ↦ rw (at, at_i, ne) rest
      ]

  -- The pointers after a block without children that may have to be flagged, and does not yet count
  -- among the longest chains.
  pub update_block_ptrs_new_block_ends :
      (state : State) (b : ℕ) (block best : Block) (first : ℕ)
      → IsReady (λ x. (x ≡ b) ⊎ Nowhere x) state.blocks state.longest_knowns
      → get_elem? state.blocks b ≡ some block
      → block.children ≡ []
      → get_elem? state.longest_chains 0 ≡ some first
      → get_elem? state.blocks first ≡ some best
      → Heads IsClean state.blocks (best_of (cmp_work block best) b state.longest_chains)
      → (m : Moved Nowhere state (update_block_ptrs_new_block recheck_merkles state b))
        × IsPreferred m.next
  unfolding update_block_ptrs_new_block
  update_block_ptrs_new_block_ends state b block best first r at none_yet at_first at_best h =
      let Open : ℕ → Type 0 = λ x. (x ≡ b) ⊎ Nowhere x in
      let l = longest_step_ends Open (cmp_work block best) state b block r h in
      let (now, at_now, like) = l.same.to b block at in
      let (x, nums) = l.core.ready.tree.shaped b now at_now in
      let idle =
        empty_shards_idle 0 (num_shards block.hdr) b l.next now at_now (like.children ∙ none_yet)
          (omega (arith, nums, ap num_shards like.hdr)) in
      elim (Bool-cases (block_all_known now)) [
        | inl all ↦
            let (changed, known, is, same_tree, levels, c) =
              update_known_ends l.next b (get_elem?-lt l.next.blocks b at_now) l.core.ready
                l.core.best_chains in
            let (m, p) = set_preferred_chain_ends Nowhere known c in
            (
              record {
                next = m.next;
                returns = rw (at, at_first, at_best, l.returns, idle, at_now, all, is) m.returns;
                same =
                    SameTree-trans state.blocks l.next.blocks m.next.blocks l.same
                      (SameTree-trans l.next.blocks known.blocks m.next.blocks same_tree m.same);
                levels = m.levels ∙ levels ∙ l.levels;
                core = m.core;
              },
              p,
            )
        | inr part ↦
            let c : Core Nowhere l.next = record {
              ready = record {
                tree = l.core.ready.tree;
                best_knowns = l.core.ready.best_knowns;
                honest = l.core.ready.honest;
                complete = λ y a at_y ok all up. elim (l.core.ready.complete y a at_y ok all up) [
                  | inl k ↦ inl k
                  | inr (inr o) ↦ inr o
                  | inr (inl e) ↦
                      let this_one : now ≡ a =
                        some-injective (sym at_now ∙ ap (get_elem? l.next.blocks) (sym e) ∙ at_y) in
                      absurd (cc (ap block_all_known this_one, all, part))
                ];
              };
              best_chains = l.core.best_chains;
            } in
            let (m, p) = set_preferred_chain_ends Nowhere l.next c in
            (
              record {
                next = m.next;
                returns = rw (at, at_first, at_best, l.returns, idle, at_now, part) m.returns;
                same = SameTree-trans state.blocks l.next.blocks m.next.blocks l.same m.same;
                levels = m.levels ∙ l.levels;
                core = m.core;
              },
              p,
            )
      ]
