-- ===== src/Chain/Moves.antt =====
-- chain.c: `update_known` and `new_longest`, which put the pointers in order and take transactions back.
use pettycoin.Base.{
  ℕ, zero, suc, ◌+◌, ◌<◌, ◌≤◌, ◌≡◌, ◌≢◌, ◌⊎◌, inl, inr, refl, sym, ap, ◌∙◌, subst, Bool, true,
  Option, none, some, List, [], ◌∷◌, arith, ◌==◌, Bool-cases, some-injective, length, get_elem?,
  get_elem?-some, get_elem?-lt,
}
use pettycoin.Block.{Block, depth_of}
use pettycoin.Shard.{num_shards}
use pettycoin.State.{State, PendingBlock}
use pettycoin.Pending.{places_to_pending, shards_to_pending, block_to_pending}
use pettycoin.Chain.{update_preferred_chain}
use pettycoin.Chain.Precedes.{Precedes, same_block, further, back_one}
use pettycoin.Chain.Walks.{Precedes-trans}
use pettycoin.Chain.Step.{step_towards_descends}
use pettycoin.Chain.Best.{HasWork, Usable}
use pettycoin.Chain.Longest.{update_preferred_chain_most}
use pettycoin.Chain.Tree.{IsTree, SameTree, SameTree-refl, SameTree-trans, depth_low}
use pettycoin.Chain.Heads.{
  IsClean, IsKnown, Heads, Heads-keep, first-Head, SameTree-Keeps, SameTree-Keeps_back,
}
use pettycoin.Chain.Flags.{IsReady}
use pettycoin.Chain.Known.{update_known_recursive_learns}
use pettycoin.Chain.Connected.{order_block_pointers_orders}
use pettycoin.Chain.Pointers.{
  order_block_pointers, set_preferred_chain, steal_back, steal_pending_txs, recheck_later,
  knowns_moved, update_known,
}

-- No block is open.
abbrev pub Nowhere : ℕ → Type 0
Nowhere x = x < 0

-- What holds of the state but for the preferred chain, while these blocks may have to be flagged.
pub record Core (Open : ℕ → Type 0) (state : State) : Type 0 where
  pub ready : IsReady Open state.blocks state.longest_knowns
  pub best_chains : Heads IsClean state.blocks state.longest_chains

-- The preferred chain leads on from the first of the longest known blocks, and no usable block after
-- that one has more work.
pub record IsPreferred (state : State) : Type 0 where
  pub known : ℕ
  pub first : get_elem? state.longest_knowns 0 ≡ some known
  pub best : ℕ
  pub work : HasWork state.blocks best state.preferred_chain
  pub below : (state.preferred_chain ≡ known) ⊎ Usable state.blocks known state.preferred_chain
  pub most : (d v : ℕ) → Usable state.blocks known d → HasWork state.blocks v d → v ≤ best

-- What comes back: a state over the same tree of which the same holds.
pub record Moved (Open : ℕ → Type 0) (state : State) (found : Option State) : Type 0 where
  pub next : State
  pub returns : found ≡ some next
  pub same : SameTree state.blocks next.blocks
  pub levels : next.block_depth ≡ state.block_depth
  pub core : Core Open next

pub set_preferred_chain_ends :
    (Open : ℕ → Type 0) (state : State)
    → Core Open state
    → (m : Moved Open state (set_preferred_chain state)) × IsPreferred m.next
unfolding set_preferred_chain
set_preferred_chain_ends Open state c =
    let (f, at, head) = first-Head IsKnown state.blocks state.longest_knowns c.ready.best_knowns in
    let (chain, best, is, work, below, most) =
      from_first state.longest_knowns f at head.block head.at in
    (
      record {
        next = record state { preferred_chain = chain };
        returns = rw is refl;
        same = SameTree-refl state.blocks;
        levels = refl;
        core = record { ready = c.ready; best_chains = c.best_chains };
      },
      record { known = f; first = at; best = best; work = work; below = below; most = most },
    )
  where
    from_first :
        (knowns : List ℕ) (f : ℕ)
        → get_elem? knowns 0 ≡ some f
        → (block : Block) → get_elem? state.blocks f ≡ some block
        → (chain : ℕ) × (best : ℕ) × (update_preferred_chain state.blocks knowns ≡ some chain)
          × HasWork state.blocks best chain
          × ((chain ≡ f) ⊎ Usable state.blocks f chain)
          × ((d v : ℕ) → Usable state.blocks f d → HasWork state.blocks v d → v ≤ best)
    from_first [] f e block at = cc e
    from_first (k ∷ ks) f e block at =
        subst
          (λ x.
            (chain : ℕ) × (best : ℕ) × (update_preferred_chain state.blocks (k ∷ ks) ≡ some chain)
            × HasWork state.blocks best chain
            × ((chain ≡ x) ⊎ Usable state.blocks x chain)
            × ((d v : ℕ) → Usable state.blocks x d → HasWork state.blocks v d → v ≤ best))
          (some-injective e)
          (update_preferred_chain_most state.blocks c.ready.tree.in_order k ks
            (get_elem?-lt state.blocks k (ap (get_elem? state.blocks) (some-injective e) ∙ at)))

pub order_block_pointers_ends :
    (Open : ℕ → Type 0) (state : State)
    → Core Open state
    → (next : State) × (moved : Bool) × (order_block_pointers state ≡ some (next, moved))
      × (next.blocks ≡ state.blocks)
      × (next.block_depth ≡ state.block_depth)
      × Core Open next
order_block_pointers_ends Open state c =
    let o = order_block_pointers_orders state c.ready.tree c.best_chains c.ready.best_knowns in
    (
      record state { longest_chains = o.chains; longest_knowns = o.knowns },
      o.moved,
      o.returns,
      refl,
      refl,
      record {
        ready = record {
          tree = c.ready.tree;
          best_knowns = o.best_knowns;
          honest = c.ready.honest;
          complete = c.ready.complete;
        };
        best_chains = o.best_chains;
      },
    )

shards_to_pending_ends :
    (block : Block) (shard count : ℕ) (pending : PendingBlock)
    → shard + count ≤ length block.shard
    → shard + count ≤ length block.shard_nums
    → (after : PendingBlock) × (shards_to_pending block shard count pending ≡ some after)
unfolding shards_to_pending
shards_to_pending_ends block shard zero pending h h' = (pending, refl)
shards_to_pending_ends block shard (suc count) pending h h' =
    let (num, at) = get_elem?-some block.shard_nums shard (omega arith) in
    let (own, at') = get_elem?-some block.shard shard (omega arith) in
    let (after, is) =
      shards_to_pending_ends block (shard + 1) count (places_to_pending own 0 num pending)
        (omega arith) (omega arith) in
    (after, rw (at, at') is)

block_to_pending_ends :
    (blocks : List Block) (b : ℕ) (block : Block) (pending : PendingBlock)
    → IsTree blocks
    → get_elem? blocks b ≡ some block
    → (after : PendingBlock) × (block_to_pending pending block ≡ some after)
unfolding block_to_pending
block_to_pending_ends blocks b block pending t at =
    let (x, y) = t.shaped b block at in
    shards_to_pending_ends block 0 (num_shards block.hdr) pending (omega (arith, x))
      (omega (arith, y))

has_prev :
    (blocks : List Block) (stop b : ℕ) (block : Block)
    → get_elem? blocks b ≡ some block
    → Precedes blocks stop b
    → stop ≢ b
    → ¬ (block.prev ≡ none)
has_prev blocks stop b block at same_block ne up = ne refl
has_prev blocks stop b block at (further {p = p} at' up' rest) ne up =
    let same_one = some-injective (sym at ∙ at') in
    cc (ap (λ (z : Block). z.prev) same_one, up, up')

steal_back_ends :
    (blocks : List Block)
    → IsTree blocks
    → (fuel b stop : ℕ) (block : Block) (pending : PendingBlock) → get_elem? blocks b ≡ some block
    → Precedes blocks stop b
    → depth_of block < fuel
    → (after : PendingBlock) × (steal_back fuel blocks b stop pending ≡ some after)
unfolding steal_back
steal_back_ends blocks t zero b stop block pending at on enough = absurd (omega arith)
steal_back_ends blocks t (suc fuel) b stop block pending at on enough =
    elim (Bool-cases (b == stop)) [
      | inl eq ↦ (pending, rw eq refl)
      | inr ne ↦
          let apart : stop ≢ b = λ e. ground (arith, e) in
          elim (t.rooted b block at) [
            | inl root ↦ absurd (has_prev blocks stop b block at on apart root.0)
            | inr (p, parent, up, at_p, deep) ↦
                let (now, is) = block_to_pending_ends blocks b block pending t at in
                let (after, rest) =
                  steal_back_ends blocks t fuel p stop parent now at_p
                    (back_one blocks stop b p block at up apart on) (omega (arith, deep)) in
                (after, rw (ne, at, is, up) rest)
          ]
    ]

pub steal_pending_txs_ends :
    (Open : ℕ → Type 0) (state : State) (old new : ℕ) (from to : Block)
    → Core Open state
    → get_elem? state.blocks old ≡ some from
    → get_elem? state.blocks new ≡ some to
    → Moved Open state (steal_pending_txs state old new)
unfolding steal_pending_txs
steal_pending_txs_ends Open state old new from to c at_o at_n =
    let t = c.ready.tree in
    let low_o = depth_low state.blocks t (suc old) old from (omega arith) at_o in
    let low_n = depth_low state.blocks t (suc new) new to (omega arith) at_n in
    let in_o = get_elem?-lt state.blocks old at_o in
    let in_n = get_elem?-lt state.blocks new at_n in
    elim (step_towards_descends state.blocks t.rooted t.one_root (length state.blocks) new old to
      from at_n at_o (omega (arith, low_n, in_n)) (omega (arith, low_o, in_o))) [
        | inl (is, on) ↦ record {
          next = state;
          returns = rw is refl;
          same = SameTree-refl state.blocks;
          levels = refl;
          core = c;
        }
        | inr (x, block, stop, is, at, up, on, common, off) ↦
            let way =
              Precedes-trans state.blocks t.rooted stop x old (further at up same_block) on in
            let (after, back) =
              steal_back_ends state.blocks t (length state.blocks) old stop from state.pending at_o
                way (omega (arith, low_o, in_o)) in
            record {
              next = record state { pending = after };
              returns = rw (is, at, up, back) refl;
              same = SameTree-refl state.blocks;
              levels = refl;
              core = record { ready = c.ready; best_chains = c.best_chains };
            }
      ]

-- The end of `update_known`, over a state in which the longest known chains have changed.
knowns_moved_ends :
    (Open : ℕ → Type 0) (state : State) (prev_known : ℕ) (was : Block)
    → Core Open state
    → get_elem? state.blocks prev_known ≡ some was
    → Moved Open state (knowns_moved state prev_known)
unfolding knowns_moved
knowns_moved_ends Open state prev_known was c at =
    let flagged : Core Open (recheck_later state) = record {
      ready = c.ready;
      best_chains = c.best_chains;
    } in
    let (ordered, moved, is, same_blocks, same_levels, c1) =
      order_block_pointers_ends Open (recheck_later state) flagged in
    let (m, p) = set_preferred_chain_ends Open ordered c1 in
    let (now, first, head) =
      first-Head IsKnown m.next.blocks m.next.longest_knowns m.core.ready.best_knowns in
    let same : SameTree state.blocks m.next.blocks =
      subst (λ bs. SameTree bs m.next.blocks) same_blocks m.same in
    let levels = m.levels ∙ same_levels in
    elim (Bool-cases (now == prev_known)) [
      | inl eq ↦ record {
        next = m.next;
        returns = rw (is, m.returns, first, eq) refl;
        same = same;
        levels = levels;
        core = m.core;
      }
      | inr ne ↦
          let (old, at_old, like) = same.to prev_known was at in
          let s =
            steal_pending_txs_ends Open m.next prev_known now old head.block m.core at_old
              head.at in
          record {
            next = s.next;
            returns = rw (is, m.returns, first, ne) s.returns;
            same = SameTree-trans state.blocks m.next.blocks s.next.blocks same s.same;
            levels = s.levels ∙ levels;
            core = s.core;
          }
    ]

-- A state whose one open block is given: `update_known` of that block answers, and leaves none open.
pub update_known_ends :
    (state : State) (b : ℕ)
    → b < length state.blocks
    → IsReady (λ x. (x ≡ b) ⊎ Nowhere x) state.blocks state.longest_knowns
    → Heads IsClean state.blocks state.longest_chains
    → (changed : Bool) × (next : State) × (update_known state b ≡ some (next, changed))
      × SameTree state.blocks next.blocks
      × (next.block_depth ≡ state.block_depth)
      × Core Nowhere next
unfolding update_known
update_known_ends state b inside r hc =
    let (f, at, head) = first-Head IsKnown state.blocks state.longest_knowns r.best_knowns in
    let l =
      update_known_recursive_learns (length state.blocks) b state inside (omega arith) Nowhere r in
    let mid = record state { blocks = l.blocks; longest_knowns = l.knowns } in
    let c : Core Nowhere mid = record {
      ready = l.ready;
      best_chains =
          Heads-keep IsClean state.blocks l.blocks state.longest_chains
            (SameTree-Keeps state.blocks l.blocks l.same)
            (SameTree-Keeps_back state.blocks l.blocks l.same) hc;
    } in
    let (was, at_was, like) = l.same.to f head.block head.at in
    let k = knowns_moved_ends Nowhere mid f was c at_was in
    elim (Bool-cases l.changed) [
      | inl yes_it_has ↦ (
        true,
        k.next,
        rw (at, l.returns, yes_it_has, k.returns) refl,
        SameTree-trans state.blocks l.blocks k.next.blocks l.same k.same,
        k.levels,
        k.core,
      )
      | inr not_at_all ↦ (l.changed, mid, rw (at, l.returns, not_at_all) refl, l.same, refl, c)
    ]
