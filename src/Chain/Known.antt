-- ===== src/Chain/Known.antt =====
-- chain.c: `update_known_recursive` as a whole: it answers, and flags every block that can be flagged.
use pettycoin.Base.{
  ℕ, zero, suc, ◌+◌, ◌<◌, ◌≤◌, ◌≡◌, ◌⊎◌, inl, inr, refl, sym, ap, ◌∙◌, Bool, true, false, ◌&&◌,
  ◌||◌, Option, some, List, [], ◌∷◌, arith, Bool-cases, ◌>>=◌, some-injective, length, get_elem?,
  All, get_elem?-some, All-get_elem?, All-map,
}
use pettycoin.Block.{Block, block_all_known}
use pettycoin.State.{State}
use pettycoin.Chain.{cmp_work, best_of}
use pettycoin.Chain.Tree.{IsTree, SameTree-refl, SameTree-trans, SameTree-IsTree}
use pettycoin.Chain.Heads.{
  IsKnown, Heads-keep, Heads-best_of, first-Head, SameTree-Keeps-IsKnown, move-Head,
}
use pettycoin.Chain.Pointers.{
  prev_all_known, known, flag_known, knowns_changed, known_children, known_step,
  update_known_recursive,
}
use pettycoin.Chain.Flags.{
  IsComplete, IsReady, learned, Learned, Listed, flagged, flagged-SameTree, flagged-IsHonest,
  flagged-IsComplete, flagged-fresh, flagged_at, flagged_cases,
}

prev_all_known_answers :
    (blocks : List Block) (b : ℕ) (block : Block)
    → IsTree blocks
    → get_elem? blocks b ≡ some block
    → (answer : Bool) × (prev_all_known blocks block.prev ≡ some answer)
unfolding prev_all_known
prev_all_known_answers blocks b block t at = elim (t.rooted b block at) [
  | inl root ↦ (true, rw root.0 refl)
  | inr (p, parent, up, at_p, deep) ↦ (parent.all_known, rw (up, at_p) refl)
]

-- Fewer blocks are open than that.
weaken :
    (Open Other : ℕ → Type 0) (blocks : List Block)
    → ((x : ℕ) → Open x → Other x)
    → IsComplete Open blocks
    → IsComplete Other blocks
weaken Open Other blocks f h b block at ok all up = elim (h b block at ok all up) [
  | inl k ↦ inl k
  | inr o ↦ inr (f b o)
]

-- The visit of one block leaves the others open.
abbrev Visits : (State → ℕ → Option (State × Bool)) → (size c : ℕ) → Type 1
Visits visit size c =
    (Open : ℕ → Type 0) (state : State)
    → length state.blocks ≡ size
    → IsReady (λ x. (x ≡ c) ⊎ Open x) state.blocks state.longest_knowns
    → Learned Open state (visit state c)

known_children_learns :
    (visit : State → ℕ → Option (State × Bool)) (size : ℕ) (cs : List ℕ)
    → All (Visits visit size) cs
    → (Open : ℕ → Type 0) (state : State) (changed : Bool) → length state.blocks ≡ size
    → IsReady (λ x. Listed cs x ⊎ Open x) state.blocks state.longest_knowns
    → Learned Open state (known_children visit cs state changed)
unfolding known_children
known_children_learns visit size [] all Open state changed len r = record {
  blocks = state.blocks;
  knowns = state.longest_knowns;
  changed = changed;
  returns = refl;
  same = SameTree-refl state.blocks;
  ready = record {
    tree = r.tree;
    best_knowns = r.best_knowns;
    honest = r.honest;
    complete =
        weaken (λ x. Listed [] x ⊎ Open x) Open state.blocks
          (λ x o. elim o [ inl child ↦ cc (child.1) | inr other ↦ other ]) r.complete;
  };
}
known_children_learns visit size (c ∷ cs) all Open state changed len r =
    let first =
      all.0 (λ x. Listed cs x ⊎ Open x) state len
        (record {
          tree = r.tree;
          best_knowns = r.best_knowns;
          honest = r.honest;
          complete =
              weaken (λ x. Listed (c ∷ cs) x ⊎ Open x) (λ x. (x ≡ c) ⊎ (Listed cs x ⊎ Open x))
                state.blocks split r.complete;
        }) in
    let rest =
      known_children_learns visit size cs all.1 Open (learned state first.blocks first.knowns)
        (changed || first.changed) (first.same.len ∙ len) first.ready in
    record {
      blocks = rest.blocks;
      knowns = rest.knowns;
      changed = rest.changed;
      returns = rw first.returns rest.returns;
      same = SameTree-trans state.blocks first.blocks rest.blocks first.same rest.same;
      ready = rest.ready;
    }
  where
    split : (x : ℕ) → Listed (c ∷ cs) x ⊎ Open x → (x ≡ c) ⊎ (Listed cs x ⊎ Open x)
    split x (inl (zero, e)) = inl (sym (some-injective e))
    split x (inl (suc j, e)) = inr (inl (j, e))
    split x (inr o) = inr (inr o)

-- The early return of a block that is not ready to be flagged.
stays :
    (Open : ℕ → Type 0) (state : State) (b : ℕ) (block : Block) (up : Bool)
    → get_elem? state.blocks b ≡ some block
    → prev_all_known state.blocks block.prev ≡ some up
    → (up && block_all_known block) ≡ false
    → IsReady (λ x. (x ≡ b) ⊎ Open x) state.blocks state.longest_knowns
    → Learned Open state (some (state, false))
stays Open state b block up at is not_ready r = record {
  blocks = state.blocks;
  knowns = state.longest_knowns;
  changed = false;
  returns = refl;
  same = SameTree-refl state.blocks;
  ready = record {
    tree = r.tree;
    best_knowns = r.best_knowns;
    honest = r.honest;
    complete = λ x a at_x ok all above. elim (r.complete x a at_x ok all above) [
      | inl k ↦ inl k
      | inr (inr o) ↦ inr o
      | inr (inl e) ↦
          let same_block : a ≡ block =
            some-injective (sym at_x ∙ ap (get_elem? state.blocks) e ∙ at) in
          absurd (
            clash up (block_all_known block) not_ready
              (some-injective (
                sym is
                ∙ ap (λ (z : Block). prev_all_known state.blocks z.prev) (sym same_block)
                ∙ above))
              (ap block_all_known (sym same_block) ∙ all))
    ];
  };
}
  where
    clash : (p q : Bool) → (p && q) ≡ false → p ≡ true → ¬ (q ≡ true)
    clash p q h e e' = cc (h, e, e')

module _ (state : State) (b : ℕ) (block : Block) (at : get_elem? state.blocks b ≡ some block)
    (up : prev_all_known state.blocks block.prev ≡ some true)
    (all : block_all_known block ≡ true) where
  abbrev now : List Block
  now = flagged state.blocks b block at

  -- The block has been flagged, and has a problem.
  flags_only :
      (Open : ℕ → Type 0)
      → block.complaint ≡ true
      → IsReady (λ x. (x ≡ b) ⊎ Open x) state.blocks state.longest_knowns
      → Learned Open state (some (flag_known state b block, false))
  flags_only Open bad r = record {
    blocks = now;
    knowns = state.longest_knowns;
    changed = false;
    returns = refl;
    same = flagged-SameTree state.blocks b block at;
    ready = record {
      tree = SameTree-IsTree state.blocks now (flagged-SameTree state.blocks b block at) r.tree;
      best_knowns =
          Heads-keep IsKnown state.blocks now state.longest_knowns
            (SameTree-Keeps-IsKnown state.blocks now (flagged-SameTree state.blocks b block at))
            (λ x a at_x k. elim (flagged-fresh state.blocks b block at x a at_x k) [
              | inl e ↦ absurd (clash x a at_x k.1 e)
              | inr h ↦ h
            ])
            r.best_knowns;
      honest = flagged-IsHonest state.blocks b block at up all r.honest;
      complete = λ x a at_x ok all' above.
          elim (flagged-IsComplete state.blocks b block at Open r.tree r.complete x a at_x ok all'
            above) [
              | inl k ↦ inl k
              | inr (inr o) ↦ inr o
              | inr (inl child) ↦ absurd (childless r.tree x a at_x ok child)
            ];
    };
  }
    where
      clash : (x : ℕ) (a : Block) → get_elem? now x ≡ some a → a.complaint ≡ false → ¬ (x ≡ b)
      clash x a at_x ok e =
          let same_block : known block ≡ a =
            some-injective
              (sym (flagged_at state.blocks b block at) ∙ ap (get_elem? now) (sym e) ∙ at_x) in
          let good : block.complaint ≡ false = ap (λ (z : Block). z.complaint) same_block ∙ ok in
          cc (good, bad)

      childless :
          IsTree state.blocks
          → (x : ℕ) (a : Block) → get_elem? now x ≡ some a
          → a.complaint ≡ false
          → ¬ Listed block.children x
      childless t x a at_x ok (j, e) =
          let (child, at_c, up_c) = All-get_elem? _ block.children j x (t.linked b block at) e in
          let bad' = t.inherits x b child block at_c up_c at bad in
          elim (flagged_cases state.blocks b block at x a at_x) [
            | inl (e', is) ↦ clash x a at_x ok e'
            | inr (ne, at') ↦
                let same_block : child ≡ a = some-injective (sym at_c ∙ at') in
                let good : child.complaint ≡ false =
                  ap (λ (z : Block). z.complaint) same_block ∙ ok in
                cc (good, bad')
          ]

  -- The block has been flagged and is compared, and its children are visited.
  compares :
      (visit : State → ℕ → Option (State × Bool))
      → All (Visits visit (length state.blocks)) block.children
      → (Open : ℕ → Type 0) → block.complaint ≡ false
      → IsReady (λ x. (x ≡ b) ⊎ Open x) state.blocks state.longest_knowns
      → Learned Open state (do
        first ← get_elem? state.longest_knowns 0
        best ← get_elem? now first
        known_children visit block.children
            (record (flag_known state b block) {
              longest_knowns = best_of (cmp_work block best) b state.longest_knowns;
            })
            (knowns_changed (cmp_work block best)))
  unfolding cmp_work
  compares visit each Open ok r =
      let same = flagged-SameTree state.blocks b block at in
      let keeps = SameTree-Keeps-IsKnown state.blocks now same in
      let (f, at_f, head) = first-Head IsKnown state.blocks state.longest_knowns r.best_knowns in
      let moved = move-Head IsKnown state.blocks now r.best_knowns.work f keeps head in
      let best = moved.block in
      let c = cmp_work block best in
      let knowns = best_of c b state.longest_knowns in
      let found =
        known_children_learns visit (length state.blocks) block.children each Open
          (learned state now knowns) (knowns_changed c) same.len
          (record {
            tree = SameTree-IsTree state.blocks now same r.tree;
            best_knowns =
                Heads-best_of IsKnown state.blocks now state.longest_knowns b (known block) best
                  r.best_knowns (flagged_at state.blocks b block at) (refl, ok) keeps
                  (flagged-fresh state.blocks b block at) moved.is_work;
            honest = flagged-IsHonest state.blocks b block at up all r.honest;
            complete = flagged-IsComplete state.blocks b block at Open r.tree r.complete;
          }) in
      record {
        blocks = found.blocks;
        knowns = found.knowns;
        changed = found.changed;
        returns = rw (at_f, moved.at) found.returns;
        same = SameTree-trans state.blocks now found.blocks same found.same;
        ready = found.ready;
      }

  goes_on :
      (visit : State → ℕ → Option (State × Bool))
      → All (Visits visit (length state.blocks)) block.children
      → (Open : ℕ → Type 0) (complaint : Bool) → block.complaint ≡ complaint
      → IsReady (λ x. (x ≡ b) ⊎ Open x) state.blocks state.longest_knowns
      → Learned Open state (
          known_step true complaint state (flag_known state b block) (do
            first ← get_elem? state.longest_knowns 0
            best ← get_elem? now first
            known_children visit block.children
                (record (flag_known state b block) {
                  longest_knowns = best_of (cmp_work block best) b state.longest_knowns;
                })
                (knowns_changed (cmp_work block best))))
  goes_on visit each Open true e r = flags_only Open e r
  goes_on visit each Open false e r = compares visit each Open e r

-- The visit of a block that is in the store, with fuel for all the blocks after it, answers. It leaves
-- the tree as it is, the flags truthful and the longest known blocks the best, and afterwards the
-- block and its descendents are flagged if they can be.
pub update_known_recursive_learns :
    (fuel b : ℕ) (state : State)
    → b < length state.blocks
    → length state.blocks ≤ fuel + b
    → (Open : ℕ → Type 0) → IsReady (λ x. (x ≡ b) ⊎ Open x) state.blocks state.longest_knowns
    → Learned Open state (update_known_recursive fuel state b)
unfolding update_known_recursive
update_known_recursive_learns zero b state inside enough Open r = absurd (omega arith)
update_known_recursive_learns (suc fuel) b state inside enough Open r =
    let (block, at) = get_elem?-some state.blocks b inside in
    let (up, is_up) = prev_all_known_answers state.blocks b block r.tree at in
    elim (Bool-cases (up && block_all_known block)) [
      | inr not_ready ↦ rw (at, is_up, not_ready) (stays Open state b block up at is_up not_ready r)
      | inl ready ↦
          let is_true = both up (block_all_known block) ready in
          let above = is_up ∙ ap some is_true.0 in
          rw (at, is_up, ready)
            (goes_on state b block at above is_true.1 (update_known_recursive fuel)
              (All-map block.children
                (λ c after Other other len r'.
                  update_known_recursive_learns fuel c other (omega (arith, after.1, len))
                    (omega (arith, after.0, len)) Other r')
                (r.tree.in_order b block at))
              Open block.complaint refl r)
    ]
  where
    both : (p q : Bool) → (p && q) ≡ true → (p ≡ true) × (q ≡ true)
    both true q h = (refl, h)
    both false q h = cc h
