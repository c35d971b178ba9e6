-- ===== src/Chain/Assertions.antt =====
-- chain.c: what the assertions of `check_chains` come to in a valid state.
use pettycoin.Base.{
  Bool-cases, ◌<◌, ◌==◌, get_elem?-lt, ℕ, zero, suc, ◌≡◌, inl, inr, refl, sym, ap, ◌∙◌, subst, Bool,
  true, false, not, ◌&&◌, ◌||◌, none, some, List, [], ◌∷◌, ◌++◌, arith, ◌==◌, is_some,
  some-injective, length, get_elem?, All,
}
use pettycoin.Block.{Block}
use pettycoin.State.{State}
use pettycoin.Chain.{same, cmp_work}
use pettycoin.Chain.Heads.{IsClean, IsKnown, Head, first-Head}
use pettycoin.Chain.Best.{Usable, this, below}
use pettycoin.Chain.Valid.{IsValid}
use pettycoin.Chain.Tree.{IsTree}
use pettycoin.Chain.Connected.{find_connected_pair_is}
use pettycoin.Chain.Checks.{
  all_same_work, same_work, no_complaint, leads_back, not_connected, check_chains,
}

cmp_work-same : (a b : Block) → a.total_work ≡ b.total_work → cmp_work a b ≡ same
unfolding cmp_work
cmp_work-same a b e = ground (arith, e)

module _ (Counts : Block → Type 0) (blocks : List Block) (work : ℕ) where
  all_same_work_ends :
      (first : Block)
      → first.total_work ≡ work
      → (heads : List ℕ) → All (Head Counts blocks work) heads
      → all_same_work blocks first heads ≡ some true
  unfolding all_same_work
  all_same_work_ends first is [] each = refl
  all_same_work_ends first is (x ∷ xs) each =
      rw
        (
          each.0.at,
          all_same_work_ends first is xs each.1,
          cmp_work-same each.0.block first (each.0.is_work ∙ sym is),
        )
        refl

  same_work_ends :
      (heads : List ℕ) → All (Head Counts blocks work) heads → same_work blocks heads ≡ some true
  unfolding same_work
  same_work_ends [] each = refl
  same_work_ends (x ∷ xs) each =
      rw each.0.at (all_same_work_ends each.0.block each.0.is_work xs each.1)

  -- Blocks that count have no problem.
  no_complaint_ends :
      ((block : Block) → Counts block → block.complaint ≡ false)
      → (heads others : List ℕ) → All (Head Counts blocks work) heads
      → no_complaint blocks others ≡ some true
      → no_complaint blocks (heads ++ others) ≡ some true
  unfolding no_complaint
  no_complaint_ends clean [] others each rest = rest
  no_complaint_ends clean (x ∷ xs) others each rest =
      rw
        (each.0.at, no_complaint_ends clean xs others each.1 rest, clean each.0.block each.0.counts)
        refl

Usable-end :
    (blocks : List Block) (b d : ℕ)
    → Usable blocks b d
    → (block : Block) × (get_elem? blocks d ≡ some block) × (block.complaint ≡ false)
Usable-end blocks b d (this {block = block} at ok) = (block, at, ok)
Usable-end blocks b d (below j at ok child u) = Usable-end blocks _ d u

nothing_left : (blocks : List Block) → no_complaint blocks [] ≡ some true
unfolding no_complaint
nothing_left blocks = refl

one_clean :
    (blocks : List Block) (b : ℕ) (block : Block) (others : List ℕ)
    → get_elem? blocks b ≡ some block
    → block.complaint ≡ false
    → no_complaint blocks others ≡ some true
    → no_complaint blocks (b ∷ others) ≡ some true
unfolding no_complaint
one_clean blocks b block others at ok rest = rw (at, rest, ok) refl

-- In a valid state the assertions on the work and on the complaints hold.
check_chains_arrays :
    (state : State)
    → IsValid state
    → (same_work state.blocks state.longest_chains ≡ some true)
      × (same_work state.blocks state.longest_knowns ≡ some true)
      × (no_complaint state.blocks
            (state.preferred_chain ∷ state.longest_knowns ++ state.longest_chains)
          ≡ some true)
check_chains_arrays state v =
    let chains = v.core.best_chains in
    let knowns = v.core.ready.best_knowns in
    let (block, at, ok) = preferred_clean in
    (
      same_work_ends IsClean state.blocks chains.work state.longest_chains chains.each,
      same_work_ends IsKnown state.blocks knowns.work state.longest_knowns knowns.each,
      one_clean state.blocks state.preferred_chain block
          (state.longest_knowns ++ state.longest_chains) at ok
          (no_complaint_ends IsKnown state.blocks knowns.work (λ b k. k.1) state.longest_knowns
            state.longest_chains knowns.each all_clean),
    )
  where
    all_clean : no_complaint state.blocks state.longest_chains ≡ some true
    all_clean =
        subst (λ l. no_complaint state.blocks l ≡ some true) (append_nil state.longest_chains)
          (no_complaint_ends IsClean state.blocks v.core.best_chains.work (λ b k. k)
            state.longest_chains [] v.core.best_chains.each (nothing_left state.blocks))
      where
        append_nil : (xs : List ℕ) → xs ++ [] ≡ xs
        append_nil [] = refl
        append_nil (x ∷ xs) = ap (λ l. x ∷ l) (append_nil xs)

    preferred_clean :
        (block : Block) × (get_elem? state.blocks state.preferred_chain ≡ some block)
        × (block.complaint ≡ false)
    preferred_clean = elim v.preferred.below [
      | inr u ↦ Usable-end state.blocks v.preferred.known state.preferred_chain u
      | inl is ↦
          let (f, at, h) =
            first-Head IsKnown state.blocks state.longest_knowns v.core.ready.best_knowns in
          let same_one : f ≡ state.preferred_chain =
            some-injective (sym at ∙ v.preferred.first) ∙ sym is in
          (h.block, ap (get_elem? state.blocks) (sym same_one) ∙ h.at, h.counts.1)
    ]

leads_back_answers :
    (blocks : List Block)
    → IsTree blocks
    → (known fuel i : ℕ) (block : Block) → i < fuel
    → get_elem? blocks i ≡ some block
    → (back : Bool) × (leads_back fuel blocks i known ≡ some back)
unfolding leads_back
leads_back_answers blocks t known zero i block lt at = absurd (omega arith)
leads_back_answers blocks t known (suc fuel) i block lt at = elim (Bool-cases (i == known)) [
  | inl here ↦ (true, rw here refl)
  | inr off ↦ elim (Bool-cases (i == 0 || block.all_known)) [
    | inl stop ↦ (false, rw (off, at, stop) refl)
    | inr go ↦ elim (t.rooted i block at) [
      | inl root ↦
          let first : i ≡ 0 = t.one_root i block at root.1 in absurd (ground (arith, go, first))
      | inr (p, parent, up, at_p, deep) ↦
          let (back, is) =
            leads_back_answers blocks t known fuel p parent
              (omega (arith, lt, t.older i p block at up)) at_p in
          (back, rw (off, at, go, up) is)
    ]
  ]
]

not_connected_answers :
    (state : State) → IsValid state → (apart : Bool) × (not_connected state ≡ some apart)
unfolding not_connected
not_connected_answers state v =
    let (longest, at, head) =
      first-Head IsClean state.blocks state.longest_chains v.core.best_chains in
    elim (find_connected_pair_is state v.core.ready.tree v.core.best_chains
      v.core.ready.best_knowns) [
        | inl (is, off) ↦
            (state.preferred_chain == longest || not (is_some {A = ℕ × ℕ} none), rw (at, is) refl)
        | inr (i, c, j, k, is, _, _, _) ↦ (
          state.preferred_chain == longest || not (is_some {A = ℕ × ℕ} (some (i, j))),
          rw (at, is) refl,
        )
      ]

-- In a valid state all assertions of `check_chains` hold but perhaps that on the way back from the preferred
-- chain and that on connected pairs.
pub check_chains_ends :
    (state : State)
    → IsValid state
    → (known : ℕ) × (back : Bool) × (apart : Bool) × (get_elem? state.longest_knowns 0 ≡ some known)
      × (leads_back (length state.blocks) state.blocks state.preferred_chain known ≡ some back)
      × (not_connected state ≡ some apart)
      × (check_chains state ≡ some (back && apart))
unfolding check_chains
check_chains_ends state v =
    let (chains, knowns, clean) = check_chains_arrays state v in
    let (block, at, work) = v.preferred.work in
    let (back, is_back) =
      leads_back_answers state.blocks v.core.ready.tree v.preferred.known (length state.blocks)
        state.preferred_chain block (get_elem?-lt state.blocks state.preferred_chain at) at in
    let (apart, is_apart) = not_connected_answers state v in
    (
      v.preferred.known,
      back,
      apart,
      v.preferred.first,
      is_back,
      is_apart,
      rw (v.preferred.first, chains, knowns, is_back, is_apart, clean) (ap some (both back apart)),
    )
  where
    both : (x y : Bool) → (true && true && x && y && true) ≡ (x && y)
    both true true = refl
    both true false = refl
    both false y = refl
