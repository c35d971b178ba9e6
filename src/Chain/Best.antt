-- ===== src/Chain/Best.antt =====
-- chain.c: what the comparisons of the work of blocks keep.
use pettycoin.Base.{
  ℕ, zero, suc, ◌<◌, ◌≤◌, ◌≡◌, ◌⊎◌, inl, inr, refl, sym, ap, ◌∙◌, subst, false, Option, some, List,
  [], ◌∷◌, ◌++◌, arith, ◌>>=◌, some-injective, length, get_elem?, All, All-append,
}
use pettycoin.Block.{Block}
use pettycoin.Chain.{less, same, more, cmp_work, best_of, keep_best, each_child}

module _ (blocks : List Block) where
  -- The block is in the store, and has this work.
  abbrev pub HasWork : ℕ → ℕ → Type 0
  HasWork work b = (block : Block) × (get_elem? blocks b ≡ some block) × (block.total_work ≡ work)

  -- The best blocks so far: there is one, and all have this work.
  pub record Bests (work : ℕ) (bests : List ℕ) : Type 0 where
    pub some_best : 0 < length bests
    pub works : All (HasWork work) bests

  -- A descendent that is reached through blocks without a complaint.
  pub data Usable : ℕ → ℕ → Type 0 where
    this :
        {b : ℕ} {block : Block}
        → get_elem? blocks b ≡ some block
        → block.complaint ≡ false
        → Usable b b
    below :
        (j : ℕ) {b c d : ℕ} {block : Block}
        → get_elem? blocks b ≡ some block
        → block.complaint ≡ false
        → get_elem? block.children j ≡ some c
        → Usable c d
        → Usable b d

  -- Children come after their parents in the store.
  abbrev pub InOrder : Type 0
  InOrder =
      (b : ℕ) (block : Block)
      → get_elem? blocks b ≡ some block
      → All (λ c. (b < c) × (c < length blocks)) block.children

  -- What a search over some blocks, those for which `Seen` holds, makes of the best blocks.
  pub record Improved (Seen : ℕ → Type 0) (work : ℕ) (bests : List ℕ) (found : Option (List ℕ))
      : Type 1 where
    pub res : List ℕ
    pub best : ℕ
    pub returns : found ≡ some res
    pub is_best : Bests best res
    pub no_less : work ≤ best
    pub most : (d v : ℕ) → Seen d → HasWork v d → v ≤ best
    pub origin : (P : ℕ → Type 0) → ((d : ℕ) → Seen d → P d) → All P bests → All P res

  pub cmp_work_cases :
      (a b : Block)
      → ((cmp_work a b ≡ less) × (a.total_work < b.total_work))
        ⊎ (((cmp_work a b ≡ same) × (a.total_work ≡ b.total_work))
            ⊎ ((cmp_work a b ≡ more) × (b.total_work < a.total_work)))
  unfolding cmp_work
  cmp_work_cases a b = ground arith

  one_work : (d v w : ℕ) → HasWork v d → HasWork w d → v ≡ w
  one_work d v w (x, ax, ex) (y, ay, ey) =
      let same_block : x ≡ y = some-injective (sym ax ∙ ay) in
      sym ex ∙ ap (λ (z : Block). z.total_work) same_block ∙ ey

  pub keep_best_improves :
      (b : ℕ) (block : Block) (bests : List ℕ) (work : ℕ)
      → get_elem? blocks b ≡ some block
      → Bests work bests
      → Improved (λ d. d ≡ b) work bests (keep_best blocks b bests)
  unfolding keep_best best_of
  keep_best_improves b block [] work at h = absurd (omega (arith, h.some_best))
  keep_best_improves b block (f ∷ fs) work at h =
      let (first, first_at, first_work) = h.works.0 in
      let own : HasWork block.total_work b = (block, at, refl) in
      let seen : (d v : ℕ) → d ≡ b → HasWork v d → v ≡ block.total_work =
        λ d v e has. one_work d v block.total_work has (rw e own) in
      elim (cmp_work_cases block first) [
        | inl (e, lt) ↦ record {
          res = f ∷ fs;
          best = work;
          returns = rw (first_at, at, e) refl;
          is_best = h;
          no_less = omega arith;
          most = λ d v is has. omega (arith, seen d v is has);
          origin = λ P new old. old;
        }
        | inr (inl (e, eq)) ↦ record {
          res = (f ∷ fs) ++ b ∷ [];
          best = work;
          returns = rw (first_at, at, e) refl;
          is_best = record {
            some_best = omega arith;
            works =
                All-append (HasWork work) (f ∷ fs) (b ∷ []) h.works
                  ((block, at, eq ∙ first_work), _);
          };
          no_less = omega arith;
          most = λ d v is has. omega (arith, seen d v is has);
          origin = λ P new old. All-append P (f ∷ fs) (b ∷ []) old (new b refl, _);
        }
        | inr (inr (e, gt)) ↦ record {
          res = b ∷ [];
          best = block.total_work;
          returns = rw (first_at, at, e) refl;
          is_best = record { some_best = omega arith; works = (own, _) };
          no_less = omega arith;
          most = λ d v is has. omega (arith, seen d v is has);
          origin = λ P new old. (new b refl, _);
        }
      ]

  -- One search after another.
  pub improves_then :
      (Seen Later : ℕ → Type 0) (work : ℕ) (bests : List ℕ) (found : Option (List ℕ))
      (next : List ℕ → Option (List ℕ))
      → Improved Seen work bests found
      → ((kept : List ℕ) (v : ℕ) → Bests v kept → Improved Later v kept (next kept))
      → Improved (λ d. Seen d ⊎ Later d) work bests (found >>= next)
  improves_then Seen Later work bests found next a f =
      let b = f a.res a.best a.is_best in
      record {
        res = b.res;
        best = b.best;
        returns = rw a.returns b.returns;
        is_best = b.is_best;
        no_less = omega (arith, a.no_less, b.no_less);
        most = λ d v is has. elim is [
          | inl now ↦ omega (arith, a.most d v now has, b.no_less)
          | inr later ↦ b.most d v later has
        ];
        origin = λ P new old.
            b.origin P (λ d is. new d (inr is)) (a.origin P (λ d is. new d (inl is)) old);
      }

  -- Fewer blocks seen, but all that count.
  pub improves_less :
      (Seen Other : ℕ → Type 0) (work : ℕ) (bests : List ℕ) (found : Option (List ℕ))
      → ((d : ℕ) → Seen d → Other d)
      → ((d : ℕ) → Other d → Seen d)
      → Improved Seen work bests found
      → Improved Other work bests found
  improves_less Seen Other work bests found to from a = record {
    res = a.res;
    best = a.best;
    returns = a.returns;
    is_best = a.is_best;
    no_less = a.no_less;
    most = λ d v is has. a.most d v (from d is) has;
    origin = λ P new old. a.origin P (λ d is. new d (to d is)) old;
  }

  -- Seen below one of these children.
  abbrev pub Under : List ℕ → ℕ → Type 0
  Under cs d = (j : ℕ) × (c : ℕ) × (get_elem? cs j ≡ some c) × Usable c d

  pub each_child_improves :
      (visit : ℕ → List ℕ → Option (List ℕ)) (cs : List ℕ)
      → All
          (λ c. (kept : List ℕ) (v : ℕ) → Bests v kept → Improved (Usable c) v kept (visit c kept))
          cs
      → (work : ℕ) (bests : List ℕ) → Bests work bests
      → Improved (Under cs) work bests (each_child visit cs bests)
  unfolding each_child
  each_child_improves visit [] each work bests h = record {
    res = bests;
    best = work;
    returns = refl;
    is_best = h;
    no_less = omega arith;
    most = λ d v is has. cc (is.2);
    origin = λ P new old. old;
  }
  each_child_improves visit (c ∷ cs) each work bests h =
      improves_less (λ d. Usable c d ⊎ Under cs d) (Under (c ∷ cs)) work bests _
        (λ d is. elim is [ inl own ↦ (0, c, refl, own) | inr (j, c', at, u) ↦ (suc j, c', at, u) ])
        (λ d is. split d is)
        (improves_then (Usable c) (Under cs) work bests (visit c bests) (each_child visit cs)
          (each.0 bests work h) (λ kept v k. each_child_improves visit cs each.1 v kept k))
    where
      split : (d : ℕ) → Under (c ∷ cs) d → Usable c d ⊎ Under cs d
      split d (zero, c', at, u) = inl (subst (λ x. Usable x d) (sym (some-injective at)) u)
      split d (suc j, c', at, u) = inr (j, c', at, u)
