-- ===== src/Chain/Longest.antt =====
-- chain.c: the search of the descendents of a block for those with the most work.
use pettycoin.Base.{
  ℕ, zero, suc, ◌+◌, ◌<◌, ◌≤◌, ◌≡◌, ◌⊎◌, inl, inr, refl, sym, ap, ◌∙◌, subst, true, false, some,
  List, [], ◌∷◌, arith, Bool-cases, some-injective, length, get_elem?, All, get_elem?-some, All-map,
}
use pettycoin.Block.{Block}
use pettycoin.Chain.{keep_best, each_child, find_longest_descendents, update_preferred_chain}
use pettycoin.Chain.Best.{
  HasWork, Bests, Usable, this, below, InOrder, Improved, keep_best_improves, improves_then,
  improves_less, Under, each_child_improves,
}

module _ (blocks : List Block) where
  Usable-clean :
      (b d : ℕ) (block : Block)
      → get_elem? blocks b ≡ some block
      → Usable blocks b d
      → block.complaint ≡ false
  Usable-clean b d block at (this at' ok) =
      ap (λ (x : Block). x.complaint) (some-injective (sym at ∙ at')) ∙ ok
  Usable-clean b d block at (below j at' ok e u) =
      ap (λ (x : Block). x.complaint) (some-injective (sym at ∙ at')) ∙ ok

  Usable-split :
      (b d : ℕ) (block : Block)
      → get_elem? blocks b ≡ some block
      → Usable blocks b d
      → (d ≡ b) ⊎ Under blocks block.children d
  Usable-split b d block at (this at' ok) = inl refl
  Usable-split b d block at (below j {c = c} at' ok e u) =
      let same_block = some-injective (sym at' ∙ at) in
      inr (j, c, subst (λ (x : Block). get_elem? x.children j ≡ some c) same_block e, u)

  Usable-join :
      (b d : ℕ) (block : Block)
      → get_elem? blocks b ≡ some block
      → block.complaint ≡ false
      → (d ≡ b) ⊎ Under blocks block.children d
      → Usable blocks b d
  Usable-join b d block at ok (inl e) = rw e (this at ok)
  Usable-join b d block at ok (inr (j, c, e, u)) = below j at ok e u

  passed_over :
      (b : ℕ) (block : Block)
      → get_elem? blocks b ≡ some block
      → block.complaint ≡ true
      → (work : ℕ) (bests : List ℕ) → Bests blocks work bests
      → Improved blocks (Usable blocks b) work bests (some bests)
  passed_over b block at bad work bests h = record {
    res = bests;
    best = work;
    returns = refl;
    is_best = h;
    no_less = omega arith;
    most = λ d v is has. absurd (cc (Usable-clean b d block at is, bad));
    origin = λ P new old. old;
  }

  -- From a usable block in the store, with fuel for all the blocks after it, the search ends; its blocks
  -- have one work, which is at least that of the blocks it began with and of every usable descendent.
  visit_improves :
      InOrder blocks
      → (fuel b : ℕ) → b < length blocks
      → length blocks ≤ fuel + b
      → (work : ℕ) (bests : List ℕ) → Bests blocks work bests
      → Improved blocks (Usable blocks b) work bests (find_longest_descendents fuel blocks b bests)
  unfolding find_longest_descendents
  visit_improves order zero b inside enough work bests h = absurd (omega arith)
  visit_improves order (suc fuel) b inside enough work bests h =
      let (block, at) = get_elem?-some blocks b inside in
      elim (Bool-cases block.complaint) [
        | inl bad ↦ rw (at, bad) (passed_over b block at bad work bests h)
        | inr ok ↦
            let children =
              All-map block.children
                (λ c after kept v k.
                  visit_improves order fuel c after.1 (omega (arith, after.0)) v kept k)
                (order b block at) in
            let both =
              improves_then blocks (λ d. d ≡ b) (Under blocks block.children) work bests
                (keep_best blocks b bests)
                (each_child (find_longest_descendents fuel blocks) block.children)
                (keep_best_improves blocks b block bests work at h)
                (λ kept v k.
                  each_child_improves blocks (find_longest_descendents fuel blocks) block.children
                    children v kept k) in
            rw (at, ok)
              (improves_less blocks (λ d. (d ≡ b) ⊎ Under blocks block.children d) (Usable blocks b)
                work bests _ (λ d. Usable-join b d block at ok) (λ d. Usable-split b d block at)
                both)
      ]

  first_of {ℓ} :
      (P : ℕ → Type ℓ) (best : ℕ) (res : List ℕ)
      → Bests blocks best res
      → All P res
      → (first : ℕ) × (get_elem? res 0 ≡ some first) × HasWork blocks best first × P first
  first_of P best [] h ps = absurd (omega (arith, h.some_best))
  first_of P best (r ∷ rs) h ps = (r, refl, h.works.0, ps.0)

  -- Over a store in which children come after their parents, and from a known block in it, the search
  -- for the preferred chain ends with a block: that known block or a usable descendent of it, and no
  -- usable descendent has more work.
  pub update_preferred_chain_most :
      InOrder blocks
      → (known : ℕ) (others : List ℕ) → known < length blocks
      → (chain : ℕ) × (best : ℕ) × (update_preferred_chain blocks (known ∷ others) ≡ some chain)
        × HasWork blocks best chain
        × ((chain ≡ known) ⊎ Usable blocks known chain)
        × ((d v : ℕ) → Usable blocks known d → HasWork blocks v d → v ≤ best)
  unfolding update_preferred_chain
  update_preferred_chain_most order known others inside =
      let (block, at) = get_elem?-some blocks known inside in
      let start : Bests blocks block.total_work (known ∷ []) = record {
        some_best = omega arith;
        works = ((block, at, refl), _);
      } in
      let found =
        visit_improves order (length blocks) known inside (omega arith) block.total_work
          (known ∷ []) start in
      let (chain, first, work, from) =
        first_of (λ d. (d ≡ known) ⊎ Usable blocks known d) found.best found.res found.is_best
          (found.origin (λ d. (d ≡ known) ⊎ Usable blocks known d) (λ d is. inr is)
            (inl refl, _)) in
      (chain, found.best, rw found.returns first, work, from, found.most)
