-- ===== src/Chain/Heads.antt =====
-- chain.c: the arrays of the blocks with the most work among those that count, and what keeps them so.
use pettycoin.Base.{
  ℕ, zero, suc, ◌<◌, ◌≤◌, ◌≡◌, ◌⊎◌, inl, inr, refl, sym, ap, ◌∙◌, subst, true, false, some, List,
  [], ◌∷◌, arith, some-injective, length, get_elem?, set, All, length-append, length-set,
  All-append, All-set, All-get_elem?,
}
use pettycoin.Block.{Block}
use pettycoin.Chain.{cmp_work, best_of}
use pettycoin.Chain.Best.{cmp_work_cases}
use pettycoin.Chain.Pointers.{swap_blockptr}
use pettycoin.Chain.Tree.{SameTree, SameTree-from}

-- Which blocks count for `longest_chains`, and which for `longest_knowns`.
abbrev pub IsClean : Block → Type 0
IsClean block = block.complaint ≡ false

abbrev pub IsKnown : Block → Type 0
IsKnown block = (block.all_known ≡ true) × (block.complaint ≡ false)

module _ (Counts : Block → Type 0) where
  -- The number is that of a block that counts and has this work.
  pub record Head (blocks : List Block) (work b : ℕ) : Type 0 where
    pub block : Block
    pub at : get_elem? blocks b ≡ some block
    pub is_work : block.total_work ≡ work
    pub counts : Counts block

  -- There is such a block, all have one work, and no block that counts has more.
  pub record Heads (blocks : List Block) (heads : List ℕ) : Type 0 where
    pub work : ℕ
    pub some_head : 0 < length heads
    pub each : All (Head blocks work) heads
    pub most :
        (b : ℕ) (block : Block)
        → get_elem? blocks b ≡ some block
        → Counts block
        → block.total_work ≤ work

  -- Every block that counts in the first list does so in the second, with the same work.
  abbrev pub Keeps : (old new : List Block) → Type 0
  Keeps old new =
      (x : ℕ) (a : Block) → get_elem? old x ≡ some a → Counts a → Head new a.total_work x

  pub move-Head :
      (old new : List Block) (work x : ℕ) → Keeps old new → Head old work x → Head new work x
  move-Head old new work x keeps h =
      subst (λ w. Head new w x) h.is_work (keeps x h.block h.at h.counts)

  move_heads :
      (old new : List Block) (work : ℕ) (heads : List ℕ)
      → Keeps old new
      → All (Head old work) heads
      → All (Head new work) heads
  move_heads old new work [] keeps h = _
  move_heads old new work (x ∷ xs) keeps h =
      (move-Head old new work x keeps h.0, move_heads old new work xs keeps h.1)

  pub Heads-keep :
      (old new : List Block) (heads : List ℕ)
      → Keeps old new
      → Keeps new old
      → Heads old heads
      → Heads new heads
  Heads-keep old new heads keeps back h = record {
    work = h.work;
    some_head = h.some_head;
    each = move_heads old new h.work heads keeps h.each;
    most = λ b block at c.
        let o = back b block at c in omega (arith, o.is_work, h.most b o.block o.at o.counts);
  }

  -- One more block may count, and is compared.
  pub Heads-best_of :
      (old new : List Block) (heads : List ℕ) (b : ℕ) (block best : Block) (h : Heads old heads)
      → get_elem? new b ≡ some block
      → Counts block
      → Keeps old new
      → ((x : ℕ) (a : Block)
          → get_elem? new x ≡ some a
          → Counts a
          → (x ≡ b) ⊎ Head old a.total_work x)
      → best.total_work ≡ h.work
      → Heads new (best_of (cmp_work block best) b heads)
  unfolding best_of
  Heads-best_of old new heads b block best h at c keeps fresh same_work =
      let own : (x : ℕ) (a : Block)
          → get_elem? new x ≡ some a
          → x ≡ b
          → a.total_work ≡ block.total_work =
        λ x a at_a e.
          ap (λ (z : Block). z.total_work)
            (some-injective (sym at_a ∙ ap (get_elem? new) e ∙ at)) in
      elim (cmp_work_cases new block best) [
        | inl (e, lt) ↦ rw e (record {
          work = h.work;
          some_head = h.some_head;
          each = move_heads old new h.work heads keeps h.each;
          most = λ x a at_a c_a. elim (fresh x a at_a c_a) [
            | inl is ↦ omega (arith, own x a at_a is, lt, same_work)
            | inr o ↦ omega (arith, o.is_work, h.most x o.block o.at o.counts)
          ];
        })
        | inr (inl (e, eq)) ↦ rw e (record {
          work = h.work;
          some_head = omega (arith, h.some_head, length-append heads (b ∷ []));
          each =
              All-append (Head new h.work) heads (b ∷ [])
                (move_heads old new h.work heads keeps h.each)
                (record { block = block; at = at; is_work = eq ∙ same_work; counts = c }, _);
          most = λ x a at_a c_a. elim (fresh x a at_a c_a) [
            | inl is ↦ omega (arith, own x a at_a is, eq, same_work)
            | inr o ↦ omega (arith, o.is_work, h.most x o.block o.at o.counts)
          ];
        })
        | inr (inr (e, gt)) ↦ rw e (record {
          work = block.total_work;
          some_head = omega arith;
          each = (record { block = block; at = at; is_work = refl; counts = c }, _);
          most = λ x a at_a c_a. elim (fresh x a at_a c_a) [
            | inl is ↦ omega (arith, own x a at_a is)
            | inr o ↦ omega (arith, o.is_work, h.most x o.block o.at o.counts, gt, same_work)
          ];
        })
      ]

  pub first-Head :
      (blocks : List Block) (heads : List ℕ) (h : Heads blocks heads)
      → (f : ℕ) × (get_elem? heads 0 ≡ some f) × Head blocks h.work f
  first-Head blocks [] h = absurd (omega (arith, h.some_head))
  first-Head blocks (f ∷ fs) h = (f, refl, h.each.0)

  swapped_first :
      (heads : List ℕ) (k f b : ℕ)
      → get_elem? heads 0 ≡ some f
      → get_elem? heads k ≡ some b
      → get_elem? (set (set heads 0 b) k f) 0 ≡ some b
  swapped_first [] k f b at_f at = cc at
  swapped_first (x ∷ xs) zero f b at_f at = sym at_f ∙ at
  swapped_first (x ∷ xs) (suc k) f b at_f at = refl

  -- The first pointer changes places with another one.
  pub Heads-swap :
      (blocks : List Block) (heads : List ℕ) (k b : ℕ)
      → Heads blocks heads
      → get_elem? heads k ≡ some b
      → (swapped : List ℕ) × (swap_blockptr heads k ≡ some swapped)
        × (get_elem? swapped 0 ≡ some b)
        × Heads blocks swapped
  unfolding swap_blockptr
  Heads-swap blocks heads k b h at =
      let (f, at_f, head_f) = first-Head blocks heads h in
      let P = Head blocks h.work in
      let head_b : P b = All-get_elem? P heads k b h.each at in
      (
        set (set heads 0 b) k f,
        rw (at_f, at) refl,
        swapped_first heads k f b at_f at,
        record {
          work = h.work;
          some_head =
              omega (arith, h.some_head, length-set heads 0 b, length-set (set heads 0 b) k f);
          each = All-set P (set heads 0 b) k f (All-set P heads 0 b h.each head_b) head_f;
          most = h.most;
        },
      )

-- The same tree has the same blocks without a complaint.
pub SameTree-Keeps : (old new : List Block) → SameTree old new → Keeps IsClean old new
SameTree-Keeps old new s x a at c =
    let (b, at_b, like) = s.to x a at in
    record { block = b; at = at_b; is_work = like.work; counts = like.complaint ∙ c }

pub SameTree-Keeps_back : (old new : List Block) → SameTree old new → Keeps IsClean new old
SameTree-Keeps_back old new s x b at c =
    let (a, at_a, like) = SameTree-from old new s x b at in
    record { block = a; at = at_a; is_work = sym like.work; counts = sym like.complaint ∙ c }

-- A known block stays known.
pub SameTree-Keeps-IsKnown : (old new : List Block) → SameTree old new → Keeps IsKnown old new
SameTree-Keeps-IsKnown old new s x a at c =
    let (b, at_b, like) = s.to x a at in
    record {
      block = b;
      at = at_b;
      is_work = like.work;
      counts = (like.keeps c.0, like.complaint ∙ c.1);
    }
