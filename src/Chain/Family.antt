-- ===== src/Chain/Family.antt =====
-- block.c: what `block_add` makes of the tree of the blocks, which has one more block at its end.
use pettycoin.Base.{
  ℕ, suc, ◌<◌, ◌≡◌, ◌⊎◌, inl, inr, refl, sym, ap, ◌∙◌, subst, false, some, List, [], ◌∷◌, ◌++◌,
  arith, ◌==◌, ==→eq, Bool-cases, some-injective, length, get_elem?, set, All, length-append,
  length-set, get_elem?-some, get_elem?-lt, All-append, get_elem?-set, get_elem?-set_other,
  get_elem?-append, get_elem?-append_end, get_elem?-append_cases, All-map,
}
use pettycoin.Block.{Block, depth_of}
use pettycoin.Shard.{num_shards}
use pettycoin.Chain.Tree.{IsTree}

module _ (blocks : List Block) (t : IsTree blocks) (prev : ℕ) (parent : Block)
    (at_prev : get_elem? blocks prev ≡ some parent) (block : Block) where
  -- The parent with one more child, and the new block at the end.
  abbrev pub family : List Block
  family =
      set blocks prev (record parent { children = parent.children ++ length blocks ∷ [] })
      ++ block ∷ []

  -- The block may become the last of the tree.
  pub record Fits : Type 0 where
    pub prev_is : block.prev ≡ some prev
    pub childless : block.children ≡ []
    pub deeper : depth_of block ≡ suc (depth_of parent)
    pub complaint : block.complaint ≡ parent.complaint
    pub not_known : block.all_known ≡ false
    pub shards : length block.shard ≡ num_shards block.hdr
    pub nums : length block.shard_nums ≡ num_shards block.hdr

  -- The block `b`, which was `a`, may have a new child.
  pub record Grown (x : ℕ) (a b : Block) : Type 0 where
    pub hdr : b.hdr ≡ a.hdr
    pub up : b.prev ≡ a.prev
    pub shard_nums : b.shard_nums ≡ a.shard_nums
    pub shard : b.shard ≡ a.shard
    pub work : b.total_work ≡ a.total_work
    pub complaint : b.complaint ≡ a.complaint
    pub all_known : b.all_known ≡ a.all_known
    pub children :
        (b.children ≡ a.children)
        ⊎ ((x ≡ prev) × (a ≡ parent) × (b.children ≡ a.children ++ length blocks ∷ []))

  Grown-refl : (x : ℕ) (a : Block) → Grown x a a
  Grown-refl x a = record {
    hdr = refl;
    up = refl;
    shard_nums = refl;
    shard = refl;
    work = refl;
    complaint = refl;
    all_known = refl;
    children = inl refl;
  }

  abbrev bigger : Block
  bigger = record parent { children = parent.children ++ length blocks ∷ [] }

  Grown-bigger : Grown prev parent bigger
  Grown-bigger = record {
    hdr = refl;
    up = refl;
    shard_nums = refl;
    shard = refl;
    work = refl;
    complaint = refl;
    all_known = refl;
    children = inr (refl, refl, refl);
  }

  pub length-family : length family ≡ suc (length blocks)
  length-family =
      omega
        (arith, length-append (set blocks prev bigger) (block ∷ []), length-set blocks prev bigger)

  -- The new block is the last.
  pub family_at : get_elem? family (length blocks) ≡ some block
  family_at =
      subst (λ n. get_elem? family n ≡ some block) (length-set blocks prev bigger)
        (get_elem?-append_end (set blocks prev bigger) block)

  pub family_parent : get_elem? family prev ≡ some bigger
  family_parent =
      get_elem?-append (set blocks prev bigger) (block ∷ []) prev
        (omega (arith, length-set blocks prev bigger, get_elem?-lt blocks prev at_prev))
      ∙ get_elem?-set blocks prev bigger (get_elem?-lt blocks prev at_prev)

  pub family_to :
      (x : ℕ) (a : Block)
      → get_elem? blocks x ≡ some a
      → (b : Block) × (get_elem? family x ≡ some b) × Grown x a b
  family_to x a at =
      let keep =
        get_elem?-append (set blocks prev bigger) (block ∷ []) x
          (omega (arith, length-set blocks prev bigger, get_elem?-lt blocks x at)) in
      elim (Bool-cases (prev == x)) [
        | inl eq ↦
            let same_place : prev ≡ x = ==→eq prev x eq in
            let same_block : parent ≡ a =
              some-injective (sym at_prev ∙ ap (get_elem? blocks) same_place ∙ at) in
            (
              bigger,
              ap (get_elem? family) (sym same_place) ∙ family_parent,
              subst (λ y. Grown y a bigger) same_place
                  (subst (λ z. Grown prev z bigger) same_block Grown-bigger),
            )
        | inr ne ↦ (
          a,
          keep ∙ get_elem?-set_other blocks prev x bigger (λ e. ground (arith, e)) ∙ at,
          Grown-refl x a,
        )
      ]

  pub family_from :
      (x : ℕ) (b : Block)
      → get_elem? family x ≡ some b
      → ((x ≡ length blocks) × (b ≡ block))
        ⊎ ((a : Block) × (get_elem? blocks x ≡ some a) × Grown x a b)
  family_from x b at = elim (get_elem?-append_cases (set blocks prev bigger) block x at) [
    | inr (e, is) ↦ inl (e ∙ length-set blocks prev bigger, is)
    | inl old ↦
        let (a, at_a) = get_elem?-some blocks x (
          omega
            (arith, get_elem?-lt (set blocks prev bigger) x old, length-set blocks prev bigger)) in
        let (b', at_b, g) = family_to x a at_a in
        inr (a, at_a, subst (λ z. Grown x a z) (some-injective (sym at_b ∙ at)) g)
  ]

  no_child : Fits → (b : Block) → b ≡ block → b.children ≡ []
  no_child f b e = ap (λ (z : Block). z.children) e ∙ f.childless

  family_listed :
      Fits
      → (x p : ℕ) (b up : Block) → get_elem? family x ≡ some b
      → b.prev ≡ some p
      → get_elem? family p ≡ some up
      → (j : ℕ) × (get_elem? up.children j ≡ some x)
  family_listed f x p b up at is at_p = elim (family_from x b at) [
    | inl (last, new) ↦
        let place : p ≡ prev =
          some-injective (sym is ∙ ap (λ (z : Block). z.prev) new ∙ f.prev_is) in
        let same : bigger ≡ up =
          some-injective (sym family_parent ∙ ap (get_elem? family) (sym place) ∙ at_p) in
        (
          length parent.children,
          subst (λ (z : Block). get_elem? z.children (length parent.children) ≡ some x) same
              (get_elem?-append_end parent.children (length blocks) ∙ ap some (sym last)),
        )
    | inr (a, at_a, g) ↦ elim (family_from p up at_p) [
      | inl (last, new) ↦
          absurd
            (omega (arith, last, t.older x p a at_a (sym g.up ∙ is), get_elem?-lt blocks x at_a))
      | inr (q, at_q, g') ↦
          let (j, e) = t.listed x p a q at_a (sym g.up ∙ is) at_q in
          (
            j,
            elim g'.children [
              | inl same ↦ rw same e
              | inr (_, _, more) ↦ rw more (
                  get_elem?-append q.children (length blocks ∷ []) j (get_elem?-lt q.children j e)
                  ∙ e)
            ],
          )
    ]
  ]

  pub family-IsTree : Fits → IsTree family
  family-IsTree f = record {
    rooted = λ x b at. elim (family_from x b at) [
      | inl (last, new) ↦ inr (
        prev,
        bigger,
        ap (λ (z : Block). z.prev) new ∙ f.prev_is,
        family_parent,
        ap depth_of new ∙ f.deeper,
      )
      | inr (a, at_a, g) ↦ elim (t.rooted x a at_a) [
        | inl root ↦ inl (g.up ∙ root.0, ap (λ h. h.depth) g.hdr ∙ root.1)
        | inr (p, q, up, at_q, deep) ↦
            let (q', at', g') = family_to p q at_q in
            inr (
              p,
              q',
              g.up ∙ up,
              at',
              ap (λ h. h.depth) g.hdr ∙ deep ∙ ap (λ h. suc h.depth) (sym g'.hdr),
            )
      ]
    ];
    one_root = λ x b at low. elim (family_from x b at) [
      | inl (last, new) ↦ absurd (omega (arith, ap depth_of new, f.deeper, low))
      | inr (a, at_a, g) ↦ t.one_root x a at_a (sym (ap (λ h. h.depth) g.hdr) ∙ low)
    ];
    in_order = λ x b at. elim (family_from x b at) [
      | inl (last, new) ↦ rw (no_child f b new) _
      | inr (a, at_a, g) ↦
          let old : All (λ c. (x < c) × (c < length family)) a.children =
            All-map a.children (λ c h. (h.0, omega (arith, h.1, length-family)))
              (t.in_order x a at_a) in
          elim g.children [
            | inl same ↦ rw same old
            | inr (_, _, more) ↦ rw more (
                All-append (λ c. (x < c) × (c < length family)) a.children (length blocks ∷ []) old
                  ((get_elem?-lt blocks x at_a, omega (arith, length-family)), _))
          ]
    ];
    older = λ x p b at is. elim (family_from x b at) [
      | inl (last, new) ↦
          let place : p ≡ prev =
            some-injective (sym is ∙ ap (λ (z : Block). z.prev) new ∙ f.prev_is) in
          omega (arith, place, last, get_elem?-lt blocks prev at_prev)
      | inr (a, at_a, g) ↦ t.older x p a at_a (sym g.up ∙ is)
    ];
    linked = λ x b at. elim (family_from x b at) [
      | inl (last, new) ↦ rw (no_child f b new) _
      | inr (a, at_a, g) ↦
          let old =
            All-map a.children
              (λ c h.
                let (child, at_c, up) = h in
                let (child', at', g') = family_to c child at_c in (child', at', g'.up ∙ up))
              (t.linked x a at_a) in
          elim g.children [
            | inl same ↦ rw same old
            | inr (is, _, more) ↦ rw more (
                All-append
                  (λ c. (child : Block) × (get_elem? family c ≡ some child) × (child.prev ≡ some x))
                  a.children (length blocks ∷ []) old
                  ((block, family_at, f.prev_is ∙ ap some (sym is)), _))
          ]
    ];
    listed = family_listed f;
    inherits = λ x p b up at is at_p bad. elim (family_from x b at) [
      | inl (last, new) ↦
          let place : p ≡ prev =
            some-injective (sym is ∙ ap (λ (z : Block). z.prev) new ∙ f.prev_is) in
          let same : bigger ≡ up =
            some-injective (sym family_parent ∙ ap (get_elem? family) (sym place) ∙ at_p) in
          ap (λ (z : Block). z.complaint) new
          ∙ f.complaint
          ∙ ap (λ (z : Block). z.complaint) same
          ∙ bad
      | inr (a, at_a, g) ↦ elim (family_from p up at_p) [
        | inl (last, new) ↦
            absurd
              (omega (arith, last, t.older x p a at_a (sym g.up ∙ is), get_elem?-lt blocks x at_a))
        | inr (q, at_q, g') ↦
            g.complaint ∙ t.inherits x p a q at_a (sym g.up ∙ is) at_q (sym g'.complaint ∙ bad)
      ]
    ];
    shaped = λ x b at. elim (family_from x b at) [
      | inl (last, new) ↦
          subst
            (λ (z : Block).
              (length z.shard ≡ num_shards z.hdr) × (length z.shard_nums ≡ num_shards z.hdr))
            (sym new) (f.shards, f.nums)
      | inr (a, at_a, g) ↦
          let (y, z) = t.shaped x a at_a in
          (
            ap length g.shard ∙ y ∙ ap num_shards (sym g.hdr),
            ap length g.shard_nums ∙ z ∙ ap num_shards (sym g.hdr),
          )
    ];
  }
