-- ===== src/Chain/Tree.antt =====
-- chain.c: the tree of the blocks, and that it does not change while blocks are flagged as known or
-- their transactions come in.
use pettycoin.Base.{
  ℕ, zero, suc, ◌<◌, ◌≤◌, ◌≡◌, inl, inr, refl, sym, ap, ◌∙◌, subst, true, some, List, arith, ◌==◌,
  ==→eq, Bool-cases, some-injective, length, get_elem?, set, All, length-set, get_elem?-some,
  get_elem?-lt, get_elem?-set, get_elem?-set_other, All-map,
}
use pettycoin.Block.{Block, depth_of}
use pettycoin.Shard.{num_shards}
use pettycoin.Chain.Precedes.{IsRooted}
use pettycoin.Chain.Walks.{HasOneRoot}
use pettycoin.Chain.Best.{InOrder}
use pettycoin.Chain.Pointers.{known}

-- The blocks form one tree: the pointers to parents and the lists of children agree, parents come
-- before their children, the children of a block with a problem have it too, and every block has room for each of its shards.
pub record IsTree (blocks : List Block) : Type 0 where
  pub rooted : IsRooted blocks
  pub one_root : HasOneRoot blocks
  pub in_order : InOrder blocks
  pub older :
      (b p : ℕ) (block : Block) → get_elem? blocks b ≡ some block → block.prev ≡ some p → p < b
  pub linked :
      (b : ℕ) (block : Block)
      → get_elem? blocks b ≡ some block
      → All
          (λ c. (child : Block) × (get_elem? blocks c ≡ some child) × (child.prev ≡ some b))
          block.children
  pub listed :
      (b p : ℕ) (block parent : Block)
      → get_elem? blocks b ≡ some block
      → block.prev ≡ some p
      → get_elem? blocks p ≡ some parent
      → (j : ℕ) × (get_elem? parent.children j ≡ some b)
  pub inherits :
      (b p : ℕ) (block parent : Block)
      → get_elem? blocks b ≡ some block
      → block.prev ≡ some p
      → get_elem? blocks p ≡ some parent
      → parent.complaint ≡ true
      → block.complaint ≡ true
  pub shaped :
      (b : ℕ) (block : Block)
      → get_elem? blocks b ≡ some block
      → (length block.shard ≡ num_shards block.hdr)
        × (length block.shard_nums ≡ num_shards block.hdr)

-- The second block differs from the first at most in the entries of its shards, and in that it has
-- become known.
pub record Alike (a b : Block) : Type 0 where
  pub hdr : b.hdr ≡ a.hdr
  pub sha : b.sha ≡ a.sha
  pub merkles : b.merkles ≡ a.merkles
  pub prev_txhashes : b.prev_txhashes ≡ a.prev_txhashes
  pub tailer : b.tailer ≡ a.tailer
  pub prev : b.prev ≡ a.prev
  pub children : b.children ≡ a.children
  pub shard_nums : b.shard_nums ≡ a.shard_nums
  pub shard : length b.shard ≡ length a.shard
  pub work : b.total_work ≡ a.total_work
  pub complaint : b.complaint ≡ a.complaint
  pub keeps : a.all_known ≡ true → b.all_known ≡ true

pub Alike-refl : (a : Block) → Alike a a
Alike-refl a = record {
  hdr = refl;
  sha = refl;
  merkles = refl;
  prev_txhashes = refl;
  tailer = refl;
  prev = refl;
  children = refl;
  shard_nums = refl;
  shard = refl;
  work = refl;
  complaint = refl;
  keeps = λ k. k;
}

pub Alike-trans : (a b c : Block) → Alike a b → Alike b c → Alike a c
Alike-trans a b c x y = record {
  hdr = y.hdr ∙ x.hdr;
  sha = y.sha ∙ x.sha;
  merkles = y.merkles ∙ x.merkles;
  prev_txhashes = y.prev_txhashes ∙ x.prev_txhashes;
  tailer = y.tailer ∙ x.tailer;
  prev = y.prev ∙ x.prev;
  children = y.children ∙ x.children;
  shard_nums = y.shard_nums ∙ x.shard_nums;
  shard = y.shard ∙ x.shard;
  work = y.work ∙ x.work;
  complaint = y.complaint ∙ x.complaint;
  keeps = λ k. y.keeps (x.keeps k);
}

pub Alike-known : (a : Block) → Alike a (known a)
Alike-known a = record {
  hdr = refl;
  sha = refl;
  merkles = refl;
  prev_txhashes = refl;
  tailer = refl;
  prev = refl;
  children = refl;
  shard_nums = refl;
  shard = refl;
  work = refl;
  complaint = refl;
  keeps = λ k. refl;
}

-- The same blocks in the same places, each alike.
pub record SameTree (old new : List Block) : Type 0 where
  pub len : length new ≡ length old
  pub to :
      (x : ℕ) (a : Block)
      → get_elem? old x ≡ some a
      → (b : Block) × (get_elem? new x ≡ some b) × Alike a b

pub SameTree-refl : (old : List Block) → SameTree old old
SameTree-refl old = record { len = refl; to = λ x a at. (a, at, Alike-refl a) }

pub SameTree-trans : (a b c : List Block) → SameTree a b → SameTree b c → SameTree a c
SameTree-trans a b c s t = record {
  len = t.len ∙ s.len;
  to = λ x block at.
      let (y, at_y, like) = s.to x block at in
      let (z, at_z, like') = t.to x y at_y in (z, at_z, Alike-trans block y z like like');
}

-- From the new list back.
pub SameTree-from :
    (old new : List Block)
    → SameTree old new
    → (x : ℕ) (b : Block) → get_elem? new x ≡ some b
    → (a : Block) × (get_elem? old x ≡ some a) × Alike a b
SameTree-from old new s x b at =
    let (a, at_a) = get_elem?-some old x (omega (arith, s.len, get_elem?-lt new x at)) in
    let (b', at_b, like) = s.to x a at_a in
    (a, at_a, subst (λ y. Alike a y) (some-injective (sym at_b ∙ at)) like)

-- One block is replaced by one that is alike.
pub SameTree-set :
    (old : List Block) (x : ℕ) (a b : Block)
    → get_elem? old x ≡ some a
    → Alike a b
    → SameTree old (set old x b)
SameTree-set old x a b at like = record {
  len = length-set old x b;
  to = λ y c at_c. elim (Bool-cases (x == y)) [
    | inl eq ↦
        let same_place : x ≡ y = ==→eq x y eq in
        let same_block : a ≡ c = some-injective (sym at ∙ ap (get_elem? old) same_place ∙ at_c) in
        (
          b,
          ap (get_elem? (set old x b)) (sym same_place)
              ∙ get_elem?-set old x b (get_elem?-lt old x at),
          subst (λ z. Alike z b) same_block like,
        )
    | inr ne ↦ (c, get_elem?-set_other old x y b (λ e. ground (arith, e)) ∙ at_c, Alike-refl c)
  ];
}

pub SameTree-IsTree : (old new : List Block) → SameTree old new → IsTree old → IsTree new
SameTree-IsTree old new s t = record {
  rooted = λ b block at.
      let (a, at_a, like) = SameTree-from old new s b block at in
      elim (t.rooted b a at_a) [
        | inl root ↦ inl (like.prev ∙ root.0, ap (λ h. h.depth) like.hdr ∙ root.1)
        | inr (p, parent, up, at_p, deep) ↦
            let (parent', at', like') = s.to p parent at_p in
            inr (
              p,
              parent',
              like.prev ∙ up,
              at',
              ap (λ h. h.depth) like.hdr ∙ deep ∙ ap (λ h. suc h.depth) (sym like'.hdr),
            )
      ];
  one_root = λ b block at low.
      let (a, at_a, like) = SameTree-from old new s b block at in
      t.one_root b a at_a (sym (ap (λ h. h.depth) like.hdr) ∙ low);
  in_order = λ b block at.
      let (a, at_a, like) = SameTree-from old new s b block at in
      rw (like.children, s.len) (t.in_order b a at_a);
  older = λ b p block at up.
      let (a, at_a, like) = SameTree-from old new s b block at in
      t.older b p a at_a (sym like.prev ∙ up);
  linked = λ b block at.
      let (a, at_a, like) = SameTree-from old new s b block at in
      rw like.children (
        All-map a.children
          (λ c h.
            let (child, at_c, up) = h in
            let (child', at', like') = s.to c child at_c in (child', at', like'.prev ∙ up))
          (t.linked b a at_a));
  listed = λ b p block parent at up at_p.
      let (a, at_a, like) = SameTree-from old new s b block at in
      let (q, at_q, like') = SameTree-from old new s p parent at_p in
      rw like'.children (t.listed b p a q at_a (sym like.prev ∙ up) at_q);
  inherits = λ b p block parent at up at_p bad.
      let (a, at_a, like) = SameTree-from old new s b block at in
      let (q, at_q, like') = SameTree-from old new s p parent at_p in
      like.complaint
      ∙ t.inherits b p a q at_a (sym like.prev ∙ up) at_q (sym like'.complaint ∙ bad);
  shaped = λ b block at.
      let (a, at_a, like) = SameTree-from old new s b block at in
      let (x, y) = t.shaped b a at_a in
      (
        like.shard ∙ x ∙ ap num_shards (sym like.hdr),
        ap length like.shard_nums ∙ y ∙ ap num_shards (sym like.hdr),
      );
}

-- A block is no deeper than its number.
pub depth_low :
    (blocks : List Block)
    → IsTree blocks
    → (fuel b : ℕ) (block : Block) → b < fuel
    → get_elem? blocks b ≡ some block
    → depth_of block ≤ b
depth_low blocks t zero b block h at = absurd (omega arith)
depth_low blocks t (suc fuel) b block h at = elim (t.rooted b block at) [
  | inl root ↦ omega (arith, root.1)
  | inr (p, parent, up, at_p, deep) ↦
      let lt = t.older b p block at up in
      omega (arith, lt, deep, depth_low blocks t fuel p parent (omega (arith, lt)) at_p)
]
