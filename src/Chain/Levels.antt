-- ===== src/Chain/Levels.antt =====
-- block.c and features.c: the parts of `block_add` that read the store or write the lists of the depths.
use pettycoin.Base.{
  ℕ, zero, suc, ◌+◌, ◌%◌, ◌<◌, ◌≤◌, ◌≡◌, ◌⊎◌, inl, inr, refl, sym, ap, ◌∙◌, subst, some, List, [],
  ◌∷◌, ◌++◌, arith, ltb, ◌==◌, ltb→lt, ltb→ge, le→leb, gt→leb, ==→eq, ==_refl, Bool-cases,
  some-injective, length, get_elem?, set, replicate, get_elem?-some, get_elem?-lt, get_elem?-set,
  get_elem?-set_other, get_elem?-append, get_elem?-append_end, get_elem?-append_cases,
}
use pettycoin.Block.{Block, depth_of}
use pettycoin.Shard.{BlockShard, new_block_shard}
use pettycoin.Features.{add_votes, count_votes, supermajorities, pending_features}
use pettycoin.Chain.Tree.{IsTree}
use pettycoin.Chain.NewBlock.{new_shards, add_to_depth}

pub new_shards_ends :
    (nums : List ℕ) (i count : ℕ)
    → i + count ≤ length nums
    → (shards : List BlockShard) × (new_shards nums i count ≡ some shards) × (length shards ≡ count)
unfolding new_shards
new_shards_ends nums i zero h = ([], refl, refl)
new_shards_ends nums i (suc count) h =
    let (num, at) = get_elem?-some nums i (omega arith) in
    let (rest, is, len) = new_shards_ends nums (i + 1) count (omega arith) in
    (new_block_shard i num ∷ rest, rw (at, is) refl, omega (arith, len))

count_votes_ends :
    (blocks : List Block)
    → IsTree blocks
    → (more b : ℕ) (block : Block) (counts : List ℕ) → get_elem? blocks b ≡ some block
    → more ≤ depth_of block
    → (after : List ℕ) × (count_votes blocks more block counts ≡ some after)
unfolding count_votes
count_votes_ends blocks t zero b block counts at h = (_, refl)
count_votes_ends blocks t (suc more) b block counts at h = elim (t.rooted b block at) [
  | inl root ↦ absurd (omega (arith, root.1))
  | inr (p, parent, up, at_p, deep) ↦
      let (after, is) =
        count_votes_ends blocks t more p parent (add_votes block.hdr.features_vote 0 counts) at_p
          (omega (arith, deep)) in
      (after, rw (up, at_p) is)
]

-- The votes can be counted: a block whose depth is a multiple of the period has one behind it.
pub pending_features_ends :
    (blocks : List Block)
    → IsTree blocks
    → (p : ℕ) (parent block : Block) → get_elem? blocks p ≡ some parent
    → block.prev ≡ some p
    → depth_of block ≡ suc (depth_of parent)
    → (features : ℕ) × (pending_features blocks block ≡ some features)
unfolding pending_features count_votes
pending_features_ends blocks t p parent block at up deep =
    elim (Bool-cases (depth_of block % 2016 == 0)) [
      | inr other ↦ (parent.pending_features, rw (other, up, at) refl)
      | inl period ↦
          let (after, is) =
            count_votes_ends blocks t 2014 p parent
              (add_votes block.hdr.features_vote 0 (replicate 8 0)) at (ground (arith, deep)) in
          (supermajorities 0 after 0, rw (period, up, at, is) refl)
    ]

-- The lists of the depths hold each block, at its depth, and nothing else.
pub record IsLeveled (blocks : List Block) (block_depth : List (List ℕ)) : Type 0 where
  pub held :
      (b : ℕ) (block : Block)
      → get_elem? blocks b ≡ some block
      → (level : List ℕ) × (j : ℕ) × (get_elem? block_depth (depth_of block) ≡ some level)
        × (get_elem? level j ≡ some b)
  pub only :
      (d j b : ℕ) (level : List ℕ)
      → get_elem? block_depth d ≡ some level
      → get_elem? level j ≡ some b
      → (block : Block) × (get_elem? blocks b ≡ some block) × (depth_of block ≡ d)

-- What `add_to_depth` gives back: the list of that depth has one more at its end.
pub record Placed (block_depth : List (List ℕ)) (depth b : ℕ) : Type 0 where
  pub next : List (List ℕ)
  pub returns : add_to_depth block_depth depth b ≡ some next
  pub new :
      (level : List ℕ) × (j : ℕ) × (get_elem? next depth ≡ some level)
      × (get_elem? level j ≡ some b)
  pub keeps :
      (d j x : ℕ) (level : List ℕ)
      → get_elem? block_depth d ≡ some level
      → get_elem? level j ≡ some x
      → (level' : List ℕ) × (j' : ℕ) × (get_elem? next d ≡ some level')
        × (get_elem? level' j' ≡ some x)
  pub only :
      (d j x : ℕ) (level : List ℕ)
      → get_elem? next d ≡ some level
      → get_elem? level j ≡ some x
      → ((d ≡ depth) × (x ≡ b))
        ⊎ ((level' : List ℕ) × (get_elem? block_depth d ≡ some level')
            × (get_elem? level' j ≡ some x))

new_level : (block_depth : List (List ℕ)) (b : ℕ) → Placed block_depth (length block_depth) b
unfolding add_to_depth
new_level block_depth b = record {
  next = block_depth ++ (b ∷ []) ∷ [];
  returns =
      rw
        (
          le→leb (length block_depth) (length block_depth) (omega arith),
          ==_refl (length block_depth),
        )
        refl;
  new = (b ∷ [], 0, get_elem?-append_end block_depth (b ∷ []), refl);
  keeps = λ d j x level at at_j. (
    level,
    j,
    get_elem?-append block_depth ((b ∷ []) ∷ []) d (get_elem?-lt block_depth d at) ∙ at,
    at_j,
  );
  only = λ d j x level at at_j. elim (get_elem?-append_cases block_depth (b ∷ []) d at) [
    | inl old ↦ inr (level, old, at_j)
    | inr (e, is) ↦ inl (e, single j x (ap (λ l. get_elem? l j) (sym is) ∙ at_j))
  ];
}
  where
    single : (j x : ℕ) → get_elem? (b ∷ []) j ≡ some x → x ≡ b
    single zero x e = sym (some-injective e)
    single (suc j) x e = cc e

old_level :
    (block_depth : List (List ℕ)) (depth b : ℕ)
    → depth < length block_depth
    → Placed block_depth depth b
unfolding add_to_depth
old_level block_depth depth b inside =
    let (level, at) = get_elem?-some block_depth depth inside in
    let next = set block_depth depth (level ++ b ∷ []) in
    let there = get_elem?-set block_depth depth (level ++ b ∷ []) inside in
    record {
      next = next;
      returns = rw (gt→leb (length block_depth) depth inside, at) refl;
      new = (level ++ b ∷ [], length level, there, get_elem?-append_end level b);
      keeps = λ d j x own at_d at_j. elim (Bool-cases (depth == d)) [
        | inl eq ↦
            let place : depth ≡ d = ==→eq depth d eq in
            let same : level ≡ own =
              some-injective (sym at ∙ ap (get_elem? block_depth) place ∙ at_d) in
            let at_level : get_elem? level j ≡ some x = ap (λ l. get_elem? l j) same ∙ at_j in
            (
              level ++ b ∷ [],
              j,
              ap (get_elem? next) (sym place) ∙ there,
              get_elem?-append level (b ∷ []) j (get_elem?-lt level j at_level) ∙ at_level,
            )
        | inr ne ↦ (
          own,
          j,
          get_elem?-set_other block_depth depth d (level ++ b ∷ []) (λ e. ground (arith, e)) ∙ at_d,
          at_j,
        )
      ];
      only = λ d j x own at_d at_j. elim (Bool-cases (depth == d)) [
        | inl eq ↦
            let place : depth ≡ d = ==→eq depth d eq in
            let same : level ++ b ∷ [] ≡ own =
              some-injective (sym there ∙ ap (get_elem? next) place ∙ at_d) in
            elim (get_elem?-append_cases level b j (ap (λ l. get_elem? l j) same ∙ at_j)) [
              | inl old ↦ inr (level, ap (get_elem? block_depth) (sym place) ∙ at, old)
              | inr (e, is) ↦ inl (sym place, is)
            ]
        | inr ne ↦ inr (
          own,
          sym (get_elem?-set_other block_depth depth d (level ++ b ∷ []) (λ e. ground (arith, e)))
              ∙ at_d,
          at_j,
        )
      ];
    }

-- A block that is at most one deeper than the deepest finds its place.
pub add_to_depth_places :
    (block_depth : List (List ℕ)) (depth b : ℕ)
    → depth ≤ length block_depth
    → Placed block_depth depth b
add_to_depth_places block_depth depth b h = elim (Bool-cases (ltb depth (length block_depth))) [
  | inl lt ↦ old_level block_depth depth b (ltb→lt depth (length block_depth) lt)
  | inr ge ↦
      let last : length block_depth ≡ depth =
        omega (arith, h, ltb→ge depth (length block_depth) ge) in
      subst (λ d. Placed block_depth d b) last (new_level block_depth b)
]
