-- ===== src/Chain/Precedes.antt =====
-- chain.h: `block_preceeds` against the ways back along the pointers `prev`.
use pettycoin.Base.{
  ℕ, zero, suc, ◌<◌, ◌≡◌, ◌≢◌, ◌↔◌, ◌⊎◌, inl, inr, refl, sym, ap, ◌∙◌, subst, Bool, true, false,
  none, some, List, arith, leb, ◌==◌, ==→eq, Bool-cases, some-injective, get_elem?,
}
use pettycoin.Block.{Block, depth_of}
use pettycoin.Chain.{block_preceeds}

module _ (blocks : List Block) where
  -- `a` is on the way back from `b`, or is `b`.
  pub data Precedes (a : ℕ) : ℕ → Type 0 where
    same_block : Precedes a a
    further :
        {b p : ℕ} {block : Block}
        → get_elem? blocks b ≡ some block
        → block.prev ≡ some p
        → Precedes a p
        → Precedes a b

  abbrev pub HasParent : Block → Type 0
  HasParent block =
      (p : ℕ) × (parent : Block) × (block.prev ≡ some p)
      × (get_elem? blocks p ≡ some parent)
      × (depth_of block ≡ suc (depth_of parent))

  -- A block of depth 0 has no parent, every other block has one that is in the store and one less deep.
  abbrev pub IsRooted : Type 0
  IsRooted =
      (b : ℕ) (block : Block)
      → get_elem? blocks b ≡ some block
      → ((block.prev ≡ none) × (depth_of block ≡ 0)) ⊎ HasParent block

  pub Precedes-depth :
      IsRooted
      → (a b : ℕ) (from to : Block) → get_elem? blocks a ≡ some from
      → get_elem? blocks b ≡ some to
      → Precedes a b
      → (a ≡ b) ⊎ (depth_of from < depth_of to)
  Precedes-depth rooted a b from to at_a at_b same_block = inl refl
  Precedes-depth rooted a b from to at_a at_b (further {p = p} {block = block} at up rest) =
      let up_to : to.prev ≡ some p =
        subst (λ (x : Block). x.prev ≡ some p) (some-injective (sym at ∙ at_b)) up in
      elim (rooted b to at_b) [
        | inl root ↦ absurd (cc (root.0, up_to))
        | inr (q, parent, up', at_q, deep) ↦
            let same_p : q ≡ p = some-injective (sym up' ∙ up_to) in
            elim (Precedes-depth rooted a p from parent at_a (rw (← same_p) at_q) rest) [
              | inl e ↦
                  let same_depth : depth_of from ≡ depth_of parent =
                    ap depth_of
                      (some-injective (sym at_a ∙ ap (get_elem? blocks) (e ∙ sym same_p) ∙ at_q)) in
                  inr (omega arith)
              | inr lt ↦ inr (omega arith)
            ]
      ]

  -- One step back does not leave the way.
  pub back_one :
      (a b p : ℕ) (to : Block)
      → get_elem? blocks b ≡ some to
      → to.prev ≡ some p
      → a ≢ b
      → Precedes a b
      → Precedes a p
  back_one a b p to at up ne same_block = absurd (ne refl)
  back_one a b p to at up ne (further {block = block} at' up' rest) =
      let block_is : block ≡ to = some-injective (sym at' ∙ at) in
      let p_is = some-injective (sym up' ∙ ap (λ (x : Block). x.prev) block_is ∙ up) in
      subst (λ x. Precedes a x) p_is rest

  -- In a rooted store, for two blocks in it and with fuel for every depth down from that of `b`, the code
  -- answers, and says yes exactly if `a` is on the way back from `b`.
  pub block_preceeds-Precedes :
      IsRooted
      → (fuel a b : ℕ) (from to : Block) → get_elem? blocks a ≡ some from
      → get_elem? blocks b ≡ some to
      → depth_of to < fuel
      → (answer : Bool) × (block_preceeds fuel blocks a b ≡ some answer)
        × ((answer ≡ true) ↔ Precedes a b)
  unfolding block_preceeds
  block_preceeds-Precedes rooted zero a b from to at_a at_b enough = absurd (omega arith)
  block_preceeds-Precedes rooted (suc fuel) a b from to at_a at_b enough =
      elim (Bool-cases (a == b)) [
        | inl eq ↦ (
          true,
          rw eq refl,
          (λ e. subst (λ x. Precedes a x) (==→eq a b eq) same_block, λ on. refl),
        )
        | inr ne ↦ elim (Bool-cases (leb (depth_of to) (depth_of from))) [
          | inl shallow ↦ (
            false,
            rw (ne, at_a, at_b, shallow) refl,
            (
              λ e. absurd (cc e),
              λ on. elim (Precedes-depth rooted a b from to at_a at_b on) [
                | inl e ↦ absurd (ground (arith, e))
                | inr lt ↦ absurd (ground (arith, lt))
              ],
            ),
          )
          | inr deep ↦ elim (rooted b to at_b) [
            | inl root ↦ absurd (ground (arith, root.1))
            | inr (p, parent, up, at_p, one) ↦
                let (answer, is, iff) =
                  block_preceeds-Precedes rooted fuel a p from parent at_a at_p (omega arith) in
                (
                  answer,
                  rw (ne, at_a, at_b, deep, up) is,
                  (
                    λ e. further at_b up (iff.0 e),
                    λ on. iff.1 (back_one a b p to at_b up (λ e. ground (arith, e)) on),
                  ),
                )
          ]
        ]
      ]
