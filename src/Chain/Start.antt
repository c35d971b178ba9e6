-- ===== src/Chain/Start.antt =====
-- state.c: the state at the start, with the genesis block, is valid.
use pettycoin.Base.{
  ℕ, zero, suc, ◌≡◌, inl, refl, sym, ap, ◌∙◌, subst, true, none, some, List, [], ◌∷◌, arith,
  some-injective, length, get_elem?,
}
use pettycoin.Block.{Block, block_all_known, depth_of}
use pettycoin.Shard.{num_shards}
use pettycoin.State.{new_state}
use pettycoin.Chain.Tree.{IsTree}
use pettycoin.Chain.Valid.{IsValid}
use pettycoin.Chain.Reach.{IsGenesis}
use pettycoin.Chain.Pointers.{prev_all_known}

single : (g : Block) (x : ℕ) (b : Block) → get_elem? (g ∷ []) x ≡ some b → (x ≡ 0) × (g ≡ b)
single g zero b e = (refl, some-injective e)
single g (suc x) b e = cc e

new_state-IsTree : (g : Block) → IsGenesis g → IsTree (record g { total_work = 0 } ∷ [])
new_state-IsTree g h =
    let first : Block = record g { total_work = 0 } in
    record {
      rooted = λ b block at.
          let (e, is) = single first b block at in
          inl (ap (λ (z : Block). z.prev) (sym is) ∙ h.no_parent, ap depth_of (sym is) ∙ h.depth);
      one_root = λ b block at low. (single first b block at).0;
      in_order = λ b block at.
          rw (ap (λ (z : Block). z.children) (sym (single first b block at).1) ∙ h.no_children) _;
      older = λ b p block at up.
          absurd (cc (ap (λ (z : Block). z.prev) (single first b block at).1, up, h.no_parent));
      linked = λ b block at.
          rw (ap (λ (z : Block). z.children) (sym (single first b block at).1) ∙ h.no_children) _;
      listed = λ b p block parent at up at_p.
          absurd (cc (ap (λ (z : Block). z.prev) (single first b block at).1, up, h.no_parent));
      inherits = λ b p block parent at up at_p bad.
          absurd (cc (ap (λ (z : Block). z.prev) (single first b block at).1, up, h.no_parent));
      shaped = λ b block at.
          subst
            (λ (z : Block).
              (length z.shard ≡ num_shards z.hdr) × (length z.shard_nums ≡ num_shards z.hdr))
            (single first b block at).1 (h.shards, h.nums);
    }

root_known : (blocks : List Block) → prev_all_known blocks none ≡ some true
unfolding prev_all_known
root_known blocks = refl

-- The start, with one block, is valid.
pub new_state-IsValid : (g : Block) → IsGenesis g → IsValid (new_state g)
unfolding new_state block_all_known
new_state-IsValid g h =
    let first : Block = record g { total_work = 0 } in
    let no_work : (x : ℕ) (b : Block) → get_elem? (first ∷ []) x ≡ some b → b.total_work ≡ 0 =
      λ x b at. ap (λ (z : Block). z.total_work) (sym (single first x b at).1) in
    record {
      core = record {
        ready = record {
          tree = new_state-IsTree g h;
          best_knowns = record {
            work = 0;
            some_head = omega arith;
            each = (
              record {
                block = first;
                at = refl;
                is_work = refl;
                counts = (h.flagged, h.no_problem);
              },
              _,
            );
            most = λ x b at c. omega (arith, no_work x b at);
          };
          honest = record {
            closed = λ x b at k.
                ap (prev_all_known (first ∷ []))
                  (ap (λ (z : Block). z.prev) (sym (single first x b at).1) ∙ h.no_parent)
                ∙ root_known (first ∷ []);
            truthful = λ x b at k. ap block_all_known (sym (single first x b at).1) ∙ h.all;
          };
          complete = λ x b at ok all up.
              inl (ap (λ (z : Block). z.all_known) (sym (single first x b at).1) ∙ h.flagged);
        };
        best_chains = record {
          work = 0;
          some_head = omega arith;
          each = (record { block = first; at = refl; is_work = refl; counts = h.no_problem }, _);
          most = λ x b at c. omega (arith, no_work x b at);
        };
      };
      preferred = record {
        known = 0;
        first = refl;
        best = 0;
        work = (first, refl, refl);
        below = inl refl;
        most = λ d w u has. omega (arith, has.2, no_work d has.0 has.1);
      };
      leveled = record {
        held = λ b block at.
            let (e, is) = single first b block at in
            (
              0 ∷ [],
              0,
              ap (λ d. get_elem? ((0 ∷ []) ∷ []) d) (ap depth_of (sym is) ∙ h.depth),
              ap some (sym e),
            );
        only = λ d j b level at at_j. only d j b level at at_j;
      };
    }
  where
    only :
        (d j b : ℕ) (level : List ℕ)
        → get_elem? ((0 ∷ []) ∷ []) d ≡ some level
        → get_elem? level j ≡ some b
        → (block : Block) × (get_elem? (record g { total_work = 0 } ∷ []) b ≡ some block)
          × (depth_of block ≡ d)
    only (suc d) j b level at at_j = cc at
    only zero j b level at at_j = one j b (ap (λ l. get_elem? l j) (some-injective at) ∙ at_j)
      where
        one :
            (j b : ℕ)
            → get_elem? (0 ∷ []) j ≡ some b
            → (block : Block) × (get_elem? (record g { total_work = 0 } ∷ []) b ≡ some block)
              × (depth_of block ≡ 0)
        one (suc j) b e = cc e
        one zero b e =
            subst
              (λ x.
                (block : Block) × (get_elem? (record g { total_work = 0 } ∷ []) x ≡ some block)
                × (depth_of block ≡ 0))
              (some-injective e) (record g { total_work = 0 }, refl, h.depth)
