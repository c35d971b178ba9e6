-- ===== src/Table.antt =====
-- ccan's hash tables as txhash.c and inputhash.c use them: an interface, and the loops over the elements
-- of a key. The library's documentation: `htable_firstval` and `htable_nextval` go through elements with
-- a hash, among which are all that were added with it, in no particular order; `htable_delval` takes out
-- the one at which the loop is.
pub mod Delete
pub mod Lists
use pettycoin.Base.{
  ℕ, ◌+◌, ◌≡◌, Bool, ◌&&◌, Option, none, some, List, [], ◌∷◌, if◌then◌else◌, get_elem?,
}
use mathlib.Mathlib.Data.Multiset.Defs.{Multiset, of_list}
use mathlib.Mathlib.Data.Multiset.ZeroCons.{cons}

module _ {E K : Type 0} where
  -- The elements with the key: what a loop by `firstval` and `nextval` finds, in its order.
  abbrev pub matching : (E → K → Bool) → K → List E → List E
  matching eq k [] = []
  matching eq k (e ∷ es) = if eq e k then e ∷ matching eq k es else matching eq k es

  -- One more element, for a key that it may have.
  abbrev pub with_one : (E → K → Bool) → E → K → Multiset E → Multiset E
  with_one eq e k bag = if eq e k then cons e bag else bag

module _ {E : Type 0} where
  -- Where the first element stands that passes a test, from place `i` on.
  unfoldable pub position : (E → Bool) → (i : ℕ) → List E → Option ℕ
  position test i [] = none
  position test i (e ∷ es) = if test e then some i else position test (i + 1) es

pub record HTable (E K : Type 0) (hashfn : K → ℕ) (eq : E → K → Bool) : Type 1 where
  pub Raw : Type 0
  pub init : Raw
  pub add : Raw → E → Raw
  pub vals : Raw → (hash : ℕ) → List E
  pub delval : Raw → (hash i : ℕ) → Raw
  pub vals-init : (hash : ℕ) → vals init hash ≡ []
  pub vals-add :
      (t : Raw) (e : E) (k : K)
      → of_list (matching eq k (vals (add t e) (hashfn k)))
        ≡ with_one eq e k (of_list (matching eq k (vals t (hashfn k))))
  pub vals-delval :
      (t : Raw) (hash i : ℕ) (e : E) (k : K)
      → get_elem? (vals t hash) i ≡ some e
      → of_list (matching eq k (vals t (hashfn k)))
        ≡ with_one eq e k (of_list (matching eq k (vals (delval t hash i) (hashfn k))))

-- The elements with a key, without their order: what the table stands for.
module _ {E K : Type 0} {hashfn : K → ℕ} {eq : E → K → Bool} (h : HTable E K hashfn eq) where
  abbrev pub view : h.Raw → K → Multiset E
  view t k = of_list (matching eq k (h.vals t (hashfn k)))

  -- The loop that takes out the first element with the key that passes a test.
  unfoldable pub del_first : (E → Bool) → K → h.Raw → h.Raw
  del_first test k t = del_at (position (λ e. eq e k && test e) 0 (h.vals t (hashfn k)))
    where
      del_at : Option ℕ → h.Raw
      del_at none = t
      del_at (some i) = h.delval t (hashfn k) i
