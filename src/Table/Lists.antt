-- ===== src/Table/Lists.antt =====
-- ccan's hash tables: the simplest one, a list in which every hash finds all elements, keeps the interface.
use pettycoin.Base.{
  ℕ, zero, suc, ◌≡◌, refl, sym, ap, ◌∙◌, Bool, true, false, some, List, [], ◌∷◌, if◌then◌else◌,
  some-injective, get_elem?,
}
use mathlib.Mathlib.Data.Multiset.Defs.{Multiset, of_list}
use mathlib.Mathlib.Data.Multiset.ZeroCons.{cons, cons-swap}
use pettycoin.Table.{matching, with_one, HTable}

module _ {E K : Type 0} (eq : E → K → Bool) where
  abbrev pub remove_at : List E → ℕ → List E
  remove_at [] i = []
  remove_at (e ∷ es) zero = es
  remove_at (e ∷ es) (suc i) = e ∷ remove_at es i

  pub with_one_list :
      (e : E) (k : K) (es : List E)
      → of_list (matching eq k (e ∷ es)) ≡ with_one eq e k (of_list (matching eq k es))
  with_one_list e k es = branch (eq e k)
    where
      branch :
          (b : Bool)
          → of_list (if b then e ∷ matching eq k es else matching eq k es)
            ≡ (if b then cons e (of_list (matching eq k es)) else of_list (matching eq k es))
      branch true = refl
      branch false = refl

  pub with_one_swap :
      (e d : E) (k : K) (m : Multiset E)
      → with_one eq e k (with_one eq d k m) ≡ with_one eq d k (with_one eq e k m)
  with_one_swap e d k m = branch (eq e k) (eq d k)
    where
      branch :
          (a b : Bool)
          → (if a then cons e (if b then cons d m else m) else (if b then cons d m else m))
            ≡ (if b then cons d (if a then cons e m else m) else (if a then cons e m else m))
      branch true true = cons-swap e d m
      branch true false = refl
      branch false true = refl
      branch false false = refl

  pub matching-remove_at :
      (k : K) (es : List E) (i : ℕ) (e : E)
      → get_elem? es i ≡ some e
      → of_list (matching eq k es) ≡ with_one eq e k (of_list (matching eq k (remove_at es i)))
  matching-remove_at k [] i e at = cc at
  matching-remove_at k (x ∷ xs) zero e at =
      with_one_list x k xs
      ∙ ap (λ d. with_one eq d k (of_list (matching eq k xs))) (some-injective at)
  matching-remove_at k (x ∷ xs) (suc i) e at =
      with_one_list x k xs
      ∙ ap (with_one eq x k) (matching-remove_at k xs i e at)
      ∙ with_one_swap x e k (of_list (matching eq k (remove_at xs i)))
      ∙ ap (with_one eq e k) (sym (with_one_list x k (remove_at xs i)))

  abbrev pub list_table : (hashfn : K → ℕ) → HTable E K hashfn eq
  list_table hashfn = record {
    Raw = List E;
    init = [];
    add = λ t e. e ∷ t;
    vals = λ t hash. t;
    delval = λ t hash i. remove_at t i;
    vals-init = λ hash. refl;
    vals-add = λ t e k. with_one_list e k t;
    vals-delval = λ t hash i e k at. matching-remove_at k t i e at;
  }
