-- ===== src/Table/Delete.antt =====
-- txhash.c and inputhash.c: what the loops that take an element out do to the view of a table.
use pettycoin.Base.{
  ℕ, zero, suc, ◌+◌, ◌≡◌, ◌⊎◌, inl, inr, refl, sym, ap, ◌∙◌, subst, Bool, true, false, ◌&&◌, none,
  some, List, [], ◌∷◌, arith, if◌then◌else◌, Bool-cases, some-injective, get_elem?,
}
use mathlib.Core.Logic.Or
use mathlib.Core.List.{Mem, mem-cons, not-mem-nil}
use mathlib.Mathlib.Data.Multiset.Defs.{Multiset, of_list}
use mathlib.Mathlib.Data.Multiset.Defs as Multiset
use mathlib.Mathlib.Data.Multiset.ZeroCons.{cons, cons_inj_right, mem-cons_self}
use pettycoin.Table.{matching, with_one, position, HTable, view, del_first}

module _ {E : Type 0} (test : E → Bool) where
  -- The test fails everywhere, or there is a place from which it is passed.
  pub position_is :
      (i : ℕ) (es : List E)
      → ((position test i es ≡ none) × ((j : ℕ) (e : E) → get_elem? es j ≡ some e → test e ≡ false))
        ⊎ ((j : ℕ) × (e : E) × (position test i es ≡ some (i + j))
            × (get_elem? es j ≡ some e)
            × (test e ≡ true))
  unfolding position
  position_is i [] = inl (refl, λ j e at. cc at)
  position_is i (e ∷ es) = elim (Bool-cases (test e)) [
    | inl pass ↦ inr (0, e, rw pass (ap some (omega arith)), refl, pass)
    | inr fail ↦ elim (position_is (i + 1) es) [
      | inl (is, all) ↦ inl (rw fail is, λ j d at. everywhere fail all j d at)
      | inr (j, d, is, at, pass) ↦ inr (suc j, d, rw fail (is ∙ ap some (omega arith)), at, pass)
    ]
  ]
    where
      everywhere :
          test e ≡ false
          → ((j : ℕ) (d : E) → get_elem? es j ≡ some d → test d ≡ false)
          → (j : ℕ) (d : E) → get_elem? (e ∷ es) j ≡ some d
          → test d ≡ false
      everywhere fail all zero d at = ap test (sym (some-injective at)) ∙ fail
      everywhere fail all (suc j) d at = all j d at

module _ {E K : Type 0} (eq : E → K → Bool) (test : E → Bool) where
  -- If no element of the list has the key and passes, then none that has the key passes.
  none_passes :
      (k : K) (es : List E)
      → ((j : ℕ) (d : E) → get_elem? es j ≡ some d → (eq d k && test d) ≡ false)
      → (e : E) → eq e k ≡ true
      → test e ≡ true
      → ¬ Mem e (matching eq k es)
  none_passes k [] all e has pass m = not-mem-nil m
  none_passes k (x ∷ xs) all e has pass m =
      branch (none_passes k xs (λ j d at. all (suc j) d at) e has pass) (eq x k) m
    where
      branch :
          ¬ Mem e (matching eq k xs)
          → (b : Bool) → ¬ Mem e (if b then x ∷ matching eq k xs else matching eq k xs)
      branch later false found = later found
      branch later true found =
          Or.elim (hlevel) (mem-cons.0 found)
            (λ is. cc (ap (λ d. eq d k) (sym is) ∙ has, ap test (sym is) ∙ pass, all 0 x refl))
            later

  -- With the same key, two views that differ by one element only are the same.
  pub with_one_cancel :
      (e : E) (k : K) (a b : Multiset E) → with_one eq e k a ≡ with_one eq e k b → a ≡ b
  with_one_cancel e k a b = branch (eq e k)
    where
      branch : (has : Bool) → (if has then cons e a else a) ≡ (if has then cons e b else b) → a ≡ b
      branch true same = (cons_inj_right e a b).0 same
      branch false same = same

module _ {E K : Type 0} {hashfn : K → ℕ} {eq : E → K → Bool} (h : HTable E K hashfn eq)
    (test : E → Bool) (k : K) (t : h.Raw) where
  -- If an element is in the table that passes the test, and no other one with the key does, then the
  -- loop takes out exactly one such element, for every key.
  pub del_first_takes :
      (e : E) (m : Multiset E)
      → eq e k ≡ true
      → test e ≡ true
      → ((d : E) → eq d k ≡ true → test d ≡ true → d ≡ e)
      → view h t k ≡ cons e m
      → (k' : K) → view h t k' ≡ with_one eq e k' (view h (del_first h test k t) k')
  unfolding del_first
  del_first_takes e m has pass only is k' =
      elim (position_is (λ d. eq d k && test d) 0 (h.vals t (hashfn k))) [
        | inl (none_is, all) ↦ absurd (
            none_passes eq test k (h.vals t (hashfn k)) all e has pass
              (subst (λ s. Multiset.Mem s e) (sym is) (mem-cons_self e m)))
        | inr (j, d, some_is, at, passed) ↦
            let (has_d, pass_d) = both (eq d k) (test d) passed in
            let same : d ≡ e = only d has_d pass_d in
            rw (some_is ∙ ap some (zero_plus j)) (
              subst (λ x. view h t k' ≡ with_one eq x k' (view h (h.delval t (hashfn k) j) k')) same
                (h.vals-delval t (hashfn k) j d k' at))
      ]
    where
      zero_plus : (n : ℕ) → 0 + n ≡ n
      zero_plus n = omega arith

      both : (p q : Bool) → (p && q) ≡ true → (p ≡ true) × (q ≡ true)
      both true q e' = (refl, e')
      both false q e' = cc e'
