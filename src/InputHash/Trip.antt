-- ===== src/InputHash/Trip.antt =====
-- inputhash.c: the inputs of a transaction are added and deleted.
use pettycoin.Base.{
  ℕ, suc, ◌+◌, ◌≡◌, refl, sym, ap, ap₂, ◌∙◌, Bool, true, false, ◌&&◌, some, List, [], ◌∷◌, arith,
  ◌==◌, gt→leb, ==→eq, ==_refl, length, get_elem?, get_elem?-lt, Bytes, bytes_eq, bytes_eq_refl,
  bytes_eq→eq,
}
use mathlib.Mathlib.Data.Multiset.Defs.{Multiset}
use mathlib.Mathlib.Data.Multiset.ZeroCons.{cons}
use pettycoin.Crypto.{Crypto}
use pettycoin.Protocol.{Tx, TxInput}
use pettycoin.Tx.{num_inputs, tx_input, IsSized, inputs_of}
use pettycoin.Tx.Inputs.{num_inputs-length}
use pettycoin.Shard.{hash_tx}
use pettycoin.Table.{with_one, view, del_first}
use pettycoin.Table.Delete.{with_one_cancel, del_first_takes}
use pettycoin.Table.Lists.{with_one_swap}
use pettycoin.InputHash.{
  InputHashKey, InputHashElem, inputhash_eq, InputTable, key_of, is_used_by, add_inputs, del_inputs,
  inputhash_add_tx, inputhash_del_tx,
}

abbrev pub elem : TxInput → Bytes → InputHashElem
elem inp sha = record { output = key_of inp; used_by = sha }

elem-has : (inp : TxInput) (sha : Bytes) → inputhash_eq (elem inp sha) (key_of inp) ≡ true
elem-has inp sha = ground (arith, ==_refl inp.output, bytes_eq_refl inp.input)

only_one :
    (inp : TxInput) (sha : Bytes) (d : InputHashElem)
    → inputhash_eq d (key_of inp) ≡ true
    → is_used_by sha d ≡ true
    → d ≡ elem inp sha
only_one inp sha d has used =
    let (n, b) = both (inp.output == d.output.output_num) (bytes_eq inp.input d.output.tx) has in
    ap₂ (λ k s. record { output = k; used_by = s })
      (ap₂ (λ x y. record { tx = x; output_num = y }) (sym (bytes_eq→eq inp.input d.output.tx b))
        (sym (==→eq inp.output d.output.output_num n)))
      (bytes_eq→eq d.used_by sha used)
  where
    both : (p q : Bool) → (p && q) ≡ true → (p ≡ true) × (q ≡ true)
    both true q e = (refl, e)
    both false q e = cc e

-- A bag with one element for each of these inputs, as far as they have the key.
abbrev with_all :
    List TxInput → Bytes → InputHashKey → Multiset InputHashElem → Multiset InputHashElem
with_all [] sha k m = m
with_all (inp ∷ inps) sha k m = with_one inputhash_eq (elem inp sha) k (with_all inps sha k m)

with_all-with_one :
    (inps : List TxInput) (inp : TxInput) (sha : Bytes) (k : InputHashKey)
    (m : Multiset InputHashElem)
    → with_all inps sha k (with_one inputhash_eq (elem inp sha) k m)
      ≡ with_one inputhash_eq (elem inp sha) k (with_all inps sha k m)
with_all-with_one [] inp sha k m = refl
with_all-with_one (i ∷ is) inp sha k m =
    ap (with_one inputhash_eq (elem i sha) k) (with_all-with_one is inp sha k m)
    ∙ with_one_swap inputhash_eq (elem i sha) (elem inp sha) k (with_all is sha k m)

module _ (hash_any : Bytes → ℕ → ℕ) (h : InputTable hash_any) (tx : Tx) (sha : Bytes) where
  -- The inputs from `i` on are read as these.
  Reads : (i : ℕ) → List TxInput → Type 0
  Reads i [] = Unit
  Reads i (inp ∷ inps) = (tx_input tx i ≡ some inp) × Reads (i + 1) inps

  add_inputs-view :
      (inps : List TxInput) (i : ℕ) (t : h.Raw)
      → Reads i inps
      → (t' : h.Raw) × (add_inputs hash_any h tx sha i (length inps) t ≡ some t')
        × ((k : InputHashKey) → view h t' k ≡ with_all inps sha k (view h t k))
  unfolding add_inputs Reads
  add_inputs-view [] i t r = (t, refl, λ k. refl)
  add_inputs-view (inp ∷ inps) i t r =
      let (t', is, v) = add_inputs-view inps (i + 1) (h.add t (elem inp sha)) r.1 in
      (
        t',
        rw r.0 is,
        λ k.
            v k
            ∙ ap (with_all inps sha k) (h.vals-add t (elem inp sha) k)
            ∙ with_all-with_one inps inp sha k (view h t k),
      )

  del_inputs-view :
      (inps : List TxInput) (i : ℕ) (t : h.Raw)
      → Reads i inps
      → (bags : InputHashKey → Multiset InputHashElem)
      → ((k : InputHashKey) → view h t k ≡ with_all inps sha k (bags k))
      → (t' : h.Raw) × (del_inputs hash_any h tx sha i (length inps) t ≡ some t')
        × ((k : InputHashKey) → view h t' k ≡ bags k)
  unfolding del_inputs Reads
  del_inputs-view [] i t r bags v = (t, refl, v)
  del_inputs-view (inp ∷ inps) i t r bags v =
      let e = elem inp sha in
      let there : view h t (key_of inp)
          ≡ cons e (with_all inps sha (key_of inp) (bags (key_of inp))) =
        v (key_of inp)
        ∙ owns e (key_of inp) (with_all inps sha (key_of inp) (bags (key_of inp)))
            (elem-has inp sha) in
      let taken =
        del_first_takes h (is_used_by sha) (key_of inp) t e
          (with_all inps sha (key_of inp) (bags (key_of inp))) (elem-has inp sha)
          (bytes_eq_refl sha) (only_one inp sha) there in
      let (t', is, w) =
        del_inputs-view inps (i + 1) (del_first h (is_used_by sha) (key_of inp) t) r.1 bags
          (λ k. with_one_cancel inputhash_eq (λ d. true) e k _ _ (sym (taken k) ∙ v k)) in
      (t', rw r.0 is, w)
    where
      owns :
          (e : InputHashElem) (k : InputHashKey) (m : Multiset InputHashElem)
          → inputhash_eq e k ≡ true
          → with_one inputhash_eq e k m ≡ cons e m
      owns e k m has = rw has refl

  Reads-get_elem? :
      (inps : List TxInput) (i : ℕ)
      → ((j : ℕ) (inp : TxInput) → get_elem? inps j ≡ some inp → tx_input tx (i + j) ≡ some inp)
      → Reads i inps
  unfolding Reads
  Reads-get_elem? [] i f = _
  Reads-get_elem? (inp ∷ inps) i f = (
    ap (tx_input tx) (omega arith) ∙ f 0 inp refl,
    Reads-get_elem? inps (i + 1) (λ j x at. ap (tx_input tx) (omega arith) ∙ f (suc j) x at),
  )

  inputs-Reads : IsSized tx → Reads 0 (inputs_of tx)
  unfolding tx_input
  inputs-Reads sized = Reads-get_elem? (inputs_of tx) 0 (λ j inp at.
      rw
        (gt→leb (num_inputs tx) (0 + j)
          (omega (arith, num_inputs-length tx sized, get_elem?-lt (inputs_of tx) j at)))
        (ap (get_elem? (inputs_of tx)) (omega arith) ∙ at))

module _ (hash_any : Bytes → ℕ → ℕ) (h : InputTable hash_any) ⦃c : Crypto⦄ where
  -- For a transaction whose counts are those of its arrays, `inputhash_add_tx` and then
  -- `inputhash_del_tx` both answer, and the bag of every output is as it was: whatever else spends the same
  -- outputs stays, also if the transaction has an input twice.
  pub inputhash_del_tx-inputhash_add_tx :
      (t : h.Raw) (tx : Tx)
      → IsSized tx
      → (mid : h.Raw) × (after : h.Raw) × (inputhash_add_tx hash_any h t tx ≡ some mid)
        × (inputhash_del_tx hash_any h mid tx ≡ some after)
        × ((k : InputHashKey) → view h after k ≡ view h t k)
  unfolding inputhash_add_tx inputhash_del_tx
  inputhash_del_tx-inputhash_add_tx t tx sized =
      let sha = hash_tx tx in
      let r = inputs-Reads hash_any h tx sha sized in
      let (mid, added, v) = add_inputs-view hash_any h tx sha (inputs_of tx) 0 t r in
      let (after, deleted, w) =
        del_inputs-view hash_any h tx sha (inputs_of tx) 0 mid r (view h t) v in
      let count = num_inputs-length tx sized in (mid, after, rw count added, rw count deleted, w)
