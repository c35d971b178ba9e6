-- ===== src/Tx/Inputs.antt =====
-- tx.c: the scan of `find_matching_input`.
use pettycoin.Base.{
  ℕ, zero, suc, ◌+◌, ◌<◌, ◌≡◌, ◌↔◌, inl, inr, refl, sym, true, false, none, some, List, [], ◌∷◌,
  arith, Bool-cases, bytes_eq→eq, bytes_eq_refl, ==_refl, length, get_elem?, take, take_all,
  get_elem?-lt,
}
use pettycoin.Protocol.{TxInput, Tx, normal, from_gateway, to_gateway, claim}
use pettycoin.Tx.{
  num_inputs, inputs_of, tx_input, same_input, matching_from, find_matching_input, IsSized,
}

-- None of the first `n` inputs of the list matches.
abbrev NoneBefore : List TxInput → ℕ → TxInput → Type 0
NoneBefore xs n inp =
    (j : ℕ) (x : TxInput) → j < n → get_elem? xs j ≡ some x → same_input x inp ≡ false

NoneBefore-cons :
    (x : TxInput) (xs : List TxInput) (n : ℕ) (inp : TxInput)
    → same_input x inp ≡ false
    → NoneBefore xs n inp
    → NoneBefore (x ∷ xs) (suc n) inp
NoneBefore-cons x xs n inp miss before zero y h at = ground arith
NoneBefore-cons x xs n inp miss before (suc j) y h at = before j y (omega arith) at

pub num_inputs-length : (tx : Tx) → IsSized tx → num_inputs tx ≡ length (inputs_of tx)
unfolding num_inputs IsSized
num_inputs-length (normal t) s = s
num_inputs-length (from_gateway t) s = refl
num_inputs-length (to_gateway t) s = s
num_inputs-length (claim t) s = refl

matching_from_first :
    (xs : List TxInput) (i k : ℕ) (inp : TxInput)
    → matching_from xs i inp ≡ some k
    → (j : ℕ) × (x : TxInput) × (k ≡ i + j)
      × (get_elem? xs j ≡ some x)
      × (same_input x inp ≡ true)
      × NoneBefore xs j inp
unfolding matching_from
matching_from_first [] i k inp e = cc
matching_from_first (x ∷ xs) i k inp e = elim (Bool-cases (same_input x inp)) [
  | inl hit ↦ (0, x, ground arith, refl, hit, λ j y h. absurd (omega arith))
  | inr miss ↦
      let (j, y, at, found, hit, before) = matching_from_first xs (i + 1) k inp (ground arith) in
      (suc j, y, omega arith, found, hit, NoneBefore-cons x xs j inp miss before)
]

matching_from-none :
    (xs : List TxInput) (i : ℕ) (inp : TxInput)
    → matching_from xs i inp ≡ none
    → (n : ℕ) → NoneBefore xs n inp
unfolding matching_from
matching_from-none [] i inp e n j y h at = cc at
matching_from-none (x ∷ xs) i inp e n zero y h at = ground arith
matching_from-none (x ∷ xs) i inp e n (suc j) y h at =
    matching_from-none xs (i + 1) inp (ground arith) n j y (omega arith) at

-- The two inputs name the same output of the same transaction.
abbrev pub SpendsSame : TxInput → TxInput → Type 0
SpendsSame x inp = (x.input ≡ inp.input) × (x.output ≡ inp.output)

same_input-SpendsSame : (x inp : TxInput) → (same_input x inp ≡ true) ↔ SpendsSame x inp
same_input-SpendsSame x inp = (to, from)
  where
    to : same_input x inp ≡ true → SpendsSame x inp
    to h = (bytes_eq→eq x.input inp.input (ground (arith, h)), ground (arith, h))

    from : SpendsSame x inp → same_input x inp ≡ true
    from h = rw (h.0, h.1, bytes_eq_refl inp.input, ==_refl inp.output) refl

-- None of the first `n` inputs of the list spends what `inp` spends.
abbrev pub NoneSpends : List TxInput → ℕ → TxInput → Type 0
NoneSpends xs n inp = (j : ℕ) (x : TxInput) → j < n → get_elem? xs j ≡ some x → ¬ SpendsSame x inp

NoneBefore-NoneSpends :
    (xs : List TxInput) (n : ℕ) (inp : TxInput) → NoneBefore xs n inp → NoneSpends xs n inp
NoneBefore-NoneSpends xs n inp before j x h at same =
    cc (before j x h at, (same_input-SpendsSame x inp).1 same)

-- Where the code returns `k`, input `k` names the output and the transaction that `inp` names, and no input before it does;
-- where it aborts, no input does.
pub find_matching_input_first :
    (tx : Tx) (inp : TxInput)
    → IsSized tx
    → ((k : ℕ)
        → find_matching_input tx inp ≡ some k
        → (x : TxInput) × (tx_input tx k ≡ some x)
          × SpendsSame x inp
          × NoneSpends (inputs_of tx) k inp)
      × (find_matching_input tx inp ≡ none → (k : ℕ) → NoneSpends (inputs_of tx) k inp)
unfolding find_matching_input tx_input
find_matching_input_first tx inp s = (found, missing)
  where
    whole : take (num_inputs tx) (inputs_of tx) ≡ inputs_of tx
    whole = take_all (num_inputs tx) (inputs_of tx) (sym (num_inputs-length tx s))

    found :
        (k : ℕ)
        → find_matching_input tx inp ≡ some k
        → (x : TxInput) × (tx_input tx k ≡ some x)
          × SpendsSame x inp
          × NoneSpends (inputs_of tx) k inp
    found k e =
        let (j, x, at, get, hit, before) =
          matching_from_first (inputs_of tx) 0 k inp (rw (← whole) e) in
        let here : k ≡ j = omega arith in
        let inside : j < num_inputs tx =
          omega (arith, get_elem?-lt (inputs_of tx) j get, num_inputs-length tx s) in
        (
          x,
          ground (arith, here),
          (same_input-SpendsSame x inp).0 hit,
          NoneBefore-NoneSpends (inputs_of tx) k inp (rw here before),
        )

    missing : find_matching_input tx inp ≡ none → (k : ℕ) → NoneSpends (inputs_of tx) k inp
    missing e k =
        NoneBefore-NoneSpends (inputs_of tx) k inp
          (matching_from-none (inputs_of tx) 0 inp (rw (← whole) e) k)
