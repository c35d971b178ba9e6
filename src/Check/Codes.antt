-- ===== src/Check/Codes.antt =====
-- check_tx.c: which codes `check_tx_inputs` can return.
use pettycoin.Base.{
  ℕ, zero, ◌<◌, ◌≤◌, ==→eq, suc, ◌+◌, ◌≡◌, ◌≢◌, ◌⊎◌, inl, inr, refl, sym, ap, ◌∙◌, subst, Bool,
  true, false, Option, none, some, List, arith, ◌==◌, if◌then◌else◌, Bool-cases, ◌>>=◌, >>=-eq-some,
  some-injective, length, get_elem?, Bytes,
}
use pettycoin.Crypto.{Crypto}
use pettycoin.Protocol.{Tx, normal, from_gateway, to_gateway, claim, TxInput, TxClaim}
use pettycoin.Tx.{num_outputs, num_inputs, tx_input, get_tx_input_address}
use pettycoin.Reward.{reward_amount, reward_get_tx}
use pettycoin.Block.{Block}
use pettycoin.TxHash.{BlockOrTx, in_block, pending, TxHashElem, TxTable, tx_at}
use pettycoin.InputHash.{InputTable}
use pettycoin.TxInHashes.{Hashes, txhash_gettx_ancestor}
use pettycoin.Check.Inputs.{
  InputEcode, input_ok, input_unknown, input_bad, input_bad_amount, input_doublespend,
  input_claim_bad, InputCheck, has_amount, fails, Place, add_known, is_claim, all_counted, claim_at,
  check_claim_input, spent_check, tx_find_doublespend, check_known, check_in_place, check_elem,
  check_one_input, inputs_loop, check_tx_inputs,
}

-- No input is counted in the end as a double spend.
all_counted-not_doublespend :
    (tx : Tx) (known total : ℕ) → all_counted tx known total ≢ input_doublespend
unfolding all_counted
all_counted-not_doublespend tx known total e = ground (arith, e)

add_known-not_doublespend :
    (found : InputCheck) (next : ℕ → ℕ → Option InputEcode) (known total : ℕ) (e : InputEcode)
    → ((k t : ℕ) (e : InputEcode) → next k t ≡ some e → e ≢ input_doublespend)
    → add_known found next known total ≡ some e
    → e ≢ input_doublespend
add_known-not_doublespend (has_amount amount) next known total e h is = h _ _ e is
add_known-not_doublespend (fails input_unknown) next known total e h is = h _ _ e is
add_known-not_doublespend (fails input_ok) next known total e h is = h _ _ e is
add_known-not_doublespend (fails input_bad) next known total e h is = λ d. cc (is, d)
add_known-not_doublespend (fails input_bad_amount) next known total e h is = λ d. cc (is, d)
add_known-not_doublespend (fails input_doublespend) next known total e h is = λ d. cc (is, d)
add_known-not_doublespend (fails input_claim_bad) next known total e h is = λ d. cc (is, d)

module _ ⦃c : Crypto⦄ where
  claim_at-false :
      (place : Option (ℕ × ℕ)) (shard txoff : ℕ) (my_addr fees_to : Bytes)
      → claim_at place shard txoff my_addr fees_to ≡ false
  claim_at-false none shard txoff my_addr fees_to = refl
  claim_at-false (some place) shard txoff my_addr fees_to = ground arith

  -- `check_claim_input` never says yes: where it answers, the answer is no.
  check_claim_input-false :
      (blocks : List Block) (claim_block : ℕ) (inp : TxInput)
      (reward_block reward_shard reward_txoff : ℕ) (reward_tx : Tx) (my_addr : Bytes)
      (answer : Bool)
      → check_claim_input blocks claim_block inp reward_block reward_shard reward_txoff reward_tx
          my_addr
        ≡ some answer
      → answer ≡ false
  unfolding check_claim_input
  check_claim_input-false blocks claim_block inp b shard txoff tx my_addr answer is =
      elim (Bool-cases (inp.output == num_outputs tx + 1)) [
        | inr wrong ↦ sym (some-injective (first_test wrong))
        | inl right ↦
            let (place, at, rest) =
              >>=-eq-some (reward_get_tx (length blocks) blocks b claim_block) _
                (second_test right) in
            let (reward, at_b, last) = >>=-eq-some (get_elem? blocks b) _ rest in
            sym (some-injective last) ∙ claim_at-false place shard txoff my_addr reward.hdr.fees_to
      ]
    where
      first_test : (inp.output == num_outputs tx + 1) ≡ false → some false ≡ some answer
      first_test wrong = sym (rw wrong refl) ∙ is

      second_test :
          (inp.output == num_outputs tx + 1) ≡ true
          → (do
            place ← reward_get_tx (length blocks) blocks b claim_block
            reward ← get_elem? blocks b
            some (claim_at place shard txoff my_addr reward.hdr.fees_to))
            ≡ some answer
      second_test right = sym (rw right refl) ∙ is

  nothing_counted : (cl : TxClaim) → all_counted (claim cl) 0 0 ≡ input_unknown
  unfolding all_counted num_inputs
  nothing_counted cl = refl

  module _ (h : TxTable) (hash_any : Bytes → ℕ → ℕ) (inputs : InputTable hash_any)
      (blocks : List Block) (t : Hashes h hash_any inputs) (block : ℕ) (me : Option Place) where
    inputs_loop-not_doublespend :
        (tx : Tx) (my_addr : Bytes) (i count known total : ℕ) (e : InputEcode)
        → inputs_loop h hash_any inputs blocks t block me tx my_addr i count known total ≡ some e
        → e ≢ input_doublespend
    unfolding inputs_loop
    inputs_loop-not_doublespend tx my_addr i zero known total e is =
        λ d. all_counted-not_doublespend tx known total (some-injective is ∙ d)
    inputs_loop-not_doublespend tx my_addr i (suc count) known total e is =
        let next = inputs_loop h hash_any inputs blocks t block me tx my_addr (i + 1) count in
        let (inp, at, rest) =
          >>=-eq-some (tx_input tx i)
            (λ inp.
              check_one_input h hash_any inputs blocks t block me inp my_addr (is_claim tx)
              >>= λ found. add_known found next known total)
            is in
        let (found, checked, last) =
          >>=-eq-some
            (check_one_input h hash_any inputs blocks t block me inp my_addr (is_claim tx))
            (λ found. add_known found next known total) rest in
        add_known-not_doublespend found next known total e
          (λ k s e' is'. inputs_loop-not_doublespend tx my_addr (i + 1) count k s e' is') last

    -- `check_tx_inputs` never returns ECODE_INPUT_DOUBLESPEND.
    check_tx_inputs-not_doublespend :
        (tx : Tx) (e : InputEcode)
        → check_tx_inputs h hash_any inputs blocks t block me tx ≡ some e
        → e ≢ input_doublespend
    unfolding check_tx_inputs
    check_tx_inputs-not_doublespend (from_gateway g) e is = λ d. cc (is, d)
    check_tx_inputs-not_doublespend (normal n) e is =
        let (a, at, rest) =
          >>=-eq-some (get_tx_input_address (normal n))
            (λ a.
              inputs_loop h hash_any inputs blocks t block me (normal n) a 0 (num_inputs (normal n))
                0 0)
            is in
        inputs_loop-not_doublespend (normal n) a 0 (num_inputs (normal n)) 0 0 e rest
    check_tx_inputs-not_doublespend (to_gateway g) e is =
        let (a, at, rest) =
          >>=-eq-some (get_tx_input_address (to_gateway g))
            (λ a.
              inputs_loop h hash_any inputs blocks t block me (to_gateway g) a 0
                (num_inputs (to_gateway g)) 0 0)
            is in
        inputs_loop-not_doublespend (to_gateway g) a 0 (num_inputs (to_gateway g)) 0 0 e rest
    check_tx_inputs-not_doublespend (claim cl) e is =
        let (a, at, rest) =
          >>=-eq-some (get_tx_input_address (claim cl))
            (λ a.
              inputs_loop h hash_any inputs blocks t block me (claim cl) a 0 (num_inputs (claim cl))
                0 0)
            is in
        inputs_loop-not_doublespend (claim cl) a 0 (num_inputs (claim cl)) 0 0 e rest

    -- Input `k` is right, or its transaction is not known: the loop goes on behind it.
    pub record Passes (tx : Tx) (my_addr : Bytes) (k : ℕ) : Type 0 where
      pub inp : TxInput
      pub found : InputCheck
      pub is_input : tx_input tx k ≡ some inp
      pub checked :
          check_one_input h hash_any inputs blocks t block me inp my_addr (is_claim tx) ≡ some found
      pub passes : ((amount : ℕ) × (found ≡ has_amount amount)) ⊎ (found ≡ fails input_unknown)

    passes_on :
        (found : InputCheck) (next : ℕ → ℕ → Option InputEcode) (known total : ℕ)
        (end : Option InputEcode)
        → ((amount : ℕ) × (found ≡ has_amount amount)) ⊎ (found ≡ fails input_unknown)
        → ((k s : ℕ) → next k s ≡ end)
        → add_known found next known total ≡ end
    passes_on found next known total end (inl (amount, is)) h =
        ap (λ f. add_known f next known total) is ∙ h (known + 1) _
    passes_on found next known total end (inr is) h =
        ap (λ f. add_known f next known total) is ∙ h known total

    error_is_bad :
        (e : InputEcode) (next : ℕ → ℕ → Option InputEcode) (known total : ℕ)
        → e ≢ input_ok
        → e ≢ input_unknown
        → add_known (fails e) next known total ≡ some input_bad
    error_is_bad input_ok next known total fine known_one = absurd (fine refl)
    error_is_bad input_unknown next known total fine known_one = absurd (known_one refl)
    error_is_bad input_bad next known total fine known_one = refl
    error_is_bad input_bad_amount next known total fine known_one = refl
    error_is_bad input_doublespend next known total fine known_one = refl
    error_is_bad input_claim_bad next known total fine known_one = refl

    inputs_loop_error :
        (tx : Tx) (my_addr : Bytes) (i : ℕ) (inp : TxInput) (e : InputEcode)
        → tx_input tx i ≡ some inp
        → check_one_input h hash_any inputs blocks t block me inp my_addr (is_claim tx)
          ≡ some (fails e)
        → e ≢ input_ok
        → e ≢ input_unknown
        → (count j known total : ℕ) → j ≤ i
        → i < j + count
        → ((k : ℕ) → k < i → Passes tx my_addr k)
        → inputs_loop h hash_any inputs blocks t block me tx my_addr j count known total
          ≡ some input_bad
    unfolding inputs_loop
    inputs_loop_error tx my_addr i inp e at checked fine known_one zero j known total le lt before =
        absurd (omega arith)
    inputs_loop_error tx my_addr i inp e at checked fine known_one (suc count) j known total le lt
          before =
        let next = inputs_loop h hash_any inputs blocks t block me tx my_addr (j + 1) count in
        elim (Bool-cases (j == i)) [
          | inl here ↦
              let same : j ≡ i = ==→eq j i here in
              rw (same, at, checked)
                (error_is_bad e
                  (inputs_loop h hash_any inputs blocks t block me tx my_addr (i + 1) count) known
                  total fine known_one)
          | inr off ↦
              let p = before j (ground (arith, le, off)) in
              rw (p.is_input, p.checked)
                (passes_on p.found next known total (some input_bad) p.passes (λ k s.
                  inputs_loop_error tx my_addr i inp e at checked fine known_one count (j + 1) k s
                    (ground (arith, le, off)) (omega (arith, lt)) before))
        ]

    -- The first input of a transaction that has an error other than that it is not known decides:
    -- whatever the error is, a double spend or a bad amount or a bad claim, `check_tx_inputs` answers
    -- ECODE_INPUT_BAD.
    pub check_tx_inputs_first_error :
        (tx : Tx) (my_addr : Bytes) (i : ℕ) (inp : TxInput) (e : InputEcode)
        → get_tx_input_address tx ≡ some my_addr
        → i < num_inputs tx
        → ((k : ℕ) → k < i → Passes tx my_addr k)
        → tx_input tx i ≡ some inp
        → check_one_input h hash_any inputs blocks t block me inp my_addr (is_claim tx)
          ≡ some (fails e)
        → e ≢ input_ok
        → e ≢ input_unknown
        → check_tx_inputs h hash_any inputs blocks t block me tx ≡ some input_bad
    unfolding check_tx_inputs num_inputs
    check_tx_inputs_first_error (from_gateway g) my_addr i inp e addr lt before at checked fine
          known_one =
        absurd (omega arith)
    check_tx_inputs_first_error (normal n) my_addr i inp e addr lt before at checked fine
          known_one =
        rw addr (
          inputs_loop_error (normal n) my_addr i inp e at checked fine known_one
            (num_inputs (normal n)) 0 0 0 (omega arith) (omega arith) before)
    check_tx_inputs_first_error (to_gateway g) my_addr i inp e addr lt before at checked fine
          known_one =
        rw addr (
          inputs_loop_error (to_gateway g) my_addr i inp e at checked fine known_one
            (num_inputs (to_gateway g)) 0 0 0 (omega arith) (omega arith) before)
    check_tx_inputs_first_error (claim cl) my_addr i inp e addr lt before at checked fine
          known_one =
        rw addr (
          inputs_loop_error (claim cl) my_addr i inp e at checked fine known_one
            (num_inputs (claim cl)) 0 0 0 (omega arith) (omega arith) before)

    -- The check of an input of a claim fails.
    check_known-fails :
        (inp : TxInput) (my_addr : Bytes) (b : ℕ) (te : TxHashElem) (intx : Option Tx)
        (found : InputCheck)
        → check_known h hash_any inputs blocks t block me inp my_addr true b te intx ≡ some found
        → (e : InputEcode) × (found ≡ fails e) × (e ≢ input_ok)
    check_known-fails inp my_addr b te none found is =
        (input_unknown, sym (some-injective is), λ e. cc e)
    check_known-fails inp my_addr b te (some intx) found is =
        let (valid, checked, rest) =
          >>=-eq-some (check_claim_input blocks block inp b te.shardnum te.txoff intx my_addr) _
            is in
        let (reward, at, last) = >>=-eq-some (get_elem? blocks b) _ rest in
        let rejected =
          check_claim_input-false blocks block inp b te.shardnum te.txoff intx my_addr valid
            checked in
        (input_claim_bad, by_answer valid (reward_amount reward intx) rejected last, λ e. cc e)
      where
        by_answer :
            (valid : Bool) (amount : ℕ)
            → valid ≡ false
            → spent_check
                (tx_find_doublespend h hash_any inputs blocks t block me inp)
                (if valid then has_amount amount else fails input_claim_bad)
              ≡ some found
            → found ≡ fails input_claim_bad
        by_answer true amount no_way last = absurd (cc no_way)
        by_answer false amount e last = sym (some-injective last)

    check_in_place-fails :
        (inp : TxInput) (my_addr : Bytes) (te : TxHashElem) (u : BlockOrTx) (found : InputCheck)
        → check_in_place h hash_any inputs blocks t block me inp my_addr true te u ≡ some found
        → (e : InputEcode) × (found ≡ fails e) × (e ≢ input_ok)
    check_in_place-fails inp my_addr te (pending tx) found is = cc is
    check_in_place-fails inp my_addr te (in_block b) found is =
        let (intx, at, rest) =
          >>=-eq-some (tx_at blocks b te.shardnum te.txoff)
            (λ intx. check_known h hash_any inputs blocks t block me inp my_addr true b te intx)
            is in
        check_known-fails inp my_addr b te intx found rest

    check_elem-fails :
        (inp : TxInput) (my_addr : Bytes) (te : Option TxHashElem) (found : InputCheck)
        → check_elem h hash_any inputs blocks t block me inp my_addr true te ≡ some found
        → (e : InputEcode) × (found ≡ fails e) × (e ≢ input_ok)
    check_elem-fails inp my_addr none found is = (input_unknown, sym (some-injective is), λ e. cc e)
    check_elem-fails inp my_addr (some te) found is =
        check_in_place-fails inp my_addr te te.u found is

    check_one_input-fails :
        (inp : TxInput) (my_addr : Bytes) (found : InputCheck)
        → check_one_input h hash_any inputs blocks t block me inp my_addr true ≡ some found
        → (e : InputEcode) × (found ≡ fails e) × (e ≢ input_ok)
    unfolding check_one_input
    check_one_input-fails inp my_addr found is =
        let (te, at, rest) =
          >>=-eq-some (txhash_gettx_ancestor h hash_any inputs blocks t inp.input block)
            (λ te. check_elem h hash_any inputs blocks t block me inp my_addr true te) is in
        check_elem-fails inp my_addr te found rest

    -- The rest of the loop, after an input of a claim that fails.
    claim_counted :
        (cl : TxClaim) (next : ℕ → ℕ → Option InputEcode) (e found : InputEcode)
        → next 0 0 ≡ some input_unknown
        → found ≢ input_ok
        → add_known (fails found) next 0 0 ≡ some e
        → (e ≡ input_unknown) ⊎ (e ≡ input_bad)
    claim_counted cl next e input_ok h ne is = absurd (ne refl)
    claim_counted cl next e input_unknown h ne is = inl (sym (some-injective (sym h ∙ is)))
    claim_counted cl next e input_bad h ne is = inr (sym (some-injective is))
    claim_counted cl next e input_bad_amount h ne is = inr (sym (some-injective is))
    claim_counted cl next e input_doublespend h ne is = inr (sym (some-injective is))
    claim_counted cl next e input_claim_bad h ne is = inr (sym (some-injective is))

    -- No claim passes `check_tx_inputs`, whatever it claims: where the function answers, its answer is
    -- ECODE_INPUT_UNKNOWN or ECODE_INPUT_BAD. (`check_claim_input` returns the code 0 for success as a
    -- bool.)
    pub check_tx_inputs_claim :
        (cl : TxClaim) (e : InputEcode)
        → check_tx_inputs h hash_any inputs blocks t block me (claim cl) ≡ some e
        → (e ≡ input_unknown) ⊎ (e ≡ input_bad)
    unfolding check_tx_inputs inputs_loop num_inputs
    check_tx_inputs_claim cl e is =
        let tx = claim cl in
        let (a, at, rest) =
          >>=-eq-some (get_tx_input_address tx)
            (λ a. inputs_loop h hash_any inputs blocks t block me tx a 0 1 0 0) is in
        let next = inputs_loop h hash_any inputs blocks t block me tx a 1 0 in
        let (inp, at_i, rest') =
          >>=-eq-some (tx_input tx 0)
            (λ inp. check_one_input h hash_any inputs blocks t block me inp a true >>= λ found.
              add_known found next 0 0)
            rest in
        let (found, checked, last) =
          >>=-eq-some (check_one_input h hash_any inputs blocks t block me inp a true)
            (λ found. add_known found next 0 0) rest' in
        let (code, failed, ne) = check_one_input-fails inp a found checked in
        claim_counted cl next e code (none_known cl) ne
          (subst (λ f. add_known f next 0 0 ≡ some e) failed last)
      where
        none_known : (cl : TxClaim) → some (all_counted (claim cl) 0 0) ≡ some input_unknown
        none_known cl = ap some (nothing_counted cl)
