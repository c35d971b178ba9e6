-- ===== src/Check/Inputs.antt =====
-- check_tx.c: the inputs of a transaction against the tables of what is known. `none` is a failed
-- assertion, a read through NULL or behind an array.
use pettycoin.Base.{
  ℕ, zero, suc, ◌+◌, Bool, true, false, not, ◌&&◌, Option, none, some, List, [], ◌∷◌, ◌==◌,
  if◌then◌else◌, ◌>>=◌, length, get_elem?, u32, Bytes, bytes_eq,
}
use pettycoin.Crypto.{Crypto}
use pettycoin.Protocol.{Tx, normal, from_gateway, to_gateway, claim, TxInput}
use pettycoin.Tx.{
  num_inputs, num_outputs, tx_input, FindOutput, no_output, output_is, reads_past_end, find_output,
  get_tx_input_address,
}
use pettycoin.Block.{Block}
use pettycoin.Chain.{block_preceeds}
use pettycoin.Reward.{reward_amount, reward_get_tx}
use pettycoin.Check.{correct_amount}
use pettycoin.Table.{matching}
use pettycoin.TxHash.{BlockOrTx, in_block, pending, TxHashElem, TxTable, place_is_tx, tx_at}
use pettycoin.InputHash.{InputHashElem, InputTable, inputhash_hashfn, inputhash_eq, key_of}
use pettycoin.TxInHashes.{Hashes, elems_of, txhash_gettx_ancestor}

-- `enum input_ecode`.
pub data InputEcode : Type 0 where
  input_ok input_unknown input_bad input_bad_amount input_doublespend input_claim_bad : InputEcode

-- A code, with the amount that is written through the pointer if the code is ECODE_INPUT_OK.
pub data InputCheck : Type 0 where
  has_amount : (amount : ℕ) → InputCheck
  fails : (e : InputEcode) → InputCheck

-- The place that a check is to pass over: `me`.
pub record Place : Type 0 where
  pub block : ℕ
  pub shardnum : ℕ
  pub txoff : ℕ

abbrev pub is_me : Option Place → (block : ℕ) → TxHashElem → Bool
is_me none b te = false
is_me (some me) b te = me.block == b && me.shardnum == te.shardnum && me.txoff == te.txoff

-- One round of the inner loop of `tx_find_doublespend`: an element that is in a block, is not `me`, has a
-- transaction, and is in a block on the same chain.
unfoldable pub spend_round :
    List Block
    → (block : ℕ) → Option Place
    → TxHashElem
    → BlockOrTx
    → Option (Option TxHashElem)
    → Option (Option TxHashElem)
spend_round blocks block me te (pending tx) later = later
spend_round blocks block me te (in_block b) later = if is_me me b te then later else do
  is_tx ← place_is_tx blocks b te.shardnum te.txoff
  (if not is_tx then later else do
    before ← block_preceeds (length blocks) blocks b block
    (if before then some (some te) else do
      after ← block_preceeds (length blocks) blocks block b
      (if after then some (some te) else later)))

unfoldable pub spend_loop :
    List Block → (block : ℕ) → Option Place → List TxHashElem → Option (Option TxHashElem)
spend_loop blocks block me [] = some none
spend_loop blocks block me (te ∷ tes) =
    let later = spend_loop blocks block me tes in spend_round blocks block me te te.u later

abbrev pub or_else : Option (Option TxHashElem) → Option TxHashElem → Option (Option TxHashElem)
or_else later none = later
or_else later (some te) = some (some te)

-- `check_simple_input`, given what `find_output` finds.
abbrev pub check_found : (my_addr : Bytes) → FindOutput → Option InputCheck
check_found my_addr no_output = some (fails input_bad)
check_found my_addr (output_is addr amount) =
    some (if bytes_eq my_addr addr then has_amount amount else fails input_bad)
check_found my_addr reads_past_end = none

-- The end of `check_claim_input`: the function returns a bool, and ECODE_INPUT_OK is 0.
abbrev pub input_ok_as_bool : Bool
input_ok_as_bool = false

-- One round of `check_tx_inputs`, over the code of an input: what it returns, or the count of the known
-- inputs and their sum.
abbrev pub add_known :
    InputCheck → (next : ℕ → ℕ → Option InputEcode) → (known total : ℕ) → Option InputEcode
add_known (has_amount amount) next known total = next (known + 1) (u32 (total + amount))
add_known (fails input_unknown) next known total = next known total
add_known (fails input_ok) next known total = next (known + 1) total
add_known (fails input_bad) next known total = some input_bad
add_known (fails input_bad_amount) next known total = some input_bad
add_known (fails input_doublespend) next known total = some input_bad
add_known (fails input_claim_bad) next known total = some input_bad

abbrev pub is_claim : Tx → Bool
is_claim (claim t) = true
is_claim (normal t) = false
is_claim (to_gateway t) = false
is_claim (from_gateway t) = false

-- The end of `check_tx_inputs`.
unfoldable pub all_counted : Tx → (known total : ℕ) → InputEcode
all_counted tx known total =
    if not (known == num_inputs tx)
    then input_unknown
    else if not (correct_amount tx total)
    then (if is_claim tx then input_claim_bad else input_bad_amount)
    else input_ok

module _ ⦃c : Crypto⦄ where
  unfoldable pub check_simple_input : TxInput → (intx : Tx) → (my_addr : Bytes) → Option InputCheck
  check_simple_input inp intx my_addr = check_found my_addr (find_output intx inp.output)

  -- Whether a claim may be made.
  abbrev pub claim_at : Option (ℕ × ℕ) → (shard txoff : ℕ) → (my_addr fees_to : Bytes) → Bool
  claim_at none shard txoff my_addr fees_to = false
  claim_at (some place) shard txoff my_addr fees_to =
      if not (shard == place.0 && txoff == place.1)
      then false
      else if not (bytes_eq my_addr fees_to)
      then false
      else input_ok_as_bool

  -- A claim in block number `claim_block` against the reward of a place in another block.
  unfoldable pub check_claim_input :
      List Block
      → (claim_block : ℕ) → TxInput
      → (reward_block reward_shard reward_txoff : ℕ) → (reward_tx : Tx) → (my_addr : Bytes)
      → Option Bool
  check_claim_input blocks claim_block claim_inp reward_block reward_shard reward_txoff reward_tx
        my_addr =
      if not (claim_inp.output == num_outputs reward_tx + 1) then some false else do
        place ← reward_get_tx (length blocks) blocks reward_block claim_block
        reward ← get_elem? blocks reward_block
        some (claim_at place reward_shard reward_txoff my_addr reward.hdr.fees_to)

  -- The result of `check_one_input` for an input that is right in itself.
  abbrev pub unless_spent : InputCheck → Option TxHashElem → InputCheck
  unless_spent found none = found
  unless_spent found (some te) = fails input_doublespend

  abbrev pub spent_check : (spent : Option (Option TxHashElem)) → InputCheck → Option InputCheck
  spent_check spent (fails e) = some (fails e)
  spent_check spent (has_amount amount) = do te ← spent; some (unless_spent (has_amount amount) te)

  module _ (h : TxTable) (hash_any : Bytes → ℕ → ℕ) (inputs : InputTable hash_any) where
    -- The outer loop of `tx_find_doublespend`, over the spends of the output.
    unfoldable pub spends_loop :
        List Block
        → Hashes h hash_any inputs
        → (block : ℕ) → Option Place
        → List InputHashElem
        → Option (Option TxHashElem)
    spends_loop blocks t block me [] = some none
    spends_loop blocks t block me (ie ∷ ies) = do
      let later = spends_loop blocks t block me ies
      found ← spend_loop blocks block me (elems_of h hash_any inputs t ie.used_by)
      or_else later found

    -- Searches for a spend of this input that is on the same chain.
    unfoldable pub tx_find_doublespend :
        List Block
        → Hashes h hash_any inputs
        → (block : ℕ) → Option Place
        → TxInput
        → Option (Option TxHashElem)
    tx_find_doublespend blocks t block me inp = spends_loop blocks t block me (
        matching inputhash_eq (key_of inp)
          (inputs.vals t.inputhash (inputhash_hashfn hash_any (key_of inp))))

    -- An input whose transaction is known at a place. `claim` says whether it is that of a claim.
    abbrev pub check_known :
        List Block
        → Hashes h hash_any inputs
        → (block : ℕ) → Option Place
        → TxInput
        → (my_addr : Bytes) → (is_claim : Bool) → (reward_block : ℕ) → TxHashElem
        → Option Tx
        → Option InputCheck
    check_known blocks t block me inp my_addr claims b te none = some (fails input_unknown)
    check_known blocks t block me inp my_addr true b te (some intx) = do
      valid ← check_claim_input blocks block inp b te.shardnum te.txoff intx my_addr
      reward ← get_elem? blocks b
      spent_check (tx_find_doublespend blocks t block me inp)
          (if valid then has_amount (reward_amount reward intx) else fails input_claim_bad)
    check_known blocks t block me inp my_addr false b te (some intx) = do
      found ← check_simple_input inp intx my_addr
      spent_check (tx_find_doublespend blocks t block me inp) found

    -- The element must be that of a block.
    abbrev pub check_in_place :
        List Block
        → Hashes h hash_any inputs
        → (block : ℕ) → Option Place
        → TxInput
        → (my_addr : Bytes) → (is_claim : Bool) → TxHashElem
        → BlockOrTx
        → Option InputCheck
    check_in_place blocks t block me inp my_addr claims te (pending tx) = none
    check_in_place blocks t block me inp my_addr claims te (in_block b) = do
      intx ← tx_at blocks b te.shardnum te.txoff
      check_known blocks t block me inp my_addr claims b te intx

    abbrev pub check_elem :
        List Block
        → Hashes h hash_any inputs
        → (block : ℕ) → Option Place
        → TxInput
        → (my_addr : Bytes) → (is_claim : Bool) → Option TxHashElem
        → Option InputCheck
    check_elem blocks t block me inp my_addr claims none = some (fails input_unknown)
    check_elem blocks t block me inp my_addr claims (some te) =
        check_in_place blocks t block me inp my_addr claims te te.u

    unfoldable pub check_one_input :
        List Block
        → Hashes h hash_any inputs
        → (block : ℕ) → Option Place
        → TxInput
        → (my_addr : Bytes) → (is_claim : Bool) → Option InputCheck
    check_one_input blocks t block me inp my_addr claims = do
      te ← txhash_gettx_ancestor h hash_any inputs blocks t inp.input block
      check_elem blocks t block me inp my_addr claims te

    -- The loop over the inputs, `count` of them from `i`.
    unfoldable pub inputs_loop :
        List Block
        → Hashes h hash_any inputs
        → (block : ℕ) → Option Place
        → Tx
        → (my_addr : Bytes) → (i count known total : ℕ) → Option InputEcode
    inputs_loop blocks t block me tx my_addr i zero known total = some (all_counted tx known total)
    inputs_loop blocks t block me tx my_addr i (suc count) known total = do
      let next = inputs_loop blocks t block me tx my_addr (i + 1) count
      inp ← tx_input tx i
      e ← check_one_input blocks t block me inp my_addr (is_claim tx)
      add_known e next known total

    unfoldable pub check_tx_inputs :
        List Block → Hashes h hash_any inputs → (block : ℕ) → Option Place → Tx → Option InputEcode
    check_tx_inputs blocks t block me (from_gateway g) = some input_ok
    check_tx_inputs blocks t block me (normal n) = do
      my_addr ← get_tx_input_address (normal n)
      inputs_loop blocks t block me (normal n) my_addr 0 (num_inputs (normal n)) 0 0
    check_tx_inputs blocks t block me (to_gateway g) = do
      my_addr ← get_tx_input_address (to_gateway g)
      inputs_loop blocks t block me (to_gateway g) my_addr 0 (num_inputs (to_gateway g)) 0 0
    check_tx_inputs blocks t block me (claim cl) = do
      my_addr ← get_tx_input_address (claim cl)
      inputs_loop blocks t block me (claim cl) my_addr 0 (num_inputs (claim cl)) 0 0
