-- ===== src/Examples/Tables.antt =====
-- The tables and the checks of inputs at concrete inputs, over lists for tables.
use pettycoin.Base.{
  ℕ, ◌<◌, arith, ◌≡◌, ◌⊎◌, refl, false, none, some, List, [], ◌∷◌, replicate, Bytes,
}
use pettycoin.Protocol.{claim, TxClaim}
use pettycoin.Tx.{num_inputs, tx_input, get_tx_input_address, IsSized}
use pettycoin.Table.{view}
use pettycoin.Table.Lists.{list_table}
use pettycoin.TxHash.{
  in_block, TxHashElem, txhash_hashfn, txhash_eq, TxTable, txhash_del_tx, txhash_add_tx,
}
use pettycoin.TxHash.Trip.{txhash_del_tx-txhash_add_tx}
use pettycoin.InputHash.{
  InputHashKey, InputHashElem, inputhash_hashfn, inputhash_eq, InputTable, inputhash_add_tx,
  inputhash_del_tx,
}
use pettycoin.InputHash.Trip.{inputhash_del_tx-inputhash_add_tx}
use pettycoin.TxInHashes.{Hashes, txhash_gettx_ancestor, ancestor_loop}
use pettycoin.Crypto.{pubkey_to_addr}
use pettycoin.Tx.{find_output}
use pettycoin.Shard.{txp, new_block_shard, num_shards, shard_is_tx, tx_for}
use pettycoin.Block.{Block, block_get_tx}
use pettycoin.Chain.{block_preceeds}
use pettycoin.TxHash.{place_is_tx, tx_at}
use pettycoin.InputHash.{key_of}
use pettycoin.Examples.Chains.{header_at}
use pettycoin.Check.Inputs.{
  fails, check_simple_input, tx_find_doublespend, spends_loop, spend_loop, spend_round,
  input_unknown, input_bad, input_doublespend, all_counted, check_one_input, inputs_loop,
  check_tx_inputs,
}
use pettycoin.Check.Codes.{check_tx_inputs_first_error, check_tx_inputs_claim}
use pettycoin.Examples.{old_hash, key, payment, first_input, toy_crypto}

abbrev pub tx_list : TxTable
tx_list = list_table txhash_eq txhash_hashfn

-- A hash that puts everything in one place.
abbrev pub no_hash : Bytes → ℕ → ℕ
no_hash mem base = 0

abbrev pub input_list : InputTable no_hash
input_list = list_table inputhash_eq (inputhash_hashfn no_hash)

abbrev pub empty_tables : Hashes tx_list no_hash input_list
empty_tables = record { txhash = []; inputhash = [] }

abbrev one_known : List TxHashElem
one_known = record { sha = old_hash; u = in_block 0; shardnum = 1; txoff = 0 } ∷ []

txhash_del_tx-txhash_add_tx_example :
    view tx_list
      (txhash_del_tx tx_list
        (txhash_add_tx tx_list one_known (in_block 2) 1 3 old_hash)
        (in_block 2)
        1
        3
        old_hash)
      old_hash
    ≡ view tx_list one_known old_hash
txhash_del_tx-txhash_add_tx_example =
    txhash_del_tx-txhash_add_tx tx_list one_known 2 1 3 old_hash old_hash

payment-IsSized : IsSized payment
unfolding IsSized
payment-IsSized = refl

inputhash_del_tx-inputhash_add_tx_example :
    (mid : List InputHashElem) × (after : List InputHashElem) × (inputhash_add_tx no_hash input_list
        [] payment
      ≡ some mid)
    × (inputhash_del_tx no_hash input_list mid payment ≡ some after)
    × ((k : InputHashKey) → view input_list after k ≡ view input_list [] k)
inputhash_del_tx-inputhash_add_tx_example =
    inputhash_del_tx-inputhash_add_tx no_hash input_list [] payment payment-IsSized

-- The output that the payment spends is in a block, with another transaction that spends it.
abbrev full_block : Block
full_block = record {
  hdr = header_at 0;
  shard_nums = 2 ∷ 0 ∷ [];
  merkles = [];
  prev_txhashes = [];
  tailer = record { timestamp = 0; difficulty = 0; nonce1 = 0 };
  sha = old_hash;
  shard =
      record (new_block_shard 0 2) {
        txcount = 2;
        u =
            txp (record { tx = payment; refs = [] })
            ∷ txp (record { tx = payment; refs = [] })
            ∷ [];
      }
      ∷ [];
  total_work = 0;
  pending_features = 0;
  all_known = false;
  complaint = false;
  prev = none;
  children = [];
}

abbrev spender_hash : Bytes
spender_hash = replicate 32 5

abbrev spent_tables : Hashes tx_list no_hash input_list
spent_tables = record {
  txhash =
      record { sha = old_hash; u = in_block 0; shardnum = 0; txoff = 0 }
      ∷ record { sha = spender_hash; u = in_block 0; shardnum = 0; txoff = 1 }
      ∷ [];
  inputhash = record { output = key_of first_input; used_by = spender_hash } ∷ [];
}

payment_spent :
    check_one_input tx_list no_hash input_list
      (full_block ∷ [])
      spent_tables
      0
      none
      first_input
      (pubkey_to_addr key)
      false
    ≡ some (fails input_doublespend)
unfolding check_one_input txhash_gettx_ancestor ancestor_loop block_preceeds check_simple_input
    find_output tx_find_doublespend spends_loop spend_loop spend_round place_is_tx tx_at
    pubkey_to_addr shard_is_tx tx_for new_block_shard block_get_tx num_shards
payment_spent = refl

payment_addr : get_tx_input_address payment ≡ some (pubkey_to_addr key)
unfolding get_tx_input_address
payment_addr = refl

first_of_payment : tx_input payment 0 ≡ some first_input
unfolding tx_input num_inputs
first_of_payment = refl

payment_inputs : 0 < num_inputs payment
unfolding num_inputs
payment_inputs = omega arith

check_tx_inputs_first_error_example :
    check_tx_inputs tx_list no_hash input_list (full_block ∷ []) spent_tables 0 none payment
    ≡ some input_bad
check_tx_inputs_first_error_example =
    check_tx_inputs_first_error tx_list no_hash input_list (full_block ∷ []) spent_tables 0 none
      payment (pubkey_to_addr key) 0 first_input input_doublespend payment_addr payment_inputs
      (λ k lt. absurd (omega (arith, lt))) first_of_payment payment_spent (λ e. cc e) (λ e. cc e)

abbrev a_claim : TxClaim
a_claim = record {
  version = 1;
  pays_fee = false;
  features = 0;
  input_key = key;
  amount = 7;
  input = first_input;
  signature = replicate 64 4;
}

claim_unknown :
    check_tx_inputs tx_list no_hash input_list [] empty_tables 0 none (claim a_claim)
    ≡ some input_unknown
unfolding check_tx_inputs inputs_loop check_one_input txhash_gettx_ancestor ancestor_loop
    all_counted get_tx_input_address num_inputs tx_input
claim_unknown = refl

check_tx_inputs_claim_example : (input_unknown ≡ input_unknown) ⊎ (input_unknown ≡ input_bad)
check_tx_inputs_claim_example =
    check_tx_inputs_claim tx_list no_hash input_list [] empty_tables 0 none a_claim input_unknown
      claim_unknown
