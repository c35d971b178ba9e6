-- ===== src/Examples/Sorting.antt =====
-- tx_cmp.c and `check_tx_ordering` at concrete inputs: a shard of two places, of which the first is known.
use pettycoin.Base.{
  ℕ, zero, suc, ◌<◌, ◌≡◌, ◌↔◌, refl, subst, none, some, [], ◌∷◌, ◌++◌, arith, some-injective, Bytes,
  get_elem?, take, drop, length, ◌≤◌, ◌/◌, ◌-◌, false, replicate, set,
}
use pettycoin.Crypto.{pubkey_to_addr, sha256_double}
use pettycoin.Protocol.{Tx}
use pettycoin.Tx.{IsSized, get_tx_input_address}
use pettycoin.Shard.{
  BlockShard, txp, unknown, tx_for, order_address, shard_of_tx, next_shard_order, shard_of, hash_tx,
}
use pettycoin.Marshal.{marshal_tx_len, varsize, mul_overflows, add_overflows}
use pettycoin.Marshal.Layout.{tx_bytes, HasLayout, signed_part, array_part}
use pettycoin.TxCmp.{before, equal, or_else, memcmp, secondary, tx_cmp, in_order, check_tx_ordering}
use pettycoin.TxCmp.Order.{lexicographic, SortsBy, tx_cmp-lexicographic}
use pettycoin.TxHash.{pending}
use pettycoin.TxInHashes.{Hashes, txhash_get_pending_tx, pending_loop}
use pettycoin.Examples.Tables.{tx_list, no_hash, input_list}
use pettycoin.State.{PendingTx, PendingBlock}
use pettycoin.Pending.Array.{
  find_between, find_pending_in_arr, insert_at, delete_at, with_array, drop_pending_tx,
}
use pettycoin.Pending.Array.Search.{
  IsSorted as IsSortedArray, Searched, find_pending_in_arr_ends, find-insert_at-IsSorted,
  drop_pending_tx_first,
}
use pettycoin.TxCmp.Sorted.{IsSorted, FitsIn, check_tx_ordering_exact}
use pettycoin.Examples.{toy_crypto, payment, deposit, address, key}
use pettycoin.Examples.Wire.{payment-HasLayout, payment-IsSized}

abbrev payment_key : Bytes
payment_key = pubkey_to_addr key ++ tx_bytes payment

payment-SortsBy : SortsBy payment payment_key
unfolding order_address get_tx_input_address
payment-SortsBy = (pubkey_to_addr key, refl, payment-HasLayout, payment-IsSized, refl)

deposit-HasLayout : HasLayout deposit
unfolding HasLayout
deposit-HasLayout = (refl, refl, omega arith, (refl, _))

deposit-IsSized : IsSized deposit
unfolding IsSized
deposit-IsSized = refl

deposit-SortsBy : SortsBy deposit (address ++ tx_bytes deposit)
unfolding order_address
deposit-SortsBy = (address, refl, deposit-HasLayout, deposit-IsSized, refl)

tx_cmp-lexicographic_example :
    tx_cmp payment deposit ≡ some (lexicographic payment_key (address ++ tx_bytes deposit))
tx_cmp-lexicographic_example =
    tx_cmp-lexicographic payment deposit payment_key (address ++ tx_bytes deposit) payment-SortsBy
      deposit-SortsBy

abbrev half_shard : BlockShard
half_shard = record {
  shardnum = 0;
  txcount = 1;
  hashcount = 0;
  size = 2;
  proof = none;
  u = txp (record { tx = payment; refs = [] }) ∷ unknown ∷ [];
}

half_shard-IsSorted : IsSorted half_shard
unfolding tx_for
half_shard-IsSorted = record {
  sorted = sorted;
  counted = λ e. absurd (omega (arith, e));
  keys = keys;
}
  where
    sorted :
        (i j : ℕ) (t u : Tx)
        → i < j
        → tx_for half_shard i ≡ some t
        → tx_for half_shard j ≡ some u
        → tx_cmp t u ≡ some before
    sorted i zero t u lt at_t at_u = absurd (omega arith)
    sorted i (suc zero) t u lt at_t at_u = cc at_u
    sorted i (suc (suc j)) t u lt at_t at_u = cc at_u

    keys : (i : ℕ) (t : Tx) → tx_for half_shard i ≡ some t → (k : Bytes) × SortsBy t k
    keys zero t at =
        subst (λ x. (k : Bytes) × SortsBy x k) (some-injective at) (payment_key, payment-SortsBy)
    keys (suc zero) t at = cc at
    keys (suc (suc i)) t at = cc at

check_tx_ordering_exact_example :
    (check_tx_ordering half_shard 1 deposit ≡ some in_order) ↔ FitsIn half_shard 1 deposit
check_tx_ordering_exact_example =
    check_tx_ordering_exact half_shard 1 deposit (address ++ tx_bytes deposit) half_shard-IsSorted
      deposit-SortsBy (omega arith)

abbrev pending_payment : PendingTx
pending_payment = record { tx = payment; refs = [] }

abbrev pending_deposit : PendingTx
pending_deposit = record { tx = deposit; refs = [] }

payment_array-IsSorted : IsSortedArray (pending_payment ∷ [])
payment_array-IsSorted = record {
  sorted = λ i j p q lt at_i at_j. sorted i j p q lt at_i at_j;
  keys = λ i p at. keys i p at;
}
  where
    sorted :
        (i j : ℕ) (p q : PendingTx)
        → i < j
        → get_elem? (pending_payment ∷ []) i ≡ some p
        → get_elem? (pending_payment ∷ []) j ≡ some q
        → tx_cmp p.tx q.tx ≡ some before
    sorted i zero p q lt at_i at_j = absurd (omega arith)
    sorted i (suc j) p q lt at_i at_j = cc at_j

    keys :
        (i : ℕ) (p : PendingTx)
        → get_elem? (pending_payment ∷ []) i ≡ some p
        → (k : Bytes) × SortsBy p.tx k
    keys zero p at =
        subst (λ (x : PendingTx). (k : Bytes) × SortsBy x.tx k) (some-injective at)
          (payment_key, payment-SortsBy)
    keys (suc i) p at = cc at

deposit_searched : find_pending_in_arr (pending_payment ∷ []) deposit ≡ some (false, 1)
unfolding find_pending_in_arr find_between tx_cmp order_address get_tx_input_address or_else memcmp
    pubkey_to_addr
deposit_searched = refl

find-insert_at-IsSorted_example :
    IsSortedArray (insert_at (pending_payment ∷ []) 1 pending_deposit)
    × (insert_at (pending_payment ∷ []) 1 pending_deposit
        ≡ take 1 (pending_payment ∷ []) ++ pending_deposit ∷ drop 1 (pending_payment ∷ []))
    × (1 ≤ length (pending_payment ∷ []))
find-insert_at-IsSorted_example =
    find-insert_at-IsSorted (pending_payment ∷ []) payment_array-IsSorted pending_deposit
      (address ++ tx_bytes deposit) deposit-SortsBy 1 deposit_searched

-- The payment and the deposit are pending, in the shard of the deposit.
abbrev two_pending : PendingBlock
two_pending = record {
  pend = set (replicate 4 []) 0 (pending_payment ∷ pending_deposit ∷ []);
  unknown_tx = [];
  num_unknown = 0;
  needs_recheck = false;
}

deposit_shard : shard_of_tx deposit next_shard_order ≡ some 0
unfolding shard_of_tx next_shard_order order_address shard_of
deposit_shard = refl

same_deposit : tx_cmp deposit deposit ≡ some equal
unfolding tx_cmp order_address or_else memcmp secondary marshal_tx_len varsize mul_overflows
    add_overflows tx_bytes signed_part array_part
same_deposit = refl

-- The table has the deposit as pending.
abbrev with_deposit : Hashes tx_list no_hash input_list
with_deposit = record {
  txhash = record { sha = hash_tx deposit; u = pending deposit; shardnum = 0; txoff = 0 } ∷ [];
  inputhash = [];
}

deposit_pending :
    txhash_get_pending_tx tx_list no_hash input_list with_deposit (hash_tx deposit) ≡ some deposit
unfolding txhash_get_pending_tx pending_loop hash_tx sha256_double marshal_tx_len varsize
    mul_overflows add_overflows tx_bytes signed_part array_part
deposit_pending = refl

drop_pending_tx_first_example :
    (drop_pending_tx tx_list no_hash input_list with_deposit two_pending deposit
      ≡ some (with_array two_pending 0 (delete_at (pending_payment ∷ pending_deposit ∷ []) 0)))
    × (get_elem?
          (delete_at (pending_payment ∷ pending_deposit ∷ []) 0)
          (length (pending_payment ∷ pending_deposit ∷ []) / 2 - 1)
        ≡ some pending_deposit)
drop_pending_tx_first_example =
    drop_pending_tx_first tx_list no_hash input_list with_deposit two_pending deposit deposit
      pending_deposit 0 (pending_payment ∷ pending_deposit ∷ []) deposit_pending deposit_shard refl
      refl same_deposit (omega arith)

find_pending_in_arr_ends_example :
    Searched (pending_payment ∷ []) deposit (find_pending_in_arr (pending_payment ∷ []) deposit)
find_pending_in_arr_ends_example =
    find_pending_in_arr_ends (pending_payment ∷ []) payment_array-IsSorted deposit
      (address ++ tx_bytes deposit) deposit-SortsBy
