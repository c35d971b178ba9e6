-- ===== src/InputHash.antt =====
-- inputhash.h and inputhash.c: the table of the inputs of all transactions, by the output that they
-- spend. `hash_any` of ccan is an argument.
pub mod Trip
use pettycoin.Base.{ℕ, zero, suc, ◌+◌, Bool, ◌&&◌, Option, some, ◌==◌, ◌>>=◌, Bytes, bytes_eq}
use pettycoin.Crypto.{Crypto}
use pettycoin.Protocol.{Tx, TxInput}
use pettycoin.Tx.{num_inputs, tx_input}
use pettycoin.Shard.{hash_tx}
use pettycoin.Table.{HTable, del_first}

pub record InputHashKey : Type 0 where
  pub tx : Bytes
  pub output_num : ℕ

-- `used_by` spends the output as an input.
pub record InputHashElem : Type 0 where
  pub output : InputHashKey
  pub used_by : Bytes

unfoldable pub inputhash_hashfn : (hash_any : Bytes → ℕ → ℕ) → InputHashKey → ℕ
inputhash_hashfn hash_any key = hash_any key.tx key.output_num

abbrev pub inputhash_eq : InputHashElem → InputHashKey → Bool
inputhash_eq elem output =
    output.output_num == elem.output.output_num && bytes_eq output.tx elem.output.tx

-- The interface of the table. `HTABLE_DEFINE_TYPE` names it.
abbrev pub InputTable : (Bytes → ℕ → ℕ) → Type 1
InputTable hash_any = HTable InputHashElem InputHashKey (inputhash_hashfn hash_any) inputhash_eq

abbrev pub key_of : TxInput → InputHashKey
key_of inp = record { tx = inp.input; output_num = inp.output }

abbrev pub is_used_by : Bytes → InputHashElem → Bool
is_used_by sha ie = bytes_eq ie.used_by sha

module _ (hash_any : Bytes → ℕ → ℕ) (h : InputTable hash_any) where
  -- The loop of `inputhash_add_tx`, over `count` inputs from `i`; `none` is a read through NULL.
  unfoldable pub add_inputs : Tx → (sha : Bytes) → (i count : ℕ) → h.Raw → Option h.Raw
  add_inputs tx sha i zero t = some t
  add_inputs tx sha i (suc count) t = do
    inp ← tx_input tx i
    add_inputs tx sha (i + 1) count (h.add t (record { output = key_of inp; used_by = sha }))

  -- That of `inputhash_del_tx`.
  unfoldable pub del_inputs : Tx → (sha : Bytes) → (i count : ℕ) → h.Raw → Option h.Raw
  del_inputs tx sha i zero t = some t
  del_inputs tx sha i (suc count) t = do
    inp ← tx_input tx i
    del_inputs tx sha (i + 1) count (del_first h (is_used_by sha) (key_of inp) t)

  module _ ⦃c : Crypto⦄ where
    unfoldable pub inputhash_add_tx : h.Raw → Tx → Option h.Raw
    inputhash_add_tx t tx = add_inputs tx (hash_tx tx) 0 (num_inputs tx) t

    unfoldable pub inputhash_del_tx : h.Raw → Tx → Option h.Raw
    inputhash_del_tx t tx = del_inputs tx (hash_tx tx) 0 (num_inputs tx) t
