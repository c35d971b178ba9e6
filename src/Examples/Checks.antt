-- ===== src/Examples/Checks.antt =====
-- signature.c and check_tx.c at concrete inputs.
use pettycoin.Base.{◌+◌, ◌≡◌, ◌↔◌, refl, true, none, some, ◌++◌, arith}
use pettycoin.Crypto.{sha256_double}
use pettycoin.Protocol.{Ecode, ecode_none}
use pettycoin.Tx.{tx_type, tx_pays_fee}
use pettycoin.Marshal.{marshal_tx_len, varsize, mul_overflows, add_overflows}
use pettycoin.Marshal.Layout.{
  signed_part, array_part, array_bytes, type_byte, input_bytes, tx_bytes,
}
use pettycoin.Check.{signature_offset, sighash_tx, check_tx_sign, correct_amount, check_tx}
use pettycoin.Check.Signed.{sighash_tx-tx_bytes}
use pettycoin.Check.Basic.{IsValid, check_tx_accepts}
use pettycoin.Check.Amount.{amount_of, fee_of, correct_amount_exact}
use pettycoin.Examples.{toy_crypto, payment}
use pettycoin.Examples.Wire.{payment-HasLayout, payment-IsSized}

sighash_tx-tx_bytes_example :
    sighash_tx payment ≡ sha256_double (signed_part payment ++ array_part payment)
sighash_tx-tx_bytes_example = sighash_tx-tx_bytes payment payment-HasLayout payment-IsSized

check_tx_accepts_example :
    ((code : Ecode) × (check_tx true payment none ≡ some code))
    × ((check_tx true payment none ≡ some ecode_none) ↔ IsValid payment none)
check_tx_accepts_example = check_tx_accepts payment none

payment-IsValid : IsValid payment none
unfolding IsValid check_tx_sign sighash_tx signature_offset tx_bytes signed_part array_part
    array_bytes type_byte input_bytes marshal_tx_len varsize mul_overflows add_overflows
    sha256_double
payment-IsValid = record {
  current = refl;
  send_small = omega arith;
  change_small = omega arith;
  some_amount = omega arith;
  some_input = omega arith;
  few_inputs = omega arith;
  is_signed = refl;
}

correct_amount_exact_example :
    (correct_amount payment 1027 ≡ true)
    ↔ (1027 ≡ amount_of payment + fee_of (tx_pays_fee payment) (amount_of payment))
unfolding tx_type
correct_amount_exact_example = correct_amount_exact payment none 1027 (λ e. cc e) payment-IsValid
