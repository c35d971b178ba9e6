-- ===== src/Examples/Text.antt =====
-- hex.c, overflows.h and tx.c at concrete inputs.
use pettycoin.Base.{ℕ, ◌≡◌, ◌↔◌, refl, none, some, [], ◌∷◌, ◌++◌, arith, length, Bytes}
use pettycoin.Protocol.{TxInput, tx_from_gateway}
use pettycoin.Hex.{from_hex, to_hex}
use pettycoin.Hex.RoundTrip.{from_hex-to_hex}
use pettycoin.Tx.{
  IsSized, tx_type, num_outputs, reads_past_end, find_output, tx_input, find_matching_input,
  inputs_of,
}
use pettycoin.Tx.Outputs.{find_output-reads_past_end}
use pettycoin.Tx.Inputs.{NoneSpends, SpendsSame, find_matching_input_first}
use pettycoin.Examples.{toy_crypto, payment, deposit, first_input}

abbrev two_bytes : Bytes
two_bytes = 171 ∷ 5 ∷ []

from_hex-to_hex_example :
    (hex : Bytes) × (to_hex two_bytes ≡ some (hex ++ 0 ∷ []))
    × (length hex ≡ 4)
    × (from_hex hex 2 ≡ some two_bytes)
from_hex-to_hex_example = from_hex-to_hex two_bytes (omega arith, (omega arith, _))

abbrev accepted : Bytes
accepted = 97 ∷ 98 ∷ 48 ∷ 53 ∷ []

find_output-reads_past_end_example :
    (find_output deposit 1 ≡ reads_past_end)
    ↔ ((tx_type deposit ≡ tx_from_gateway) × (1 ≡ num_outputs deposit))
unfolding IsSized
find_output-reads_past_end_example = find_output-reads_past_end deposit 1 refl

find_matching_input_first_example :
    ((k : ℕ)
      → find_matching_input payment first_input ≡ some k
      → (x : TxInput) × (tx_input payment k ≡ some x)
        × SpendsSame x first_input
        × NoneSpends (inputs_of payment) k first_input)
    × (find_matching_input payment first_input ≡ none
        → (k : ℕ) → NoneSpends (inputs_of payment) k first_input)
unfolding IsSized
find_matching_input_first_example = find_matching_input_first payment first_input refl
