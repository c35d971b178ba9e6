-- ===== src/Tx.antt =====
-- tx.h and tx.c: what the rest of the program reads off a transaction.
pub mod Outputs
pub mod Inputs
use mathlib.Core.Bool.{cond}
use pettycoin.Base.{
  ℕ, zero, suc, ◌+◌, ◌-◌, ◌*◌, ◌/◌, ◌<◌, ◌≤◌, ◌≡◌, Bool, true, false, ◌&&◌, Option, none, some,
  List, [], ◌∷◌, ltb, leb, ◌==◌, if◌then◌else◌, Bytes, u32, bytes_eq, get_elem?, take, length,
  ◌>>=◌,
}
use pettycoin.Crypto.{Crypto, pubkey_to_addr}
use pettycoin.Protocol.{
  TxType, tx_normal, tx_from_gateway, tx_to_gateway, tx_claim, Tx, normal, from_gateway, to_gateway,
  claim, TxInput, GatewayPayment,
}

unfoldable pub tx_type : Tx → TxType
tx_type (normal t) = tx_normal
tx_type (from_gateway t) = tx_from_gateway
tx_type (to_gateway t) = tx_to_gateway
tx_type (claim t) = tx_claim

unfoldable pub tx_pays_fee : Tx → Bool
tx_pays_fee (normal t) = t.pays_fee
tx_pays_fee (from_gateway t) = t.pays_fee
tx_pays_fee (to_gateway t) = t.pays_fee
tx_pays_fee (claim t) = t.pays_fee

unfoldable pub num_inputs : Tx → ℕ
num_inputs (normal t) = t.num_inputs
num_inputs (from_gateway t) = 0
num_inputs (to_gateway t) = t.num_inputs
num_inputs (claim t) = 1

unfoldable pub num_outputs : Tx → ℕ
num_outputs (normal t) = 2
num_outputs (from_gateway t) = t.num_outputs
num_outputs (to_gateway t) = 0
num_outputs (claim t) = 1

-- The inputs that stand in memory behind, or in, the transaction.
abbrev pub inputs_of : Tx → List TxInput
inputs_of (normal t) = t.inputs
inputs_of (from_gateway t) = []
inputs_of (to_gateway t) = t.inputs
inputs_of (claim t) = t.input ∷ []

unfoldable pub tx_input : Tx → ℕ → Option TxInput
unfolding num_inputs
tx_input tx num = if leb (num_inputs tx) num then none else get_elem? (inputs_of tx) num

abbrev sum_sent : List GatewayPayment → ℕ → ℕ
sum_sent [] total = total
sum_sent (out ∷ outs) total = sum_sent outs (u32 (total + out.send_amount))

unfoldable pub tx_amount_sent : Tx → ℕ
tx_amount_sent (normal t) = u32 (t.send_amount + t.change_amount)
tx_amount_sent (from_gateway t) = sum_sent (take t.num_outputs t.outputs) 0
tx_amount_sent (to_gateway t) = u32 (t.send_amount + t.change_amount)
tx_amount_sent (claim t) = t.amount

abbrev pub same_input : TxInput → TxInput → Bool
same_input a b = bytes_eq a.input b.input && a.output == b.output

-- The scan of `find_matching_input`, from input `i` on.
matching_from : List TxInput → ℕ → TxInput → Option ℕ
matching_from [] i inp = none
matching_from (x ∷ xs) i inp = if same_input x inp then some i else matching_from xs (i + 1) inp

-- `none` is `abort`: no input matches.
unfoldable pub find_matching_input : Tx → TxInput → Option ℕ
unfolding matching_from num_inputs
find_matching_input tx inp = matching_from (take (num_inputs tx) (inputs_of tx)) 0 inp

-- The counts in the structure are those of the arrays in memory behind it; `unmarshal_tx` sees to it.
unfoldable pub IsSized : Tx → Type 0
IsSized (normal t) = t.num_inputs ≡ length t.inputs
IsSized (from_gateway t) = t.num_outputs ≡ length t.outputs
IsSized (to_gateway t) = t.num_inputs ≡ length t.inputs
IsSized (claim t) = Unit

-- What `find_output` does: it fails, it gives an address and an amount, or it reads an entry behind
-- the outputs that the transaction has.
pub data FindOutput : Type 0 where
  no_output : FindOutput
  output_is : (addr : Bytes) (amount : ℕ) → FindOutput
  reads_past_end : FindOutput

abbrev read_output : Option GatewayPayment → FindOutput
read_output none = reads_past_end
read_output (some out) = output_is out.output_addr out.send_amount

module _ ⦃c : Crypto⦄ where
  -- `none` is `abort`: a gateway's transaction has no input address.
  unfoldable pub get_tx_input_address : Tx → Option Bytes
  get_tx_input_address (normal t) = some (pubkey_to_addr t.input_key)
  get_tx_input_address (from_gateway t) = none
  get_tx_input_address (to_gateway t) = some (pubkey_to_addr t.input_key)
  get_tx_input_address (claim t) = some (pubkey_to_addr t.input_key)

  unfoldable pub find_output : Tx → ℕ → FindOutput
  find_output (from_gateway t) output_num =
      if ltb t.num_outputs output_num
      then no_output
      else read_output (get_elem? t.outputs output_num)
  find_output (normal t) output_num =
      if output_num == 0
      then output_is t.output_addr t.send_amount
      else if output_num == 1
      then output_is (pubkey_to_addr t.input_key) t.change_amount
      else no_output
  find_output (claim t) output_num =
      if output_num == 0 then output_is (pubkey_to_addr t.input_key) t.amount else no_output
  find_output (to_gateway t) output_num = no_output
