-- ===== src/Check.antt =====
-- signature.c, gateways.c and the part of check_tx.c that needs no other transaction. `none` is a failed
-- assertion.
pub mod Signed
pub mod Basic
pub mod Inputs
pub mod Codes
pub mod Amount
use pettycoin.Base.{
  ℕ, ◌+◌, ◌*◌, ◌/◌, Bool, true, false, not, Option, none, some, List, [], ◌∷◌, ◌++◌, ltb, ◌==◌,
  if◌then◌else◌, ◌>>=◌, get_or, take, drop, u32, sub64, bit, Bytes,
}
use pettycoin.Crypto.{Crypto, sha256_double}
use pettycoin.Protocol.{
  Ecode, ecode_none, tx_high_version, tx_too_large, tx_too_small, tx_too_many_inputs, tx_bad_sig,
  tx_bad_gateway, tx_cross_shards, max_satoshi, tx_max_inputs, GatewayPayment, TxFromGateway, Tx,
  normal, from_gateway, to_gateway, claim,
}
use pettycoin.Marshal.{version_ok, marshal_tx_len}
use pettycoin.Marshal.Layout.{tx_bytes, signature_of}
use pettycoin.Shard.{shard_of, next_shard_order}
use pettycoin.Block.{Block}
use pettycoin.Tx.{tx_pays_fee, tx_amount_sent}

-- The offset of what `get_signature` points to.
unfoldable pub signature_offset : Tx → ℕ
signature_offset (normal t) = 68
signature_offset (from_gateway t) = 40
signature_offset (to_gateway t) = 68
signature_offset (claim t) = 76

-- Everyone can be a gateway on testnet!
unfoldable pub accept_gateway : Bool → Option Bool
accept_gateway true = some true
accept_gateway false = none

-- PROTOCOL_FEE in 32 bits.
unfoldable pub fee : ℕ → ℕ
fee x = u32 (u32 (x * 3) / 1024 + 1)

unfoldable pub correct_amount : Tx → ℕ → Bool
correct_amount tx total =
    total == u32 (tx_amount_sent tx + (if tx_pays_fee tx then fee (tx_amount_sent tx) else 0))

module _ ⦃c : Crypto⦄ where
  -- Hash without the signature part.
  unfoldable pub sighash_tx : Tx → Bytes
  sighash_tx tx =
      let sig_offset = signature_offset tx in
      let len = sub64 (marshal_tx_len tx) (sig_offset + 64) in
      sha256_double
        (take sig_offset (tx_bytes tx) ++ take len (drop (sig_offset + 64) (tx_bytes tx)))

  -- S must be even; it is the second half of the signature.
  unfoldable pub check_tx_sign : Tx → (key : Bytes) → Bool
  check_tx_sign tx key =
      let signature = signature_of tx in
      if bit (get_or signature 63 0) 0 then false else c.verify (sighash_tx tx) signature key

  unfoldable pub check_tx_with_inputs_wellformed :
      (version send_amount change_amount num_inputs : ℕ) → Tx → (input_key : Bytes) → Ecode
  check_tx_with_inputs_wellformed version send_amount change_amount num_inputs tx input_key =
      if not (version_ok version)
      then tx_high_version
      else if ltb max_satoshi send_amount
      then tx_too_large
      else if ltb max_satoshi change_amount
      then tx_too_large
      else if u32 (send_amount + change_amount) == 0
      then tx_too_small
      else if ltb tx_max_inputs num_inputs
      then tx_too_many_inputs
      else if num_inputs == 0
      then tx_too_many_inputs
      else if not (check_tx_sign tx input_key)
      then tx_bad_sig
      else ecode_none

  -- The gateway of a payment to it is looked at if all else is right.
  unfoldable pub then_gateway : Ecode → Option Bool → Option Ecode
  then_gateway ecode_none gateway = do
    accepted ← gateway
    some (if accepted then ecode_none else tx_bad_gateway)
  then_gateway e gateway = some e

  unfoldable pub check_tx_claim : (version amount : ℕ) → Tx → (input_key : Bytes) → Ecode
  check_tx_claim version amount tx input_key =
      if not (version_ok version)
      then tx_high_version
      else if ltb max_satoshi amount
      then tx_too_large
      else if not (check_tx_sign tx input_key)
      then tx_bad_sig
      else ecode_none

-- Is this shard another than the one of the first output? There is no first one yet at the first.
abbrev pub crosses : Option ℕ → ℕ → Bool
crosses none shard = false
crosses (some the_shard) shard = not (shard == the_shard)

abbrev pub first_shard : Option ℕ → ℕ → ℕ
first_shard none shard = shard
first_shard (some the_shard) shard = the_shard

-- The loop over the outputs.
unfoldable pub check_outputs : (shard_ord : ℕ) → Option ℕ → List GatewayPayment → Ecode
check_outputs shard_ord the_shard [] = ecode_none
check_outputs shard_ord the_shard (out ∷ outs) =
    let shard = shard_of out.output_addr shard_ord in
    let rest = check_outputs shard_ord (some (first_shard the_shard shard)) outs in
    if crosses the_shard shard
    then tx_cross_shards
    else if ltb max_satoshi out.send_amount
    then tx_too_large
    else if out.send_amount == 0
    then tx_too_small
    else rest

-- The shard order that the outputs of a gateway's transaction are checked for.
unfoldable pub order_for : Option Block → ℕ
order_for none = next_shard_order
order_for (some block) = block.hdr.shard_order

module _ ⦃c : Crypto⦄ where
  -- Behind the gateway: the outputs, then the signature.
  unfoldable pub then_signature : Ecode → Bool → Ecode
  then_signature ecode_none signed = if signed then ecode_none else tx_bad_sig
  then_signature e signed = e

  unfoldable pub check_tx_from_gateway : Bool → Option Block → TxFromGateway → Option Ecode
  check_tx_from_gateway test_net block gtx =
      let outputs = check_outputs (order_for block) none (take gtx.num_outputs gtx.outputs) in
      if not (version_ok gtx.version) then some tx_high_version else do
        accepted ← accept_gateway test_net
        some (
            if accepted
            then then_signature outputs (check_tx_sign (from_gateway gtx) gtx.gateway_key)
            else tx_bad_gateway)

  unfoldable pub check_tx : Bool → Tx → Option Block → Option Ecode
  check_tx test_net (from_gateway gtx) inside_block =
      check_tx_from_gateway test_net inside_block gtx
  check_tx test_net (normal t) inside_block = some (
      check_tx_with_inputs_wellformed t.version t.send_amount t.change_amount t.num_inputs
        (normal t) t.input_key)
  check_tx test_net (to_gateway t) inside_block =
      then_gateway
        (check_tx_with_inputs_wellformed t.version t.send_amount t.change_amount t.num_inputs
          (to_gateway t) t.input_key)
        (accept_gateway test_net)
  check_tx test_net (claim t) inside_block =
      some (check_tx_claim t.version t.amount (claim t) t.input_key)
