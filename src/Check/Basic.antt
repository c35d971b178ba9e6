-- ===== src/Check/Basic.antt =====
-- check_tx.c: which transactions the checks without their inputs accept.
use pettycoin.Base.{
  ℕ, ◌+◌, ◌<◌, ◌≤◌, ◌≡◌, ◌↔◌, inl, inr, refl, sym, ap, subst, Bool, true, false, Option, none, some,
  List, [], ◌∷◌, arith, ◌==◌, ==→eq, Bool-cases, some-injective, take, All, Bytes,
}
use pettycoin.Crypto.{Crypto}
use pettycoin.Protocol.{
  Ecode, ecode_none, tx_high_version, GatewayPayment, TxFromGateway, Tx, normal, from_gateway,
  to_gateway, claim,
}
use pettycoin.Marshal.{version_ok}
use pettycoin.Shard.{shard_of}
use pettycoin.Block.{Block}
use pettycoin.Check.{
  accept_gateway, check_tx_sign, check_tx_with_inputs_wellformed, then_gateway, check_tx_claim,
  crosses, first_shard, check_outputs, order_for, then_signature, check_tx_from_gateway, check_tx,
}

-- A transaction that spends: it is of the current version, its amounts are in range and not both 0, it
-- has from 1 to 4 inputs, and the signature is that of the key.
pub record Spends (version send change num : ℕ) (signed : Bool) : Type 0 where
  pub current : version ≡ 1
  pub send_small : send ≤ 536870912
  pub change_small : change ≤ 536870912
  pub some_amount : 0 < send + change
  pub some_input : 1 ≤ num
  pub few_inputs : num ≤ 4
  pub is_signed : signed ≡ true

-- The outputs are all in one shard, with amounts in range.
abbrev pub OutputFits : (shard_ord shard : ℕ) → GatewayPayment → Type 0
OutputFits shard_ord shard out =
    (shard_of out.output_addr shard_ord ≡ shard)
    × (0 < out.send_amount)
    × (out.send_amount ≤ 536870912)

module _ ⦃c : Crypto⦄ where
  check_inputs_accepted :
      (v send change num : ℕ) (tx : Tx) (key : Bytes)
      → (check_tx_with_inputs_wellformed v send change num tx key ≡ ecode_none)
        ↔ Spends v send change num (check_tx_sign tx key)
  unfolding check_tx_with_inputs_wellformed version_ok
  check_inputs_accepted v send change num tx key = (to, from)
    where
      to :
          check_tx_with_inputs_wellformed v send change num tx key ≡ ecode_none
          → Spends v send change num (check_tx_sign tx key)
      to h = record {
        current = ground arith;
        send_small = ground arith;
        change_small = ground arith;
        some_amount = ground arith;
        some_input = ground arith;
        few_inputs = ground arith;
        is_signed = ground arith;
      }

      from :
          Spends v send change num (check_tx_sign tx key)
          → check_tx_with_inputs_wellformed v send change num tx key ≡ ecode_none
      from s = ground (
        arith, s.current, s.send_small, s.change_small, s.some_amount, s.some_input, s.few_inputs,
        s.is_signed,
      )

one_output :
    (shard_ord : ℕ) (the_shard : Option ℕ) (out : GatewayPayment) (outs : List GatewayPayment)
    → (check_outputs shard_ord the_shard (out ∷ outs) ≡ ecode_none) ↔ (
        (crosses the_shard (shard_of out.output_addr shard_ord) ≡ false)
        × (0 < out.send_amount)
        × (out.send_amount ≤ 536870912)
        × (check_outputs shard_ord
              (some (first_shard the_shard (shard_of out.output_addr shard_ord)))
              outs
            ≡ ecode_none))
unfolding check_outputs
one_output shard_ord the_shard out outs = (to, from)
  where
    to :
        check_outputs shard_ord the_shard (out ∷ outs) ≡ ecode_none
        → (crosses the_shard (shard_of out.output_addr shard_ord) ≡ false)
          × (0 < out.send_amount)
          × (out.send_amount ≤ 536870912)
          × (check_outputs shard_ord
                (some (first_shard the_shard (shard_of out.output_addr shard_ord)))
                outs
              ≡ ecode_none)
    to h = (ground arith, ground arith, ground arith, ground arith)

    from :
        (crosses the_shard (shard_of out.output_addr shard_ord) ≡ false)
          × (0 < out.send_amount)
          × (out.send_amount ≤ 536870912)
          × (check_outputs shard_ord
                (some (first_shard the_shard (shard_of out.output_addr shard_ord)))
                outs
              ≡ ecode_none)
        → check_outputs shard_ord the_shard (out ∷ outs) ≡ ecode_none
    from h = ground (arith, h.0, h.1, h.2, h.3)

-- The loop behind the first output accepts those in its shard with amounts in range.
later_outputs :
    (shard_ord shard : ℕ) (outs : List GatewayPayment)
    → (check_outputs shard_ord (some shard) outs ≡ ecode_none)
      ↔ All (OutputFits shard_ord shard) outs
unfolding check_outputs
later_outputs shard_ord shard [] = (λ h. _, λ h. refl)
later_outputs shard_ord shard (out ∷ outs) =
    let one = one_output shard_ord (some shard) out outs in
    let more = later_outputs shard_ord shard outs in
    (
      λ h. let (same, pos, small, rest) = one.0 h in ((ground arith, pos, small), more.0 rest),
      λ h. one.1 (ground (arith, h.0.0), h.0.1, h.0.2, more.1 h.1),
    )

shard_outputs :
    (shard_ord : ℕ) (outs : List GatewayPayment)
    → (check_outputs shard_ord none outs ≡ ecode_none)
      ↔ ((shard : ℕ) × All (OutputFits shard_ord shard) outs)
unfolding check_outputs
shard_outputs shard_ord [] = (λ h. (0, _), λ h. refl)
shard_outputs shard_ord (out ∷ outs) =
    let shard = shard_of out.output_addr shard_ord in
    let one = one_output shard_ord none out outs in
    let more = later_outputs shard_ord shard outs in
    (
      λ h. let (_, pos, small, rest) = one.0 h in (shard, ((refl, pos, small), more.0 rest)),
      λ (s, h). one.1 (
        refl,
        h.0.1,
        h.0.2,
        more.1 (subst (λ t. All (OutputFits shard_ord t) outs) (sym h.0.0) h.1),
      ),
    )

module _ ⦃c : Crypto⦄ where
  -- What `check_tx` asks of a transaction on the test net, in a block or in none.
  unfoldable pub IsValid : Tx → Option Block → Type 0
  IsValid (normal t) block =
      Spends t.version t.send_amount t.change_amount t.num_inputs
        (check_tx_sign (normal t) t.input_key)
  IsValid (to_gateway t) block =
      Spends t.version t.send_amount t.change_amount t.num_inputs
        (check_tx_sign (to_gateway t) t.input_key)
  IsValid (claim t) block =
      (t.version ≡ 1) × (t.amount ≤ 536870912) × (check_tx_sign (claim t) t.input_key ≡ true)
  IsValid (from_gateway t) block =
      (t.version ≡ 1)
      × ((shard : ℕ) × All (OutputFits (order_for block) shard) (take t.num_outputs t.outputs))
      × (check_tx_sign (from_gateway t) t.gateway_key ≡ true)

  gateway_accepted : (e : Ecode) → (then_gateway e (some true) ≡ some ecode_none) ↔ (e ≡ ecode_none)
  unfolding then_gateway
  gateway_accepted ecode_none = (λ h. refl, λ h. refl)
  gateway_accepted e = (λ h. some-injective h, λ h. cc h)

  signature_accepted :
      (e : Ecode) (signed : Bool)
      → (then_signature e signed ≡ ecode_none) ↔ ((e ≡ ecode_none) × (signed ≡ true))
  unfolding then_signature
  signature_accepted ecode_none signed = (λ h. (refl, ground (arith, h)), λ h. rw h.1 refl)
  signature_accepted e signed = (λ h. cc h, λ h. cc (h.0))

  -- Of a gateway's transaction, the version is looked at before the rest.
  abbrev behind : TxFromGateway → Option Block → Ecode
  behind t block =
      then_signature (check_outputs (order_for block) none (take t.num_outputs t.outputs))
        (check_tx_sign (from_gateway t) t.gateway_key)

  version_first :
      (t : TxFromGateway) (block : Option Block)
      → check_tx_from_gateway true block t ≡ some ecode_none
      → (t.version ≡ 1) × (behind t block ≡ ecode_none)
  unfolding check_tx_from_gateway accept_gateway version_ok
  version_first t block h = elim (Bool-cases (t.version == 1)) [
    | inl eq ↦ (==→eq t.version 1 eq, some-injective (rw eq at h))
    | inr ne ↦ absurd (ground arith)
  ]

  gateway_from :
      (t : TxFromGateway) (block : Option Block)
      → t.version ≡ 1
      → behind t block ≡ ecode_none
      → check_tx_from_gateway true block t ≡ some ecode_none
  unfolding check_tx_from_gateway accept_gateway version_ok
  gateway_from t block v e =
      let current : (t.version == 1) ≡ true = ground (arith, v) in rw current (ap some e)

  accepts_valid :
      (tx : Tx) (block : Option Block)
      → (check_tx true tx block ≡ some ecode_none) ↔ IsValid tx block
  unfolding check_tx IsValid check_tx_claim version_ok accept_gateway
  accepts_valid (normal t) block =
      let iff =
        check_inputs_accepted t.version t.send_amount t.change_amount t.num_inputs (normal t)
          t.input_key in
      (λ h. iff.0 (some-injective h), λ s. ap some (iff.1 s))
  accepts_valid (to_gateway t) block =
      let iff =
        check_inputs_accepted t.version t.send_amount t.change_amount t.num_inputs (to_gateway t)
          t.input_key in
      (λ h. iff.0 ((gateway_accepted _).0 h), λ s. (gateway_accepted _).1 (iff.1 s))
  accepts_valid (claim t) block =
      (λ h. (ground arith, ground arith, ground arith), λ s. ground (arith, s.0, s.1, s.2))
  accepts_valid (from_gateway t) block =
      let outs = shard_outputs (order_for block) (take t.num_outputs t.outputs) in
      let both =
        signature_accepted (check_outputs (order_for block) none (take t.num_outputs t.outputs))
          (check_tx_sign (from_gateway t) t.gateway_key) in
      (
        λ h.
            let (v, e) = version_first t block h in
            let (good, signed) = both.0 e in (v, outs.0 good, signed),
        λ (v, fit, signed). gateway_from t block v (both.1 (outs.1 fit, signed)),
      )

  gateway_answers : (e : Ecode) → (code : Ecode) × (then_gateway e (some true) ≡ some code)
  unfolding then_gateway
  gateway_answers ecode_none = (ecode_none, refl)
  gateway_answers e = (e, refl)

  from_gateway_answers :
      (t : TxFromGateway) (block : Option Block)
      → (code : Ecode) × (check_tx_from_gateway true block t ≡ some code)
  unfolding check_tx_from_gateway accept_gateway
  from_gateway_answers t block = elim (Bool-cases (version_ok t.version)) [
    | inl ok ↦ (behind t block, rw ok refl)
    | inr high ↦ (tx_high_version, rw high refl)
  ]

  check_tx_answers :
      (tx : Tx) (block : Option Block) → (code : Ecode) × (check_tx true tx block ≡ some code)
  unfolding check_tx accept_gateway
  check_tx_answers (normal t) block = (_, refl)
  check_tx_answers (claim t) block = (_, refl)
  check_tx_answers (to_gateway t) block = gateway_answers _
  check_tx_answers (from_gateway t) block = from_gateway_answers t block

  -- On the test net `check_tx` answers with a code for every transaction, and the code is
  -- PROTOCOL_ECODE_NONE exactly for the transactions that are valid.
  pub check_tx_accepts :
      (tx : Tx) (block : Option Block)
      → ((code : Ecode) × (check_tx true tx block ≡ some code))
        × ((check_tx true tx block ≡ some ecode_none) ↔ IsValid tx block)
  check_tx_accepts tx block = (check_tx_answers tx block, accepts_valid tx block)
