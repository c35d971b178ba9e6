-- ===== src/Tx/Outputs.antt =====
-- tx.c: `find_output` against the number of outputs.
use pettycoin.Base.{
  ℕ, zero, suc, ◌<◌, ◌≡◌, ◌↔◌, inl, inr, refl, arith, ltb, ltb→lt, Bool-cases, get_elem?-some,
  get_elem?-none, Bytes,
}
use pettycoin.Crypto.{Crypto, pubkey_to_addr}
use pettycoin.Protocol.{tx_from_gateway, Tx, normal, from_gateway, to_gateway, claim}
use pettycoin.Tx.{tx_type, num_outputs, output_is, reads_past_end, find_output, IsSized}

module _ ⦃c : Crypto⦄ where
  -- Every output that the transaction has is found.
  pub find_output_found :
      (tx : Tx) (n : ℕ)
      → IsSized tx
      → n < num_outputs tx
      → (addr : Bytes) × (amount : ℕ) × (find_output tx n ≡ output_is addr amount)
  unfolding find_output num_outputs IsSized
  find_output_found (normal t) zero s h = (_, _, refl)
  find_output_found (normal t) (suc n) s h =
      (pubkey_to_addr t.input_key, t.change_amount, ground arith)
  find_output_found (from_gateway t) n s h =
      let (out, e) = get_elem?-some t.outputs n (omega arith) in
      (out.output_addr, out.send_amount, ground arith)
  find_output_found (to_gateway t) n s h = absurd (omega arith)
  find_output_found (claim t) n s h = (pubkey_to_addr t.input_key, t.amount, ground arith)

  -- `find_output` reads an entry behind the outputs exactly when the transaction is a gateway's and
  -- the number is that of its outputs: the guard tests `>` where it means `>=`.
  pub find_output-reads_past_end :
      (tx : Tx) (n : ℕ)
      → IsSized tx
      → (find_output tx n ≡ reads_past_end)
        ↔ ((tx_type tx ≡ tx_from_gateway) × (n ≡ num_outputs tx))
  unfolding find_output num_outputs IsSized tx_type
  find_output-reads_past_end (normal t) n s = (λ e. ground arith, λ p. cc (p.0))
  find_output-reads_past_end (to_gateway t) n s = (λ e. ground arith, λ p. cc (p.0))
  find_output-reads_past_end (claim t) n s = (λ e. ground arith, λ p. cc (p.0))
  find_output-reads_past_end (from_gateway t) n s = (past, back)
    where
      past :
          find_output (from_gateway t) n ≡ reads_past_end
          → (tx_from_gateway ≡ tx_from_gateway) × (n ≡ t.num_outputs)
      past e = (
        refl,
        elim (Bool-cases (ltb n t.num_outputs)) [
          | inl lt ↦
              let (addr, amount, f) = find_output_found (from_gateway t) n s (ltb→lt n _ lt) in cc f
          | inr ge ↦ ground arith
        ],
      )

      back :
          (tx_from_gateway ≡ tx_from_gateway) × (n ≡ t.num_outputs)
          → find_output (from_gateway t) n ≡ reads_past_end
      back p = ground (arith, get_elem?-none t.outputs n)
