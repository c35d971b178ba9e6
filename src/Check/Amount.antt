-- ===== src/Check/Amount.antt =====
-- check_tx.c: `correct_amount`, and the amounts and fees that it adds up.
use pettycoin.Base.{
  ℕ, ◌+◌, ◌*◌, ◌/◌, ◌≤◌, ◌≡◌, ◌≢◌, ◌↔◌, refl, Bool, true, false, Option, arith, ◌==◌, if◌then◌else◌,
  ==→eq, ==_refl, u32,
}
use pettycoin.Crypto.{Crypto}
use pettycoin.Protocol.{tx_from_gateway, Tx, normal, from_gateway, to_gateway, claim}
use pettycoin.Block.{Block}
use pettycoin.Tx.{tx_type, tx_pays_fee, tx_amount_sent}
use pettycoin.Check.{fee, correct_amount}
use pettycoin.Check.Basic.{IsValid}

-- What the outputs of a transaction get, and what it pays as a fee, as numbers of any size.
abbrev pub amount_of : Tx → ℕ
amount_of (normal t) = t.send_amount + t.change_amount
amount_of (to_gateway t) = t.send_amount + t.change_amount
amount_of (claim t) = t.amount
amount_of (from_gateway t) = 0

abbrev pub fee_of : Bool → ℕ → ℕ
fee_of pays amount = if pays then amount * 3 / 1024 + 1 else 0

fits_total :
    (pays : Bool) (amount total : ℕ)
    → amount ≤ 1073741824
    → (total == u32 (amount + (if pays then fee amount else 0)))
      ≡ (total == amount + fee_of pays amount)
unfolding fee
fits_total true amount total h =
    let whole : u32 (amount + u32 (u32 (amount * 3) / 1024 + 1))
        ≡ amount + (amount * 3 / 1024 + 1) =
      omega arith in
    rw whole refl
fits_total false amount total h =
    let whole : u32 (amount + 0) ≡ amount + 0 = omega arith in rw whole refl

module _ ⦃c : Crypto⦄ where
  sent_is :
      (tx : Tx) (block : Option Block)
      → tx_type tx ≢ tx_from_gateway
      → IsValid tx block
      → (tx_amount_sent tx ≡ amount_of tx) × (amount_of tx ≤ 1073741824)
  unfolding tx_amount_sent IsValid tx_type
  sent_is (normal t) block ne v =
      (omega (arith, v.send_small, v.change_small), omega (arith, v.send_small, v.change_small))
  sent_is (to_gateway t) block ne v =
      (omega (arith, v.send_small, v.change_small), omega (arith, v.send_small, v.change_small))
  sent_is (claim t) block ne v = (refl, omega (arith, v.1))
  sent_is (from_gateway t) block ne v = absurd (ne refl)

  -- For a transaction that `check_tx` accepts, other than a gateway's, `correct_amount` compares the
  -- inputs with what the outputs get and the fee of 3/1024 and 1, in numbers that do not wrap.
  pub correct_amount_exact :
      (tx : Tx) (block : Option Block) (total : ℕ)
      → tx_type tx ≢ tx_from_gateway
      → IsValid tx block
      → (correct_amount tx total ≡ true)
        ↔ (total ≡ amount_of tx + fee_of (tx_pays_fee tx) (amount_of tx))
  unfolding correct_amount
  correct_amount_exact tx block total ne v =
      let (sent, small) = sent_is tx block ne v in
      let whole = fits_total (tx_pays_fee tx) (amount_of tx) total small in
      let test = total == amount_of tx + fee_of (tx_pays_fee tx) (amount_of tx) in
      rw sent (rw whole (λ h. ==→eq total _ h, λ e. rw (← e) (==_refl total)))
