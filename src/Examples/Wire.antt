-- ===== src/Examples/Wire.antt =====
-- marshal.c at concrete inputs.
use pettycoin.Base.{
  ◌≤◌, ◌≡◌, refl, true, false, [], ◌∷◌, ◌++◌, arith, is_some, length, get_or, replicate, Bytes,
}
use pettycoin.Result.{err}
use pettycoin.Protocol.{invalid_len}
use pettycoin.Tx.{IsSized}
use pettycoin.Marshal.{version_ok, tx_len_of, fits, tx_type_of, unmarshal_tx}
use pettycoin.Marshal.Layout.{tx_bytes, HasLayout}
use pettycoin.Marshal.Accepts.{unmarshal_tx-tx_bytes, unmarshal_tx_accepted}
use pettycoin.Examples.{payment}

pub payment-HasLayout : HasLayout payment
unfolding HasLayout
payment-HasLayout = (refl, refl, refl, omega arith, (refl, _))

pub payment-IsSized : IsSized payment
unfolding IsSized
payment-IsSized = refl

unmarshal_tx-tx_bytes_example : unmarshal_tx (tx_bytes payment ++ 7 ∷ []) false ≡ err invalid_len
unmarshal_tx-tx_bytes_example =
    unmarshal_tx-tx_bytes payment (7 ∷ []) false payment-HasLayout payment-IsSized refl

abbrev a_claim : Bytes
a_claim = 1 ∷ 3 ∷ replicate 138 6

unmarshal_tx_accepted_example :
    (140 ≤ length a_claim)
    × (3 ≤ 140)
    × (get_or a_claim 0 0 ≡ 1)
    × (is_some (tx_type_of (get_or a_claim 1 0)) ≡ true)
    × (false ≡ false → 140 ≡ length a_claim)
unfolding unmarshal_tx version_ok tx_type_of tx_len_of fits
unmarshal_tx_accepted_example = unmarshal_tx_accepted a_claim false 140 refl
