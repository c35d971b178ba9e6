-- ===== src/Check/Signed.antt =====
-- signature.c: what a signature covers.
use pettycoin.Base.{
  ℕ, ◌+◌, ◌^◌, ◌<◌, ◌≡◌, refl, ◌∙◌, ◌++◌, arith, length, take-append, drop-append, take_all, sub64,
  drop-skip,
}
use pettycoin.Crypto.{Crypto, sha256_double}
use pettycoin.Protocol.{Tx, normal, from_gateway, to_gateway, claim}
use pettycoin.Tx.{IsSized}
use pettycoin.Marshal.{varsize, marshal_tx_len}
use pettycoin.Marshal.Layout.{signed_part, signature_of, array_part, tx_bytes, HasLayout}
use pettycoin.Marshal.Lengths.{
  signed_len, array_size, length-signed_part, length-array_part, length-tx_bytes,
  marshal_tx_len-length,
}
use pettycoin.Check.{signature_offset, sighash_tx}

offset_is : (tx : Tx) → signature_offset tx ≡ signed_len tx
unfolding signature_offset
offset_is (normal t) = refl
offset_is (from_gateway t) = refl
offset_is (to_gateway t) = refl
offset_is (claim t) = refl

length-signature_of : (tx : Tx) → HasLayout tx → length (signature_of tx) ≡ 64
unfolding HasLayout
length-signature_of (normal t) h = h.2
length-signature_of (from_gateway t) h = h.1
length-signature_of (to_gateway t) h = h.2
length-signature_of (claim t) h = h.1

varsize-lt : (base num field : ℕ) → varsize base num field < 2 ^ 64
unfolding varsize
varsize-lt base num field = ground arith

marshal_tx_len-lt : (tx : Tx) → marshal_tx_len tx < 2 ^ 64
unfolding marshal_tx_len
marshal_tx_len-lt (normal t) = varsize-lt 132 t.num_inputs 36
marshal_tx_len-lt (from_gateway t) = varsize-lt 104 t.num_outputs 24
marshal_tx_len-lt (to_gateway t) = varsize-lt 132 t.num_inputs 36
marshal_tx_len-lt (claim t) = omega arith

module _ ⦃c : Crypto⦄ where
  -- The hash that is signed is the one of all the bytes of the transaction but its signature.
  pub sighash_tx-tx_bytes :
      (tx : Tx)
      → HasLayout tx
      → IsSized tx
      → sighash_tx tx ≡ sha256_double (signed_part tx ++ array_part tx)
  unfolding sighash_tx tx_bytes
  sighash_tx-tx_bytes tx h s =
      let off = signed_len tx in
      let size : marshal_tx_len tx ≡ off + 64 + array_size tx =
        (marshal_tx_len-length tx h s).0 ∙ length-tx_bytes tx h s in
      let head =
        take-append off (signed_part tx) (signature_of tx ++ array_part tx)
          (length-signed_part tx h) in
      let tail =
        drop-skip (off + 64) 64 (signed_part tx) (signature_of tx ++ array_part tx)
          (omega (arith, length-signed_part tx h)) in
      let array = drop-append 64 (signature_of tx) (array_part tx) (length-signature_of tx h) in
      let len : sub64 (marshal_tx_len tx) (off + 64) ≡ array_size tx =
        omega (arith, size, marshal_tx_len-lt tx) in
      let all = take_all (array_size tx) (array_part tx) (length-array_part tx h s) in
      rw (offset_is tx) (rw (head, tail, array) (rw len (rw all refl)))
