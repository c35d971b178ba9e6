-- ===== src/Marshal/Lengths.antt =====
-- marshal.c: the lengths of transactions and of their parts.
use pettycoin.Base.{
  ℕ, ◌+◌, ◌*◌, ◌^◌, ◌<◌, ◌≡◌, inl, inr, refl, false, List, [], ◌∷◌, ◌++◌, arith, Bool-cases, length,
  All, length-append, u64, Bytes, le16, le32,
}
use pettycoin.Protocol.{TxInput, GatewayPayment, Tx, normal, from_gateway, to_gateway, claim}
use pettycoin.Tx.{IsSized}
use pettycoin.Marshal.{mul_overflows, add_overflows, varsize, marshal_tx_len}
use pettycoin.Marshal.Overflow.{mul_overflows_exact}
use pettycoin.Marshal.Layout.{
  input_bytes, payment_bytes, array_bytes, signed_part, signature_of, array_part, tx_bytes,
  InputFits, PaymentFits, HasLayout,
}

length-input_bytes : (inp : TxInput) → InputFits inp → length (input_bytes inp) ≡ 36
unfolding input_bytes
length-input_bytes inp h =
    omega (arith, length-append inp.input (le16 inp.output ++ le16 inp.unused))

length-payment_bytes : (out : GatewayPayment) → PaymentFits out → length (payment_bytes out) ≡ 24
unfolding payment_bytes
length-payment_bytes out h = omega (arith, length-append (le32 out.send_amount) out.output_addr)

length-array_bytes {ℓ κ} :
    {A : Type ℓ} (P : A → Type κ) (f : A → Bytes) (k : ℕ)
    → ((x : A) → P x → length (f x) ≡ k)
    → (xs : List A) → All P xs
    → length (array_bytes f xs) ≡ length xs * k
unfolding array_bytes
length-array_bytes P f k each [] h = omega arith
length-array_bytes P f k each (x ∷ xs) h = grind (
  arith,
  length-append (f x) (array_bytes f xs),
  each x h.0,
  length-array_bytes P f k each xs h.1,
)

-- The length of the structure without its signature.
abbrev pub signed_len : Tx → ℕ
signed_len (normal t) = 68
signed_len (from_gateway t) = 40
signed_len (to_gateway t) = 68
signed_len (claim t) = 76

abbrev pub array_size : Tx → ℕ
array_size (normal t) = t.num_inputs * 36
array_size (from_gateway t) = t.num_outputs * 24
array_size (to_gateway t) = t.num_inputs * 36
array_size (claim t) = 0

pub length-signed_part : (tx : Tx) → HasLayout tx → length (signed_part tx) ≡ signed_len tx
unfolding signed_part HasLayout
length-signed_part (normal t) h = omega (arith, length-append {0})
length-signed_part (from_gateway t) h = omega (arith, length-append {0})
length-signed_part (to_gateway t) h = omega (arith, length-append {0})
length-signed_part (claim t) h = omega (arith, length-append {0}, length-input_bytes t.input h.2)

pub length-array_part :
    (tx : Tx) → HasLayout tx → IsSized tx → length (array_part tx) ≡ array_size tx
unfolding array_part HasLayout IsSized
length-array_part (normal t) h s =
    rw s (length-array_bytes InputFits input_bytes 36 length-input_bytes t.inputs h.4)
length-array_part (from_gateway t) h s =
    rw s (length-array_bytes PaymentFits payment_bytes 24 length-payment_bytes t.outputs h.3)
length-array_part (to_gateway t) h s =
    rw s (length-array_bytes InputFits input_bytes 36 length-input_bytes t.inputs h.4)
length-array_part (claim t) h s = refl

pub length-signature_of : (tx : Tx) → HasLayout tx → length (signature_of tx) ≡ 64
unfolding HasLayout
length-signature_of (normal t) h = h.2
length-signature_of (from_gateway t) h = h.1
length-signature_of (to_gateway t) h = h.2
length-signature_of (claim t) h = h.1

pub length-tx_bytes :
    (tx : Tx)
    → HasLayout tx
    → IsSized tx
    → length (tx_bytes tx) ≡ signed_len tx + 64 + array_size tx
unfolding tx_bytes
length-tx_bytes tx h s = omega (
  arith,
  length-append (signed_part tx) (signature_of tx ++ array_part tx),
  length-append (signature_of tx) (array_part tx),
  length-signed_part tx h,
  length-signature_of tx h,
  length-array_part tx h s,
)

-- A product and a sum that fit are computed, and neither test finds an overflow.
pub no_mul_overflow : (a b : ℕ) → a * b < 2 ^ 64 → mul_overflows a b ≡ false
no_mul_overflow a b h = elim (Bool-cases (mul_overflows a b)) [
  | inl e ↦ absurd (omega (arith, (mul_overflows_exact a b).0 e))
  | inr e ↦ e
]

pub no_add_overflow : (a b : ℕ) → a + b < 2 ^ 64 → add_overflows a b ≡ false
unfolding add_overflows
no_add_overflow a b h = ground arith

varsize_fits :
    (base num fieldsize : ℕ)
    → base + fieldsize * num < 2 ^ 64
    → varsize base num fieldsize ≡ base + fieldsize * num
unfolding varsize
varsize_fits base num fieldsize h =
    rw
      (
        no_mul_overflow fieldsize num (omega arith),
        no_add_overflow base (u64 (fieldsize * num)) (omega arith),
      )
      (omega arith)

-- For a transaction whose fields have their widths and whose counts are right, `marshal_tx_len` is the
-- number of bytes that the transaction takes in memory; it is never the 0 of an overflow.
pub marshal_tx_len-length :
    (tx : Tx)
    → HasLayout tx
    → IsSized tx
    → (marshal_tx_len tx ≡ length (tx_bytes tx)) × (0 < marshal_tx_len tx)
unfolding marshal_tx_len HasLayout
marshal_tx_len-length (normal t) h s =
    omega (arith, length-tx_bytes (normal t) h s, varsize_fits 132 t.num_inputs 36)
marshal_tx_len-length (from_gateway t) h s =
    omega (arith, length-tx_bytes (from_gateway t) h s, varsize_fits 104 t.num_outputs 24)
marshal_tx_len-length (to_gateway t) h s =
    omega (arith, length-tx_bytes (to_gateway t) h s, varsize_fits 132 t.num_inputs 36)
marshal_tx_len-length (claim t) h s = omega (arith, length-tx_bytes (claim t) h s)
