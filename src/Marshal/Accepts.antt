-- ===== src/Marshal/Accepts.antt =====
-- marshal.c: what `unmarshal_tx` accepts.
use pettycoin.Base.{
  ℕ, ◌+◌, ◌*◌, ◌^◌, ◌<◌, ◌≤◌, ◌≡◌, inl, inr, refl, ap, Bool, true, false, ◌||◌, Option, none, some,
  ◌++◌, arith, ltb, ◌==◌, if◌then◌else◌, is_some, ltb→ge, ge→ltb, ==→eq, Bool-cases, length, get_or,
  drop, length-append, u64, Bytes, le16_at, le32_at, drop-skip,
}
use mathlib.Core.List.{append_assoc}
use pettycoin.Result.{ok, err, ◌>>=◌ as bind, bind-eq-ok}
use pettycoin.Protocol.{
  Tx, TxType, TxNormal, TxToGateway, TxFromGateway, tx_normal, tx_from_gateway, tx_to_gateway,
  tx_claim, normal, from_gateway, to_gateway, claim, invalid_len,
}
use pettycoin.Tx.{tx_type, IsSized}
use pettycoin.Marshal.{
  version_ok, add_overflows, array_len, tx_len_of, tx_type_of, fits, unmarshal_tx,
}
use pettycoin.Marshal.Layout.{type_byte, signed_part, tx_bytes, HasLayout}
use pettycoin.Marshal.Lengths.{length-tx_bytes, no_mul_overflow, no_add_overflow}

abbrev pub version_of : Tx → ℕ
version_of (normal t) = t.version
version_of (from_gateway t) = t.version
version_of (to_gateway t) = t.version
version_of (claim t) = t.version

tx_type_of-type_byte :
    (fee : Bool)
    → (tx_type_of (type_byte fee 0) ≡ some tx_normal)
      × (tx_type_of (type_byte fee 1) ≡ some tx_from_gateway)
      × (tx_type_of (type_byte fee 2) ≡ some tx_to_gateway)
      × (tx_type_of (type_byte fee 3) ≡ some tx_claim)
unfolding tx_type_of type_byte
tx_type_of-type_byte true = (refl, refl, refl, refl)
tx_type_of-type_byte false = (refl, refl, refl, refl)

array_len_fits :
    (size base fieldsize num : ℕ)
    → base ≤ size
    → base + fieldsize * num < 2 ^ 64
    → array_len size base fieldsize num ≡ ok (base + fieldsize * num)
unfolding array_len
array_len_fits size base fieldsize num there small =
    rw
      (
        ge→ltb size base there,
        no_mul_overflow fieldsize num (omega arith),
        no_add_overflow base (u64 (fieldsize * num)) (omega arith),
      )
      (ap ok (omega arith))

num_inputs_at :
    (t : TxNormal) (rest : Bytes)
    → HasLayout (normal t)
    → le32_at (drop 64 (tx_bytes (normal t) ++ rest)) ≡ t.num_inputs
unfolding tx_bytes signed_part HasLayout
num_inputs_at t rest h = simp append_assoc (
    rw (drop-skip 61 28 t.input_key _ (omega arith))
      (rw (drop-skip 28 8 t.output_addr _ (omega arith)) (omega arith)))

to_gateway_inputs_at :
    (t : TxToGateway) (rest : Bytes)
    → HasLayout (to_gateway t)
    → le32_at (drop 64 (tx_bytes (to_gateway t) ++ rest)) ≡ t.num_inputs
unfolding tx_bytes signed_part HasLayout
to_gateway_inputs_at t rest h = simp append_assoc (
    rw (drop-skip 61 28 t.input_key _ (omega arith))
      (rw (drop-skip 28 8 t.to_gateway_addr _ (omega arith)) (omega arith)))

num_outputs_at :
    (t : TxFromGateway) (rest : Bytes)
    → HasLayout (from_gateway t)
    → le16_at (drop 36 (tx_bytes (from_gateway t) ++ rest)) ≡ t.num_outputs
unfolding tx_bytes signed_part HasLayout
num_outputs_at t rest h =
    simp append_assoc (rw (drop-skip 33 0 t.gateway_key _ (omega arith)) (omega arith))

-- The switch of `unmarshal_tx` on a transaction that stands at the start of the buffer.
tx_len_of-tx_bytes :
    (tx : Tx) (rest : Bytes)
    → HasLayout tx
    → IsSized tx
    → tx_len_of (some (tx_type tx)) (tx_bytes tx ++ rest) ≡ ok (length (tx_bytes tx))
unfolding tx_len_of tx_type HasLayout
tx_len_of-tx_bytes (normal t) rest h s =
    let len = length-tx_bytes (normal t) h s in
    let all = length-append (tx_bytes (normal t)) rest in
    rw
      (
        num_inputs_at t rest h,
        array_len_fits (length (tx_bytes (normal t) ++ rest)) 132 36 t.num_inputs (omega arith)
            (omega arith),
      )
      (ap ok (omega arith))
tx_len_of-tx_bytes (from_gateway t) rest h s =
    let len = length-tx_bytes (from_gateway t) h s in
    let all = length-append (tx_bytes (from_gateway t)) rest in
    rw
      (
        num_outputs_at t rest h,
        array_len_fits (length (tx_bytes (from_gateway t) ++ rest)) 104 24 t.num_outputs
            (omega arith) (omega arith),
      )
      (ap ok (omega arith))
tx_len_of-tx_bytes (to_gateway t) rest h s =
    let len = length-tx_bytes (to_gateway t) h s in
    let all = length-append (tx_bytes (to_gateway t)) rest in
    rw
      (
        to_gateway_inputs_at t rest h,
        array_len_fits (length (tx_bytes (to_gateway t) ++ rest)) 132 36 t.num_inputs (omega arith)
            (omega arith),
      )
      (ap ok (omega arith))
tx_len_of-tx_bytes (claim t) rest h s = ap ok (omega (arith, length-tx_bytes (claim t) h s))

type_at :
    (tx : Tx) (rest : Bytes)
    → (get_or (tx_bytes tx ++ rest) 0 0 ≡ version_of tx)
      × (tx_type_of (get_or (tx_bytes tx ++ rest) 1 0) ≡ some (tx_type tx))
unfolding tx_bytes signed_part tx_type
type_at (normal t) rest = (refl, (tx_type_of-type_byte t.pays_fee).0)
type_at (from_gateway t) rest = (refl, (tx_type_of-type_byte t.pays_fee).1)
type_at (to_gateway t) rest = (refl, (tx_type_of-type_byte t.pays_fee).2)
type_at (claim t) rest = (refl, (tx_type_of-type_byte t.pays_fee).3)

min_len : (tx : Tx) → HasLayout tx → IsSized tx → 3 ≤ length (tx_bytes tx)
min_len (normal t) h s = omega (arith, length-tx_bytes (normal t) h s)
min_len (from_gateway t) h s = omega (arith, length-tx_bytes (from_gateway t) h s)
min_len (to_gateway t) h s = omega (arith, length-tx_bytes (to_gateway t) h s)
min_len (claim t) h s = omega (arith, length-tx_bytes (claim t) h s)

-- A buffer that begins with a transaction of the current version is accepted with that transaction's
-- length, where the caller takes a remainder; where not, exactly if nothing is behind the transaction.
pub unmarshal_tx-tx_bytes :
    (tx : Tx) (rest : Bytes) (wants_used : Bool)
    → HasLayout tx
    → IsSized tx
    → version_of tx ≡ 1
    → unmarshal_tx (tx_bytes tx ++ rest) wants_used
      ≡ (if wants_used || (length rest == 0) then ok (length (tx_bytes tx)) else err invalid_len)
unfolding unmarshal_tx version_ok fits
unmarshal_tx-tx_bytes tx rest w h s v =
    let long : 3 ≤ length (tx_bytes tx) = min_len tx h s in
    let size = length-append (tx_bytes tx) rest in
    rw
      (
        ge→ltb (length (tx_bytes tx ++ rest)) 3 (omega arith),
        (type_at tx rest).0,
        (type_at tx rest).1,
        v,
        tx_len_of-tx_bytes tx rest h s,
      )
      (ground (arith, size))

fits_accepted :
    (size : ℕ) (w : Bool) (len n : ℕ)
    → fits size w len ≡ ok n
    → (n ≡ len) × (n ≤ size) × (w ≡ false → n ≡ size)
unfolding fits
fits_accepted size true len n e = ground arith
fits_accepted size false len n e = ground arith

array_len_accepted :
    (size base fieldsize num n : ℕ)
    → base < 2 ^ 32
    → array_len size base fieldsize num ≡ ok n
    → base ≤ n
unfolding array_len add_overflows
array_len_accepted size base fieldsize num n small e = ground arith

tx_len_of_accepted :
    (type : Option TxType) (buffer : Bytes) (n : ℕ)
    → tx_len_of type buffer ≡ ok n
    → (3 ≤ n) × (is_some type ≡ true)
unfolding tx_len_of
tx_len_of_accepted none buffer n e = ground arith
tx_len_of_accepted (some tx_normal) buffer n e =
    (omega (arith, array_len_accepted _ 132 36 _ n (omega arith) e), refl)
tx_len_of_accepted (some tx_from_gateway) buffer n e =
    (omega (arith, array_len_accepted _ 104 24 _ n (omega arith) e), refl)
tx_len_of_accepted (some tx_to_gateway) buffer n e =
    (omega (arith, array_len_accepted _ 132 36 _ n (omega arith) e), refl)
tx_len_of_accepted (some tx_claim) buffer n e = ground arith

past_header :
    (buffer : Bytes) (w : Bool) (n : ℕ)
    → unmarshal_tx buffer w ≡ ok n
    → (3 ≤ length buffer)
      × (get_or buffer 0 0 ≡ 1)
      × ((bind (tx_len_of (tx_type_of (get_or buffer 1 0)) buffer) (fits (length buffer) w)) ≡ ok n)
unfolding unmarshal_tx version_ok
past_header buffer w n e = elim (Bool-cases (ltb (length buffer) 3)) [
  | inl short ↦ absurd (ground arith)
  | inr long ↦ elim (Bool-cases (get_or buffer 0 0 == 1)) [
    | inl current ↦ (
      ltb→ge (length buffer) 3 long,
      ==→eq (get_or buffer 0 0) 1 current,
      rw (long, current) at e,
    )
    | inr old ↦ absurd (ground arith)
  ]
]

-- Whatever is accepted lies in the buffer, is of the current version and of a known type, and takes
-- all of the buffer where the caller takes no remainder.
pub unmarshal_tx_accepted :
    (buffer : Bytes) (wants_used : Bool) (n : ℕ)
    → unmarshal_tx buffer wants_used ≡ ok n
    → (n ≤ length buffer)
      × (3 ≤ n)
      × (get_or buffer 0 0 ≡ 1)
      × (is_some (tx_type_of (get_or buffer 1 0)) ≡ true)
      × (wants_used ≡ false → n ≡ length buffer)
unfolding unmarshal_tx version_ok
unmarshal_tx_accepted buffer w n e =
    let type = tx_type_of (get_or buffer 1 0) in
    let (long, current, rest) = past_header buffer w n e in
    let (len, e1, e2) = bind-eq-ok (tx_len_of type buffer) (fits (length buffer) w) rest in
    let known = tx_len_of_accepted type buffer len e1 in
    let whole = fits_accepted (length buffer) w len n e2 in
    (whole.1, omega arith, current, known.1, whole.2)
