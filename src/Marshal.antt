-- ===== src/Marshal.antt =====
-- overflows.h, version.h and the part of marshal.c that measures and accepts transactions. A buffer
-- is the list of its bytes, and its size is their number.
pub mod Overflow
pub mod Layout
pub mod Lengths
pub mod Accepts
pub mod Blocks
pub mod BlockTrip
use pettycoin.Base.{
  ℕ, ◌+◌, ◌*◌, ◌/◌, Bool, true, false, not, Option, none, some, Bytes, ltb, ◌==◌, if◌then◌else◌,
  length, get_or, drop, le16_at, le32_at, u64, bit_and,
}
use pettycoin.Result.{Result, ok, err, ◌>>=◌}
use pettycoin.Protocol.{
  TxType, tx_normal, tx_from_gateway, tx_to_gateway, tx_claim, Tx, normal, from_gateway, to_gateway,
  claim, invalid_len, tx_high_version, tx_type_unknown,
}
use pettycoin.Tx.{num_inputs}

unfoldable pub version_ok : ℕ → Bool
version_ok version = version == 1

unfoldable pub mul_overflows : ℕ → ℕ → Bool
mul_overflows a b = if b == 0 then false else not (u64 (a * b) / b == a)

unfoldable pub add_overflows : ℕ → ℕ → Bool
add_overflows a b = ltb (u64 (a + b)) b

-- The sizes of the structures of protocol.h.
abbrev pub sizeof_tx_hdr : ℕ
sizeof_tx_hdr = 3

abbrev pub sizeof_tx_normal : ℕ
sizeof_tx_normal = 132

abbrev pub sizeof_tx_from_gateway : ℕ
sizeof_tx_from_gateway = 104

abbrev pub sizeof_tx_to_gateway : ℕ
sizeof_tx_to_gateway = 132

abbrev pub sizeof_tx_claim : ℕ
sizeof_tx_claim = 140

abbrev pub sizeof_input : ℕ
sizeof_input = 36

abbrev pub sizeof_gateway_payment : ℕ
sizeof_gateway_payment = 24

abbrev pub sizeof_input_ref : ℕ
sizeof_input_ref = 8

-- A structure of `base` bytes and `num` entries of `fieldsize` bytes behind it; 0 on overflow.
unfoldable pub varsize : ℕ → ℕ → ℕ → ℕ
varsize base num fieldsize =
    if mul_overflows fieldsize num
    then 0
    else if add_overflows base (u64 (fieldsize * num))
    then 0
    else u64 (base + fieldsize * num)

unfoldable pub marshal_tx_len : Tx → ℕ
marshal_tx_len (normal t) = varsize sizeof_tx_normal t.num_inputs sizeof_input
marshal_tx_len (from_gateway t) =
    varsize sizeof_tx_from_gateway t.num_outputs sizeof_gateway_payment
marshal_tx_len (to_gateway t) = varsize sizeof_tx_to_gateway t.num_inputs sizeof_input
marshal_tx_len (claim t) = sizeof_tx_claim

unfoldable pub marshal_input_ref_len : Tx → ℕ
marshal_input_ref_len tx = u64 (num_inputs tx * sizeof_input_ref)

-- `tx->hdr.type & ~PROTOCOL_FEE_TYPE` of a byte.
unfoldable pub tx_type_of : ℕ → Option TxType
tx_type_of type =
    let kind = bit_and type 0x7f in
    if kind == 0
    then some tx_normal
    else if kind == 1
    then some tx_from_gateway
    else if kind == 2
    then some tx_to_gateway
    else if kind == 3
    then some tx_claim
    else none

-- The checks of a case with an array: the structure is there, and its length does not overflow.
unfoldable pub array_len : ℕ → ℕ → ℕ → ℕ → Result ℕ
array_len size base fieldsize num =
    if ltb size base
    then err invalid_len
    else if mul_overflows fieldsize num
    then err invalid_len
    else if add_overflows base (u64 (fieldsize * num))
    then err invalid_len
    else ok (u64 (base + u64 (fieldsize * num)))

-- The switch of `unmarshal_tx`; the counts stand at their offsets in the structures.
unfoldable pub tx_len_of : Option TxType → Bytes → Result ℕ
tx_len_of none buffer = err tx_type_unknown
tx_len_of (some tx_normal) buffer =
    array_len (length buffer) sizeof_tx_normal sizeof_input (le32_at (drop 64 buffer))
tx_len_of (some tx_from_gateway) buffer =
    array_len (length buffer) sizeof_tx_from_gateway sizeof_gateway_payment
      (le16_at (drop 36 buffer))
tx_len_of (some tx_to_gateway) buffer =
    array_len (length buffer) sizeof_tx_to_gateway sizeof_input (le32_at (drop 64 buffer))
tx_len_of (some tx_claim) buffer = ok sizeof_tx_claim

-- The label `known`: `wants_used` says that the caller passes a pointer and takes a remainder.
unfoldable pub fits : ℕ → Bool → ℕ → Result ℕ
fits size wants_used len =
    if ltb size len
    then err invalid_len
    else if wants_used
    then ok len
    else if size == len
    then ok len
    else err invalid_len

-- A result of `ok` has the value of `*used`.
unfoldable pub unmarshal_tx : Bytes → Bool → Result ℕ
unmarshal_tx buffer wants_used =
    if ltb (length buffer) sizeof_tx_hdr
    then err invalid_len
    else if not (version_ok (get_or buffer 0 0))
    then err tx_high_version
    else tx_len_of (tx_type_of (get_or buffer 1 0)) buffer >>= fits (length buffer) wants_used

unfoldable pub unmarshal_input_refs : ℕ → Tx → Result ℕ
unmarshal_input_refs size tx =
    let need = marshal_input_ref_len tx in if ltb size need then err invalid_len else ok need
