-- ===== src/Marshal/Layout.antt =====
-- protocol.h: how a transaction lies in memory, its fields in the order of the structures.
use pettycoin.Base.{
  ℕ, ◌^◌, ◌<◌, ◌≡◌, Bool, List, [], ◌∷◌, ◌++◌, bit_or, if◌then◌else◌, length, All, Bytes, le16,
  le32,
}
use pettycoin.Protocol.{
  TxInput, GatewayPayment, InputRef, Tx, normal, from_gateway, to_gateway, claim,
}

-- The byte `type`: PROTOCOL_FEE_TYPE or 0, with the kind of transaction.
unfoldable pub type_byte : Bool → ℕ → ℕ
type_byte pays_fee kind = if pays_fee then bit_or 0x80 kind else kind

unfoldable pub input_bytes : TxInput → Bytes
input_bytes inp = inp.input ++ (le16 inp.output ++ le16 inp.unused)

unfoldable pub payment_bytes : GatewayPayment → Bytes
payment_bytes out = le32 out.send_amount ++ out.output_addr

unfoldable pub ref_bytes : InputRef → Bytes
ref_bytes ref = le32 ref.blocks_ago ++ (le16 ref.shard ++ ref.txoff ∷ ref.unused ∷ [])

-- The entries of an array, one behind the other.
unfoldable pub array_bytes {ℓ} : {A : Type ℓ} → (A → Bytes) → List A → Bytes
array_bytes f [] = []
array_bytes f (x ∷ xs) = f x ++ array_bytes f xs

-- The structure up to its signature, with all that the signature covers but the array.
unfoldable pub signed_part : Tx → Bytes
unfolding type_byte input_bytes
signed_part (normal t) =
    t.version
    ∷ type_byte t.pays_fee 0
    ∷ t.features
    ∷ (t.input_key
        ++ (t.output_addr ++ (le32 t.send_amount ++ (le32 t.change_amount ++ le32 t.num_inputs))))
signed_part (from_gateway t) =
    t.version
    ∷ type_byte t.pays_fee 1
    ∷ t.features
    ∷ (t.gateway_key ++ (le16 t.num_outputs ++ le16 t.unused))
signed_part (to_gateway t) =
    t.version
    ∷ type_byte t.pays_fee 2
    ∷ t.features
    ∷ (t.input_key
        ++ (t.to_gateway_addr
            ++ (le32 t.send_amount ++ (le32 t.change_amount ++ le32 t.num_inputs))))
signed_part (claim t) =
    t.version
    ∷ type_byte t.pays_fee 3
    ∷ t.features
    ∷ (t.input_key ++ (le32 t.amount ++ input_bytes t.input))

abbrev pub signature_of : Tx → Bytes
signature_of (normal t) = t.signature
signature_of (from_gateway t) = t.signature
signature_of (to_gateway t) = t.signature
signature_of (claim t) = t.signature

-- What stands behind the structure.
unfoldable pub array_part : Tx → Bytes
unfolding array_bytes payment_bytes input_bytes
array_part (normal t) = array_bytes input_bytes t.inputs
array_part (from_gateway t) = array_bytes payment_bytes t.outputs
array_part (to_gateway t) = array_bytes input_bytes t.inputs
array_part (claim t) = []

unfoldable pub tx_bytes : Tx → Bytes
tx_bytes tx = signed_part tx ++ (signature_of tx ++ array_part tx)

-- The fields have the widths of their C types.
abbrev pub InputFits : TxInput → Type 0
InputFits inp = length inp.input ≡ 32

abbrev pub PaymentFits : GatewayPayment → Type 0
PaymentFits out = length out.output_addr ≡ 20

unfoldable pub HasLayout : Tx → Type 0
HasLayout (normal t) =
    (length t.input_key ≡ 33)
    × (length t.output_addr ≡ 20)
    × (length t.signature ≡ 64)
    × (t.num_inputs < 2 ^ 32)
    × All InputFits t.inputs
HasLayout (from_gateway t) =
    (length t.gateway_key ≡ 33)
    × (length t.signature ≡ 64)
    × (t.num_outputs < 2 ^ 16)
    × All PaymentFits t.outputs
HasLayout (to_gateway t) =
    (length t.input_key ≡ 33)
    × (length t.to_gateway_addr ≡ 20)
    × (length t.signature ≡ 64)
    × (t.num_inputs < 2 ^ 32)
    × All InputFits t.inputs
HasLayout (claim t) = (length t.input_key ≡ 33) × (length t.signature ≡ 64) × InputFits t.input
