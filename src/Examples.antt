-- ===== src/Examples.antt =====
-- Test data and the properties at concrete inputs. The hash is a toy of the right output length.
mod Text
mod Wire
mod Trees
mod Target
mod Chains
mod Checks
mod Places
mod Sorting
mod Rewards
mod Filling
mod Growth
mod Headers
mod Knowledge
mod Tables
use pettycoin.Base.{
  ℕ, zero, suc, ◌+◌, ◌*◌, ◌%◌, ◌≡◌, refl, Bool, true, false, List, [], ◌∷◌, ◌++◌, Bytes, length, u8,
  replicate, All, IsByte, bytes_eq, take, none, arith,
}
use pettycoin.Crypto.{Crypto}
use pettycoin.Protocol.{
  TxInput, GatewayPayment, TxNormal, TxFromGateway, Tx, normal, from_gateway, BlockHeader,
  BlockTailer,
}

abbrev mix : ℕ → Bytes → ℕ
mix h [] = h
mix h (x ∷ xs) = mix (u8 (h * 31 + x + 7)) xs

abbrev toy_digest : ℕ → Bytes → Bytes
toy_digest n mem = u8 (mix 1 mem) ∷ replicate n 9

mix-IsByte : (mem : Bytes) → IsByte (u8 (mix 1 mem))
mix-IsByte mem = omega arith

nines : (n : ℕ) → All IsByte (replicate n 9)
nines zero = _
nines (suc n) = (omega arith, nines n)

-- A signature begins with the first byte of the digest.
instance abbrev toy_crypto : Crypto
toy_crypto = record {
  sha256 = toy_digest 31;
  ripemd160 = toy_digest 19;
  verify = λ digest signature key. bytes_eq (take 1 signature) (take 1 digest);
  length-sha256 = λ mem. refl;
  bytes-sha256 = λ mem. (mix-IsByte mem, nines 31);
  length-ripemd160 = λ mem. refl;
}

abbrev key : Bytes
key = replicate 33 2

abbrev address : Bytes
address = replicate 20 5

abbrev old_hash : Bytes
old_hash = replicate 32 3

abbrev first_input : TxInput
first_input = record { input = old_hash; output = 1; unused = 0 }

abbrev payment : Tx
payment = normal (record {
  version = 1;
  pays_fee = true;
  features = 0;
  input_key = key;
  output_addr = address;
  send_amount = 1000;
  change_amount = 24;
  num_inputs = 1;
  signature = 167 ∷ replicate 63 4;
  inputs = first_input ∷ [];
})

abbrev deposit : Tx
deposit = from_gateway (record {
  version = 1;
  pays_fee = false;
  features = 0;
  gateway_key = key;
  num_outputs = 1;
  unused = 0;
  signature = replicate 64 4;
  outputs = record { send_amount = 70; output_addr = address } ∷ [];
})
