-- ===== src/Crypto.antt =====
-- What pettycoin takes from OpenSSL: SHA-256, RIPEMD-160 and the check of an ECDSA signature. They
-- are parameters of the whole development, with the output lengths that OpenSSL documents.
-- shadouble.c and addr.h stand on them.
use pettycoin.Base.{◌≡◌, Bool, Bytes, length, All, IsByte}

pub record Crypto : Type 0 where
  pub sha256 : Bytes → Bytes
  pub ripemd160 : Bytes → Bytes
  -- `ECDSA_do_verify` of a digest by a signature and a compressed public key.
  pub verify : (digest signature key : Bytes) → Bool
  pub length-sha256 : (mem : Bytes) → length (sha256 mem) ≡ 32
  pub bytes-sha256 : (mem : Bytes) → All IsByte (sha256 mem)
  pub length-ripemd160 : (mem : Bytes) → length (ripemd160 mem) ≡ 20

module _ ⦃c : Crypto⦄ where
  -- `SHA256_Double_Final` over what the updates before it have put in.
  unfoldable pub sha256_double : Bytes → Bytes
  sha256_double mem = c.sha256 (c.sha256 mem)

  pub length-sha256_double : (mem : Bytes) → length (sha256_double mem) ≡ 32
  unfolding sha256_double
  length-sha256_double mem = c.length-sha256 (c.sha256 mem)

  unfoldable pub pubkey_to_addr : Bytes → Bytes
  pubkey_to_addr key = c.ripemd160 (c.sha256 key)

  pub length-pubkey_to_addr : (key : Bytes) → length (pubkey_to_addr key) ≡ 20
  unfolding pubkey_to_addr
  length-pubkey_to_addr key = c.length-ripemd160 (c.sha256 key)
