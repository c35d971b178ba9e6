-- ===== src/Result.antt =====
-- A function that returns `enum protocol_ecode`, and hands a value back through a pointer where it
-- returns PROTOCOL_ECODE_NONE.
use pettycoin.Base.{◌≡◌, refl}
use pettycoin.Protocol.{Ecode}

pub data Result {ℓ} (Value : Type ℓ) : Type ℓ where
  err : (code : Ecode) → Result Value
  ok : (value : Value) → Result Value

module _ {ℓ} {Value Next : Type ℓ} where
  -- The first code that is not PROTOCOL_ECODE_NONE is returned.
  infixl 5 ◌>>=◌
  abbrev pub ◌>>=◌ : Result Value → (Value → Result Next) → Result Next
  err code >>= next = err code
  ok value >>= next = next value

  -- Both steps of a chain that succeeds have succeeded.
  pub bind-eq-ok :
      (first : Result Value) (next : Value → Result Next) {out : Next}
      → first >>= next ≡ ok out
      → (value : Value) × (first ≡ ok value) × (next value ≡ ok out)
  bind-eq-ok (err code) next h = cc
  bind-eq-ok (ok value) next h = (value, refl, h)
