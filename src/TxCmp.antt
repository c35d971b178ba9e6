-- ===== src/TxCmp.antt =====
-- tx_cmp.c, and `check_tx_ordering` of check_block.c: the order of the transactions of a shard. The sign
-- of the result of a comparison is kept.
pub mod Order
pub mod Sorted
use pettycoin.Base.{
  ℕ, zero, suc, ◌+◌, ◌-◌, Option, none, some, [], ◌∷◌, ltb, ◌==◌, if◌then◌else◌, ◌>>=◌, Bytes,
}
use pettycoin.Crypto.{Crypto}
use pettycoin.Protocol.{Tx}
use pettycoin.Shard.{BlockShard, tx_for, order_address}
use pettycoin.Marshal.{marshal_tx_len}
use pettycoin.Marshal.Layout.{tx_bytes}

-- Less than 0, 0, or more than 0.
pub data Sign : Type 0 where
  before equal after : Sign

-- `memcmp` of the first `n` bytes.
unfoldable pub memcmp : ℕ → Bytes → Bytes → Sign
memcmp zero a b = equal
memcmp (suc n) [] b = equal
memcmp (suc n) (x ∷ xs) [] = equal
memcmp (suc n) (x ∷ xs) (y ∷ ys) =
    let rest = memcmp n xs ys in if ltb x y then before else if ltb y x then after else rest

-- `ret`, or what follows if `ret` is 0.
unfoldable pub or_else : Sign → Sign → Sign
or_else before next = before
or_else equal next = next
or_else after next = after

-- We need some (arbitrary but deterministic) secondary order; shortest wins.
unfoldable pub secondary : (lena lenb : ℕ) → (a b : Bytes) → Sign
secondary lena lenb a b =
    if ltb lena lenb
    then or_else (memcmp lena a b) before
    else if ltb lenb lena
    then or_else (memcmp lenb a b) after
    else memcmp lenb a b

module _ ⦃c : Crypto⦄ where
  -- `none` is the read of a first output that is not there.
  unfoldable pub tx_cmp : Tx → Tx → Option Sign
  tx_cmp a b = do
    addra ← order_address a
    addrb ← order_address b
    some (
        or_else (memcmp 20 addra addrb)
          (secondary (marshal_tx_len a) (marshal_tx_len b) (tx_bytes a) (tx_bytes b)))

abbrev pub first_known : Option Tx → ℕ → Option (ℕ × Tx) → Option (ℕ × Tx)
first_known none i rest = rest
first_known (some tx) i rest = some (i, tx)

-- The first known transaction on the way down from `n`.
unfoldable pub nearest_below : BlockShard → ℕ → Option (ℕ × Tx)
nearest_below shard zero = none
nearest_below shard (suc i) =
    let rest = nearest_below shard i in first_known (tx_for shard i) i rest

-- The first known transaction among the `n` places from `i` on.
unfoldable pub nearest_above : BlockShard → (n i : ℕ) → Option (ℕ × Tx)
nearest_above shard zero i = none
nearest_above shard (suc n) i =
    let rest = nearest_above shard n (i + 1) in first_known (tx_for shard i) i rest

-- True, or false with *bad_txoff.
pub data OrderCheck : Type 0 where
  in_order : OrderCheck
  bad_order : (bad_txoff : ℕ) → OrderCheck

-- A comparison that has to come out as less than 0, and what follows it.
unfoldable pub must_precede : Sign → (bad_txoff : ℕ) → Option OrderCheck → Option OrderCheck
must_precede before i next = next
must_precede equal i next = some (bad_order i)
must_precede after i next = some (bad_order i)

module _ ⦃c : Crypto⦄ where
  -- The check against the previous transaction, if one is known.
  unfoldable pub check_below : Option (ℕ × Tx) → Tx → Option OrderCheck → Option OrderCheck
  check_below none tx next = next
  check_below (some (i, other_tx)) tx next = do cmp ← tx_cmp other_tx tx; must_precede cmp i next

  -- The check against the next one.
  unfoldable pub check_above : Option (ℕ × Tx) → Tx → Option OrderCheck
  check_above none tx = some in_order
  check_above (some (i, other_tx)) tx = do
    cmp ← tx_cmp tx other_tx
    must_precede cmp i (some in_order)

  -- If we were to insert tx at txoff, would it be in order?
  unfoldable pub check_tx_ordering : BlockShard → (txoff : ℕ) → Tx → Option OrderCheck
  check_tx_ordering shard txoff tx =
      if shard.txcount == 0
      then some in_order
      else check_below (nearest_below shard txoff) tx
          (check_above (nearest_above shard (shard.size - (txoff + 1)) (txoff + 1)) tx)
