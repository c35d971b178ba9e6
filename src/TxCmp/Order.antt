-- ===== src/TxCmp/Order.antt =====
-- tx_cmp.c against the lexicographic order of byte strings.
use pettycoin.Base.{
  ℕ, zero, suc, ◌<◌, ◌≡◌, inl, inr, refl, sym, ap, ◌∙◌, subst, Bool, true, false, some, List, [],
  ◌∷◌, ◌++◌, arith, ltb, if◌then◌else◌, ltb→lt, Bool-cases, ◌>>=◌, some-injective, length,
  get_elem?, All, Bytes,
}
use pettycoin.Crypto.{Crypto, pubkey_to_addr, length-pubkey_to_addr}
use pettycoin.Protocol.{Tx, normal, from_gateway, to_gateway, claim, GatewayPayment}
use pettycoin.Tx.{IsSized, get_tx_input_address}
use pettycoin.Shard.{order_address}
use pettycoin.Marshal.Layout.{tx_bytes, HasLayout, PaymentFits}
use pettycoin.Marshal.Lengths.{marshal_tx_len-length}
use pettycoin.TxCmp.{Sign, before, equal, after, memcmp, or_else, secondary, tx_cmp}

-- The order of the dictionary; a beginning of a string comes before it.
unfoldable pub lexicographic : Bytes → Bytes → Sign
lexicographic [] [] = equal
lexicographic [] (y ∷ ys) = before
lexicographic (x ∷ xs) [] = after
lexicographic (x ∷ xs) (y ∷ ys) =
    let rest = lexicographic xs ys in if ltb x y then before else if ltb y x then after else rest

lexicographic_flip : (xs ys : Bytes) → lexicographic xs ys ≡ after → lexicographic ys xs ≡ before
unfolding lexicographic
lexicographic_flip [] [] h = absurd (cc h)
lexicographic_flip [] (y ∷ ys) h = absurd (cc h)
lexicographic_flip (x ∷ xs) [] h = refl
lexicographic_flip (x ∷ xs) (y ∷ ys) h = ground (arith, lexicographic_flip xs ys)

or_else_if :
    (p q : Bool) (rest next : Sign)
    → or_else (if p then before else if q then after else rest) next
      ≡ (if p then before else if q then after else or_else rest next)
unfolding or_else
or_else_if true q rest next = refl
or_else_if false true rest next = refl
or_else_if false false rest next = refl

shorter :
    (xs ys : Bytes)
    → length xs < length ys
    → or_else (memcmp (length xs) xs ys) before ≡ lexicographic xs ys
unfolding memcmp lexicographic or_else
shorter [] [] h = absurd (omega arith)
shorter [] (y ∷ ys) h = refl
shorter (x ∷ xs) [] h = absurd (omega arith)
shorter (x ∷ xs) (y ∷ ys) h =
    or_else_if (ltb x y) (ltb y x) (memcmp (length xs) xs ys) before
    ∙ ap (λ (r : Sign). if ltb x y then before else if ltb y x then after else r)
        (shorter xs ys (omega arith))

longer :
    (xs ys : Bytes)
    → length ys < length xs
    → or_else (memcmp (length ys) xs ys) after ≡ lexicographic xs ys
unfolding memcmp lexicographic or_else
longer [] ys h = absurd (omega arith)
longer (x ∷ xs) [] h = refl
longer (x ∷ xs) (y ∷ ys) h =
    or_else_if (ltb x y) (ltb y x) (memcmp (length ys) xs ys) after
    ∙ ap (λ (r : Sign). if ltb x y then before else if ltb y x then after else r)
        (longer xs ys (omega arith))

as_long : (xs ys : Bytes) → length xs ≡ length ys → memcmp (length ys) xs ys ≡ lexicographic xs ys
unfolding memcmp lexicographic
as_long [] [] h = refl
as_long [] (y ∷ ys) h = absurd (omega arith)
as_long (x ∷ xs) [] h = absurd (omega arith)
as_long (x ∷ xs) (y ∷ ys) h =
    ap (λ (r : Sign). if ltb x y then before else if ltb y x then after else r)
      (as_long xs ys (omega arith))

secondary-lexicographic :
    (xs ys : Bytes) → secondary (length xs) (length ys) xs ys ≡ lexicographic xs ys
unfolding secondary
secondary-lexicographic xs ys = elim (Bool-cases (ltb (length xs) (length ys))) [
  | inl lt ↦ rw lt (shorter xs ys (ltb→lt (length xs) (length ys) lt))
  | inr ge ↦ elim (Bool-cases (ltb (length ys) (length xs))) [
    | inl gt ↦ rw (ge, gt) (longer xs ys (ltb→lt (length ys) (length xs) gt))
    | inr le ↦ rw (ge, le) (as_long xs ys (ground arith))
  ]
]

lexicographic-append :
    (n : ℕ) (a b xs ys : Bytes)
    → length a ≡ n
    → length b ≡ n
    → or_else (memcmp n a b) (lexicographic xs ys) ≡ lexicographic (a ++ xs) (b ++ ys)
unfolding memcmp lexicographic or_else
lexicographic-append zero [] [] xs ys ha hb = refl
lexicographic-append zero [] (y ∷ b) xs ys ha hb = absurd (omega arith)
lexicographic-append zero (x ∷ a) b xs ys ha hb = absurd (omega arith)
lexicographic-append (suc n) [] b xs ys ha hb = absurd (omega arith)
lexicographic-append (suc n) (x ∷ a) [] xs ys ha hb = absurd (omega arith)
lexicographic-append (suc n) (x ∷ a) (y ∷ b) xs ys ha hb =
    or_else_if (ltb x y) (ltb y x) (memcmp n a b) (lexicographic xs ys)
    ∙ ap (λ (r : Sign). if ltb x y then before else if ltb y x then after else r)
        (lexicographic-append n a b xs ys (omega arith) (omega arith))

lexicographic_trans :
    (xs ys zs : Bytes)
    → lexicographic xs ys ≡ before
    → lexicographic ys zs ≡ before
    → lexicographic xs zs ≡ before
unfolding lexicographic
lexicographic_trans [] [] zs h k = cc h
lexicographic_trans [] (y ∷ ys) [] h k = cc k
lexicographic_trans [] (y ∷ ys) (z ∷ zs) h k = refl
lexicographic_trans (x ∷ xs) [] zs h k = cc h
lexicographic_trans (x ∷ xs) (y ∷ ys) [] h k = cc k
lexicographic_trans (x ∷ xs) (y ∷ ys) (z ∷ zs) h k = ground (arith, lexicographic_trans xs ys zs)

lexicographic_equal : (xs ys : Bytes) → lexicographic xs ys ≡ equal → xs ≡ ys
unfolding lexicographic
lexicographic_equal [] [] h = refl
lexicographic_equal [] (y ∷ ys) h = cc h
lexicographic_equal (x ∷ xs) [] h = cc h
lexicographic_equal (x ∷ xs) (y ∷ ys) h = ground (arith, lexicographic_equal xs ys)

module _ ⦃c : Crypto⦄ where
  first_payment :
      (outs : List GatewayPayment) (addr : Bytes)
      → All PaymentFits outs
      → (get_elem? outs 0 >>= λ out. some out.output_addr) ≡ some addr
      → length addr ≡ 20
  first_payment [] addr h e = cc e
  first_payment (out ∷ outs) addr h e = subst (λ x. length x ≡ 20) (some-injective e) h.0

  key_address : (key addr : Bytes) → some (pubkey_to_addr key) ≡ some addr → length addr ≡ 20
  key_address key addr e = subst (λ x. length x ≡ 20) (some-injective e) (length-pubkey_to_addr key)

  order_address-length :
      (tx : Tx) (addr : Bytes) → HasLayout tx → order_address tx ≡ some addr → length addr ≡ 20
  unfolding order_address HasLayout get_tx_input_address
  order_address-length (normal t) addr h e = key_address t.input_key addr e
  order_address-length (to_gateway t) addr h e = key_address t.input_key addr e
  order_address-length (claim t) addr h e = key_address t.input_key addr e
  order_address-length (from_gateway t) addr h e = first_payment t.outputs addr h.3 e

  -- What transactions are sorted by: the address, then all the bytes.
  abbrev pub SortsBy : Tx → Bytes → Type 0
  SortsBy tx key =
      (addr : Bytes) × (order_address tx ≡ some addr)
      × HasLayout tx
      × IsSized tx
      × (key ≡ addr ++ tx_bytes tx)

  -- `tx_cmp` is the lexicographic order of address and bytes: the secondary order, with its different
  -- lengths, is the order of the dictionary.
  pub tx_cmp-lexicographic :
      (a b : Tx) (key_a key_b : Bytes)
      → SortsBy a key_a
      → SortsBy b key_b
      → tx_cmp a b ≡ some (lexicographic key_a key_b)
  unfolding tx_cmp
  tx_cmp-lexicographic a b key_a key_b (addr_a, is_a, lay_a, size_a, key_a_is)
        (addr_b, is_b, lay_b, size_b, key_b_is) =
      let len_a = (marshal_tx_len-length a lay_a size_a).0 in
      let len_b = (marshal_tx_len-length b lay_b size_b).0 in
      let tail = secondary-lexicographic (tx_bytes a) (tx_bytes b) in
      let whole =
        lexicographic-append 20 addr_a addr_b (tx_bytes a) (tx_bytes b)
          (order_address-length a addr_a lay_a is_a) (order_address-length b addr_b lay_b is_b) in
      rw (is_a, is_b, len_a, len_b, tail, whole, key_a_is, key_b_is) refl

  -- Transactions in order stay in order over a third one, and two that compare equal have one address
  -- and the same bytes.
  pub tx_cmp_ordered :
      (x y z : Tx) (key_x key_y key_z : Bytes)
      → SortsBy x key_x
      → SortsBy y key_y
      → SortsBy z key_z
      → (tx_cmp x y ≡ some before → tx_cmp y z ≡ some before → tx_cmp x z ≡ some before)
        × (tx_cmp x y ≡ some equal → key_x ≡ key_y)
  tx_cmp_ordered x y z key_x key_y key_z hx hy hz =
      let xy = tx_cmp-lexicographic x y key_x key_y hx hy in
      let yz = tx_cmp-lexicographic y z key_y key_z hy hz in
      let xz = tx_cmp-lexicographic x z key_x key_z hx hz in
      (
        λ h k.
            xz
            ∙ ap some (
                lexicographic_trans key_x key_y key_z (some-injective (sym xy ∙ h))
                  (some-injective (sym yz ∙ k))),
        λ h. lexicographic_equal key_x key_y (some-injective (sym xy ∙ h)),
      )

  -- After is before, the other way round.
  pub tx_cmp_flip :
      (x y : Tx) (key_x key_y : Bytes)
      → SortsBy x key_x
      → SortsBy y key_y
      → tx_cmp x y ≡ some after
      → tx_cmp y x ≡ some before
  tx_cmp_flip x y key_x key_y hx hy h =
      tx_cmp-lexicographic y x key_y key_x hy hx
      ∙ ap some (
          lexicographic_flip key_x key_y
            (some-injective (sym (tx_cmp-lexicographic x y key_x key_y hx hy) ∙ h)))
