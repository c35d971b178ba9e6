-- ===== src/TxHash/Trip.antt =====
-- txhash.c: what `txhash_del_tx` takes out.
use pettycoin.Base.{ℕ, ◌≡◌, refl, sym, ap, ap₂, ◌∙◌, true, arith, Bytes, bytes_eq_refl, bytes_eq→eq}
use mathlib.Mathlib.Data.Multiset.Defs.{Multiset}
use mathlib.Mathlib.Data.Multiset.ZeroCons.{cons}
use pettycoin.Table.{with_one, view}
use pettycoin.Table.Delete.{with_one_cancel, del_first_takes}
use pettycoin.TxHash.{
  BlockOrTx, in_block, pending, TxHashElem, txhash_eq, TxTable, same_u, is_place, txhash_del_tx,
  txhash_add_tx,
}

abbrev pub elem : (sha : Bytes) (u : BlockOrTx) (shardnum txoff : ℕ) → TxHashElem
elem sha u shardnum txoff = record { sha = sha; u = u; shardnum = shardnum; txoff = txoff }

same_place :
    (b shard txoff : ℕ) (d : TxHashElem) (u : BlockOrTx)
    → is_place (in_block b) shard txoff (elem d.sha u d.shardnum d.txoff) ≡ true
    → (u ≡ in_block b) × (d.shardnum ≡ shard) × (d.txoff ≡ txoff)
unfolding is_place same_u
same_place b shard txoff d (in_block a) at =
    (ap in_block (ground (arith, at)), ground (arith, at), ground (arith, at))
same_place b shard txoff d (pending tx) at = absurd (ground (arith, at))

-- An element of a block is the only one with its hash that is at its place.
only_one :
    (b shard txoff : ℕ) (sha : Bytes) (d : TxHashElem)
    → txhash_eq d sha ≡ true
    → is_place (in_block b) shard txoff d ≡ true
    → d ≡ elem sha (in_block b) shard txoff
only_one b shard txoff sha d has at =
    let same_sha : sha ≡ d.sha = bytes_eq→eq sha d.sha has in
    let (same_block, same_shard, same_off) = same_place b shard txoff d d.u at in
    ap₂ (λ s u. elem s u d.shardnum d.txoff) (sym same_sha) same_block
    ∙ ap₂ (λ n o. elem sha (in_block b) n o) same_shard same_off

module _ (h : TxTable) where
  -- `txhash_del_tx` of the place of a block that is in the table takes exactly that element out of the
  -- bag of its hash, and leaves the bags of all other hashes alone.
  pub txhash_del_tx_takes :
      (t : h.Raw) (b shard txoff : ℕ) (sha : Bytes) (m : Multiset TxHashElem)
      → view h t sha ≡ cons (elem sha (in_block b) shard txoff) m
      → (sha' : Bytes)
      → view h t sha'
        ≡ with_one txhash_eq
            (elem sha (in_block b) shard txoff)
            sha'
            (view h (txhash_del_tx h t (in_block b) shard txoff sha) sha')
  unfolding txhash_del_tx is_place same_u
  txhash_del_tx_takes t b shard txoff sha m is =
      del_first_takes h (is_place (in_block b) shard txoff) sha t
        (elem sha (in_block b) shard txoff) m (bytes_eq_refl sha) (ground arith)
        (only_one b shard txoff sha) is

  -- Adding the place of a block and deleting it again leaves the bag of every hash as it was, whatever
  -- order the table keeps.
  pub txhash_del_tx-txhash_add_tx :
      (t : h.Raw) (b shard txoff : ℕ) (sha sha' : Bytes)
      → view h
          (txhash_del_tx h
            (txhash_add_tx h t (in_block b) shard txoff sha)
            (in_block b)
            shard
            txoff
            sha)
          sha'
        ≡ view h t sha'
  unfolding txhash_add_tx
  txhash_del_tx-txhash_add_tx t b shard txoff sha sha' =
      let e : TxHashElem = elem sha (in_block b) shard txoff in
      let there : view h (h.add t e) sha ≡ cons e (view h t sha) =
        h.vals-add t e sha ∙ owns e (view h t sha) (bytes_eq_refl sha) in
      with_one_cancel txhash_eq (λ d. true) e sha' _ _
        (sym (txhash_del_tx_takes (h.add t e) b shard txoff sha (view h t sha) there sha')
          ∙ h.vals-add t e sha')
    where
      owns :
          (e : TxHashElem) (m : Multiset TxHashElem)
          → txhash_eq e sha ≡ true
          → with_one txhash_eq e sha m ≡ cons e m
      owns e m has = rw has refl
