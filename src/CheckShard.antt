-- ===== src/CheckShard.antt =====
-- block_shard.c: `check_block_shard`, the assertions on a shard of a block, as a test; false is a failed
-- assertion, `none` a read through NULL or behind an array, or a failed assertion of what it calls.
use pettycoin.Base.{
  ℕ, suc, ◌+◌, Bool, true, false, not, ◌&&◌, Option, none, some, List, [], ◌∷◌, leb, ◌==◌,
  if◌then◌else◌, is_some, ◌>>=◌, get_elem?, take, Bytes, bytes_eq,
}
use pettycoin.Crypto.{Crypto}
use pettycoin.Protocol.{Ecode, ecode_none, Tx, InputRef}
use pettycoin.Shard.{MerkleProof, TxpOrHash, unknown, txp, hash, BlockShard, shard_all_hashes}
use pettycoin.Block.{Block}
use pettycoin.Merkle.{merkle_txs}
use pettycoin.Proof.{check_proof}
use pettycoin.Check.{check_tx}
use pettycoin.Check.Inputs.{InputEcode, input_ok, input_unknown, check_tx_inputs}
use pettycoin.TxHash.{TxTable}
use pettycoin.InputHash.{InputTable}
use pettycoin.TxInHashes.{Hashes}

-- The two counts of the loop.
unfoldable pub tally_txs : List TxpOrHash → ℕ
tally_txs [] = 0
tally_txs (unknown ∷ us) = tally_txs us
tally_txs (txp t ∷ us) = suc (tally_txs us)
tally_txs (hash h ∷ us) = tally_txs us

unfoldable pub tally_hashes : List TxpOrHash → ℕ
tally_hashes [] = 0
tally_hashes (unknown ∷ us) = tally_hashes us
tally_hashes (txp t ∷ us) = tally_hashes us
tally_hashes (hash h ∷ us) = suc (tally_hashes us)

-- Once all hashes are known there are no proofs, and with a transaction before that there are.
abbrev pub proof_kept : BlockShard → Bool
proof_kept shard =
    if shard_all_hashes shard
    then not (is_some shard.proof)
    else if shard.txcount == 0
    then true
    else is_some shard.proof

abbrev pub is_code_none : Ecode → Bool
is_code_none ecode_none = true
is_code_none e = false

abbrev pub ok_or_unknown : InputEcode → Bool
ok_or_unknown input_ok = true
ok_or_unknown input_unknown = true
ok_or_unknown e = false

module _ ⦃c : Crypto⦄ where
  -- A proof that is missing is read through NULL.
  unfoldable pub entry_proved :
      Option (List (Option MerkleProof)) → (i : ℕ) → Block → Tx → List InputRef → Option Bool
  entry_proved none i block tx refs = some true
  entry_proved (some proofs) i block tx refs = do
    entry ← get_elem? proofs i
    proof ← entry
    check_proof proof block tx refs

  -- The whole shard has the merkle tree that the block names.
  unfoldable pub merkle_fits : Block → BlockShard → Option Bool
  merkle_fits block shard = do
    sha ← merkle_txs shard
    wanted ← get_elem? block.merkles shard.shardnum
    some (bytes_eq sha wanted)

  module _ (test_net : Bool) (h : TxTable) (hash_any : Bytes → ℕ → ℕ)
      (inputs : InputTable hash_any) where
    -- One round of the loop.
    unfoldable pub entry_ok :
        List Block
        → Hashes h hash_any inputs
        → (b : ℕ) → Block
        → BlockShard
        → (i : ℕ) → TxpOrHash
        → Option Bool
    entry_ok blocks t b block shard i unknown = some true
    entry_ok blocks t b block shard i (hash x) = some true
    entry_ok blocks t b block shard i (txp p) = do
      code ← check_tx test_net p.tx (some block)
      ierr ←
          check_tx_inputs h hash_any inputs blocks t b
            (some (record { block = b; shardnum = shard.shardnum; txoff = i })) p.tx
      proved ← entry_proved shard.proof i block p.tx p.refs
      some (is_code_none code && ok_or_unknown ierr && proved)

    unfoldable pub entries_ok :
        List Block
        → Hashes h hash_any inputs
        → (b : ℕ) → Block
        → BlockShard
        → (i : ℕ) → List TxpOrHash
        → Option Bool
    entries_ok blocks t b block shard i [] = some true
    entries_ok blocks t b block shard i (u ∷ us) = do
      here ← entry_ok blocks t b block shard i u
      rest ← entries_ok blocks t b block shard (i + 1) us
      some (here && rest)

    unfoldable pub check_block_shard :
        List Block → Hashes h hash_any inputs → (b : ℕ) → Block → BlockShard → Option Bool
    check_block_shard blocks t b block shard = do
      num ← get_elem? block.shard_nums shard.shardnum
      let us = take shard.size shard.u
      let txcount = tally_txs us
      let hashcount = tally_hashes us
      let counted =
          txcount == shard.txcount
          && hashcount == shard.hashcount
          && leb (txcount + hashcount) shard.size
      let whole = (if txcount + hashcount == shard.size then merkle_fits block shard else some true)
      let after = (do
        entries ← entries_ok blocks t b block shard 0 us
        merkle ← whole
        some (entries && counted && merkle))
      (if shard.size == num && proof_kept shard then after else some false)
