-- ===== src/Examples/Places.antt =====
-- input_refs.c at concrete inputs: a block refers to a place of its own, of which the hash is known.
use pettycoin.Base.{◌≡◌, ◌↔◌, refl, true, false, none, some, [], ◌∷◌, take, replicate, All}
use pettycoin.Protocol.{InputRef, ecode_none}
use pettycoin.Tx.{num_inputs, tx_input}
use pettycoin.Shard.{BlockShard, TxRefHash, hash, txrefhash_in_shard, num_shards}
use pettycoin.Block.{Block}
use pettycoin.Chain.{block_ancestor}
use pettycoin.Refs.{
  check_place, referred_to, check_ref, or_next, check_refs, refs_ok, unknown_or_ok, known_at,
  ref_round, refs_from, check_tx_refs,
}
use pettycoin.Refs.Resolved.{Points, AllResolve, check_refs_accepts, check_tx_refs_ok}
use pettycoin.Examples.{toy_crypto, payment, old_hash, address}

abbrev spent : TxRefHash
spent = record { txhash = old_hash; refhash = replicate 32 2 }

abbrev small_shard : BlockShard
small_shard = record {
  shardnum = 0;
  txcount = 0;
  hashcount = 1;
  size = 1;
  proof = none;
  u = hash spent ∷ [];
}

abbrev small_block : Block
small_block = record {
  hdr = record {
    version = 1;
    features_vote = 0;
    shard_order = 0;
    nonce2 = replicate 13 0;
    prev_block = old_hash;
    num_prev_txhashes = 0;
    depth = 0;
    fees_to = address;
  };
  shard_nums = 1 ∷ [];
  merkles = old_hash ∷ [];
  prev_txhashes = [];
  tailer = record { timestamp = 1000; difficulty = 0; nonce1 = 0 };
  sha = old_hash;
  shard = small_shard ∷ [];
  total_work = 0;
  pending_features = 0;
  all_known = true;
  complaint = false;
  prev = none;
  children = [];
}

abbrev a_ref : InputRef
a_ref = record { blocks_ago = 0; shard = 0; txoff = 0; unused = 0 }

check_refs_accepts_example :
    (check_refs true (small_block ∷ []) 0 small_block (a_ref ∷ []) ≡ ecode_none)
    ↔ All (Points true (small_block ∷ []) 0 small_block) (a_ref ∷ [])
check_refs_accepts_example = check_refs_accepts true (small_block ∷ []) 0 small_block (a_ref ∷ [])

small_block_refs : check_tx_refs true (small_block ∷ []) 0 payment (a_ref ∷ []) ≡ some refs_ok
unfolding check_tx_refs num_inputs check_refs check_ref check_place referred_to block_ancestor
    or_next num_shards refs_from known_at txrefhash_in_shard ref_round unknown_or_ok tx_input
small_block_refs = refl

check_tx_refs_ok_example :
    AllResolve (small_block ∷ []) 0 payment 0 (take (num_inputs payment) (a_ref ∷ []))
check_tx_refs_ok_example =
    check_tx_refs_ok (small_block ∷ []) 0 payment true (a_ref ∷ []) small_block_refs
