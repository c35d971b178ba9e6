-- ===== src/Examples/Knowledge.antt =====
-- prev_txhashes.c at a concrete input: a block with one transaction on top of a genesis block.
use pettycoin.Base.{◌≡◌, refl, true, Option, some, List, [], ◌∷◌, Bytes, length}
use pettycoin.Crypto.{sha256_double}
use pettycoin.Tx.{num_inputs}
use pettycoin.Marshal.{marshal_tx_len, marshal_input_ref_len, varsize, mul_overflows, add_overflows}
use pettycoin.Marshal.Layout.{tx_bytes, array_bytes, ref_bytes, signed_part, array_part}
use pettycoin.Shard.{BlockShard, txp, new_block_shard, shard_all_known, num_shards}
use pettycoin.Block.{Block, block_get_tx, block_get_refs}
use pettycoin.PrevTxHashes.{
  each_prev, for_each_prev_txhash, check_num_prev_txhashes, shard_bytes, prev_txhash, make_shards,
  make_blocks, make_prev_txhashes, all_right, check_prev_txhashes,
}
use pettycoin.PrevTxHashes.Trip.{check_prev_txhashes-make_prev_txhashes}
use pettycoin.Examples.{toy_crypto, payment, address}
use pettycoin.Examples.Chains.{header_at}
use pettycoin.Examples.Growth.{the_genesis}
use pettycoin.Chain.{block_ancestor}

abbrev full_shard : BlockShard
full_shard = record (new_block_shard 0 1) {
  txcount = 1;
  u =
      txp (record {
        tx = payment;
        refs = record { blocks_ago = 1; shard = 0; txoff = 0; unused = 0 } ∷ [];
      })
      ∷ [];
}

abbrev next_block : Block
next_block = record the_genesis {
  hdr = header_at 1;
  shard_nums = 1 ∷ 0 ∷ [];
  shard = full_shard ∷ new_block_shard 1 0 ∷ [];
  prev = some 0;
}

abbrev two_blocks : List Block
two_blocks = the_genesis ∷ next_block ∷ []

abbrev made : Option (Option Bytes)
made = make_prev_txhashes two_blocks (some 1) address

abbrev the_hashes : Bytes
the_hashes = 203 ∷ 137 ∷ 137 ∷ 137 ∷ []

made_is : made ≡ some (some the_hashes)
unfolding make_prev_txhashes for_each_prev_txhash each_prev make_blocks make_shards prev_txhash
    shard_bytes block_get_tx block_get_refs shard_all_known num_shards sha256_double new_block_shard
    marshal_tx_len marshal_input_ref_len tx_bytes array_bytes ref_bytes block_ancestor num_inputs
    varsize mul_overflows add_overflows signed_part array_part
made_is = refl

-- The block on top of the two, made by the owner of the address.
abbrev made_block : Block
made_block = record the_genesis {
  hdr = record (header_at 2) { num_prev_txhashes = 4 };
  prev_txhashes = the_hashes;
  prev = some 1;
}

check_prev_txhashes-make_prev_txhashes_example :
    (check_num_prev_txhashes two_blocks (some 1) made_block.hdr ≡ some true)
    × (check_prev_txhashes two_blocks made_block ≡ some (all_right (length the_hashes)))
check_prev_txhashes-make_prev_txhashes_example =
    check_prev_txhashes-make_prev_txhashes two_blocks (some 1) address the_hashes made_block made_is
      refl refl refl refl
