-- ===== src/Examples/Filling.antt =====
-- check_block.c at a concrete input: a hash is put in the shard of a block.
use pettycoin.Base.{
  is_some, ◌>>=◌, ◌+◌, ◌<◌, ◌≡◌, refl, true, none, some, [], ◌∷◌, get_elem?, arith,
}
use pettycoin.Shard.{
  TxRefHash, BlockShard, new_block_shard, txrefhash_in_shard, entry_hash, shard_all_hashes,
}
use pettycoin.Block.{Block}
use pettycoin.State.{State, new_state}
use pettycoin.CheckShard.{tally_txs, tally_hashes, check_block_shard, entries_ok, entry_ok}
use pettycoin.PutShard.{put_txhash_in_shard, set_hash}
use pettycoin.PutShard.Counts.{IsCounted, PutIf, put_txhash_in_shard-IsCounted}
use pettycoin.Examples.{old_hash, toy_crypto}
use pettycoin.Examples.Growth.{the_genesis}
use pettycoin.Examples.Tables.{tx_list, no_hash, input_list, empty_tables}

abbrev open_block : Block
open_block = record the_genesis {
  shard_nums = 0 ∷ 2 ∷ [];
  shard = new_block_shard 0 0 ∷ new_block_shard 1 2 ∷ [];
}

abbrev open_state : State
open_state = new_state open_block

abbrev some_hash : TxRefHash
some_hash = record { txhash = old_hash; refhash = old_hash }

open-IsCounted : IsCounted (new_block_shard 1 2)
unfolding new_block_shard tally_txs tally_hashes
open-IsCounted = record { sized = refl; room = omega arith; txs = refl; hashes = refl }

at_open : get_elem? open_state.blocks 0 ≡ some (record open_block { total_work = 0 })
unfolding new_state
at_open = refl

second_unknown : txrefhash_in_shard (new_block_shard 1 2) 1 ≡ none
unfolding txrefhash_in_shard entry_hash new_block_shard
second_unknown = refl

second_inside : 1 < (new_block_shard 1 2).size
unfolding new_block_shard
second_inside = omega arith

put_txhash_in_shard-IsCounted_example :
    (next : State) × (block' : Block) × (shard' : BlockShard) × (next.pending.needs_recheck ≡ true)
    × (get_elem? next.blocks 0 ≡ some block')
    × (get_elem? block'.shard 1 ≡ some shard')
    × IsCounted shard'
    × ((new_block_shard 1 2).hashcount + 1 ≡ shard'.hashcount)
    × (txrefhash_in_shard shard' 1 ≡ some some_hash)
    × PutIf true tx_list no_hash input_list open_state empty_tables 0 1 1 some_hash next block'
        shard'
    × (is_some (new_block_shard 1 2).proof ≡ true
        → (new_block_shard 1 2).txcount + (new_block_shard 1 2).hashcount + 1
          ≡ (new_block_shard 1 2).size
        → put_txhash_in_shard true tx_list no_hash input_list open_state empty_tables 0 1 1
            some_hash
          ≡ none)
put_txhash_in_shard-IsCounted_example =
    put_txhash_in_shard-IsCounted true tx_list no_hash input_list open_state empty_tables 0 1 1
      some_hash open_block (new_block_shard 1 2) at_open refl open-IsCounted second_inside
      second_unknown

-- The check passes here: the hash is put.
hash_put :
    (do
      r ←
          put_txhash_in_shard true tx_list no_hash input_list open_state empty_tables 0 1 1
            some_hash
      some r.1)
    ≡ some true
unfolding put_txhash_in_shard set_hash new_state new_block_shard txrefhash_in_shard entry_hash
    check_block_shard shard_all_hashes entries_ok entry_ok tally_txs tally_hashes
hash_put = refl
