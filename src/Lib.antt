-- ===== src/Lib.antt =====
-- pettycoin: a sharded side chain to bitcoin, in C.
--
-- A transaction (tx.h, tx.c) names the outputs that it spends and lies in memory, with its arrays,
-- the way protocol.h lays it out; marshal.c measures it and accepts it from a buffer. The
-- transactions of a block are divided into shards by address (shard.c, block_shard.c); each shard
-- has a merkle tree (merkle_recurse.c, merkle_txs.c), whose root is in the block, and a proof (proof.c)
-- shows that a transaction is at a place of a block. A block has to beat its target
-- (difficulty.c), which follows the time that the blocks before it took. The blocks form a tree,
-- in which chain.c keeps pointers to the chains with the most work.
--
--   Base, Base/*        lists over the native numbers, machine words, little-endian words, tests
--   Result              a result with a protocol error code
--   Crypto              SHA-256, RIPEMD-160 and ECDSA as parameters; shadouble.c, addr.h
--   Protocol            protocol.h, protocol_ecode.h: constants and structures
--   Hex                 hex.c
--   Tx                  tx.h, tx.c
--   Marshal             overflows.h, version.h, marshal.c; Marshal/Layout is the memory layout
--   Shard               hash_tx.c, block_shard.h, block_shard.c, shard.h, shard.c
--   CheckShard          check_block_shard of block_shard.c
--   Merkle              merkle_recurse.c, merkle_hashes.c, merkle_txs.c
--   Block               block.h, block.c
--   Proof               proof.c
--   Chain               chain.h, chain.c: Precedes for block_preceeds, Walks, Meeting and Step for
--                       step_towards, Best and Longest for the search of descendents; Pointers holds
--                       the pointers of the state, NewBlock what a new block does to them (with
--                       block_add of block.c), Checks check_chains, Assertions what it
--                       comes to; Tree, Heads, Flags, Connected,
--                       Known and Moves are about the pointers, Family, Joined, Levels, Update, Valid,
--                       Reach, Start and Chosen about a block that joins
--   Table               the interface of ccan's hash tables, with lists as an instance (Table/Lists)
--   TxHash, InputHash   txhash.h, txhash.c; inputhash.h, inputhash.c
--   TxInHashes          tx_in_hashes.c
--   State               state.h, state.c, pending.h: the state
--   Pending             pending.c; Array has the sorted arrays of tal_arr.h, Array/Search their search
--   CreateRefs          create_refs.c
--   Features            features.c
--   Difficulty          difficulty.h, difficulty.c
--   Check               signature.c, gateways.c, check_tx.c: Basic is what check_tx accepts,
--                       Inputs and Codes are about the inputs
--   CheckBlock          hash_block.c, timestamp.c, check_block_header of check_block.c, the searches of
--                       block.c and the walk of difficulty.c; Found is about the search by hash, Joins
--                       about a block that passes and is added
--   PrevTxHashes        prev_txhashes.h, prev_txhashes.c and the checks of check_block.c on them
--   PutShard            check_block.c: how a hash or a proof gets in a shard; Counts is about the counts
--   TxCmp               tx_cmp.c and the order of a shard in check_block.c
--   Reward              reward.c
--   Refs                input_refs.c
--   Examples            test data, and the properties at concrete inputs
--
-- The conventions of the model. Numbers are native natural numbers, with the wrap-around of each C type
-- written out. Memory is a list of bytes. A pointer to a block is the number of the block in the
-- store of all blocks. `abort`, a failed assertion and a read through NULL give `none`; a read
-- behind an array is a result of its own where the code has one. Log messages, what is written to
-- disk or sent to peers, the restart of the generator and failures of the allocator are left out.
-- On fuel are `merkle_recurse`, with nine levels for 256 leaves, the walks back along a chain,
-- with one round for each depth, and the search of the descendents of a block, with one level for
-- each block of the store.
--
-- Not modelled: the network and its packets, the files, JSON, the child process that mines, the
-- command-line tools, and the vendored libraries ccan and jsmn.
pub mod Base
pub mod Hex
pub mod Crypto
pub mod Protocol
pub mod Tx
pub mod Result
pub mod Marshal
pub mod Shard
pub mod Merkle
pub mod Block
pub mod PrevTxHashes
pub mod PutShard
pub mod Proof
pub mod Difficulty
pub mod Examples
pub mod Chain
pub mod Check
pub mod Refs
pub mod TxCmp
pub mod State
pub mod Table
pub mod TxHash
pub mod InputHash
pub mod TxInHashes
pub mod Pending
pub mod Features
pub mod CreateRefs
pub mod CheckBlock
pub mod CheckShard
pub mod Reward
