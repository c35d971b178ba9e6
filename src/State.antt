-- ===== src/State.antt =====
-- state.h, state.c and pending.h: the state of a node, as far as the chain, the blocks and the
-- transactions that wait for a block go, at the start and as its parts are written.
use pettycoin.Base.{ℕ, Bool, false, List, [], ◌∷◌, replicate, ◌^◌}
use pettycoin.Protocol.{Tx, InputRef, initial_shard_order}
use pettycoin.Block.{Block}

-- `struct pending_tx`.
pub record PendingTx : Type 0 where
  pub tx : Tx
  pub refs : List InputRef

-- `struct pending_block`, without the list node and the timer.
pub record PendingBlock : Type 0 where
  pub pend : List (List PendingTx)
  pub unknown_tx : List Tx
  pub num_unknown : ℕ
  pub needs_recheck : Bool

-- `struct state`; `blocks` is the memory in which the blocks lie, by number.
pub record State : Type 0 where
  pub blocks : List Block
  pub block_depth : List (List ℕ)
  pub longest_chains : List ℕ
  pub longest_knowns : List ℕ
  pub preferred_chain : ℕ
  pub pending : PendingBlock
  pub upcoming_features : ℕ

unfoldable pub new_pending_block : PendingBlock
new_pending_block = record {
  pend = replicate (2 ^ initial_shard_order) [];
  unknown_tx = [];
  num_unknown = 0;
  needs_recheck = false;
}

-- The state at the start, whose one block is the genesis block.
unfoldable pub new_state : Block → State
new_state genesis = record {
  blocks = record genesis { total_work = 0 } ∷ [];
  block_depth = (0 ∷ []) ∷ [];
  longest_chains = 0 ∷ [];
  longest_knowns = 0 ∷ [];
  preferred_chain = 0;
  pending = new_pending_block;
  upcoming_features = 0;
}
