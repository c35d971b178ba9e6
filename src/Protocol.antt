-- ===== src/Protocol.antt =====
-- protocol.h and protocol_ecode.h: the constants and the structures of the protocol. An array that
-- follows a structure in memory is a list in its record, beside the field that counts it.
use pettycoin.Base.{ℕ, ◌*◌, ◌/◌, Bool, List, Bytes, if◌then◌else◌}

abbrev pub prev_block_txhashes : ℕ
prev_block_txhashes = 10

abbrev pub initial_shard_order : ℕ
initial_shard_order = 2

abbrev pub max_shard_order : ℕ
max_shard_order = 16

abbrev pub tx_max_inputs : ℕ
tx_max_inputs = 4

abbrev pub block_target_time : Bool → ℕ
block_target_time testnet = if testnet then 10 else 600

abbrev pub tx_horizon_secs : Bool → ℕ
tx_horizon_secs testnet = block_target_time testnet * 60 * 24 * 30

abbrev pub difficulty_update_blocks : ℕ
difficulty_update_blocks = 2016

abbrev pub feature_vote_blocks : ℕ
feature_vote_blocks = 2016

abbrev pub feature_confirm_delay : ℕ
feature_confirm_delay = 2016

abbrev pub reward_period : ℕ
reward_period = 100

abbrev pub max_satoshi : ℕ
max_satoshi = 0x80000000 / tx_max_inputs

pub data TxType : Type 0 where
  tx_normal tx_from_gateway tx_to_gateway tx_claim : TxType

-- Which output is spent: the hash of its transaction, and its number.
pub record TxInput : Type 0 where
  pub input : Bytes
  pub output : ℕ
  pub unused : ℕ

pub record InputRef : Type 0 where
  pub blocks_ago : ℕ
  pub shard : ℕ
  pub txoff : ℕ
  pub unused : ℕ

pub record GatewayPayment : Type 0 where
  pub send_amount : ℕ
  pub output_addr : Bytes

-- `pays_fee` is the top bit of the byte `type`; the constructor of `Tx` is its other bits.
pub record TxNormal : Type 0 where
  pub version : ℕ
  pub pays_fee : Bool
  pub features : ℕ
  pub input_key : Bytes
  pub output_addr : Bytes
  pub send_amount : ℕ
  pub change_amount : ℕ
  pub num_inputs : ℕ
  pub signature : Bytes
  pub inputs : List TxInput

pub record TxFromGateway : Type 0 where
  pub version : ℕ
  pub pays_fee : Bool
  pub features : ℕ
  pub gateway_key : Bytes
  pub num_outputs : ℕ
  pub unused : ℕ
  pub signature : Bytes
  pub outputs : List GatewayPayment

pub record TxToGateway : Type 0 where
  pub version : ℕ
  pub pays_fee : Bool
  pub features : ℕ
  pub input_key : Bytes
  pub to_gateway_addr : Bytes
  pub send_amount : ℕ
  pub change_amount : ℕ
  pub num_inputs : ℕ
  pub signature : Bytes
  pub inputs : List TxInput

pub record TxClaim : Type 0 where
  pub version : ℕ
  pub pays_fee : Bool
  pub features : ℕ
  pub input_key : Bytes
  pub amount : ℕ
  pub input : TxInput
  pub signature : Bytes

-- `union protocol_tx`.
pub data Tx : Type 0 where
  normal : TxNormal → Tx
  from_gateway : TxFromGateway → Tx
  to_gateway : TxToGateway → Tx
  claim : TxClaim → Tx

pub record BlockHeader : Type 0 where
  pub version : ℕ
  pub features_vote : ℕ
  pub shard_order : ℕ
  pub nonce2 : Bytes
  pub prev_block : Bytes
  pub num_prev_txhashes : ℕ
  pub depth : ℕ
  pub fees_to : Bytes

pub record BlockTailer : Type 0 where
  pub timestamp : ℕ
  pub difficulty : ℕ
  pub nonce1 : ℕ

-- The codes of `enum protocol_ecode` that the modelled functions return.
pub data Ecode : Type 0 where
  ecode_none invalid_len bad_shard_order block_high_version bad_timestamp bad_prev_txhashes : Ecode
  bad_difficulty insufficient_work bad_depth tx_high_version tx_type_unknown tx_bad_gateway : Ecode
  tx_cross_shards tx_too_large tx_too_small tx_bad_sig tx_too_many_inputs bad_proof : Ecode
  ref_bad_blocks_ago ref_bad_shard ref_bad_txoff bad_merkle priv_unknown_prev : Ecode
