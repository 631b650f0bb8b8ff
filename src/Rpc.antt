-- ===== src/Rpc.antt =====
-- The node's RPC messages, which the bridge takes from the package appmessage of HTND: the fields
-- that src/htnstratum reads, a pointer as an option.
use htn_stratum_bridge.Prelude.{ℕ, Bool, Option, none, some, List, Bytes}

pub record OutputVerboseData : Type 0 where
  pub script_public_key_address : Bytes

pub record TransactionOutput : Type 0 where
  pub amount : ℕ
  pub verbose_data : Option OutputVerboseData

pub record Transaction : Type 0 where
  pub outputs : List (Option TransactionOutput)
  pub payload : Bytes

pub record Header : Type 0 where
  pub version : ℕ
  pub parents : List (List Bytes)
  pub hash_merkle_root : Bytes
  pub accepted_id_merkle_root : Bytes
  pub utxo_commitment : Bytes
  pub timestamp : ℕ
  pub bits : ℕ
  pub daa_score : ℕ
  pub blue_score : ℕ
  pub blue_work : Bytes
  pub pruning_point : Bytes

pub record VerboseData : Type 0 where
  pub hash : Bytes
  pub blue_score : ℕ
  pub is_chain_block : Bool
  pub selected_parent_hash : Bytes
  pub merge_set_blues_hashes : List Bytes
  pub merge_set_reds_hashes : List Bytes

-- `*RPCBlock`, behind a pointer that is not nil.
pub record Block : Type 0 where
  pub header : Option Header
  pub verbose_data : Option VerboseData
  pub transactions : List (Option Transaction)

-- `block.VerboseData.Hash`, where `block` and its verbose data are not nil.
abbrev pub verbose_hash : Option Block → Option Bytes
verbose_hash none = none
verbose_hash (some b) = elim b.verbose_data [ none ↦ none | some v ↦ some v.hash ]
