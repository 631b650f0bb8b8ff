-- ===== src/Share.antt =====
-- src/htnstratum/share_handler.go: how a share that a miner submits is read. The package
-- externalapi of HTND reads a hash from its text: the parameter `parse_hash`.
pub mod Stats
pub mod Owner
pub mod Tally
pub mod Submit
pub mod Effects
pub mod Checks
pub mod Again
pub mod Unsubmitted
pub mod Counting
pub mod Rolling
pub mod Workers
pub mod Proof
mod Tests
use htn_stratum_bridge.Prelude.{
  ℕ, ◌+◌, Bool, true, false, Option, none, some, List, [], ◌∷◌, Bytes, codes, has_prefix, drop, ltb,
  leb, length, ℤ, parse_int, if◌then◌else◌,
}
use htn_stratum_bridge.Rpc.{Block}
use htn_stratum_bridge.Stratum.{Param, text, other, Client, param_text}
use htn_stratum_bridge.Mining.{MiningState, get_job}

-- `submitInfo`, without the fields that are set later.
pub record SubmitInfo : Type 0 where
  pub job_id : ℤ
  pub block : Option Block
  pub noncestr : Bytes
  pub pow_hash : Bytes

-- How `validateSubmit` fails: on what the miner sent, or on an id of no job.
pub data Invalid : Type 0 where
  bad_data : Invalid
  missing_job : Invalid

pub data Validated : Type 0 where
  valid : SubmitInfo → Validated
  invalid : Invalid → Validated

-- `strings.Replace(s, "0x", "", 1)`
unfoldable pub remove_0x : Bytes → Bytes
remove_0x [] = []
remove_0x (c ∷ s) =
    let rest = remove_0x s in if has_prefix (c ∷ s) (codes "0x") then drop 1 s else c ∷ rest

-- The tests of `validateSubmit` that follow the lookup of the job.
abbrev pub read_rest : (Bytes → Option Bytes) → ℤ → Option Block → Param → Param → Validated
read_rest parse_hash id block nonce pow = elim (param_text nonce) [
  | none ↦ invalid bad_data
  | some noncestr ↦ elim (param_text pow) [
    | none ↦ invalid bad_data
    | some pow_num ↦ elim (parse_hash (remove_0x pow_num)) [
      | none ↦ invalid bad_data
      | some pow_hash ↦ valid (record {
        job_id = id;
        block = block;
        noncestr = remove_0x noncestr;
        pow_hash = pow_hash;
      })
    ]
  ]
]

module _ {F : Type 0} (parse_hash : Bytes → Option Bytes) where
  unfoldable pub validate_submit : List Param → MiningState F → Validated
  validate_submit (worker ∷ id_param ∷ nonce ∷ pow ∷ more) s = elim (param_text id_param) [
    | none ↦ invalid bad_data
    | some id_text ↦ elim (parse_int id_text) [
      | none ↦ invalid bad_data
      | some id ↦ elim (get_job id s) [
        | none ↦ invalid missing_job
        | some block ↦ read_rest parse_hash id block nonce pow
      ]
    ]
  ]
  validate_submit params s = invalid bad_data

abbrev pub work_window : ℕ
work_window = 8

-- `checkStales`: the blue score of the tip afterwards, and whether the share is stale.
unfoldable pub check_stales : ℕ → ℕ → ℕ × Bool
check_stales tip blue_score =
    if ltb tip blue_score then (blue_score, false) else (tip, ltb (blue_score + work_window) tip)
