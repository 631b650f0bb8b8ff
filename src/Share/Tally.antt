-- ===== src/Share/Tally.antt =====
-- `HandleSubmit` and `submit` of src/htnstratum/share_handler.go: their replies, what they do outside
-- of their own state, and what they count.
use htn_stratum_bridge.Prelude.{
  ℕ, Bool, true, false, ◌||◌, not, Option, none, some, List, [], ◌∷◌, Bytes, codes, has_prefix, Map,
  bytes_Eq, nat_eq, leb, be_value, reverse, ℤ, pos, leb_ℤ, int_inc, if◌then◌else◌,
}
use htn_stratum_bridge.Rpc.{Block}
use htn_stratum_bridge.Mining.{Diff}
use htn_stratum_bridge.Db.{BlockRecord, Table}
use htn_stratum_bridge.Share.Stats.{WorkStats, update_rolling_counters}

-- The replies of src/gostratum/stratum_context.go.
pub data Reply : Type 0 where
  success : Reply
  stale_share : Reply
  dupe_share : Reply
  incorrect_data : Reply
  bad_share : Reply
  incorrect_pow : Reply
  low_diff_share : Reply

-- What a submission comes to: a reply, an error with no reply, or a panic on nil.
pub data Answer : Type 0 where
  replies : Reply → Answer
  fails : Answer
  panics : Answer

-- Counters of prometheus, calls of other components, and the goroutine that looks up a reward.
pub data Effect (D : Type 0) : Type 0 where
  records_bad_data : Effect D
  records_missing_job : Effect D
  records_stale : Effect D
  records_invalid : Effect D
  records_weak : Effect D
  records_dupe : Effect D
  records_share : Effect D
  records_block : Bytes → Effect D
  submits : D → Effect D
  invalidates_gbt_cache : Effect D
  block_solved : Effect D
  looks_up_reward : Bytes → Effect D

-- What the node answers: whether it is synced, with `none` for an error, and the error of
-- `SubmitBlock`, if there is one.
pub record SubmitNode : Type 0 where
  pub is_synced : Option Bool
  pub submit_error : Option Bytes

-- The code outside of this file that a submission calls, over converted blocks `D`.
pub record Consensus (D : Type 0) : Type 0 where
  pub parse_hash : Bytes → Option Bytes
  pub to_domain_block : Block → Bytes → Option D
  pub set_nonce : ℕ → D → D
  pub block_hash : D → Bytes
  pub pow_value : D → ℕ
  pub target : D → ℕ

pub record ShareHandler (F : Type 0) : Type 0 where
  pub stats : Map Bytes (WorkStats F)
  pub overall : WorkStats F
  pub tip_blue_score : ℕ
  pub mining_db : Option Table

-- `toBig`
abbrev pub to_big : Bytes → ℕ
to_big hash = be_value (reverse hash)

-- `strings.Contains(s, p)`
unfoldable pub contains_text : Bytes → Bytes → Bool
contains_text [] p = has_prefix [] p
contains_text (c ∷ s) p = has_prefix (c ∷ s) p || contains_text s p

-- The result of `submit`: its error, if any, and whether the job was removed.
pub record Submitted (D : Type 0) : Type 0 where
  pub error : Option Bytes
  pub job_removed : Bool
  pub effects : List (Effect D)

unfoldable pub submit : {D : Type 0} → SubmitNode → D → Submitted D
submit node block = elim node.is_synced [
  | some true ↦ elim node.submit_error [
    | none ↦ record {
      error = none;
      job_removed = true;
      effects = submits block ∷ invalidates_gbt_cache ∷ block_solved ∷ [];
    }
    | some e ↦ record { error = some e; job_removed = true; effects = submits block ∷ [] }
  ]
  | some false ↦ record {
    error = some (codes "node is not synced; refusing to submit block");
    job_removed = false;
    effects = [];
  }
  | none ↦ record {
    error = some (codes "node is not synced; refusing to submit block");
    job_removed = false;
    effects = [];
  }
]

-- How the claimed value, the recalculated one and the two targets compare.
pub data PowClass : Type 0 where
  mismatched : PowClass
  meets_target : PowClass
  weak : PowClass
  between : PowClass

unfoldable pub classify : ℕ → ℕ → ℕ → ℤ → PowClass
classify submitted recalculated target stratum_target =
    if not (nat_eq submitted recalculated)
    then mismatched
    else if leb recalculated target
    then meets_target
    else if leb_ℤ stratum_target (pos recalculated)
    then weak
    else between

-- What happens to a worker's and to the overall counters.
pub data Tally : Type 0 where
  counts_nothing : Tally
  counts_stale : Tally
  counts_duplicate : Tally
  counts_invalid : Tally
  counts_bad_pow : Tally
  counts_share : Tally

module _ {F : Type 0} (zero_f : F) (add : F → F → F) where
  abbrev pub stale : ℕ → WorkStats F → WorkStats F
  stale now w =
      update_rolling_counters zero_f add now zero_f true false
        (record w { stale_shares = int_inc w.stale_shares })

  abbrev pub not_valid : ℕ → WorkStats F → WorkStats F
  not_valid now w =
      update_rolling_counters zero_f add now zero_f false true
        (record w { invalid_shares = int_inc w.invalid_shares })

  abbrev pub accepted_worker : ℕ → F → WorkStats F → WorkStats F
  accepted_worker now hash_value w =
      let counted = update_rolling_counters zero_f add now hash_value false false (record w {
        shares_found = int_inc w.shares_found;
        shares_diff = add w.shares_diff hash_value;
        last_share = now;
      }) in
      record counted { blocks_found = int_inc counted.blocks_found }

  abbrev pub accepted_overall : ℕ → F → WorkStats F → WorkStats F
  accepted_overall now hash_value w =
      let counted =
        update_rolling_counters zero_f add now hash_value false false
          (record w { shares_found = int_inc w.shares_found }) in
      record counted { blocks_found = int_inc counted.blocks_found }

  -- The counters of the worker: in the branch of a wrong proof of work they count a stale share.
  unfoldable pub tally_worker : Tally → ℕ → F → WorkStats F → WorkStats F
  tally_worker counts_nothing now hash_value w = w
  tally_worker counts_stale now hash_value w = stale now w
  tally_worker counts_duplicate now hash_value w = record w {
    stale_shares = int_inc w.stale_shares;
  }
  tally_worker counts_invalid now hash_value w = not_valid now w
  tally_worker counts_bad_pow now hash_value w = stale now w
  tally_worker counts_share now hash_value w = accepted_worker now hash_value w

  unfoldable pub tally_overall : Tally → ℕ → F → WorkStats F → WorkStats F
  tally_overall counts_nothing now hash_value w = w
  tally_overall counts_stale now hash_value w = stale now w
  tally_overall counts_duplicate now hash_value w = record w {
    stale_shares = int_inc w.stale_shares;
  }
  tally_overall counts_invalid now hash_value w = not_valid now w
  tally_overall counts_bad_pow now hash_value w = not_valid now w
  tally_overall counts_share now hash_value w = accepted_overall now hash_value w

-- The error of `submit`, as `HandleSubmit` reads it.
unfoldable pub rejected : Bytes → Tally × Reply
unfolding contains_text
rejected e =
    if contains_text e (codes "ErrDuplicateBlock")
    then (counts_duplicate, dupe_share)
    else if contains_text e (codes "ErrInvalidPoW")
    then (counts_bad_pow, incorrect_pow)
    else (counts_invalid, bad_share)

-- A record of a block as `HandleSubmit` writes it.
abbrev pub pending_block : ℕ → Bytes → Bytes → Bytes → BlockRecord
pending_block now_ms hash wallet worker = record {
  id = 0;
  timestamp = now_ms;
  block_hash = hash;
  wallet_address = wallet;
  worker_name = worker;
  reward_atoms = 0;
  status = codes "pending";
  accepting_block_hash = some [];
}

abbrev pub refusal_effect : {D : Type 0} → Tally → Effect D
refusal_effect counts_duplicate = records_dupe
refusal_effect _ = records_invalid

abbrev pub stratum_target : {F : Type 0} → Option (Diff F) → ℤ
stratum_target none = pos 0
stratum_target (some diff) = diff.target_value
