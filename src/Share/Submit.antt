-- ===== src/Share/Submit.antt =====
-- `HandleSubmit` and `submit` of src/htnstratum/share_handler.go, one submission at a time. What
-- they do outside of their own state is a list of effects, in order. The conversion of a block to
-- the form of the consensus code, its hash, and the answers of the node are arguments; so are the
-- value and the target of src/pow.
use htn_stratum_bridge.Prelude.{
  ℕ, Bool, true, false, Option, none, some, List, [], ◌∷◌, ◌++◌, Bytes, insert, bytes_Eq, ℤ,
  parse_hex64,
}
use htn_stratum_bridge.Rpc.{Block, Header}
use htn_stratum_bridge.Mining.{Diff, MiningState, remove_job}
use htn_stratum_bridge.Db.{Table, record_block}
use htn_stratum_bridge.Stratum.{Param, Client}
use htn_stratum_bridge.Share.{
  SubmitInfo, bad_data, missing_job, Validated, valid, invalid, validate_submit, check_stales,
}
use htn_stratum_bridge.Share.Stats.{WorkStats, stats_key, get_create_stats}
use htn_stratum_bridge.Share.Owner.{owner}
use htn_stratum_bridge.Share.Tally.{
  Answer, Consensus, Effect, PowClass, Reply, ShareHandler, SubmitNode, Tally, between, classify,
  counts_invalid, counts_share, counts_stale, fails, incorrect_data, incorrect_pow, looks_up_reward,
  low_diff_share, meets_target, mismatched, panics, pending_block, records_bad_data, records_block,
  records_invalid, records_missing_job, records_share, records_stale, records_weak, refusal_effect,
  rejected, replies, stale_share, stratum_target, submit, success, tally_overall, tally_worker,
  to_big, weak,
}

-- What `HandleSubmit` leaves behind. After a panic, which costs the miner its connection, the state
-- that is given here is not meant.
pub record Outcome (F D : Type 0) : Type 0 where
  pub handler : ShareHandler F
  pub mining : MiningState F
  pub effects : List (Effect D)
  pub answer : Answer

abbrev pub removed : {F : Type 0} → Bool → ℤ → MiningState F → MiningState F
removed true id s = remove_job id s
removed false id s = s

module _ {F D : Type 0} (zero_f : F) (add : F → F → F) (consensus : Consensus D) (node : SubmitNode)
    (now now_ms : ℕ) (ctx : Client) where
  -- Counts a submission for the worker `w`, which is the entry of the client, and overall.
  abbrev pub count : Tally → F → WorkStats F → ShareHandler F → ShareHandler F
  count tally hash_value w h = record h {
    stats = insert (stats_key ctx) (tally_worker zero_f add tally now hash_value w) h.stats;
    overall = tally_overall zero_f add tally now hash_value h.overall;
  }

  -- The block goes into the table, where there is one, if its owner can be found; then its reward
  -- is looked up.
  abbrev pub persist :
      Bytes
      → Bytes
      → List (Effect D)
      → MiningState F
      → ShareHandler F
      → Option Table
      → Option Bytes
      → Outcome F D
  persist hash worker effects s h none wallet = record {
    handler = h;
    mining = s;
    effects = effects;
    answer = replies success;
  }
  persist hash worker effects s h (some rows) none = record {
    handler = h;
    mining = s;
    effects = effects;
    answer = panics;
  }
  persist hash worker effects s h (some rows) (some wallet) = record {
    handler = record h {
      mining_db = some (record_block (pending_block now_ms hash wallet worker) rows);
    };
    mining = s;
    effects = effects ++ (looks_up_reward hash ∷ []);
    answer = replies success;
  }

  -- The end of `HandleSubmit`, for a share that is not refused: it is counted as a block, too.
  abbrev pub accept_share :
      WorkStats F
      → Block
      → D
      → Option (Diff F)
      → List (Effect D)
      → MiningState F
      → ShareHandler F
      → Outcome F D
  accept_share w block d none before s h = record {
    handler = h;
    mining = s;
    effects = before;
    answer = panics;
  }
  accept_share w block d (some diff) before s h =
      let hash = consensus.block_hash d in
      persist hash w.worker_name (before ++ (records_share ∷ records_block hash ∷ [])) s
        (count counts_share diff.hash_value w h) h.mining_db (owner ctx.wallet_addr block)

  -- A share that is refused.
  abbrev pub refuse :
      Tally → Reply → List (Effect D) → WorkStats F → MiningState F → ShareHandler F → Outcome F D
  refuse tally reply effects w s h = record {
    handler = count tally zero_f w h;
    mining = s;
    effects = effects;
    answer = replies reply;
  }

  -- What follows the call of `submit`, by its error.
  abbrev pub after_submit :
      WorkStats F
      → Block
      → D
      → List (Effect D)
      → MiningState F
      → ShareHandler F
      → Option Bytes
      → Outcome F D
  after_submit w block d effects s h none = accept_share w block d s.stratum_diff effects s h
  after_submit w block d effects s h (some e) =
      let (tally, reply) = rejected e in
      refuse tally reply (effects ++ (refusal_effect tally ∷ [])) w s h

  -- The branch of a value that meets the block's target: the block goes to the node.
  abbrev pub submit_block :
      WorkStats F → Block → D → SubmitInfo → MiningState F → ShareHandler F → Outcome F D
  submit_block w block d si s h =
      let r = submit node d in
      after_submit w block d r.effects (removed r.job_removed si.job_id s) h r.error

  -- The branches of the comparison with the targets. The stratum difficulty, which is nil before
  -- one is set, is read only where the value misses the block's target.
  abbrev pub by_class :
      WorkStats F
      → Block
      → D
      → SubmitInfo
      → MiningState F
      → ShareHandler F
      → Option (Diff F)
      → PowClass
      → Outcome F D
  by_class w block d si s h diff mismatched =
      refuse counts_invalid incorrect_pow (records_invalid ∷ []) w s h
  by_class w block d si s h diff meets_target = submit_block w block d si s h
  by_class w block d si s h none weak = record {
    handler = h;
    mining = s;
    effects = [];
    answer = panics;
  }
  by_class w block d si s h none between = record {
    handler = h;
    mining = s;
    effects = [];
    answer = panics;
  }
  by_class w block d si s h (some diff) weak =
      refuse counts_invalid low_diff_share (records_weak ∷ []) w s h
  by_class w block d si s h (some diff) between = accept_share w block d (some diff) [] s h

  unfoldable pub judge :
      WorkStats F → Block → D → SubmitInfo → MiningState F → ShareHandler F → Outcome F D
  judge w block d si s h = by_class w block d si s h s.stratum_diff (
      classify (to_big si.pow_hash) (consensus.pow_value d) (consensus.target d)
        (stratum_target s.stratum_diff))

  -- From the conversion of the job's block on.
  abbrev pub judge_converted :
      WorkStats F → Block → ℕ → SubmitInfo → MiningState F → ShareHandler F → Option D → Outcome F D
  judge_converted w block nonce si s h none = record {
    handler = h;
    mining = s;
    effects = records_invalid ∷ [];
    answer = replies incorrect_data;
  }
  judge_converted w block nonce si s h (some d) = judge w block (consensus.set_nonce nonce d) si s h

  -- By the result of `checkStales`, whose tip the handler then holds.
  abbrev pub unless_stale :
      WorkStats F → Block → ℕ → SubmitInfo → MiningState F → ShareHandler F → Bool → Outcome F D
  unless_stale w block nonce si s h true =
      refuse counts_stale stale_share (records_stale ∷ records_stale ∷ []) w
        (remove_job si.job_id s) h
  unless_stale w block nonce si s h false =
      judge_converted w block nonce si s h (consensus.to_domain_block block si.pow_hash)

  abbrev pub check_header :
      WorkStats F
      → Block
      → ℕ
      → SubmitInfo
      → MiningState F
      → ShareHandler F
      → Option Header
      → Outcome F D
  check_header w block nonce si s h none = record {
    handler = h;
    mining = s;
    effects = [];
    answer = panics;
  }
  check_header w block nonce si s h (some header) =
      let (tip, is_stale) = check_stales h.tip_blue_score header.blue_score in
      unless_stale w block nonce si s (record h { tip_blue_score = tip }) is_stale

  -- A job with no block or header is dereferenced.
  abbrev pub check_block :
      WorkStats F → ℕ → SubmitInfo → MiningState F → ShareHandler F → Option Block → Outcome F D
  check_block w nonce si s h none = record {
    handler = h;
    mining = s;
    effects = [];
    answer = panics;
  }
  check_block w nonce si s h (some block) = check_header w block nonce si s h block.header

  -- From the lookup of the worker's counters on.
  abbrev pub check_job : ℕ → SubmitInfo → MiningState F → ShareHandler F → Outcome F D
  check_job nonce si s h =
      let (stats, w) = get_create_stats zero_f add now ctx h.stats in
      check_block w nonce si s (record h { stats = stats }) si.block

  abbrev pub check_nonce : SubmitInfo → MiningState F → ShareHandler F → Option ℕ → Outcome F D
  check_nonce si s h none = record {
    handler = h;
    mining = s;
    effects = records_bad_data ∷ [];
    answer = fails;
  }
  check_nonce si s h (some nonce) = check_job nonce si s h

  abbrev pub check_validated : MiningState F → ShareHandler F → Validated → Outcome F D
  check_validated s h (invalid missing_job) = record {
    handler = h;
    mining = s;
    effects = records_missing_job ∷ records_stale ∷ [];
    answer = replies stale_share;
  }
  check_validated s h (invalid bad_data) = record {
    handler = h;
    mining = s;
    effects = records_bad_data ∷ [];
    answer = replies incorrect_data;
  }
  check_validated s h (valid si) = check_nonce si s h (parse_hex64 si.noncestr)

  unfoldable pub handle_submit : List Param → MiningState F → ShareHandler F → Outcome F D
  handle_submit params s h = check_validated s h (validate_submit consensus.parse_hash params s)
