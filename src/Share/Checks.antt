-- ===== src/Share/Checks.antt =====
-- `HandleSubmit` of src/htnstratum/share_handler.go: which submissions reach the node.
use htn_stratum_bridge.Prelude.{
  ℕ, ◌≤◌, ◌≡◌, refl, ◌∙◌, sym, Bool, true, false, Option, none, some, List, [], Bytes, parse_hex64,
  arith, Map, int_Eq,
}
use htn_stratum_bridge.Rpc.{Block, Header}
use htn_stratum_bridge.Mining.{Diff, MiningState, remove_job}
use htn_stratum_bridge.Stratum.{Param, Client}
use htn_stratum_bridge.Share.{
  SubmitInfo, bad_data, missing_job, Validated, valid, invalid, validate_submit, check_stales,
}
use htn_stratum_bridge.Share.Stats.{WorkStats, get_create_stats}
use htn_stratum_bridge.Share.Tally.{
  SubmitNode, Consensus, ShareHandler, submit, PowClass, mismatched, meets_target, weak, between,
  stratum_target, to_big,
}
use htn_stratum_bridge.Share.Submit.{
  Outcome, removed, by_class, submit_block, judge, judge_converted, unless_stale, check_header,
  check_block, check_nonce, check_validated, handle_submit,
}
use htn_stratum_bridge.Share.Effects.{
  submitted, submit-synced, classify-meets, accept_share-Keeps, after_submit-Keeps,
}

module _ {F D : Type 0} (zero_f : F) (add : F → F → F) (consensus : Consensus D) (node : SubmitNode)
    (now now_ms : ℕ) (ctx : Client) where
  -- What holds of a submission whose block was handed to the node.
  pub record Justified (d d' : D) (si : SubmitInfo) (s : MiningState F) (o : Outcome F D)
      : Type 0 where
    pub synced : node.is_synced ≡ some true
    pub block : d ≡ d'
    pub claimed : to_big si.pow_hash ≡ consensus.pow_value d'
    pub enough : consensus.pow_value d' ≤ consensus.target d'
    pub gone : o.mining ≡ remove_job si.job_id s

  submit_block-Justified :
      (w : WorkStats F) (block : Block) (d d' : D) (si : SubmitInfo) (s : MiningState F)
      (h : ShareHandler F)
      → to_big si.pow_hash ≡ consensus.pow_value d
      → consensus.pow_value d ≤ consensus.target d
      → let o = submit_block zero_f add consensus node now now_ms ctx w block d si s h in
        submitted o.effects ≡ some d' → Justified d d' si s o
  submit_block-Justified w block d d' si s h claim le e =
      let r = submit node d in
      let kept =
        after_submit-Keeps zero_f add consensus node now now_ms ctx w block d r.effects
          (removed r.job_removed si.job_id s) h r.error in
      let (is_synced, same, is_removed) = submit-synced node d d' (sym kept.0 ∙ e) in
      record {
        synced = is_synced;
        block = same;
        claimed = rw (← same) claim;
        enough = rw (← same) le;
        gone = kept.1 ∙ rw is_removed refl;
      }

  by_class-Justified :
      (w : WorkStats F) (block : Block) (d d' : D) (si : SubmitInfo) (s : MiningState F)
      (h : ShareHandler F) (diff : Option (Diff F)) (c : PowClass)
      → (c ≡ meets_target
          → (to_big si.pow_hash ≡ consensus.pow_value d)
            × (consensus.pow_value d ≤ consensus.target d))
      → let o = by_class zero_f add consensus node now now_ms ctx w block d si s h diff c in
        submitted o.effects ≡ some d' → Justified d d' si s o
  unfolding submitted
  by_class-Justified w block d d' si s h diff mismatched met e = absurd (ground arith)
  by_class-Justified w block d d' si s h diff meets_target met e =
      submit_block-Justified w block d d' si s h (met refl).0 (met refl).1 e
  by_class-Justified w block d d' si s h none weak met e = absurd (ground arith)
  by_class-Justified w block d d' si s h none between met e = absurd (ground arith)
  by_class-Justified w block d d' si s h (some diff) weak met e = absurd (ground arith)
  by_class-Justified w block d d' si s h (some diff) between met e =
      let kept =
        accept_share-Keeps zero_f add consensus node now now_ms ctx w block d (some diff) [] s h in
      absurd (ground arith)

  judge-Justified :
      (w : WorkStats F) (block : Block) (d d' : D) (si : SubmitInfo) (s : MiningState F)
      (h : ShareHandler F)
      → let o = judge zero_f add consensus node now now_ms ctx w block d si s h in
        submitted o.effects ≡ some d' → Justified d d' si s o
  unfolding judge
  judge-Justified w block d d' si s h e =
      by_class-Justified w block d d' si s h s.stratum_diff _
        (classify-meets (to_big si.pow_hash) (consensus.pow_value d) (consensus.target d)
          (stratum_target s.stratum_diff))
        e

  -- Everything that the handler tested before a block was handed to the node: the node is synced;
  -- the submission is well formed and names a job; the job is not stale; the claimed value is
  -- what the proof of work of the block with the submitted nonce comes to, and meets the target
  -- of the block. And the job is removed.
  pub record Submission (params : List Param) (s : MiningState F) (h : ShareHandler F) (d' : D)
      (o : Outcome F D) : Type 0 where
    pub si : SubmitInfo
    pub nonce : ℕ
    pub block : Block
    pub header : Header
    pub converted : D
    pub well_formed : validate_submit consensus.parse_hash params s ≡ valid si
    pub nonce_read : parse_hex64 si.noncestr ≡ some nonce
    pub job : si.block ≡ some block
    pub has_header : block.header ≡ some header
    pub fresh : (check_stales h.tip_blue_score header.blue_score).1 ≡ false
    pub conversion : consensus.to_domain_block block si.pow_hash ≡ some converted
    pub justified : Justified (consensus.set_nonce nonce converted) d' si s o

  unless_stale-Submission :
      (params : List Param) (nonce : ℕ) (si : SubmitInfo) (s : MiningState F) (h : ShareHandler F)
      (d' : D) (w : WorkStats F) (block : Block) (header : Header) (known : ShareHandler F)
      (is_stale : Bool)
      → validate_submit consensus.parse_hash params s ≡ valid si
      → parse_hex64 si.noncestr ≡ some nonce
      → si.block ≡ some block
      → block.header ≡ some header
      → (check_stales h.tip_blue_score header.blue_score).1 ≡ is_stale
      → let o =
          unless_stale zero_f add consensus node now now_ms ctx w block nonce si s known is_stale in
        submitted o.effects ≡ some d' → Submission params s h d' o
  unfolding submitted
  unless_stale-Submission params nonce si s h d' w block header known true v n j hd st e =
      absurd (ground arith)
  unless_stale-Submission params nonce si s h d' w block header known false v n j hd st e =
      go (consensus.to_domain_block block si.pow_hash) refl e
    where
      go :
          (c : Option D)
          → consensus.to_domain_block block si.pow_hash ≡ c
          → let o =
              judge_converted zero_f add consensus node now now_ms ctx w block nonce si s known c in
            submitted o.effects ≡ some d' → Submission params s h d' o
      go none c e = absurd (ground arith)
      go (some converted) c e = record {
        si = si;
        nonce = nonce;
        block = block;
        header = header;
        converted = converted;
        well_formed = v;
        nonce_read = n;
        job = j;
        has_header = hd;
        fresh = st;
        conversion = c;
        justified = judge-Justified w block (consensus.set_nonce nonce converted) d' si s known e;
      }

  check_block-Submission :
      (params : List Param) (nonce : ℕ) (si : SubmitInfo) (s : MiningState F) (h : ShareHandler F)
      (d' : D) (w : WorkStats F) (stats : Map Bytes (WorkStats F)) (block : Option Block)
      → validate_submit consensus.parse_hash params s ≡ valid si
      → parse_hex64 si.noncestr ≡ some nonce
      → si.block ≡ block
      → let o =
          check_block zero_f add consensus node now now_ms ctx w nonce si s
            (record h { stats = stats })
            block in
        submitted o.effects ≡ some d' → Submission params s h d' o
  unfolding submitted
  check_block-Submission params nonce si s h d' w stats none v n j e = absurd (ground arith)
  check_block-Submission params nonce si s h d' w stats (some block) v n j e =
      go block.header refl e
    where
      go :
          (header : Option Header)
          → block.header ≡ header
          → let o =
              check_header zero_f add consensus node now now_ms ctx w block nonce si s
                (record h { stats = stats })
                header in
            submitted o.effects ≡ some d' → Submission params s h d' o
      go none hd e = absurd (ground arith)
      go (some header) hd e =
          unless_stale-Submission params nonce si s h d' w block header _ _ v n j hd refl e

  -- No block reaches the node unless every test before was passed.
  pub handle_submit-Submission :
      (params : List Param) (s : MiningState F) (h : ShareHandler F) (d' : D)
      → let o = handle_submit zero_f add consensus node now now_ms ctx params s h in
        submitted o.effects ≡ some d' → Submission params s h d' o
  unfolding handle_submit submitted
  handle_submit-Submission params s h d' e =
      go (validate_submit consensus.parse_hash params s) refl e
    where
      read :
          (si : SubmitInfo) (nonce : Option ℕ)
          → validate_submit consensus.parse_hash params s ≡ valid si
          → parse_hex64 si.noncestr ≡ nonce
          → let o = check_nonce zero_f add consensus node now now_ms ctx si s h nonce in
            submitted o.effects ≡ some d' → Submission params s h d' o
      read si none v n e = absurd (ground arith)
      read si (some nonce) v n e =
          let (stats, w) = get_create_stats zero_f add now ctx h.stats in
          check_block-Submission params nonce si s h d' w stats si.block v n refl e

      go :
          (v : Validated)
          → validate_submit consensus.parse_hash params s ≡ v
          → let o = check_validated zero_f add consensus node now now_ms ctx s h v in
            submitted o.effects ≡ some d' → Submission params s h d' o
      go (invalid missing_job) v e = absurd (ground arith)
      go (invalid bad_data) v e = absurd (ground arith)
      go (valid si) v e = read si (parse_hex64 si.noncestr) v refl e
