-- ===== src/Share/Counting.antt =====
-- `HandleSubmit` of src/htnstratum/share_handler.go: what a submission counts.
use htn_stratum_bridge.Prelude.{
  ℕ, ◌≡◌, refl, Bool, true, false, Option, none, some, List, [], Bytes, codes, ℤ, int_inc,
  parse_hex64, if◌then◌else◌,
}
use htn_stratum_bridge.Rpc.{Block, Header}
use htn_stratum_bridge.Mining.{Diff, MiningState}
use htn_stratum_bridge.Db.{Table}
use htn_stratum_bridge.Stratum.{Param, Client}
use htn_stratum_bridge.Share.{
  SubmitInfo, bad_data, missing_job, Validated, valid, invalid, validate_submit,
}
use htn_stratum_bridge.Share.Stats.{WorkStats, update_rolling_counters}
use htn_stratum_bridge.Share.Owner.{owner}
use htn_stratum_bridge.Share.Tally.{
  Reply, success, stale_share, dupe_share, incorrect_data, bad_share, incorrect_pow, low_diff_share,
  Answer, replies, fails, panics, Effect, SubmitNode, Consensus, ShareHandler, submit, PowClass,
  mismatched, meets_target, weak, between, Tally, counts_duplicate, counts_invalid, counts_bad_pow,
  counts_share, tally_overall, rejected, contains_text,
}
use htn_stratum_bridge.Share.Submit.{
  Outcome, removed, by_class, persist, after_submit, accept_share, judge, judge_converted,
  unless_stale, check_header, check_block, check_nonce, check_validated, handle_submit,
}

-- The overall counters: shares, blocks, stale and invalid shares.
pub record Counts : Type 0 where
  pub shares : ℤ
  pub blocks : ℤ
  pub stale : ℤ
  pub invalid : ℤ

abbrev pub counts : {F : Type 0} → WorkStats F → Counts
counts w = record {
  shares = w.shares_found;
  blocks = w.blocks_found;
  stale = w.stale_shares;
  invalid = w.invalid_shares;
}

-- The counts after a submission that was looked at, by the reply.
abbrev pub counted : Reply → Counts → Counts
counted success c = record c { shares = int_inc c.shares; blocks = int_inc c.blocks }
counted stale_share c = record c { stale = int_inc c.stale }
counted dupe_share c = record c { stale = int_inc c.stale }
counted incorrect_data c = c
counted bad_share c = record c { invalid = int_inc c.invalid }
counted incorrect_pow c = record c { invalid = int_inc c.invalid }
counted low_diff_share c = record c { invalid = int_inc c.invalid }

-- What an answer to a well-formed submission counts; nothing is said of a panic.
abbrev pub Counted : {F : Type 0} → Answer → WorkStats F → WorkStats F → Type 0
Counted (replies reply) before after = counts after ≡ counted reply (counts before)
Counted fails before after = after ≡ before
Counted panics before after = Unit

-- What a submission counts, by what `validateSubmit` finds.
abbrev pub Fits : {F : Type 0} → Validated → Answer → WorkStats F → WorkStats F → Type 0
Fits (invalid missing_job) answer before after = (answer ≡ replies stale_share) × (after ≡ before)
Fits (invalid bad_data) answer before after = (answer ≡ replies incorrect_data) × (after ≡ before)
Fits (valid si) answer before after = Counted answer before after

module _ {F D : Type 0} (zero_f : F) (add : F → F → F) (consensus : Consensus D) (node : SubmitNode)
    (now now_ms : ℕ) (ctx : Client) where
  counts-rejected :
      (e : Bytes) (w : WorkStats F)
      → counts (tally_overall zero_f add (rejected e).0 now zero_f w)
        ≡ counted (rejected e).1 (counts w)
  unfolding rejected tally_overall update_rolling_counters
  counts-rejected e w =
      go (contains_text e (codes "ErrDuplicateBlock")) (contains_text e (codes "ErrInvalidPoW"))
    where
      go :
          (a b : Bool)
          → let (tally, reply) : Tally × Reply =
              if a
              then (counts_duplicate, dupe_share)
              else if b
              then (counts_bad_pow, incorrect_pow)
              else (counts_invalid, bad_share) in
            counts (tally_overall zero_f add tally now zero_f w) ≡ counted reply (counts w)
      go true b = refl
      go false true = refl
      go false false = refl

  share_counts :
      (x : F) (w : WorkStats F)
      → counts (tally_overall zero_f add counts_share now x w) ≡ counted success (counts w)
  unfolding tally_overall update_rolling_counters
  share_counts x w = refl

  abbrev IsCounted : WorkStats F → Outcome F D → Type 0
  IsCounted overall o = Counted o.answer overall o.handler.overall

  persist-IsCounted :
      (hash worker : Bytes) (effects : List (Effect D)) (s : MiningState F) (h : ShareHandler F)
      (before : WorkStats F)
      → counts h.overall ≡ counted success (counts before)
      → (db : Option Table) (wallet : Option Bytes)
      → IsCounted before
          (persist zero_f add consensus node now now_ms ctx hash worker effects s h db wallet)
  persist-IsCounted hash worker effects s h before e none wallet = e
  persist-IsCounted hash worker effects s h before e (some rows) none = tt
  persist-IsCounted hash worker effects s h before e (some rows) (some wallet) = e

  accept_share-IsCounted :
      (w : WorkStats F) (block : Block) (d : D) (diff : Option (Diff F)) (before : List (Effect D))
      (s : MiningState F) (h : ShareHandler F)
      → IsCounted h.overall
          (accept_share zero_f add consensus node now now_ms ctx w block d diff before s h)
  accept_share-IsCounted w block d none before s h = tt
  accept_share-IsCounted w block d (some diff) before s h =
      persist-IsCounted (consensus.block_hash d) w.worker_name _ s _ h.overall
        (share_counts diff.hash_value h.overall) h.mining_db (owner ctx.wallet_addr block)

  after_submit-IsCounted :
      (w : WorkStats F) (block : Block) (d : D) (before : List (Effect D)) (s : MiningState F)
      (h : ShareHandler F) (error : Option Bytes)
      → IsCounted h.overall
          (after_submit zero_f add consensus node now now_ms ctx w block d before s h error)
  after_submit-IsCounted w block d before s h none =
      accept_share-IsCounted w block d s.stratum_diff before s h
  after_submit-IsCounted w block d before s h (some e) = counts-rejected e h.overall

  by_class-IsCounted :
      (w : WorkStats F) (block : Block) (d : D) (si : SubmitInfo) (s : MiningState F)
      (h : ShareHandler F) (diff : Option (Diff F)) (c : PowClass)
      → IsCounted h.overall
          (by_class zero_f add consensus node now now_ms ctx w block d si s h diff c)
  unfolding tally_overall update_rolling_counters
  by_class-IsCounted w block d si s h diff mismatched = refl
  by_class-IsCounted w block d si s h diff meets_target =
      let r = submit node d in
      after_submit-IsCounted w block d r.effects (removed r.job_removed si.job_id s) h r.error
  by_class-IsCounted w block d si s h none weak = tt
  by_class-IsCounted w block d si s h none between = tt
  by_class-IsCounted w block d si s h (some diff) weak = refl
  by_class-IsCounted w block d si s h (some diff) between =
      accept_share-IsCounted w block d (some diff) [] s h

  unless_stale-IsCounted :
      (w : WorkStats F) (block : Block) (nonce : ℕ) (si : SubmitInfo) (s : MiningState F)
      (h : ShareHandler F) (is_stale : Bool)
      → IsCounted h.overall
          (unless_stale zero_f add consensus node now now_ms ctx w block nonce si s h is_stale)
  unfolding judge tally_overall update_rolling_counters
  unless_stale-IsCounted w block nonce si s h true = refl
  unless_stale-IsCounted w block nonce si s h false =
      go (consensus.to_domain_block block si.pow_hash)
    where
      go :
          (c : Option D)
          → IsCounted h.overall
              (judge_converted zero_f add consensus node now now_ms ctx w block nonce si s h c)
      go none = refl
      go (some d) = by_class-IsCounted w block _ si s h s.stratum_diff _

  check_block-IsCounted :
      (w : WorkStats F) (nonce : ℕ) (si : SubmitInfo) (s : MiningState F) (h : ShareHandler F)
      (block : Option Block)
      → IsCounted h.overall
          (check_block zero_f add consensus node now now_ms ctx w nonce si s h block)
  check_block-IsCounted w nonce si s h none = tt
  check_block-IsCounted w nonce si s h (some block) = go block.header
    where
      go :
          (header : Option Header)
          → IsCounted h.overall
              (check_header zero_f add consensus node now now_ms ctx w block nonce si s h header)
      go none = tt
      go (some header) = unless_stale-IsCounted w block nonce si s _ _

  -- A well-formed submission is counted overall by its reply, once: a success as one share and one
  -- block, a stale or duplicate share as one stale share, a bad, weak or wrong one as one invalid
  -- share; an error without a reply changes nothing. A submission of a missing job is answered as
  -- stale and one that cannot be read as incorrect data, and neither changes anything. Nothing is
  -- said of a panic on nil.
  pub submission_counted :
      (params : List Param) (s : MiningState F) (h : ShareHandler F)
      → let o = handle_submit zero_f add consensus node now now_ms ctx params s h in
        Fits (validate_submit consensus.parse_hash params s) o.answer h.overall o.handler.overall
  unfolding handle_submit
  submission_counted params s h = go (validate_submit consensus.parse_hash params s)
    where
      read :
          (si : SubmitInfo) (nonce : Option ℕ)
          → IsCounted h.overall (check_nonce zero_f add consensus node now now_ms ctx si s h nonce)
      read si none = refl
      read si (some nonce) = check_block-IsCounted _ nonce si s _ si.block

      go :
          (v : Validated)
          → let o = check_validated zero_f add consensus node now now_ms ctx s h v in
            Fits v o.answer h.overall o.handler.overall
      go (invalid missing_job) = (refl, refl)
      go (invalid bad_data) = (refl, refl)
      go (valid si) = read si (parse_hex64 si.noncestr)
