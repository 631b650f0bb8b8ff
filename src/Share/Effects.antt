-- ===== src/Share/Effects.antt =====
-- `HandleSubmit` of src/htnstratum/share_handler.go: its effects, stage by stage.
use htn_stratum_bridge.Prelude.{
  ℕ, ◌+◌, ◌≤◌, ◌≡◌, refl, ◌∙◌, ◌⊎◌, Bool, true, false, Option, none, some, List, [], ◌∷◌, ◌++◌,
  Bytes, ltb, ℤ, arith, lookup-delete, ==-refl, int_rem, int_Eq,
}
use htn_stratum_bridge.Rpc.{Block}
use htn_stratum_bridge.Mining.{Diff, MiningState, get_job, remove_job, max_jobs}
use htn_stratum_bridge.Db.{Table}
use htn_stratum_bridge.Stratum.{Client}
use htn_stratum_bridge.Share.{check_stales, work_window}
use htn_stratum_bridge.Share.Stats.{WorkStats}
use htn_stratum_bridge.Share.Owner.{owner}
use htn_stratum_bridge.Share.Tally.{
  Effect, records_bad_data, records_missing_job, records_stale, records_invalid, records_weak,
  records_dupe, records_share, records_block, invalidates_gbt_cache, block_solved, submits,
  looks_up_reward, SubmitNode, Consensus, ShareHandler, submit, meets_target, classify, Tally,
  counts_nothing, counts_stale, counts_duplicate, counts_invalid, counts_bad_pow, counts_share,
  rejected, refusal_effect,
}
use htn_stratum_bridge.Share.Submit.{Outcome, persist, after_submit, accept_share}

-- The block that a list of effects submits to the node, if any.
unfoldable pub submitted : {D : Type 0} → List (Effect D) → Option D
submitted [] = none
submitted (submits d ∷ effects) = some d
submitted (_ ∷ effects) = submitted effects

-- The tip is the greatest blue score seen, and a share is stale exactly if its job's blue score
-- is more than eight below it.
pub check_stales_lem :
    (tip blue_score : ℕ)
    → let (tip', is_stale) = check_stales tip blue_score in
      (tip ≤ tip')
      × (blue_score ≤ tip')
      × ((tip' ≡ tip) ⊎ (tip' ≡ blue_score))
      × (is_stale ≡ ltb (blue_score + work_window) tip')
unfolding check_stales
check_stales_lem tip blue_score = ground arith

pub get_job-remove_job :
    {F : Type 0} (id : ℤ) (s : MiningState F) → get_job id (remove_job id s) ≡ none
unfolding get_job remove_job
get_job-remove_job id s =
    lookup-delete (int_rem id max_jobs) (int_rem id max_jobs) s.jobs
    ∙ rw (==-refl (int_rem id max_jobs)) refl

pub submit-synced :
    {D : Type 0} (node : SubmitNode) (d d' : D)
    → submitted (submit node d).effects ≡ some d'
    → (node.is_synced ≡ some true) × (d ≡ d') × ((submit node d).job_removed ≡ true)
unfolding submit submitted
submit-synced node d d' e = go node.is_synced node.submit_error e
  where
    go :
        (synced : Option Bool) (error : Option Bytes)
        → submitted (submit (record { is_synced = synced; submit_error = error }) d).effects
          ≡ some d'
        → (synced ≡ some true)
          × (d ≡ d')
          × ((submit (record { is_synced = synced; submit_error = error }) d).job_removed ≡ true)
    go none error e = absurd (ground arith)
    go (some false) error e = absurd (ground arith)
    go (some true) none e = (refl, ground arith, refl)
    go (some true) (some x) e = (refl, ground arith, refl)

pub submitted-append :
    {D : Type 0} (a b : List (Effect D)) → submitted b ≡ none → submitted (a ++ b) ≡ submitted a
unfolding submitted
submitted-append [] b e = e
submitted-append (submits d ∷ a) b e = refl
submitted-append (records_bad_data ∷ a) b e = submitted-append a b e
submitted-append (records_missing_job ∷ a) b e = submitted-append a b e
submitted-append (records_stale ∷ a) b e = submitted-append a b e
submitted-append (records_invalid ∷ a) b e = submitted-append a b e
submitted-append (records_weak ∷ a) b e = submitted-append a b e
submitted-append (records_dupe ∷ a) b e = submitted-append a b e
submitted-append (records_share ∷ a) b e = submitted-append a b e
submitted-append (records_block h ∷ a) b e = submitted-append a b e
submitted-append (invalidates_gbt_cache ∷ a) b e = submitted-append a b e
submitted-append (block_solved ∷ a) b e = submitted-append a b e
submitted-append (looks_up_reward h ∷ a) b e = submitted-append a b e

refused : {D : Type 0} (tally : Tally) → submitted {D = D} (refusal_effect tally ∷ []) ≡ none
unfolding submitted
refused counts_nothing = refl
refused counts_stale = refl
refused counts_duplicate = refl
refused counts_invalid = refl
refused counts_bad_pow = refl
refused counts_share = refl

pub classify-meets :
    (submitted recalculated target : ℕ) (stratum : ℤ)
    → classify submitted recalculated target stratum ≡ meets_target
    → (submitted ≡ recalculated) × (recalculated ≤ target)
unfolding classify
classify-meets submitted recalculated target stratum e = ground arith

module _ {F D : Type 0} (zero_f : F) (add : F → F → F) (consensus : Consensus D) (node : SubmitNode)
    (now now_ms : ℕ) (ctx : Client) where
  -- What the end of the handler does with the effects and the jobs.
  abbrev Keeps : List (Effect D) → MiningState F → Outcome F D → Type 0
  Keeps before s o = (submitted o.effects ≡ submitted before) × (o.mining ≡ s)

  pub persist-Keeps :
      (hash worker : Bytes) (effects : List (Effect D)) (s : MiningState F) (h : ShareHandler F)
      (db : Option Table) (wallet : Option Bytes)
      → Keeps effects s
          (persist zero_f add consensus node now now_ms ctx hash worker effects s h db wallet)
  unfolding submitted
  persist-Keeps hash worker effects s h none wallet = (refl, refl)
  persist-Keeps hash worker effects s h (some rows) none = (refl, refl)
  persist-Keeps hash worker effects s h (some rows) (some wallet) =
      (submitted-append effects (looks_up_reward hash ∷ []) refl, refl)

  pub accept_share-Keeps :
      (w : WorkStats F) (block : Block) (d : D) (diff : Option (Diff F)) (before : List (Effect D))
      (s : MiningState F) (h : ShareHandler F)
      → Keeps before s
          (accept_share zero_f add consensus node now now_ms ctx w block d diff before s h)
  unfolding submitted
  accept_share-Keeps w block d none before s h = (refl, refl)
  accept_share-Keeps w block d (some diff) before s h =
      let hash = consensus.block_hash d in
      let found = before ++ (records_share ∷ records_block hash ∷ []) in
      let kept =
        persist-Keeps hash w.worker_name found s _ h.mining_db (owner ctx.wallet_addr block) in
      (kept.0 ∙ submitted-append before (records_share ∷ records_block hash ∷ []) refl, kept.1)

  pub after_submit-Keeps :
      (w : WorkStats F) (block : Block) (d : D) (before : List (Effect D)) (s : MiningState F)
      (h : ShareHandler F) (error : Option Bytes)
      → Keeps before s
          (after_submit zero_f add consensus node now now_ms ctx w block d before s h error)
  after_submit-Keeps w block d before s h none =
      accept_share-Keeps w block d s.stratum_diff before s h
  after_submit-Keeps w block d before s h (some e) =
      let tally = (rejected e).0 in
      (submitted-append before (refusal_effect tally ∷ []) (refused tally), refl)
