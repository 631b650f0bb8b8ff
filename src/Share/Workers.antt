-- ===== src/Share/Workers.antt =====
-- `HandleSubmit` of src/htnstratum/share_handler.go: what it does to the map of workers, which it
-- changes only by `getCreateStats` and by counting for the worker that this gives.
use htn_stratum_bridge.Prelude.{
  ℕ, ◌≡◌, refl, ◌⊎◌, inl, inr, Map, Bool, true, false, Option, none, some, List, [], Bytes, insert,
  bytes_Eq, parse_hex64,
}
use htn_stratum_bridge.Rpc.{Block, Header}
use htn_stratum_bridge.Mining.{Diff, MiningState}
use htn_stratum_bridge.Db.{Table}
use htn_stratum_bridge.Stratum.{Param, Client}
use htn_stratum_bridge.Share.{
  SubmitInfo, bad_data, missing_job, Validated, valid, invalid, validate_submit,
}
use htn_stratum_bridge.Share.Stats.{WorkStats, stats_key, get_create_stats}
use htn_stratum_bridge.Share.Owner.{owner}
use htn_stratum_bridge.Share.Tally.{
  Effect, SubmitNode, Consensus, ShareHandler, submit, PowClass, mismatched, meets_target, weak,
  between, Tally, counts_share, tally_worker,
}
use htn_stratum_bridge.Share.Submit.{
  Outcome, removed, by_class, persist, after_submit, accept_share, judge, judge_converted,
  unless_stale, check_header, check_block, check_nonce, check_validated, handle_submit,
}

module _ {F D : Type 0} (zero_f : F) (add : F → F → F) (consensus : Consensus D) (node : SubmitNode)
    (now now_ms : ℕ) (ctx : Client) (P : WorkStats F → Type 0)
    (Q : Map Bytes (WorkStats F) → Type 0)
    (counted : (t : Tally) (x : F) (w : WorkStats F) (stats : Map Bytes (WorkStats F))
      → P w
      → Q stats
      → Q (insert (stats_key ctx) (tally_worker zero_f add t now x w) stats)) where
  abbrev Kept : Outcome F D → Type 0
  Kept o = Q o.handler.stats

  persist-Kept :
      (hash worker : Bytes) (effects : List (Effect D)) (s : MiningState F) (h : ShareHandler F)
      → Q h.stats
      → (db : Option Table) (wallet : Option Bytes)
      → Kept (persist zero_f add consensus node now now_ms ctx hash worker effects s h db wallet)
  persist-Kept hash worker effects s h all none wallet = all
  persist-Kept hash worker effects s h all (some rows) none = all
  persist-Kept hash worker effects s h all (some rows) (some wallet) = all

  accept_share-Kept :
      (w : WorkStats F) (block : Block) (d : D) (diff : Option (Diff F)) (before : List (Effect D))
      (s : MiningState F) (h : ShareHandler F)
      → P w
      → Q h.stats
      → Kept (accept_share zero_f add consensus node now now_ms ctx w block d diff before s h)
  accept_share-Kept w block d none before s h p all = all
  accept_share-Kept w block d (some diff) before s h p all =
      persist-Kept (consensus.block_hash d) w.worker_name _ s _
        (counted counts_share diff.hash_value w h.stats p all) h.mining_db
        (owner ctx.wallet_addr block)

  after_submit-Kept :
      (w : WorkStats F) (block : Block) (d : D) (before : List (Effect D)) (s : MiningState F)
      (h : ShareHandler F)
      → P w
      → Q h.stats
      → (error : Option Bytes)
      → Kept (after_submit zero_f add consensus node now now_ms ctx w block d before s h error)
  after_submit-Kept w block d before s h p all none =
      accept_share-Kept w block d s.stratum_diff before s h p all
  after_submit-Kept w block d before s h p all (some e) = counted _ zero_f w h.stats p all

  by_class-Kept :
      (w : WorkStats F) (block : Block) (d : D) (si : SubmitInfo) (s : MiningState F)
      (h : ShareHandler F)
      → P w
      → Q h.stats
      → (diff : Option (Diff F)) (c : PowClass)
      → Kept (by_class zero_f add consensus node now now_ms ctx w block d si s h diff c)
  by_class-Kept w block d si s h p all diff mismatched = counted _ zero_f w h.stats p all
  by_class-Kept w block d si s h p all diff meets_target =
      let r = submit node d in
      after_submit-Kept w block d r.effects (removed r.job_removed si.job_id s) h p all r.error
  by_class-Kept w block d si s h p all none weak = all
  by_class-Kept w block d si s h p all none between = all
  by_class-Kept w block d si s h p all (some diff) weak = counted _ zero_f w h.stats p all
  by_class-Kept w block d si s h p all (some diff) between =
      accept_share-Kept w block d (some diff) [] s h p all

  unless_stale-Kept :
      (w : WorkStats F) (block : Block) (nonce : ℕ) (si : SubmitInfo) (s : MiningState F)
      (h : ShareHandler F)
      → P w
      → Q h.stats
      → (is_stale : Bool)
      → Kept (unless_stale zero_f add consensus node now now_ms ctx w block nonce si s h is_stale)
  unfolding judge
  unless_stale-Kept w block nonce si s h p all true = counted _ zero_f w h.stats p all
  unless_stale-Kept w block nonce si s h p all false =
      go (consensus.to_domain_block block si.pow_hash)
    where
      go :
          (c : Option D)
          → Kept (judge_converted zero_f add consensus node now now_ms ctx w block nonce si s h c)
      go none = all
      go (some d) = by_class-Kept w block _ si s h p all s.stratum_diff _

  check_block-Kept :
      (w : WorkStats F) (nonce : ℕ) (si : SubmitInfo) (s : MiningState F) (h : ShareHandler F)
      → P w
      → Q h.stats
      → (block : Option Block)
      → Kept (check_block zero_f add consensus node now now_ms ctx w nonce si s h block)
  check_block-Kept w nonce si s h p all none = all
  check_block-Kept w nonce si s h p all (some block) = go block.header
    where
      go :
          (header : Option Header)
          → Kept (check_header zero_f add consensus node now now_ms ctx w block nonce si s h header)
      go none = all
      go (some header) = unless_stale-Kept w block nonce si s _ p all _

  -- A submission leaves the map as it is, or what it leaves has what the map of `getCreateStats` has
  -- and counting keeps.
  pub handle_submit-stats :
      (params : List Param) (s : MiningState F) (h : ShareHandler F)
      → let (created, w) = get_create_stats zero_f add now ctx h.stats in
        Q created
        → P w
        → let o = handle_submit zero_f add consensus node now now_ms ctx params s h in
          (o.handler.stats ≡ h.stats) ⊎ Q o.handler.stats
  unfolding handle_submit
  handle_submit-stats params s h created p = go (validate_submit consensus.parse_hash params s)
    where
      Left : Outcome F D → Type 0
      Left o = (o.handler.stats ≡ h.stats) ⊎ Q o.handler.stats

      read :
          (si : SubmitInfo) (nonce : Option ℕ)
          → Left (check_nonce zero_f add consensus node now now_ms ctx si s h nonce)
      read si none = inl refl
      read si (some nonce) = inr (check_block-Kept _ nonce si s _ p created si.block)

      go : (v : Validated) → Left (check_validated zero_f add consensus node now now_ms ctx s h v)
      go (invalid missing_job) = inl refl
      go (invalid bad_data) = inl refl
      go (valid si) = read si (parse_hex64 si.noncestr)
