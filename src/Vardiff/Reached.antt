-- ===== src/Vardiff/Reached.antt =====
-- The counters of workers in src/htnstratum/share_handler.go under everything that changes them:
-- submissions, the calls of the client handler, and the rounds of the difficulty thread.
use htn_stratum_bridge.Prelude.{
  ℕ, ◌≡◌, refl, inl, inr, Option, none, some, List, [], ◌∷◌, Bytes, Map, bytes_Eq, arith,
}
use htn_stratum_bridge.Mining.{MiningState}
use htn_stratum_bridge.Stratum.{Param, Client}
use htn_stratum_bridge.Share.Stats.{WorkStats, new_stats, stats_key, get_create_stats, remove_stats}
use htn_stratum_bridge.Share.Tally.{SubmitNode, Consensus, ShareHandler, Tally, tally_worker}
use htn_stratum_bridge.Share.Submit.{handle_submit}
use htn_stratum_bridge.Pow.Floats.{FloatOps}
use htn_stratum_bridge.Vardiff.{
  update_var_diff, start_var_diff, check_rate, check_rates, start_client_vardiff,
  get_client_vardiff, set_client_vardiff, next_worker,
}
use htn_stratum_bridge.Vardiff.Stats.{
  AllWorkers, insert-AllWorkers, remove_stats-AllWorkers, get_create_stats-AllWorkers,
}
use htn_stratum_bridge.Share.Workers.{handle_submit-stats}

module _ {F D : Type 0} (fl : FloatOps F) (expected : ℕ) (consensus : Consensus D) where
  abbrev pub submitted_stats :
      SubmitNode
      → ℕ
      → ℕ
      → Client
      → List Param
      → MiningState F
      → ShareHandler F
      → Map Bytes (WorkStats F)
  submitted_stats node now now_ms ctx params s h =
      (handle_submit (fl.of_nat 0) fl.add consensus node now now_ms ctx params s h).handler.stats

  -- The maps of counters that can come about, each step with a time of its own.
  pub data Reached : Map Bytes (WorkStats F) → Type 0 where
    new : Reached []
    authorizes :
        (now : ℕ) (ctx : Client) (stats : Map Bytes (WorkStats F))
        → Reached stats
        → Reached (get_create_stats (fl.of_nat 0) fl.add now ctx stats).0
    submits :
        (node : SubmitNode) (now now_ms : ℕ) (ctx : Client) (params : List Param)
        (s : MiningState F) (h : ShareHandler F)
        → Reached h.stats
        → Reached (submitted_stats node now now_ms ctx params s h)
    starts :
        (now : ℕ) (ctx : Client) (stats : Map Bytes (WorkStats F))
        → Reached stats
        → Reached (start_client_vardiff fl now ctx stats)
    gets :
        (now : ℕ) (ctx : Client) (stats : Map Bytes (WorkStats F))
        → Reached stats
        → Reached (get_client_vardiff fl now ctx stats).0
    sets :
        (now : ℕ) (ctx : Client) (d : F) (stats : Map Bytes (WorkStats F))
        → Reached stats
        → Reached (set_client_vardiff fl now ctx d stats).0
    disconnects :
        (ctx : Client) (stats : Map Bytes (WorkStats F))
        → Reached stats
        → Reached (remove_stats ctx stats)
    checks :
        (now : ℕ) (stats stats' : Map Bytes (WorkStats F))
        → Reached stats
        → check_rates fl expected now stats ≡ some stats'
        → Reached stats'

  -- What is kept by all that changes a worker.
  pub record IsKept (P : WorkStats F → Type 0) : Type 0 where
    pub fresh : (now : ℕ) (wallet name : Bytes) → P (new_stats (fl.of_nat 0) fl.add now wallet name)
    pub counts :
        (t : Tally) (now : ℕ) (x : F) (w : WorkStats F)
        → P w
        → P (tally_worker (fl.of_nat 0) fl.add t now x w)
    pub updates : (d : F) (w : WorkStats F) → P w → P (update_var_diff d w)
    pub begins : (now : ℕ) (w : WorkStats F) → P w → P (start_var_diff now w)
    pub checks :
        (now : ℕ) (w w' : WorkStats F) → P w → check_rate fl expected now w ≡ some w' → P w'

  module _ (P : WorkStats F → Type 0) (kept : IsKept P) where
    check_rates-AllWorkers :
        (now : ℕ) (stats stats' : Map Bytes (WorkStats F))
        → AllWorkers P stats
        → check_rates fl expected now stats ≡ some stats'
        → AllWorkers P stats'
    unfolding check_rates
    check_rates-AllWorkers now [] stats' all e =
        let same : [] ≡ stats' = ground (arith, e) in rw (← same) tt
    check_rates-AllWorkers now ((key, w) ∷ stats) stats' all e =
        go (check_rate fl expected now w) (check_rates fl expected now stats)
          (λ w' c. kept.checks now w w' all.0 c) (λ m c. check_rates-AllWorkers now stats m all.1 c)
          e
      where
        go :
            (first : Option (WorkStats F)) (rest : Option (Map Bytes (WorkStats F)))
            → ((w' : WorkStats F) → first ≡ some w' → P w')
            → ((m : Map Bytes (WorkStats F)) → rest ≡ some m → AllWorkers P m)
            → next_worker key first rest ≡ some stats'
            → AllWorkers P stats'
        go none rest p all e = absurd (ground (arith, e))
        go (some w') none p all e = absurd (ground (arith, e))
        go (some w') (some m) p all e =
            let same : ((key, w') ∷ m) ≡ stats' = ground (arith, e) in
            rw (← same) (p w' refl, all m refl)

    created :
        (now : ℕ) (ctx : Client) (stats : Map Bytes (WorkStats F))
        → AllWorkers P stats
        → let (m, w) = get_create_stats (fl.of_nat 0) fl.add now ctx stats in AllWorkers P m × P w
    created now ctx stats all =
        get_create_stats-AllWorkers (fl.of_nat 0) fl.add P kept.fresh now ctx stats all

    submit-AllWorkers :
        (node : SubmitNode) (now now_ms : ℕ) (ctx : Client) (params : List Param)
        (s : MiningState F) (h : ShareHandler F)
        → AllWorkers P h.stats
        → AllWorkers P (submitted_stats node now now_ms ctx params s h)
    submit-AllWorkers node now now_ms ctx params s h all =
        let (there, p) = created now ctx h.stats all in
        elim (handle_submit-stats (fl.of_nat 0) fl.add consensus node now now_ms ctx P
          (AllWorkers P)
          (λ t x w stats p all.
            insert-AllWorkers P (stats_key ctx) (tally_worker (fl.of_nat 0) fl.add t now x w) stats
              (kept.counts t now x w p) all)
          params s h there p) [ inl same ↦ rw same all | inr all' ↦ all' ]

    pub Reached-AllWorkers : (stats : Map Bytes (WorkStats F)) → Reached stats → AllWorkers P stats
    unfolding start_client_vardiff get_client_vardiff set_client_vardiff
    Reached-AllWorkers _ new = tt
    Reached-AllWorkers _ (authorizes now ctx stats r) =
        (created now ctx stats (Reached-AllWorkers stats r)).0
    Reached-AllWorkers _ (submits node now now_ms ctx params s h r) =
        submit-AllWorkers node now now_ms ctx params s h (Reached-AllWorkers h.stats r)
    Reached-AllWorkers _ (starts now ctx stats r) =
        let (all, p) = created now ctx stats (Reached-AllWorkers stats r) in
        insert-AllWorkers P (stats_key ctx) _ _ (kept.begins now _ p) all
    Reached-AllWorkers _ (gets now ctx stats r) =
        (created now ctx stats (Reached-AllWorkers stats r)).0
    Reached-AllWorkers _ (sets now ctx d stats r) =
        let (all, p) = created now ctx stats (Reached-AllWorkers stats r) in
        insert-AllWorkers P (stats_key ctx) _ _ (kept.begins now _ (kept.updates _ _ p)) all
    Reached-AllWorkers _ (disconnects ctx stats r) =
        remove_stats-AllWorkers P ctx stats (Reached-AllWorkers stats r)
    Reached-AllWorkers _ (checks now stats stats' r e) =
        check_rates-AllWorkers now stats stats' (Reached-AllWorkers stats r) e
