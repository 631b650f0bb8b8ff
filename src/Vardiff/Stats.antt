-- ===== src/Vardiff/Stats.antt =====
-- Predicates on every worker in the map of `shareHandler` in src/htnstratum/share_handler.go.
use htn_stratum_bridge.Prelude.{
  ℕ, ◌≡◌, refl, inl, inr, Bool, true, false, Option, none, some, [], ◌∷◌, Bytes, Map, lookup,
  insert, delete, bytes_Eq, bytes_eq, is_empty, ◌++◌, codes, Bool-cases, arith, if◌then◌else◌,
}
use htn_stratum_bridge.Stratum.{Client}
use htn_stratum_bridge.Share.Stats.{
  WorkStats, new_stats, stats_key, or_create, get_create_stats, remove_stats,
}

abbrev pub AllWorkers {ℓ} : {W : Type 0} → (W → Type ℓ) → Map Bytes W → Type ℓ
AllWorkers P [] = Unit
AllWorkers P ((key, w) ∷ stats) = P w × AllWorkers P stats

module _ {ℓ} {W : Type 0} (P : W → Type ℓ) where
  pub lookup-AllWorkers :
      (key : Bytes) (w : W) (stats : Map Bytes W)
      → AllWorkers P stats
      → lookup key stats ≡ some w
      → P w
  unfolding lookup
  lookup-AllWorkers key w [] all e = absurd (ground arith)
  lookup-AllWorkers key w ((k, v) ∷ stats) all e = elim (Bool-cases (bytes_eq k key)) [
    | inl here ↦ let same : v ≡ w = ground (arith, e, here) in rw (← same) all.0
    | inr other ↦ lookup-AllWorkers key w stats all.1 (ground (arith, e, other))
  ]

  pub insert-AllWorkers :
      (key : Bytes) (w : W) (stats : Map Bytes W)
      → P w
      → AllWorkers P stats
      → AllWorkers P (insert key w stats)
  unfolding insert
  insert-AllWorkers key w [] p all = (p, tt)
  insert-AllWorkers key w ((k, v) ∷ stats) p all = elim (Bool-cases (bytes_eq k key)) [
    | inl here ↦ rw here (p, all.1)
    | inr other ↦ rw other (all.0, insert-AllWorkers key w stats p all.1)
  ]

  delete-AllWorkers :
      (key : Bytes) (stats : Map Bytes W) → AllWorkers P stats → AllWorkers P (delete key stats)
  unfolding delete
  delete-AllWorkers key [] all = tt
  delete-AllWorkers key ((k, v) ∷ stats) all = elim (Bool-cases (bytes_eq k key)) [
    | inl here ↦ rw here (delete-AllWorkers key stats all.1)
    | inr other ↦ rw other (all.0, delete-AllWorkers key stats all.1)
  ]

  pub remove_stats-AllWorkers :
      (ctx : Client) (stats : Map Bytes W)
      → AllWorkers P stats
      → AllWorkers P (remove_stats ctx stats)
  unfolding remove_stats
  remove_stats-AllWorkers ctx stats all = unless (is_empty ctx.remote_addr) ctx.remote_addr _ (
      unless (is_empty ctx.worker_name) (ctx.wallet_addr ++ (codes "." ++ ctx.worker_name)) stats
        all)
    where
      unless :
          (empty : Bool) (key : Bytes) (kept : Map Bytes W)
          → AllWorkers P kept
          → AllWorkers P (if empty then kept else delete key kept)
      unless true key kept all = all
      unless false key kept all = delete-AllWorkers key kept all

module _ {ℓ} {F : Type 0} (zero_f : F) (add : F → F → F) (P : WorkStats F → Type ℓ)
    (fresh : (now : ℕ) (wallet name : Bytes) → P (new_stats zero_f add now wallet name)) where
  pub get_create_stats-AllWorkers :
      (now : ℕ) (ctx : Client) (stats : Map Bytes (WorkStats F))
      → AllWorkers P stats
      → let (created, w) = get_create_stats zero_f add now ctx stats in AllWorkers P created × P w
  unfolding get_create_stats
  get_create_stats-AllWorkers now ctx stats all =
      go (lookup (stats_key ctx) stats) (λ w. lookup-AllWorkers P (stats_key ctx) w stats all)
    where
      created : WorkStats F
      created =
          new_stats zero_f add now ctx.wallet_addr
            (if is_empty ctx.worker_name then ctx.remote_addr else ctx.worker_name)

      go :
          (found : Option (WorkStats F))
          → ((w : WorkStats F) → found ≡ some w → P w)
          → let r = or_create zero_f add (stats_key ctx) created stats found in
            AllWorkers P r.0 × P r.1
      go none p =
          (insert-AllWorkers P (stats_key ctx) created stats (fresh now _ _) all, fresh now _ _)
      go (some w) p = (all, p w refl)
