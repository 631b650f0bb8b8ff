-- ===== src/Server/Growth.antt =====
-- What a connection makes the map of workers in src/htnstratum/share_handler.go hold.
use htn_stratum_bridge.Prelude.{
  ℕ, ◌+◌, ◌≤◌, ◌≡◌, refl, ap, inl, inr, Bool, true, false, Option, none, some, List, [], ◌∷◌, Bytes,
  Map, lookup, insert, lookup-insert, lookup-insert_self, length, bytes_Eq, bytes_eq, is_empty,
  Bool-cases, arith, if◌then◌else◌,
}
use htn_stratum_bridge.Mining.{MiningState}
use htn_stratum_bridge.Stratum.{Param, Client}
use htn_stratum_bridge.Share.Stats.{WorkStats, new_stats, or_create, stats_key, get_create_stats}
use htn_stratum_bridge.Share.Tally.{SubmitNode, Consensus, ShareHandler, tally_worker}
use htn_stratum_bridge.Share.Submit.{handle_submit}
use htn_stratum_bridge.Share.Workers.{handle_submit-stats}

abbrev pub absent : {W : Type 0} → Option W → ℕ
absent none = 1
absent (some w) = 0

-- 1 where a key is missing.
abbrev pub missing : {W : Type 0} → Bytes → Map Bytes W → ℕ
missing k m = absent (lookup k m)

pub absent-le : {W : Type 0} (o : Option W) → absent o ≤ 1
absent-le none = omega arith
absent-le (some w) = omega arith

module _ {W : Type 0} where
  missing-insert : (k j : Bytes) (v : W) (m : Map Bytes W) → missing j (insert k v m) ≤ missing j m
  missing-insert k j v m = rw (lookup-insert k j v m) (go (bytes_eq k j) (lookup j m))
    where
      go : (b : Bool) (o : Option W) → absent (if b then some v else o) ≤ absent o
      go true none = omega arith
      go true (some w) = omega arith
      go false o = omega arith

  missing-insert_self : (k : Bytes) (v : W) (m : Map Bytes W) → missing k (insert k v m) ≡ 0
  missing-insert_self k v m = ap absent (lookup-insert_self k v m)

  length-insert :
      (k : Bytes) (v : W) (m : Map Bytes W) → length (insert k v m) ≡ length m + missing k m
  unfolding insert lookup
  length-insert k v [] = refl
  length-insert k v ((j, w) ∷ m) = elim (Bool-cases (bytes_eq j k)) [
    | inl here ↦ rw here (omega arith)
    | inr other ↦ rw other (omega (arith, length-insert k v m))
  ]

  -- Only the key `k` was added, if it was missing.
  abbrev pub Grown : Bytes → Map Bytes W → Map Bytes W → Type 0
  Grown k a b =
      (length b + missing k b ≤ length a + missing k a) × ((j : Bytes) → missing j b ≤ missing j a)

  insert-Grown : (k : Bytes) (v : W) (a b : Map Bytes W) → Grown k a b → Grown k a (insert k v b)
  insert-Grown k v a b (size, keys) = (
    omega (arith, size, length-insert k v b, missing-insert_self k v b),
    λ j. omega (arith, keys j, missing-insert k j v b),
  )

  refl-Grown : (k : Bytes) (a b : Map Bytes W) → b ≡ a → Grown k a b
  refl-Grown k a b same = rw same (omega arith, λ j. omega arith)

module _ {F : Type 0} (zero_f : F) (add : F → F → F) where
  pub get_create_stats-Grown :
      (now : ℕ) (ctx : Client) (stats : Map Bytes (WorkStats F))
      → Grown (stats_key ctx) stats (get_create_stats zero_f add now ctx stats).0
  unfolding get_create_stats
  get_create_stats-Grown now ctx stats = go (lookup (stats_key ctx) stats)
    where
      created : WorkStats F
      created =
          new_stats zero_f add now ctx.wallet_addr
            (if is_empty ctx.worker_name then ctx.remote_addr else ctx.worker_name)

      go :
          (found : Option (WorkStats F))
          → Grown (stats_key ctx) stats (or_create zero_f add (stats_key ctx) created stats found).0
      go none =
          insert-Grown (stats_key ctx) created stats stats
            (refl-Grown (stats_key ctx) stats stats refl)
      go (some w) = refl-Grown (stats_key ctx) stats stats refl

  pub handle_submit-Grown :
      {D : Type 0} (consensus : Consensus D) (node : SubmitNode) (now now_ms : ℕ) (ctx : Client)
      (params : List Param) (s : MiningState F) (h : ShareHandler F)
      → Grown
          (stats_key ctx)
          h.stats
          (handle_submit zero_f add consensus node now now_ms ctx params s h).handler.stats
  handle_submit-Grown consensus node now now_ms ctx params s h =
      elim (handle_submit-stats zero_f add consensus node now now_ms ctx (λ w. Unit)
        (Grown (stats_key ctx) h.stats)
        (λ t x w stats p grown.
          insert-Grown (stats_key ctx) (tally_worker zero_f add t now x w) h.stats stats grown)
        params s h (get_create_stats-Grown now ctx h.stats) tt) [
          | inl same ↦ refl-Grown (stats_key ctx) h.stats _ same
          | inr grown ↦ grown
        ]
