-- ===== src/Share/Stats.antt =====
-- `WorkStats` of src/htnstratum/share_handler.go: the counters of a worker. Floats are a type `F`
-- with an addition. Times are seconds; the counters of atomic.Int64 wrap.
use htn_stratum_bridge.Prelude.{
  ℕ, ◌+◌, ◌/◌, Bool, ◌&&◌, not, Option, none, some, List, [], ◌∷◌, ◌++◌, Bytes, codes, is_empty,
  Map, lookup, insert, delete, bytes_Eq, nat_Eq, ltb, ℤ, pos, int_inc, if◌then◌else◌,
}
use htn_stratum_bridge.Stratum.{Client}

pub record WorkStats (F : Type 0) : Type 0 where
  pub blocks_found : ℤ
  pub shares_found : ℤ
  pub shares_diff : F
  pub stale_shares : ℤ
  pub invalid_shares : ℤ
  pub wallet_addr : Bytes
  pub worker_name : Bytes
  pub start_time : ℕ
  pub last_share : ℕ
  -- `none` is the zero time.
  pub var_diff_start_time : Option ℕ
  pub var_diff_shares_found : ℤ
  pub var_diff_window : ℤ
  pub min_diff : F
  pub rolling_shares : Map ℕ ℤ
  pub rolling_shares_diff : Map ℕ F
  pub rolling_stale_shares : Map ℕ ℤ
  pub rolling_invalid_shares : Map ℕ ℤ

-- `m[k]` of a counter, which is 0 where the key is missing.
abbrev pub or_zero {ℓ} : {A : Type ℓ} → A → Option A → A
or_zero z none = z
or_zero z (some v) = v

-- `m[k]++`
abbrev pub bump : ℕ → Map ℕ ℤ → Map ℕ ℤ
bump k m = insert k (int_inc (or_zero (pos 0) (lookup k m))) m

-- The minutes that are kept.
abbrev pub window : ℕ
window = 1440

-- A loop that deletes the keys below `minute - window`.
unfoldable pub drop_old {ℓ} : {A : Type ℓ} → ℕ → List (ℕ × A) → List (ℕ × A)
drop_old minute [] = []
drop_old minute ((k, v) ∷ m) =
    let rest = drop_old minute m in if ltb (k + window) minute then rest else (k, v) ∷ rest

module _ {F : Type 0} (zero_f : F) (add : F → F → F) where
  -- The first half of `updateRollingCounters`.
  abbrev pub count_rolling : ℕ → F → Bool → Bool → WorkStats F → WorkStats F
  count_rolling minute share_diff is_stale is_invalid w =
      if not is_stale && not is_invalid
      then record w {
        rolling_shares = bump minute w.rolling_shares;
        rolling_shares_diff =
            insert minute (add (or_zero zero_f (lookup minute w.rolling_shares_diff)) share_diff)
              w.rolling_shares_diff;
      }
      else if is_stale
      then record w { rolling_stale_shares = bump minute w.rolling_stale_shares }
      else if is_invalid
      then record w { rolling_invalid_shares = bump minute w.rolling_invalid_shares }
      else w

  abbrev pub drop_all_old : ℕ → WorkStats F → WorkStats F
  drop_all_old minute w = record w {
    rolling_shares = drop_old minute w.rolling_shares;
    rolling_shares_diff = drop_old minute w.rolling_shares_diff;
    rolling_stale_shares = drop_old minute w.rolling_stale_shares;
    rolling_invalid_shares = drop_old minute w.rolling_invalid_shares;
  }

  -- `updateRollingCounters`, at a time in seconds.
  unfoldable pub update_rolling_counters : ℕ → F → Bool → Bool → WorkStats F → WorkStats F
  update_rolling_counters now share_diff is_stale is_invalid w =
      drop_all_old (now / 60) (count_rolling (now / 60) share_diff is_stale is_invalid w)

  abbrev pub new_stats : ℕ → Bytes → Bytes → WorkStats F
  new_stats now wallet_addr worker_name = record {
    blocks_found = pos 0;
    shares_found = pos 0;
    shares_diff = zero_f;
    stale_shares = pos 0;
    invalid_shares = pos 0;
    wallet_addr = wallet_addr;
    worker_name = worker_name;
    start_time = now;
    last_share = now;
    var_diff_start_time = none;
    var_diff_shares_found = pos 0;
    var_diff_window = pos 0;
    min_diff = zero_f;
    rolling_shares = [];
    rolling_shares_diff = [];
    rolling_stale_shares = [];
    rolling_invalid_shares = [];
  }

-- The key of a client's counters.
abbrev pub stats_key : Client → Bytes
stats_key ctx =
    if is_empty ctx.worker_name
    then ctx.remote_addr
    else ctx.wallet_addr ++ (codes "." ++ ctx.worker_name)

module _ {F : Type 0} (zero_f : F) (add : F → F → F) where
  abbrev pub or_create :
      Bytes
      → WorkStats F
      → Map Bytes (WorkStats F)
      → Option (WorkStats F)
      → Map Bytes (WorkStats F) × WorkStats F
  or_create key created stats (some w) = (stats, w)
  or_create key created stats none = (insert key created stats, created)

  -- `getCreateStats`: the map, and the counters, which the code points to in the map. The metrics of
  -- a new worker (`InitWorkerCounters`) are left out.
  unfoldable pub get_create_stats :
      ℕ → Client → Map Bytes (WorkStats F) → Map Bytes (WorkStats F) × WorkStats F
  get_create_stats now ctx stats =
      let name = if is_empty ctx.worker_name then ctx.remote_addr else ctx.worker_name in
      let key = stats_key ctx in
      or_create key (new_stats zero_f add now ctx.wallet_addr name) stats (lookup key stats)

-- `removeStats`
unfoldable pub remove_stats : {A : Type 0} → Client → Map Bytes A → Map Bytes A
remove_stats ctx stats =
    let named =
      if is_empty ctx.worker_name
      then stats
      else delete (ctx.wallet_addr ++ (codes "." ++ ctx.worker_name)) stats in
    if is_empty ctx.remote_addr then named else delete ctx.remote_addr named
