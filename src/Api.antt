-- ===== src/Api.antt =====
-- src/htnstratum/htnapi.go: which address a block template pays, and the cache of templates.
-- The node is reached by RPC: what it answers during a call is an argument, `Node`. Times are
-- nanoseconds of the monotonic clock. A call runs from the lookup in the cache to the store with
-- no other call between; counters wrap at 64 bits.
pub mod Select
pub mod Template
pub mod Cache
pub mod Evict
pub mod Reach
pub mod Listener
mod Tests
use htn_stratum_bridge.Prelude.{
  ℕ, ◌+◌, ◌-◌, ◌%◌, ◌^◌, Bool, true, false, ◌&&◌, ◌||◌, not, Option, none, some, List, [], ◌∷◌,
  ◌++◌, Bytes, codes, is_empty, Map, lookup, insert, bytes_Eq, ℤ, pos, int_eq, ltb_ℤ, leb_ℤ, put_be,
  hex_decode, show_int, if◌then◌else◌,
}
use htn_stratum_bridge.Worker.{sanitize_worker_id}
use htn_stratum_bridge.BridgeFee.{should_replace_gbt}

abbrev pub version : Bytes
version = codes "v2.18.2-FozPool-1"

pub record BridgeFeeConfig : Type 0 where
  pub enabled : Bool
  pub rate_ppm : ℤ
  pub address : Bytes
  pub server_salt : Bytes

-- `gbtCacheEntry`, of templates of type `T`.
pub record CacheEntry (T : Type 0) : Type 0 where
  pub template : T
  pub is_fee_job : Bool
  pub fetched_at : ℕ

pub record HtnApi (T : Type 0) : Type 0 where
  pub bridge_fee : BridgeFeeConfig
  pub job_counter : ℕ
  pub gbt_total : ℕ
  pub gbt_diverted : ℕ
  pub gbt_cache : Map Bytes (CacheEntry T)
  pub gbt_cache_ttl : ℤ
  pub gbt_cache_hits : ℕ
  pub gbt_cache_misses : ℕ

-- What the surroundings answer during one call: the tips that `GetBlockDAGInfo` reports, `none`
-- for an error; the template for an address and extra data, `none` for an error; the clock, in
-- seconds for the job key, and at the lookup in the cache and at the store.
pub record Node (T : Type 0) : Type 0 where
  pub tip_hashes : Option (List Bytes)
  pub get_block_template : Bytes → Bytes → Option T
  pub unix_time : ℕ
  pub lookup_time : ℕ
  pub store_time : ℕ

abbrev pub inc64 : ℕ → ℕ
inc64 n = (n + 1) % 2 ^ 64

-- The bytes that decide about one request.
abbrev pub job_key : ℕ → Bytes → ℕ → Bytes → Bytes
job_key counter prev_block_hash unix_time worker_name =
    put_be 8 counter ++ (prev_block_hash ++ (put_be 8 unix_time ++ sanitize_worker_id worker_name))

-- The tip that the selection uses: the first of those reported, if it is valid hexadecimal.
abbrev pub first_tip : Option (List Bytes) → Option Bytes
first_tip none = none
first_tip (some []) = none
first_tip (some (tip ∷ tips)) = some tip

abbrev pub has_fee : BridgeFeeConfig → Bool
has_fee fee = fee.enabled && not (is_empty fee.server_salt)

module _ {T : Type 0} (hmac_sha256 : Bytes → Bytes → Bytes) where
  -- The first half of `GetBlockTemplate`: the payout address, and whether it was diverted.
  unfoldable pub select : Node T → Bytes → Bytes → HtnApi T → HtnApi T × Bytes × Bool
  select node wallet_addr worker_name api =
      let counted = record api { gbt_total = inc64 api.gbt_total } in
      if has_fee api.bridge_fee
      then elim (first_tip node.tip_hashes) [
        | none ↦ (counted, wallet_addr, false)
        | some tip ↦
            let counter = inc64 api.job_counter in
            let keyed = record counted { job_counter = counter } in
            elim (hex_decode tip) [
              | none ↦ (keyed, wallet_addr, false)
              | some prev_block_hash ↦
                  if should_replace_gbt hmac_sha256 api.bridge_fee.server_salt
                    api.bridge_fee.rate_ppm
                    (job_key counter prev_block_hash node.unix_time worker_name)
                  then (
                    record keyed { gbt_diverted = inc64 api.gbt_diverted },
                    api.bridge_fee.address,
                    true,
                  )
                  else (keyed, wallet_addr, false)
            ]
      ]
      else (counted, wallet_addr, false)

-- The text that goes into the coinbase.
unfoldable pub extra_data : ℤ → ℤ → ℤ → Bytes → Bytes → Bytes
extra_data ttl poll vote payout_address worker_name =
    let worker = sanitize_worker_id worker_name in
    let voting =
      codes "Mined by "
      ++ payout_address
      ++ codes " via htn-stratum-bridge_"
      ++ version
      ++ codes " as worker "
      ++ worker
      ++ codes " poll "
      ++ show_int poll
      ++ codes " vote "
      ++ show_int vote in
    if not (int_eq poll (pos 0)) && not (int_eq vote (pos 0))
    then voting
    else if ltb_ℤ (pos 0) ttl
    then codes "Mined by " ++ payout_address ++ codes " via htn-stratum-bridge version " ++ version
    else codes "Mined by "
      ++ payout_address
      ++ codes " via htn-stratum-bridge_"
      ++ version
      ++ codes " as worker "
      ++ worker

module _ {T : Type 0} where
  -- `time.Since(entry.fetchedAt) < htnApi.gbtCacheTTL`
  abbrev pub is_fresh : ℤ → ℕ → CacheEntry T → Bool
  is_fresh ttl now entry = ltb_ℤ (pos (now - entry.fetched_at)) ttl

  abbrev pub serve : ℤ → ℕ → Option (CacheEntry T) → Option T
  serve ttl now none = none
  serve ttl now (some entry) = if is_fresh ttl now entry then some entry.template else none

  -- The cached template of an address, if there is one that is young enough.
  unfoldable pub cached : ℕ → Bytes → HtnApi T → Option T
  cached now address api = serve api.gbt_cache_ttl now (lookup address api.gbt_cache)

  -- What a request to the node that missed the cache answers; a template is put into the cache.
  unfoldable pub store : ℕ → Bytes → Option T → HtnApi T → HtnApi T × Option T × Bool
  store now payout_address none api = (api, none, false)
  store now payout_address (some template) api =
      let entry : CacheEntry T = record {
        template = template;
        is_fee_job = false;
        fetched_at = now;
      } in
      (record api { gbt_cache = insert payout_address entry api.gbt_cache }, some template, false)

  -- The second half of `GetBlockTemplate`: the template, `none` for an error, and whether it is
  -- reported as a fee job.
  unfoldable pub fetch :
      Node T → ℤ → ℤ → Bytes → Bytes → Bool → HtnApi T → HtnApi T × Option T × Bool
  fetch node poll vote worker_name payout_address is_fee api =
      let extra = extra_data api.gbt_cache_ttl poll vote payout_address worker_name in
      let asked = node.get_block_template payout_address extra in
      if ltb_ℤ (pos 0) api.gbt_cache_ttl && (int_eq poll (pos 0) && int_eq vote (pos 0))
      then elim (cached node.lookup_time payout_address api) [
        | some template ↦
            (record api { gbt_cache_hits = inc64 api.gbt_cache_hits }, some template, false)
        | none ↦
            store node.store_time payout_address asked
              (record api { gbt_cache_misses = inc64 api.gbt_cache_misses })
      ]
      else elim asked [ none ↦ (api, none, false) | some template ↦ (api, some template, is_fee) ]

  module _ (hmac_sha256 : Bytes → Bytes → Bytes) where
    -- `GetBlockTemplate` for a client's wallet address and worker name.
    unfoldable pub get_block_template :
        Node T → ℤ → ℤ → Bytes → Bytes → HtnApi T → HtnApi T × Option T × Bool
    get_block_template node poll vote wallet_addr worker_name api =
        let (selected, payout_address, is_fee) =
          select hmac_sha256 node wallet_addr worker_name api in
        fetch node poll vote worker_name payout_address is_fee selected

  unfoldable pub invalidate_gbt_cache : HtnApi T → HtnApi T
  invalidate_gbt_cache api =
      if int_eq api.gbt_cache_ttl (pos 0) then api else record api { gbt_cache = [] }

  -- One tick of `startCacheCleanupThread`.
  unfoldable pub evict : ℤ → ℕ → Map Bytes (CacheEntry T) → Map Bytes (CacheEntry T)
  evict ttl now [] = []
  evict ttl now ((address, entry) ∷ cache) =
      let rest = evict ttl now cache in
      if leb_ℤ ttl (pos (now - entry.fetched_at)) then rest else (address, entry) ∷ rest

  unfoldable pub cleanup : ℕ → HtnApi T → HtnApi T
  unfolding evict
  cleanup now api =
      if int_eq api.gbt_cache_ttl (pos 0)
      then api
      else record api { gbt_cache = evict api.gbt_cache_ttl now api.gbt_cache }
