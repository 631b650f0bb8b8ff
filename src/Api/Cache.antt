-- ===== src/Api/Cache.antt =====
-- The cache of templates of src/htnstratum/htnapi.go: when it is used, how old its answers can be,
-- and what clearing it changes.
use htn_stratum_bridge.Prelude.{
  ℕ, ◌-◌, ◌≡◌, refl, ap, ◌∙◌, ◌⊎◌, inl, inr, Bool, true, false, ◌&&◌, not, Option, none, some,
  Bytes, lookup, insert, lookup-insert_self, bytes_Eq, ℤ, pos, int_eq, ltb_ℤ, Bool-cases,
  Option-cases, arith,
}
use htn_stratum_bridge.Api.{
  CacheEntry, HtnApi, Node, inc64, select, extra_data, is_fresh, serve, cached, store, fetch,
  get_block_template, invalidate_gbt_cache,
}
use htn_stratum_bridge.Api.Select.{Selected, select-Selected}

-- The requests that go through the cache.
abbrev pub caches : ℤ → ℤ → ℤ → Bool
caches ttl poll vote = ltb_ℤ (pos 0) ttl && (int_eq poll (pos 0) && int_eq vote (pos 0))

module _ {T : Type 0} where
  -- What a cache that is in use serves, or else the node's template.
  abbrev pub served : Bool → Option T → T → Option T
  served true (some young) asked = some young
  served true none asked = some asked
  served false young asked = some asked

  fetch_reported :
      (node : Node T) (poll vote : ℤ) (worker_name payout : Bytes) (is_fee : Bool) (api : HtnApi T)
      (t : T)
      → node.get_block_template payout (extra_data api.gbt_cache_ttl poll vote payout worker_name)
        ≡ some t
      → let r = fetch node poll vote worker_name payout is_fee api in
        let in_use = caches api.gbt_cache_ttl poll vote in
        (r.1 ≡ served in_use (cached node.lookup_time payout api) t)
        × (r.2 ≡ (is_fee && not in_use))
  unfolding fetch store
  fetch_reported node poll vote worker_name payout is_fee api t asked =
      elim (Bool-cases (caches api.gbt_cache_ttl poll vote)) [
        | inl c ↦ elim (Option-cases (cached node.lookup_time payout api)) [
          | inl miss ↦ (ground arith, ground arith)
          | inr (t', hit) ↦ (ground arith, ground arith)
        ]
        | inr uncached ↦ (ground arith, ground arith)
      ]

  -- A request that the selection diverted to the bridge, and for which the node has a template, gets
  -- a template for the bridge's address: from the cache if it is in use and has a young one, and
  -- from the node otherwise. It is reported as a fee job exactly where the cache is not in use.
  pub fee_job_unreported :
      (hmac_sha256 : Bytes → Bytes → Bytes) (node : Node T) (poll vote : ℤ)
      (wallet_addr worker_name : Bytes) (api : HtnApi T) (t : T)
      → (select hmac_sha256 node wallet_addr worker_name api).2 ≡ true
      → node.get_block_template api.bridge_fee.address
          (extra_data api.gbt_cache_ttl poll vote api.bridge_fee.address worker_name)
        ≡ some t
      → let r = get_block_template hmac_sha256 node poll vote wallet_addr worker_name api in
        let in_use = caches api.gbt_cache_ttl poll vote in
        (r.1 ≡ served in_use (cached node.lookup_time api.bridge_fee.address api) t)
        × (r.2 ≡ not in_use)
  unfolding get_block_template cached
  fee_job_unreported hmac_sha256 node poll vote wallet_addr worker_name api t diverted asked =
      let r = select hmac_sha256 node wallet_addr worker_name api in
      let h : Selected hmac_sha256 wallet_addr api r =
        select-Selected hmac_sha256 node wallet_addr worker_name api in
      let payout : r.1 ≡ api.bridge_fee.address = rw (h.payout, diverted) refl in
      let (gets, reports) =
        fetch_reported node poll vote worker_name r.1 r.2 r.0 t (rw (payout, h.ttl) asked) in
      (gets ∙ rw (payout, h.ttl, h.cache) refl, reports ∙ rw (diverted, h.ttl) refl)

  cached_fresh :
      (now : ℕ) (address : Bytes) (api : HtnApi T) (t : T)
      → cached now address api ≡ some t
      → (entry : CacheEntry T) × (lookup address api.gbt_cache ≡ some entry)
        × (entry.template ≡ t)
        × (is_fresh api.gbt_cache_ttl now entry ≡ true)
  unfolding cached
  cached_fresh now address api t hit = elim (Option-cases (lookup address api.gbt_cache)) [
    | inl missing ↦ absurd (ground arith)
    | inr (entry, found) ↦ (entry, found, ground arith, ground arith)
  ]

  -- A template comes from the node, asked in this call for the payout address, or from an entry
  -- of the cache for that address which is younger than the time to live.
  pub fetch_source :
      (node : Node T) (poll vote : ℤ) (worker_name payout : Bytes) (is_fee : Bool) (api : HtnApi T)
      (t : T)
      → (fetch node poll vote worker_name payout is_fee api).1 ≡ some t
      → (node.get_block_template payout (extra_data api.gbt_cache_ttl poll vote payout worker_name)
          ≡ some t)
        ⊎ ((entry : CacheEntry T) × (lookup payout api.gbt_cache ≡ some entry)
            × (entry.template ≡ t)
            × (is_fresh api.gbt_cache_ttl node.lookup_time entry ≡ true))
  unfolding fetch store
  fetch_source node poll vote worker_name payout is_fee api t got =
      elim (Bool-cases (caches api.gbt_cache_ttl poll vote)) [
        | inl c ↦ elim (Option-cases (cached node.lookup_time payout api)) [
          | inl miss ↦ inl (ground arith)
          | inr (t', hit) ↦
              inr (cached_fresh node.lookup_time payout api t (hit ∙ ap some (ground arith)))
        ]
        | inr uncached ↦ inl (ground arith)
      ]

  fetch_miss :
      (node : Node T) (poll vote : ℤ) (worker_name payout : Bytes) (is_fee : Bool) (api : HtnApi T)
      (t : T)
      → caches api.gbt_cache_ttl poll vote ≡ true
      → cached node.lookup_time payout api ≡ none
      → (fetch node poll vote worker_name payout is_fee api).1 ≡ some t
      → (fetch node poll vote worker_name payout is_fee api).0 ≡ record api {
        gbt_cache =
            insert payout
              (record { template = t; is_fee_job = false; fetched_at = node.store_time })
              api.gbt_cache;
        gbt_cache_misses = inc64 api.gbt_cache_misses;
      }
  unfolding fetch store
  fetch_miss node poll vote worker_name payout is_fee api t c miss got = ground arith

  fetch_hit :
      (node : Node T) (poll vote : ℤ) (worker_name payout : Bytes) (is_fee : Bool) (api : HtnApi T)
      (t : T)
      → caches api.gbt_cache_ttl poll vote ≡ true
      → cached node.lookup_time payout api ≡ some t
      → (fetch node poll vote worker_name payout is_fee api).1 ≡ some t
  unfolding fetch
  fetch_hit node poll vote worker_name payout is_fee api t c hit = ground arith

  cached-insert :
      (now : ℕ) (payout : Bytes) (entry : CacheEntry T) (misses : ℕ) (api : HtnApi T)
      → is_fresh api.gbt_cache_ttl now entry ≡ true
      → cached now payout
          (record api { gbt_cache = insert payout entry api.gbt_cache; gbt_cache_misses = misses })
        ≡ some entry.template
  unfolding cached
  cached-insert now payout entry misses api young =
      ap (serve api.gbt_cache_ttl now) (lookup-insert_self payout entry api.gbt_cache) ∙ rw young

  -- After a call that missed the cache and got a template through it, a second call for the same
  -- address within the time to live gets the same template, whatever the node would answer.
  pub second_fetch :
      (node later : Node T) (poll vote : ℤ) (worker_name worker_name' payout : Bytes)
      (is_fee is_fee' : Bool) (api : HtnApi T) (t : T)
      → caches api.gbt_cache_ttl poll vote ≡ true
      → cached node.lookup_time payout api ≡ none
      → (fetch node poll vote worker_name payout is_fee api).1 ≡ some t
      → ltb_ℤ (pos (later.lookup_time - node.store_time)) api.gbt_cache_ttl ≡ true
      → let api' = (fetch node poll vote worker_name payout is_fee api).0 in
        (fetch later poll vote worker_name' payout is_fee' api').1 ≡ some t
  second_fetch node later poll vote worker_name worker_name' payout is_fee is_fee' api t c miss got
        young =
      rw (fetch_miss node poll vote worker_name payout is_fee api t c miss got) (
        fetch_hit later poll vote worker_name' payout is_fee' _ t c
          (cached-insert later.lookup_time payout _ (inc64 api.gbt_cache_misses) api young))

  -- Where the cache is in use, clearing it leaves no template to serve.
  pub invalidated :
      (now : ℕ) (address : Bytes) (poll vote : ℤ) (api : HtnApi T)
      → caches api.gbt_cache_ttl poll vote ≡ true
      → cached now address (invalidate_gbt_cache api) ≡ none
  unfolding cached invalidate_gbt_cache lookup
  invalidated now address poll vote api c = ground arith
