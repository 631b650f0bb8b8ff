-- ===== src/Api/Evict.antt =====
-- The periodic cleanup of the cache of templates of src/htnstratum/htnapi.go, and that the cache
-- holds each address once.
use htn_stratum_bridge.Prelude.{
  ℕ, ◌-◌, ◌≤◌, ◌≡◌, refl, inl, inr, Bool, true, false, Option, none, some, [], ◌∷◌, Bytes, Map,
  lookup, Unique, insert-Unique, bytes_Eq, bytes_eq_iff, ℤ, pos, int_eq, leb_ℤ, if◌then◌else◌,
  Bool-cases, arith,
}
use htn_stratum_bridge.Api.{
  CacheEntry, HtnApi, Node, inc64, select, extra_data, serve, cached, store, fetch,
  get_block_template, invalidate_gbt_cache, evict, cleanup,
}
use htn_stratum_bridge.Api.Select.{Selected, select-Selected}
use htn_stratum_bridge.Api.Cache.{caches}

module _ {T : Type 0} where
  lookup-evict-none :
      (ttl : ℤ) (now : ℕ) (address : Bytes) (cache : Map Bytes (CacheEntry T))
      → lookup address cache ≡ none
      → lookup address (evict ttl now cache) ≡ none
  unfolding lookup evict
  lookup-evict-none ttl now address [] h = refl
  lookup-evict-none ttl now address ((key, entry) ∷ cache) h =
      ground (arith, lookup-evict-none ttl now address cache)

  serve-evict :
      (ttl : ℤ) (now later : ℕ) (address : Bytes) (cache : Map Bytes (CacheEntry T))
      → now ≤ later
      → Unique cache
      → serve ttl later (lookup address (evict ttl now cache))
        ≡ serve ttl later (lookup address cache)
  unfolding lookup evict
  serve-evict ttl now later address [] h u = refl
  serve-evict ttl now later address ((key, entry) ∷ cache) h u = ground (
    arith,
    bytes_eq_iff key address,
    lookup-evict-none ttl now address cache,
    serve-evict ttl now later address cache h u.1,
  )

  -- The periodic cleanup is not observable: from then on every address is served as if it had not
  -- happened, at any later time.
  pub cleanup_unobservable :
      (now later : ℕ) (address : Bytes) (api : HtnApi T)
      → now ≤ later
      → Unique api.gbt_cache
      → cached later address (cleanup now api) ≡ cached later address api
  unfolding cached cleanup
  cleanup_unobservable now later address api h u =
      elim (Bool-cases (int_eq api.gbt_cache_ttl (pos 0))) [
        | inl off ↦ rw off
        | inr on ↦ rw on (serve-evict api.gbt_cache_ttl now later address api.gbt_cache h u)
      ]

  abbrev HasUnique : HtnApi T × Option T × Bool → Type 0
  HasUnique (api, _, _) = Unique api.gbt_cache

  pub fetch-Unique :
      (node : Node T) (poll vote : ℤ) (worker_name payout : Bytes) (is_fee : Bool) (api : HtnApi T)
      → Unique api.gbt_cache
      → Unique (fetch node poll vote worker_name payout is_fee api).0.gbt_cache
  unfolding fetch store
  fetch-Unique node poll vote worker_name payout is_fee api u =
      let extra = extra_data api.gbt_cache_ttl poll vote payout worker_name in
      go (caches api.gbt_cache_ttl poll vote) (node.get_block_template payout extra)
        (cached node.lookup_time payout api)
    where
      go :
          (b : Bool) (asked c : Option T)
          → HasUnique (
              if b
              then elim c [
                | some template ↦
                    (record api { gbt_cache_hits = inc64 api.gbt_cache_hits }, some template, false)
                | none ↦
                    store node.store_time payout asked
                      (record api { gbt_cache_misses = inc64 api.gbt_cache_misses })
              ]
              else elim asked [
                | none ↦ (api, none, false)
                | some template ↦ (api, some template, is_fee)
              ])
      go true none none = u
      go true (some template) none = insert-Unique payout _ api.gbt_cache u
      go true asked (some t) = u
      go false none c = u
      go false (some t) c = u

  pub get_block_template-Unique :
      (hmac_sha256 : Bytes → Bytes → Bytes) (node : Node T) (poll vote : ℤ)
      (wallet_addr worker_name : Bytes) (api : HtnApi T)
      → Unique api.gbt_cache
      → Unique
          (get_block_template hmac_sha256 node poll vote wallet_addr worker_name api).0.gbt_cache
  unfolding get_block_template
  get_block_template-Unique hmac_sha256 node poll vote wallet_addr worker_name api u =
      let r = select hmac_sha256 node wallet_addr worker_name api in
      let h : Selected hmac_sha256 wallet_addr api r =
        select-Selected hmac_sha256 node wallet_addr worker_name api in
      fetch-Unique node poll vote worker_name r.1 r.2 r.0 (rw h.cache u)

  evict-Unique :
      (ttl : ℤ) (now : ℕ) (cache : Map Bytes (CacheEntry T))
      → Unique cache
      → Unique (evict ttl now cache)
  unfolding evict
  evict-Unique ttl now [] u = tt
  evict-Unique ttl now ((key, entry) ∷ cache) u =
      elim (Bool-cases (leb_ℤ ttl (pos (now - entry.fetched_at)))) [
        | inl old ↦ rw old (evict-Unique ttl now cache u.1)
        | inr young ↦
            rw young (lookup-evict-none ttl now key cache u.0, evict-Unique ttl now cache u.1)
      ]

  pub cleanup-Unique :
      (now : ℕ) (api : HtnApi T) → Unique api.gbt_cache → Unique (cleanup now api).gbt_cache
  unfolding cleanup
  cleanup-Unique now api u = elim (Bool-cases (int_eq api.gbt_cache_ttl (pos 0))) [
    | inl off ↦ rw off u
    | inr on ↦ rw on (evict-Unique api.gbt_cache_ttl now api.gbt_cache u)
  ]

  pub invalidate_gbt_cache-Unique :
      (api : HtnApi T) → Unique api.gbt_cache → Unique (invalidate_gbt_cache api).gbt_cache
  unfolding invalidate_gbt_cache
  invalidate_gbt_cache-Unique api u = elim (Bool-cases (int_eq api.gbt_cache_ttl (pos 0))) [
    | inl off ↦ rw off u
    | inr on ↦ rw on tt
  ]

  pub lookup-evict-some :
      (ttl : ℤ) (now : ℕ) (address : Bytes) (cache : Map Bytes (CacheEntry T))
      (entry : CacheEntry T)
      → Unique cache
      → lookup address (evict ttl now cache) ≡ some entry
      → lookup address cache ≡ some entry
  unfolding lookup evict
  lookup-evict-some ttl now address [] entry u h = h
  lookup-evict-some ttl now address ((key, e) ∷ cache) entry u h = ground (
    arith,
    bytes_eq_iff key address,
    lookup-evict-none ttl now address cache,
    lookup-evict-some ttl now address cache entry u.1,
  )
