-- ===== src/Api/Template.antt =====
-- `GetBlockTemplate` of src/htnstratum/htnapi.go: whom the template pays that a miner is given,
-- whether it comes from the node or from the cache.
use htn_stratum_bridge.Prelude.{
  ℕ, ◌≡◌, refl, ◌∙◌, ◌⊎◌, inl, inr, Bool, true, false, ◌&&◌, Option, none, some, Bytes, Map, ◌==◌,
  ==-eq, lookup, insert, lookup-insert, bytes_Eq, ℤ, pos, int_eq, ltb_ℤ, if◌then◌else◌, Bool-cases,
  Option-cases, arith,
}
use htn_stratum_bridge.Api.{
  CacheEntry, HtnApi, Node, has_fee, inc64, select, extra_data, cached, store, fetch,
  get_block_template,
}
use htn_stratum_bridge.Api.Select.{Selected, select-Selected}

-- `Pays a t`: the coinbase of template `t` pays the address `a`.
module _ {T : Type 0} (Pays : Bytes → T → Type 0) where
  -- Each cached template pays the address that it is cached under.
  abbrev pub IsSound : Map Bytes (CacheEntry T) → Type 0
  IsSound cache =
      (address : Bytes) (entry : CacheEntry T)
      → lookup address cache ≡ some entry
      → Pays address entry.template

  -- The node builds a template for the address that it is asked for.
  abbrev pub IsHonest : Node T → Type 0
  IsHonest node =
      (address extra : Bytes) (t : T)
      → node.get_block_template address extra ≡ some t
      → Pays address t

  cached-pays :
      (now : ℕ) (address : Bytes) (api : HtnApi T) (t : T)
      → IsSound api.gbt_cache
      → cached now address api ≡ some t
      → Pays address t
  unfolding cached
  cached-pays now address api t sound hit = elim (Option-cases (lookup address api.gbt_cache)) [
    | inl missing ↦ absurd (ground arith)
    | inr (entry, found) ↦
        let same : entry.template ≡ t = ground arith in rw (← same) (sound address entry found)
  ]

  insert-IsSound :
      (address : Bytes) (entry : CacheEntry T) (cache : Map Bytes (CacheEntry T))
      → IsSound cache
      → Pays address entry.template
      → IsSound (insert address entry cache)
  insert-IsSound address entry cache sound p a e found = elim (Bool-cases (address == a)) [
    | inl same ↦
        let e' : entry ≡ e = ground (arith, lookup-insert address a entry cache) in
        rw (← e', ← (==-eq address a same)) p
    | inr other ↦ sound a e (ground (arith, lookup-insert address a entry cache))
  ]

  abbrev PaysTemplate : Bytes → HtnApi T × Option T × Bool → Type 0
  PaysTemplate payout (api, template, _) =
      IsSound api.gbt_cache × ((t : T) → template ≡ some t → Pays payout t)

  store-pays :
      (now : ℕ) (payout : Bytes) (asked : Option T) (api : HtnApi T)
      → ((t : T) → asked ≡ some t → Pays payout t)
      → IsSound api.gbt_cache
      → PaysTemplate payout (store now payout asked api)
  unfolding store
  store-pays now payout none api pays sound = (sound, pays)
  store-pays now payout (some template) api pays sound =
      (insert-IsSound payout _ api.gbt_cache sound (pays template refl), pays)

  fetch-pays :
      (node : Node T) (poll vote : ℤ) (worker_name payout : Bytes) (is_fee : Bool) (api : HtnApi T)
      → IsHonest node
      → IsSound api.gbt_cache
      → PaysTemplate payout (fetch node poll vote worker_name payout is_fee api)
  unfolding fetch
  fetch-pays node poll vote worker_name payout is_fee api honest sound =
      let extra = extra_data api.gbt_cache_ttl poll vote payout worker_name in
      let asked = node.get_block_template payout extra in
      go (ltb_ℤ (pos 0) api.gbt_cache_ttl && (int_eq poll (pos 0) && int_eq vote (pos 0))) asked
        (cached node.lookup_time payout api) (λ t. honest payout extra t)
        (λ t. cached-pays node.lookup_time payout api t sound)
    where
      go :
          (b : Bool) (asked c : Option T)
          → ((t : T) → asked ≡ some t → Pays payout t)
          → ((t : T) → c ≡ some t → Pays payout t)
          → PaysTemplate payout (
              if b
              then elim c [
                | some template ↦
                    (record api { gbt_cache_hits = inc64 api.gbt_cache_hits }, some template, false)
                | none ↦
                    store node.store_time payout asked
                      (record api { gbt_cache_misses = inc64 api.gbt_cache_misses })
              ]
              else elim asked [
                | none ↦ (api, none, false)
                | some template ↦ (api, some template, is_fee)
              ])
      go true asked none p q = store-pays node.store_time payout asked _ p sound
      go true asked (some t) p q = (sound, q)
      go false none c p q = (sound, p)
      go false (some t) c p q = (sound, p)

  -- With an honest node and a sound cache, the template that a miner gets pays the miner, or,
  -- only if the bridge fee is enabled with a salt, the bridge; and the cache stays sound.
  pub get_block_template_pays :
      (hmac_sha256 : Bytes → Bytes → Bytes) (node : Node T) (poll vote : ℤ)
      (wallet_addr worker_name : Bytes) (api : HtnApi T)
      → IsHonest node
      → IsSound api.gbt_cache
      → let (api', template, _) =
          get_block_template hmac_sha256 node poll vote wallet_addr worker_name api in
        IsSound api'.gbt_cache
        × ((t : T)
            → template ≡ some t
            → Pays wallet_addr t
              ⊎ ((has_fee api.bridge_fee ≡ true) × Pays api.bridge_fee.address t))
  unfolding get_block_template
  get_block_template_pays hmac_sha256 node poll vote wallet_addr worker_name api honest sound =
      let r = select hmac_sha256 node wallet_addr worker_name api in
      let h : Selected hmac_sha256 wallet_addr api r =
        select-Selected hmac_sha256 node wallet_addr worker_name api in
      let (sound', pays) =
        fetch-pays node poll vote worker_name r.1 r.2 r.0 honest (rw h.cache sound) in
      (
        sound',
        λ t got. elim (Bool-cases r.2) [
          | inl fee ↦
              let to_bridge : r.1 ≡ api.bridge_fee.address = h.payout ∙ rw fee in
              inr (h.configured fee, rw (← to_bridge) (pays t got))
          | inr no_fee ↦
              let to_miner : r.1 ≡ wallet_addr = h.payout ∙ rw no_fee in
              inl (rw (← to_miner) (pays t got))
        ],
      )
