-- ===== src/Api/Reach.antt =====
-- The states that the API of src/htnstratum/htnapi.go goes through, from `NewHoosatAPI` on, with
-- nodes that may answer differently at every call.
use htn_stratum_bridge.Prelude.{
  ℕ, ◌≤◌, ◌≡◌, ◌⊎◌, inl, inr, true, some, [], Bytes, lookup, Unique, bytes_Eq, ℤ, pos, int_eq,
  Bool-cases, arith,
}
use htn_stratum_bridge.Api.{
  HtnApi, Node, has_fee, get_block_template, cached, invalidate_gbt_cache, cleanup,
}
use htn_stratum_bridge.Api.Template.{IsSound, IsHonest, get_block_template_pays}
use htn_stratum_bridge.Api.Evict.{
  get_block_template-Unique, cleanup-Unique, lookup-evict-some, cleanup_unobservable,
}

module _ {T : Type 0} (hmac_sha256 : Bytes → Bytes → Bytes) (Pays : Bytes → T → Type 0) where
  pub data Step : HtnApi T → HtnApi T → Type 0 where
    asks :
        (node : Node T) (poll vote : ℤ) (wallet_addr worker_name : Bytes) (api : HtnApi T)
        → IsHonest Pays node
        → Step api (get_block_template hmac_sha256 node poll vote wallet_addr worker_name api).0
    invalidates : (api : HtnApi T) → Step api (invalidate_gbt_cache api)
    cleans : (now : ℕ) (api : HtnApi T) → Step api (cleanup now api)

  pub data Reach : HtnApi T → Type 0 where
    start : (api : HtnApi T) → api.gbt_cache ≡ [] → Reach api
    next : {api api' : HtnApi T} → Reach api → Step api api' → Reach api'

  abbrev IsGood : HtnApi T → Type 0
  IsGood api = IsSound Pays api.gbt_cache × Unique api.gbt_cache

  cleanup-IsGood : (now : ℕ) (api : HtnApi T) → IsGood api → IsGood (cleanup now api)
  unfolding cleanup
  cleanup-IsGood now api (sound, u) = elim (Bool-cases (int_eq api.gbt_cache_ttl (pos 0))) [
    | inl off ↦ rw off (sound, u)
    | inr on ↦ (
      rw on (λ address entry found.
          sound address entry
            (lookup-evict-some api.gbt_cache_ttl now address api.gbt_cache entry u found)),
      cleanup-Unique now api u,
    )
  ]

  invalidate-IsGood : (api : HtnApi T) → IsGood api → IsGood (invalidate_gbt_cache api)
  unfolding invalidate_gbt_cache lookup
  invalidate-IsGood api (sound, u) = elim (Bool-cases (int_eq api.gbt_cache_ttl (pos 0))) [
    | inl off ↦ rw off (sound, u)
    | inr on ↦ rw on ((λ address entry found. absurd (ground arith)), tt)
  ]

  Step-IsGood : {api api' : HtnApi T} → Step api api' → IsGood api → IsGood api'
  Step-IsGood (asks node poll vote wallet_addr worker_name api honest) (sound, u) = (
    (get_block_template_pays Pays hmac_sha256 node poll vote wallet_addr worker_name api honest
        sound).0,
    get_block_template-Unique hmac_sha256 node poll vote wallet_addr worker_name api u,
  )
  Step-IsGood (invalidates api) h = invalidate-IsGood api h
  Step-IsGood (cleans now api) h = cleanup-IsGood now api h

  Reach-IsGood : {api : HtnApi T} → Reach api → IsGood api
  unfolding lookup
  Reach-IsGood (start api empty) = rw empty ((λ a e found. absurd (ground arith)), tt)
  Reach-IsGood (next r st) = Step-IsGood st (Reach-IsGood r)

  -- In every state that is reached with honest nodes from an empty cache, the next template that
  -- an honest node or the cache gives a miner pays the miner, or, only with the bridge fee
  -- enabled and a salt, the bridge.
  pub reached_pays :
      {api : HtnApi T} (node : Node T) (poll vote : ℤ) (wallet_addr worker_name : Bytes) (t : T)
      → Reach api
      → IsHonest Pays node
      → (get_block_template hmac_sha256 node poll vote wallet_addr worker_name api).1 ≡ some t
      → Pays wallet_addr t ⊎ ((has_fee api.bridge_fee ≡ true) × Pays api.bridge_fee.address t)
  reached_pays {api} node poll vote wallet_addr worker_name t r honest got =
      (get_block_template_pays Pays hmac_sha256 node poll vote wallet_addr worker_name api honest
          (Reach-IsGood r).0).1
        t got

  -- In every such state the periodic cleanup is not observable: afterwards every address is served
  -- from the cache as if it had not happened, at any later time.
  pub reached_cleanup :
      {api : HtnApi T} (now later : ℕ) (address : Bytes)
      → Reach api
      → now ≤ later
      → cached later address (cleanup now api) ≡ cached later address api
  reached_cleanup {api} now later address r h =
      cleanup_unobservable now later address api h (Reach-IsGood r).1
