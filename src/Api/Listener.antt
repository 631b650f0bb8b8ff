-- ===== src/Api/Listener.antt =====
-- `startBlockTemplateListener` and `waitForSync` of src/htnstratum/htnapi.go. `waitForSync` gives no
-- error, so the listener never gets to `reconnect`.
use htn_stratum_bridge.Prelude.{
  ℕ, ◌≡◌, Bool, true, false, Option, none, some, List, [], ◌∷◌, Bytes, All, pos, ltb_ℤ, arith,
  bytes_Eq,
}
use htn_stratum_bridge.Api.{HtnApi, cached, invalidate_gbt_cache}
use htn_stratum_bridge.Api.Cache.{caches, invalidated}

-- Over the answers of `GetInfo`, `none` for an error: those that are left where it returns; `none`
-- while it still waits.
unfoldable pub wait_for_sync : List (Option Bool) → Option (List (Option Bool))
wait_for_sync [] = none
wait_for_sync (none ∷ answers) = wait_for_sync answers
wait_for_sync (some false ∷ answers) = wait_for_sync answers
wait_for_sync (some true ∷ answers) = some answers

-- What the `select` of the loop finds.
pub data Wake : Type 0 where
  cancelled : Wake
  block_ready : Wake
  timed_out : Wake

-- A call of `blockReadyCb`: whether the node had notified of a new block, and the API at its start.
pub record Call (T : Type 0) : Type 0 where
  pub notified : Bool
  pub api : HtnApi T

module _ {T : Type 0} (ready : HtnApi T → HtnApi T) where
  -- A round, once `waitForSync` has returned.
  abbrev pub woken :
      (HtnApi T → List (Call T)) → Wake → HtnApi T → Option (List (Option Bool)) → List (Call T)
  woken more wake api none = []
  woken more cancelled api (some answers) = []
  woken more block_ready api (some answers) =
      let cleared = invalidate_gbt_cache api in
      record { notified = true; api = cleared } ∷ more (ready cleared)
  woken more timed_out api (some answers) =
      record { notified = false; api = api } ∷ more (ready api)

  -- The loop: for each round what `GetInfo` answers and what wakes it; the calls, in order.
  unfoldable pub listen_templates : List (List (Option Bool) × Wake) → HtnApi T → List (Call T)
  unfolding wait_for_sync
  listen_templates [] api = []
  listen_templates ((answers, wake) ∷ rounds) api =
      woken (listen_templates rounds) wake api (wait_for_sync answers)

  -- The call has no template in the cache, if it follows a notification and there is a cache.
  abbrev pub IsFresh : Call T → Type 0
  IsFresh call =
      call.notified ≡ true
      → ltb_ℤ (pos 0) call.api.gbt_cache_ttl ≡ true
      → (now : ℕ) (address : Bytes) → cached now address call.api ≡ none

  caching_before :
      (api : HtnApi T)
      → ltb_ℤ (pos 0) (invalidate_gbt_cache api).gbt_cache_ttl ≡ true
      → caches api.gbt_cache_ttl (pos 0) (pos 0) ≡ true
  unfolding invalidate_gbt_cache
  caching_before api caching = ground (arith, caching)

  woken-IsFresh :
      (more : HtnApi T → List (Call T)) (wake : Wake) (api : HtnApi T)
      (answers : Option (List (Option Bool)))
      → ((api : HtnApi T) → All IsFresh (more api))
      → All IsFresh (woken more wake api answers)
  woken-IsFresh more wake api none fresh = tt
  woken-IsFresh more cancelled api (some answers) fresh = tt
  woken-IsFresh more block_ready api (some answers) fresh = (
    λ notified caching now address.
        invalidated now address (pos 0) (pos 0) api (caching_before api caching),
    fresh (ready (invalidate_gbt_cache api)),
  )
  woken-IsFresh more timed_out api (some answers) fresh =
      (λ notified. absurd (ground (arith, notified)), fresh (ready api))

  -- After each notification of the node the clients are asked to work on templates that are fetched
  -- anew: nothing in the cache is served.
  pub calls-IsFresh :
      (rounds : List (List (Option Bool) × Wake)) (api : HtnApi T)
      → All IsFresh (listen_templates rounds api)
  unfolding listen_templates
  calls-IsFresh [] api = tt
  calls-IsFresh ((answers, wake) ∷ rounds) api =
      woken-IsFresh (listen_templates rounds) wake api (wait_for_sync answers)
        (calls-IsFresh rounds)
