-- ===== src/Server/Bounded.antt =====
-- How many workers one connection of src/gostratum can bring, under the handlers of
-- src/htnstratum/stratum_server.go.
use htn_stratum_bridge.Prelude.{
  ℕ, ◌+◌, ◌-◌, ◌≤◌, ◌≡◌, refl, Bool, true, false, Option, none, some, List, [], ◌∷◌, ◌++◌, Bytes,
  Map, lookup, length, bytes_Eq, is_empty, pos, arith, if◌then◌else◌,
}
use htn_stratum_bridge.Stratum.Authorize.{Session, first_param, handle_authorize, authorize_count}
use htn_stratum_bridge.Stratum.Listen.{
  Event, Failure, deadline, failure, Handled, errs, ReadResult, call_handler, handle_event,
}
use htn_stratum_bridge.Stratum.Kept.{Keeps, listen-Keeps}
use htn_stratum_bridge.Vardiff.Stats.{lookup-AllWorkers}
use htn_stratum_bridge.Share.Stats.{stats_key}
use htn_stratum_bridge.Share.Tally.{Answer, replies, fails, panics, Consensus}
use htn_stratum_bridge.Share.Submit.{handle_submit}
use htn_stratum_bridge.Server.Miner.{
  World, Miner, subscribed, client, name_app, subscribe_replied, handle_subscribe,
  authorize_replied, authorize_accepted, serve_authorize, submit_answered, serve_submit, handlers,
  serve_miner,
}
use htn_stratum_bridge.Server.Growth.{
  missing, absent-le, Grown, get_create_stats-Grown, handle_submit-Grown,
}

abbrev key_of : Bytes → Session → Bytes
key_of addr s =
    stats_key
      (record { remote_addr = addr; wallet_addr = s.wallet_addr; worker_name = s.worker_name })

-- 1 where the session has a worker's name, and the map has no entry for it.
abbrev unnamed : {W : Type 0} → Bytes → Session → Map Bytes W → ℕ
unnamed addr s stats = if is_empty s.worker_name then 0 else missing (key_of addr s) stats

-- What the map holds, and what the connection can still bring, is at most `base`.
record HasRoom {W : Type 0} (base : ℕ) (addr : Bytes) (s : Session) (stats : Map Bytes W)
    : Type 0 where
  count : ℕ
  counted : s.authorize_count ≡ pos count
  few : count ≤ 4
  room : length stats + (4 - count) + missing addr stats + unnamed addr s stats ≤ base

module _ {W : Type 0} (base : ℕ) (addr : Bytes) where
  -- An entry of the client takes the place that was counted for it.
  Grown-HasRoom :
      (s : Session) (a b : Map Bytes W)
      → HasRoom base addr s a
      → Grown (key_of addr s) a b
      → HasRoom base addr s b
  Grown-HasRoom s a b h grown = record {
    count = h.count;
    counted = h.counted;
    few = h.few;
    room = go (is_empty s.worker_name) _ grown h.room;
  }
    where
      go :
          (empty : Bool) (full : Bytes)
          → Grown (if empty then addr else full) a b
          → length a
              + (4 - h.count)
              + missing addr a
              + (if empty then 0 else missing (if empty then addr else full) a)
            ≤ base
          → length b
              + (4 - h.count)
              + missing addr b
              + (if empty then 0 else missing (if empty then addr else full) b)
            ≤ base
      go true full (size, keys) room = omega (arith, size, room)
      go false full (size, keys) room = omega (arith, size, room, keys addr)

  -- An authorization takes one of the places that were counted for them.
  authorize-HasRoom :
      (s s' : Session) (stats : Map Bytes W) (h : HasRoom base addr s stats)
      → s'.authorize_count ≡ pos (h.count + 1)
      → h.count + 1 ≤ 4
      → HasRoom base addr s' stats
  authorize-HasRoom s s' stats h counted few = record {
    count = h.count + 1;
    counted = counted;
    few = few;
    room = go (is_empty s'.worker_name);
  }
    where
      go :
          (empty : Bool)
          → length stats
              + (4 - (h.count + 1))
              + missing addr stats
              + (if empty then 0 else missing (key_of addr s') stats)
            ≤ base
      go true = omega (arith, h.room)
      go false = omega (arith, h.room, few, absent-le (lookup (key_of addr s') stats))

abbrev Roomy : {F D : Type 0} → ℕ → Miner F D → Type 0
Roomy base m = HasRoom base m.remote_addr m.session m.handler.stats

-- Where the connection can go on there is room; where it ends the map is within bounds.
abbrev Bounded : {F D : Type 0} → ℕ → Handled (Miner F D) → Type 0
Bounded base h = Keeps (Roomy base) (λ m. length m.handler.stats ≤ base) h

module _ {F D : Type 0} (base : ℕ) where
  errs-Bounded : (e : Failure) (m : Miner F D) → Roomy base m → Bounded base (errs e m)
  errs-Bounded deadline m h = h
  errs-Bounded failure m h = omega (arith, h.room)

  handle_subscribe-Bounded :
      (world : World) (event : Event) (m : Miner F D)
      → Roomy base m
      → Bounded base (handle_subscribe world event m)
  unfolding handle_subscribe
  handle_subscribe-Bounded world event m h = go world.reply
    where
      named :
          (app : Option Bytes)
          → Roomy base (name_app app (record m { outputs = m.outputs ++ (subscribed ∷ []) }))
      named none = h
      named (some app) = h

      go : (reply : Option Failure) → Bounded base (subscribe_replied event.params m reply)
      go (some e) = errs-Bounded e m h
      go none = named (first_param event.params)

module _ {F D : Type 0} (zero_f : F) (add : F → F → F) (base : ℕ) where
  serve_submit-Bounded :
      (consensus : Consensus D) (world : World) (event : Event) (m : Miner F D)
      → Roomy base m
      → Bounded base (serve_submit zero_f add consensus world event m)
  unfolding serve_submit
  serve_submit-Bounded consensus world event m h =
      go _
        (Grown-HasRoom base m.remote_addr m.session m.handler.stats _ h (
          handle_submit-Grown zero_f add consensus world.node world.now world.now_ms (client m)
            event.params m.mining m.handler))
        (handle_submit zero_f add consensus world.node world.now world.now_ms (client m)
          event.params m.mining m.handler).answer
    where
      go :
          (m' : Miner F D)
          → Roomy base m'
          → (answer : Answer) → Bounded base (submit_answered zero_f add m' answer)
      go m' h' panics = omega (arith, h'.room)
      go m' h' fails = h'
      go m' h' (replies reply) = h'

  serve_authorize-Bounded :
      (decodes : Bytes → Bytes → Bool) (world : World) (event : Event) (m : Miner F D)
      → Roomy base m
      → Bounded base (serve_authorize zero_f add decodes world event m)
  unfolding serve_authorize
  serve_authorize-Bounded decodes world event m h =
      go (handle_authorize decodes event.params m.session).0
        (handle_authorize decodes event.params m.session).1
        (authorize_count decodes event.params m.session h.count h.counted h.few)
    where
      replied :
          (m' : Miner F D) (reply : Option Failure)
          → Roomy base m'
          → Bounded base (authorize_replied zero_f add world m' reply)
      replied m' (some e) h' = errs-Bounded base e m' h'
      replied m' none h' =
          Grown-HasRoom base m'.remote_addr m'.session m'.handler.stats _ h'
            (get_create_stats-Grown zero_f add world.now (client m') m'.handler.stats)

      go :
          (s : Session) (accepted : Bool)
          → (accepted ≡ true → (s.authorize_count ≡ pos (h.count + 1)) × (h.count + 1 ≤ 4))
          → Bounded base (authorize_accepted zero_f add world m (s, accepted))
      go s false counts = omega (arith, h.room)
      go s true counts =
          let (counted, few) = counts refl in
          replied (record m { session = s }) world.reply
            (authorize-HasRoom base m.remote_addr m.session s m.handler.stats h counted few)

  handle_event-Bounded :
      (decodes : Bytes → Bytes → Bool) (consensus : Consensus D) (world : World) (event : Event)
      (m : Miner F D)
      → Roomy base m
      → Bounded base (handle_event (handlers zero_f add decodes consensus world) event m)
  unfolding handle_event
  handle_event-Bounded decodes consensus world event m h =
      go (lookup event.method (handlers zero_f add decodes consensus world)) (λ handler found.
        lookup-AllWorkers (λ f. Bounded base (f event m)) event.method handler
          (handlers zero_f add decodes consensus world)
          (
            handle_subscribe-Bounded base world event m h,
            (
              serve_authorize-Bounded decodes world event m h,
              (serve_submit-Bounded consensus world event m h, tt),
            ),
          )
          found)
    where
      go :
          (handler : Option (Event → Miner F D → Handled (Miner F D)))
          → ((f : Event → Miner F D → Handled (Miner F D))
              → handler ≡ some f
              → Bounded base (f event m))
          → Bounded base (call_handler handler event m)
      go none bounded = h
      go (some f) bounded = bounded f refl

module _ {F D : Type 0} (zero_f : F) (add : F → F → F) where
  -- A connection that has not authorized yet, and so has no worker's name, brings at most five workers
  -- into the map, whatever it
  -- sends and however the reads cut it up: one for its address and one for each of the four authorize
  -- requests that are accepted.
  pub workers_bound :
      (decodes : Bytes → Bytes → Bool) (unmarshal : Bytes → Option Event) (consensus : Consensus D)
      (worlds : ℕ → World) (reads : List (ReadResult × Bool)) (m : Miner F D)
      → m.session.authorize_count ≡ pos 0
      → m.session.worker_name ≡ []
      → length (serve_miner zero_f add decodes unmarshal consensus worlds reads m).0.handler.stats
        ≤ length m.handler.stats + 5
  unfolding serve_miner
  workers_bound decodes unmarshal consensus worlds reads m none_yet unnamed =
      let base = length m.handler.stats + 5 in
      listen-Keeps _ unmarshal (Roomy base) (λ m'. length m'.handler.stats ≤ base)
        (λ m' h. omega (arith, h.room))
        (λ line event m' parsed h.
          handle_event-Bounded zero_f add base decodes consensus (worlds (length m'.outputs)) event
            m' h)
        reads m
        (record {
          count = 0;
          counted = none_yet;
          few = omega arith;
          room = rw unnamed (omega (arith, absent-le (lookup m.remote_addr m.handler.stats)));
        })
