-- ===== src/Server/Submits.antt =====
-- What a connection of src/gostratum hands to the node, under the handlers of
-- src/htnstratum/stratum_server.go.
use htn_stratum_bridge.Prelude.{
  ℕ, ◌≡◌, refl, Bool, true, false, Option, none, some, List, [], ◌∷◌, ◌++◌, Bytes, lookup, bytes_Eq,
  length, is_empty, if◌then◌else◌,
}
use htn_stratum_bridge.Stratum.Authorize.{Session, first_param, handle_authorize}
use htn_stratum_bridge.Stratum.Listen.{
  Event, Failure, deadline, failure, Handled, goes_on, errs, panics_at, ReadResult, call_handler,
  handle_event,
}
use htn_stratum_bridge.Stratum.Kept.{Keeps, listen-Keeps}
use htn_stratum_bridge.Share.Tally.{Answer, replies, fails, panics, Effect, Consensus}
use htn_stratum_bridge.Share.Submit.{Outcome, handle_submit}
use htn_stratum_bridge.Share.Effects.{submitted}
use htn_stratum_bridge.Share.Checks.{Submission, handle_submit-Submission}
use htn_stratum_bridge.Vardiff.Stats.{lookup-AllWorkers}
use htn_stratum_bridge.Server.Positions.{AllFrom, AllFrom-append, AllFrom-at}
use htn_stratum_bridge.Server.Miner.{
  World, Miner, Output, subscribed, authorized, sets_extranonce, submission, client, name_app,
  subscribe_replied, handle_subscribe, welcome, authorize_replied, authorize_accepted,
  serve_authorize, submit_answered, serve_submit, handlers, serve_miner,
}

module _ {F D : Type 0} (zero_f : F) (add : F → F → F) (consensus : Consensus D)
    (decodes : Bytes → Bytes → Bool) (unmarshal : Bytes → Option Event) (worlds : ℕ → World)
    (start : Miner F D) where
  -- How a connection handles an event in a state.
  abbrev pub handled : Event → Miner F D → Handled (Miner F D)
  handled event m =
      handle_event (handlers zero_f add decodes consensus (worlds (length m.outputs))) event m

  -- The states of a connection between the messages it handles, from its start.
  pub data Passes : Miner F D → Type 0 where
    here : Passes start
    handles :
        {m m' : Miner F D} (line : Bytes) (event : Event)
        → Passes m
        → unmarshal line ≡ some event
        → handled event m ≡ goes_on m'
        → Passes m'
    waits :
        {m m' : Miner F D} (line : Bytes) (event : Event)
        → Passes m
        → unmarshal line ≡ some event
        → handled event m ≡ errs deadline m'
        → Passes m'

  -- Where a submission comes from that handed a block to the node, and that `before` precedes: a
  -- message in a state that the connection passed through, and the run of `HandleSubmit` there.
  pub record Origin (before : List (Output D)) (answer : Answer) (effects : List (Effect D)) (d : D)
      : Type 0 where
    pub at : Miner F D
    pub passes : Passes at
    pub written : at.outputs ≡ before
    pub line : Bytes
    pub event : Event
    pub reads : unmarshal line ≡ some event
    pub outcome : Outcome F D
    pub runs :
        let world = worlds (length before) in
        outcome
        ≡ handle_submit zero_f add consensus world.node world.now world.now_ms
            (client at)
            event.params
            at.mining
            at.handler
    pub answered : answer ≡ outcome.answer
    pub done : effects ≡ outcome.effects
    pub passed :
        let world = worlds (length before) in
        Submission zero_f add consensus world.node world.now world.now_ms
          (client at)
          event.params
          at.mining
          at.handler
          d
          outcome

  abbrev IsJustified : List (Output D) → Output D → Type 0
  IsJustified before subscribed = Unit
  IsJustified before authorized = Unit
  IsJustified before (sets_extranonce e) = Unit
  IsJustified before (submission answer effects) =
      (d : D) → submitted effects ≡ some d → Origin before answer effects d

  abbrev Justified : Miner F D → Type 0
  Justified m = AllFrom IsJustified [] m.outputs

  abbrev Kept : Handled (Miner F D) → Type 0
  Kept h = Keeps Justified Justified h

  errs-Kept : (e : Failure) (m : Miner F D) → Justified m → Kept (errs e m)
  errs-Kept deadline m j = j
  errs-Kept failure m j = j

  handle_subscribe-Kept :
      (world : World) (event : Event) (m : Miner F D)
      → Justified m
      → Kept (handle_subscribe world event m)
  unfolding handle_subscribe
  handle_subscribe-Kept world event m j = go world.reply
    where
      named :
          (app : Option Bytes)
          → Justified (name_app app (record m { outputs = m.outputs ++ (subscribed ∷ []) }))
      named none = AllFrom-append IsJustified [] m.outputs (subscribed ∷ []) j (tt, tt)
      named (some app) = AllFrom-append IsJustified [] m.outputs (subscribed ∷ []) j (tt, tt)

      go : (reply : Option Failure) → Kept (subscribe_replied event.params m reply)
      go (some e) = errs-Kept e m j
      go none = named (first_param event.params)

  serve_authorize-Kept :
      (world : World) (event : Event) (m : Miner F D)
      → Justified m
      → Kept (serve_authorize zero_f add decodes world event m)
  unfolding serve_authorize
  serve_authorize-Kept world event m j =
      go (handle_authorize decodes event.params m.session).0
        (handle_authorize decodes event.params m.session).1
    where
      greeted : (m' : Miner F D) → AllFrom IsJustified m'.outputs (welcome zero_f add m')
      greeted m' = hello (is_empty m'.extranonce)
        where
          hello :
              (empty : Bool)
              → AllFrom IsJustified m'.outputs
                  (authorized ∷ (if empty then [] else sets_extranonce m'.extranonce ∷ []))
          hello true = (tt, tt)
          hello false = (tt, (tt, tt))

      replied :
          (m' : Miner F D) (reply : Option Failure)
          → Justified m'
          → Kept (authorize_replied zero_f add world m' reply)
      replied m' (some e) j' = errs-Kept e m' j'
      replied m' none j' =
          AllFrom-append IsJustified [] m'.outputs (welcome zero_f add m') j' (greeted m')

      go :
          (s : Session) (accepted : Bool)
          → Kept (authorize_accepted zero_f add world m (s, accepted))
      go s false = j
      go s true = replied (record m { session = s }) world.reply j

  serve_submit-Kept :
      (line : Bytes) (event : Event) (m : Miner F D)
      → unmarshal line ≡ some event
      → Passes m
      → Justified m
      → Kept (serve_submit zero_f add consensus (worlds (length m.outputs)) event m)
  unfolding serve_submit
  serve_submit-Kept line event m parsed passes j =
      let world = worlds (length m.outputs) in
      let o =
        handle_submit zero_f add consensus world.node world.now world.now_ms (client m) event.params
          m.mining m.handler in
      go _
        (AllFrom-append IsJustified [] m.outputs (submission o.answer o.effects ∷ []) j (
          λ d e. record {
            at = m;
            passes = passes;
            written = refl;
            line = line;
            event = event;
            reads = parsed;
            outcome = o;
            runs = refl;
            answered = refl;
            done = refl;
            passed =
                handle_submit-Submission zero_f add consensus world.node world.now world.now_ms
                  (client m) event.params m.mining m.handler d e;
          },
          tt,
        ))
        o.answer
    where
      go :
          (m' : Miner F D)
          → Justified m'
          → (answer : Answer) → Kept (submit_answered zero_f add m' answer)
      go m' j' panics = j'
      go m' j' fails = j'
      go m' j' (replies reply) = j'

  handled-Kept :
      (line : Bytes) (event : Event) (m : Miner F D)
      → unmarshal line ≡ some event
      → Passes m
      → Justified m
      → Kept (handled event m)
  unfolding handle_event
  handled-Kept line event m parsed passes j =
      go (lookup event.method (handlers zero_f add decodes consensus world)) (λ handler found.
        lookup-AllWorkers (λ f. Kept (f event m)) event.method handler
          (handlers zero_f add decodes consensus world)
          (
            handle_subscribe-Kept world event m j,
            (
              serve_authorize-Kept world event m j,
              (serve_submit-Kept line event m parsed passes j, tt),
            ),
          )
          found)
    where
      world : World
      world = worlds (length m.outputs)

      go :
          (handler : Option (Event → Miner F D → Handled (Miner F D)))
          → ((f : Event → Miner F D → Handled (Miner F D)) → handler ≡ some f → Kept (f event m))
          → Kept (call_handler handler event m)
      go none kept = j
      go (some f) kept = kept f refl

  abbrev OnItsWay : Miner F D → Type 0
  OnItsWay m = Passes m × Justified m

  handled-OnItsWay :
      (line : Bytes) (event : Event) (m : Miner F D)
      → unmarshal line ≡ some event
      → OnItsWay m
      → Keeps OnItsWay Justified (handled event m)
  handled-OnItsWay line event m parsed (passes, j) =
      go (handled event m) refl (handled-Kept line event m parsed passes j)
    where
      go : (h : Handled (Miner F D)) → handled event m ≡ h → Kept h → Keeps OnItsWay Justified h
      go (goes_on m') e k = (handles line event passes parsed e, k)
      go (errs deadline m') e k = (waits line event passes parsed e, k)
      go (errs failure m') e k = k
      go (panics_at m') e k = k

  serve_miner-Justified :
      (reads : List (ReadResult × Bool))
      → start.outputs ≡ []
      → Justified (serve_miner zero_f add decodes unmarshal consensus worlds reads start).0
  unfolding serve_miner
  serve_miner-Justified reads none_yet =
      listen-Keeps handled unmarshal OnItsWay Justified (λ m i. i.1) handled-OnItsWay reads start
        (here, rw none_yet tt)

  -- Whatever bytes a connection sends that has written nothing yet, and however the reads cut them
  -- up: a submission among its outputs that handed a block to the node is the outcome of
  -- `HandleSubmit` for a message in a state that the connection passed through, with the outputs
  -- so far of that state, and passed every test of it there.
  pub serve_submits :
      (reads : List (ReadResult × Bool)) (before after : List (Output D)) (answer : Answer)
      (effects : List (Effect D)) (d : D)
      → start.outputs ≡ []
      → (serve_miner zero_f add decodes unmarshal consensus worlds reads start).0.outputs
        ≡ before ++ (submission answer effects ∷ after)
      → submitted effects ≡ some d
      → Origin before answer effects d
  serve_submits reads before after answer effects d none_yet outputs to_node =
      AllFrom-at IsJustified [] before (submission answer effects) after
        (rw outputs at (serve_miner-Justified reads none_yet)) d to_node
