-- ===== src/Server/Miner.antt =====
-- The handlers that `ListenAndServe` of src/htnstratum/stratum_server.go installs, `HandleSubscribe`
-- and the end of `HandleAuthorize` of src/gostratum/default_client.go, and a miner's connection under
-- them.
use htn_stratum_bridge.Prelude.{
  ℕ, Bool, true, false, Option, none, some, List, [], ◌∷◌, ◌++◌, length, Bytes, codes, Map,
  is_empty, bytes_Eq, if◌then◌else◌,
}
use htn_stratum_bridge.Mining.{MiningState}
use htn_stratum_bridge.Stratum.{Param, Client}
use htn_stratum_bridge.Stratum.Authorize.{Session, first_param, handle_authorize}
use htn_stratum_bridge.Stratum.Listen.{
  Event, Failure, failure, Handled, goes_on, errs, panics_at, ReadResult, handle_event, listen,
}
use htn_stratum_bridge.Share.Stats.{get_create_stats}
use htn_stratum_bridge.Share.Tally.{
  Answer, replies, fails, panics, Effect, SubmitNode, Consensus, ShareHandler,
}
use htn_stratum_bridge.Share.Submit.{Outcome, handle_submit}

-- What the calls that a handler makes answer: `Reply` has an error, or none.
pub record World : Type 0 where
  pub now : ℕ
  pub now_ms : ℕ
  pub node : SubmitNode
  pub reply : Option Failure

-- The messages of the handlers beside those of a submission, and what a submission does.
pub data Output (D : Type 0) : Type 0 where
  subscribed : Output D
  authorized : Output D
  sets_extranonce : Bytes → Output D
  submission : Answer → List (Effect D) → Output D

-- A `StratumContext` with its mining state, and the share handler that all connections share.
pub record Miner (F D : Type 0) : Type 0 where
  pub session : Session
  pub remote_addr : Bytes
  pub remote_app : Bytes
  pub extranonce : Bytes
  pub mining : MiningState F
  pub handler : ShareHandler F
  pub outputs : List (Output D)

module _ {F D : Type 0} where
  abbrev pub client : Miner F D → Client
  client m = record {
    remote_addr = m.remote_addr;
    wallet_addr = m.session.wallet_addr;
    worker_name = m.session.worker_name;
  }

  abbrev pub name_app : Option Bytes → Miner F D → Miner F D
  name_app none m = m
  name_app (some app) m = record m { remote_app = app }

  abbrev pub subscribe_replied : List Param → Miner F D → Option Failure → Handled (Miner F D)
  subscribe_replied params m (some e) = errs e m
  subscribe_replied params m none =
      goes_on
        (name_app (first_param params) (record m { outputs = m.outputs ++ (subscribed ∷ []) }))

  -- `HandleSubscribe`
  unfoldable pub handle_subscribe : World → Event → Miner F D → Handled (Miner F D)
  handle_subscribe world event m = subscribe_replied event.params m world.reply

module _ {F D : Type 0} (zero_f : F) (add : F → F → F) where
  -- `getCreateStats` after an authorization.
  abbrev pub create_stats : World → Miner F D → Miner F D
  create_stats world m = record m {
    handler = record m.handler {
      stats = (get_create_stats zero_f add world.now (client m) m.handler.stats).0;
    };
  }

  abbrev pub welcome : Miner F D → List (Output D)
  welcome m = authorized ∷ (if is_empty m.extranonce then [] else sets_extranonce m.extranonce ∷ [])

  abbrev pub authorize_replied : World → Miner F D → Option Failure → Handled (Miner F D)
  authorize_replied world m (some e) = errs e m
  authorize_replied world m none =
      goes_on (create_stats world (record m { outputs = m.outputs ++ welcome m }))

  abbrev pub authorize_accepted : World → Miner F D → Session × Bool → Handled (Miner F D)
  authorize_accepted world m (s, false) = errs failure (record m { session = s })
  authorize_accepted world m (s, true) =
      authorize_replied world (record m { session = s }) world.reply

  -- The handler of `mining.authorize`.
  unfoldable pub serve_authorize :
      (Bytes → Bytes → Bool) → World → Event → Miner F D → Handled (Miner F D)
  serve_authorize decodes world event m =
      authorize_accepted world m (handle_authorize decodes event.params m.session)

  -- The handler of `mining.submit` only prints an error of `HandleSubmit`, but not a panic.
  abbrev pub submit_answered : Miner F D → Answer → Handled (Miner F D)
  submit_answered m panics = panics_at m
  submit_answered m (replies reply) = goes_on m
  submit_answered m fails = goes_on m

  abbrev pub submit_done : Miner F D → Outcome F D → Handled (Miner F D)
  submit_done m o =
      submit_answered
        (record m {
          mining = o.mining;
          handler = o.handler;
          outputs = m.outputs ++ (submission o.answer o.effects ∷ []);
        })
        o.answer

  unfoldable pub serve_submit : Consensus D → World → Event → Miner F D → Handled (Miner F D)
  serve_submit consensus world event m = submit_done m (
      handle_submit zero_f add consensus world.node world.now world.now_ms (client m) event.params
        m.mining m.handler)

  -- `DefaultHandlers` with two of them overridden.
  abbrev pub handlers :
      (Bytes → Bytes → Bool)
      → Consensus D
      → World
      → Map Bytes (Event → Miner F D → Handled (Miner F D))
  handlers decodes consensus world =
      (codes "mining.subscribe", handle_subscribe world)
      ∷ (codes "mining.authorize", serve_authorize decodes world)
      ∷ (codes "mining.submit", serve_submit consensus world)
      ∷ []

  -- A connection from its start. The calls of a handler answer by the number of outputs before it.
  unfoldable pub serve_miner :
      (Bytes → Bytes → Bool)
      → (Bytes → Option Event)
      → Consensus D
      → (ℕ → World)
      → List (ReadResult × Bool)
      → Miner F D
      → Miner F D × Bool
  unfolding listen handle_event handle_subscribe serve_authorize serve_submit
  serve_miner decodes unmarshal consensus worlds reads m =
      listen
        (λ event m. handle_event (handlers decodes consensus (worlds (length m.outputs))) event m)
        unmarshal reads m
