-- ===== src/Clients/Job.antt =====
-- `NewBlockAvailable` of src/htnstratum/client_handler.go: what one client is sent when the node
-- has a new template, and `CalculateTarget`, `setDiffValue` of src/htnstratum/hasher.go.
use htn_stratum_bridge.Prelude.{
  ℕ, ◌-◌, ◌*◌, ◌^◌, ◌/◌, ◌%◌, Bool, true, false, Option, none, some, List, [], ◌∷◌, ◌++◌, Bytes,
  is_empty, leb, ℤ, if◌then◌else◌,
}
use htn_stratum_bridge.Rpc.{Block}
use htn_stratum_bridge.Hasher.{
  serialize_block_header, generate_job_header, generate_large_job_params,
}
use htn_stratum_bridge.Mining.{Diff, MiningState, add_job}

-- `ErrorShortCodeT`
pub data ErrorCode : Type 0 where
  no_miner_address : ErrorCode
  invalid_address_fmt : ErrorCode
  failed_block_fetch : ErrorCode
  missing_job : ErrorCode
  bad_data_from_miner : ErrorCode
  failed_set_diff : ErrorCode
  failed_send_work : ErrorCode
  disconnected : ErrorCode

-- The parameters of `mining.notify`: those of the large form, or header and timestamp.
pub data Job : Type 0 where
  big_job : Bytes → Job
  plain_job : List ℕ → ℕ → Job

-- What the thread does beside its writes to the mining state. A message counts when it is handed
-- to `Send`, whether it goes through or not.
pub data Action (F : Type 0) : Type 0 where
  sends_difficulty : F → Action F
  sends_job : ℤ → Job → Action F
  records_error : ErrorCode → Action F
  disconnects : Action F
  sets_client_vardiff : F → Action F
  sets_solo_diff : F → Action F
  starts_client_vardiff : Action F
  records_new_job : Action F

-- What `Send` answers.
pub data Sent : Type 0 where
  went_through : Sent
  is_disconnected : Sent
  failed : Sent

-- What `GetBlockTemplate` answers: a block and whether it pays the bridge, or an error, with
-- whether it says that the address could not be decoded.
pub data TemplateAnswer : Type 0 where
  template : Option Block → Bool → TemplateAnswer
  error : Bool → TemplateAnswer

-- The float operations that the thread uses.
pub record Floats (F : Type 0) : Type 0 where
  pub zero_diff : F
  pub same : F → F → Bool
  pub diff_to_target : F → ℤ
  pub diff_to_hash : F → F
  pub target_to_diff : ℕ → F

-- What the thread reads: the listener's settings, the client, and what its calls answer.
pub record Recipient (F : Type 0) : Type 0 where
  pub floats : Floats F
  pub min_share_diff : F
  pub solo_mining : Bool
  pub wallet_addr : Bytes
  pub is_big_miner : Bool
  pub timed_out : Bool
  pub answer : TemplateAnswer
  pub blake3 : Bytes → Bytes
  pub vardiff : F
  pub send_difficulty : F → Sent
  pub send_job : Sent

-- `CalculateTarget`, of 32 bits.
unfoldable pub calculate_target : ℕ → ℕ
calculate_target bits =
    let truncated = bits / 2 ^ 24 in
    let mantissa = bits % 2 ^ 24 in
    if leb truncated 3
    then mantissa / 2 ^ (8 * (3 - truncated))
    else mantissa * 2 ^ (8 * (truncated - 3))

-- `none` is a slice out of range.
abbrev pub job_of : Bool → Bytes → ℕ → Option Job
job_of true header timestamp = elim (generate_large_job_params header timestamp) [
  | none ↦ none
  | some text ↦ some (big_job text)
]
job_of false header timestamp = elim (generate_job_header header) [
  | none ↦ none
  | some words ↦ some (plain_job words timestamp)
]

module _ {F : Type 0} where
  unfoldable pub set_diff_value : Floats F → F → Diff F
  set_diff_value floats diff = record {
    hash_value = floats.diff_to_hash diff;
    diff_value = diff;
    target_value = floats.diff_to_target diff;
  }

  abbrev pub diff_actions : F → Sent → List (Action F)
  diff_actions d went_through = sends_difficulty d ∷ []
  diff_actions d is_disconnected = sends_difficulty d ∷ records_error disconnected ∷ []
  diff_actions d failed = sends_difficulty d ∷ records_error failed_set_diff ∷ []

  -- `sendClientDiff`
  unfoldable pub send_client_diff : Recipient F → F → List (Action F)
  send_client_diff client d = diff_actions d (client.send_difficulty d)

  -- `if !state.initialized`
  unfoldable pub initialize : Recipient F → MiningState F → MiningState F × List (Action F)
  unfolding send_client_diff
  initialize client s =
      let diff = client.min_share_diff in
      if s.initialized then (s, []) else (
        record s {
          initialized = true;
          use_big_job = client.is_big_miner;
          stratum_diff = some (set_diff_value client.floats diff);
        },
        (if client.solo_mining then [] else send_client_diff client diff)
            ++ (sets_client_vardiff diff ∷ []),
      )

  -- `setDiffValue` with what follows it, where the difficulty changes.
  unfoldable pub change_diff : Recipient F → F → MiningState F → MiningState F × List (Action F)
  unfolding send_client_diff
  change_diff client d s = (
    record s { stratum_diff = some (set_diff_value client.floats d) },
    send_client_diff client d ++ (starts_client_vardiff ∷ []),
  )

  -- `if varDiff == 0` and `state.stratumDiff == nil`: the default.
  abbrev pub fall_back : Recipient F → Bool → Option (Diff F) → Option (Diff F)
  fall_back client zero (some diff) = some diff
  fall_back client false none = none
  fall_back client true none = some (set_diff_value client.floats client.min_share_diff)

  -- The second `if` on the difficulty: whether it changes, and to what.
  abbrev pub change_to : Recipient F → F → Bool → Option (Diff F) → Option F
  change_to client var zero none = some var
  change_to client var zero (some diff) =
      let wanted = if zero then diff.diff_value else var in
      if client.floats.same wanted diff.diff_value then none else some wanted

  abbrev pub apply_change :
      Recipient F → F → Option F → MiningState F → MiningState F × List (Action F)
  apply_change client solo none s = (s, sets_solo_diff solo ∷ [])
  apply_change client solo (some d) s =
      let (s', acts) = change_diff client d s in (s', sets_solo_diff solo ∷ acts)

  -- From the computation of `varDiff` to the message that sets it.
  unfoldable pub adjust : Recipient F → MiningState F → MiningState F × List (Action F)
  unfolding change_diff
  adjust client s =
      let solo = client.floats.target_to_diff s.big_diff in
      let var = if client.solo_mining then solo else client.vardiff in
      let zero = client.floats.same var client.floats.zero_diff in
      let current = fall_back client zero s.stratum_diff in
      apply_change client solo (change_to client var zero current)
        (record s { stratum_diff = current })

  abbrev pub after_send : Sent → List (Action F)
  after_send went_through = records_new_job ∷ []
  after_send is_disconnected = records_error disconnected ∷ []
  after_send failed = records_error failed_send_work ∷ records_new_job ∷ []

  -- The end of the thread: the job is sent, if there is one.
  abbrev pub with_job :
      Recipient F
      → ℤ
      → MiningState F
      → List (Action F)
      → Option Job
      → Option (MiningState F × List (Action F))
  with_job client id s before none = none
  with_job client id s before (some job) =
      some (s, before ++ (sends_job id job ∷ after_send client.send_job))

  -- The rest of the thread, from the serialized header on.
  unfoldable pub send_work :
      Recipient F
      → Block
      → Bool
      → ℕ
      → Bytes
      → MiningState F
      → Option (MiningState F × List (Action F))
  unfolding initialize adjust generate_job_header generate_large_job_params
  send_work client block is_fee timestamp header s =
      let (added, id) = add_job (some block) is_fee s in
      let (started, first) = initialize client added in
      let (adjusted, second) = adjust client started in
      with_job client id adjusted (first ++ second) (job_of adjusted.use_big_job header timestamp)

  -- What follows `SerializeBlockHeader`.
  abbrev pub work :
      Recipient F
      → Block
      → Bool
      → ℕ
      → Option Bytes
      → MiningState F
      → Option (MiningState F × List (Action F))
  work client block is_fee timestamp none s = some (s, records_error bad_data_from_miner ∷ [])
  work client block is_fee timestamp (some header) s =
      send_work client block is_fee timestamp header s

  -- What follows `GetBlockTemplate`; `none` is a dereference of nil.
  unfoldable pub respond :
      Recipient F → MiningState F → TemplateAnswer → Option (MiningState F × List (Action F))
  unfolding calculate_target send_work serialize_block_header
  respond client s (error true) = some (s, records_error invalid_address_fmt ∷ disconnects ∷ [])
  respond client s (error false) = some (s, records_error failed_block_fetch ∷ [])
  respond client s (template none is_fee) = none
  respond client s (template (some block) is_fee) = elim block.header [
    | none ↦ none
    | some h ↦
        let targeted = record s { big_diff = calculate_target h.bits } in
        work client block is_fee h.timestamp (serialize_block_header client.blake3 h) targeted
  ]

  -- A client that has not authorized in 20 seconds is disconnected.
  abbrev pub give_up : Bool → List (Action F)
  give_up timed_out = if timed_out then records_error no_miner_address ∷ disconnects ∷ [] else []

  -- The thread of one client.
  unfoldable pub notify : Recipient F → MiningState F → Option (MiningState F × List (Action F))
  unfolding respond
  notify client s =
      if is_empty client.wallet_addr
      then some (s, give_up client.timed_out)
      else respond client s client.answer
