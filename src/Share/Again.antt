-- ===== src/Share/Again.antt =====
-- `HandleSubmit` of src/htnstratum/share_handler.go: a job whose block went to the node is spent.
use htn_stratum_bridge.Prelude.{
  ℕ, ◌≡◌, refl, ap, ◌∙◌, inl, inr, Option, none, some, List, [], ◌∷◌, Bytes, ℤ, parse_int,
  Option-cases, arith,
}
use htn_stratum_bridge.Rpc.{Block}
use htn_stratum_bridge.Mining.{MiningState, get_job, remove_job}
use htn_stratum_bridge.Stratum.{Param, text, other, Client}
use htn_stratum_bridge.Share.{SubmitInfo, missing_job, valid, invalid, validate_submit, read_rest}
use htn_stratum_bridge.Share.Tally.{stale_share, replies, SubmitNode, Consensus, ShareHandler}
use htn_stratum_bridge.Share.Submit.{handle_submit}
use htn_stratum_bridge.Share.Effects.{submitted, get_job-remove_job}
use htn_stratum_bridge.Share.Checks.{handle_submit-Submission}

read_rest-job_id :
    (parse_hash : Bytes → Option Bytes) (id : ℤ) (block : Option Block) (nonce pow : Param)
    (si : SubmitInfo)
    → read_rest parse_hash id block nonce pow ≡ valid si
    → si.job_id ≡ id
read_rest-job_id parse_hash id block nonce pow si e = ground arith

-- The job of a valid submission can be removed, and is then missing.
validate_submit-removed :
    {F : Type 0} (parse_hash : Bytes → Option Bytes) (params : List Param) (s : MiningState F)
    (si : SubmitInfo)
    → validate_submit parse_hash params s ≡ valid si
    → validate_submit parse_hash params (remove_job si.job_id s) ≡ invalid missing_job
unfolding validate_submit
validate_submit-removed parse_hash [] s si v = absurd (ground arith)
validate_submit-removed parse_hash (a ∷ []) s si v = absurd (ground arith)
validate_submit-removed parse_hash (a ∷ b ∷ []) s si v = absurd (ground arith)
validate_submit-removed parse_hash (a ∷ b ∷ c ∷ []) s si v = absurd (ground arith)
validate_submit-removed parse_hash (worker ∷ other ∷ nonce ∷ pow ∷ more) s si v =
    absurd (ground arith)
validate_submit-removed parse_hash (worker ∷ text t ∷ nonce ∷ pow ∷ more) s si v =
    elim (Option-cases (parse_int t)) [
      | inl unread ↦ absurd (ground arith)
      | inr (id, read) ↦ elim (Option-cases (get_job id s)) [
        | inl missing ↦ absurd (ground arith)
        | inr (block, there) ↦
            let same : si.job_id ≡ id =
              read_rest-job_id parse_hash id block nonce pow si (ground arith) in
            let gone : get_job id (remove_job si.job_id s) ≡ none =
              ap (λ k. get_job id (remove_job k s)) same ∙ get_job-remove_job id s in
            rw (read, validate_submit, gone) refl
      ]
    ]

module _ {F D : Type 0} (zero_f : F) (add : F → F → F) (consensus : Consensus D) (node : SubmitNode)
    (now now_ms : ℕ) (ctx : Client) where
  missing_answer :
      (params : List Param) (s : MiningState F) (h : ShareHandler F)
      → validate_submit consensus.parse_hash params s ≡ invalid missing_job
      → let o = handle_submit zero_f add consensus node now now_ms ctx params s h in
        (o.answer ≡ replies stale_share) × (submitted o.effects ≡ none) × (o.handler ≡ h)
  unfolding handle_submit submitted
  missing_answer params s h e = rw e (refl, refl, refl)

module _ {F D : Type 0} (zero_f : F) (add : F → F → F) (consensus : Consensus D) (node : SubmitNode)
    (now now_ms : ℕ) (ctx : Client) where
  -- After a submission whose block was handed to the node, whatever the node answered, the same
  -- submission, from any client that shares these jobs, is answered as stale, at any later time
  -- and in any state of the handler; it submits no block and counts nothing.
  pub second_submission :
      (params : List Param) (s : MiningState F) (h h' : ShareHandler F) (d : D) (later : SubmitNode)
      (now' now_ms' : ℕ) (ctx' : Client)
      → let o = handle_submit zero_f add consensus node now now_ms ctx params s h in
        submitted o.effects ≡ some d
        → let again =
            handle_submit zero_f add consensus later now' now_ms' ctx' params o.mining h' in
          (again.answer ≡ replies stale_share)
          × (submitted again.effects ≡ none)
          × (again.handler ≡ h')
  second_submission params s h h' d later now' now_ms' ctx' e =
      let done = handle_submit-Submission zero_f add consensus node now now_ms ctx params s h d e in
      let o = handle_submit zero_f add consensus node now now_ms ctx params s h in
      missing_answer zero_f add consensus later now' now_ms' ctx' params o.mining h' (
        ap (λ m. validate_submit consensus.parse_hash params m) done.justified.gone
        ∙ validate_submit-removed consensus.parse_hash params s done.si done.well_formed)
