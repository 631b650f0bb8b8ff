-- ===== src/Clients/Told.antt =====
-- `NewBlockAvailable` of src/htnstratum/client_handler.go: the difficulty that a client was sent.
use htn_stratum_bridge.Prelude.{
  ℕ, ℤ, ap, ◌≡◌, ◌∙◌, ◌⊎◌, inl, inr, refl, Bool, true, false, Option, none, some, List, [], ◌∷◌,
  ◌++◌, Bytes, is_empty, if◌then◌else◌, arith,
}
use mathlib.Core.Path.{subst}
use htn_stratum_bridge.Rpc.{Header, Block}
use htn_stratum_bridge.Hasher.{serialize_block_header}
use htn_stratum_bridge.Mining.{
  Diff, MiningState, mining_state_generator, add_job, remove_job, clear_jobs,
}
use htn_stratum_bridge.Clients.Job.{
  Action, Job, job_of, with_job, sends_difficulty, Sent, went_through, is_disconnected, failed,
  TemplateAnswer, template, error, Recipient, diff_actions, set_diff_value, send_client_diff,
  initialize, change_diff, apply_change, adjust, after_send, send_work, work, respond, give_up,
  notify, calculate_target,
}

module _ {F : Type 0} where
  -- The last difficulty that a client was sent, after one more action.
  abbrev hear : Option F → Action F → Option F
  hear o (sends_difficulty d) = some d
  hear o _ = o

  abbrev pub last_told : Option F → List (Action F) → Option F
  last_told o [] = o
  last_told o (a ∷ acts) = last_told (hear o a) acts

  last_told-append :
      (o : Option F) (xs ys : List (Action F))
      → last_told o (xs ++ ys) ≡ last_told (last_told o xs) ys
  last_told-append o [] ys = refl
  last_told-append o (x ∷ xs) ys = last_told-append (hear o x) xs ys

  -- The difficulty of the state, if there is one, is the last one sent.
  abbrev pub IsTold : MiningState F → Option F → Type 0
  IsTold s o =
      ((s.initialized ≡ false) × (s.stratum_diff ≡ none))
      ⊎ ((d : Diff F) × (s.initialized ≡ true)
          × (s.stratum_diff ≡ some d)
          × (o ≡ some d.diff_value))

  abbrev InForce : MiningState F → Option F → Type 0
  InForce s o =
      (d : Diff F) × (s.initialized ≡ true) × (s.stratum_diff ≡ some d) × (o ≡ some d.diff_value)

  last_told-diff_actions :
      (o : Option F) (d : F) (r : Sent) (rest : List (Action F))
      → last_told o (diff_actions d r ++ rest) ≡ last_told (some d) rest
  last_told-diff_actions o d went_through rest = refl
  last_told-diff_actions o d is_disconnected rest = refl
  last_told-diff_actions o d failed rest = refl

  initialize-InForce :
      (client : Recipient F) (s : MiningState F) (o : Option F)
      → client.solo_mining ≡ false
      → IsTold s o
      → let (s', acts) = initialize client s in InForce s' (last_told o acts)
  unfolding initialize send_client_diff set_diff_value
  initialize-InForce client s o pool (inl (new, nothing)) =
      rw (new, pool)
        (
          set_diff_value client.floats client.min_share_diff,
          refl,
          refl,
          last_told-diff_actions o client.min_share_diff
              (client.send_difficulty client.min_share_diff) _,
        )
  initialize-InForce client s o pool (inr (d, old, there, told)) = rw old (d, refl, there, told)

  change-InForce :
      (client : Recipient F) (d : F) (s : MiningState F) (o : Option F)
      → s.initialized ≡ true
      → let (s', acts) = change_diff client d s in InForce s' (last_told o acts)
  unfolding change_diff send_client_diff set_diff_value
  change-InForce client d s o old = (
    set_diff_value client.floats d,
    old,
    refl,
    last_told-diff_actions o d (client.send_difficulty d) _,
  )

  apply_change-InForce :
      (client : Recipient F) (solo : F) (change : Option F) (s : MiningState F) (o : Option F)
      → InForce s o
      → let (s', acts) = apply_change client solo change s in InForce s' (last_told o acts)
  apply_change-InForce client solo none s o h = h
  apply_change-InForce client solo (some d) s o (_, old, _, _) = change-InForce client d s o old

  adjust-InForce :
      (client : Recipient F) (s : MiningState F) (o : Option F)
      → InForce s o
      → let (s', acts) = adjust client s in InForce s' (last_told o acts)
  unfolding adjust
  adjust-InForce client s o (d, old, there, told) =
      rw there (
        apply_change-InForce client _ _ (record s { stratum_diff = some d }) o (d, old, refl, told))

  last_told-after_send : (o : Option F) (r : Sent) → last_told o (after_send r) ≡ o
  last_told-after_send o went_through = refl
  last_told-after_send o is_disconnected = refl
  last_told-after_send o failed = refl

  -- What a thread that ends leaves behind.
  abbrev Leaves : Option F → Option (MiningState F × List (Action F)) → Type 0
  Leaves o none = Unit
  Leaves o (some (s, acts)) = IsTold s (last_told o acts)

  with_job-Leaves :
      (client : Recipient F) (id : ℤ) (s : MiningState F) (before : List (Action F))
      (job : Option Job) (o : Option F)
      → InForce s (last_told o before)
      → Leaves o (with_job client id s before job)
  with_job-Leaves client id s before none o h = tt
  with_job-Leaves client id s before (some job) o (d, old, there, told) =
      inr (
        d,
        old,
        there,
        last_told-append o before _ ∙ (last_told-after_send _ client.send_job ∙ told),
      )

  send_work-Leaves :
      (client : Recipient F) (block : Block) (is_fee : Bool) (timestamp : ℕ) (header : Bytes)
      (s : MiningState F) (o : Option F)
      → client.solo_mining ≡ false
      → IsTold s o
      → Leaves o (send_work client block is_fee timestamp header s)
  unfolding send_work add_job
  send_work-Leaves client block is_fee timestamp header s o pool t =
      let (added, id) = add_job (some block) is_fee s in
      let (started, first) = initialize client added in
      let (adjusted, second) = adjust client started in
      let (d, old, there, told) =
        adjust-InForce client started (last_told o first)
          (initialize-InForce client added o pool t) in
      with_job-Leaves client id adjusted (first ++ second)
        (job_of adjusted.use_big_job header timestamp) o
        (d, old, there, last_told-append o first second ∙ told)

  work-Leaves :
      (client : Recipient F) (block : Block) (is_fee : Bool) (timestamp : ℕ) (header : Option Bytes)
      (s : MiningState F) (o : Option F)
      → client.solo_mining ≡ false
      → IsTold s o
      → Leaves o (work client block is_fee timestamp header s)
  work-Leaves client block is_fee timestamp none s o pool t = t
  work-Leaves client block is_fee timestamp (some header) s o pool t =
      send_work-Leaves client block is_fee timestamp header s o pool t

  last_told-give_up : (o : Option F) (b : Bool) → last_told o (give_up b) ≡ o
  last_told-give_up o true = refl
  last_told-give_up o false = refl

  respond-Leaves :
      (client : Recipient F) (s : MiningState F) (o : Option F) (answer : TemplateAnswer)
      → client.solo_mining ≡ false
      → IsTold s o
      → Leaves o (respond client s answer)
  unfolding respond
  respond-Leaves client s o (error true) pool t = t
  respond-Leaves client s o (error false) pool t = t
  respond-Leaves client s o (template none is_fee) pool t = tt
  respond-Leaves client s o (template (some block) is_fee) pool t = go block.header
    where
      go :
          (header : Option Header)
          → Leaves o (elim header [
            | none ↦ none
            | some h ↦
                let targeted = record s { big_diff = calculate_target h.bits } in
                work client block is_fee h.timestamp
                  (serialize_block_header client.blake3 h)
                  targeted
          ])
      go none = tt
      go (some h) =
          work-Leaves client block is_fee h.timestamp (serialize_block_header client.blake3 h)
            (record s { big_diff = calculate_target h.bits }) o pool t

  notify-Leaves :
      (client : Recipient F) (s : MiningState F) (o : Option F)
      → client.solo_mining ≡ false
      → IsTold s o
      → Leaves o (notify client s)
  unfolding notify
  notify-Leaves client s o pool t = go (is_empty client.wallet_addr)
    where
      go :
          (b : Bool)
          → Leaves o
              (if b then some (s, give_up client.timed_out) else respond client s client.answer)
      go true = rw (last_told-give_up o client.timed_out) t
      go false = respond-Leaves client s o client.answer pool t

module _ {F : Type 0} where
  -- What a client of a pool can have gone through, with the last difficulty it was sent: templates,
  -- and shares, which remove jobs.
  pub data Served : MiningState F → Option F → Type 0 where
    connects : (now : ℕ) → Served (mining_state_generator now) none
    is_notified :
        (client : Recipient F) (s s' : MiningState F) (o : Option F) (acts : List (Action F))
        → client.solo_mining ≡ false
        → Served s o
        → notify client s ≡ some (s', acts)
        → Served s' (last_told o acts)
    submits : (id : ℤ) (s : MiningState F) (o : Option F) → Served s o → Served (remove_job id s) o
    clears : (s : MiningState F) (o : Option F) → Served s o → Served (clear_jobs s) o

  Served-IsTold : (s : MiningState F) (o : Option F) → Served s o → IsTold s o
  unfolding mining_state_generator remove_job clear_jobs
  Served-IsTold s o (connects now) = inl (refl, refl)
  Served-IsTold s' o' (is_notified client s _ told acts pool before e) =
      subst (Leaves told) e (notify-Leaves client s told pool (Served-IsTold s told before))
  Served-IsTold s' o' (submits id s o before) = Served-IsTold s o before
  Served-IsTold s' o' (clears s o before) = Served-IsTold s o before

  -- In a pool, the difficulty that the shares of a client are judged by, if there is one, is the
  -- last one that was handed to the client's connection, after any sequence of templates and
  -- submitted shares.
  pub difficulty_told :
      (s : MiningState F) (o : Option F) (d : Diff F)
      → Served s o
      → s.stratum_diff ≡ some d
      → o ≡ some d.diff_value
  difficulty_told s o d served there = elim (Served-IsTold s o served) [
    | inl (new, nothing) ↦ absurd (ground arith)
    | inr (d', old, there', told) ↦
        let same : d' ≡ d = ground arith in told ∙ ap (λ x. some x.diff_value) same
  ]
