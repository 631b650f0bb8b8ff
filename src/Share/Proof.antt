-- ===== src/Share/Proof.antt =====
-- `HandleSubmit` of src/htnstratum/share_handler.go against `CheckProofOfWorkByBits` of
-- src/pow/pow.go.
mod Tests
use htn_stratum_bridge.Prelude.{
  ℕ, ◌≤◌, ◌≡◌, ◌≢◌, refl, ap, sym, ◌∙◌, Bool, true, Option, some, List, Bytes, leb_ℤ, ℤ, pos, arith,
}
use htn_stratum_bridge.Mining.{MiningState}
use htn_stratum_bridge.Stratum.{Param, Client}
use htn_stratum_bridge.Share.{SubmitInfo, valid, validate_submit}
use htn_stratum_bridge.Share.Tally.{SubmitNode, Consensus, ShareHandler, to_big}
use htn_stratum_bridge.Share.Submit.{handle_submit}
use htn_stratum_bridge.Share.Effects.{submitted}
use htn_stratum_bridge.Share.Checks.{handle_submit-Submission}
use htn_stratum_bridge.Pow.Floats.{FloatOps}
use htn_stratum_bridge.Pow.State.{
  Htnd, PowHeader, State, zero_hash, new_state, pow_value, check_proof_of_work, check_by_bits,
}
use htn_stratum_bridge.Pow.Check.{IsHash, to_big-injective, check_proof_of_work_iff}

module _ {E D R : Type 0} (fl : FloatOps E) (htnd : Htnd R) (fuel : ℕ) (header_of : D → PowHeader R)
    (consensus : Consensus D) where
  -- The value and the target that `HandleSubmit` works with are those of `NewState` and
  -- `CalculateProofOfWorkValue`, which return for the block.
  pub record Computes (d : D) (s : State E) (hash : Bytes) : Type 0 where
    pub state : new_state fl htnd fuel (header_of d) ≡ some s
    pub value : pow_value fl htnd fuel s ≡ some hash
    pub is_hash : IsHash hash
    pub number : consensus.pow_value d ≡ to_big hash
    pub limit : s.target ≡ pos (consensus.target d)

  -- A block that is handed to the node passes the check of src/pow of its proof of work, stated as
  -- the hash that the miner submitted, whether or not the check of the stated hash is skipped, unless
  -- that hash is zero.
  pub submitted_passes :
      {F : Type 0} (zero_f : F) (add : F → F → F) (node : SubmitNode) (now now_ms : ℕ)
      (ctx : Client) (params : List Param) (s : MiningState F) (h : ShareHandler F) (d : D)
      (si : SubmitInfo) (state : State E) (hash stated : Bytes) (skip : Bool)
      → submitted (handle_submit zero_f add consensus node now now_ms ctx params s h).effects
        ≡ some d
      → Computes d state hash
      → validate_submit consensus.parse_hash params s ≡ valid si
      → IsHash si.pow_hash
      → si.pow_hash ≢ zero_hash
      → htnd.hash_from_string stated ≡ some si.pow_hash
      → check_by_bits fl htnd fuel (header_of d) stated skip ≡ some true
  unfolding check_by_bits
  submitted_passes zero_f add node now now_ms ctx params s h d si state hash stated skip e c v hs ne
        read =
      let sub = handle_submit-Submission zero_f add consensus node now now_ms ctx params s h d e in
      let same : sub.si ≡ si = cc (sub.well_formed, v) in
      let claimed : to_big si.pow_hash ≡ consensus.pow_value d =
        ap (λ i. to_big i.pow_hash) (sym same) ∙ sub.justified.claimed in
      let equal : si.pow_hash ≡ hash =
        to_big-injective si.pow_hash hash hs.0 c.is_hash.0 (hs.1 ∙ sym c.is_hash.1)
          (claimed ∙ c.number) in
      let below : leb_ℤ (pos (to_big hash)) state.target ≡ true =
        rw (c.limit, ← c.number) (ground (arith, sub.justified.enough)) in
      rw (c.state, check_by_bits)
        ((check_proof_of_work_iff fl htnd fuel state stated skip hash si.pow_hash c.value read
            c.is_hash hs).1
          (below, λ _. (equal, rw equal at ne)))
