-- ===== src/Pow/Nonce.antt =====
-- `IncrementNonce` of src/pow/pow.go against a new state.
use htn_stratum_bridge.Prelude.{ℕ, ◌+◌, ◌%◌, ◌^◌, ◌≡◌, some, Option-cases, inl, inr, arith}
use htn_stratum_bridge.Pow.Floats.{FloatOps}
use htn_stratum_bridge.Pow.State.{
  Htnd, PowHeader, State, prev_hash, matrices, new_state, increment_nonce,
}

module _ {F R : Type 0} (fl : FloatOps F) (htnd : Htnd R) (fuel : ℕ) where
  -- A search goes through the nonces of a header without computing its state again: from the state
  -- of a header, `IncrementNonce` gives the state of the same header with the next nonce, modulo
  -- 2^64, whatever time is set.
  pub increment_nonce-new_state :
      (header : PowHeader R) (s : State F)
      → new_state fl htnd fuel header ≡ some s
      → new_state fl htnd fuel (record header { nonce = (header.nonce + 1) % 2 ^ 64 })
        ≡ some (increment_nonce s)
  unfolding new_state increment_nonce
  increment_nonce-new_state header s e =
      elim (Option-cases (matrices fl fuel header.version (prev_hash htnd header).1)) [
        | inl stuck ↦ absurd (ground (arith, stuck))
        | inr (drawn, got) ↦ ground (arith, got)
      ]
