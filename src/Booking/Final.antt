-- ===== src/Booking/Final.antt =====
-- `fetchAndUpdateReward` of src/htnstratum/share_handler.go: how a look-up ends.
use htn_stratum_bridge.Prelude.{
  ℕ, ◌^◌, ◌<◌, ◌≡◌, ◌≢◌, refl, ap, ◌⊎◌, inl, inr, Bool, true, none, some, List, [], ◌∷◌, Bytes,
  codes, All, take, bytes_eq, nat_eq, ltb, Bool-cases, Option-cases, arith,
}
use htn_stratum_bridge.Rpc.{Block}
use htn_stratum_bridge.Rewards.{coinbase_sum_to_address}
use htn_stratum_bridge.Db.{BlockRecord, Table, update_rows, update_reward, has_accepting_excluding}
use htn_stratum_bridge.Db.Keyed.{update_rows-All}
use htn_stratum_bridge.Booking.{
  View, Verdict, goes_on, settles, panics, or_unchanged, or_next, visit, walk, attempt, attempts,
  conclude, fetch_and_update_reward,
}
use htn_stratum_bridge.Booking.Payment.{or_next-cases, walk-Payment, walk_status}
use htn_stratum_bridge.Booking.Single.{get_block-found}
use htn_stratum_bridge.Booking.Once.{All-take, pay}

abbrev pub IsFinal : Bytes → Type 0
IsFinal status =
    (status ≡ codes "blue") ⊎ (status ≡ codes "merge_duplicate") ⊎ (status ≡ codes "red")

abbrev pub IsVerdict : Bytes → ℕ → Type 0
IsVerdict status atoms = IsFinal status × (atoms < 2 ^ 63)

module _ (to_lower : Bytes → Bytes) where
  -- No coinbase that the node knows pays 2^63 atoms or more.
  abbrev pub IsBounded : View → Type 0
  IsBounded view =
      (h wallet : Bytes) (b : Block)
      → view.block h ≡ some b
      → (coinbase_sum_to_address to_lower b wallet).1 < 2 ^ 63

  walk-IsVerdict :
      (view : View) (wallet h status : Bytes) (chain : List Bytes) (rows rows' : Table) (atoms : ℕ)
      → IsBounded view
      → walk to_lower view wallet h chain rows ≡ settles status atoms rows'
      → IsVerdict status atoms
  walk-IsVerdict view wallet h status chain rows rows' atoms bounded e = (
    walk_status to_lower view wallet h status chain rows rows' atoms e,
    elim (Bool-cases (nat_eq atoms 0)) [
      | inl nothing ↦ ground arith
      | inr something ↦
          let (a, _, payment, _) =
            walk-Payment to_lower view wallet h status chain rows rows' atoms e (ground arith) in
          ground (arith, payment.amount, bounded a wallet payment.block payment.known)
    ],
  )

  attempt-IsVerdict :
      (view : View) (h status : Bytes) (rows rows' : Table) (atoms : ℕ)
      → IsBounded view
      → attempt to_lower h view rows ≡ settles status atoms rows'
      → IsVerdict status atoms
  unfolding attempt
  attempt-IsVerdict view h status rows rows' atoms bounded e = elim (Option-cases (view.block h)) [
    | inl unknown ↦ absurd (ground arith)
    | inr (b, known) ↦ elim (Option-cases view.added_chain_block_hashes) [
      | inl no_chain ↦ absurd (ground arith)
      | inr (chain, has_chain) ↦ elim (get_block-found h rows) [
        | inl (r, got, there) ↦
            walk-IsVerdict view r.wallet_address h status chain rows rows' atoms bounded
              (ground arith)
        | inr (inl missing) ↦ absurd (ground arith)
        | inr (inr broken) ↦ absurd (ground arith)
      ]
    ]
  ]

  pub attempts-IsVerdict :
      (views : List View) (h status : Bytes) (rows rows' : Table) (atoms : ℕ)
      → All IsBounded views
      → attempts to_lower h views rows ≡ settles status atoms rows'
      → IsVerdict status atoms
  unfolding attempts
  attempts-IsVerdict [] h status rows rows' atoms bounded e = ground arith
  attempts-IsVerdict (view ∷ views) h status rows rows' atoms bounded e =
      elim (or_next-cases (attempt to_lower h view rows) (attempts to_lower h views rows) status
        atoms rows' e) [
          | inl settled ↦ attempt-IsVerdict view h status rows rows' atoms bounded.0 settled
          | inr (_, later) ↦ attempts-IsVerdict views h status rows rows' atoms bounded.1 later
        ]

All-any : (P : BlockRecord → Type 0) → ((r : BlockRecord) → P r) → (rows : Table) → All P rows
All-any P any [] = tt
All-any P any (r ∷ rows) = (any r, All-any P any rows)

pub update_reward-fits :
    (h status : Bytes) (atoms : ℕ) (rows : Table)
    → atoms < 2 ^ 63
    → or_unchanged rows (update_reward h atoms status rows) ≡ update_rows h (pay status atoms) rows
unfolding update_reward
update_reward-fits h status atoms rows small =
    let fits : ltb atoms (2 ^ 63) ≡ true = ground arith in rw fits refl

abbrev pub IsDecided : Bytes → BlockRecord → Type 0
IsDecided h r = bytes_eq r.block_hash h ≡ true → IsFinal r.status

update_reward-IsFinal :
    (h status : Bytes) (atoms : ℕ) (rows : Table)
    → atoms < 2 ^ 63
    → IsFinal status
    → All (IsDecided h) (or_unchanged rows (update_reward h atoms status rows))
update_reward-IsFinal h status atoms rows small final =
    rw (update_reward-fits h status atoms rows small) (
      update_rows-All h (pay status atoms) (λ r. Unit) (IsDecided h) rows (λ q any here same. final)
        (λ q any other same. absurd (ground arith)) (All-any (λ r. Unit) (λ r. tt) rows))

or_next_returns : (v next : Verdict) → v ≢ panics → next ≢ panics → or_next v next ≢ panics
or_next_returns goes_on next hv hn = hn
or_next_returns (settles status atoms rows) next hv hn = hv
or_next_returns panics next hv hn = hv

abbrev pub Settles : Verdict → Type 0
Settles v = (status : Bytes) × (atoms : ℕ) × (rows : Table) × (v ≡ settles status atoms rows)

or_next-Settles : (v next : Verdict) → v ≢ panics → Settles next → Settles (or_next v next)
or_next-Settles goes_on next hv hn = hn
or_next-Settles (settles status atoms rows) next hv hn = (status, atoms, rows, refl)
or_next-Settles panics next hv hn = absurd (hv refl)

-- Every block that the node knows comes with its verbose data.
abbrev pub IsDescribed : View → Type 0
IsDescribed view = (h : Bytes) (b : Block) → view.block h ≡ some b → b.verbose_data ≢ none

module _ (to_lower : Bytes → Bytes) where
  pub visit_returns :
      (view : View) (wallet h a : Bytes) (booked : Bool) (rows : Table)
      → IsDescribed view
      → visit to_lower view wallet h a booked rows ≢ panics
  unfolding visit
  visit_returns view wallet h a booked rows described e = elim (Option-cases (view.block a)) [
    | inl unknown ↦ ground arith
    | inr (b, known) ↦ elim (Option-cases b.verbose_data) [
      | inl nothing ↦ described a b known nothing
      | inr (v, has_data) ↦ ground arith
    ]
  ]

  walk_returns :
      (view : View) (wallet h : Bytes) (chain : List Bytes) (rows : Table)
      → IsDescribed view
      → walk to_lower view wallet h chain rows ≢ panics
  unfolding walk
  walk_returns view wallet h [] rows described = λ e. ground arith
  walk_returns view wallet h (a ∷ chain) rows described =
      let booked = has_accepting_excluding wallet a h rows in
      or_next_returns (visit to_lower view wallet h a booked rows)
        (walk to_lower view wallet h chain rows)
        (visit_returns view wallet h a booked rows described)
        (walk_returns view wallet h chain rows described)

  attempt_returns :
      (view : View) (h : Bytes) (rows : Table)
      → IsDescribed view
      → attempt to_lower h view rows ≢ panics
  unfolding attempt
  attempt_returns view h rows described e = elim (Option-cases (view.block h)) [
    | inl unknown ↦ ground arith
    | inr (b, known) ↦ elim (Option-cases view.added_chain_block_hashes) [
      | inl no_chain ↦ ground arith
      | inr (chain, has_chain) ↦ elim (get_block-found h rows) [
        | inl (r, got, there) ↦
            walk_returns view r.wallet_address h chain rows described (ground arith)
        | inr (inl missing) ↦ ground arith
        | inr (inr broken) ↦ ground arith
      ]
    ]
  ]

  pub attempts_settle :
      (views : List View) (h : Bytes) (rows : Table)
      → All IsDescribed views
      → Settles (attempts to_lower h views rows)
  unfolding attempts
  attempts_settle [] h rows described = (codes "red", 0, rows, refl)
  attempts_settle (view ∷ views) h rows described =
      or_next-Settles (attempt to_lower h view rows) (attempts to_lower h views rows)
        (attempt_returns view h rows described.0) (attempts_settle views h rows described.1)

  -- A look-up ends with a verdict: where the blocks that the node knows come with verbose data and
  -- no coinbase of theirs pays 2^63 atoms or more, it returns, and every row with the hash of the
  -- block has the status blue, merge_duplicate or red then.
  pub fetch_settles :
      (h : Bytes) (views : List View) (rows : Table)
      → All IsDescribed views
      → All (IsBounded to_lower) views
      → (rows' : Table) × (fetch_and_update_reward to_lower h views rows ≡ some rows')
        × All (IsDecided h) rows'
  unfolding fetch_and_update_reward conclude
  fetch_settles h views rows described bounded =
      let (status, atoms, rows'', e) =
        attempts_settle (take 15 views) h rows (All-take IsDescribed 15 views described) in
      let (final, small) =
        attempts-IsVerdict to_lower (take 15 views) h status rows rows'' atoms
          (All-take (IsBounded to_lower) 15 views bounded) e in
      (
        or_unchanged rows'' (update_reward h atoms status rows''),
        ap (conclude to_lower h) e,
        update_reward-IsFinal h status atoms rows'' small final,
      )
