-- ===== src/Booking/Payment.antt =====
-- What `fetchAndUpdateReward` of src/htnstratum/share_handler.go books.
use htn_stratum_bridge.Prelude.{
  ℕ, ◌≡◌, ◌≢◌, refl, ◌⊎◌, inl, inr, Bool, true, false, some, List, [], ◌∷◌, Bytes, codes,
  Option-cases, arith, bytes_eq_iff,
}
use htn_stratum_bridge.Rpc.{Block, VerboseData}
use htn_stratum_bridge.Rewards.{coinbase_sum_to_address}
use htn_stratum_bridge.Db.{Table, has_accepting_excluding, set_accepting_block_hash}
use htn_stratum_bridge.Booking.{
  View, Verdict, goes_on, settles, panics, contains, or_unchanged, visit, or_next, walk,
}

pub or_next-cases :
    (v next : Verdict) (status : Bytes) (atoms : ℕ) (rows : Table)
    → or_next v next ≡ settles status atoms rows
    → (v ≡ settles status atoms rows) ⊎ ((v ≡ goes_on) × (next ≡ settles status atoms rows))
or_next-cases goes_on next status atoms rows e = inr (refl, e)
or_next-cases (settles _ _ _) next status atoms rows e = inl e
or_next-cases panics next status atoms rows e = inl e

module _ (to_lower : Bytes → Bytes) where
  -- The payment that justifies a booked reward: a chain block that the node knows merged the
  -- mined block as blue, pays the wallet the amount, and is booked by no other row of the wallet.
  pub record Payment (view : View) (wallet block_hash : Bytes) (rows : Table) (atoms : ℕ)
      (accepting : Bytes) : Type 0 where
    pub block : Block
    pub verbose : VerboseData
    pub known : view.block accepting ≡ some block
    pub described : block.verbose_data ≡ some verbose
    pub merged : contains block_hash verbose.merge_set_blues_hashes ≡ true
    pub amount : coinbase_sum_to_address to_lower block wallet ≡ (true, atoms)
    pub unbooked : has_accepting_excluding wallet accepting block_hash rows ≡ false

  visit-Payment :
      (view : View) (wallet block_hash accepting status : Bytes) (rows rows' : Table) (atoms : ℕ)
      → visit to_lower view wallet block_hash accepting
          (has_accepting_excluding wallet accepting block_hash rows)
          rows
        ≡ settles status atoms rows'
      → atoms ≢ 0
      → Payment view wallet block_hash rows atoms accepting
  unfolding visit
  visit-Payment view wallet block_hash accepting status rows rows' atoms e paid =
      elim (Option-cases (view.block accepting)) [
        | inl unknown ↦ absurd (ground arith)
        | inr (b, k) ↦ elim (Option-cases b.verbose_data) [
          | inl bare ↦ absurd (ground arith)
          | inr (v, d) ↦ record {
            block = b;
            verbose = v;
            known = k;
            described = d;
            merged = ground arith;
            amount = ground arith;
            unbooked = ground arith;
          }
        ]
      ]

  visit_writes :
      (view : View) (wallet block_hash accepting status : Bytes) (booked : Bool)
      (rows rows' : Table) (atoms : ℕ)
      → visit to_lower view wallet block_hash accepting booked rows ≡ settles status atoms rows'
      → ((atoms ≡ 0) × (rows' ≡ rows))
        ⊎ ((status ≡ codes "blue")
            × (rows' ≡ or_unchanged rows (set_accepting_block_hash block_hash accepting rows)))
  unfolding visit
  visit_writes view wallet block_hash accepting status booked rows rows' atoms e = ground arith

  -- A reward that the walk along the chain books is not made up: if it is not nothing, then it is
  -- the amount of a payment by one of the blocks of the chain.
  pub walk-Payment :
      (view : View) (wallet block_hash status : Bytes) (chain : List Bytes) (rows rows' : Table)
      (atoms : ℕ)
      → walk to_lower view wallet block_hash chain rows ≡ settles status atoms rows'
      → atoms ≢ 0
      → (accepting : Bytes) × (contains accepting chain ≡ true)
        × Payment view wallet block_hash rows atoms accepting
        × (rows' ≡ or_unchanged rows (set_accepting_block_hash block_hash accepting rows))
  unfolding walk contains
  walk-Payment view wallet block_hash status [] rows rows' atoms e paid = absurd (ground arith)
  walk-Payment view wallet block_hash status (a ∷ chain) rows rows' atoms e paid =
      let booked = has_accepting_excluding wallet a block_hash rows in
      let here = visit to_lower view wallet block_hash a booked rows in
      let rest = walk to_lower view wallet block_hash chain rows in
      elim (or_next-cases here rest status atoms rows' e) [
        | inl settled ↦ (
          a,
          ground (arith, bytes_eq_iff a a),
          visit-Payment view wallet block_hash a status rows rows' atoms settled paid,
          ground
              (arith, visit_writes view wallet block_hash a status booked rows rows' atoms settled),
        )
        | inr (_, later) ↦
            let (b, in_chain, payment, written) =
              walk-Payment view wallet block_hash status chain rows rows' atoms later paid in
            (b, ground arith, payment, written)
      ]

  visit_zero :
      (view : View) (wallet block_hash accepting status : Bytes) (booked : Bool)
      (rows rows' : Table)
      → visit to_lower view wallet block_hash accepting booked rows ≡ settles status 0 rows'
      → rows' ≡ rows
  unfolding visit
  visit_zero view wallet block_hash accepting status booked rows rows' e = ground arith

  pub walk_zero :
      (view : View) (wallet block_hash status : Bytes) (chain : List Bytes) (rows rows' : Table)
      → walk to_lower view wallet block_hash chain rows ≡ settles status 0 rows'
      → rows' ≡ rows
  unfolding walk
  walk_zero view wallet block_hash status [] rows rows' e = absurd (ground arith)
  walk_zero view wallet block_hash status (a ∷ chain) rows rows' e =
      let booked = has_accepting_excluding wallet a block_hash rows in
      elim (or_next-cases (visit to_lower view wallet block_hash a booked rows)
        (walk to_lower view wallet block_hash chain rows) status 0 rows' e) [
          | inl settled ↦ visit_zero view wallet block_hash a status booked rows rows' settled
          | inr (_, later) ↦ walk_zero view wallet block_hash status chain rows rows' later
        ]

  -- A verdict on a mined block is one of three.
  pub walk_status :
      (view : View) (wallet block_hash status : Bytes) (chain : List Bytes) (rows rows' : Table)
      (atoms : ℕ)
      → walk to_lower view wallet block_hash chain rows ≡ settles status atoms rows'
      → (status ≡ codes "blue") ⊎ (status ≡ codes "merge_duplicate") ⊎ (status ≡ codes "red")
  unfolding walk visit
  walk_status view wallet block_hash status [] rows rows' atoms e = absurd (ground arith)
  walk_status view wallet block_hash status (a ∷ chain) rows rows' atoms e =
      let booked = has_accepting_excluding wallet a block_hash rows in
      elim (or_next-cases (visit to_lower view wallet block_hash a booked rows)
        (walk to_lower view wallet block_hash chain rows) status atoms rows' e) [
          | inl settled ↦ ground arith
          | inr (_, later) ↦ walk_status view wallet block_hash status chain rows rows' atoms later
        ]
