-- ===== src/Booking/Single.antt =====
-- The table that `fetchAndUpdateReward` of src/htnstratum/share_handler.go leaves behind: a payment
-- is booked once, when the lookups of two blocks do not overlap.
use htn_stratum_bridge.Prelude.{
  ℕ, ◌≡◌, ◌≢◌, ap, ◌∙◌, ◌⊎◌, sym, inl, inr, true, false, some, List, [], ◌∷◌, Bytes, All, is_empty,
  nat_eq, Bool-cases, Option-cases, arith,
}
use htn_stratum_bridge.Db.{
  BlockRecord, Table, found, no_rows, scan_error, find_row, get_block, update_rows,
  set_accepting_block_hash,
}
use htn_stratum_bridge.Db.Keyed.{IsKeyed}
use htn_stratum_bridge.Db.Linked.{link, set_accepting_unbooked}
use htn_stratum_bridge.Booking.{View, settles, contains, walk, attempt, attempts}
use htn_stratum_bridge.Booking.Payment.{or_next-cases, walk-Payment, walk_zero}

-- The node names no block by an empty hash.
abbrev pub IsNamed : View → Type 0
IsNamed view =
    (h : Bytes) (chain : List Bytes)
    → view.added_chain_block_hashes ≡ some chain
    → contains h chain ≡ true
    → is_empty h ≡ false

-- A row with a reward names the block that pays it.
abbrev pub IsLinked : BlockRecord → Type 0
IsLinked r =
    r.reward_atoms ≢ 0 → (a : Bytes) × (r.accepting_block_hash ≡ some a) × (is_empty a ≡ false)

pub record IsSettled (rows : Table) : Type 0 where
  pub keyed : IsKeyed rows
  pub linked : All IsLinked rows

-- How a lookup can change the table before the last update.
abbrev pub Writes : Bytes → ℕ → Table → Table → Type 0
Writes h atoms rows rows' =
    ((atoms ≡ 0) × (rows' ≡ rows))
    ⊎ ((a : Bytes) × (is_empty a ≡ false)
        × (rows' ≡ update_rows h (link a) rows)
        × (set_accepting_block_hash h a rows ≡ some rows'))

pub get_block-found :
    (h : Bytes) (rows : Table)
    → ((r : BlockRecord) × (get_block h rows ≡ found r) × (find_row h rows ≡ some r))
      ⊎ ((get_block h rows ≡ no_rows) ⊎ (get_block h rows ≡ scan_error))
unfolding get_block
get_block-found h rows = elim (Option-cases (find_row h rows)) [
  | inl missing ↦ inr (inl (ground arith))
  | inr (r, there) ↦ elim (Option-cases r.accepting_block_hash) [
    | inl null ↦ inr (inr (ground arith))
    | inr (a, e) ↦ inl (r, ground arith, there)
  ]
]

module _ (to_lower : Bytes → Bytes) where
  walk-Writes :
      (view : View) (h status : Bytes) (chain : List Bytes) (r : BlockRecord) (rows rows' : Table)
      (atoms : ℕ)
      → find_row h rows ≡ some r
      → ((a : Bytes) → contains a chain ≡ true → is_empty a ≡ false)
      → walk to_lower view r.wallet_address h chain rows ≡ settles status atoms rows'
      → Writes h atoms rows rows'
  walk-Writes view h status chain r rows rows' atoms there named e =
      elim (Bool-cases (nat_eq atoms 0)) [
        | inl zero_atoms ↦
            let nothing : atoms ≡ 0 = ground arith in
            inl (
              nothing,
              walk_zero to_lower view r.wallet_address h status chain rows rows' (rw nothing at e),
            )
        | inr some_atoms ↦
            let (a, in_chain, payment, written) =
              walk-Payment to_lower view r.wallet_address h status chain rows rows' atoms e
                (ground arith) in
            let set = set_accepting_unbooked h a rows r there payment.unbooked in
            let same : rows' ≡ update_rows h (link a) rows = written ∙ rw set in
            inr (a, named a in_chain, same, set ∙ ap some (sym same))
      ]

  attempt-Writes :
      (view : View) (h status : Bytes) (rows rows' : Table) (atoms : ℕ)
      → IsNamed view
      → attempt to_lower h view rows ≡ settles status atoms rows'
      → Writes h atoms rows rows'
  unfolding attempt
  attempt-Writes view h status rows rows' atoms named e = elim (Option-cases (view.block h)) [
    | inl unknown ↦ absurd (ground arith)
    | inr (b, known) ↦ elim (Option-cases view.added_chain_block_hashes) [
      | inl no_chain ↦ absurd (ground arith)
      | inr (chain, has_chain) ↦ elim (get_block-found h rows) [
        | inl (r, got, there) ↦
            walk-Writes view h status chain r rows rows' atoms there (λ a. named a chain has_chain)
              (ground arith)
        | inr (inl missing) ↦ absurd (ground arith)
        | inr (inr broken) ↦ absurd (ground arith)
      ]
    ]
  ]

  pub attempts-Writes :
      (views : List View) (h status : Bytes) (rows rows' : Table) (atoms : ℕ)
      → All IsNamed views
      → attempts to_lower h views rows ≡ settles status atoms rows'
      → Writes h atoms rows rows'
  unfolding attempts
  attempts-Writes [] h status rows rows' atoms named e = inl (ground arith, ground arith)
  attempts-Writes (view ∷ views) h status rows rows' atoms named e =
      elim (or_next-cases (attempt to_lower h view rows) (attempts to_lower h views rows) status
        atoms rows' e) [
          | inl settled ↦ attempt-Writes view h status rows rows' atoms named.0 settled
          | inr (_, later) ↦ attempts-Writes views h status rows rows' atoms named.1 later
        ]
