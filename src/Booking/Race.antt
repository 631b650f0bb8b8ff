-- ===== src/Booking/Race.antt =====
-- Two overlapping lookups of `fetchAndUpdateReward` in src/htnstratum/share_handler.go: each tests
-- the table before the other one has written to it.
use htn_stratum_bridge.Prelude.{
  ℕ, ◌≡◌, ◌≢◌, refl, ◌∙◌, inl, inr, Bool, true, false, ◌&&◌, not, none, some, [], ◌∷◌, Bytes, codes,
  is_empty, bytes_eq, bytes_eq_iff, Bool-cases, arith,
}
use htn_stratum_bridge.Rpc.{Block, VerboseData}
use htn_stratum_bridge.Rewards.{coinbase_sum_to_address}
use htn_stratum_bridge.Db.{
  BlockRecord, Table, any_row, clashes, find_row, update_rows, set_accepting_block_hash,
  has_accepting_excluding,
}
use htn_stratum_bridge.Db.Linked.{link, set_accepting_unbooked}
use htn_stratum_bridge.Booking.{View, settles, contains, or_unchanged, visit}

any_row-update_rows :
    (p : BlockRecord → Bool) (h : Bytes) (f : BlockRecord → BlockRecord) (rows : Table)
    (r : BlockRecord)
    → find_row h rows ≡ some r
    → p (f r) ≡ true
    → any_row p (update_rows h f rows) ≡ true
unfolding any_row find_row update_rows
any_row-update_rows p h f [] r e t = absurd (ground arith)
any_row-update_rows p h f (q ∷ rows) r e t = elim (Bool-cases (bytes_eq q.block_hash h)) [
  | inl here ↦ let same : q ≡ r = ground arith in rw (here, same, t) refl
  | inr other ↦ rw other (ground (arith, any_row-update_rows p h f rows r))
]

-- A link to one block leaves the others as they are found.
find_row-link :
    (h g a : Bytes) (rows : Table)
    → bytes_eq h g ≡ false
    → find_row h (update_rows g (link a) rows) ≡ find_row h rows
unfolding find_row update_rows
find_row-link h g a [] ne = refl
find_row-link h g a (q ∷ rows) ne = elim (Bool-cases (bytes_eq q.block_hash g)) [
  | inl linked ↦
      let other : bytes_eq q.block_hash h ≡ false =
        ground
          (arith, bytes_eq_iff q.block_hash g, bytes_eq_iff q.block_hash h, bytes_eq_iff h g) in
      rw (linked, other) (find_row-link h g a rows ne)
  | inr kept ↦ rw kept (ground (arith, find_row-link h g a rows ne))
]

find_row-hash :
    (h : Bytes) (rows : Table) (r : BlockRecord)
    → find_row h rows ≡ some r
    → bytes_eq r.block_hash h ≡ true
unfolding find_row
find_row-hash h [] r e = absurd (ground arith)
find_row-hash h (q ∷ rows) r e = elim (Bool-cases (bytes_eq q.block_hash h)) [
  | inl here ↦ let same : q ≡ r = ground arith in rw (← same) here
  | inr other ↦ find_row-hash h rows r (ground arith)
]

-- The unique index refuses the second link, whose error is only logged.
second_link_fails :
    (h g a : Bytes) (rows : Table) (r q : BlockRecord)
    → find_row h rows ≡ some r
    → find_row g rows ≡ some q
    → r.wallet_address ≡ q.wallet_address
    → bytes_eq h g ≡ false
    → is_empty a ≡ false
    → set_accepting_block_hash h a (update_rows g (link a) rows) ≡ none
unfolding set_accepting_block_hash
second_link_fails h g a rows r q at_h at_g same ne named =
    let there : find_row h (update_rows g (link a) rows) ≡ some r =
      find_row-link h g a rows ne ∙ at_h in
    let other : bytes_eq q.block_hash h ≡ false = ground (
      arith,
      find_row-hash g rows q at_g,
      bytes_eq_iff q.block_hash g,
      bytes_eq_iff q.block_hash h,
      bytes_eq_iff h g,
    ) in
    let clash : (not (bytes_eq q.block_hash h) && clashes r.wallet_address (some a) (link a q))
        ≡ true =
      rw (other, named, same)
        (ground (arith, bytes_eq_iff q.wallet_address q.wallet_address, bytes_eq_iff a a)) in
    let taken =
      any_row-update_rows
        (λ x. not (bytes_eq x.block_hash h) && clashes r.wallet_address (some a) x) g (link a) rows
        q at_g clash in
    ground arith

module _ (to_lower : Bytes → Bytes) where
  visit_unbooked :
      (view : View) (wallet h a : Bytes) (rows : Table) (b : Block) (v : VerboseData) (total : ℕ)
      → view.block a ≡ some b
      → b.verbose_data ≡ some v
      → contains h v.merge_set_blues_hashes ≡ true
      → coinbase_sum_to_address to_lower b wallet ≡ (true, total)
      → total ≢ 0
      → visit to_lower view wallet h a false rows
        ≡ settles (codes "blue") total (or_unchanged rows (set_accepting_block_hash h a rows))
  unfolding visit
  visit_unbooked view wallet h a rows b v total known described merged amount paid = ground arith

  -- Two blocks `g` and `h` of one wallet, merged as blue by the same chain block, whose lookups
  -- overlap so that each tests the table before the other writes: both are settled as blue with
  -- the whole payment, although only the first one's link is in the table.
  pub booked_twice :
      (view : View) (h g a : Bytes) (rows : Table) (r q : BlockRecord) (b : Block) (v : VerboseData)
      (total : ℕ)
      → find_row h rows ≡ some r
      → find_row g rows ≡ some q
      → r.wallet_address ≡ q.wallet_address
      → bytes_eq h g ≡ false
      → is_empty a ≡ false
      → has_accepting_excluding q.wallet_address a g rows ≡ false
      → view.block a ≡ some b
      → b.verbose_data ≡ some v
      → (contains h v.merge_set_blues_hashes && contains g v.merge_set_blues_hashes) ≡ true
      → coinbase_sum_to_address to_lower b q.wallet_address ≡ (true, total)
      → total ≢ 0
      → let linked = update_rows g (link a) rows in
        (visit to_lower view q.wallet_address g a false rows ≡ settles (codes "blue") total linked)
        × (visit to_lower view q.wallet_address h a false linked
            ≡ settles (codes "blue") total linked)
  booked_twice view h g a rows r q b v total at_h at_g same ne named unbooked known described merged
        amount paid =
      let linked = update_rows g (link a) rows in
      (
        visit_unbooked view q.wallet_address g a rows b v total known described (ground arith)
              amount paid
            ∙ rw (set_accepting_unbooked g a rows q at_g unbooked) refl,
        visit_unbooked view q.wallet_address h a linked b v total known described (ground arith)
              amount paid
            ∙ rw (second_link_fails h g a rows r q at_h at_g same ne named) refl,
      )
