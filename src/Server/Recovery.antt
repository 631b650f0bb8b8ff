-- ===== src/Server/Recovery.antt =====
-- The recovery of pending rewards in `ListenAndServe` of src/htnstratum/stratum_server.go: a
-- goroutine for each pending row, which runs `fetchAndUpdateReward` of
-- src/htnstratum/share_handler.go. They overlap: each moves from one of its calls on the table to the
-- next, in any order. The table of pending rows is read before the first of them moves.
use htn_stratum_bridge.Prelude.{
  ℕ, zero, suc, Bool, none, some, List, [], ◌∷◌, map, Bytes, codes, bytes_eq, take, if◌then◌else◌,
}
use htn_stratum_bridge.Db.{
  Table, found, no_rows, scan_error, get_block, has_accepting_excluding, update_reward,
}
use htn_stratum_bridge.Booking.{
  View, Verdict, goes_on, settles, panics, or_unchanged, visit, max_attempts,
}

-- `SELECT block_hash FROM block_rewards WHERE status == 'pending'`
unfoldable pub pending_hashes : Table → List Bytes
pending_hashes [] = []
pending_hashes (r ∷ rows) =
    let rest = pending_hashes rows in
    if bytes_eq r.status (codes "pending") then r.block_hash ∷ rest else rest

-- Where a lookup stands: before an attempt, with the views of those that are left; on its walk along
-- the chain, before the test of the next block in the table, and after it; before the last update.
pub data Lookup : Type 0 where
  tries : List View → Lookup
  walks : View → Bytes → List Bytes → List View → Lookup
  tested : View → Bytes → Bytes → Bool → List Bytes → List View → Lookup
  concludes : Bytes → ℕ → Lookup
  ended : Lookup
  crashed : Lookup

-- The lookups, by the hash of their block, and the table that they share.
pub record Recovery : Type 0 where
  pub lookups : List (Bytes × Lookup)
  pub table : Table

module _ (to_lower : Bytes → Bytes) where
  abbrev pub after_visit : View → Bytes → List Bytes → List View → Table → Verdict → Lookup × Table
  after_visit view wallet chain views rows goes_on = (walks view wallet chain views, rows)
  after_visit view wallet chain views rows (settles status atoms rows') =
      (concludes status atoms, rows')
  after_visit view wallet chain views rows panics = (crashed, rows)

  -- A move of the lookup of `block_hash`: one call on the table.
  unfoldable pub advance : Bytes → Lookup → Table → Lookup × Table
  advance block_hash (tries []) rows = (concludes (codes "red") 0, rows)
  advance block_hash (tries (view ∷ views)) rows = elim (view.block block_hash) [
    | none ↦ (tries views, rows)
    | some b ↦ elim view.added_chain_block_hashes [
      | none ↦ (tries views, rows)
      | some chain ↦ elim (get_block block_hash rows) [
        | found r ↦ (walks view r.wallet_address chain views, rows)
        | no_rows ↦ (tries views, rows)
        | scan_error ↦ (tries views, rows)
      ]
    ]
  ]
  advance block_hash (walks view wallet [] views) rows = (tries views, rows)
  advance block_hash (walks view wallet (accepting ∷ chain) views) rows = (
    tested view wallet accepting (has_accepting_excluding wallet accepting block_hash rows) chain
        views,
    rows,
  )
  advance block_hash (tested view wallet accepting booked chain views) rows =
      after_visit view wallet chain views rows
        (visit to_lower view wallet block_hash accepting booked rows)
  advance block_hash (concludes status atoms) rows =
      (ended, or_unchanged rows (update_reward block_hash atoms status rows))
  advance block_hash ended rows = (ended, rows)
  advance block_hash crashed rows = (crashed, rows)

  -- The lookup at a place of the list moves.
  unfoldable pub move : ℕ → List (Bytes × Lookup) → Table → List (Bytes × Lookup) × Table
  unfolding advance
  move i [] rows = ([], rows)
  move zero ((h, l) ∷ lookups) rows =
      let (l', rows') = advance h l rows in ((h, l') ∷ lookups, rows')
  move (suc i) ((h, l) ∷ lookups) rows =
      let (lookups', rows') = move i lookups rows in ((h, l) ∷ lookups', rows')

  -- Any number of moves, in the order of a schedule.
  unfoldable pub run : List ℕ → Recovery → Recovery
  unfolding move
  run [] s = s
  run (i ∷ schedule) s =
      let (lookups, table) = move i s.lookups s.table in
      run schedule (record { lookups = lookups; table = table })

  -- The lookups at the start, each with its own views of the node.
  unfoldable pub recover_pending : (Bytes → List View) → Table → Recovery
  unfolding pending_hashes
  recover_pending views rows = record {
    lookups = map (λ h. (h, tries (take (max_attempts to_lower) (views h)))) (pending_hashes rows);
    table = rows;
  }
