-- ===== src/Server/Alone.antt =====
-- A lookup of the recovery in `ListenAndServe` of src/htnstratum/stratum_server.go that moves alone is
-- a run of `fetchAndUpdateReward` of src/htnstratum/share_handler.go.
use htn_stratum_bridge.Prelude.{◌≡◌, refl, Option, none, some, List, [], ◌∷◌, Bytes, take}
use htn_stratum_bridge.Rpc.{Block}
use htn_stratum_bridge.Db.{BlockRecord, Table, Scanned, found, no_rows, scan_error, get_block}
use htn_stratum_bridge.Booking.{
  View, Verdict, goes_on, settles, panics, or_next, visit, walk, attempt, attempts, conclude,
  fetch_and_update_reward,
}
use htn_stratum_bridge.Server.Recovery.{
  Lookup, tries, walks, tested, concludes, ended, crashed, after_visit, advance,
}

module _ (to_lower : Bytes → Bytes) where
  -- What a lookup comes to when nothing else writes to the table; `none` is a panic.
  abbrev pub finish : Bytes → Lookup → Table → Option Table
  finish h (tries views) rows = conclude to_lower h (attempts to_lower h views rows)
  finish h (walks view wallet chain views) rows =
      conclude to_lower h
        (or_next (walk to_lower view wallet h chain rows) (attempts to_lower h views rows))
  finish h (tested view wallet a booked chain views) rows = conclude to_lower h (
      or_next
        (or_next (visit to_lower view wallet h a booked rows)
          (walk to_lower view wallet h chain rows))
        (attempts to_lower h views rows))
  finish h (concludes status atoms) rows = conclude to_lower h (settles status atoms rows)
  finish h ended rows = some rows
  finish h crashed rows = none

  -- Before its first move a lookup stands for the whole of `fetchAndUpdateReward`.
  finish_first :
      (h : Bytes) (views : List View) (rows : Table)
      → finish h (tries (take 15 views)) rows ≡ fetch_and_update_reward to_lower h views rows
  unfolding fetch_and_update_reward
  finish_first h views rows = refl

  -- A move keeps what a lookup comes to, where nothing else writes to the table.
  pub finish-advance :
      (h : Bytes) (l : Lookup) (rows : Table)
      → let (l', rows') = advance to_lower h l rows in finish h l' rows' ≡ finish h l rows
  unfolding advance attempts attempt walk conclude
  finish-advance h (tries []) rows = refl
  finish-advance h (tries (view ∷ views)) rows =
      go (view.block h) view.added_chain_block_hashes (get_block h rows)
    where
      go :
          (block : Option Block) (hashes : Option (List Bytes)) (row : Scanned BlockRecord)
          → let (l', rows') : Lookup × Table = elim block [
            | none ↦ (tries views, rows)
            | some b ↦ elim hashes [
              | none ↦ (tries views, rows)
              | some chain ↦ elim row [
                | found r ↦ (walks view r.wallet_address chain views, rows)
                | no_rows ↦ (tries views, rows)
                | scan_error ↦ (tries views, rows)
              ]
            ]
          ] in
            finish h l' rows'
            ≡ conclude to_lower h (
                or_next
                  (elim block [
                    | none ↦ goes_on
                    | some b ↦ elim hashes [
                      | none ↦ goes_on
                      | some chain ↦ elim row [
                        | found r ↦ walk to_lower view r.wallet_address h chain rows
                        | no_rows ↦ goes_on
                        | scan_error ↦ goes_on
                      ]
                    ]
                  ])
                  (attempts to_lower h views rows))
      go none hashes row = refl
      go (some b) none row = refl
      go (some b) (some chain) (found r) = refl
      go (some b) (some chain) no_rows = refl
      go (some b) (some chain) scan_error = refl
  finish-advance h (walks view wallet [] views) rows = refl
  finish-advance h (walks view wallet (a ∷ chain) views) rows = refl
  finish-advance h (tested view wallet a booked chain views) rows =
      go (visit to_lower view wallet h a booked rows)
    where
      go :
          (v : Verdict)
          → let (l', rows') = after_visit to_lower view wallet chain views rows v in
            finish h l' rows'
            ≡ conclude to_lower h (
                or_next
                  (or_next v (walk to_lower view wallet h chain rows))
                  (attempts to_lower h views rows))
      go goes_on = refl
      go (settles status atoms rows') = refl
      go panics = refl
  finish-advance h (concludes status atoms) rows = refl
  finish-advance h ended rows = refl
  finish-advance h crashed rows = refl
