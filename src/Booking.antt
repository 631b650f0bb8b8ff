-- ===== src/Booking.antt =====
-- `fetchAndUpdateReward` of src/htnstratum/share_handler.go: the reward of a mined block is looked
-- up on the chain and booked in the table of blocks. What the node answers is an argument, one
-- `View` for each attempt; the pauses between attempts and the log are left out.
pub mod Payment
pub mod Single
pub mod Once
pub mod Race
pub mod Final
mod Tests
use htn_stratum_bridge.Prelude.{
  ℕ, Bool, true, false, ◌||◌, not, Option, none, some, List, [], ◌∷◌, Bytes, codes, bytes_eq,
  nat_eq, take, if◌then◌else◌,
}
use htn_stratum_bridge.Rpc.{Block}
use htn_stratum_bridge.Rewards.{coinbase_sum_to_address}
use htn_stratum_bridge.Db.{
  Table, Scanned, found, no_rows, scan_error, get_block, has_accepting_excluding,
  set_accepting_block_hash, update_reward,
}

-- What the node answers during one attempt: a block for a hash, and the chain from the mined block
-- on; `none` for an error or nil.
pub record View : Type 0 where
  pub block : Bytes → Option Block
  pub added_chain_block_hashes : Option (List Bytes)

-- What a look at one chain block, or a whole attempt, comes to. A block with no verbose data is
-- dereferenced all the same, which panics.
pub data Verdict : Type 0 where
  goes_on : Verdict
  settles : Bytes → ℕ → Table → Verdict
  panics : Verdict

unfoldable pub contains : Bytes → List Bytes → Bool
contains h [] = false
contains h (g ∷ gs) = bytes_eq g h || contains h gs

-- The failure of `SetAcceptingBlockHash` is logged, and changes nothing.
abbrev pub or_unchanged : Table → Option Table → Table
or_unchanged rows none = rows
or_unchanged rows (some rows') = rows'

-- A verdict ends the loop.
abbrev pub or_next : Verdict → Verdict → Verdict
or_next goes_on next = next
or_next (settles status atoms rows) next = settles status atoms rows
or_next panics next = panics

module _ (to_lower : Bytes → Bytes) where
  -- The part of the loop over the chain that follows the test in the table, whose result is
  -- `already_booked`: other goroutines can write to the table between the two.
  unfoldable pub visit : View → Bytes → Bytes → Bytes → Bool → Table → Verdict
  unfolding contains
  visit view wallet block_hash accepting already_booked rows = elim (view.block accepting) [
    | none ↦ goes_on
    | some b ↦ elim b.verbose_data [
      | none ↦ panics
      | some v ↦
          let (ok, total) = coinbase_sum_to_address to_lower b wallet in
          if contains block_hash v.merge_set_blues_hashes
          then (if not ok || nat_eq total 0
              then settles (codes "blue") 0 rows
              else if already_booked
              then settles (codes "merge_duplicate") 0 rows
              else settles (codes "blue") total
                  (or_unchanged rows (set_accepting_block_hash block_hash accepting rows)))
          else if contains block_hash v.merge_set_reds_hashes
          then settles (codes "red") 0 rows
          else goes_on
    ]
  ]

  -- The walk along the chain, with no other goroutine between test and write.
  unfoldable pub walk : View → Bytes → Bytes → List Bytes → Table → Verdict
  walk view wallet block_hash [] rows = goes_on
  walk view wallet block_hash (accepting ∷ chain) rows =
      let booked = has_accepting_excluding wallet accepting block_hash rows in
      or_next (visit view wallet block_hash accepting booked rows)
        (walk view wallet block_hash chain rows)

  -- One attempt. A block that the node does not know, or whose record cannot be read, is left to
  -- the next one.
  unfoldable pub attempt : Bytes → View → Table → Verdict
  unfolding walk
  attempt block_hash view rows = elim (view.block block_hash) [
    | none ↦ goes_on
    | some b ↦ elim view.added_chain_block_hashes [
      | none ↦ goes_on
      | some chain ↦ elim (get_block block_hash rows) [
        | found r ↦ walk view r.wallet_address block_hash chain rows
        | no_rows ↦ goes_on
        | scan_error ↦ goes_on
      ]
    ]
  ]

  -- Without a verdict, the block is red, with no reward.
  unfoldable pub attempts : Bytes → List View → Table → Verdict
  attempts block_hash [] rows = settles (codes "red") 0 rows
  attempts block_hash (view ∷ views) rows =
      or_next (attempt block_hash view rows) (attempts block_hash views rows)

  -- The last update; the failure of it is logged.
  unfoldable pub conclude : Bytes → Verdict → Option Table
  conclude block_hash goes_on = none
  conclude block_hash (settles status atoms rows) =
      some (or_unchanged rows (update_reward block_hash atoms status rows))
  conclude block_hash panics = none

  abbrev pub max_attempts : ℕ
  max_attempts = 15

  -- `none` is a panic.
  unfoldable pub fetch_and_update_reward : Bytes → List View → Table → Option Table
  unfolding attempts conclude
  fetch_and_update_reward block_hash views rows =
      conclude block_hash (attempts block_hash (take max_attempts views) rows)
