-- ===== src/Db.antt =====
-- src/htnstratum/db.go: the table `block_rewards` of mined blocks, and the SQL statements on it.
-- A row's `accepting_block_hash` is NULL only in a table from before the migration that added the
-- column. A failure of the disk is not modelled here: what the statements themselves refuse is.
pub mod Counts
pub mod Keyed
pub mod Linked
mod Tests
use htn_stratum_bridge.Prelude.{
  ℕ, ◌+◌, ◌%◌, ◌^◌, Bool, true, false, ◌&&◌, ◌||◌, not, Option, none, some, List, [], ◌∷◌, ◌++◌,
  length, Bytes, codes, is_empty, bytes_eq, ltb, leb, take, drop, if◌then◌else◌, ℤ, pos, pos_part,
  leb_ℤ,
}

pub record BlockRecord : Type 0 where
  pub id : ℕ
  pub timestamp : ℕ
  pub block_hash : Bytes
  pub wallet_address : Bytes
  pub worker_name : Bytes
  pub reward_atoms : ℕ
  pub status : Bytes
  pub accepting_block_hash : Option Bytes

abbrev pub Table : Type 0
Table = List BlockRecord

-- `accepting_block_hash = ?`, which NULL does not satisfy.
abbrev pub accepts : Bytes → Option Bytes → Bool
accepts h none = false
accepts h (some a) = bytes_eq a h

-- Two rows that the partial index `uniq_wallet_accepting` cannot hold both: it covers the rows whose
-- accepting block is neither NULL nor empty.
abbrev pub clashes : Bytes → Option Bytes → BlockRecord → Bool
clashes wallet none r = false
clashes wallet (some a) r =
    not (is_empty a) && (bytes_eq r.wallet_address wallet && accepts a r.accepting_block_hash)

unfoldable pub any_row : (BlockRecord → Bool) → Table → Bool
any_row p [] = false
any_row p (r ∷ rows) = p r || any_row p rows

-- The `INSERT OR IGNORE` of `RecordBlock`: a row whose block hash is taken, or that clashes in the
-- index, is not inserted. An identifier is one more than any so far.
unfoldable pub record_block : BlockRecord → Table → Table
unfolding any_row
record_block r rows =
    if any_row (λ q. bytes_eq q.block_hash r.block_hash) rows
      || any_row (clashes r.wallet_address r.accepting_block_hash) rows
    then rows
    else rows ++ (record r { id = length rows + 1 } ∷ [])

-- `UPDATE … WHERE block_hash = ?`
unfoldable pub update_rows : Bytes → (BlockRecord → BlockRecord) → Table → Table
update_rows h f [] = []
update_rows h f (r ∷ rows) = (if bytes_eq r.block_hash h then f r else r) ∷ update_rows h f rows

-- `none` is an error; the table is then as it was. The driver takes no `uint64` from 2^63 on.
unfoldable pub update_reward : Bytes → ℕ → Bytes → Table → Option Table
unfolding update_rows
update_reward h atoms status rows =
    if ltb atoms (2 ^ 63)
    then some (update_rows h (λ r. record r { reward_atoms = atoms; status = status }) rows)
    else none

-- The wallet of the row with a block hash.
unfoldable pub find_row : Bytes → Table → Option BlockRecord
find_row h [] = none
find_row h (r ∷ rows) = if bytes_eq r.block_hash h then some r else find_row h rows

-- `SetAcceptingBlockHash`; `none` is the error of a clash in the unique index.
unfoldable pub set_accepting_block_hash : Bytes → Bytes → Table → Option Table
unfolding update_rows any_row find_row
set_accepting_block_hash h accepting rows = elim (find_row h rows) [
  | none ↦ some rows
  | some r ↦
      if any_row (λ q. not (bytes_eq q.block_hash h) && clashes r.wallet_address (some accepting) q)
        rows
      then none
      else some (update_rows h (λ q. record q { accepting_block_hash = some accepting }) rows)
]

-- `HasAcceptingBlockForWalletExcluding`
unfoldable pub has_accepting_excluding : Bytes → Bytes → Bytes → Table → Bool
unfolding any_row
has_accepting_excluding wallet accepting exclude rows =
    any_row
      (λ r.
        bytes_eq r.wallet_address wallet
        && (accepts accepting r.accepting_block_hash && not (bytes_eq r.block_hash exclude)))
      rows

-- `HasAcceptingBlockForWallet`
unfoldable pub has_accepting : Bytes → Bytes → Table → Bool
unfolding any_row
has_accepting wallet accepting rows =
    any_row (λ r. bytes_eq r.wallet_address wallet && accepts accepting r.accepting_block_hash) rows

-- The result of reading rows into Go values.
pub data Scanned (A : Type 0) : Type 0 where
  found : A → Scanned A
  no_rows : Scanned A
  scan_error : Scanned A

-- `Scan` into a Go string fails on NULL.
unfoldable pub get_block : Bytes → Table → Scanned BlockRecord
unfolding find_row
get_block h rows = elim (find_row h rows) [
  | none ↦ no_rows
  | some r ↦ elim r.accepting_block_hash [ none ↦ scan_error | some a ↦ found r ]
]

-- `WHERE wallet_address = ?`
unfoldable pub of_wallet : Bytes → Table → Table
of_wallet wallet [] = []
of_wallet wallet (r ∷ rows) =
    let rest = of_wallet wallet rows in if bytes_eq r.wallet_address wallet then r ∷ rest else rest

-- `ORDER BY timestamp DESC`; the order of rows with one timestamp is that of the table.
unfoldable pub place : BlockRecord → Table → Table
place r [] = r ∷ []
place r (q ∷ rows) =
    let rest = place r rows in if leb q.timestamp r.timestamp then r ∷ q ∷ rows else q ∷ rest

unfoldable pub newest_first : Table → Table
unfolding place
newest_first [] = []
newest_first (r ∷ rows) = place r (newest_first rows)

unfoldable pub scan_all : Table → Option Table
scan_all [] = some []
scan_all (r ∷ rows) =
    let rest = scan_all rows in
    elim r.accepting_block_hash [
      | none ↦ none
      | some a ↦ elim rest [ none ↦ none | some rs ↦ some (r ∷ rs) ]
    ]

-- `GetBlocksByWalletPaged`; `none` is an error.
unfoldable pub get_blocks_by_wallet_paged : Bytes → ℤ → ℤ → Table → Option Table
unfolding of_wallet newest_first scan_all
get_blocks_by_wallet_paged wallet limit offset rows =
    let size = if leb_ℤ limit (pos 0) then 20 else pos_part limit in
    scan_all (take size (drop (pos_part offset) (newest_first (of_wallet wallet rows))))

-- `GetBlocksByWallet`
unfoldable pub get_blocks_by_wallet : Bytes → ℤ → Table → Option Table
unfolding of_wallet newest_first scan_all
get_blocks_by_wallet wallet limit rows =
    let size = if leb_ℤ limit (pos 0) then 200 else pos_part limit in
    scan_all (take size (newest_first (of_wallet wallet rows)))

unfoldable pub count_blocks_by_wallet : Bytes → Table → ℕ
unfolding of_wallet
count_blocks_by_wallet wallet rows = length (of_wallet wallet rows)

-- `SUM(CASE WHEN … THEN 1 ELSE 0 END)`
unfoldable pub count_status : (Bytes → Bool) → Table → ℕ
count_status p [] = 0
count_status p (r ∷ rows) = (if p r.status then 1 else 0) + count_status p rows

abbrev pub is_blue : Bytes → Bool
is_blue status = bytes_eq status (codes "blue") || bytes_eq status (codes "merge_duplicate")

abbrev pub is_red : Bytes → Bool
is_red status = bytes_eq status (codes "red")

abbrev pub is_pending : Bytes → Bool
is_pending status = bytes_eq status (codes "pending")

-- `GetBlockCountsByWallet`: blue, red, pending. Over no rows the sums are NULL, which is an error
-- of `Scan`, which gives zeros.
unfoldable pub get_block_counts_by_wallet : Bytes → Table → ℕ × ℕ × ℕ
unfolding of_wallet count_status
get_block_counts_by_wallet wallet rows =
    let mine = of_wallet wallet rows in
    (count_status is_blue mine, count_status is_red mine, count_status is_pending mine)

-- `GetTotalAtomsByWallet`
unfoldable pub sum_atoms : Table → ℕ
sum_atoms [] = 0
sum_atoms (r ∷ rows) = r.reward_atoms + sum_atoms rows

-- SQLite's sum of integers is an error when it overflows 64 bits.
unfoldable pub get_total_atoms_by_wallet : Bytes → Table → Option ℕ
unfolding of_wallet sum_atoms
get_total_atoms_by_wallet wallet rows =
    let total = sum_atoms (of_wallet wallet rows) in if ltb total (2 ^ 63) then some total else none
