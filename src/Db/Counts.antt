-- ===== src/Db/Counts.antt =====
-- The counts of src/htnstratum/db.go that the web pages show.
use htn_stratum_bridge.Prelude.{
  ℕ, ◌+◌, ◌≡◌, ◌⊎◌, inl, inr, Bool, [], ◌∷◌, length, Bytes, codes, All, bytes_eq, if◌then◌else◌,
  Bool-cases, arith,
}
use htn_stratum_bridge.Db.{
  Table, of_wallet, count_status, is_blue, is_red, is_pending, get_block_counts_by_wallet,
  count_blocks_by_wallet,
}

-- The statuses that the bridge writes.
abbrev pub IsStatus : Bytes → Type 0
IsStatus s =
    (s ≡ codes "pending") ⊎ (s ≡ codes "blue") ⊎ (s ≡ codes "red") ⊎ (s ≡ codes "merge_duplicate")

abbrev one : Bool → ℕ
one b = if b then 1 else 0

one_class : (s : Bytes) → IsStatus s → one (is_blue s) + one (is_red s) + one (is_pending s) ≡ 1
unfolding bytes_eq
one_class s (inl e) = rw e
one_class s (inr (inl e)) = rw e
one_class s (inr (inr (inl e))) = rw e
one_class s (inr (inr (inr e))) = rw e

counts_add :
    (rows : Table)
    → All (λ r. IsStatus r.status) rows
    → count_status is_blue rows + count_status is_red rows + count_status is_pending rows
      ≡ length rows
unfolding count_status
counts_add [] h = omega arith
counts_add (r ∷ rows) h = omega (arith, one_class r.status h.0, counts_add rows h.1)

All-of_wallet :
    (wallet : Bytes) (rows : Table)
    → All (λ r. IsStatus r.status) rows
    → All (λ r. IsStatus r.status) (of_wallet wallet rows)
unfolding of_wallet
All-of_wallet wallet [] h = tt
All-of_wallet wallet (r ∷ rows) h = elim (Bool-cases (bytes_eq r.wallet_address wallet)) [
  | inl mine ↦ rw mine (h.0, All-of_wallet wallet rows h.1)
  | inr other ↦ rw other (All-of_wallet wallet rows h.1)
]

-- Where every status is one that the bridge writes, the counts of blue, red and pending blocks of
-- a wallet add up to the number of its blocks: merge duplicates count as blue, and nothing twice.
pub block_counts_total :
    (wallet : Bytes) (rows : Table)
    → All (λ r. IsStatus r.status) rows
    → let (blue, red, pending) = get_block_counts_by_wallet wallet rows in
      blue + red + pending ≡ count_blocks_by_wallet wallet rows
unfolding get_block_counts_by_wallet count_blocks_by_wallet
block_counts_total wallet rows h = counts_add (of_wallet wallet rows) (All-of_wallet wallet rows h)
