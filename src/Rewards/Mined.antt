-- ===== src/Rewards/Mined.antt =====
-- `findMinedBluesFromMergeSet` of src/htnstratum/miner_rewards.go: which blocks of a merge set this
-- bridge mined. The worker in a coinbase payload (`extractWorkerFromPayload`) is an argument.
use htn_stratum_bridge.Prelude.{
  Bool, true, false, ◌&&◌, ◌||◌, Option, none, some, List, [], ◌∷◌, length, Bytes, nat_eq, ltb,
  if◌then◌else◌,
}
use htn_stratum_bridge.Rpc.{Block}
use htn_stratum_bridge.Db.{Table, found, no_rows, scan_error, get_block}
use htn_stratum_bridge.Rewards.{MinedBlue, coinbase_sum_to_address}

-- `<` on Go strings.
unfoldable pub bytes_lt : Bytes → Bytes → Bool
bytes_lt [] [] = false
bytes_lt [] (d ∷ t) = true
bytes_lt (c ∷ s) [] = false
bytes_lt (c ∷ s) (d ∷ t) = ltb c d || (nat_eq c d && bytes_lt s t)

-- `sort.Slice` by hash.
unfoldable pub place_blue : MinedBlue → List MinedBlue → List MinedBlue
place_blue mb [] = mb ∷ []
place_blue mb (q ∷ rest) =
    let later = place_blue mb rest in if bytes_lt q.hash mb.hash then q ∷ later else mb ∷ q ∷ rest

unfoldable pub sort_by_hash : List MinedBlue → List MinedBlue
unfolding place_blue
sort_by_hash [] = []
sort_by_hash (mb ∷ rest) = place_blue mb (sort_by_hash rest)

module _ (to_lower : Bytes → Bytes) (extract_worker : Block → Bytes)
    (block : Bytes → Option Block) where
  -- A block of the merge set, if it counts as mined by this bridge.
  abbrev pub mined_blue : Option Table → Bytes → Bytes → Option MinedBlue
  mined_blue (some rows) wallet h = elim (get_block h rows) [
    | found r ↦ some (record { hash = h; worker = r.worker_name })
    | no_rows ↦ none
    | scan_error ↦ none
  ]
  mined_blue none wallet h = elim (block h) [
    | none ↦ none
    | some b ↦
        if (coinbase_sum_to_address to_lower b wallet).0
        then some (record { hash = h; worker = extract_worker b })
        else none
  ]

  unfoldable pub collect_blues : Option Table → Bytes → List Bytes → List MinedBlue
  collect_blues db wallet [] = []
  collect_blues db wallet (h ∷ hashes) =
      let rest = collect_blues db wallet hashes in
      if nat_eq (length h) 64
      then elim (mined_blue db wallet h) [ none ↦ rest | some mb ↦ mb ∷ rest ]
      else rest

  unfoldable pub find_mined_blues_from_merge_set :
      List Bytes → Bytes → Option Table → List MinedBlue
  unfolding collect_blues sort_by_hash
  find_mined_blues_from_merge_set hashes wallet db = sort_by_hash (collect_blues db wallet hashes)
