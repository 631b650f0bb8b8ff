-- ===== src/Db/Tests.antt =====
-- Runs of the statements of src/htnstratum/db.go on small tables.
use htn_stratum_bridge.Prelude.{ℕ, some, [], ◌∷◌, Bytes, codes}
use htn_stratum_bridge.Db.{BlockRecord, Table}

abbrev row : ℕ → Bytes → Bytes → BlockRecord
row n hash status = record {
  id = n;
  timestamp = n;
  block_hash = hash;
  wallet_address = codes "hoosat:qq";
  worker_name = codes "rig";
  reward_atoms = 0;
  status = status;
  accepting_block_hash = some [];
}

abbrev two_rows : Table
two_rows = row 1 (codes "aa") (codes "blue") ∷ row 2 (codes "bb") (codes "pending") ∷ []
