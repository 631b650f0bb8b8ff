-- ===== src/Vardiff/Tests.antt =====
-- A client whose difficulty is set to 4, in thousandths, and its share and check afterwards.
use htn_stratum_bridge.Prelude.{
  ℕ, ◌≡◌, refl, some, [], ◌∷◌, Bytes, Map, codes, bytes_eq, lookup, insert, bytes_Eq, pos, arith,
}
use htn_stratum_bridge.Stratum.{Client}
use htn_stratum_bridge.Share.Stats.{WorkStats, new_stats, get_create_stats}
use htn_stratum_bridge.Share.Tally.{Consensus}
use htn_stratum_bridge.Pow.Fixed.{fixed}
use htn_stratum_bridge.Vardiff.{set_client_vardiff, check_rate, check_rates}
use htn_stratum_bridge.Vardiff.Stats.{AllWorkers}
use htn_stratum_bridge.Vardiff.Reached.{Reached, new, sets}
use htn_stratum_bridge.Vardiff.Window.{Within, check_rates_return}
use htn_stratum_bridge.Vardiff.Starved.{IsFloat, fall, difficulty_falls}

abbrev consensus : Consensus ℕ
consensus = record {
  parse_hash = λ s. some (3 ∷ []);
  to_domain_block = λ b h. some 0;
  set_nonce = λ n d. n;
  block_hash = λ d. codes "hh";
  pow_value = λ d. d;
  target = λ d. 5;
}

abbrev ctx : Client
ctx = record {
  remote_addr = codes "10.0.0.1";
  wallet_addr = codes "hoosat:qq";
  worker_name = codes "rig";
}

abbrev told : Map Bytes (WorkStats ℕ)
told = (set_client_vardiff fixed 0 ctx 4000 []).0

told-Reached : Reached fixed 20 consensus told
told-Reached = sets 0 ctx 4000 [] new

check_rates_return_example :
    (stats' : Map Bytes (WorkStats ℕ)) × (check_rates fixed 20 70 told ≡ some stats')
    × AllWorkers (Within 6) stats'
check_rates_return_example = check_rates_return fixed 20 consensus 70 told told-Reached

abbrev worker : WorkStats ℕ
worker = record (new_stats 0 fixed.add 0 (codes "hoosat:qq") (codes "rig")) {
  var_diff_start_time = some 0;
  min_diff = 4000;
}

fixed-IsFloat : IsFloat fixed
fixed-IsFloat = record {
  of_int-zero = refl;
  one_le = λ n le. ground (arith, le);
  zero_div = λ x le. ground (arith, le);
  max_zero = refl;
  above_zero = λ n le. ground (arith, le);
  not_above = λ n. ground arith;
}

finds_worker : lookup (codes "hoosat:qq.rig") told ≡ some worker
unfolding lookup set_client_vardiff get_create_stats insert bytes_eq
finds_worker = refl

difficulty_falls_example :
    (worker.var_diff_shares_found ≡ pos 0)
    × (worker.var_diff_window ≡ pos 0)
    × (check_rate fixed 20 70 worker ≡ some (fall fixed 70 worker (some 0)))
difficulty_falls_example =
    difficulty_falls fixed fixed-IsFloat 20 (ground arith) (ground arith) consensus
      (codes "hoosat:qq.rig") worker told 70 told-Reached finds_worker
