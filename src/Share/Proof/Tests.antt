-- ===== src/Share/Proof/Tests.antt =====
-- A submission that reaches the node, with the proof of work of src/pow.
use htn_stratum_bridge.Prelude.{
  ℕ, ◌+◌, ◌≡◌, refl, true, false, none, some, List, [], ◌∷◌, Bytes, codes, pos, lookup, insert,
  le_value, parse_int, parse_hex64, digits_value, has_prefix, int_inc, int_rem, arith,
}
use htn_stratum_bridge.Rpc.{Header, Block}
use htn_stratum_bridge.Mining.{MiningState, mining_state_generator, add_job, get_job, remove_job}
use htn_stratum_bridge.Stratum.{Param, text, Client}
use htn_stratum_bridge.Share.{SubmitInfo, valid, validate_submit, remove_0x, check_stales}
use htn_stratum_bridge.Share.Stats.{new_stats, get_create_stats}
use htn_stratum_bridge.Share.Owner.{owner}
use htn_stratum_bridge.Share.Tally.{Consensus, SubmitNode, ShareHandler, submit, classify}
use htn_stratum_bridge.Share.Submit.{judge, handle_submit}
use htn_stratum_bridge.Share.Effects.{submitted}
use htn_stratum_bridge.Share.Proof.{Computes, submitted_passes}
use htn_stratum_bridge.Pow.Xoshiro.{next_word}
use htn_stratum_bridge.Pow.Fixed.{pivotal}
use htn_stratum_bridge.Pow.Matrix.{
  nibbles, draw_row, draw_rows, draw_until, find_pivot, eliminate, rank_from, compute_rank,
  generate_matrix,
}
use htn_stratum_bridge.Pow.Multiply.{heavy_hash}
use htn_stratum_bridge.Pow.State.{
  Htnd, PowHeader, State, zero_bytes, matrices, new_state, pow_value, pow_input, check_by_bits,
}

abbrev solved : Bytes
solved = 3 ∷ zero_bytes 31

abbrev htnd : Htnd (Unit {0})
htnd = record {
  compact_to_big = λ bits. pos bits;
  header_hash = λ h. 1 ∷ zero_bytes 31;
  write_int64 = λ t. [];
  write_uint64 = λ n. n ∷ [];
  pow_hash = λ b. 0x12 ∷ 0x34 ∷ [];
  blake3_hash = λ b. b;
  heavy_hash_writer = λ b. solved;
  uint32_array = λ h. 1 ∷ [];
  hash_from_string = λ s. some solved;
  pow_integrity_min_version = 0;
}

abbrev consensus : Consensus ℕ
consensus = record {
  parse_hash = λ s. some solved;
  to_domain_block = λ b h. some 0;
  set_nonce = λ n d. n;
  block_hash = λ d. codes "hh";
  pow_value = λ d. 3;
  target = λ d. 5;
}

abbrev pow_header : ℕ → PowHeader (Unit {0})
pow_header nonce = record {
  version = 1;
  bits = 5;
  time_in_milliseconds = pos 1;
  nonce = nonce;
  rest = tt;
}

abbrev plus : ℕ → ℕ → ℕ
plus a b = a + b

abbrev node : SubmitNode
node = record { is_synced = some true; submit_error = none }

abbrev ctx : Client
ctx = record {
  remote_addr = codes "10.0.0.1";
  wallet_addr = codes "hoosat:qq";
  worker_name = codes "rig";
}

abbrev header : Header
header = record {
  version = 5;
  parents = [];
  hash_merkle_root = [];
  accepted_id_merkle_root = [];
  utxo_commitment = [];
  timestamp = 1;
  bits = 1;
  daa_score = 1;
  blue_score = 20;
  blue_work = [];
  pruning_point = [];
}

abbrev block : Block
block = record { header = some header; verbose_data = none; transactions = [] }

abbrev jobs : MiningState ℕ
jobs = (add_job (some block) false (mining_state_generator 0)).0

abbrev handler : ShareHandler ℕ
handler = record {
  stats = [];
  overall = new_stats 0 plus 0 [] [];
  tip_blue_score = 0;
  mining_db = none;
}

abbrev params : List Param
params = text (codes "rig") ∷ text (codes "1") ∷ text (codes "0x3") ∷ text (codes "0xab") ∷ []

abbrev info : SubmitInfo
info = record { job_id = pos 1; block = some block; noncestr = codes "3"; pow_hash = solved }

abbrev drawn : State ℕ
drawn = record {
  mat = elim (generate_matrix pivotal 1 (1 ∷ zero_bytes 31)) [ none ↦ [] | some mat ↦ mat ];
  float_mat = [];
  timestamp = pos 1;
  nonce = 3;
  target = pos 5;
  prev_header = 1 ∷ zero_bytes 31;
  block_version = 1;
}

drawn_state : new_state pivotal htnd 1 (pow_header 3) ≡ some drawn
unfolding new_state matrices generate_matrix draw_until compute_rank rank_from find_pivot eliminate
    draw_rows draw_row nibbles next_word
drawn_state = refl

goes_to_node :
    submitted (handle_submit 0 plus consensus node 6000 6000000 ctx params jobs handler).effects
    ≡ some 3
unfolding handle_submit validate_submit mining_state_generator add_job get_job lookup insert
    remove_0x parse_int parse_hex64 digits_value check_stales get_create_stats judge classify submit
    submitted le_value owner has_prefix int_inc int_rem remove_job
goes_to_node = refl

validated : validate_submit consensus.parse_hash params jobs ≡ valid info
unfolding validate_submit mining_state_generator add_job get_job lookup insert remove_0x parse_int
    parse_hex64 digits_value has_prefix int_inc int_rem
validated = refl

computes : Computes pivotal htnd 1 pow_header consensus 3 drawn solved
unfolding pow_value pow_input heavy_hash le_value
computes = record {
  state = drawn_state;
  value = refl;
  is_hash = (omega arith, refl);
  number = refl;
  limit = refl;
}

submitted_passes_example :
    check_by_bits pivotal htnd 1 (pow_header 3) (codes "03") false ≡ some true
submitted_passes_example =
    submitted_passes pivotal htnd 1 pow_header consensus 0 plus node 6000 6000000 ctx params jobs
      handler 3 info drawn solved (codes "03") false goes_to_node computes validated
      (omega arith, refl) (λ e. ground arith) refl
