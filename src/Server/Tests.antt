-- ===== src/Server/Tests.antt =====
-- Runs of the server: a connection that authorizes, and one that submits a block.
use htn_stratum_bridge.Prelude.{
  ℕ, ◌+◌, ◌≡◌, parse_int, parse_hex64, digits_value, le_value, has_prefix, int_rem, ◌≤◌, List,
  Option, Bool, length, pos, int_inc, lookup, insert, if◌then◌else◌, bytes_Eq, false, refl, true,
  none, some, [], ◌∷◌, ◌++◌, Bytes, codes, bytes_eq,
}
use htn_stratum_bridge.Rpc.{Block}
use htn_stratum_bridge.Mining.{mining_state_generator, add_job, get_job, remove_job}
use htn_stratum_bridge.Stratum.{text, clean_wallet, split_dots}
use htn_stratum_bridge.Stratum.Authorize.{handle_authorize}
use htn_stratum_bridge.Stratum.Listen.{
  Event, ReadResult, chunk, drop_nuls, drop_cr, split_lines, scan_lines, handle_lines,
  read_from_connection, listen, handle_event,
}
use htn_stratum_bridge.Stratum.Lines.{ended}
use htn_stratum_bridge.Share.Stats.{new_stats, get_create_stats}
use htn_stratum_bridge.Share.{validate_submit, remove_0x, check_stales}
use htn_stratum_bridge.Share.Owner.{owner}
use htn_stratum_bridge.Share.Tally.{
  success, replies, Effect, records_share, records_block, submits, invalidates_gbt_cache,
  block_solved, Consensus, submit, classify,
}
use htn_stratum_bridge.Share.Submit.{judge, handle_submit}
use htn_stratum_bridge.Share.Effects.{submitted}
use htn_stratum_bridge.Server.Miner.{
  World, Miner, Output, authorized, submission, serve_authorize, serve_submit, serve_miner,
}
use htn_stratum_bridge.Server.Bounded.{workers_bound}
use htn_stratum_bridge.Server.Submits.{Origin, serve_submits}

abbrev chain_block : Block
chain_block = record {
  header = none;
  verbose_data = some (record {
    hash = codes "aa";
    blue_score = 9;
    is_chain_block = true;
    selected_parent_hash = [];
    merge_set_blues_hashes = codes "bb" ∷ [];
    merge_set_reds_hashes = codes "cc" ∷ [];
  });
  transactions =
      some (record {
        outputs =
            some (record {
              amount = 7;
              verbose_data = some (record { script_public_key_address = codes "hoosat:qq" });
            })
            ∷ [];
        payload = [];
      })
      ∷ [];
}

abbrev authorize : Event
authorize = record { method = codes "mining.authorize"; params = text (codes "hoosat:qq.rig") ∷ [] }

-- Messages of one letter.
abbrev parse : Bytes → Option Event
parse line = if bytes_eq line (codes "A") then some authorize else none

abbrev consensus : Consensus ℕ
consensus = record {
  parse_hash = λ s. some (3 ∷ []);
  to_domain_block = λ b h. some 0;
  set_nonce = λ n d. n;
  block_hash = λ d. codes "hh";
  pow_value = λ d. d;
  target = λ d. 5;
}

abbrev world : World
world = record {
  now = 60;
  now_ms = 60000;
  node = record { is_synced = some true; submit_error = none };
  reply = none;
}

abbrev plus : ℕ → ℕ → ℕ
plus a b = a + b

abbrev miner : Miner ℕ ℕ
miner = record {
  session = record { wallet_addr = []; worker_name = []; authorize_count = pos 0 };
  remote_addr = codes "10.0.0.1";
  remote_app = [];
  extranonce = [];
  mining = mining_state_generator 0;
  handler = record {
    stats = [];
    overall = new_stats 0 plus 0 [] [];
    tip_blue_score = 0;
    mining_db = none;
  };
  outputs = [];
}

abbrev twice : List (ReadResult × Bool)
twice = (chunk (ended (codes "A" ∷ [])), false) ∷ (chunk (ended (codes "A" ∷ [])), false) ∷ []

workers_bound_example :
    length
      (serve_miner 0 plus
        (λ prefix s. true)
        parse
        consensus
        (λ n. world)
        twice
        miner).0.handler.stats
    ≤ 0 + 5
workers_bound_example =
    workers_bound 0 plus (λ prefix s. true) parse consensus (λ n. world) twice miner refl refl

-- The two requests bring one worker.
one_worker :
    length
      (serve_miner 0 plus
        (λ prefix s. true)
        parse
        consensus
        (λ n. world)
        twice
        miner).0.handler.stats
    ≡ 1
unfolding serve_miner listen read_from_connection handle_lines scan_lines split_lines drop_nuls
    drop_cr handle_event serve_authorize handle_authorize clean_wallet split_dots get_create_stats
    lookup insert bytes_eq int_inc mining_state_generator
one_worker = refl

abbrev job_block : Block
job_block = record chain_block {
  header = some (record {
    version = 5;
    parents = [];
    hash_merkle_root = [];
    accepted_id_merkle_root = [];
    utxo_commitment = [];
    timestamp = 1;
    bits = 1;
    daa_score = 1;
    blue_score = 20;
    blue_work = [];
    pruning_point = [];
  });
}

abbrev submit_event : Event
submit_event = record {
  method = codes "mining.submit";
  params = text (codes "rig") ∷ text (codes "1") ∷ text (codes "0x3") ∷ text (codes "0xab") ∷ [];
}

abbrev parse_submit : Bytes → Option Event
parse_submit line = if bytes_eq line (codes "S") then some submit_event else parse line

abbrev working : Miner ℕ ℕ
working = record miner {
  mining = record (add_job (some job_block) false (mining_state_generator 0)).0 {
    stratum_diff = some (record { hash_value = 1; diff_value = 1; target_value = pos 9 });
  };
}

abbrev messages : List (ReadResult × Bool)
messages = (chunk (ended (codes "A" ∷ codes "S" ∷ [])), false) ∷ []

-- What the connection writes before the submission, and what the submission does.
abbrev before : List (Output ℕ)
before = authorized ∷ []

abbrev effects : List (Effect ℕ)
effects =
    submits 3
    ∷ invalidates_gbt_cache
    ∷ block_solved
    ∷ records_share
    ∷ records_block (codes "hh")
    ∷ []

goes_to_node :
    (serve_miner 0 plus
      (λ prefix s. true)
      parse_submit
      consensus
      (λ n. world)
      messages
      working).0.outputs
    ≡ before ++ (submission (replies success) effects ∷ [])
unfolding serve_miner listen read_from_connection handle_lines scan_lines split_lines drop_nuls
    drop_cr handle_event serve_authorize handle_authorize clean_wallet split_dots get_create_stats
    lookup insert bytes_eq int_inc mining_state_generator serve_submit handle_submit validate_submit
    add_job get_job remove_0x parse_int parse_hex64 digits_value check_stales judge classify submit
    submitted le_value owner has_prefix int_rem remove_job
goes_to_node = refl

block_submitted : submitted effects ≡ some 3
unfolding submitted
block_submitted = refl

serve_submits_example :
    Origin 0 plus consensus
      (λ prefix s. true)
      parse_submit
      (λ n. world)
      working
      before
      (replies success)
      effects
      3
serve_submits_example =
    serve_submits 0 plus consensus (λ prefix s. true) parse_submit (λ n. world) working messages
      before [] (replies success) effects 3 refl goes_to_node block_submitted
