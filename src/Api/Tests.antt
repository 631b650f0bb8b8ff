-- ===== src/Api/Tests.antt =====
-- Runs of src/htnstratum/htnapi.go, with a node whose templates are the address they pay.
use htn_stratum_bridge.Prelude.{
  ◌≡◌, ◌⊎◌, refl, Bool, true, false, Option, none, some, [], ◌∷◌, ◌++◌, Bytes, codes, lookup,
  insert, bytes_Eq, bytes_eq, pos, put_be, put_le, le_value, hex_decode, arith,
}
use htn_stratum_bridge.BridgeFee.{should_replace_gbt}
use htn_stratum_bridge.Api.{
  BridgeFeeConfig, HtnApi, Node, has_fee, select, cached, store, fetch, get_block_template, cleanup,
}
use htn_stratum_bridge.Api.Template.{IsHonest}
use htn_stratum_bridge.Api.Cache.{served, fee_job_unreported, second_fetch}
use htn_stratum_bridge.Api.Reach.{Reach, start, next, asks, reached_pays, reached_cleanup}

abbrev hash_49 : Bytes → Bytes → Bytes
hash_49 key message = put_be 8 49 ++ message

abbrev fee : BridgeFeeConfig
fee = record {
  enabled = true;
  rate_ppm = pos 50;
  address = codes "hoosat:bridge";
  server_salt = codes "salt";
}

abbrev api : HtnApi Bytes
api = record {
  bridge_fee = fee;
  job_counter = 0;
  gbt_total = 0;
  gbt_diverted = 0;
  gbt_cache = [];
  gbt_cache_ttl = pos 1000;
  gbt_cache_hits = 0;
  gbt_cache_misses = 0;
}

abbrev node : Node Bytes
node = record {
  tip_hashes = some (codes "ab" ∷ []);
  get_block_template = λ address extra. some address;
  unix_time = 7;
  lookup_time = 10;
  store_time = 20;
}

abbrev later : Node Bytes
later = record node { get_block_template = λ address extra. none; lookup_time = 30 }

abbrev PaysIt : Bytes → Bytes → Type 0
PaysIt address template = address ≡ template

node-IsHonest : IsHonest PaysIt node
node-IsHonest address extra t asked = ground arith

-- The selection diverts this request to the bridge.
diverted : (select hash_49 node (codes "hoosat:me") (codes "rig") api).2 ≡ true
unfolding select should_replace_gbt put_le le_value hex_decode
diverted = refl

fee_job_unreported_example :
    let r = get_block_template hash_49 node (pos 0) (pos 0) (codes "hoosat:me") (codes "rig") api in
    (r.1 ≡ served true (cached 10 (codes "hoosat:bridge") api) (codes "hoosat:bridge"))
    × (r.2 ≡ false)
fee_job_unreported_example =
    fee_job_unreported hash_49 node (pos 0) (pos 0) (codes "hoosat:me") (codes "rig") api
      (codes "hoosat:bridge") diverted refl

abbrev first_fetch : HtnApi Bytes × Option Bytes × Bool
first_fetch = fetch node (pos 0) (pos 0) (codes "rig") (codes "hoosat:me") false api

missed : cached 10 (codes "hoosat:me") api ≡ none
unfolding cached lookup
missed = refl

got_first : first_fetch.1 ≡ some (codes "hoosat:me")
unfolding fetch cached lookup store
got_first = refl

second_fetch_example :
    (fetch later (pos 0) (pos 0) (codes "rig2") (codes "hoosat:me") false first_fetch.0).1
    ≡ some (codes "hoosat:me")
second_fetch_example =
    second_fetch node later (pos 0) (pos 0) (codes "rig") (codes "rig2") (codes "hoosat:me") false
      false api (codes "hoosat:me") refl missed got_first refl

abbrev asked_once : HtnApi Bytes
asked_once =
    (get_block_template hash_49 node (pos 0) (pos 0) (codes "hoosat:me") (codes "rig") api).0

Reach-once : Reach hash_49 PaysIt asked_once
Reach-once =
    next (start api refl)
      (asks node (pos 0) (pos 0) (codes "hoosat:me") (codes "rig") api node-IsHonest)

got_again :
    (get_block_template hash_49 node (pos 0) (pos 0) (codes "hoosat:me") (codes "rig") asked_once).1
    ≡ some (codes "hoosat:bridge")
unfolding get_block_template select should_replace_gbt put_le le_value hex_decode fetch cached
    lookup store insert bytes_eq
got_again = refl

reached_pays_example :
    PaysIt (codes "hoosat:me") (codes "hoosat:bridge")
    ⊎ ((has_fee asked_once.bridge_fee ≡ true)
        × PaysIt asked_once.bridge_fee.address (codes "hoosat:bridge"))
reached_pays_example =
    reached_pays hash_49 PaysIt node (pos 0) (pos 0) (codes "hoosat:me") (codes "rig")
      (codes "hoosat:bridge") Reach-once node-IsHonest got_again

reached_cleanup_example :
    cached 40 (codes "hoosat:me") (cleanup 30 asked_once) ≡ cached 40 (codes "hoosat:me") asked_once
reached_cleanup_example =
    reached_cleanup hash_49 PaysIt 30 40 (codes "hoosat:me") Reach-once (ground arith)
