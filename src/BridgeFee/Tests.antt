-- ===== src/BridgeFee/Tests.antt =====
-- Runs of src/bridgefee/bridgefee.go.
use htn_stratum_bridge.Prelude.{
  ◌≡◌, refl, true, [], Bytes, codes, pos, arith, le_value, put_le, put_be, ◌++◌, ◌*◌,
}
use htn_stratum_bridge.BridgeFee.{should_replace_gbt, count_diverted, diverted_share}

-- A hash whose first eight bytes stand for 49.
abbrev hash_49 : Bytes → Bytes → Bytes
hash_49 key message = put_be 8 49 ++ message

low_diverts : should_replace_gbt hash_49 (codes "salt") (pos 50) (codes "job") ≡ true
unfolding should_replace_gbt le_value put_le
low_diverts = refl

diverted_share_example :
    count_diverted (codes "salt") (pos 50) (codes "job") [] (10000 * 3) 10000 ≡ 50
diverted_share_example =
    diverted_share (codes "salt") 50 (codes "job") [] 3 refl (ground arith) (ground arith)
