-- ===== src/Share/Unsubmitted.antt =====
-- `HandleSubmit` of src/htnstratum/share_handler.go: a share that is no block.
use htn_stratum_bridge.Prelude.{ℕ, ◌<◌, ◌≡◌, refl, none, some, Bytes, pos, int_inc, arith}
use htn_stratum_bridge.Rpc.{Block}
use htn_stratum_bridge.Mining.{Diff, MiningState}
use htn_stratum_bridge.Db.{Table, record_block}
use htn_stratum_bridge.Stratum.{Client}
use htn_stratum_bridge.Share.{SubmitInfo}
use htn_stratum_bridge.Share.Stats.{WorkStats, update_rolling_counters}
use htn_stratum_bridge.Share.Owner.{owner}
use htn_stratum_bridge.Share.Tally.{
  success, replies, SubmitNode, Consensus, ShareHandler, between, classify, tally_overall,
  pending_block, stratum_target, to_big,
}
use htn_stratum_bridge.Share.Submit.{judge}
use htn_stratum_bridge.Share.Effects.{submitted}

classify-between :
    (value target stratum : ℕ)
    → target < value
    → value < stratum
    → classify value value target (pos stratum) ≡ between
unfolding classify
classify-between value target stratum h k = ground arith

module _ {F D : Type 0} (zero_f : F) (add : F → F → F) (consensus : Consensus D) (node : SubmitNode)
    (now now_ms : ℕ) (ctx : Client) where
  -- A share with the value that it claims, which misses the target of its block but is below that
  -- of the stratum difficulty, is not handed to the node; all the same it counts as a block found,
  -- and is put into the table of blocks as a pending block of its owner.
  pub share_recorded_as_block :
      (w : WorkStats F) (block : Block) (d : D) (si : SubmitInfo) (s : MiningState F)
      (h : ShareHandler F) (diff : Diff F) (stratum : ℕ) (rows : Table) (wallet : Bytes)
      → s.stratum_diff ≡ some diff
      → diff.target_value ≡ pos stratum
      → to_big si.pow_hash ≡ consensus.pow_value d
      → consensus.target d < consensus.pow_value d
      → consensus.pow_value d < stratum
      → h.mining_db ≡ some rows
      → owner ctx.wallet_addr block ≡ some wallet
      → let o = judge zero_f add consensus node now now_ms ctx w block d si s h in
        (submitted o.effects ≡ none)
        × (o.answer ≡ replies success)
        × (o.handler.overall.blocks_found ≡ int_inc h.overall.blocks_found)
        × (o.handler.mining_db
            ≡ some (
                record_block
                  (pending_block now_ms (consensus.block_hash d) wallet w.worker_name)
                  rows))
  unfolding judge submitted tally_overall update_rolling_counters
  share_recorded_as_block w block d si s h diff stratum rows wallet has_diff target claim misses
        below db own =
      let class : classify (to_big si.pow_hash) (consensus.pow_value d) (consensus.target d)
            (stratum_target (some diff))
          ≡ between =
        rw (target, claim)
          (classify-between (consensus.pow_value d) (consensus.target d) stratum misses below) in
      simp (has_diff, class, db, own) (refl, refl, refl, refl)
