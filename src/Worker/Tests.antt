-- ===== src/Worker/Tests.antt =====
-- Runs of `sanitizeWorkerID`.
use htn_stratum_bridge.Prelude.{◌≡◌, refl, Bytes, codes, trim_space}
use htn_stratum_bridge.Worker.{sanitize_worker_id, keep_allowed}

abbrev name : Bytes
name = codes " rig 7; drop\n"

sanitized : sanitize_worker_id name ≡ codes "rig_7_drop"
unfolding sanitize_worker_id keep_allowed trim_space
sanitized = refl
