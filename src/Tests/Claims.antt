-- ===== src/Tests/Claims.antt =====
-- The theorems on claims at the small database.
use inride_worker_manager.Effect.World.{World}
