-- ===== src/Pipeline/Runner/Deactivation.antt =====
-- The devices that a job of app/pipeline/runner.py deactivates.
use inride_worker_manager.Effect.World.{World}
