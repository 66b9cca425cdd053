-- ===== src/Ingress/Reclaim.antt =====
-- app/ingress/reclaim.py.
use inride_worker_manager.Prelude.{ℤ, ℕ, not, ◌==◌}
use inride_worker_manager.Effect.{Prog, pure, perform, ◌>>=◌, ◌>>◌, when, reclaim_rows}
use inride_worker_manager.Monitoring

unfoldable pub count_reclaimed : ℕ × ℕ → Prog ℕ
count_reclaimed (notifications_reclaimed, deliveries_sealed) = do
  Monitoring.reclaim notifications_reclaimed
  when (not (deliveries_sealed == 0))
      (Monitoring.claim "sending_sealed_on_reclaim" deliveries_sealed)
  pure notifications_reclaimed

unfoldable pub reclaim_stale : ℤ → Prog ℕ
unfolding count_reclaimed
reclaim_stale seconds = do row ← perform (reclaim_rows seconds); count_reclaimed row
