-- ===== src/Pipeline/Finalizer.antt =====
-- app/pipeline/finalizer.py.
use inride_worker_manager.Prelude.{String, Option, none, some, List, [], ◌∷◌, str_eq, if◌then◌else◌}
use inride_worker_manager.Domain.{Uuid, PushStatus, value, DeliveryJob}
use inride_worker_manager.Text.{prefix}
use inride_worker_manager.Effect.{◌>>◌, Prog, pure, perform, update_status, deactivate_devices}
use inride_worker_manager.Monitoring

-- `(error or None)[:2000] if error else None`
unfoldable pub stored_error : Option String → Option String
stored_error none = none
stored_error (some e) = if str_eq e "" then none else some (prefix 2000 e)

unfoldable pub finalize : DeliveryJob → PushStatus → Option String → Prog (Unit {0})
finalize job status error = do
  perform (update_status job.notification_id (value status) (stored_error error))
  Monitoring.notification_finalized (value status)

unfoldable pub deactivate_tokens : List Uuid → Prog (Unit {0})
deactivate_tokens [] = pure tt
deactivate_tokens (id ∷ ids) = perform (deactivate_devices (id ∷ ids))
