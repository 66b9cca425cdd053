-- ===== src/Pipeline/DeviceIdempotency.antt =====
-- app/pipeline/device_idempotency.py: the delivery ledger, one row for each notification and
-- device.
use inride_worker_manager.Prelude.{ℕ, Bool, true, false, Option, none, some}
use inride_worker_manager.Domain.{Uuid, DeliveryJob, DeliveryTarget, ledger_notification_id}
use inride_worker_manager.Effect.{
  ◌>>=◌, ◌>>◌, Prog, pure, perform, insert_delivery, delete_sending, seal_sending, select_sent,
}
use inride_worker_manager.Effect

-- `row is not None`
abbrev pub is_some : Option Uuid → Bool
is_some none = false
is_some (some id) = true

unfoldable pub try_claim : DeliveryJob → DeliveryTarget → Prog Bool
try_claim job target = do
  row ← perform (insert_delivery (ledger_notification_id job) target.device_token_id)
  pure (is_some row)

unfoldable pub mark_sent : DeliveryJob → Uuid → Prog (Unit {0})
mark_sent job device = perform (Effect.mark_delivery_sent (ledger_notification_id job) device)

unfoldable pub release_claim : DeliveryJob → Uuid → Prog (Unit {0})
release_claim job device = perform (delete_sending (ledger_notification_id job) device)

unfoldable pub seal_open_sending : DeliveryJob → Prog ℕ
seal_open_sending job = perform (seal_sending (ledger_notification_id job))

unfoldable pub has_any_sent : DeliveryJob → Prog Bool
has_any_sent job = perform (select_sent (ledger_notification_id job))
