-- ===== src/Pipeline/Claimer.antt =====
-- app/pipeline/claimer.py.
pub mod Claims
pub mod Ages
pub mod Batches
pub mod Keys
pub mod Sorted
pub mod Draining
pub mod Progress
pub mod Oldest
pub mod Undisturbed
pub mod Exclusive
use inride_worker_manager.Prelude.{
  ℤ, pos, negsuc, String, ◌||◌, Option, none, some, List, [], ◌∷◌, map, length, str_eq,
  if◌then◌else◌,
}
use inride_worker_manager.Domain.{Uuid, DeliveryJob, immediate_single}
use inride_worker_manager.Db.{Notification}
use inride_worker_manager.Text.{lower}
use inride_worker_manager.Effect.{
  ◌>>=◌, ◌>>◌, other, Prog, pure, raise, perform, claim_pending, select_status, select_notification,
  claim_batch, select_notifications,
}
use inride_worker_manager.Monitoring

-- `(row.type or "")` is `row.type`: the column is not nullable, and "" stays "".
unfoldable pub row_to_job : Notification → DeliveryJob
row_to_job row = record {
  job_kind = immediate_single;
  notification_id = row.id;
  tenant_id = row.tenant_id;
  actor_user_id = row.user_id;
  notification_type = lower row.type;
  preview_text = row.preview_text;
  preview_title = row.preview_title;
  sender = row.from_;
  to = row.to;
  thread_id = row.thread_id;
  email_log_id = row.email_log_id;
  sms_log_id = row.sms_log_id;
  expires_at = none;
  aggregate_id = none;
  source_notification_ids = row.id ∷ [];
}

-- the counter of a claim that found no pending row
unfoldable pub miss_label : Option String → String
miss_label none = "miss_missing"
miss_label (some s) =
    if str_eq s "processing"
    then "miss_in_flight"
    else if str_eq s "sent" || str_eq s "failed"
    then "miss_done"
    else "miss"

-- `Query.one()`
unfoldable pub one : Option Notification → Prog Notification
one none = raise (other "No row was found when one was required")
one (some row) = pure row

unfoldable pub get_push_status : Uuid → Prog (Option String)
get_push_status id = perform (select_status id)

unfoldable pub claim_missed : Uuid → Prog (Option DeliveryJob × Option String)
unfolding get_push_status
claim_missed id = do
  status ← get_push_status id
  Monitoring.claim (miss_label status) 1
  pure (none, status)

unfoldable pub claim_won : Uuid → Prog (Option DeliveryJob × Option String)
claim_won id = do
  Monitoring.claim "won" 1
  found ← perform (select_notification id)
  row ← one found
  pure (some (row_to_job row), none)

unfoldable pub after_claim : Uuid → Option Uuid → Prog (Option DeliveryJob × Option String)
unfolding claim_missed claim_won
after_claim id none = claim_missed id
after_claim id (some claimed) = claim_won id

-- The job and no status; or no job, and the status of the row if there is one.
unfoldable pub claim_by_id : Uuid → Prog (Option DeliveryJob × Option String)
unfolding after_claim
claim_by_id id = do claimed ← perform (claim_pending id); after_claim id claimed

unfoldable pub load_claimed : List Uuid → Prog (List DeliveryJob)
load_claimed [] = pure []
load_claimed (id ∷ ids) = do
  Monitoring.claim "won" (length (id ∷ ids))
  rows ← perform (select_notifications (id ∷ ids))
  pure (map row_to_job rows)

-- PostgreSQL refuses a negative limit.
unfoldable pub claim_pending_batch : ℤ → Prog (List DeliveryJob)
unfolding load_claimed
claim_pending_batch (pos limit) = do ids ← perform (claim_batch limit); load_claimed ids
claim_pending_batch (negsuc n) = raise (other "LIMIT must not be negative")
