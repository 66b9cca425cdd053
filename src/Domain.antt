-- ===== src/Domain.antt =====
-- app/domain/models.py, handle_result.py and policies.py: jobs, targets, outcomes and results.
-- A UUID is the number that its 128 bits write; every UUID object is true in a Python test.
use inride_worker_manager.Prelude.{
  ℤ, ℕ, String, Bool, true, false, Option, none, some, List, str_eq, any,
}

abbrev pub Uuid : Type 0
Uuid = ℕ

pub data JobKind : Type 0 where
  immediate_single : JobKind

pub data PushStatus : Type 0 where
  pending processing sent failed : PushStatus

-- `PushStatus.….value`
abbrev pub value : PushStatus → String
value pending = "pending"
value processing = "processing"
value sent = "sent"
value failed = "failed"

pub record DeliveryTarget : Type 0 where
  pub device_token_id : Uuid
  pub push_token : String
  pub user_id : Option Uuid
  pub notification_priority : ℤ

-- `raw_payload` is left out: nothing writes it or reads it.
pub record DeliveryJob : Type 0 where
  pub job_kind : JobKind
  pub notification_id : Uuid
  pub tenant_id : Option Uuid
  pub actor_user_id : Option Uuid
  pub notification_type : String
  pub preview_text : Option String
  pub preview_title : Option String
  pub sender : Option String
  pub to : Option String
  pub thread_id : Option String
  pub email_log_id : Option Uuid
  pub sms_log_id : Option ℕ
  pub expires_at : Option ℕ
  pub aggregate_id : Option Uuid
  pub source_notification_ids : List Uuid

abbrev or_id : Option Uuid → Uuid → Uuid
or_id none i = i
or_id (some a) i = a

-- The scope of idempotency: the aggregate if there is one, else the notification.
abbrev pub ledger_notification_id : DeliveryJob → Uuid
ledger_notification_id job = or_id job.aggregate_id job.notification_id

pub record DeviceSendOutcome : Type 0 where
  pub device_token_id : Uuid
  pub result : String
  pub error : Option String

pub record DeliveryResult : Type 0 where
  pub job : DeliveryJob
  pub notification_status : PushStatus
  pub device_outcomes : List DeviceSendOutcome
  pub error : Option String

abbrev pub is_sent : DeviceSendOutcome → Bool
is_sent o = str_eq o.result "sent"

unfoldable pub any_device_sent : DeliveryResult → Bool
any_device_sent r = any is_sent r.device_outcomes

pub data HandleDisposition : Type 0 where
  ack_processed ack_already_done ack_in_flight ack_exhausted : HandleDisposition
  nack_retry nack_error : HandleDisposition

unfoldable pub disposition_value : HandleDisposition → String
disposition_value ack_processed = "ack_processed"
disposition_value ack_already_done = "ack_already_done"
disposition_value ack_in_flight = "ack_in_flight"
disposition_value ack_exhausted = "ack_exhausted"
disposition_value nack_retry = "nack_retry"
disposition_value nack_error = "nack_error"

abbrev pub should_ack : HandleDisposition → Bool
should_ack ack_processed = true
should_ack ack_already_done = true
should_ack ack_in_flight = true
should_ack ack_exhausted = true
should_ack nack_retry = false
should_ack nack_error = false

pub record HandleResult : Type 0 where
  pub disposition : HandleDisposition
  pub delivery : Option DeliveryResult
  pub detail : Option String

-- The protocol class: what `DeliveryRunner` calls of its policy.
pub record DeliveryPolicy : Type 0 where
  pub should_deliver : DeliveryJob → Bool
  pub skip_status : DeliveryJob → Option PushStatus

abbrev pub immediate_policy : DeliveryPolicy
immediate_policy = record { should_deliver = λ job. true; skip_status = λ job. none }
