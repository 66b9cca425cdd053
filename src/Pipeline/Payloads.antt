-- ===== src/Pipeline/Payloads.antt =====
-- The payload of a push in app/pipeline/expo_sender.py: what a device reads in it.
use inride_worker_manager.Ingress.Payload.{parse_uuid}
use inride_worker_manager.Domain.{Uuid, DeliveryJob}
use Prim.Native.Nat.{◌^◌}
use inride_worker_manager.Prelude.{
  ◌<◌, any, if◌then◌else◌, str_eq, String, Bool, false, Option, none, some, List, [], ◌∷◌, ◌≡◌,
}

-- a key in a dict
unfoldable pub lookup {ℓ} : {A : Type ℓ} → String → List (String × A) → Option A
lookup key [] = none
lookup key ((k, v) ∷ rest) = if str_eq k key then some v else lookup key rest

abbrev pub joined : Option (Option String) → Option String
joined none = none
joined (some o) = o

abbrev has_key {ℓ} : {A : Type ℓ} → String → String × A → Bool
has_key key (k, v) = str_eq k key

-- no key stands twice
abbrev IsDict : List (String × Option String) → Type 0
IsDict [] = Unit
IsDict ((k, v) ∷ rest) = (any (has_key k) rest ≡ false) × IsDict rest

-- the UUID that a device reads in the payload
abbrev pub read_uuid : Option String → Option Uuid
read_uuid none = none
read_uuid (some text) = parse_uuid text

-- What a device that knows the keys finds in a payload, each absent key as none.
pub record PushData : Type 0 where
  pub notification_id : Option Uuid
  pub notification_type : Option String
  pub sender : Option String
  pub to : Option String
  pub tenant_id : Option Uuid
  pub user_id : Option Uuid
  pub preview_text : Option String
  pub thread_id : Option String
  pub email_log_id : Option Uuid

abbrev pub read_payload : List (String × String) → PushData
read_payload p = record {
  notification_id = read_uuid (lookup "notificationId" p);
  notification_type = lookup "type" p;
  sender = lookup "sender" p;
  to = lookup "to" p;
  tenant_id = read_uuid (lookup "tenantId" p);
  user_id = read_uuid (lookup "userId" p);
  preview_text = lookup "previewText" p;
  thread_id = lookup "threadId" p;
  email_log_id = read_uuid (lookup "emailLogId" p);
}

-- What of a job a device is told: its actor is the user.
abbrev pub told_of : DeliveryJob → PushData
told_of job = record {
  notification_id = some job.notification_id;
  notification_type = some job.notification_type;
  sender = job.sender;
  to = job.to;
  tenant_id = job.tenant_id;
  user_id = job.actor_user_id;
  preview_text = job.preview_text;
  thread_id = job.thread_id;
  email_log_id = job.email_log_id;
}

-- an id has 128 bits
abbrev pub IsUuid : Option Uuid → Type 0
IsUuid none = Unit
IsUuid (some u) = u < 2 ^ 128

-- every id that the payload carries has 128 bits
abbrev pub HasUuids : DeliveryJob → Type 0
HasUuids job =
    (job.notification_id < 2 ^ 128)
    × IsUuid job.tenant_id
    × IsUuid job.actor_user_id
    × IsUuid job.email_log_id
