-- ===== src/Pipeline/ExpoSender.antt =====
-- app/pipeline/expo_sender.py. The SDK's `publish` with `validate_response` is the operation
-- `publish`; timing and logging are left out.
use Prim.Native.String.{count, ◌++◌}
use inride_worker_manager.Prelude.{
  ℕ, ◌-◌, String, Bool, true, false, ◌||◌, Option, none, some, List, [], ◌∷◌, text_or, leb, str_eq,
  if◌then◌else◌,
}
use inride_worker_manager.Domain.{Uuid, DeliveryJob, DeliveryTarget, ledger_notification_id}
use inride_worker_manager.Core.{Config}
use inride_worker_manager.Text.{strip, rstrip, prefix, lower, contains, uuid_text, is_empty}
use inride_worker_manager.Effect.{
  ◌>>=◌, ◌>>◌, Exn, network, not_registered, other, Client, plain_client, session_client,
  PushMessage, Prog, pure, perform, catch, publish,
}
use inride_worker_manager.Effect

unfoldable pub truncate_at : ℕ → String → Option String
truncate_at limit text =
    if is_empty text
    then none
    else if leb (count text) limit
    then some text
    else some (rstrip (prefix (limit - 1) text) ++ "...")

unfoldable pub truncate : Option String → ℕ → Option String
unfolding truncate_at
truncate text limit = truncate_at limit (strip (text_or text ""))

unfoldable pub title : DeliveryJob → String
title job =
    let sender = text_or job.sender "unknown sender" in
    if str_eq job.notification_type "sms"
    then "New SMS from " ++ sender
    else if str_eq job.notification_type "email"
    then "New Email from " ++ sender
    else "New Notification from " ++ sender

abbrev pub optional_uuid_text : Option Uuid → Option String
optional_uuid_text none = none
optional_uuid_text (some u) = some (uuid_text u)

unfoldable pub present : List (String × Option String) → List (String × String)
present [] = []
present ((k, none) ∷ rest) = present rest
present ((k, some v) ∷ rest) = (k, v) ∷ present rest

-- the dict `data`
unfoldable pub data_of : DeliveryJob → List (String × Option String)
data_of job =
    ("notificationId", some (uuid_text job.notification_id))
    ∷ ("type", some job.notification_type)
    ∷ ("sender", job.sender)
    ∷ ("to", job.to)
    ∷ ("tenantId", optional_uuid_text job.tenant_id)
    ∷ ("userId", optional_uuid_text job.actor_user_id)
    ∷ ("previewText", job.preview_text)
    ∷ ("threadId", job.thread_id)
    ∷ ("emailLogId", optional_uuid_text job.email_log_id)
    ∷ []

unfoldable pub payload_of : DeliveryJob → List (String × String)
unfolding present data_of
payload_of job = present (data_of job)

unfoldable pub message_for : DeliveryJob → DeliveryTarget → PushMessage
unfolding title truncate payload_of
message_for job target = record {
  to = target.push_token;
  title = title job;
  body = truncate job.preview_text 180;
  payload = payload_of job;
  sound = "default";
}

-- (ok, error, deactivate)
pub record SendReply : Type 0 where
  pub success : Bool
  pub error : Option String
  pub deactivate : Bool

-- the client that `_ensure_client` builds
unfoldable pub new_client : String → Client
new_client token =
    if str_eq token ""
    then plain_client
    else session_client (
        ("Authorization", "Bearer " ++ token)
        ∷ ("accept", "application/json")
        ∷ ("accept-encoding", "gzip, deflate")
        ∷ ("content-type", "application/json")
        ∷ [])

abbrev failure : String → Bool → SendReply
failure text deactivate = record { success = false; error = some text; deactivate = deactivate }

unfoldable pub names_dead_token : String → Bool
names_dead_token text =
    let err = lower text in
    contains "devicenotregistered" err
    || contains "not a registered push notification recipient" err

-- the two `except` clauses
unfoldable pub on_send_error : Exn → SendReply
on_send_error (network s) = failure s false
on_send_error (not_registered s) = failure s true
on_send_error (other s) = failure s (names_dead_token s)

unfoldable pub push : Client → DeliveryJob → DeliveryTarget → Prog (Unit {0})
push client job target =
    perform
      (publish client (ledger_notification_id job) target.device_token_id (message_for job target))

unfoldable pub push_with : Client → DeliveryJob → DeliveryTarget → Prog SendReply
unfolding push
push_with client job target =
    catch
      (do
        push client job target
        pure (record { success = true; error = none; deactivate = false }))
      (λ e. pure (on_send_error e))

unfoldable pub send : Config → DeliveryJob → DeliveryTarget → Prog SendReply
unfolding push_with
send cfg job target =
    if cfg.sdk_available
    then (do
      client ← perform (Effect.ensure_client (new_client cfg.expo_access_token_key))
      push_with client job target)
    else pure (failure "expo_sdk_unavailable" false)
