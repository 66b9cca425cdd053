-- ===== src/Tests/Samples.antt =====
-- A small database: a pending notification of tenant 7 by user 1, two recipients with a device
-- each.
use inride_worker_manager.Db.Deliveries
use inride_worker_manager.Db.Directory
use inride_worker_manager.Db.Notifications
use inride_worker_manager.Domain
use inride_worker_manager.Effect
use inride_worker_manager.Effect.World
use inride_worker_manager.Ingress.Payload
use inride_worker_manager.Ingress.PendingPoller
use inride_worker_manager.Ingress.PubsubSubscriber
use inride_worker_manager.Ingress.Reclaim
use inride_worker_manager.Monitoring
use inride_worker_manager.Pipeline.Claimer
use inride_worker_manager.Pipeline.DeviceIdempotency
use inride_worker_manager.Pipeline.ExpoSender
use inride_worker_manager.Pipeline.Finalizer
use inride_worker_manager.Pipeline.RecipientResolver
use inride_worker_manager.Pipeline.Runner
use inride_worker_manager.Text
use inride_worker_manager.Text.Numerals
use inride_worker_manager.Ingress.Payload.{end, field, obj, str}
use inride_worker_manager.Core.{Config}
use inride_worker_manager.Pipeline.Runner.{handle_notification_id, process_job}
use inride_worker_manager.Ingress.PendingPoller.{poll, run_job}
use inride_worker_manager.Pipeline.ExpoSender.{send}
use inride_worker_manager.Ingress.PubsubSubscriber.{Attempt, Codec, Message, on_message}
use inride_worker_manager.Pipeline.Claimer.{claim_by_id, claim_pending_batch}
use inride_worker_manager.Effect.{catch, ◌>>=◌}
use inride_worker_manager.Domain.{Uuid}
use inride_worker_manager.Prelude.{
  negsuc, ℤ, pos, any, count, first, select, update_where, List, [], false, if◌then◌else◌, none,
  some, true, ℕ, ◌==◌, ◌∷◌,
}
use inride_worker_manager.Db.{Db, DeviceToken, Notification, User}
use inride_worker_manager.Pipeline.RecipientResolver.{resolve}
use inride_worker_manager.Effect.World.{World, effect, exec, respond, unanswered}

abbrev pub cfg : Config
cfg = record {
  expo_access_token_key = "";
  sdk_available = true;
  batch_size = pos 50;
  reclaim_after_seconds = pos 900;
  pubsub_max_delivery_attempts = pos 5;
  pubsub_ack_extension_seconds = pos 600;
}

abbrev pub row : Notification
row = record {
  id = 100;
  type = "SMS";
  user_id = some 1;
  email_log_id = none;
  sms_log_id = some 9;
  tenant_id = some 7;
  from_ = some "Ann";
  to = none;
  thread_id = none;
  preview_text = some " hello ";
  preview_title = none;
  platform = none;
  is_read = some false;
  push_status = "pending";
  push_error = none;
  created_at = some 5;
  updated_at = some 5;
}

abbrev pub person : Uuid → ℤ → User
person id priority = record {
  id = id;
  tenant_id = some 7;
  scope_tenant_id = none;
  role = "member";
  is_disabled = none;
  is_notify_mobile = some true;
  notification_priority = priority;
}

abbrev pub phone : Uuid → Uuid → DeviceToken
phone id user = record {
  id = id;
  user_id = user;
  token = "ExponentPushToken[x]";
  is_active = some true;
  created_at = some 1;
}

abbrev pub small_db : Db
small_db = record {
  notifications = row ∷ [];
  users = person 1 (negsuc 0) ∷ person 2 (pos 3) ∷ person 3 (pos 8) ∷ [];
  device_tokens = phone 10 1 ∷ phone 20 2 ∷ phone 30 3 ∷ [];
  deliveries = [];
  now = 5000000000;
  fresh_id = 1000;
}

abbrev pub small_world : World
small_world = record {
  db = small_db;
  answers = [];
  expo = [];
  pushes = [];
  client = none;
  signals = [];
  counters = [];
}

abbrev first_byte : List ℕ → ℕ
first_byte [] = 0
first_byte (b ∷ bs) = b

-- A codec that reads one payload, as the tests need it: any text names notification 100.
abbrev pub codec : Codec
codec = record {
  decode = λ bytes. if first_byte bytes == 255 then none else some "{}";
  loads =
      λ text. some (obj (field "notification_id" (str "00000000-0000-0000-0000-000000000064") end));
}

abbrev pub incoming : List ℕ → Attempt → Message
incoming bytes attempt = record { id = 1; body = bytes; delivery_attempt = attempt }

-- all that the programs call
unfoldable pub worker : Unit {0}
unfolding any select first update_where count Deliveries.has_row Deliveries.insert_delivery
    Deliveries.mark_delivery_sent Deliveries.delete_sending Deliveries.seal_sending
    Deliveries.select_sent Directory.insert_row Directory.sort_rows Directory.join_users
    Directory.join_devices Directory.select_devices Directory.select_user
    Directory.deactivate_devices Notifications.claim_pending Notifications.select_status
    Notifications.select_notification Notifications.insert_by_age Notifications.sort_by_age
    Notifications.oldest_pending Notifications.claim_batch Notifications.select_notifications
    Notifications.update_status Notifications.reclaim_rows Domain.any_device_sent
    Domain.disposition_value ◌>>=◌ Effect.catch World.add_to World.effect World.unanswered
    World.respond World.exec ExpoSender.data_of Payload.get_field Payload.is_truthy
    Numerals.decimal_digits Numerals.decimal Numerals.int_text Numerals.int_digits
    Numerals.parse_int Text.begins_with Payload.id_text Payload.without Payload.strip_braces_left
    Payload.strip_braces_right Payload.hex_digits Payload.parse_hex Payload.parse_uuid
    Payload.uuid_of_value Payload.notification_id_of PendingPoller.run_job PendingPoller.run_jobs
    PendingPoller.tick PendingPoller.poll PubsubSubscriber.delivery_attempt
    PubsubSubscriber.attempts_exhausted PubsubSubscriber.extend_ack_deadline
    PubsubSubscriber.ack_message_exhausted PubsubSubscriber.raw_text PubsubSubscriber.parse_id
    PubsubSubscriber.count_missing_attempt PubsubSubscriber.nack_message
    PubsubSubscriber.ack_message PubsubSubscriber.settle PubsubSubscriber.handle
    PubsubSubscriber.on_poison PubsubSubscriber.on_parsed PubsubSubscriber.on_text
    PubsubSubscriber.on_message Reclaim.count_reclaimed Reclaim.reclaim_stale
    Monitoring.insert_label Monitoring.sort_labels Monitoring.join_labels Monitoring.metric_key
    Monitoring.inc Monitoring.notification_finalized Monitoring.device_attempted Monitoring.claim
    Monitoring.reclaim Monitoring.ingress_disposition Monitoring.snapshot
    Monitoring.snapshot_and_reset Claimer.row_to_job Claimer.miss_label Claimer.one
    Claimer.get_push_status Claimer.claim_missed Claimer.claim_won Claimer.after_claim
    Claimer.claim_by_id Claimer.load_claimed Claimer.claim_pending_batch DeviceIdempotency.try_claim
    DeviceIdempotency.mark_sent DeviceIdempotency.release_claim DeviceIdempotency.seal_open_sending
    DeviceIdempotency.has_any_sent ExpoSender.truncate_at ExpoSender.truncate ExpoSender.title
    ExpoSender.present ExpoSender.payload_of ExpoSender.message_for ExpoSender.new_client
    ExpoSender.names_dead_token ExpoSender.on_send_error ExpoSender.push ExpoSender.push_with
    ExpoSender.send Finalizer.stored_error Finalizer.finalize Finalizer.deactivate_tokens
    RecipientResolver.find_actor RecipientResolver.build_query RecipientResolver.targets_of
    RecipientResolver.resolve_in RecipientResolver.resolve Runner.after_send Runner.skip_device
    Runner.send_claimed Runner.deliver_to Runner.deliver_all Runner.any_sent Runner.conclude
    Runner.deliver_targets Runner.skip_job Runner.execute_job Runner.process_job Runner.on_miss
    Runner.handle_claim Runner.handle_notification_id Text.is_space Text.lstrip Text.rstrip
    Text.strip Text.prefix Text.lower Text.contains Text.hex Text.uuid_text
worker = tt
