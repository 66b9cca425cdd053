-- ===== src/Pipeline/Runner/Redelivery.antt =====
-- A message that Pub/Sub delivers again after `handle_notification_id` has returned.
use inride_worker_manager.Effect.Calm.{exec-answers, Ends-returns}
use inride_worker_manager.Pipeline.Runner.Handling.{Processed, handle-Processed, handle_missed}
use inride_worker_manager.Pipeline.Claimer.Claims.{is_claimable}
use inride_worker_manager.Db.{Db}
use inride_worker_manager.Pipeline.Runner.{handle_notification_id}
use inride_worker_manager.Db.Notifications.{claimable}
use inride_worker_manager.Core.{Config}
use inride_worker_manager.Effect.{Result, ok}
use inride_worker_manager.Db.Notifications.Laws.{Stored, unlike}
use inride_worker_manager.Domain.{
  DeliveryJob, DeliveryPolicy, HandleResult, PushStatus, Uuid, failed, sent, value,
}
use inride_worker_manager.Effect.World.{World, exec}
use inride_worker_manager.Prelude.{
  String, arith, eq_iff, inl, inr, str_eq, sym, ◌∙◌, [], any-implied, false, true, ◌≡◌, ◌⊎◌,
}
use mathlib.Core.Path.{subst}

differs_of_pending :
    (a t : String) → str_eq "pending" t ≡ false → str_eq a "pending" ≡ true → str_eq a t ≡ false
differs_of_pending a t d h = rw ((eq_iff a "pending").0 h) d

not_pending_value :
    (s : PushStatus) → (s ≡ sent) ⊎ (s ≡ failed) → str_eq "pending" (value s) ≡ false
not_pending_value s (inl e) = rw e
not_pending_value s (inr e) = rw e

Stored-none_pending :
    (id : Uuid) (s : PushStatus) (db : Db)
    → (s ≡ sent) ⊎ (s ≡ failed)
    → Stored id (value s) db
    → is_claimable id db ≡ false
Stored-none_pending id s db f h =
    any-implied (claimable id) (unlike id (value s)) db.notifications
      (λ n e. ground (arith, differs_of_pending n.push_status (value s) (not_pending_value s f))) h

module _ (cfg : Config) (policy : DeliveryPolicy) (id : Uuid) where
  -- A notification that was handled while it was pending, under a policy that delivers every job,
  -- is not handled again: while the database does not fail, a second delivery of its message
  -- changes no table and confirms no push.
  pub handled_once :
      (w v : World) (result : HandleResult)
      → w.answers ≡ []
      → is_claimable id w.db ≡ true
      → ((job : DeliveryJob) → policy.should_deliver job ≡ true)
      → exec (handle_notification_id cfg policy id) w ≡ (ok result, v)
      → (second : HandleResult) × (u : World) × (exec (handle_notification_id cfg policy id) v
          ≡ (ok second, u))
        × (u.db ≡ v.db)
        × (u.pushes ≡ v.pushes)
  handled_once w v result e h all ran =
      let (r, u, again, p) =
        Ends-returns {Q = Processed cfg policy id w} (handle_notification_id cfg policy id) w e
          (handle-Processed cfg policy id w h) in
      let same : ◌≡◌ {A = Result HandleResult × World} (ok r, u) (ok result, v) = sym again ∙ ran in
      let kept : Stored id (value p.delivery.notification_status) v.db =
        subst (λ x. Stored id (value p.delivery.notification_status) x.1.db) same p.stored in
      let (second, z, ran_again, m) =
        handle_missed cfg policy id v (exec-answers _ w v _ e ran)
          (Stored-none_pending id _ v.db (p.final all) kept) in
      (second, z, ran_again, m.tables, m.pushes)
