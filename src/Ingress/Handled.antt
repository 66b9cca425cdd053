-- ===== src/Ingress/Handled.antt =====
-- What a result of `handle_notification_id` that acks a message says of the notification, under any
-- schedule of failures: app/pipeline/runner.py, app/pipeline/claimer.py.
pub mod Concluding
use inride_worker_manager.Ingress.Handled.Concluding.{execute_job-Yields}
use inride_worker_manager.Core.{Config}
use inride_worker_manager.Ingress.Draining.{pending-unfinished}
use inride_worker_manager.Pipeline.Operations.{StoresOnly}
use inride_worker_manager.Pipeline.Runner.{
  execute_job, handle_claim, handle_notification_id, on_miss,
}
use mathlib.Core.Path.{subst}
use inride_worker_manager.Ingress.Progress.{unfinished, Finished}
use inride_worker_manager.Db.{Db, Notification}
use inride_worker_manager.Domain.{DeliveryPolicy, HandleResult, should_ack, DeliveryJob, Uuid}
use inride_worker_manager.Effect.Operations.{MakesOnly-perform}
use inride_worker_manager.Db.Notifications.{claimable, has_id}
use inride_worker_manager.Effect.World.{World, effect, exec}
use inride_worker_manager.Effect.{
  Op, claim_pending, increment, perform, select_notification, select_status,
}
use inride_worker_manager.Prelude.{
  any-implied, arith, sym, ◌∙◌, ==_iff, Bool, Bool-cases, List, Option, String, [], any, first, inl,
  inr, none, refl, some, str_eq, true, ◌==◌, ◌||◌, ◌∷◌, ◌≡◌, ◌⊎◌,
}
use inride_worker_manager.Pipeline.Claimer.{
  after_claim, claim_by_id, claim_missed, claim_won, get_push_status, miss_label, one, row_to_job,
}
use inride_worker_manager.Db.Notifications
use inride_worker_manager.Monitoring
use inride_worker_manager.Ingress.Statuses.{FinalStatus, NotPending}
use inride_worker_manager.Effect.Yields.{
  Yields-catch, Yields, Yields-after, Yields-bind, Yields-kept, Yields-perform, Yields-pure,
}

abbrev pub is_closed : String → Bool
is_closed s = str_eq s "sent" || str_eq s "failed" || str_eq s "processing"

-- The notification needs no message: no row of it is pending, and all are sent or failed, or the
-- status that is read of it is sent, failed or processing.
pub record Settled (id : Uuid) (db : Db) : Type 0 where
  pub not_pending : NotPending id db
  pub closed :
      Finished id db
      ⊎ ((s : String) × (Notifications.select_status id db ≡ some s) × (is_closed s ≡ true))

abbrev IsCount : Op → Type 0
IsCount (increment key n) = Unit
IsCount o = ⊥

count-keeps : (K : Db → Type 0) (o : Op) (w : World) → IsCount o → K w.db → K (effect o w).1.db
unfolding effect
count-keeps K (increment key n) w h k = k
count-keeps K o w h k = absurd h

module _ (id : Uuid) where
  -- what the update of a claim returns
  abbrev Updated : Option Uuid → World → Type 0
  Updated none v = NotPending id v.db
  Updated (some c) v = Unit

  updated :
      (db : Db) (w : World)
      → Updated
          (Notifications.claim_pending id db).0
          (record w { db = (Notifications.claim_pending id db).1 })
  unfolding Notifications.claim_pending
  updated db w = elim (Bool-cases (any (claimable id) db.notifications)) [
    | inl e ↦ rw e tt
    | inr e ↦ rw e e
  ]

  -- what a claim returns
  abbrev Claimed : Option DeliveryJob × Option String → World → Type 0
  Claimed (none, s) v = (s ≡ Notifications.select_status id v.db) × NotPending id v.db
  Claimed (some job, s) v = job.notification_id ≡ id

  claim_missed-Yields : (w : World) → NotPending id w.db → Yields Claimed (claim_missed id) w
  unfolding claim_missed get_push_status Monitoring.claim Monitoring.inc effect
  claim_missed-Yields w h =
      Yields-bind (λ s v. (s ≡ Notifications.select_status id v.db) × NotPending id v.db)
        (perform (select_status id)) _ w
        (Yields-perform (select_status id) w _ (λ v same. (refl, rw same h)))
        (λ s v read.
          Yields-bind (λ u x. (s ≡ Notifications.select_status id x.db) × NotPending id x.db)
            (Monitoring.claim (miss_label s) 1) _ v
            (Yields-kept IsCount (λ db. (s ≡ Notifications.select_status id db) × NotPending id db)
              (count-keeps _) (Monitoring.claim (miss_label s) 1) v
              (MakesOnly-perform (increment _ 1) tt) read)
            (λ u x kept. Yields-pure (none, s) x kept))

  abbrev IsNamed : Option Notification → Type 0
  IsNamed none = Unit
  IsNamed (some row) = row.id ≡ id

  first-IsNamed : (ns : List Notification) → IsNamed (first (has_id id) ns)
  unfolding first
  first-IsNamed [] = tt
  first-IsNamed (n ∷ ns) = elim (Bool-cases (n.id == id)) [
    | inl e ↦ rw e ((==_iff n.id id).0 e)
    | inr e ↦ rw e (first-IsNamed ns)
  ]

  one-Yields :
      (found : Option Notification) (w : World)
      → IsNamed found
      → Yields (λ row v. row.id ≡ id) (one found) w
  unfolding one exec
  one-Yields none w h = record { at = tt }
  one-Yields (some row) w h = record { at = h }

  claim_won-Yields : (w : World) → Yields Claimed (claim_won id) w
  unfolding claim_won effect row_to_job Notifications.select_notification
  claim_won-Yields w = Yields-after (Monitoring.claim "won" 1) _ w (λ u v.
      Yields-bind (λ found x. IsNamed found) (perform (select_notification id)) _ v
        (Yields-perform (select_notification id) v _ (λ x same. first-IsNamed x.db.notifications))
        (λ found x named.
          Yields-bind (λ row y. row.id ≡ id) (one found) _ x (one-Yields found x named)
            (λ row y same. Yields-pure (some (row_to_job row), none) y same)))

  after_claim-Yields :
      (c : Option Uuid) (w : World) → Updated c w → Yields Claimed (after_claim id c) w
  unfolding after_claim
  after_claim-Yields none w h = claim_missed-Yields w h
  after_claim-Yields (some c) w h = claim_won-Yields w

  claim_by_id-Yields : (w : World) → Yields Claimed (claim_by_id id) w
  unfolding claim_by_id effect
  claim_by_id-Yields w =
      Yields-bind Updated (perform (claim_pending id)) _ w
        (Yields-perform (claim_pending id) w Updated (λ v same. updated v.db v))
        (λ c v h. after_claim-Yields c v h)

on_miss-closed :
    (cfg : Config) (policy : DeliveryPolicy) (s : Option String)
    → should_ack (on_miss cfg policy s).disposition ≡ true
    → (t : String) × (s ≡ some t) × (is_closed t ≡ true)
unfolding on_miss
on_miss-closed cfg policy none h = cc h
on_miss-closed cfg policy (some t) h = (t, refl, ground (arith, h))

Finished-Settled : (id : Uuid) (db : Db) → Finished id db → Settled id db
Finished-Settled id db h = record {
  not_pending =
      any-implied (claimable id) (unfinished id) db.notifications (pending-unfinished id) h;
  closed = inl h;
}

module _ (cfg : Config) (policy : DeliveryPolicy) (only : StoresOnly FinalStatus cfg policy)
    (id : Uuid) where
  abbrev pub AckSettles : HandleResult → World → Type 0
  AckSettles r v = should_ack r.disposition ≡ true → Settled id v.db

  handle_claim-Yields :
      (c : Option DeliveryJob × Option String) (w : World)
      → Claimed id c w
      → Yields AckSettles (handle_claim cfg policy c) w
  unfolding handle_claim
  handle_claim-Yields (none, s) w (read, free) = Yields-pure (on_miss cfg policy s) w (λ h.
      let (t, e, closed) = on_miss-closed cfg policy s h in
      record { not_pending = free; closed = inr (t, sym read ∙ e, closed) })
  handle_claim-Yields (some job, s) w named =
      Yields-bind (λ d v. Finished job.notification_id v.db) (execute_job cfg policy job) _ w
        (execute_job-Yields cfg policy job only w)
        (λ d v h.
          Yields-pure _ v
            (λ a. subst (λ i. Settled i v.db) named (Finished-Settled job.notification_id v.db h)))

  pub handle-AckSettles : (w : World) → Yields AckSettles (handle_notification_id cfg policy id) w
  unfolding handle_notification_id
  handle-AckSettles w =
      Yields-catch _ _ w
        (Yields-bind (Claimed id) (claim_by_id id) (handle_claim cfg policy) w
          (claim_by_id-Yields id w) handle_claim-Yields)
        (λ e v. Yields-pure _ v (λ h. cc h))
