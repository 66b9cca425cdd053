-- ===== src/Pipeline/Claimer/Claims.antt =====
-- What a claim does, while the database does not fail.
use inride_worker_manager.Monitoring.{claim}
use inride_worker_manager.Effect.World.{exec, World, effect}
use inride_worker_manager.Db.Notifications.{claimable, has_id, with_status}
use inride_worker_manager.Effect.{ok, pure, claim_pending, perform, ◌>>=◌}
use inride_worker_manager.Db.{Db, Notification}
use inride_worker_manager.Effect.Calm.{
  Ends-returns, exec-answers, Ends-bind, Ends, calm_respond, exec_calm,
}
use inride_worker_manager.Prelude.{
  ==_iff, Bool, Bool-cases, List, Option, String, [], any, any-update_clear, any-update_hit, arith,
  false, first, inl, inr, none, refl, some, true, update_where, ℕ, ◌∷◌, ◌≡◌,
}
use inride_worker_manager.Pipeline.Claimer.{
  after_claim, claim_missed, claim_won, claim_by_id, one, row_to_job,
}
use inride_worker_manager.Domain.{DeliveryJob, Uuid, ledger_notification_id}
use inride_worker_manager.Monitoring
use inride_worker_manager.Db.Notifications

abbrev pub is_claimable : Uuid → Db → Bool
is_claimable id db = any (claimable id) db.notifications

-- A claim that was won: the job is that of a row with this id, and nothing but statuses has
-- changed.
pub record Won (id : Uuid) (w : World) (claim : Option DeliveryJob × Option String) (v : World)
    : Type 0 where
  pub job : DeliveryJob
  pub claimed : claim ≡ (some job, none)
  pub notification : job.notification_id ≡ id
  pub ledger : ledger_notification_id job ≡ id
  pub pending_left : is_claimable id v.db ≡ false
  pub deliveries : v.db.deliveries ≡ w.db.deliveries
  pub pushes : v.pushes ≡ w.pushes

pub record Missed (id : Uuid) (w : World) (claim : Option DeliveryJob × Option String) (v : World)
    : Type 0 where
  pub status : claim ≡ (none, Notifications.select_status id w.db)
  pub db : v.db ≡ w.db
  pub pushes : v.pushes ≡ w.pushes

first-of_any :
    (id : Uuid) (ns : List Notification)
    → any (has_id id) ns ≡ true
    → (n : Notification) × (first (has_id id) ns ≡ some n) × (n.id ≡ id)
unfolding any first
first-of_any id [] h = cc
first-of_any id (n ∷ ns) h = elim (Bool-cases (has_id id n)) [
  | inl e ↦ (n, rw e, (==_iff n.id id).0 e)
  | inr e ↦ rw e (first-of_any id ns (rw e at h))
]

claimed-has_id :
    (id : Uuid) (now : ℕ) (ns : List Notification)
    → any (claimable id) ns ≡ true
    → any (has_id id) (update_where (claimable id) (with_status "processing" none now) ns) ≡ true
claimed-has_id id now ns h =
    any-update_hit (has_id id) (claimable id) (with_status "processing" none now) ns
      (λ n e. ground arith) h

pub claimed-none_pending :
    (id : Uuid) (now : ℕ) (ns : List Notification)
    → any (claimable id) (update_where (claimable id) (with_status "processing" none now) ns)
      ≡ false
claimed-none_pending id now ns =
    any-update_clear (claimable id) (claimable id) (with_status "processing" none now) ns (λ n e. e)
      (λ n. ground arith)

abbrev claimed_db : Uuid → Db → Db
claimed_db id db = record db {
  notifications =
      update_where (claimable id) (with_status "processing" none db.now) db.notifications;
}

claim_pending-won :
    (id : Uuid) (db : Db)
    → is_claimable id db ≡ true
    → Notifications.claim_pending id db ≡ (some id, claimed_db id db)
unfolding Notifications.claim_pending
claim_pending-won id db h = rw h

claim_pending-missed :
    (id : Uuid) (db : Db)
    → is_claimable id db ≡ false
    → Notifications.claim_pending id db ≡ (none, db)
unfolding Notifications.claim_pending
claim_pending-missed id db h = rw h

abbrev ClaimAnswer : Uuid → World → Option Uuid → World → Type 0
ClaimAnswer id w r v =
    (r ≡ (Notifications.claim_pending id w.db).0)
    × (v ≡ record w { db = (Notifications.claim_pending id w.db).1 })

claim-ClaimAnswer : (id : Uuid) (w : World) → Ends (ClaimAnswer id w) (perform (claim_pending id)) w
unfolding exec_calm calm_respond effect
claim-ClaimAnswer id w = record { at = (refl, refl) }

load-Won :
    (id : Uuid) (w v : World) (n : Notification) (found : Option Notification)
    → found ≡ some n
    → n.id ≡ id
    → is_claimable id v.db ≡ false
    → v.db.deliveries ≡ w.db.deliveries
    → v.pushes ≡ w.pushes
    → Ends (Won id w) (one found >>= λ row. pure (some (row_to_job row), none)) v
unfolding one row_to_job exec_calm ◌>>=◌
load-Won id w v n found e i none_left ds ps = rw e (record {
  at = record {
    job = row_to_job n;
    claimed = refl;
    notification = i;
    ledger = i;
    pending_left = none_left;
    deliveries = ds;
    pushes = ps;
  };
})

claim_won-Won :
    (id : Uuid) (w : World)
    → is_claimable id w.db ≡ true
    → Ends (Won id w) (claim_won id) (record w { db = claimed_db id w.db })
unfolding claim_won Monitoring.claim exec_calm calm_respond effect ◌>>=◌
    Notifications.select_notification
claim_won-Won id w h =
    let (n, e, i) = first-of_any id _ (claimed-has_id id w.db.now w.db.notifications h) in
    record {
      at =
          (load-Won id w _ n _ e i (claimed-none_pending id w.db.now w.db.notifications) refl
            refl).at;
    }

pub claim_by_id-Won :
    (id : Uuid) (w : World) → is_claimable id w.db ≡ true → Ends (Won id w) (claim_by_id id) w
unfolding claim_by_id
claim_by_id-Won id w h =
    Ends-bind (ClaimAnswer id w) (perform (claim_pending id)) (after_claim id) w
      (claim-ClaimAnswer id w)
      (λ r v (p, q). rw (p, q, claim_pending-won id w.db h) (claim_won-Won id w h))

claim_missed-Missed : (id : Uuid) (w : World) → Ends (Missed id w) (claim_missed id) w
unfolding claim_missed Monitoring.claim exec_calm calm_respond effect ◌>>=◌
claim_missed-Missed id w = record { at = record { status = refl; db = refl; pushes = refl } }

pub claim_by_id-Missed :
    (id : Uuid) (w : World) → is_claimable id w.db ≡ false → Ends (Missed id w) (claim_by_id id) w
unfolding claim_by_id
claim_by_id-Missed id w h =
    Ends-bind (ClaimAnswer id w) (perform (claim_pending id)) (after_claim id) w
      (claim-ClaimAnswer id w)
      (λ r v (p, q). rw (p, q, claim_pending-missed id w.db h) (claim_missed-Missed id w))

-- While the database does not fail, a claim of a pending notification wins: it returns a job of
-- this id, whose ledger id it is too, leaves no row of the id pending, and changes neither the
-- ledger nor the pushes. A second claim of the id right after it gets no job but the stored
-- status, and changes no table and no push.
pub claimed_once :
    (id : Uuid) (w : World)
    → w.answers ≡ []
    → is_claimable id w.db ≡ true
    → (claim second : Option DeliveryJob × Option String) × (v u : World) × (exec (claim_by_id id) w
        ≡ (ok claim, v))
      × (exec (claim_by_id id) v ≡ (ok second, u))
      × Won id w claim v
      × Missed id v second u
claimed_once id w e h =
    let (claim, v, ran, won) = Ends-returns (claim_by_id id) w e (claim_by_id-Won id w h) in
    let (second, u, ran_again, missed) =
      Ends-returns (claim_by_id id) v (exec-answers _ w v _ e ran)
        (claim_by_id-Missed id v won.pending_left) in
    (claim, second, v, u, ran, ran_again, won, missed)
