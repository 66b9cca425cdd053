-- ===== src/Pipeline/Claimer/Batches.antt =====
-- What a batch claim of app/pipeline/claimer.py takes, while the database does not fail.
use inride_worker_manager.Pipeline.Claimer.Ages.{
  length-sort_by_age, All-sort_by_age, any-of_take, any-select_both, any-sort_by_age, member-map,
}
use inride_worker_manager.Effect.Calm.{Ends-bind, Ends-returns, Ends, calm_respond, exec_calm}
use inride_worker_manager.Effect.World.{exec, World, effect}
use inride_worker_manager.Pipeline.Claimer.{claim_pending_batch, load_claimed, row_to_job}
use inride_worker_manager.Domain.{DeliveryJob, Uuid}
use inride_worker_manager.Pipeline.Claimer.Claims.{is_claimable}
use inride_worker_manager.Db.Notifications
use inride_worker_manager.Monitoring
use inride_worker_manager.Effect.{ok, perform, ◌>>=◌, claim_batch}
use inride_worker_manager.Db.{Db, Notification}
use inride_worker_manager.Prelude.{
  count, length-select, pos, any-update_where, any-weaken, ◌&&◌, any-select_and, length, length-map,
  length-take-le, ◌≤◌, All-select, ◌==◌, ==_iff, All, Bool-cases, any-update_clear, inl, inr, none,
  update_where, Bool, List, [], any, ap, arith, false, map, refl, select, sym, take, true, ℕ, ◌||◌,
  ◌∙◌, ◌∷◌, ◌≡◌,
}
use inride_worker_manager.Db.Notifications.{
  with_status, claimable, has_id, id_of, is_pending, member, oldest_pending, sort_by_age,
}

-- A notification among the oldest pending ones, as many as the limit, that is not pending any more.
abbrev pub WasClaimed : ℕ → Db → Db → Uuid → Type 0
WasClaimed limit before after id =
    (member (oldest_pending limit before) id ≡ true)
    × (is_claimable id before ≡ true)
    × (is_claimable id after ≡ false)

-- An id among the oldest pending rows is that of a pending row.
pub oldest-claimable :
    (limit : ℕ) (db : Db) (id : Uuid)
    → member (oldest_pending limit db) id ≡ true
    → is_claimable id db ≡ true
unfolding oldest_pending
oldest-claimable limit db id h =
    let pendings = select is_pending db.notifications in
    sym (any-select_both id db.notifications)
    ∙ sym (any-sort_by_age (has_id id) pendings)
    ∙ any-of_take (has_id id) limit (sort_by_age pendings)
        (sym (member-map id (take limit (sort_by_age pendings))) ∙ h)

abbrev pub chosen : List Uuid → Notification → Bool
chosen ids n = member ids n.id

-- the ids that the update returns are among those that it was given
pub returned-given :
    (ids : List Uuid) (id : Uuid) (ns : List Notification)
    → member (map id_of (select (chosen ids) ns)) id ≡ true
    → member ids id ≡ true
unfolding select any
returned-given ids id [] h = cc h
returned-given ids id (n ∷ ns) h = elim (Bool-cases (chosen ids n)) [
  | inl e ↦ elim (Bool-cases (n.id == id)) [
    | inl x ↦ sym (ap (member ids) ((==_iff n.id id).0 x)) ∙ e
    | inr x ↦ returned-given ids id ns (rw (e, x) at h)
  ]
  | inr e ↦ returned-given ids id ns (rw e at h)
]

pub left-unclaimable :
    (ids : List Uuid) (id now : ℕ) (ns : List Notification)
    → member ids id ≡ true
    → any (claimable id) (update_where (chosen ids) (with_status "processing" none now) ns) ≡ false
left-unclaimable ids id now ns h =
    any-update_clear (claimable id) (chosen ids) (with_status "processing" none now) ns
      (λ n e. ap (member ids) ((==_iff n.id id).0 (ground arith)) ∙ h) (λ n. ground arith)

All-jobs :
    (P : Uuid → Type 0) (ns : List Notification)
    → All (λ n. P n.id) ns
    → All (λ job. P job.notification_id) (map row_to_job ns)
unfolding row_to_job
All-jobs P [] a = tt
All-jobs P (n ∷ ns) a = (a.0, All-jobs P ns a.1)

abbrev pub is_job_of : Uuid → DeliveryJob → Bool
is_job_of id job = job.notification_id == id

-- What a batch claim returns and leaves behind.
pub record Taken (limit : ℕ) (w : World) (jobs : List DeliveryJob) (v : World) : Type 0 where
  pub were_pending : All (λ job. WasClaimed limit w.db v.db job.notification_id) jobs
  pub all_loaded :
      (id : Uuid)
      → member (Notifications.claim_batch limit w.db).0 id ≡ true
      → any (is_job_of id) jobs ≡ true
  pub deliveries : v.db.deliveries ≡ w.db.deliveries
  pub tables : v.db ≡ (Notifications.claim_batch limit w.db).1
  pub pushes : v.pushes ≡ w.pushes
  pub sized :
      length jobs ≤ count (chosen (Notifications.claim_batch limit w.db).0) v.db.notifications

abbrev Claimed : ℕ → World → List Uuid → World → Type 0
Claimed limit w ids v =
    (ids ≡ (Notifications.claim_batch limit w.db).0)
    × (v.db ≡ (Notifications.claim_batch limit w.db).1)
    × (v.pushes ≡ w.pushes)

claim_batch-Ends : (limit : ℕ) (w : World) → Ends (Claimed limit w) (perform (claim_batch limit)) w
unfolding exec_calm calm_respond effect
claim_batch-Ends limit w = record { at = (refl, refl, refl) }

selected-WasClaimed :
    (limit : ℕ) (before after : Db) (ids : List Uuid)
    → ids ≡ (Notifications.claim_batch limit before).0
    → after ≡ (Notifications.claim_batch limit before).1
    → All
        (λ job. WasClaimed limit before after job.notification_id)
        (map row_to_job (Notifications.select_notifications ids after))
unfolding Notifications.claim_batch Notifications.select_notifications
selected-WasClaimed limit before after ids e d = All-jobs (WasClaimed limit before after) _ (
    All-sort_by_age _ (select (chosen ids) after.notifications) (
      All-select _ (chosen ids) after.notifications λ n c.
        let given =
          returned-given (oldest_pending limit before) n.id before.notifications
            (ap (λ is. member is n.id) (sym e) ∙ c) in
        (
          given,
          oldest-claimable limit before n.id given,
          rw d (
              left-unclaimable (oldest_pending limit before) n.id before.now before.notifications
                given),
        )))

any-jobs :
    (id : Uuid) (ns : List Notification)
    → any (is_job_of id) (map row_to_job ns) ≡ any (has_id id) ns
unfolding any row_to_job
any-jobs id [] = refl
any-jobs id (n ∷ ns) = ap (λ b. has_id id n || b) (any-jobs id ns)

-- each id that the update returned has a job
selected-loaded :
    (limit : ℕ) (before after : Db) (ids : List Uuid) (id : Uuid)
    → ids ≡ (Notifications.claim_batch limit before).0
    → after ≡ (Notifications.claim_batch limit before).1
    → member (Notifications.claim_batch limit before).0 id ≡ true
    → any (is_job_of id) (map row_to_job (Notifications.select_notifications ids after)) ≡ true
unfolding Notifications.claim_batch Notifications.select_notifications
selected-loaded limit before after ids id e d h =
    let given : member ids id ≡ true = ap (λ is. member is id) e ∙ h in
    let oldest = oldest_pending limit before in
    let found : any (has_id id) before.notifications ≡ true =
      any-weaken (λ n. has_id id n && chosen oldest n) (has_id id) before.notifications
        (λ n x. ground arith)
        (sym (any-select_and (has_id id) (chosen oldest) before.notifications)
          ∙ sym (member-map id (select (chosen oldest) before.notifications))
          ∙ h) in
    let still : any (has_id id) after.notifications ≡ true =
      ap (λ (db : Db). any (has_id id) db.notifications) d
      ∙ any-update_where (has_id id) (chosen oldest) (with_status "processing" none before.now)
          before.notifications (λ n. refl)
      ∙ found in
    any-jobs id (sort_by_age (select (chosen ids) after.notifications))
    ∙ any-sort_by_age (has_id id) (select (chosen ids) after.notifications)
    ∙ any-select_and (has_id id) (chosen ids) after.notifications
    ∙ any-weaken (has_id id) (λ n. has_id id n && chosen ids n) after.notifications
        (λ n x. ground (arith, ap (member ids) ((==_iff n.id id).0 x), given)) still

claim_batch-deliveries :
    (limit : ℕ) (w u : World)
    → u.db ≡ (Notifications.claim_batch limit w.db).1
    → u.db.deliveries ≡ w.db.deliveries
unfolding Notifications.claim_batch
claim_batch-deliveries limit w u d = ap (λ db. db.deliveries) d

selected-sized :
    (limit : ℕ) (before after : Db) (ids : List Uuid)
    → ids ≡ (Notifications.claim_batch limit before).0
    → length (map row_to_job (Notifications.select_notifications ids after))
      ≤ count (chosen (Notifications.claim_batch limit before).0) after.notifications
unfolding Notifications.select_notifications
selected-sized limit before after ids e = rw (← e) (
    omega (
      arith,
      length-map row_to_job (sort_by_age (select (chosen ids) after.notifications)),
      length-sort_by_age (select (chosen ids) after.notifications),
      length-select (chosen ids) after.notifications,
    ))

load_claimed-Ends :
    (limit : ℕ) (w u : World) (ids : List Uuid)
    → Claimed limit w ids u
    → Ends (Taken limit w) (load_claimed ids) u
unfolding load_claimed Monitoring.claim exec_calm calm_respond effect ◌>>=◌ any
load_claimed-Ends limit w u [] c = record {
  at = record {
    were_pending = tt;
    all_loaded = λ id h. cc (ap (λ ids. member ids id) c.0 ∙ h);
    deliveries = claim_batch-deliveries limit w u c.1;
    tables = c.1;
    pushes = c.2;
    sized = omega arith;
  };
}
load_claimed-Ends limit w u (id ∷ ids) c = record {
  at = record {
    all_loaded = λ i. selected-loaded limit w.db u.db (id ∷ ids) i c.0 c.1;
    were_pending = selected-WasClaimed limit w.db u.db (id ∷ ids) c.0 c.1;
    deliveries = claim_batch-deliveries limit w u c.1;
    tables = c.1;
    pushes = c.2;
    sized = selected-sized limit w.db u.db (id ∷ ids) c.0;
  };
}

pub oldest-limit : (limit : ℕ) (db : Db) → length (oldest_pending limit db) ≤ limit
unfolding oldest_pending
oldest-limit limit db =
    let rows = take limit (sort_by_age (select is_pending db.notifications)) in
    omega (
      arith,
      length-map id_of rows,
      length-take-le limit (sort_by_age (select is_pending db.notifications)),
    )

pub claim_pending_batch-Taken :
    (limit : ℕ) (w : World) → Ends (Taken limit w) (claim_pending_batch (pos limit)) w
unfolding claim_pending_batch
claim_pending_batch-Taken limit w =
    Ends-bind (Claimed limit w) (perform (claim_batch limit)) load_claimed w
      (claim_batch-Ends limit w) (λ ids u c. load_claimed-Ends limit w u ids c)

-- While the database does not fail, a batch claim returns jobs of notifications that are all in
-- the list of the oldest pending ones, which has at most as many as the limit, and that are not
-- pending after it, with one for each id that its update returned. It leaves the ledger as it was
-- and confirms no push.
pub claim_batch_takes :
    (limit : ℕ) (w : World)
    → w.answers ≡ []
    → (jobs : List DeliveryJob) × (v : World) × (exec (claim_pending_batch (pos limit)) w
        ≡ (ok jobs, v))
      × Taken limit w jobs v
      × (length (oldest_pending limit w.db) ≤ limit)
claim_batch_takes limit w e =
    let (jobs, v, ran, t) =
      Ends-returns (claim_pending_batch (pos limit)) w e (claim_pending_batch-Taken limit w) in
    (jobs, v, ran, t, oldest-limit limit w.db)
