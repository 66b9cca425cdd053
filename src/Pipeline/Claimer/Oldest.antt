-- ===== src/Pipeline/Claimer/Oldest.antt =====
-- A batch claim of app/pipeline/claimer.py takes the oldest pending notifications.
use inride_worker_manager.Pipeline.Claimer.Ages.{All-sort_by_age}
use inride_worker_manager.Pipeline.Claimer.Progress.{claim_batch-progress}
use inride_worker_manager.Pipeline.Claimer.Keys.{
  All-IsFound, HasKeys, HasKeys-update_where, IsFound, by_key, count-chosen,
}
use inride_worker_manager.Prelude.{
  All-both, All-select_of, All-select_where, All-take, All-weaken, arith, length-map, length-select,
  map, refl, take, ==_iff, All, Bool, Bool-cases, List, [], any, ap, count, false, inl, inr, length,
  none, select, sym, true, update_where, ℕ, ◌-◌, ◌==◌, ◌∙◌, ◌∷◌, ◌≡◌, ◌≤◌, ◌⊎◌,
}
use inride_worker_manager.Domain.{DeliveryJob, Uuid}
use inride_worker_manager.Db.{Db, Notification}
use inride_worker_manager.Db.Notifications
use inride_worker_manager.Db.Notifications.{
  id_of, sort_by_age, is_pending, member, oldest_pending, with_status,
}
use inride_worker_manager.Effect.World.{World}
use inride_worker_manager.Pipeline.Claimer.Batches.{
  Taken, oldest-limit, WasClaimed, chosen, is_job_of,
}
use inride_worker_manager.Pipeline.Claimer.Claims.{is_claimable}
use inride_worker_manager.Pipeline.Claimer.Sorted.{IsTakenOrLater, oldest-first, NotYounger}

-- the row is that of one of the jobs
abbrev pub is_among : List DeliveryJob → Notification → Bool
is_among jobs n = any (is_job_of n.id) jobs

-- What a batch claim takes, whatever the order of the rows.
pub record TakesOldest (limit : ℕ) (w : World) (jobs : List DeliveryJob) (v : World) : Type 0 where
  pub within : length jobs ≤ limit
  pub enough : count is_pending v.db.notifications ≤ count is_pending w.db.notifications - limit
  pub took :
      All
        (λ job.
          (is_claimable job.notification_id w.db ≡ true)
          × (is_claimable job.notification_id v.db ≡ false))
        jobs
  pub oldest :
      All
        (λ m. All (λ n. NotYounger n m) (select (is_among jobs) w.db.notifications))
        (select is_pending v.db.notifications)
  pub deliveries : v.db.deliveries ≡ w.db.deliveries
  pub pushes : v.pushes ≡ w.pushes

-- A job among those that were claimed was among the oldest.
among-member :
    (limit : ℕ) (before after : Db) (i : Uuid) (jobs : List DeliveryJob)
    → All (λ job. WasClaimed limit before after job.notification_id) jobs
    → any (is_job_of i) jobs ≡ true
    → member (oldest_pending limit before) i ≡ true
unfolding any
among-member limit before after i [] a h = cc h
among-member limit before after i (job ∷ jobs) a h = elim (Bool-cases (job.notification_id == i)) [
  | inl e ↦
      ap (member (oldest_pending limit before)) (sym ((==_iff job.notification_id i).0 e)) ∙ a.0.0
  | inr e ↦ among-member limit before after i jobs a.1 (rw e at h)
]

-- What holds of the pending rows that are not chosen holds of those that are pending afterwards.
still_pending :
    (Q : Notification → Type 0) (ids : List Uuid) (now : ℕ) (ns : List Notification)
    → All (λ m. (member ids m.id ≡ true) ⊎ Q m) (select is_pending ns)
    → All Q (select is_pending (update_where (chosen ids) (with_status "processing" none now) ns))
unfolding select update_where
still_pending Q ids now [] a = tt
still_pending Q ids now (n ∷ ns) a = elim (Bool-cases (chosen ids n)) [
  | inl c ↦ elim (Bool-cases (is_pending n)) [
    | inl p ↦ rw c (still_pending Q ids now ns ((rw p at a).1))
    | inr p ↦ rw c (still_pending Q ids now ns (rw p at a))
  ]
  | inr c ↦ elim (Bool-cases (is_pending n)) [
    | inl p ↦
        let b = rw p at a in
        rw (c, p) (elim b.0 [ inl e ↦ cc (c, e) | inr q ↦ q ], still_pending Q ids now ns b.1)
    | inr p ↦ rw (c, p) (still_pending Q ids now ns (rw p at a))
  ]
]

-- each of the oldest pending rows is found by its id
All-oldest :
    (P : Notification → Type 0) (limit : ℕ) (ns : List Notification)
    → All P ns
    → All P (take limit (sort_by_age (select is_pending ns)))
All-oldest P limit ns a =
    All-take P limit (sort_by_age (select is_pending ns))
      (All-sort_by_age P (select is_pending ns) (All-select_of P is_pending ns a))

module _ (limit : ℕ) (w v : World) (jobs : List DeliveryJob) (t : Taken limit w jobs v)
    (keys : HasKeys w.db.notifications) where
  abbrev rows : List Notification
  rows = w.db.notifications

  abbrev oldest_rows : List Notification
  oldest_rows = take limit (sort_by_age (select is_pending rows))

  -- no row taken is younger than this one
  abbrev IsLast : Notification → Type 0
  IsLast m = All (λ n. NotYounger n m) (select (is_among jobs) rows)

  among-oldest :
      (n : Notification) → is_among jobs n ≡ true → member (map id_of oldest_rows) n.id ≡ true
  unfolding oldest_pending
  among-oldest n h = among-member limit w.db v.db n.id jobs t.were_pending h

  is_last :
      (m : Notification)
      → IsTakenOrLater oldest_rows m
      → (member (map id_of oldest_rows) m.id ≡ true) ⊎ IsLast m
  is_last m (inl e) = inl e
  is_last m (inr later) = inr (
      All-select_where (λ n. NotYounger n m) (is_among jobs) rows
        (All-weaken (IsFound rows) _ rows
          (λ n found h.
            by_key (λ k. NotYounger k m) rows oldest_rows n
              (All-both (IsFound rows) _ oldest_rows
                (All-oldest (IsFound rows) limit rows (All-IsFound rows keys)) later)
              found (among-oldest n h))
          (All-IsFound rows keys)))

  oldest_taken : All IsLast (select is_pending v.db.notifications)
  unfolding Notifications.claim_batch oldest_pending
  oldest_taken = rw t.tables (
      still_pending IsLast (map id_of oldest_rows) w.db.now rows (
        All-weaken _ _ (select is_pending rows) is_last
          (oldest-first limit (select is_pending rows))))

  within_limit : length jobs ≤ limit
  unfolding Notifications.claim_batch
  within_limit =
      let ids = oldest_pending limit w.db in
      let after : HasKeys v.db.notifications = rw t.tables (
        HasKeys-update_where (chosen ids) (with_status "processing" none w.db.now) rows (λ n. refl)
          keys) in
      omega (
        arith,
        t.sized,
        count-chosen (map id_of (select (chosen ids) rows)) v.db.notifications after,
        length-map id_of (select (chosen ids) rows),
        length-select (chosen ids) rows,
        count-chosen ids rows keys,
        oldest-limit limit w.db,
      )

  pub Taken-TakesOldest : TakesOldest limit w jobs v
  Taken-TakesOldest = record {
    within = within_limit;
    enough = rw t.tables (claim_batch-progress limit w.db);
    took = All-weaken _ _ jobs (λ job c. (c.1, c.2)) t.were_pending;
    oldest = oldest_taken;
    deliveries = t.deliveries;
    pushes = t.pushes;
  }
