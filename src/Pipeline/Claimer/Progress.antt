-- ===== src/Pipeline/Claimer/Progress.antt =====
-- How many pending rows a batch claim of app/pipeline/claimer.py leaves.
use inride_worker_manager.Pipeline.Claimer.Ages.{length-sort_by_age}
use inride_worker_manager.Db.Notifications
use inride_worker_manager.Db.{Db, Notification}
use inride_worker_manager.Db.Notifications.{
  id_of, insert_by_age, is_pending, oldest_pending, sort_by_age, with_status,
}
use inride_worker_manager.Pipeline.Claimer.Batches.{chosen}
use inride_worker_manager.Prelude.{
  ==_iff, Bool, List, [], any, arith, count, count-All, count-select_and, count-take-le,
  count-update_lose, length-select, length-take, map, none, refl, select, take, true, ℕ, ◌&&◌, ◌+◌,
  ◌-◌, ◌∷◌, ◌≡◌, ◌≤◌, All, All-weaken,
}

count-insert_by_age :
    (p : Notification → Bool) (n : Notification) (ms : List Notification)
    → count p (insert_by_age n ms) ≡ count p (n ∷ ms)
unfolding count insert_by_age
count-insert_by_age p n [] = refl
count-insert_by_age p n (m ∷ ms) = ground (arith, count-insert_by_age p n ms)

count-sort_by_age :
    (p : Notification → Bool) (ns : List Notification) → count p (sort_by_age ns) ≡ count p ns
unfolding count sort_by_age
count-sort_by_age p [] = refl
count-sort_by_age p (n ∷ ns) =
    omega (arith, count-insert_by_age p n (sort_by_age ns), count-sort_by_age p ns)

-- rows are chosen by their own ids
All-chosen : (ns : List Notification) → All (λ n. chosen (map id_of ns) n ≡ true) ns
unfolding any
All-chosen [] = tt
All-chosen (n ∷ ns) = (
  ground (arith, ==_iff n.id n.id),
  All-weaken (λ m. chosen (map id_of ns) m ≡ true) (λ m. chosen (map id_of (n ∷ ns)) m ≡ true) ns
      (λ m h. ground (arith, h)) (All-chosen ns),
)

-- at least as many pending rows are chosen as the limit admits
chosen-many :
    (limit : ℕ) (db : Db)
    → count is_pending db.notifications
      ≤ count (λ n. is_pending n && chosen (oldest_pending limit db) n) db.notifications
        + (count is_pending db.notifications - limit)
unfolding oldest_pending
chosen-many limit db =
    let rows = sort_by_age (select is_pending db.notifications) in
    let taken = take limit rows in
    omega (
      arith,
      length-take limit rows,
      length-sort_by_age (select is_pending db.notifications),
      length-select is_pending db.notifications,
      count-All (chosen (map id_of taken)) taken (All-chosen taken),
      count-take-le (chosen (map id_of taken)) limit rows,
      count-sort_by_age (chosen (map id_of taken)) (select is_pending db.notifications),
      count-select_and (chosen (map id_of taken)) is_pending db.notifications,
    )

-- A batch claim takes as many pending rows as its limit, or all.
pub claim_batch-progress :
    (limit : ℕ) (db : Db)
    → count is_pending (Notifications.claim_batch limit db).1.notifications
      ≤ count is_pending db.notifications - limit
unfolding Notifications.claim_batch
claim_batch-progress limit db = omega (
  arith,
  chosen-many limit db,
  count-update_lose is_pending (chosen (oldest_pending limit db))
      (with_status "processing" none db.now) db.notifications (λ n. refl),
)
