-- ===== src/Pipeline/Claimer/Exclusive.antt =====
-- That a claim excludes others, for any operations of any threads in between: `claim_by_id` and
-- `claim_pending_batch` of app/pipeline/claimer.py against each other.
use inride_worker_manager.Pipeline.Claimer.Undisturbed.{IsTaken, Undisturbed, Undisturbed-IsTaken}
use inride_worker_manager.Pipeline.Claimer.Claims.{claimed-none_pending}
use inride_worker_manager.Pipeline.Claimer.Batches.{
  oldest-claimable, left-unclaimable, returned-given,
}
use inride_worker_manager.Domain.{Uuid}
use inride_worker_manager.Db.Notifications.{member, oldest_pending, claimable}
use inride_worker_manager.Effect.{Exn, raised, Reply, Result, ok, Op, claim_batch, claim_pending}
use inride_worker_manager.Effect.World.{
  Answer, World, answered, effect, fails_after, fails_before, fine, later_answers, next_answer,
  respond,
}
use inride_worker_manager.Db.{Db}
use inride_worker_manager.Db.Notifications
use inride_worker_manager.Prelude.{
  ==_iff, refl, first, some, ◌==◌, Bool-cases, any, inl, inr, ℕ, Bool, true, false, ◌≡◌,
}

module _ (id : Uuid) where
  -- the reply of a claim that takes `id`
  abbrev pub takes : (o : Op) → Result (Reply o) → Bool
  takes (claim_pending j) (ok (some i)) = i == id
  takes (claim_batch limit) (ok ids) = member ids id
  takes o r = false

  given-claimable :
      (limit : ℕ) (db : Db)
      → member ((Notifications.claim_batch limit db).0) id ≡ true
      → member (oldest_pending limit db) id ≡ true
  unfolding Notifications.claim_batch
  given-claimable limit db h = returned-given (oldest_pending limit db) id db.notifications h

  batch-IsTaken :
      (limit : ℕ) (db : Db)
      → member ((Notifications.claim_batch limit db).0) id ≡ true
      → any (claimable id) ((Notifications.claim_batch limit db).1.notifications) ≡ false
  unfolding Notifications.claim_batch
  batch-IsTaken limit db h =
      left-unclaimable (oldest_pending limit db) id db.now db.notifications
        (given-claimable limit db h)

  claim_pending-taken :
      (j : Uuid) (db : Db)
      → takes (claim_pending j) (ok ((Notifications.claim_pending j db).0)) ≡ true
      → any (claimable id) ((Notifications.claim_pending j db).1.notifications) ≡ false
  unfolding Notifications.claim_pending
  claim_pending-taken j db h = elim (Bool-cases (any (claimable j) db.notifications)) [
    | inl e ↦ rw (e, (==_iff j id).0 (rw e at h)) (claimed-none_pending id db.now db.notifications)
    | inr e ↦ cc (rw e at h)
  ]

  -- a claim that fails takes nothing
  answered-takes-IsTaken :
      (o : Op)
      → ((e : Exn) → takes o (raised e) ≡ false)
      → ((w : World) → takes o (ok ((effect o w).0)) ≡ true → IsTaken id ((effect o w).1))
      → (a : Answer) (w : World) → takes o ((answered o a w).0) ≡ true
      → IsTaken id ((answered o a w).1)
  answered-takes-IsTaken o silent taken fine w h = taken w h
  answered-takes-IsTaken o silent taken (fails_before e) w h = cc (silent e, h)
  answered-takes-IsTaken o silent taken (fails_after e) w h = cc (silent e, h)

  pub respond-takes-IsTaken :
      (o : Op) (w : World) → takes o ((respond o w).0) ≡ true → IsTaken id ((respond o w).1)
  unfolding respond effect
  respond-takes-IsTaken (claim_pending j) w h =
      answered-takes-IsTaken (claim_pending j) (λ e. refl) (λ v. claim_pending-taken j v.db)
        (next_answer w.answers) (record w { answers = later_answers w.answers }) h
  respond-takes-IsTaken (claim_batch limit) w h =
      answered-takes-IsTaken (claim_batch limit) (λ e. refl) (λ v. batch-IsTaken limit v.db)
        (next_answer w.answers) (record w { answers = later_answers w.answers }) h
  respond-takes-IsTaken o w h = cc h

  answered-missed :
      (o : Op)
      → ((e : Exn) → takes o (raised e) ≡ false)
      → ((w : World) → IsTaken id w → takes o (ok ((effect o w).0)) ≡ false)
      → (a : Answer) (w : World) → IsTaken id w
      → takes o ((answered o a w).0) ≡ false
  answered-missed o silent missed fine w h = missed w h
  answered-missed o silent missed (fails_before e) w h = silent e
  answered-missed o silent missed (fails_after e) w h = silent e

  claim_pending-missed :
      (j : Uuid) (db : Db)
      → any (claimable id) db.notifications ≡ false
      → takes (claim_pending j) (ok ((Notifications.claim_pending j db).0)) ≡ false
  unfolding Notifications.claim_pending
  claim_pending-missed j db h = elim (Bool-cases (any (claimable j) db.notifications)) [
    | inr e ↦ rw e refl
    | inl e ↦
        rw e
          (elim (Bool-cases (j == id)) [ inr x ↦ x | inl x ↦ cc (rw ((==_iff j id).0 x) at e, h) ])
  ]

  batch-missed :
      (limit : ℕ) (db : Db)
      → any (claimable id) db.notifications ≡ false
      → member ((Notifications.claim_batch limit db).0) id ≡ false
  batch-missed limit db h = elim (Bool-cases (member ((Notifications.claim_batch limit db).0) id)) [
    | inr x ↦ x
    | inl x ↦ cc (oldest-claimable limit db id (given-claimable limit db x), h)
  ]

  pub none-taken : (o : Op) (w : World) → IsTaken id w → takes o ((respond o w).0) ≡ false
  unfolding respond effect
  none-taken (claim_pending j) w h =
      answered-missed (claim_pending j) (λ e. refl) (λ v. claim_pending-missed j v.db)
        (next_answer w.answers) (record w { answers = later_answers w.answers }) h
  none-taken (claim_batch limit) w h =
      answered-missed (claim_batch limit) (λ e. refl) (λ v. batch-missed limit v.db)
        (next_answer w.answers) (record w { answers = later_answers w.answers }) h
  none-taken o w h = refl

  -- After a claim that took a notification, whoever made it, one by id or of a batch, no
  -- operation takes that notification, after any operations of any threads and any changes by
  -- others, as long as no reclaim and no stored status made it pending again.
  pub claim_excludes :
      (first second : Op) (w v : World)
      → takes first ((respond first w).0) ≡ true
      → Undisturbed id ((respond first w).1) v
      → takes second ((respond second v).0) ≡ false
  claim_excludes first second w v h u =
      none-taken second v (Undisturbed-IsTaken id u (respond-takes-IsTaken first w h))
