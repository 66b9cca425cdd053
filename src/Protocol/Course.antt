-- ===== src/Protocol/Course.antt =====
-- A course of the system with conditions on what happens in it, and the statuses that its threads
-- store: app/pipeline/finalizer.py is given no other status than `sent` and `failed`.
use inride_worker_manager.Effect.Operations.{Makes}
use inride_worker_manager.Effect.Relates.{respond-Relates, tables}
use inride_worker_manager.Ingress.PubsubSubscriber.{Codec}
use inride_worker_manager.Core.{Config}
use inride_worker_manager.Effect.{Op, Prog, Reply, Result, call}
use inride_worker_manager.Prelude.{Bool-cases, List, inl, inr, ℕ, ◌==◌, ◌≡◌}
use inride_worker_manager.Domain.{DeliveryJob, DeliveryPolicy, value}
use inride_worker_manager.Effect.World.{Answer, World, effect, respond}
use inride_worker_manager.Pipeline.Runner.{or_failed}
use inride_worker_manager.Db.{Db}
use mathlib.Core.Path.{subst}
use inride_worker_manager.Protocol.System.{
  Entry, Reach, System, act, advance, begin, begins, fresh, interfere, job_ran, later, message_came,
  others, poller_ran, start, stopped, update,
}
use inride_worker_manager.Ingress.Statuses.{only_final, FinalStatus}
use inride_worker_manager.Ingress.Operations.{
  EntryOp, on_message-EntryOps, poll-EntryOps, run_job-EntryOps,
}

-- Threads make operations and start programs in any order, and others change the tables; `Acts`
-- says which operations, and `Others` which tables they may leave.
pub data Course (cfg : Config) (policy : DeliveryPolicy) (codec : Codec) (Acts : Op → Type 0)
    (Others : Db → Type 0) (s : System) : System → Type 0 where
  no_turn : Course cfg policy codec Acts Others s s
  acts :
      {t : System} (i : ℕ) (o : Op) (k : Result (Reply o) → Prog (Unit {0}))
      → Course cfg policy codec Acts Others s t
      → t.prog i ≡ call o k
      → Acts o
      → Course cfg policy codec Acts Others s (advance t i o k)
  entered :
      {t : System} (i : ℕ) (e : Entry)
      → Course cfg policy codec Acts Others s t
      → Course cfg policy codec Acts Others s (begin t i (start cfg policy codec e))
  changed :
      {t : System} (db : Db) (answers expo : List Answer)
      → Course cfg policy codec Acts Others s t
      → Others db
      → Course cfg policy codec Acts Others s (interfere t db answers expo)

module _ (cfg : Config) (policy : DeliveryPolicy) (codec : Codec)
    (final : (job : DeliveryJob)
      → FinalStatus (value (or_failed cfg policy (policy.skip_status job)))) where
  -- every thread stores final statuses only
  abbrev pub StoresFinal : System → Type 0
  StoresFinal s = (i : ℕ) → Makes (EntryOp FinalStatus) (s.prog i)

  start-StoresFinal : (e : Entry) → Makes (EntryOp FinalStatus) (start cfg policy codec e)
  start-StoresFinal (message_came started m) =
      (on_message-EntryOps cfg policy (only_final cfg policy final) codec started m).at
  start-StoresFinal (poller_ran rounds) =
      (poll-EntryOps cfg policy (only_final cfg policy final) rounds).at
  start-StoresFinal (job_ran job) =
      (run_job-EntryOps cfg policy (only_final cfg policy final) job).at
  start-StoresFinal stopped = tt

  pub update-StoresFinal :
      (f : ℕ → Prog (Unit {0})) (i : ℕ) (m : Prog (Unit {0}))
      → ((j : ℕ) → Makes (EntryOp FinalStatus) (f j))
      → Makes (EntryOp FinalStatus) m
      → (j : ℕ) → Makes (EntryOp FinalStatus) (update f i m j)
  update-StoresFinal f i m h g j = elim (Bool-cases (i == j)) [
    | inl e ↦ rw e g
    | inr e ↦ rw e (h j)
  ]

  -- the operation that a thread comes to, and what it goes on with
  pub made :
      (s : System) (i : ℕ) (o : Op) (k : Result (Reply o) → Prog (Unit {0}))
      → StoresFinal s
      → s.prog i ≡ call o k
      → Makes (EntryOp FinalStatus) (call o k)
  made s i o k h e = subst (λ m. Makes (EntryOp FinalStatus) m) e (h i)

  pub advance-StoresFinal :
      (s : System) (i : ℕ) (o : Op) (k : Result (Reply o) → Prog (Unit {0}))
      → StoresFinal s
      → s.prog i ≡ call o k
      → StoresFinal (advance s i o k)
  advance-StoresFinal s i o k h e =
      update-StoresFinal s.prog i (k (respond o s.world).0) h ((made s i o k h e).1 _)

  pub Reach-StoresFinal : {s : System} → Reach cfg policy codec s → StoresFinal s
  Reach-StoresFinal (fresh w e) = λ i. tt
  Reach-StoresFinal (later r (act s i o k e)) = advance-StoresFinal s i o k (Reach-StoresFinal r) e
  Reach-StoresFinal (later r (begins s i e)) =
      update-StoresFinal s.prog i (start cfg policy codec e) (Reach-StoresFinal r)
        (start-StoresFinal e)
  Reach-StoresFinal (later r (others s db answers expo e)) = Reach-StoresFinal r

  -- What every allowed operation keeps of the tables, and others leave so, a course keeps.
  pub Course-keeps :
      {Acts : Op → Type 0} {Others : Db → Type 0} (K : Db → Type 0)
      → ((o : Op) (w : World) → EntryOp FinalStatus o → Acts o → K w.db → K (effect o w).1.db)
      → ((db : Db) → Others db → K db)
      → {s t : System} → StoresFinal s
      → Course cfg policy codec Acts Others s t
      → K s.world.db
      → K t.world.db × StoresFinal t
  Course-keeps K step left h no_turn k = (k, h)
  Course-keeps K step left h (acts {t} i o f c e a) k =
      let (kept, now) = Course-keeps K step left h c k in
      (
        respond-Relates tables (λ a b. K a → K b) (λ db x. x) o
            (λ w. step o w (made t i o f now e).0 a) t.world kept,
        advance-StoresFinal t i o f now e,
      )
  Course-keeps K step left h (entered {t} i e c) k =
      let (kept, now) = Course-keeps K step left h c k in
      (kept, update-StoresFinal t.prog i (start cfg policy codec e) now (start-StoresFinal e))
  Course-keeps K step left h (changed {t} db answers expo c o) k =
      (left db o, (Course-keeps K step left h c k).1)
