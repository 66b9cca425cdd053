-- ===== src/Effect/Relates.antt =====
-- What the effect of an operation does to the tables and to the messages, its answer does, whether
-- it fails or not.
use inride_worker_manager.Db.{Db}
use inride_worker_manager.Effect.{Op, increment, publish}
use inride_worker_manager.Prelude.{List}
use inride_worker_manager.Effect.World.{
  Answer, Signal, World, answered, effect, fails_after, fails_before, fine, later_answers,
  next_answer, respond, unanswered,
}

-- a relation between what is seen before and after, that holds where nothing changes
module _ {A : Type 0} (view : Db → List Signal → A) (R : A → A → Type 0)
    (same : (a : A) → R a a) where
  abbrev seen : World → A
  seen w = view w.db w.signals

  unanswered-Relates :
      (o : Op)
      → ((w : World) → R (seen w) (seen (effect o w).1))
      → (w : World) → R (seen w) (seen (unanswered o w))
  unfolding unanswered
  unanswered-Relates (publish c l d m) step w = same (seen w)
  unanswered-Relates o step w = step w

  answered-Relates :
      (o : Op)
      → ((w : World) → R (seen w) (seen (effect o w).1))
      → (a : Answer) (w : World) → R (seen w) (seen (answered o a w).1)
  answered-Relates o step fine w = step w
  answered-Relates o step (fails_before e) w = same (seen w)
  answered-Relates o step (fails_after e) w = unanswered-Relates o step w

  pub respond-Relates :
      (o : Op)
      → ((w : World) → R (view w.db w.signals) (view (effect o w).1.db (effect o w).1.signals))
      → (w : World) → R (view w.db w.signals) (view (respond o w).1.db (respond o w).1.signals)
  unfolding respond
  respond-Relates (increment key n) step w = answered-Relates (increment key n) step fine w
  respond-Relates (publish c l d m) step w =
      answered-Relates (publish c l d m) step (next_answer w.expo)
        (record w { expo = later_answers w.expo })
  respond-Relates o step w =
      answered-Relates o step (next_answer w.answers)
        (record w { answers = later_answers w.answers })

abbrev pub tables : Db → List Signal → Db
tables db signals = db
