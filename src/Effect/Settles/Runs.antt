-- ===== src/Effect/Settles/Runs.antt =====
-- The acks and nacks of a run, by what its program may make.
use inride_worker_manager.Effect.Calm.{calm_respond, exec_calm}
use inride_worker_manager.Prelude.{
  arith, refl, suc, ◌∙◌, ◌≤◌, Bool, true, false, count, ◌≡◌, inl, inr, ℕ,
}
use inride_worker_manager.Effect.{
  extend_deadline, increment, publish, ack, nack, Op, Prog, done, call,
}
use inride_worker_manager.Effect.World.{
  Answer, answered, effect, exec, fails_after, fails_before, fine, later_answers, next_answer,
  respond, unanswered, World, Signal, acked, nacked, extended,
}
use inride_worker_manager.Effect.Settles.{is_settling, Quiet, IsQuiet, Once, SettlesOnce}

abbrev pub is_settlement : Signal → Bool
is_settlement (acked m) = true
is_settlement (nacked m) = true
is_settlement (extended m s) = false

-- the acks and nacks that the messages have had
unfoldable pub settlements : World → ℕ
settlements w = count is_settlement w.signals

effect-quiet :
    (o : Op) (w : World) → is_settling o ≡ false → settlements (effect o w).1 ≡ settlements w
unfolding effect settlements count
effect-quiet (ack m) w h = cc h
effect-quiet (nack m) w h = cc h
effect-quiet (extend_deadline m s) w h = omega arith
effect-quiet o w h = refl

effect-once : (o : Op) (w : World) → settlements (effect o w).1 ≤ suc (settlements w)
unfolding effect settlements count
effect-once (ack m) w = omega arith
effect-once (nack m) w = omega arith
effect-once o w = omega arith

unanswered-quiet :
    (o : Op) (w : World) → is_settling o ≡ false → settlements (unanswered o w) ≡ settlements w
unfolding unanswered
unanswered-quiet (publish c l d m) w h = refl
unanswered-quiet o w h = effect-quiet o w h

unanswered-once : (o : Op) (w : World) → settlements (unanswered o w) ≤ suc (settlements w)
unfolding unanswered
unanswered-once (publish c l d m) w = omega arith
unanswered-once o w = effect-once o w

answered-quiet :
    (o : Op) (a : Answer) (w : World)
    → is_settling o ≡ false
    → settlements (answered o a w).1 ≡ settlements w
answered-quiet o fine w h = effect-quiet o w h
answered-quiet o (fails_before e) w h = refl
answered-quiet o (fails_after e) w h = unanswered-quiet o w h

answered-once :
    (o : Op) (a : Answer) (w : World) → settlements (answered o a w).1 ≤ suc (settlements w)
answered-once o fine w = effect-once o w
answered-once o (fails_before e) w = omega arith
answered-once o (fails_after e) w = unanswered-once o w

respond-quiet :
    (o : Op) (w : World) → is_settling o ≡ false → settlements (respond o w).1 ≡ settlements w
unfolding respond settlements effect
respond-quiet (increment key n) w h = refl
respond-quiet (publish c l d m) w h =
    answered-quiet (publish c l d m) (next_answer w.expo) (record w { expo = later_answers w.expo })
      refl
respond-quiet o w h =
    answered-quiet o (next_answer w.answers) (record w { answers = later_answers w.answers }) h

respond-once : (o : Op) (w : World) → settlements (respond o w).1 ≤ suc (settlements w)
unfolding respond settlements count effect
respond-once (increment key n) w = omega arith
respond-once (publish c l d m) w =
    answered-once (publish c l d m) (next_answer w.expo) (record w { expo = later_answers w.expo })
respond-once o w =
    answered-once o (next_answer w.answers) (record w { answers = later_answers w.answers })

exec-Quiet :
    {A : Type 0} (m : Prog A) (w : World) → Quiet m → settlements (exec m w).1 ≡ settlements w
unfolding exec
exec-Quiet (done r) w h = refl
exec-Quiet (call o k) w h =
    let (r, w') = respond o w in exec-Quiet (k r) w' (h.1 r) ∙ respond-quiet o w h.0

exec-Once :
    {A : Type 0} (m : Prog A) (w : World) → Once m → settlements (exec m w).1 ≤ suc (settlements w)
unfolding exec
exec-Once (done r) w h = omega arith
exec-Once (call o k) w (inl h) =
    let (r, w') = respond o w in omega (arith, exec-Quiet (k r) w' (h r), respond-once o w)
exec-Once (call o k) w (inr h) =
    let (r, w') = respond o w in omega (arith, exec-Once (k r) w' (h.1 r), respond-quiet o w h.0)

pub exec-SettlesOnce :
    {A : Type 0} (m : Prog A) (w : World)
    → SettlesOnce m
    → settlements (exec m w).1 ≤ suc (settlements w)
exec-SettlesOnce m w h = exec-Once m w h.at

calm_respond-quiet :
    (o : Op) (w : World) → is_settling o ≡ false → settlements (calm_respond o w).1 ≡ settlements w
unfolding calm_respond settlements
calm_respond-quiet (publish c l d m) w h =
    answered-quiet (publish c l d m) (next_answer w.expo) (record w { expo = later_answers w.expo })
      refl
calm_respond-quiet o w h = effect-quiet o w h

exec_calm-Quiet :
    {A : Type 0} (m : Prog A) (w : World) → Quiet m → settlements (exec_calm m w).1 ≡ settlements w
unfolding exec_calm
exec_calm-Quiet (done r) w h = refl
exec_calm-Quiet (call o k) w h =
    let (r, w') = calm_respond o w in exec_calm-Quiet (k r) w' (h.1 r) ∙ calm_respond-quiet o w h.0

pub exec_calm-IsQuiet :
    {A : Type 0} (m : Prog A) (w : World)
    → IsQuiet m
    → settlements (exec_calm m w).1 ≡ settlements w
exec_calm-IsQuiet m w h = exec_calm-Quiet m w h.at
