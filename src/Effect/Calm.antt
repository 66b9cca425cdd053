-- ===== src/Effect/Calm.antt =====
-- Runs in which neither the database nor Pub/Sub fails. Expo may refuse any push.
use inride_worker_manager.Domain.{Uuid}
use mathlib.Core.Path.{subst}
use inride_worker_manager.Prelude.{if◌then◌else◌, Bool, false, true, sym, [], refl, ◌≡◌}
use inride_worker_manager.Effect.World.{
  Answer, answered, exec, fails_after, fails_before, fine, next_answer, World, effect,
  push_answered, respond, unanswered,
}
use inride_worker_manager.Effect.{
  Client, PushMessage, Exn, Op, Prog, Reply, Result, call, catch, done, ok, publish, raised, ◌>>=◌,
}

unfoldable pub calm_respond : (o : Op) → World → Result (Reply o) × World
calm_respond (publish c l d m) w = push_answered (publish c l d m) w
calm_respond o w = let (r, w') = effect o w in (ok r, w')

unfoldable pub exec_calm : {A : Type 0} → Prog A → World → Result A × World
exec_calm (done r) w = (r, w)
exec_calm (call o k) w = let (r, w') = calm_respond o w in exec_calm (k r) w'

abbrev pub go_on : {A B : Type 0} → Result A × World → (A → Prog B) → Result B × World
go_on (ok a, w) f = exec_calm (f a) w
go_on (raised e, w) f = (raised e, w)

pub exec_calm-bind :
    {A B : Type 0} (m : Prog A) (f : A → Prog B) (w : World)
    → exec_calm (m >>= f) w ≡ go_on (exec_calm m w) f
unfolding exec_calm ◌>>=◌
exec_calm-bind (done (ok a)) f w = refl
exec_calm-bind (done (raised e)) f w = refl
exec_calm-bind (call o k) f w = let (r, w') = calm_respond o w in exec_calm-bind (k r) f w'

abbrev pub go_back : {A : Type 0} → Result A × World → (Exn → Prog A) → Result A × World
go_back (ok a, w) h = (ok a, w)
go_back (raised e, w) h = exec_calm (h e) w

pub exec_calm-catch :
    {A : Type 0} (m : Prog A) (h : Exn → Prog A) (w : World)
    → exec_calm (catch m h) w ≡ go_back (exec_calm m w) h
unfolding exec_calm catch
exec_calm-catch (done (ok a)) h w = refl
exec_calm-catch (done (raised e)) h w = refl
exec_calm-catch (call o k) h w = let (r, w') = calm_respond o w in exec_calm-catch (k r) h w'

abbrev Agrees : Op → World → Type 0
Agrees o w = (respond o w ≡ calm_respond o w) × ((calm_respond o w).1.answers ≡ [])

push-calm :
    (c : Client) (l d : Uuid) (m : PushMessage) (a : Answer) (w : World)
    → (answered (publish c l d m) a w).1.answers ≡ w.answers
unfolding effect unanswered
push-calm c l d m fine w = refl
push-calm c l d m (fails_before e) w = refl
push-calm c l d m (fails_after e) w = refl

Agrees-emptied : (o : Op) (w : World) → Agrees o (record w { answers = [] })
unfolding respond calm_respond effect
Agrees-emptied (publish c l d m) w = (refl, push-calm c l d m (next_answer w.expo) _)
Agrees-emptied o w = (refl, refl)

respond-calm : (o : Op) (w : World) → w.answers ≡ [] → Agrees o w
respond-calm o w e = subst (Agrees o) (λ i. record w { answers = sym e i }) (Agrees-emptied o w)

-- With no failures scheduled, a run is a calm run.
pub exec-calm : {A : Type 0} (m : Prog A) (w : World) → w.answers ≡ [] → exec m w ≡ exec_calm m w
unfolding exec exec_calm
exec-calm (done r) w e = refl
exec-calm (call o k) w e =
    let (same, still) = respond-calm o w e in
    rw same (let (r, w') = calm_respond o w in exec-calm (k r) w' still)

-- and the schedule of failures stays empty.
pub exec_calm-answers :
    {A : Type 0} (m : Prog A) (w : World) → w.answers ≡ [] → (exec_calm m w).1.answers ≡ []
unfolding exec_calm
exec_calm-answers (done r) w e = e
exec_calm-answers (call o k) w e =
    let (same, still) = respond-calm o w e in
    let (r, w') = calm_respond o w in exec_calm-answers (k r) w' still

-- A calm run returns, with a result and a world of which `Q` holds.
abbrev pub Holds : {A : Type 0} → (A → World → Type 0) → Result A × World → Type 0
Holds Q (ok a, w) = Q a w
Holds Q (raised e, w) = ⊥

pub record Ends {A : Type 0} (Q : A → World → Type 0) (m : Prog A) (w : World) : Type 0 where
  pub at : Holds Q (exec_calm m w)

Holds-returns :
    {A : Type 0} (Q : A → World → Type 0) (x : Result A × World)
    → Holds Q x
    → (a : A) × (v : World) × (x ≡ (ok a, v)) × Q a v
Holds-returns Q (ok a, v) h = (a, v, refl, h)
Holds-returns Q (raised e, v) h = absurd h

pub Ends-returns :
    {A : Type 0} {Q : A → World → Type 0} (m : Prog A) (w : World)
    → w.answers ≡ []
    → Ends Q m w
    → (a : A) × (v : World) × (exec m w ≡ (ok a, v)) × Q a v
Ends-returns {Q = Q} m w e h = rw (exec-calm m w e) (Holds-returns Q (exec_calm m w) h.at)

Holds-go_on :
    {A B : Type 0} (Q : A → World → Type 0) (R : B → World → Type 0) (x : Result A × World)
    (f : A → Prog B)
    → Holds Q x
    → ((a : A) (v : World) → Q a v → Ends R (f a) v)
    → Holds R (go_on x f)
Holds-go_on Q R (ok a, v) f h g = (g a v h).at
Holds-go_on Q R (raised e, v) f h g = absurd h

pub Ends-bind :
    {A B : Type 0} (Q : A → World → Type 0) {R : B → World → Type 0} (m : Prog A) (f : A → Prog B)
    (w : World)
    → Ends Q m w
    → ((a : A) (v : World) → Q a v → Ends R (f a) v)
    → Ends R (m >>= f) w
Ends-bind Q {R = R} m f w h g = record {
  at = rw (exec_calm-bind m f w) (Holds-go_on Q R (exec_calm m w) f h.at g);
}

Holds-weaken :
    {A : Type 0} (Q R : A → World → Type 0) (x : Result A × World)
    → Holds Q x
    → ((a : A) (v : World) → Q a v → R a v)
    → Holds R x
Holds-weaken Q R (ok a, v) h g = g a v h
Holds-weaken Q R (raised e, v) h g = absurd h

pub Ends-weaken :
    {A : Type 0} (Q : A → World → Type 0) {R : A → World → Type 0} (m : Prog A) (w : World)
    → Ends Q m w
    → ((a : A) (v : World) → Q a v → R a v)
    → Ends R m w
Ends-weaken Q {R = R} m w h g = record { at = Holds-weaken Q R (exec_calm m w) h.at g }

pub Ends-if :
    {A : Type 0} {Q : A → World → Type 0} (b : Bool) (m n : Prog A) (w : World)
    → (b ≡ true → Ends Q m w)
    → (b ≡ false → Ends Q n w)
    → Ends Q (if b then m else n) w
Ends-if true m n w h k = h refl
Ends-if false m n w h k = k refl

Holds-go_back :
    {A : Type 0} (Q : A → World → Type 0) (x : Result A × World) (h : Exn → Prog A)
    → Holds Q x
    → Holds Q (go_back x h)
Holds-go_back Q (ok a, v) h p = p
Holds-go_back Q (raised e, v) h p = absurd p

-- A calm run meets no handler where it returns.
pub Ends-catch :
    {A : Type 0} {Q : A → World → Type 0} (m : Prog A) (h : Exn → Prog A) (w : World)
    → Ends Q m w
    → Ends Q (catch m h) w
Ends-catch {Q = Q} m h w p = record {
  at = rw (exec_calm-catch m h w) (Holds-go_back Q (exec_calm m w) h p.at);
}

Holds-also :
    {A : Type 0} (Q : A → World → Type 0) (G : World → Type 0) (x : Result A × World)
    → Holds Q x
    → G x.1
    → Holds (λ a v. Q a v × G v) x
Holds-also Q G (ok a, v) h g = (h, g)
Holds-also Q G (raised e, v) h g = absurd h

pub Ends-also :
    {A : Type 0} {Q : A → World → Type 0} (G : World → Type 0) (m : Prog A) (w : World)
    → Ends Q m w
    → G (exec_calm m w).1
    → Ends (λ a v. Q a v × G v) m w
Ends-also {Q = Q} G m w h g = record { at = Holds-also Q G (exec_calm m w) h.at g }

-- A run that starts with no failures scheduled ends with none.
pub exec-answers :
    {A : Type 0} (m : Prog A) (w v : World) (r : Result A)
    → w.answers ≡ []
    → exec m w ≡ (r, v)
    → v.answers ≡ []
exec-answers m w v r e ran =
    subst (λ x. x.1.answers ≡ []) ran (rw (exec-calm m w e) (exec_calm-answers m w e))
