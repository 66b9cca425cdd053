-- ===== src/Effect/Laws.antt =====
-- How runs compose.
use inride_worker_manager.Prelude.{◌≡◌, refl}
use inride_worker_manager.Effect.{Exn, Result, ok, raised, Prog, done, call, ◌>>=◌, catch}
use inride_worker_manager.Effect.World.{World, respond, exec}

abbrev pub continue : {A B : Type 0} → Result A × World → (A → Prog B) → Result B × World
continue (ok a, w) f = exec (f a) w
continue (raised e, w) f = (raised e, w)

pub exec-bind :
    {A B : Type 0} (m : Prog A) (f : A → Prog B) (w : World)
    → exec (m >>= f) w ≡ continue (exec m w) f
unfolding exec ◌>>=◌
exec-bind (done (ok a)) f w = refl
exec-bind (done (raised e)) f w = refl
exec-bind (call o k) f w = let (r, w') = respond o w in exec-bind (k r) f w'

abbrev pub recover : {A : Type 0} → Result A × World → (Exn → Prog A) → Result A × World
recover (ok a, w) h = (ok a, w)
recover (raised e, w) h = exec (h e) w

pub exec-catch :
    {A : Type 0} (m : Prog A) (h : Exn → Prog A) (w : World)
    → exec (catch m h) w ≡ recover (exec m w) h
unfolding exec catch
exec-catch (done (ok a)) h w = refl
exec-catch (done (raised e)) h w = refl
exec-catch (call o k) h w = let (r, w') = respond o w in exec-catch (k r) h w'
