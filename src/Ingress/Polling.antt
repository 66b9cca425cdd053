-- ===== src/Ingress/Polling.antt =====
-- The loop of app/ingress/pending_poller.py survives every failure.
use inride_worker_manager.Ingress.PendingPoller.{poll, tick}
use inride_worker_manager.Prelude.{refl, suc, zero, ℕ, ◌≡◌}
use inride_worker_manager.Core.{Config}
use inride_worker_manager.Effect.World.{World, exec}
use inride_worker_manager.Effect.{Prog, Result, catch, ok, pure, raised}
use inride_worker_manager.Domain.{DeliveryPolicy}
use inride_worker_manager.Effect.Laws.{continue, exec-bind, exec-catch, recover}

module _ (cfg : Config) (policy : DeliveryPolicy) where
  recovered : (x : Result (Unit {0}) × World) → (recover x (λ e. pure tt)).0 ≡ ok tt
  unfolding exec
  recovered (ok u, v) = refl
  recovered (raised e, v) = refl

  go_on_from :
      (x : Result (Unit {0}) × World) (m : Prog (Unit {0}))
      → x.0 ≡ ok tt
      → ((v : World) → (exec m v).0 ≡ ok tt)
      → (continue x (λ u. m)).0 ≡ ok tt
  go_on_from (ok u, v) m h g = g v
  go_on_from (raised e, v) m h g = cc h

  -- Whatever fails, in whatever tick, the poller ends its rounds without an exception.
  pub poll_never_raises : (rounds : ℕ) (w : World) → (exec (poll cfg policy rounds) w).0 ≡ ok tt
  unfolding poll exec
  poll_never_raises zero w = refl
  poll_never_raises (suc rounds) w =
      rw (exec-bind (catch (tick cfg policy) (λ e. pure tt)) (λ u. poll cfg policy rounds) w) (
        go_on_from _ (poll cfg policy rounds)
          (rw (exec-catch (tick cfg policy) (λ e. pure tt) w) (recovered _))
          (poll_never_raises rounds))
