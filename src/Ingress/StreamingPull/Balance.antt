-- ===== src/Ingress/StreamingPull/Balance.antt =====
-- What a start and a stop of the streaming pull leave behind.
use inride_worker_manager.Core.Settings.{Settings}
use inride_worker_manager.Ingress.StreamingPull.{
  PullCall, StreamingPull, cancels, closes_client, is_configured, opens_client, start_pull,
  stop_pull, subscribes,
}
use inride_worker_manager.Effect.{Result, ok, raised}
use inride_worker_manager.Prelude.{arith, count, one_if, ℕ, ◌&&◌, ◌+◌, Bool, true, false, ◌≡◌}

abbrev is_open_call : PullCall → Bool
is_open_call opens_client = true
is_open_call _ = false

abbrev is_close_call : PullCall → Bool
is_close_call closes_client = true
is_close_call _ = false

abbrev is_subscribe : PullCall → Bool
is_subscribe (subscribes path n) = true
is_subscribe _ = false

abbrev is_cancel : PullCall → Bool
is_cancel cancels = true
is_cancel _ = false

abbrev succeeds : Result (Unit {0}) → Bool
succeeds (ok _) = true
succeeds (raised e) = false

module _ (answers : PullCall → Result (Unit {0})) where
  -- the calls that opened a client, and those that opened a pull
  abbrev opened_clients : StreamingPull → ℕ
  opened_clients s = count (λ c. is_open_call c && succeeds (answers c)) s.calls

  abbrev opened_pulls : StreamingPull → ℕ
  opened_pulls s = count (λ c. is_subscribe c && succeeds (answers c)) s.calls

  -- the client and the pull that are held are the ones that have not been closed and cancelled
  pub record Balanced (s : StreamingPull) : Type 0 where
    pub clients : opened_clients s ≡ count is_close_call s.calls + one_if s.has_subscriber
    pub pulls : opened_pulls s ≡ count is_cancel s.calls + one_if s.has_future

  pub start_pull-Balanced :
      {F : Type 0} (library_present : Bool) (cfg : Settings F) (s : StreamingPull)
      → s.has_subscriber ≡ false
      → s.has_future ≡ false
      → Balanced s
      → Balanced ((start_pull answers library_present cfg s).1)
  unfolding start_pull is_configured count
  start_pull-Balanced library_present cfg s h k b = record {
    clients = ground (arith, h, k, b.clients);
    pulls = ground (arith, h, k, b.pulls);
  }

  pub stop_pull-Balanced :
      (s : StreamingPull)
      → Balanced s
      → answers cancels ≡ ok tt
      → Balanced ((stop_pull answers s).1)
        × ((stop_pull answers s).0 ≡ ok tt)
        × ((stop_pull answers s).1.has_subscriber ≡ false)
        × ((stop_pull answers s).1.has_future ≡ false)
  unfolding stop_pull count
  stop_pull-Balanced s b h = (
    record { clients = ground (arith, h, b.clients); pulls = ground (arith, h, b.pulls) },
    ground (arith, h),
    ground (arith, h),
    ground (arith, h),
  )
