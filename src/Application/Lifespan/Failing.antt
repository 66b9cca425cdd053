-- ===== src/Application/Lifespan/Failing.antt =====
-- What a start of app/main.py that raises has brought up before it raised.
use inride_worker_manager.Prelude.{
  Bool, Bool-cases, count, false, inl, inr, is_negative, negsuc, pos, refl, str_eq, true, ℤ, ◌≡◌,
}
use inride_worker_manager.Ingress.Concurrency.{semaphore, new_semaphore}
use inride_worker_manager.Ingress.PollerTask.{start_task, unstarted}
use inride_worker_manager.Ingress.PollerTask.Loops.{running_loops}
use inride_worker_manager.Db.Postgres.{
  PostgresClient, create_engine, engine_ready, initialize, pool_config, unopened,
}
use inride_worker_manager.Core.Settings.{Settings}
use inride_worker_manager.Effect.{Exn, Result, ok, raised}
use inride_worker_manager.Application.Lifespan.{
  App, after_initialize, after_pull, after_semaphore, startup,
}
use inride_worker_manager.Ingress.StreamingPull.{
  PullCall, StreamingPull, is_configured, opens_client, start_pull, stored_future,
  stored_subscriber, subscribes, subscription_path, unsubscribed,
}

stored_future-none :
    (answers : PullCall → Result (Unit {0})) (x : Exn) (r : Result (Unit {0})) (s : StreamingPull)
    → s.has_future ≡ false
    → (stored_future answers (r, s)).0 ≡ raised x
    → (stored_future answers (r, s)).1.has_future ≡ false
stored_future-none answers x (ok u) s f h = cc h
stored_future-none answers x (raised e) s f h = f

stored_subscriber-none :
    (answers : PullCall → Result (Unit {0})) (x : Exn) (pull : PullCall) (r : Result (Unit {0}))
    (s : StreamingPull)
    → s.has_future ≡ false
    → (stored_subscriber answers pull (r, s)).0 ≡ raised x
    → (stored_subscriber answers pull (r, s)).1.has_future ≡ false
stored_subscriber-none answers x pull (ok u) s f h =
    stored_future-none answers x (answers pull) _ f h
stored_subscriber-none answers x pull (raised e) s f h = f

module _ {F : Type 0} (cfg : Settings F) (created : Result (Unit {0})) (library_present : Bool)
    (answers : PullCall → Result (Unit {0})) where
  -- The three ways to fail, with what is up then: nothing, where there is no URL or the library
  -- refuses it; the engine, where the number of permits is negative; the engine and a loop of the
  -- poller that nothing stops, where a streaming pull that is configured does not open.
  pub data FailedStart (before : App) (after : App) : Type 0 where
    no_engine :
        after.client ≡ unopened
        → after.poller ≡ before.poller
        → after.pull ≡ before.pull
        → FailedStart before after
    no_permits :
        is_negative cfg.max_concurrent_notifications ≡ true
        → after.client ≡ engine_ready (create_engine (pool_config cfg))
        → after.poller ≡ before.poller
        → after.pull ≡ before.pull
        → FailedStart before after
    no_pull :
        library_present ≡ true
        → is_configured cfg ≡ true
        → after.client ≡ engine_ready (create_engine (pool_config cfg))
        → running_loops after.poller ≡ 1
        → after.pull.has_future ≡ false
        → FailedStart before after

  pull_fails :
      (x : Exn)
      → (start_pull answers library_present cfg unsubscribed).0 ≡ raised x
      → (library_present ≡ true)
        × (is_configured cfg ≡ true)
        × ((start_pull answers library_present cfg unsubscribed).1.has_future ≡ false)
  unfolding start_pull
  pull_fails x h = elim (Bool-cases library_present) [
    | inr e ↦ cc (rw e at h)
    | inl e ↦ elim (Bool-cases (is_configured cfg)) [
      | inr c ↦ cc (rw (e, c) at h)
      | inl c ↦ (
        e,
        c,
        rw (e, c)
            (stored_subscriber-none answers x
              (subscribes (subscription_path cfg) cfg.pubsub_max_messages) (answers opens_client) _
              refl (rw (e, c) at h)),
      )
    ]
  ]

  one_loop : running_loops (start_task unstarted) ≡ 1
  unfolding start_task count
  one_loop = refl

  after_pull-raised :
      (app : App) (x : Exn) (r : Result (Unit {0}) × StreamingPull)
      → (after_pull cfg created library_present answers app r).0 ≡ raised x
      → (r.0 ≡ raised x)
        × ((after_pull cfg created library_present answers app r).1 ≡ record app { pull = r.1 })
  after_pull-raised app x (ok u, s) h = cc h
  after_pull-raised app x (raised e, s) h = (h, refl)

  by_permits :
      (app : App) (x : Exn) (permits : ℤ)
      → cfg.max_concurrent_notifications ≡ permits
      → let c = engine_ready (create_engine (pool_config cfg)) in
        (after_semaphore cfg created library_present answers app c (new_semaphore permits)).0
          ≡ raised x
        → FailedStart app
            ((after_semaphore cfg created library_present answers app c (new_semaphore permits)).1)
  unfolding new_semaphore
  by_permits app x (negsuc n) e h = no_permits (rw e refl) refl refl refl
  by_permits app x (pos n) e h =
      let started = record app {
        client = engine_ready (create_engine (pool_config cfg));
        gate = semaphore n;
        poller = start_task unstarted;
      } in
      let (failed, same) =
        after_pull-raised started x (start_pull answers library_present cfg unsubscribed) h in
      let (library, configured, future) = pull_fails x failed in
      rw same (no_pull library configured refl one_loop future)

  by_engine :
      (app : App) (x : Exn) (r : Result (Unit {0}))
      → (after_initialize cfg r library_present answers app
          (initialize r (pool_config cfg) unopened)).0
        ≡ raised x
      → FailedStart app (
          (after_initialize cfg r library_present answers app
            (initialize r (pool_config cfg) unopened)).1)
  unfolding initialize
  by_engine app x (raised e) h = elim (Bool-cases (str_eq cfg.pg_db_url "")) [
    | inl b ↦ rw b (no_engine refl refl refl)
    | inr b ↦ rw b (no_engine refl refl refl)
  ]
  by_engine app x (ok t) h = elim (Bool-cases (str_eq cfg.pg_db_url "")) [
    | inl b ↦ rw b (no_engine refl refl refl)
    | inr b ↦ rw b (by_permits app x cfg.max_concurrent_notifications refl (rw b at h))
  ]

  by_client :
      (app : App) (x : Exn) (c : PostgresClient)
      → c ≡ unopened
      → (after_initialize cfg created library_present answers app
          (initialize created (pool_config cfg) c)).0
        ≡ raised x
      → FailedStart app (
          (after_initialize cfg created library_present answers app
            (initialize created (pool_config cfg) c)).1)
  by_client app x c u h = rw u (by_engine app x created (rw u at h))

  -- A start without an engine that raises leaves one of three states: no engine, no loop and no
  -- pull more than before; or the engine alone, where the number of permits is negative; or, where
  -- the streaming pull is configured, its library is there and it does not open, the engine and
  -- one running loop of the poller, with no pull. So in the last case the loop is left running.
  pub startup_fails :
      (app : App) (x : Exn)
      → app.client ≡ unopened
      → (startup cfg created library_present answers app).0 ≡ raised x
      → FailedStart app ((startup cfg created library_present answers app).1)
  unfolding startup
  startup_fails app x u h = by_client app x app.client u h
