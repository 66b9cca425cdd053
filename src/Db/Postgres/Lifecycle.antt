-- ===== src/Db/Postgres/Lifecycle.antt =====
-- The client of app/db/postgres.py through any sequence of calls.
use inride_worker_manager.Prelude.{
  Bool-cases, inl, inr, List, Option, [], if◌then◌else◌, none, refl, some, str_eq, ◌∷◌, ◌≡◌,
}
use inride_worker_manager.Db.Postgres.{
  initialize_closed, Engine, PoolConfig, PostgresClient, close, create_engine, initialize, session,
  unopened,
}
use inride_worker_manager.Effect.{Result, ok, other, raised}

pub data Call : Type 0 where
  opens : (created : Result (Unit {0})) → PoolConfig → Call
  closes : Call

-- the state after a call, whether it returns or raises
unfoldable pub after_call : Call → PostgresClient → PostgresClient
after_call (opens created c) s = (initialize created c s).1
after_call closes s = close s

unfoldable pub after_calls : List Call → PostgresClient → PostgresClient
after_calls [] s = s
after_calls (c ∷ cs) s = after_calls cs (after_call c s)

-- The specification: the client holds one engine or none. The first configuration with a URL
-- that the library accepts opens it, and it stays until it is closed.
abbrev opened : Result (Unit {0}) → PoolConfig → Option Engine → Option Engine
opened created c (some e) = some e
opened (raised x) c none = none
opened (ok u) c none = if str_eq c.url "" then none else some (create_engine c)

abbrev spec_call : Call → Option Engine → Option Engine
spec_call (opens created c) o = opened created c o
spec_call closes o = none

unfoldable pub spec_calls : List Call → Option Engine → Option Engine
spec_calls [] o = o
spec_calls (c ∷ cs) o = spec_calls cs (spec_call c o)

abbrev pub held_engine : Option Engine → Result Engine
held_engine none = raised (other "PostgresClient not initialized")
held_engine (some e) = ok e

-- the client that holds this engine or none
abbrev pub holding_engine : Option Engine → PostgresClient
holding_engine o = record { engine = o; session_factory = o }

initialize_closed_lem :
    (created : Result (Unit {0})) (c : PoolConfig)
    → (initialize_closed created c unopened).1 ≡ holding_engine (opened created c none)
initialize_closed_lem (ok u) c = elim (Bool-cases (str_eq c.url "")) [ inl e ↦ rw e | inr e ↦ rw e ]
initialize_closed_lem (raised x) c = elim (Bool-cases (str_eq c.url "")) [
  | inl e ↦ rw e
  | inr e ↦ rw e
]

call-holding :
    (c : Call) (o : Option Engine)
    → after_call c (holding_engine o) ≡ holding_engine (spec_call c o)
unfolding after_call initialize close
call-holding (opens created c) none = initialize_closed_lem created c
call-holding (opens created c) (some e) = refl
call-holding closes none = refl
call-holding closes (some e) = refl

calls-holding :
    (cs : List Call) (o : Option Engine)
    → after_calls cs (holding_engine o) ≡ holding_engine (spec_calls cs o)
unfolding after_calls spec_calls
calls-holding [] o = refl
calls-holding (c ∷ cs) o = rw (call-holding c o) (calls-holding cs (spec_call c o))

-- After any sequence of calls of `initialize` and `close`, those that raise included, a client
-- that starts closed gives sessions on the engine of the specification, and raises if that has
-- none.
pub session-after_calls :
    (cs : List Call) → session (after_calls cs unopened) ≡ held_engine (spec_calls cs none)
unfolding session
session-after_calls cs = rw (calls-holding cs none) (same (spec_calls cs none))
  where
    same : (o : Option Engine) → session (holding_engine o) ≡ held_engine o
    same none = refl
    same (some e) = refl
