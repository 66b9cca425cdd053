-- ===== src/Monitoring/Mirror.antt =====
-- app/monitoring/metrics.py: `PushMetrics` with its OpenTelemetry mirror. What the library
-- does with its calls in an increment is a parameter of the increment. The dict `_otel_counters` is
-- the list of its keys.
pub mod Agreement
use inride_worker_manager.Effect.{Result, ok, raised}
use inride_worker_manager.Prelude.{
  ℕ, String, Bool, false, List, [], ◌∷◌, any, str_eq, if◌then◌else◌,
}
use inride_worker_manager.Effect.World.{add_to}
use inride_worker_manager.Monitoring.{Counters, metric_key}

pub record Increment : Type 0 where
  pub name : String
  pub labels : List (String × String)
  pub amount : ℕ

-- `_local`, whether `_meter` is not None, the names in `_otel_counters`, and what was added to
-- them, newest first
pub record PushMetrics : Type 0 where
  pub local : Counters
  pub has_meter : Bool
  pub otel_counters : List String
  pub exported : List Increment

-- `__init__`: `get_meter` of the library, if it was imported, returns a meter or raises
abbrev pub new_metrics : (imported : Bool) → (get_meter_returns : Bool) → PushMetrics
new_metrics imported get_meter_returns = record {
  local = [];
  has_meter = if imported then get_meter_returns else false;
  otel_counters = [];
  exported = [];
}

-- what the library does with the call of `create_counter`, if there is one, and with that of `add`
pub record MirrorAnswer : Type 0 where
  pub create_counter : Result (Unit {0})
  pub add : Result (Unit {0})

abbrev pub mirrors : MirrorAnswer
mirrors = record { create_counter = ok tt; add = ok tt }

-- `counter.add(amount, labels)`
abbrev pub add_exported :
    Result (Unit {0}) → Increment → PushMetrics → Result (Unit {0}) × PushMetrics
add_exported (ok u) i m = (ok tt, record m { exported = i ∷ m.exported })
add_exported (raised e) i m = (raised e, m)

-- `create_counter(name)`, stored in `_otel_counters`, and the `add` after it
abbrev pub create_exported :
    Result (Unit {0})
    → Result (Unit {0})
    → Increment
    → PushMetrics
    → Result (Unit {0}) × PushMetrics
create_exported (ok u) added i m =
    add_exported added i (record m { otel_counters = i.name ∷ m.otel_counters })
create_exported (raised e) added i m = (raised e, m)

-- the `try` block
unfoldable pub mirrored : MirrorAnswer → Increment → PushMetrics → Result (Unit {0}) × PushMetrics
mirrored answer i m =
    if any (λ n. str_eq n i.name) m.otel_counters
    then add_exported answer.add i m
    else create_exported answer.create_counter answer.add i m

-- `except Exception: pass`
unfoldable pub swallowed : Result (Unit {0}) × PushMetrics → Result (Unit {0}) × PushMetrics
swallowed (ok u, m) = (ok u, m)
swallowed (raised e, m) = (ok tt, m)

unfoldable pub inc_mirrored :
    MirrorAnswer → Increment → PushMetrics → Result (Unit {0}) × PushMetrics
unfolding mirrored swallowed
inc_mirrored answer i m =
    let counted = record m { local = add_to (metric_key i.name i.labels) i.amount m.local } in
    if m.has_meter then swallowed (mirrored answer i counted) else (ok tt, counted)
