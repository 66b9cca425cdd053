-- ===== src/Monitoring.antt =====
-- app/monitoring/metrics.py: the process-local counters. The OpenTelemetry mirror is in
-- Monitoring/Mirror.
pub mod Counting
pub mod Mirror
use Prim.Native.String.{◌++◌, compare}
use text.Mathlib.Text.{is_le}
use inride_worker_manager.Prelude.{
  Option, none, some, ℕ, String, List, [], ◌∷◌, ◌==◌, not, if◌then◌else◌,
}
use inride_worker_manager.Effect.{Prog, perform, increment, when}

-- `sorted(labels.items())`, by key: the keys of a dict are distinct
unfoldable pub insert_label : String × String → List (String × String) → List (String × String)
insert_label (k, v) [] = (k, v) ∷ []
insert_label (k, v) ((j, u) ∷ rest) =
    if is_le (compare k j) then (k, v) ∷ (j, u) ∷ rest else (j, u) ∷ insert_label (k, v) rest

unfoldable pub sort_labels : List (String × String) → List (String × String)
unfolding insert_label
sort_labels [] = []
sort_labels (l ∷ ls) = insert_label l (sort_labels ls)

unfoldable pub join_labels : List (String × String) → String
join_labels [] = ""
join_labels ((k, v) ∷ []) = k ++ ("=" ++ v)
join_labels ((k, v) ∷ (j, u) ∷ rest) = k ++ ("=" ++ (v ++ ("," ++ join_labels ((j, u) ∷ rest))))

unfoldable pub metric_key : String → List (String × String) → String
unfolding sort_labels join_labels
metric_key name labels = name ++ ("|" ++ join_labels (sort_labels labels))

unfoldable pub inc : String → List (String × String) → ℕ → Prog (Unit {0})
inc name labels amount = perform (increment (metric_key name labels) amount)

unfoldable pub notification_finalized : String → Prog (Unit {0})
unfolding inc
notification_finalized status = inc "expo_push.notifications_finalized" (("status", status) ∷ []) 1

unfoldable pub device_attempted : String → Prog (Unit {0})
unfolding inc
device_attempted result = inc "expo_push.devices_attempted" (("result", result) ∷ []) 1

unfoldable pub claim : String → ℕ → Prog (Unit {0})
unfolding inc
claim result amount = inc "expo_push.claim_total" (("result", result) ∷ []) amount

-- `if count:`
unfoldable pub reclaim : ℕ → Prog (Unit {0})
unfolding inc
reclaim n = when (not (n == 0)) (inc "expo_push.reclaim_total" [] n)

unfoldable pub ingress_disposition : String → Prog (Unit {0})
unfolding inc
ingress_disposition d = inc "expo_push.ingress_disposition" (("disposition", d) ∷ []) 1

abbrev pub Counters : Type 0
Counters = List (String × ℕ)

unfoldable pub snapshot : Counters → Counters × Counters
snapshot c = (c, c)

unfoldable pub snapshot_and_reset : Counters → Counters × Counters
snapshot_and_reset c = (c, [])

abbrev pub nonempty : Counters → Option Counters
nonempty [] = none
nonempty (kn ∷ rest) = some (kn ∷ rest)

-- the snapshot that is logged, if it holds anything, and the counters after it
unfoldable pub log_summary : Counters → Option Counters × Counters
unfolding snapshot_and_reset
log_summary c = let (snap, cleared) = snapshot_and_reset c in (nonempty snap, cleared)
