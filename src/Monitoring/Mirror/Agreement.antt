-- ===== src/Monitoring/Mirror/Agreement.antt =====
-- The local counters and their mirror, over any increments.
use inride_worker_manager.Prelude.{
  false, if◌then◌else◌, All, Bool, arith, map, true, ◌+◌, Bool-cases, List, String, [], any, ap,
  inl, inr, refl, str_eq, sum_over, ℕ, ◌∙◌, ◌∷◌, ◌≡◌,
}
use inride_worker_manager.Effect.{Result, ok, raised}
use inride_worker_manager.Effect.World.{add_to}
use inride_worker_manager.Monitoring.{metric_key}
use inride_worker_manager.Monitoring.Mirror.{
  mirrors, new_metrics, Increment, MirrorAnswer, PushMetrics, add_exported, create_exported,
  inc_mirrored, mirrored, swallowed,
}
use inride_worker_manager.Monitoring.Counting.{add_all, count_of, count_of-add_all, amount}

-- the rest is not reached where an increment raises
abbrev continued :
    Result (Unit {0}) × PushMetrics
    → (PushMetrics → Result (Unit {0}) × PushMetrics)
    → Result (Unit {0}) × PushMetrics
continued (ok u, m) rest = rest m
continued (raised e, m) rest = (raised e, m)

unfoldable pub inc_all :
    List (MirrorAnswer × Increment) → PushMetrics → Result (Unit {0}) × PushMetrics
unfolding inc_mirrored
inc_all [] m = (ok tt, m)
inc_all ((a, i) ∷ rest) m = continued (inc_mirrored a i m) (inc_all rest)

-- the increments by the keys of the local counters
abbrev pub keyed : Increment → String × ℕ
keyed i = (metric_key i.name i.labels, i.amount)

abbrev pub incremented : MirrorAnswer × Increment → String × ℕ
incremented (a, i) = keyed i

-- what the mirror was told of a key
abbrev pub exported_of : String → PushMetrics → ℕ
exported_of key m = sum_over (λ i. amount key (keyed i)) m.exported

-- What an increment does whatever the library answers: it returns, counts, and keeps the meter.
abbrev Counted : Increment → PushMetrics → Result (Unit {0}) × PushMetrics → Type 0
Counted i m r =
    (r.0 ≡ ok tt)
    × (r.1.local ≡ add_to (metric_key i.name i.labels) i.amount m.local)
    × (r.1.has_meter ≡ m.has_meter)

mirrored-kept :
    (a : MirrorAnswer) (i : Increment) (m : PushMetrics)
    → ((mirrored a i m).1.local ≡ m.local) × ((mirrored a i m).1.has_meter ≡ m.has_meter)
unfolding mirrored
mirrored-kept a i m = elim (Bool-cases (any (λ n. str_eq n i.name) m.otel_counters)) [
  | inl e ↦ rw e (added a.add m)
  | inr e ↦ rw e (by_create a.create_counter)
]
  where
    added :
        (r : Result (Unit {0})) (k : PushMetrics)
        → ((add_exported r i k).1.local ≡ k.local)
          × ((add_exported r i k).1.has_meter ≡ k.has_meter)
    added (ok u) k = (refl, refl)
    added (raised e) k = (refl, refl)

    by_create :
        (c : Result (Unit {0}))
        → ((create_exported c a.add i m).1.local ≡ m.local)
          × ((create_exported c a.add i m).1.has_meter ≡ m.has_meter)
    by_create (ok u) = added a.add (record m { otel_counters = i.name ∷ m.otel_counters })
    by_create (raised e) = (refl, refl)

swallowed-kept :
    (r : Result (Unit {0}) × PushMetrics) → ((swallowed r).0 ≡ ok tt) × ((swallowed r).1 ≡ r.1)
unfolding swallowed
swallowed-kept (ok u, m) = (refl, refl)
swallowed-kept (raised e, m) = (refl, refl)

inc-Counted :
    (a : MirrorAnswer) (i : Increment) (m : PushMetrics) → Counted i m (inc_mirrored a i m)
unfolding inc_mirrored
inc-Counted a i m = by_meter m.has_meter
  where
    counted : PushMetrics
    counted = record m { local = add_to (metric_key i.name i.labels) i.amount m.local }

    by_meter :
        (b : Bool) → Counted i m (if b then swallowed (mirrored a i counted) else (ok tt, counted))
    by_meter true =
        let (returned, same) = swallowed-kept (mirrored a i counted) in
        let (l, h) = mirrored-kept a i counted in
        (
          returned,
          ap (λ (x : PushMetrics). x.local) same ∙ l,
          ap (λ (x : PushMetrics). x.has_meter) same ∙ h,
        )
    by_meter false = (refl, refl, refl)

-- What some increments do: all of them return, and the local counters have them all.
abbrev AllCounted : List (MirrorAnswer × Increment) → PushMetrics → Type 0
AllCounted es m =
    ((inc_all es m).0 ≡ ok tt) × ((inc_all es m).1.local ≡ add_all (map incremented es) m.local)

one-AllCounted :
    (a : MirrorAnswer) (i : Increment) (es : List (MirrorAnswer × Increment)) (m : PushMetrics)
    (r : Result (Unit {0}) × PushMetrics)
    → Counted i m r
    → ((k : PushMetrics) → AllCounted es k)
    → ((continued r (inc_all es)).0 ≡ ok tt)
      × ((continued r (inc_all es)).1.local ≡ add_all (map incremented ((a, i) ∷ es)) m.local)
unfolding add_all
one-AllCounted a i es m (ok u, k) c rest =
    ((rest k).0, (rest k).1 ∙ ap (add_all (map incremented es)) c.1)
one-AllCounted a i es m (raised e, k) c rest = cc c.0

inc_all-AllCounted : (es : List (MirrorAnswer × Increment)) (m : PushMetrics) → AllCounted es m
unfolding inc_all add_all
inc_all-AllCounted [] m = (refl, refl)
inc_all-AllCounted ((a, i) ∷ es) m =
    one-AllCounted a i es m (inc_mirrored a i m) (inc-Counted a i m) (inc_all-AllCounted es)

-- Whatever the OpenTelemetry library does with the calls, its exceptions included, all increments
-- return, and each local counter is the sum of the amounts of its key.
pub mirror_invisible :
    (imported gets_meter : Bool) (es : List (MirrorAnswer × Increment)) (key : String)
    → ((inc_all es (new_metrics imported gets_meter)).0 ≡ ok tt)
      × (count_of key ((inc_all es (new_metrics imported gets_meter)).1.local)
          ≡ sum_over (amount key) (map incremented es))
unfolding count_of
mirror_invisible imported gets_meter es key =
    let (returned, counted) = inc_all-AllCounted es (new_metrics imported gets_meter) in
    (returned, rw counted (omega (arith, count_of-add_all key (map incremented es) [])))

-- What an increment with a meter that does not raise tells the mirror.
abbrev Told : String → Increment → PushMetrics → Result (Unit {0}) × PushMetrics → Type 0
Told key i m r =
    (r.0 ≡ ok tt)
    × (r.1.has_meter ≡ true)
    × (exported_of key r.1 ≡ exported_of key m + amount key (keyed i))

inc-Told :
    (i : Increment) (m : PushMetrics) (key : String)
    → m.has_meter ≡ true
    → Told key i m (inc_mirrored mirrors i m)
unfolding inc_mirrored mirrored swallowed sum_over
inc-Told i m key h = by_tests m.has_meter (any (λ n. str_eq n i.name) m.otel_counters) h
  where
    counted : PushMetrics
    counted = record m { local = add_to (metric_key i.name i.labels) i.amount m.local }

    by_tests :
        (meter stored : Bool)
        → meter ≡ true
        → Told key i m (
            if meter
            then swallowed (
                if stored
                then add_exported mirrors.add i counted
                else create_exported mirrors.create_counter mirrors.add i counted)
            else (ok tt, counted))
    by_tests false stored e = cc e
    by_tests true true e = (refl, h, omega arith)
    by_tests true false e = (refl, h, omega arith)

one-Told :
    (i : Increment) (es : List (MirrorAnswer × Increment)) (m : PushMetrics) (key : String)
    (r : Result (Unit {0}) × PushMetrics)
    → Told key i m r
    → ((k : PushMetrics)
        → k.has_meter ≡ true
        → exported_of key ((inc_all es k).1)
          ≡ exported_of key k + sum_over (amount key) (map incremented es))
    → exported_of key ((continued r (inc_all es)).1)
      ≡ exported_of key m + (amount key (keyed i) + sum_over (amount key) (map incremented es))
one-Told i es m key (ok u, k) t rest = omega (arith, rest k t.1, t.2)
one-Told i es m key (raised e, k) t rest = cc t.0

inc_all-exported :
    (es : List (MirrorAnswer × Increment)) (m : PushMetrics) (key : String)
    → m.has_meter ≡ true
    → All (λ ai. ai.0 ≡ mirrors) es
    → exported_of key ((inc_all es m).1)
      ≡ exported_of key m + sum_over (amount key) (map incremented es)
unfolding inc_all sum_over
inc_all-exported [] m key h k = omega arith
inc_all-exported ((a, i) ∷ es) m key h (e, k) =
    one-Told i es m key (inc_mirrored a i m) (rw e (inc-Told i m key h))
      (λ n g. inc_all-exported es n key g k)

-- With a meter that does not raise, what the mirror was told of a key adds up to the local counter.
pub mirror-agrees :
    (es : List (MirrorAnswer × Increment)) (key : String)
    → All (λ ai. ai.0 ≡ mirrors) es
    → exported_of key ((inc_all es (new_metrics true true)).1)
      ≡ count_of key ((inc_all es (new_metrics true true)).1.local)
unfolding sum_over
mirror-agrees es key h = omega (
  arith,
  inc_all-exported es (new_metrics true true) key refl h,
  (mirror_invisible true true es key).1,
)
