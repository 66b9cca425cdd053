-- ===== src/Monitoring/Counting.antt =====
-- The counters of app/monitoring/metrics.py over the periods between two summaries.
use inride_worker_manager.Monitoring.{Counters, snapshot_and_reset}
use inride_worker_manager.Effect.World.{add_to}
use inride_worker_manager.Prelude.{
  Bool, Bool-cases, List, String, [], ap, arith, eq_iff, false, if◌then◌else◌, inl, inr, refl,
  str_eq, sum_over, true, ℕ, ◌+◌, ◌∷◌, ◌≡◌, ◌⊎◌,
}
use text.Mathlib.TextPositions.{eq_refl}

-- `_local[key]`
unfoldable pub count_of : String → Counters → ℕ
count_of key [] = 0
count_of key ((k, n) ∷ rest) = if str_eq k key then n else count_of key rest

abbrev pub amount : String → String × ℕ → ℕ
amount key (k, n) = if str_eq k key then n else 0

differs : (key j k : String) → str_eq j key ≡ true → str_eq j k ≡ false → str_eq k key ≡ false
differs key j k x e = elim (Bool-cases (str_eq k key)) [
  | inl y ↦ cc (rw ((eq_iff j key).0 x, (eq_iff k key).0 y, eq_refl key) at e)
  | inr y ↦ y
]

pub count_of-add_to :
    (key k : String) (n : ℕ) (c : Counters)
    → count_of key (add_to k n c) ≡ count_of key c + amount key (k, n)
unfolding count_of add_to
count_of-add_to key k n [] = omega arith
count_of-add_to key k n ((j, m) ∷ rest) = elim (Bool-cases (str_eq j k)) [
  | inl e ↦ rw e (merged (str_eq j key) (str_eq k key) (ap (λ x. str_eq x key) ((eq_iff j k).0 e)))
  | inr e ↦ rw e (apart (Bool-cases (str_eq j key)) e (count_of-add_to key k n rest))
]
  where
    merged :
        (a b : Bool)
        → a ≡ b
        → (if a then m + n else count_of key rest)
          ≡ (if a then m else count_of key rest) + (if b then n else 0)
    merged true true e = refl
    merged true false e = cc e
    merged false true e = cc e
    merged false false e = omega arith

    apart :
        (str_eq j key ≡ true) ⊎ (str_eq j key ≡ false)
        → str_eq j k ≡ false
        → count_of key (add_to k n rest) ≡ count_of key rest + amount key (k, n)
        → (if str_eq j key then m else count_of key (add_to k n rest))
          ≡ (if str_eq j key then m else count_of key rest) + amount key (k, n)
    apart (inl x) e h = rw (x, differs key j k x e) (omega arith)
    apart (inr x) e h = rw x h

-- the increments of one period
unfoldable pub add_all : List (String × ℕ) → Counters → Counters
add_all [] c = c
add_all ((k, n) ∷ incs) c = add_all incs (add_to k n c)

pub count_of-add_all :
    (key : String) (incs : List (String × ℕ)) (c : Counters)
    → count_of key (add_all incs c) ≡ count_of key c + sum_over (amount key) incs
unfolding add_all sum_over
count_of-add_all key [] c = omega arith
count_of-add_all key ((k, n) ∷ incs) c =
    omega (arith, count_of-add_all key incs (add_to k n c), count_of-add_to key k n c)

-- `log_summary` at the end of each period: what each snapshot holds
unfoldable pub summaries : List (List (String × ℕ)) → Counters → List Counters
unfolding add_all snapshot_and_reset
summaries [] c = []
summaries (p ∷ periods) c =
    let (snap, cleared) = snapshot_and_reset (add_all p c) in snap ∷ summaries periods cleared

-- Over any periods that each end with a summary, the summaries of a counter add up to the sum of
-- its increments: none is lost and none is counted twice.
pub summaries-count :
    (key : String) (periods : List (List (String × ℕ)))
    → sum_over (count_of key) (summaries periods []) ≡ sum_over (sum_over (amount key)) periods
unfolding summaries snapshot_and_reset sum_over count_of
summaries-count key [] = refl
summaries-count key (p ∷ periods) =
    omega (arith, count_of-add_all key p [], summaries-count key periods)
