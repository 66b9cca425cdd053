-- ===== src/Pipeline/Claimer/Keys.antt =====
-- The primary key of public.notifications, which app/pipeline/claimer.py relies on.
use inride_worker_manager.Prelude.{
  ==_iff, All, Bool, Bool-cases, List, [], any, any-update_where, ap, arith, count, count-none,
  false, first, if◌then◌else◌, inl, inr, length, map, refl, some, sym, true, update_where, ◌+◌,
  ◌==◌, ◌∙◌, ◌∷◌, ◌≡◌, ◌≤◌, ◌⊎◌,
}
use mathlib.Core.Path.{subst}
use mathlib.Core.Option.{some-injective}
use inride_worker_manager.Domain.{Uuid}
use inride_worker_manager.Db.{Notification}
use inride_worker_manager.Db.Notifications.{has_id, id_of, member}
use inride_worker_manager.Pipeline.Claimer.Batches.{chosen}

-- no two rows have one id
abbrev pub HasKeys : List Notification → Type 0
HasKeys [] = Unit
HasKeys (n ∷ ns) = (any (has_id n.id) ns ≡ false) × HasKeys ns

pub HasKeys-update_where :
    (p : Notification → Bool) (f : Notification → Notification) (ns : List Notification)
    → ((n : Notification) → (f n).id ≡ n.id)
    → HasKeys ns
    → HasKeys (update_where p f ns)
unfolding update_where
HasKeys-update_where p f [] h k = tt
HasKeys-update_where p f (n ∷ ns) h k = (
  any-update_where (has_id _) p f ns (λ m. ap (λ i. i == _) (h m))
      ∙ ap (λ i. any (has_id i) ns) (same (Bool-cases (p n)))
      ∙ k.0,
  HasKeys-update_where p f ns h k.1,
)
  where
    same : (p n ≡ true) ⊎ (p n ≡ false) → (if p n then f n else n).id ≡ n.id
    same (inl e) = rw e (h n)
    same (inr e) = rw e refl

pub count-key : (i : Uuid) (ns : List Notification) → HasKeys ns → count (has_id i) ns ≤ 1
unfolding count
count-key i [] k = omega arith
count-key i (n ∷ ns) k = elim (Bool-cases (n.id == i)) [
  | inl e ↦ rw e (omega (arith, count-none (has_id i) ns (rw ((==_iff n.id i).0 e) at k.0)))
  | inr e ↦ rw e (omega (arith, count-key i ns k.1))
]

count-chosen_cons :
    (i : Uuid) (ids : List Uuid) (ns : List Notification)
    → count (chosen (i ∷ ids)) ns ≤ count (has_id i) ns + count (chosen ids) ns
unfolding count any
count-chosen_cons i ids [] = omega arith
count-chosen_cons i ids (n ∷ ns) =
    ground (arith, count-chosen_cons i ids ns, ==_iff i n.id, ==_iff n.id i)

count-chosen_nil : (ns : List Notification) → count (chosen []) ns ≡ 0
unfolding count any
count-chosen_nil [] = refl
count-chosen_nil (n ∷ ns) = omega (arith, count-chosen_nil ns)

-- the rows that ids choose are at most as many as the ids
pub count-chosen :
    (ids : List Uuid) (ns : List Notification) → HasKeys ns → count (chosen ids) ns ≤ length ids
count-chosen [] ns k = omega (arith, count-chosen_nil ns)
count-chosen (i ∷ ids) ns k =
    omega (arith, count-chosen_cons i ids ns, count-key i ns k, count-chosen ids ns k)

-- the row that an id finds
abbrev pub IsFound : List Notification → Notification → Type 0
IsFound ns n = first (has_id n.id) ns ≡ some n

pub All-IsFound : (ns : List Notification) → HasKeys ns → All (IsFound ns) ns
unfolding first any
All-IsFound [] k = tt
All-IsFound (n ∷ ns) k = (rw ((==_iff n.id n.id).1 refl) refl, below ns k.0 (All-IsFound ns k.1))
  where
    below :
        (ms : List Notification)
        → any (has_id n.id) ms ≡ false
        → All (IsFound ns) ms
        → All (IsFound (n ∷ ns)) ms
    below [] h a = tt
    below (m ∷ ms) h a = (
      ground (arith, h, a.0, ==_iff n.id m.id, ==_iff m.id n.id),
      below ms (ground (arith, h)) a.1,
    )

-- What holds of the rows found by some ids holds of each row that has one of the ids.
pub by_key :
    (R : Notification → Type 0) (ns taken : List Notification) (n : Notification)
    → All (λ t. IsFound ns t × R t) taken
    → IsFound ns n
    → member (map id_of taken) n.id ≡ true
    → R n
unfolding any
by_key R ns [] n a f h = cc h
by_key R ns (t ∷ taken) n a f h = elim (Bool-cases (t.id == n.id)) [
  | inl e ↦
      let found : first (has_id n.id) ns ≡ some t =
        ap (λ i. first (has_id i) ns) (sym ((==_iff t.id n.id).0 e)) ∙ a.0.0 in
      subst R (some-injective t n (sym found ∙ f)) a.0.1
  | inr e ↦ by_key R ns taken n a.1 f (rw e at h)
]
