-- ===== src/Pipeline/Claimer/Sorted.antt =====
-- ORDER BY created_at ASC LIMIT in app/pipeline/claimer.py: no row taken is younger than one left.
use inride_worker_manager.Pipeline.Claimer.Ages.{All-insert_by_age}
use inride_worker_manager.Prelude.{
  ==_iff, All, All-weaken, Bool-cases, List, Option, [], any, arith, false, inl, inr, map, none,
  refl, some, suc, take, true, zero, ℕ, ◌∷◌, ◌≡◌, ◌≤◌, ◌⊎◌,
}
use inride_worker_manager.Db.{Notification}
use inride_worker_manager.Db.Notifications.{created_le, id_of, insert_by_age, member, sort_by_age}

-- the first time is not after the second; a row with no time counts as the youngest
abbrev pub NotAfter : Option ℕ → Option ℕ → Type 0
NotAfter a none = Unit
NotAfter none (some b) = ⊥
NotAfter (some a) (some b) = a ≤ b

-- not younger
abbrev pub NotYounger : Notification → Notification → Type 0
NotYounger n m = NotAfter n.created_at m.created_at

abbrev SortedByAge : List Notification → Type 0
SortedByAge [] = Unit
SortedByAge (n ∷ ns) = All (NotYounger n) ns × SortedByAge ns

NotAfter-le : (a b : Option ℕ) → created_le a b ≡ true → NotAfter a b
NotAfter-le a none h = tt
NotAfter-le none (some b) h = cc h
NotAfter-le (some a) (some b) h = ground arith

NotAfter-total : (a b : Option ℕ) → created_le a b ≡ false → NotAfter b a
NotAfter-total none none h = tt
NotAfter-total none (some b) h = tt
NotAfter-total (some a) none h = cc h
NotAfter-total (some a) (some b) h = ground arith

NotAfter-trans : (a b c : Option ℕ) → NotAfter a b → NotAfter b c → NotAfter a c
NotAfter-trans a b none p q = tt
NotAfter-trans (some a) (some b) (some c) p q = omega (arith, p, q)
NotAfter-trans none (some b) (some c) p q = p
NotAfter-trans none none (some c) p q = q
NotAfter-trans (some a) none (some c) p q = absurd q

All-uninsert :
    (P : Notification → Type 0) (n : Notification) (ms : List Notification)
    → All P (insert_by_age n ms)
    → P n × All P ms
unfolding insert_by_age
All-uninsert P n [] a = a
All-uninsert P n (m ∷ ms) a = elim (Bool-cases (created_le n.created_at m.created_at)) [
  | inl e ↦ rw e at a
  | inr e ↦
      let b : P m × All P (insert_by_age n ms) = rw e at a in
      ((All-uninsert P n ms b.1).0, (b.0, (All-uninsert P n ms b.1).1))
]

-- what holds of all rows in the order holds of all rows
pub All-unsort :
    (P : Notification → Type 0) (ns : List Notification) → All P (sort_by_age ns) → All P ns
unfolding sort_by_age
All-unsort P [] a = tt
All-unsort P (n ∷ ns) a = let b = All-uninsert P n (sort_by_age ns) a in (b.0, All-unsort P ns b.1)

insert-SortedByAge :
    (n : Notification) (ms : List Notification) → SortedByAge ms → SortedByAge (insert_by_age n ms)
unfolding insert_by_age
insert-SortedByAge n [] s = (tt, tt)
insert-SortedByAge n (m ∷ ms) s = elim (Bool-cases (created_le n.created_at m.created_at)) [
  | inl e ↦
      let earlier : NotYounger n m = NotAfter-le n.created_at m.created_at e in
      rw e (
        (
          earlier,
          All-weaken (NotYounger m) (NotYounger n) ms
              (λ k. NotAfter-trans n.created_at m.created_at k.created_at earlier) s.0,
        ),
        s,
      )
  | inr e ↦ rw e (
    All-insert_by_age (NotYounger m) n ms (NotAfter-total n.created_at m.created_at e) s.0,
    insert-SortedByAge n ms s.1,
  )
]

sort-SortedByAge : (ns : List Notification) → SortedByAge (sort_by_age ns)
unfolding sort_by_age
sort-SortedByAge [] = tt
sort-SortedByAge (n ∷ ns) = insert-SortedByAge n (sort_by_age ns) (sort-SortedByAge ns)

-- The row has an id of the first list, or no row of this list is younger than it.
abbrev pub IsTakenOrLater : List Notification → Notification → Type 0
IsTakenOrLater taken m = (member (map id_of taken) m.id ≡ true) ⊎ All (λ n. NotYounger n m) taken

taken_or_later :
    (limit : ℕ) (ns : List Notification) → SortedByAge ns → All (IsTakenOrLater (take limit ns)) ns
unfolding any
taken_or_later zero [] s = tt
taken_or_later zero (n ∷ ns) s = (inr tt, taken_or_later zero ns s.1)
taken_or_later (suc limit) [] s = tt
taken_or_later (suc limit) (n ∷ ns) s =
    (inl (rw ((==_iff n.id n.id).1 refl) refl), both ns s.0 (taken_or_later limit ns s.1))
  where
    both :
        (ms : List Notification)
        → All (NotYounger n) ms
        → All (IsTakenOrLater (take limit ns)) ms
        → All (IsTakenOrLater (n ∷ take limit ns)) ms
    both [] a b = tt
    both (m ∷ ms) a b =
        (elim b.0 [ inl e ↦ inl (ground (arith, e)) | inr l ↦ inr (a.0, l) ], both ms a.1 b.1)

pub oldest-first :
    (limit : ℕ) (ns : List Notification) → All (IsTakenOrLater (take limit (sort_by_age ns))) ns
oldest-first limit ns =
    All-unsort _ ns (taken_or_later limit (sort_by_age ns) (sort-SortedByAge ns))
