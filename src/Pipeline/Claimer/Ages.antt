-- ===== src/Pipeline/Claimer/Ages.antt =====
-- Sorting rows by age, as app/pipeline/claimer.py does in SQL, keeps what holds of all or of some.
use inride_worker_manager.Domain.{Uuid}
use inride_worker_manager.Db.{Notification}
use inride_worker_manager.Prelude.{
  length, All, Bool-cases, inl, inr, Bool, List, [], any, ap, arith, map, refl, select, suc, take,
  true, zero, ℕ, ◌||◌, ◌∙◌, ◌∷◌, ◌≡◌,
}
use inride_worker_manager.Db.Notifications.{
  created_le, claimable, has_id, id_of, insert_by_age, is_pending, member, sort_by_age,
}

pub any-of_take :
    {A : Type 0} (p : A → Bool) (n : ℕ) (xs : List A) → any p (take n xs) ≡ true → any p xs ≡ true
unfolding any
any-of_take p zero xs h = cc h
any-of_take p (suc n) [] h = h
any-of_take p (suc n) (x ∷ xs) h = ground (arith, any-of_take p n xs)

any-insert_by_age :
    (p : Notification → Bool) (n : Notification) (ms : List Notification)
    → any p (insert_by_age n ms) ≡ (p n || any p ms)
unfolding any insert_by_age
any-insert_by_age p n [] = refl
any-insert_by_age p n (m ∷ ms) = ground (arith, any-insert_by_age p n ms)

pub any-sort_by_age :
    (p : Notification → Bool) (ns : List Notification) → any p (sort_by_age ns) ≡ any p ns
unfolding any sort_by_age
any-sort_by_age p [] = refl
any-sort_by_age p (n ∷ ns) =
    any-insert_by_age p n (sort_by_age ns) ∙ ap (λ b. p n || b) (any-sort_by_age p ns)

pub member-map :
    (id : Uuid) (ns : List Notification) → member (map id_of ns) id ≡ any (has_id id) ns
unfolding any
member-map id [] = refl
member-map id (n ∷ ns) = ap (λ b. has_id id n || b) (member-map id ns)

pub any-select_both :
    (id : Uuid) (ns : List Notification)
    → any (has_id id) (select is_pending ns) ≡ any (claimable id) ns
unfolding any select
any-select_both id [] = refl
any-select_both id (n ∷ ns) = ground (arith, any-select_both id ns)

pub All-insert_by_age :
    (P : Notification → Type 0) (n : Notification) (ms : List Notification)
    → P n
    → All P ms
    → All P (insert_by_age n ms)
unfolding insert_by_age
All-insert_by_age P n [] h a = (h, tt)
All-insert_by_age P n (m ∷ ms) h a = elim (Bool-cases (created_le n.created_at m.created_at)) [
  | inl e ↦ rw e (h, a)
  | inr e ↦ rw e (a.0, All-insert_by_age P n ms h a.1)
]

pub All-sort_by_age :
    (P : Notification → Type 0) (ns : List Notification) → All P ns → All P (sort_by_age ns)
unfolding sort_by_age
All-sort_by_age P [] a = tt
All-sort_by_age P (n ∷ ns) a = All-insert_by_age P n (sort_by_age ns) a.0 (All-sort_by_age P ns a.1)

length-insert_by_age :
    (n : Notification) (ms : List Notification) → length (insert_by_age n ms) ≡ suc (length ms)
unfolding insert_by_age
length-insert_by_age n [] = refl
length-insert_by_age n (m ∷ ms) = ground (arith, length-insert_by_age n ms)

pub length-sort_by_age : (ns : List Notification) → length (sort_by_age ns) ≡ length ns
unfolding sort_by_age
length-sort_by_age [] = refl
length-sort_by_age (n ∷ ns) =
    length-insert_by_age n (sort_by_age ns) ∙ ap suc (length-sort_by_age ns)
