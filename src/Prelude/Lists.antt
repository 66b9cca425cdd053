-- ===== src/Prelude/Lists.antt =====
-- Lists of rows: search, selection and update by a Boolean condition, and predicates on all rows.
use Prim.Native.Nat.{ℕ, zero, suc, ◌+◌, ◌≤◌}
use mathlib.Core.Path.{◌≡◌, refl, ap}
use mathlib.Core.Logic.{inl, inr}
use mathlib.Core.Bool.{Bool, true, false, ◌||◌, ◌&&◌, not}
use mathlib.Core.List.{List, [], ◌∷◌, ◌++◌, map}
use mathlib.Core.Option.{Option, none, some}
use native.Mathlib.Omega.{arith}
use inride_worker_manager.Prelude.Tests.{if◌then◌else◌, Bool-cases}

module _ {ℓ} {A : Type ℓ} where
  abbrev pub length : List A → ℕ
  length [] = 0
  length (x ∷ xs) = suc (length xs)

  pub length-append : (xs ys : List A) → length (xs ++ ys) ≡ length xs + length ys
  length-append [] ys = omega arith
  length-append (x ∷ xs) ys = omega (arith, length-append xs ys)

  abbrev pub take : ℕ → List A → List A
  take zero xs = []
  take (suc n) [] = []
  take (suc n) (x ∷ xs) = x ∷ take n xs

  pub length-take-le : (n : ℕ) (xs : List A) → length (take n xs) ≤ n
  length-take-le zero xs = omega arith
  length-take-le (suc n) [] = omega arith
  length-take-le (suc n) (x ∷ xs) = omega (arith, length-take-le n xs)

  -- `any(p(x) for x in xs)`
  unfoldable pub any : (A → Bool) → List A → Bool
  any p [] = false
  any p (x ∷ xs) = p x || any p xs

  -- the rows that a WHERE clause selects
  unfoldable pub select : (A → Bool) → List A → List A
  select p [] = []
  select p (x ∷ xs) = let rest = select p xs in if p x then x ∷ rest else rest

  -- `.first()`
  unfoldable pub first : (A → Bool) → List A → Option A
  first p [] = none
  first p (x ∷ xs) = if p x then some x else first p xs

  -- UPDATE … SET f WHERE p
  unfoldable pub update_where : (A → Bool) → (A → A) → List A → List A
  update_where p f [] = []
  update_where p f (x ∷ xs) = (if p x then f x else x) ∷ update_where p f xs

  -- how many rows satisfy the condition
  unfoldable pub count : (A → Bool) → List A → ℕ
  count p [] = 0
  count p (x ∷ xs) = (if p x then 1 else 0) + count p xs

module _ {ℓ κ} {A : Type ℓ} (P : A → Type κ) where
  abbrev pub All : List A → Type κ
  All [] = Unit
  All (x ∷ xs) = P x × All xs

  pub All-append : (xs ys : List A) → All xs → All ys → All (xs ++ ys)
  All-append [] ys h k = k
  All-append (x ∷ xs) ys h k = (h.0, All-append xs ys h.1 k)

module _ {ℓ κ μ} {A : Type ℓ} (P : A → Type κ) (Q : A → Type μ) where
  pub All-weaken : (xs : List A) → ((x : A) → P x → Q x) → All P xs → All Q xs
  All-weaken [] f h = tt
  All-weaken (x ∷ xs) f h = (f x h.0, All-weaken xs f h.1)

module _ {ℓ} {A : Type ℓ} where
  pub any-append : (p : A → Bool) (xs ys : List A) → any p (xs ++ ys) ≡ (any p xs || any p ys)
  unfolding any
  any-append p [] ys = refl
  any-append p (x ∷ xs) ys = ground (arith, any-append p xs ys)

  -- an update that keeps the truth of `q` on every row keeps it on the table
  pub any-update_where :
      (q p : A → Bool) (f : A → A) (xs : List A)
      → ((x : A) → q (f x) ≡ q x)
      → any q (update_where p f xs) ≡ any q xs
  unfolding any update_where
  any-update_where q p f [] h = refl
  any-update_where q p f (x ∷ xs) h = ground (arith, h x, any-update_where q p f xs h)

  pub length-update_where :
      (p : A → Bool) (f : A → A) (xs : List A) → length (update_where p f xs) ≡ length xs
  unfolding update_where
  length-update_where p f [] = refl
  length-update_where p f (x ∷ xs) = ap suc (length-update_where p f xs)

  -- a row that every condition `keep` admits survives the selection
  pub any-select :
      (q keep : A → Bool) (xs : List A)
      → ((x : A) → q x ≡ true → keep x ≡ true)
      → any q (select keep xs) ≡ any q xs
  unfolding any select
  any-select q keep [] h = refl
  any-select q keep (x ∷ xs) h = ground (arith, h x, any-select q keep xs h)

  -- what holds of a row before and after its update, holds of some row after
  pub any-update_keep :
      (q p : A → Bool) (f : A → A) (xs : List A)
      → ((x : A) → q x ≡ true → q (f x) ≡ true)
      → any q xs ≡ true
      → any q (update_where p f xs) ≡ true
  unfolding any update_where
  any-update_keep q p f [] h e = e
  any-update_keep q p f (x ∷ xs) h e = ground (arith, h x, any-update_keep q p f xs h)

  -- an update that reaches a row leaves one as it makes it
  pub any-update_hit :
      (q p : A → Bool) (f : A → A) (xs : List A)
      → ((x : A) → p x ≡ true → q (f x) ≡ true)
      → any p xs ≡ true
      → any q (update_where p f xs) ≡ true
  unfolding any update_where
  any-update_hit q p f [] h e = cc
  any-update_hit q p f (x ∷ xs) h e = ground (arith, h x, any-update_hit q p f xs h)

  -- an update of all rows that satisfy `q` by what does not leaves none
  pub any-update_clear :
      (q p : A → Bool) (f : A → A) (xs : List A)
      → ((x : A) → q x ≡ true → p x ≡ true)
      → ((x : A) → q (f x) ≡ false)
      → any q (update_where p f xs) ≡ false
  unfolding any update_where
  any-update_clear q p f [] h g = refl
  any-update_clear q p f (x ∷ xs) h g = ground (arith, h x, g x, any-update_clear q p f xs h g)

  -- no row satisfies what implies a condition that no row satisfies
  pub any-implied :
      (q p : A → Bool) (xs : List A)
      → ((x : A) → q x ≡ true → p x ≡ true)
      → any p xs ≡ false
      → any q xs ≡ false
  unfolding any
  any-implied q p [] h e = refl
  any-implied q p (x ∷ xs) h e = ground (arith, h x, any-implied q p xs h)

  -- a row that the update reaches satisfies after it what the update makes of such a row
  pub any-update_carry :
      (r q p : A → Bool) (f : A → A) (xs : List A)
      → ((x : A) → r x ≡ true → p x ≡ true)
      → ((x : A) → r x ≡ true → q (f x) ≡ true)
      → any r xs ≡ true
      → any q (update_where p f xs) ≡ true
  unfolding any update_where
  any-update_carry r q p f [] h g e = cc
  any-update_carry r q p f (x ∷ xs) h g e =
      ground (arith, h x, g x, any-update_carry r q p f xs h g)

  -- an update that reaches every row of the list that satisfies `q` leaves none, if it makes none
  pub any-update_all :
      (q p : A → Bool) (f : A → A) (xs : List A)
      → any (λ x. q x && not (p x)) xs ≡ false
      → ((x : A) → q (f x) ≡ false)
      → any q (update_where p f xs) ≡ false
  unfolding any update_where
  any-update_all q p f [] h g = refl
  any-update_all q p f (x ∷ xs) h g = ground (arith, g x, any-update_all q p f xs)

  -- an update makes no row of what no row was
  pub any-update_none :
      (q p : A → Bool) (f : A → A) (xs : List A)
      → ((x : A) → q (f x) ≡ false)
      → any q xs ≡ false
      → any q (update_where p f xs) ≡ false
  unfolding any update_where
  any-update_none q p f [] h e = e
  any-update_none q p f (x ∷ xs) h e = ground (arith, h x, any-update_none q p f xs h)

  -- an update whose rows satisfy `q` only if they did makes none where none was
  pub any-update_back :
      (q p : A → Bool) (f : A → A) (xs : List A)
      → ((x : A) → p x ≡ true → q (f x) ≡ true → q x ≡ true)
      → any q xs ≡ false
      → any q (update_where p f xs) ≡ false
  unfolding any update_where
  any-update_back q p f [] h e = e
  any-update_back q p f (x ∷ xs) h e = ground (arith, h x, any-update_back q p f xs h)

  -- a row that the update does not reach stays
  pub any-update_other :
      (q p : A → Bool) (f : A → A) (xs : List A)
      → ((x : A) → q x ≡ true → p x ≡ false)
      → any q xs ≡ true
      → any q (update_where p f xs) ≡ true
  unfolding any update_where
  any-update_other q p f [] h e = e
  any-update_other q p f (x ∷ xs) h e = ground (arith, h x, any-update_other q p f xs h)

  pub any-select_and :
      (q p : A → Bool) (xs : List A) → any q (select p xs) ≡ any (λ x. q x && p x) xs
  unfolding any select
  any-select_and q p [] = refl
  any-select_and q p (x ∷ xs) = ground (arith, any-select_and q p xs)

  pub length-select : (p : A → Bool) (xs : List A) → length (select p xs) ≡ count p xs
  unfolding select count
  length-select p [] = refl
  length-select p (x ∷ xs) = ground (arith, length-select p xs)

  -- some row satisfies what follows on each row from what some row satisfies
  pub any-weaken :
      (q p : A → Bool) (xs : List A)
      → ((x : A) → q x ≡ true → p x ≡ true)
      → any q xs ≡ true
      → any p xs ≡ true
  unfolding any
  any-weaken q p [] h e = cc e
  any-weaken q p (x ∷ xs) h e = ground (arith, h x, any-weaken q p xs h)

  pub take-all : (n : ℕ) (xs : List A) → length xs ≤ n → take n xs ≡ xs
  take-all zero [] h = refl
  take-all zero (x ∷ xs) h = absurd (omega (arith, h))
  take-all (suc n) [] h = refl
  take-all (suc n) (x ∷ xs) h = ap (λ ys. x ∷ ys) (take-all n xs (omega (arith, h)))

  -- the sum of `f` over a list
  unfoldable pub sum_over : (A → ℕ) → List A → ℕ
  sum_over f [] = 0
  sum_over f (x ∷ xs) = f x + sum_over f xs

module _ {ℓ κ} {A : Type ℓ} (P : A → Type κ) where
  -- what holds of every row that a condition admits, holds of all that it selects
  pub All-select : (p : A → Bool) (xs : List A) → ((x : A) → p x ≡ true → P x) → All P (select p xs)
  unfolding select
  All-select p [] h = tt
  All-select p (x ∷ xs) h = elim (Bool-cases (p x)) [
    | inl e ↦ rw e (h x e, All-select p xs h)
    | inr e ↦ rw e (All-select p xs h)
  ]

module _ {ℓ κ} {A : Type ℓ} {B : Type κ} where
  pub length-map : (f : A → B) (xs : List A) → length (map f xs) ≡ length xs
  length-map f [] = refl
  length-map f (x ∷ xs) = ap suc (length-map f xs)

module _ {ℓ κ} {A : Type ℓ} (P : A → Type κ) where
  pub All-take : (n : ℕ) (xs : List A) → All P xs → All P (take n xs)
  All-take zero xs a = tt
  All-take (suc n) [] a = tt
  All-take (suc n) (x ∷ xs) a = (a.0, All-take n xs a.1)

  -- what holds of the selected rows, by what holds of all
  pub All-select_where :
      (p : A → Bool) (xs : List A) → All (λ x. p x ≡ true → P x) xs → All P (select p xs)
  unfolding select
  All-select_where p [] a = tt
  All-select_where p (x ∷ xs) a = elim (Bool-cases (p x)) [
    | inl e ↦ rw e (a.0 e, All-select_where p xs a.1)
    | inr e ↦ rw e (All-select_where p xs a.1)
  ]

  pub All-select_of : (p : A → Bool) (xs : List A) → All P xs → All P (select p xs)
  All-select_of p xs a =
      All-select_where p xs (All-weaken P (λ x. p x ≡ true → P x) xs (λ x h e. h) a)

module _ {ℓ κ μ} {A : Type ℓ} (P : A → Type κ) (Q : A → Type μ) where
  pub All-both : (xs : List A) → All P xs → All Q xs → All (λ x. P x × Q x) xs
  All-both [] a b = tt
  All-both (x ∷ xs) a b = ((a.0, b.0), All-both xs a.1 b.1)
