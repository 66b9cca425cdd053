-- ===== src/Prelude/Counts.antt =====
-- Counts and sums over the rows of a list.
use Prim.Native.Nat.{ℕ, zero, suc, ◌+◌, ◌-◌, ◌≤◌, ◌<◌}
use mathlib.Core.Path.{◌≡◌, refl}
use mathlib.Core.Bool.{Bool, true, false, ◌&&◌}
use mathlib.Core.List.{List, [], ◌∷◌, ◌++◌}
use native.Mathlib.Omega.{arith}
use inride_worker_manager.Prelude.Lists.{
  All, any, select, update_where, count, length, sum_over, take,
}

module _ {ℓ} {A : Type ℓ} where
  pub count-none : (p : A → Bool) (xs : List A) → any p xs ≡ false → count p xs ≡ 0
  unfolding any count
  count-none p [] h = refl
  count-none p (x ∷ xs) h = ground (arith, count-none p xs)

  pub count-some : (p : A → Bool) (xs : List A) → any p xs ≡ true → 0 < count p xs
  unfolding any count
  count-some p [] h = cc h
  count-some p (x ∷ xs) h = ground (arith, count-some p xs)

  -- an update that makes each of its rows satisfy what it did not adds their number
  pub count-update_gain :
      (q p : A → Bool) (f : A → A) (xs : List A)
      → ((x : A) → p x ≡ true → q x ≡ false)
      → ((x : A) → q (f x) ≡ true)
      → count q (update_where p f xs) ≡ count q xs + count p xs
  unfolding count update_where
  count-update_gain q p f [] h g = refl
  count-update_gain q p f (x ∷ xs) h g = ground (arith, h x, g x, count-update_gain q p f xs h g)

  pub count-append : (p : A → Bool) (xs ys : List A) → count p (xs ++ ys) ≡ count p xs + count p ys
  unfolding count
  count-append p [] ys = omega arith
  count-append p (x ∷ xs) ys = omega (arith, count-append p xs ys)

  pub count-same : (p q : A → Bool) (xs : List A) → ((x : A) → p x ≡ q x) → count p xs ≡ count q xs
  unfolding count
  count-same p q [] h = refl
  count-same p q (x ∷ xs) h = ground (arith, h x, count-same p q xs h)

  pub sum_over-same :
      (f g : A → ℕ) (xs : List A) → ((x : A) → f x ≡ g x) → sum_over f xs ≡ sum_over g xs
  unfolding sum_over
  sum_over-same f g [] h = refl
  sum_over-same f g (x ∷ xs) h = omega (arith, h x, sum_over-same f g xs h)

  pub count-update_where :
      (q p : A → Bool) (f : A → A) (xs : List A)
      → ((x : A) → q (f x) ≡ q x)
      → count q (update_where p f xs) ≡ count q xs
  unfolding count update_where
  count-update_where q p f [] h = refl
  count-update_where q p f (x ∷ xs) h = ground (arith, h x, count-update_where q p f xs h)

  pub count-select-le : (q p : A → Bool) (xs : List A) → count q (select p xs) ≤ count q xs
  unfolding count select
  count-select-le q p [] = omega arith
  count-select-le q p (x ∷ xs) = ground (arith, count-select-le q p xs)

  -- an update by what does not satisfy `q` takes away the rows that did
  pub count-update_lose :
      (q p : A → Bool) (f : A → A) (xs : List A)
      → ((x : A) → q (f x) ≡ false)
      → count q (update_where p f xs) + count (λ x. q x && p x) xs ≡ count q xs
  unfolding count update_where
  count-update_lose q p f [] h = refl
  count-update_lose q p f (x ∷ xs) h = ground (arith, h x, count-update_lose q p f xs h)

  pub count-select_and :
      (q p : A → Bool) (xs : List A) → count q (select p xs) ≡ count (λ x. p x && q x) xs
  unfolding count select
  count-select_and q p [] = refl
  count-select_and q p (x ∷ xs) = ground (arith, count-select_and q p xs)

  pub count-take-le : (p : A → Bool) (n : ℕ) (xs : List A) → count p (take n xs) ≤ count p xs
  unfolding count
  count-take-le p zero xs = omega arith
  count-take-le p (suc n) [] = omega arith
  count-take-le p (suc n) (x ∷ xs) = omega (arith, count-take-le p n xs)

  pub count-All : (p : A → Bool) (xs : List A) → All (λ x. p x ≡ true) xs → count p xs ≡ length xs
  unfolding count
  count-All p [] h = refl
  count-All p (x ∷ xs) h = ground (arith, count-All p xs h.1)

  pub length-take : (n : ℕ) (xs : List A) → length (take n xs) + (length xs - n) ≡ length xs
  length-take zero xs = omega arith
  length-take (suc n) [] = omega arith
  length-take (suc n) (x ∷ xs) = omega (arith, length-take n xs)
