-- ===== src/Prelude/Int.antt =====
-- Whole numbers with a sign, over the native numbers.
use Prim.Native.Nat.{ℕ}
use mathlib.Core.Path.{◌≡◌, refl}
use native.Mathlib.Omega.{arith}
use mathlib.Core.Bool.{Bool, true, false}
use inride_worker_manager.Prelude.Tests.{leb, ◌==◌, if◌then◌else◌}

-- `negsuc n` is -(n + 1)
pub data ℤ : Type 0 where
  pos : ℕ → ℤ
  negsuc : ℕ → ℤ

abbrev pub pos_part : ℤ → ℕ
pos_part (pos n) = n
pos_part (negsuc n) = 0

abbrev pub is_negative : ℤ → Bool
is_negative (pos n) = false
is_negative (negsuc n) = true

-- `n <= 0`
abbrev pub is_nonpositive : ℤ → Bool
is_nonpositive (pos n) = n == 0
is_nonpositive (negsuc n) = true

-- `a <= b`
abbrev pub leb_int : ℤ → ℤ → Bool
leb_int (pos a) (pos b) = leb a b
leb_int (pos a) (negsuc b) = false
leb_int (negsuc a) (pos b) = true
leb_int (negsuc a) (negsuc b) = leb b a

-- `a < b`
abbrev pub ltb_int : ℤ → ℤ → Bool
ltb_int a b = if leb_int b a then false else true

-- `a == b`
abbrev pub eq_int : ℤ → ℤ → Bool
eq_int (pos a) (pos b) = a == b
eq_int (pos a) (negsuc b) = false
eq_int (negsuc a) (pos b) = false
eq_int (negsuc a) (negsuc b) = a == b

pub leb_int_trans : (a b c : ℤ) → leb_int a b ≡ true → leb_int b c ≡ true → leb_int a c ≡ true
leb_int_trans (pos a) (pos b) (pos c) p q = ground arith
leb_int_trans (pos a) (pos b) (negsuc c) p q = q
leb_int_trans (pos a) (negsuc b) c p q = cc p
leb_int_trans (negsuc a) b (pos c) p q = refl
leb_int_trans (negsuc a) (pos b) (negsuc c) p q = cc q
leb_int_trans (negsuc a) (negsuc b) (negsuc c) p q = ground arith

pub leb_int_total : (a b : ℤ) → leb_int a b ≡ false → leb_int b a ≡ true
leb_int_total (pos a) (pos b) h = ground arith
leb_int_total (pos a) (negsuc b) h = refl
leb_int_total (negsuc a) (pos b) h = cc h
leb_int_total (negsuc a) (negsuc b) h = ground arith

pub eq_int-leb_int : (a b : ℤ) → eq_int a b ≡ true → leb_int b a ≡ true
eq_int-leb_int (pos a) (pos b) h = ground arith
eq_int-leb_int (pos a) (negsuc b) h = refl
eq_int-leb_int (negsuc a) (pos b) h = cc h
eq_int-leb_int (negsuc a) (negsuc b) h = ground arith
