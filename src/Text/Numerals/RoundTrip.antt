-- ===== src/Text/Numerals/RoundTrip.antt =====
-- `int(str(n))` of Python is `n`: the digits of Text/Numerals, read back.
use Prim.Native.Char.{Char, code}
use Prim.Native.Nat.{◌/◌, ◌%◌}
use Prim.Native.String.{char_at, ◌++◌}
use text.Mathlib.TextLemmas.{nil-append, cons-append, append_assoc, append-nil}
use inride_worker_manager.Prelude.{
  negsuc, pos, ℤ, ℕ, zero, suc, ◌+◌, ◌*◌, ◌<◌, String, Bool, true, false, not, ◌&&◌, some, none,
  str_eq, eq_iff, if◌then◌else◌, ◌∙◌, ◌==◌, ◌≡◌, refl, inl, inr, ap, sym, ltb, Bool-cases, arith,
  opt_eq, opt_eq_lem,
}
use inride_worker_manager.Text.{is_space}
use inride_worker_manager.Text.Characters.{
  all_chars, all_chars_nil, all_chars_single, all_chars-append, all_below, all_below_lem, no_space,
  strip-no_space,
}
use inride_worker_manager.Text.Numerals.{
  negated, decimal_digit, decimal_digits, decimal, int_text, digit_value, int_digits, signed,
  unsigned_or_signed, parse_int,
}

abbrev readable : ℕ → Bool
readable d = opt_eq (digit_value (code (char_at "0123456789" d))) d

all_readable : all_below 10 readable ≡ true
unfolding all_below
all_readable = refl

digit_value_lem : (d : ℕ) → d < 10 → digit_value (code (char_at "0123456789" d)) ≡ some d
digit_value_lem d lt = opt_eq_lem _ d (all_below_lem 10 d readable all_readable lt)

int_digits-digit :
    (acc d n : ℕ) (gap : Bool) (s : String)
    → d < 10
    → acc * 10 + d ≡ n
    → int_digits acc gap (decimal_digit d ++ s) ≡ int_digits n false s
unfolding int_digits
int_digits-digit acc d n gap s lt e =
    rw (cons-append (char_at "0123456789" d) "" s, nil-append s) (step (digit_value_lem d lt))
    ∙ ap (λ m. int_digits m false s) e
  where
    c : Char
    c = char_at "0123456789" d

    step :
        digit_value (code c) ≡ some d
        → int_digits acc gap (String.◌∷◌ c s) ≡ int_digits (acc * 10 + d) false s
    step e =
        ap
          (λ v. elim v [
            | some d ↦ int_digits (acc * 10 + d) false s
            | none ↦
                let rest = int_digits acc true s in if (code c == 95) && not gap then rest else none
          ])
          e

-- reading the digits of `n` leads to `n`, if there is fuel for them
int_digits-decimal_digits :
    (fuel n : ℕ) (gap : Bool) (s : String)
    → n < fuel
    → int_digits 0 gap (decimal_digits fuel n ++ s) ≡ int_digits n false s
unfolding decimal_digits
int_digits-decimal_digits zero n gap s h = absurd (omega (arith, h))
int_digits-decimal_digits (suc fuel) n gap s h = elim (Bool-cases (ltb n 10)) [
  | inl e ↦ rw e (int_digits-digit 0 n n gap s (ground arith) (omega arith))
  | inr e ↦
      rw
        (
          e,
          append_assoc (decimal_digits fuel (n / 10)) (decimal_digit (n % 10)) s,
          int_digits-decimal_digits fuel (n / 10) gap (decimal_digit (n % 10) ++ s) (ground arith),
        )
        (int_digits-digit (n / 10) (n % 10) n false s (omega arith) (omega arith))
]

int_digits-decimal : (n : ℕ) → int_digits 0 true (decimal n) ≡ some n
unfolding decimal int_digits
int_digits-decimal n =
    rw (sym (append-nil (decimal n))) (int_digits-decimal_digits (suc n) n true "" (omega arith))

all_chars-decimal_digits :
    (p : Char → Bool) (fuel n : ℕ)
    → all_below 10 (λ d. p (char_at "0123456789" d)) ≡ true
    → all_chars p (decimal_digits fuel n) ≡ true
unfolding decimal_digits
all_chars-decimal_digits p zero n h = all_chars_nil p
all_chars-decimal_digits p (suc fuel) n h = elim (Bool-cases (ltb n 10)) [
  | inl e ↦ rw e (all_chars_single p _ (all_below_lem 10 n _ h (ground arith)))
  | inr e ↦ rw e (
      all_chars-append p (decimal_digits fuel (n / 10)) (decimal_digit (n % 10))
        (all_chars-decimal_digits p fuel (n / 10) h)
        (all_chars_single p _ (all_below_lem 10 (n % 10) _ h (omega arith))))
]

digits-no_space : (n : ℕ) → no_space (decimal n) ≡ true
unfolding decimal all_below is_space
digits-no_space n = all_chars-decimal_digits _ (suc n) n refl

abbrev no_sign : Char → Bool
no_sign c = not (code c == 45) && not (code c == 43)

unsigned_lem :
    (s : String)
    → all_chars no_sign s ≡ true
    → unsigned_or_signed s ≡ signed pos (int_digits 0 true s)
unfolding all_chars int_digits
unsigned_lem String.[] h = refl
unsigned_lem (String.◌∷◌ c s) h = branch (code c == 45) (code c == 43) h
  where
    branch :
        (minus plus : Bool)
        → ((not minus && not plus) && all_chars no_sign s) ≡ true
        → (if minus
            then signed negated (int_digits 0 true s)
            else if plus
            then signed pos (int_digits 0 true s)
            else signed pos (int_digits 0 true (String.◌∷◌ c s)))
          ≡ signed pos (int_digits 0 true (String.◌∷◌ c s))
    branch true plus h = cc h
    branch false true h = cc h
    branch false false h = refl

digits-no_sign : (n : ℕ) → all_chars no_sign (decimal n) ≡ true
unfolding decimal all_below
digits-no_sign n = all_chars-decimal_digits _ (suc n) n refl

parse_int_stripped : (s : String) → no_space s ≡ true → parse_int s ≡ unsigned_or_signed s
unfolding parse_int
parse_int_stripped s h = ap unsigned_or_signed (strip-no_space s h)

minus_sign : (s : String) → unsigned_or_signed ("-" ++ s) ≡ signed negated (int_digits 0 true s)
minus_sign s = rw (cons-append (char_at "-" 0) "" s, nil-append s) refl

minus-no_space : (n : ℕ) → no_space ("-" ++ decimal n) ≡ true
unfolding all_chars is_space
minus-no_space n = all_chars-append _ "-" (decimal n) refl (digits-no_space n)

pub int_text-no_space : (z : ℤ) → no_space (int_text z) ≡ true
unfolding int_text
int_text-no_space (pos n) = digits-no_space n
int_text-no_space (negsuc n) = minus-no_space (suc n)

-- A whole number is read back from its decimal text.
pub parse_int-int_text : (z : ℤ) → parse_int (int_text z) ≡ some z
unfolding int_text
parse_int-int_text (pos n) =
    parse_int_stripped (decimal n) (digits-no_space n)
    ∙ unsigned_lem (decimal n) (digits-no_sign n)
    ∙ ap (signed pos) (int_digits-decimal n)
parse_int-int_text (negsuc n) =
    parse_int_stripped ("-" ++ decimal (suc n)) (minus-no_space (suc n))
    ∙ minus_sign (decimal (suc n))
    ∙ ap (signed negated) (int_digits-decimal (suc n))

nothing_unread : parse_int "" ≡ none
unfolding parse_int
nothing_unread = refl

pub int_text-nonempty : (z : ℤ) → str_eq (int_text z) "" ≡ false
int_text-nonempty z = elim (Bool-cases (str_eq (int_text z) "")) [
  | inr e ↦ e
  | inl e ↦ absurd (
      none-ne-some (
        sym nothing_unread
        ∙ ap parse_int (sym ((eq_iff (int_text z) "").0 e))
        ∙ parse_int-int_text z))
]
  where
    none-ne-some : none ≡ some z → ⊥
    none-ne-some h = cc h
