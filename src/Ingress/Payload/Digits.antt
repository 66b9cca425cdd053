-- ===== src/Ingress/Payload/Digits.antt =====
-- The hexadecimal digits that Text writes, as Ingress/Payload reads them.
use inride_worker_manager.Text.{hex, hex_digit}
use inride_worker_manager.Text.Characters.{
  all_below, all_below_lem, all_chars, all_chars-append, all_chars_nil, all_chars_single,
}
use inride_worker_manager.Ingress.Payload.{hex_digits, hex_value}
use Prim.Native.Char.{Char, code}
use Prim.Native.Nat.{◌/◌, ◌%◌}
use Prim.Native.String.{char_at, count, ◌++◌}
use text.Mathlib.TextLemmas.{
  nil-append, cons-append, append_assoc, length-append, length-cons, length-nil,
}
use inride_worker_manager.Prelude.{
  arith, if◌then◌else◌, none, not, opt_eq, opt_eq_lem, some, ◌&&◌, ◌==◌, ◌∙◌, ℕ, zero, suc, ◌+◌,
  ◌*◌, ◌<◌, String, Bool, true, false, ◌≡◌, refl, ap,
}

abbrev readable : ℕ → Bool
readable d = opt_eq (hex_value (code (char_at "0123456789abcdef" d))) d

all_readable : all_below 16 readable ≡ true
unfolding all_below
all_readable = refl

hex_value_lem : (d : ℕ) → d < 16 → hex_value (code (char_at "0123456789abcdef" d)) ≡ some d
hex_value_lem d lt = opt_eq_lem _ d (all_below_lem 16 d readable all_readable lt)

hex_digits-digit :
    (acc d n : ℕ) (gap : Bool) (s : String)
    → d < 16
    → acc * 16 + d ≡ n
    → hex_digits acc gap (hex_digit d ++ s) ≡ hex_digits n false s
unfolding hex_digits
hex_digits-digit acc d n gap s lt e =
    rw (cons-append (char_at "0123456789abcdef" d) "" s, nil-append s) (step (hex_value_lem d lt))
    ∙ ap (λ m. hex_digits m false s) e
  where
    c : Char
    c = char_at "0123456789abcdef" d

    step :
        hex_value (code c) ≡ some d
        → hex_digits acc gap (String.◌∷◌ c s) ≡ hex_digits (acc * 16 + d) false s
    step e =
        ap
          (λ v. elim v [
            | some d ↦ hex_digits (acc * 16 + d) false s
            | none ↦
                let rest = hex_digits acc true s in if (code c == 95) && not gap then rest else none
          ])
          e

-- `n` without its last `k` digits
unfoldable pub shift : ℕ → ℕ → ℕ
shift zero n = n
shift (suc k) n = shift k (n / 16)

pub hex_digits-hex :
    (k n : ℕ) (gap : Bool) (s : String)
    → hex_digits (shift (suc k) n) gap (hex (suc k) n ++ s) ≡ hex_digits n false s
unfolding hex shift
hex_digits-hex zero n gap s =
    rw (nil-append (hex_digit (n % 16)))
      (hex_digits-digit (n / 16) (n % 16) n gap s (omega arith) (omega arith))
hex_digits-hex (suc k) n gap s =
    ap (hex_digits (shift (suc (suc k)) n) gap)
      (append_assoc (hex (suc k) (n / 16)) (hex_digit (n % 16)) s)
    ∙ hex_digits-hex k (n / 16) gap (hex_digit (n % 16) ++ s)
    ∙ hex_digits-digit (n / 16) (n % 16) n false s (omega arith) (omega arith)

pub all_chars-hex :
    (p : Char → Bool) (k n : ℕ)
    → all_below 16 (λ d. p (char_at "0123456789abcdef" d)) ≡ true
    → all_chars p (hex k n) ≡ true
unfolding hex
all_chars-hex p zero n h = all_chars_nil p
all_chars-hex p (suc k) n h =
    all_chars-append p (hex k (n / 16)) (hex_digit (n % 16)) (all_chars-hex p k (n / 16) h)
      (all_chars_single p _ (all_below_lem 16 (n % 16) _ h (omega arith)))

pub count-hex : (k n : ℕ) → count (hex k n) ≡ k
unfolding hex
count-hex zero n = length-nil
count-hex (suc k) n = omega (
  arith,
  length-append (hex k (n / 16)) (hex_digit (n % 16)),
  length-cons (char_at "0123456789abcdef" (n % 16)) "",
  length-nil,
  count-hex k (n / 16),
)
