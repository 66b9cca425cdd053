-- ===== src/Text/Numerals.antt =====
-- `str(n)` and `int(text)` of Python on whole numbers, over ASCII digits: what app/core/env.py
-- reads a setting with, and what writes a number into a text. `int` strips the text, takes a
-- sign, and allows single underscores between digits; `none` is a ValueError.
use Prim.Native.Char.{code}
use Prim.Native.Nat.{◌/◌, ◌%◌}
use Prim.Native.String.{char_at, ◌++◌}
use inride_worker_manager.Prelude.{
  ℤ, pos, negsuc, ℕ, zero, suc, ◌+◌, ◌-◌, ◌*◌, String, Bool, true, false, not, ◌&&◌, Option, none,
  some, ◌==◌, leb, ltb, if◌then◌else◌,
}
use inride_worker_manager.Text.{strip}
pub mod RoundTrip

abbrev pub negated : ℕ → ℤ
negated zero = pos 0
negated (suc n) = negsuc n

abbrev pub decimal_digit : ℕ → String
decimal_digit d = String.◌∷◌ (char_at "0123456789" d) String.[]

-- a number has fewer digits than `suc n`
unfoldable pub decimal_digits : ℕ → ℕ → String
decimal_digits zero n = ""
decimal_digits (suc fuel) n =
    let rest = decimal_digits fuel (n / 10) in
    if ltb n 10 then decimal_digit n else rest ++ decimal_digit (n % 10)

unfoldable pub decimal : ℕ → String
unfolding decimal_digits
decimal n = decimal_digits (suc n) n

unfoldable pub int_text : ℤ → String
int_text (pos n) = decimal n
int_text (negsuc n) = "-" ++ decimal (suc n)

abbrev pub digit_value : ℕ → Option ℕ
digit_value c = if leb 48 c && leb c 57 then some (c - 48) else none

unfoldable pub int_digits : ℕ → (after_gap : Bool) → String → Option ℕ
int_digits acc after_gap String.[] = if after_gap then none else some acc
int_digits acc after_gap (String.◌∷◌ c s) = elim (digit_value (code c)) [
  | some d ↦ int_digits (acc * 10 + d) false s
  | none ↦
      let rest = int_digits acc true s in if (code c == 95) && not after_gap then rest else none
]

abbrev pub signed : (ℕ → ℤ) → Option ℕ → Option ℤ
signed f none = none
signed f (some n) = some (f n)

abbrev pub unsigned_or_signed : String → Option ℤ
unsigned_or_signed String.[] = none
unsigned_or_signed (String.◌∷◌ c s) =
    if code c == 45
    then signed negated (int_digits 0 true s)
    else if code c == 43
    then signed pos (int_digits 0 true s)
    else signed pos (int_digits 0 true (String.◌∷◌ c s))

unfoldable pub parse_int : String → Option ℤ
unfolding strip
parse_int text = unsigned_or_signed (strip text)
