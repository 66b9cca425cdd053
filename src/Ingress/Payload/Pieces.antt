-- ===== src/Ingress/Payload/Pieces.antt =====
-- What the steps of `UUID(text)` leave of a text that has none of the characters that they look
-- for.
use inride_worker_manager.Text.{begins_with}
use inride_worker_manager.Ingress.Payload.{
  drop_plus, is_brace, strip_braces_left, strip_braces_right, without,
}
use inride_worker_manager.Text.Characters.{all_chars}
use Prim.Native.Char.{Char, code}
use Prim.Native.String.{char_at, ◌++◌}
use text.Mathlib.TextLemmas.{nil-append, cons-append}
use inride_worker_manager.Prelude.{
  ◌&&◌, ◌==◌, ◌||◌, String, Bool, true, false, not, ◌≡◌, refl, arith,
}

abbrev pub differs_from : Char → Char → Bool
differs_from d c = not (code c == code d)

-- the two tests with which a text of passing characters begins
pub both : (a b : Bool) → (a && b) ≡ true → (a ≡ true) × (b ≡ true)
both a b h = ground (arith, h)

pub without-absent :
    (d : Char) (t s : String)
    → all_chars (differs_from d) s ≡ true
    → without 0 (String.◌∷◌ d t) s ≡ s
unfolding without all_chars begins_with
without-absent d t String.[] h = refl
without-absent d t (String.◌∷◌ c s) h = ground (arith, h, without-absent d t s)

pub without_dash-append :
    (a s : String)
    → all_chars (differs_from (char_at "-" 0)) a ≡ true
    → without 0 "-" (a ++ s) ≡ a ++ without 0 "-" s
unfolding without all_chars begins_with
without_dash-append String.[] s h = rw (nil-append s, nil-append (without 0 "-" s)) refl
without_dash-append (String.◌∷◌ c a) s h =
    rw (cons-append c a s, cons-append c a (without 0 "-" s))
      (ground (arith, h, without_dash-append a s))

pub without_dash-dash : (s : String) → without 0 "-" ("-" ++ s) ≡ without 0 "-" s
unfolding without begins_with
without_dash-dash s = rw (cons-append (char_at "-" 0) "" s, nil-append s) refl

abbrev pub no_brace : Char → Bool
no_brace c = not (is_brace c)

pub strip_braces_left-absent : (s : String) → all_chars no_brace s ≡ true → strip_braces_left s ≡ s
unfolding strip_braces_left all_chars
strip_braces_left-absent String.[] h = refl
strip_braces_left-absent (String.◌∷◌ c s) h = ground (arith, h)

pub strip_braces_right-absent :
    (s : String) → all_chars no_brace s ≡ true → strip_braces_right s ≡ s
unfolding strip_braces_right all_chars
strip_braces_right-absent String.[] h = refl
strip_braces_right-absent (String.◌∷◌ c s) h = ground (arith, h, strip_braces_right-absent s)

-- the prefix of `int(text, 16)` and the plus
abbrev pub no_prefix : Char → Bool
no_prefix c = not (code c == 120) && (not (code c == 88) && not (code c == 43))

pub no_prefix-start :
    (s : String) → all_chars no_prefix s ≡ true → (begins_with s "0x" || begins_with s "0X") ≡ false
unfolding begins_with all_chars
no_prefix-start String.[] h = refl
no_prefix-start (String.◌∷◌ c String.[]) h = ground arith
no_prefix-start (String.◌∷◌ c (String.◌∷◌ d s)) h = ground (arith, h)

pub drop_plus-absent : (s : String) → all_chars no_prefix s ≡ true → drop_plus s ≡ s
unfolding all_chars
drop_plus-absent String.[] h = refl
drop_plus-absent (String.◌∷◌ c s) h = ground (arith, h)
