-- ===== src/Ingress/Payload/RoundTrip.antt =====
-- `UUID(str(u))` is `u`: the text that Text writes for a UUID is read back.
use inride_worker_manager.Ingress.Payload.Pieces.{
  drop_plus-absent, no_brace, no_prefix, no_prefix-start, strip_braces_left-absent,
  strip_braces_right-absent, without-absent, differs_from, without_dash-append, without_dash-dash,
}
use inride_worker_manager.Ingress.Payload.Digits.{count-hex, hex_digits-hex, all_chars-hex, shift}
use inride_worker_manager.Ingress.Payload.{
  Fields, get_field, id_text, is_truthy, notification_id_of, obj, str, strip_braces_left,
  strip_braces_right, uuid_of_value, parse_hex, parse_uuid, hex_digits, without,
}
use inride_worker_manager.Text.{is_empty, is_space, hex, uuid_text}
use inride_worker_manager.Text.Characters.{
  no_space, strip-no_space, all_below, all_chars, all_chars-append,
}
use text.Mathlib.TextLemmas.{append-nil, length-append}
use Prim.Native.Char.{Char}
use Prim.Native.Nat.{◌/◌, ◌^◌}
use Prim.Native.String.{char_at, count, ◌++◌}
use inride_worker_manager.Prelude.{
  Bool-cases, inl, inr, none, arith, false, suc, sym, ◌+◌, Bool, String, ap, refl, some, true, ◌∙◌,
  ◌≡◌, ℕ, ◌<◌,
}

-- the digits of a UUID, with no dashes
abbrev bare : ℕ → String
bare u =
    hex 8 (u / 16 ^ 24)
    ++ (hex 4 (u / 16 ^ 20) ++ (hex 4 (u / 16 ^ 16) ++ (hex 4 (u / 16 ^ 12) ++ hex 12 u)))

all_chars-bare :
    (p : Char → Bool) (u : ℕ)
    → all_below 16 (λ d. p (char_at "0123456789abcdef" d)) ≡ true
    → all_chars p (bare u) ≡ true
all_chars-bare p u h =
    let digits = λ (k : ℕ). λ (n : ℕ). all_chars-hex p k n h in
    all_chars-append p (hex 8 (u / 16 ^ 24)) _ (digits 8 (u / 16 ^ 24)) (
      all_chars-append p (hex 4 (u / 16 ^ 20)) _ (digits 4 (u / 16 ^ 20)) (
        all_chars-append p (hex 4 (u / 16 ^ 16)) _ (digits 4 (u / 16 ^ 16)) (
          all_chars-append p (hex 4 (u / 16 ^ 12)) (hex 12 u) (digits 4 (u / 16 ^ 12))
            (digits 12 u))))

dashed-append :
    (p : Char → Bool) (k n : ℕ) (s : String)
    → all_below 16 (λ d. p (char_at "0123456789abcdef" d)) ≡ true
    → all_chars p "-" ≡ true
    → all_chars p s ≡ true
    → all_chars p (hex k n ++ ("-" ++ s)) ≡ true
dashed-append p k n s h d e =
    all_chars-append p (hex k n) _ (all_chars-hex p k n h) (all_chars-append p "-" s d e)

all_chars-uuid_text :
    (p : Char → Bool) (u : ℕ)
    → all_below 16 (λ d. p (char_at "0123456789abcdef" d)) ≡ true
    → all_chars p "-" ≡ true
    → all_chars p (uuid_text u) ≡ true
unfolding uuid_text
all_chars-uuid_text p u h d = dashed-append p 8 (u / 16 ^ 24) _ h d (
    dashed-append p 4 (u / 16 ^ 20) _ h d (
      dashed-append p 4 (u / 16 ^ 16) _ h d
        (dashed-append p 4 (u / 16 ^ 12) _ h d (all_chars-hex p 12 u h))))

hex_no_dash : (k n : ℕ) → all_chars (differs_from (char_at "-" 0)) (hex k n) ≡ true
unfolding all_below
hex_no_dash k n = all_chars-hex _ k n refl

without_dash-hex :
    (k n : ℕ) (s : String) → without 0 "-" (hex k n ++ ("-" ++ s)) ≡ hex k n ++ without 0 "-" s
without_dash-hex k n s =
    without_dash-append (hex k n) ("-" ++ s) (hex_no_dash k n)
    ∙ ap (λ t. hex k n ++ t) (without_dash-dash s)

without_dash-uuid_text : (u : ℕ) → without 0 "-" (uuid_text u) ≡ bare u
unfolding uuid_text
without_dash-uuid_text u =
    without_dash-hex 8 (u / 16 ^ 24) _
    ∙ ap (λ t. hex 8 (u / 16 ^ 24) ++ t)
        (without_dash-hex 4 (u / 16 ^ 20) _
          ∙ ap (λ t. hex 4 (u / 16 ^ 20) ++ t)
              (without_dash-hex 4 (u / 16 ^ 16) _
                ∙ ap (λ t. hex 4 (u / 16 ^ 16) ++ t)
                    (without_dash-hex 4 (u / 16 ^ 12) (hex 12 u)
                      ∙ ap (λ t. hex 4 (u / 16 ^ 12) ++ t)
                          (without-absent (char_at "-" 0) "" (hex 12 u) (hex_no_dash 12 u)))))

-- the digits of `n` read behind those of `m`, if `m` is `n` without them
hex_digits-behind :
    (k m n : ℕ) (gap : Bool) (s : String)
    → m ≡ shift (suc k) n
    → hex_digits m gap (hex (suc k) n ++ s) ≡ hex_digits n false s
hex_digits-behind k m n gap s e =
    ap (λ a. hex_digits a gap (hex (suc k) n ++ s)) e ∙ hex_digits-hex k n gap s

shift_8 : (u : ℕ) → u < 16 ^ 32 → 0 ≡ shift 8 (u / 16 ^ 24)
unfolding shift
shift_8 u h = omega (arith, h)

shift_4 : (a b : ℕ) → a ≡ b / 65536 → a ≡ shift 4 b
unfolding shift
shift_4 a b h = omega (arith, h)

shift_12 : (u : ℕ) → u / 16 ^ 12 ≡ shift 12 u
unfolding shift
shift_12 u = omega arith

hex_digits-bare : (u : ℕ) → u < 16 ^ 32 → hex_digits 0 true (bare u) ≡ some u
unfolding hex_digits
hex_digits-bare u h =
    hex_digits-behind 7 0 (u / 16 ^ 24) true _ (shift_8 u h)
    ∙ hex_digits-behind 3 (u / 16 ^ 24) (u / 16 ^ 20) false _ (shift_4 _ _ (omega arith))
    ∙ hex_digits-behind 3 (u / 16 ^ 20) (u / 16 ^ 16) false _ (shift_4 _ _ (omega arith))
    ∙ hex_digits-behind 3 (u / 16 ^ 16) (u / 16 ^ 12) false _ (shift_4 _ _ (omega arith))
    ∙ ap (hex_digits (u / 16 ^ 12) false) (sym (append-nil (hex 12 u)))
    ∙ hex_digits-behind 11 (u / 16 ^ 12) u false "" (shift_12 u)

count-append : (s t : String) (a b : ℕ) → count s ≡ a → count t ≡ b → count (s ++ t) ≡ a + b
count-append s t a b h k = omega (arith, length-append s t, h, k)

count-bare : (u : ℕ) → count (bare u) ≡ 32
count-bare u = count-append (hex 8 (u / 16 ^ 24)) _ 8 24 (count-hex 8 _) (
    count-append (hex 4 (u / 16 ^ 20)) _ 4 20 (count-hex 4 _) (
      count-append (hex 4 (u / 16 ^ 16)) _ 4 16 (count-hex 4 _)
        (count-append (hex 4 (u / 16 ^ 12)) (hex 12 u) 4 12 (count-hex 4 _) (count-hex 12 u))))

bare-no_space : (u : ℕ) → no_space (bare u) ≡ true
unfolding all_below is_space
bare-no_space u = all_chars-bare _ u refl

bare-no_prefix : (u : ℕ) → all_chars no_prefix (bare u) ≡ true
unfolding all_below
bare-no_prefix u = all_chars-bare _ u refl

parse_hex-bare : (u : ℕ) → u < 16 ^ 32 → parse_hex (bare u) ≡ some u
unfolding parse_hex
parse_hex-bare u h =
    rw
      (
        strip-no_space (bare u) (bare-no_space u),
        drop_plus-absent (bare u) (bare-no_prefix u),
        no_prefix-start (bare u) (bare-no_prefix u),
      )
      (hex_digits-bare u h)

uuid_text-no_u : (u : ℕ) → all_chars (differs_from (char_at "u" 0)) (uuid_text u) ≡ true
unfolding all_below all_chars
uuid_text-no_u u = all_chars-uuid_text _ u refl refl

uuid_text-no_brace : (u : ℕ) → all_chars no_brace (uuid_text u) ≡ true
unfolding all_below all_chars
uuid_text-no_brace u = all_chars-uuid_text _ u refl refl

-- the text of a UUID is read back
pub parse_uuid-uuid_text : (u : ℕ) → u < 2 ^ 128 → parse_uuid (uuid_text u) ≡ some u
unfolding parse_uuid
parse_uuid-uuid_text u h =
    rw
      (
        without-absent (char_at "u" 0) "rn:" (uuid_text u) (uuid_text-no_u u),
        without-absent (char_at "u" 0) "uid:" (uuid_text u) (uuid_text-no_u u),
        strip_braces_left-absent (uuid_text u) (uuid_text-no_brace u),
        strip_braces_right-absent (uuid_text u) (uuid_text-no_brace u),
        without_dash-uuid_text u,
        count-bare u,
      )
      (parse_hex-bare u (omega (arith, h)))

text_kept : (t : String) → is_empty t ≡ true → t ≡ ""
text_kept String.[] h = refl
text_kept (String.◌∷◌ c s) h = cc h

nothing_parsed : parse_uuid "" ≡ none
unfolding parse_uuid without strip_braces_left strip_braces_right
nothing_parsed = refl

uuid_text-nonempty : (u : ℕ) → u < 2 ^ 128 → is_empty (uuid_text u) ≡ false
uuid_text-nonempty u h = elim (Bool-cases (is_empty (uuid_text u))) [
  | inr e ↦ e
  | inl e ↦ absurd (
      none-ne-some (
        sym nothing_parsed
        ∙ ap parse_uuid (sym (text_kept (uuid_text u) e))
        ∙ parse_uuid-uuid_text u h))
]
  where
    none-ne-some : none ≡ some u → ⊥
    none-ne-some h = cc h

-- A payload whose field `notification_id` is the text of a UUID, which has 128 bits, names that
-- UUID.
pub notification_id_of-uuid_text :
    (u : ℕ) (fields : Fields)
    → u < 2 ^ 128
    → get_field "notification_id" fields ≡ some (str (uuid_text u))
    → notification_id_of (obj fields) ≡ some u
unfolding notification_id_of uuid_of_value is_truthy id_text
notification_id_of-uuid_text u fields h e =
    rw (e, uuid_text-nonempty u h) (parse_uuid-uuid_text u h)
