-- ===== src/Pipeline/Previews.antt =====
-- `_truncate` of app/pipeline/expo_sender.py: the body of a push.
use inride_worker_manager.Pipeline.ExpoSender.{truncate, truncate_at}
use inride_worker_manager.Prelude.{
  Bool, if◌then◌else◌, ◌&&◌, Bool-cases, Option, String, arith, false, inl, inr, leb, none, refl,
  some, suc, text_or, true, zero, ℕ, ◌+◌, ◌-◌, ◌≡◌, ◌≤◌,
}
use Prim.Native.Char.{Char}
use Prim.Native.String.{count}
use text.Mathlib.TextLemmas.{length-append, length-cons}
use inride_worker_manager.Text.{is_space, is_empty, strip, prefix, rstrip}

length-prefix-le : (n : ℕ) (s : String) → count (prefix n s) ≤ n
unfolding prefix
length-prefix-le zero s = omega arith
length-prefix-le (suc n) String.[] = omega arith
length-prefix-le (suc n) (String.◌∷◌ c s) =
    omega (arith, length-cons c (prefix n s), length-prefix-le n s)

length-kept-le :
    (b : Bool) (c : Char) (r s : String)
    → count r ≤ count s
    → count (if b then String.[] else String.◌∷◌ c r) ≤ count (String.◌∷◌ c s)
length-kept-le true c r s h = omega arith
length-kept-le false c r s h = omega (arith, length-cons c r, length-cons c s, h)

length-rstrip-le : (s : String) → count (rstrip s) ≤ count s
unfolding rstrip
length-rstrip-le String.[] = omega arith
length-rstrip-le (String.◌∷◌ c s) =
    length-kept-le (is_empty (rstrip s) && is_space c) c (rstrip s) s (length-rstrip-le s)

-- What a text is cut to: nothing of a blank text, a short text as it is, and at most two characters
-- more than the limit of a long one.
abbrev pub IsCut : ℕ → String → Option String → Type 0
IsCut limit text none = is_empty text ≡ true
IsCut limit text (some r) =
    (is_empty text ≡ false) × (count r ≤ limit + 2) × (count text ≤ limit → r ≡ text)

IsCut-at : (limit : ℕ) (text : String) → 1 ≤ limit → IsCut limit text (truncate_at limit text)
unfolding truncate_at
IsCut-at limit text h = elim (Bool-cases (is_empty text)) [
  | inl e ↦ rw e e
  | inr e ↦ rw e (elim (Bool-cases (leb (count text) limit)) [
    | inl x ↦ rw x (e, ground arith, λ _. refl)
    | inr x ↦ rw x (
      e,
      omega (
        arith,
        length-append (rstrip (prefix (limit - 1) text)) "...",
        length-rstrip-le (prefix (limit - 1) text),
        length-prefix-le (limit - 1) text,
      ),
      λ k. absurd (ground arith),
    )
  ])
]

-- A preview is absent exactly if its text is blank. One that fits the limit is the text without
-- the white space around it, and a longer one is cut to at most two characters more than the
-- limit.
pub truncate_bounds :
    (text : Option String) (limit : ℕ)
    → 1 ≤ limit
    → IsCut limit (strip (text_or text "")) (truncate text limit)
unfolding truncate
truncate_bounds text limit h = IsCut-at limit (strip (text_or text "")) h
