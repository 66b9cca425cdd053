-- ===== src/Text/Characters.antt =====
-- Texts by their characters: a Boolean test of each, and what the methods of app/core/env.py and
-- of the parsers do to a text whose characters all pass.
use Prim.Native.Char.{Char}
use Prim.Native.String.{◌++◌}
use text.Mathlib.TextLemmas.{nil-append, cons-append}
use inride_worker_manager.Prelude.{
  ℕ, zero, suc, ◌<◌, String, Bool, true, false, not, ◌&&◌, ◌==◌, ◌≡◌, refl, arith, Bool-cases, inl,
  inr, ==_iff, if◌then◌else◌,
}
use inride_worker_manager.Text.{is_space, is_empty, lstrip, rstrip, strip}

unfoldable pub all_chars : (Char → Bool) → String → Bool
all_chars p String.[] = true
all_chars p (String.◌∷◌ c s) = p c && all_chars p s

pub all_chars_nil : (p : Char → Bool) → all_chars p "" ≡ true
unfolding all_chars
all_chars_nil p = refl

pub all_chars_single :
    (p : Char → Bool) (c : Char) → p c ≡ true → all_chars p (String.◌∷◌ c String.[]) ≡ true
unfolding all_chars
all_chars_single p c h = rw h refl

pub all_chars-append :
    (p : Char → Bool) (s t : String)
    → all_chars p s ≡ true
    → all_chars p t ≡ true
    → all_chars p (s ++ t) ≡ true
unfolding all_chars
all_chars-append p String.[] t h k = rw (nil-append t) k
all_chars-append p (String.◌∷◌ c s) t h k =
    rw (cons-append c s t) (ground (arith, all_chars-append p s t))

-- a test of every number below a bound, run at once
unfoldable pub all_below : ℕ → (ℕ → Bool) → Bool
all_below zero p = true
all_below (suc n) p = p n && all_below n p

pub all_below_lem : (n d : ℕ) (p : ℕ → Bool) → all_below n p ≡ true → d < n → p d ≡ true
unfolding all_below
all_below_lem zero d p h lt = absurd (omega (arith, lt))
all_below_lem (suc n) d p h lt = elim (Bool-cases (d == n)) [
  | inl e ↦ rw ((==_iff d n).0 e) (ground arith)
  | inr e ↦ all_below_lem n d p (ground arith) (ground arith)
]

abbrev pub no_space : String → Bool
no_space = all_chars (λ c. not (is_space c))

-- the two tests that a text of no space begins with
and_parts : (a b : Bool) → (not a && b) ≡ true → (a ≡ false) × (b ≡ true)
and_parts a b h = ground (arith, h)

pub lstrip-no_space : (s : String) → no_space s ≡ true → lstrip s ≡ s
unfolding lstrip all_chars
lstrip-no_space String.[] h = refl
lstrip-no_space (String.◌∷◌ c s) h = rw ((and_parts (is_space c) (no_space s) h).0) refl

kept_char :
    (c : Char) (s : String)
    → (if is_empty s && false then String.[] else String.◌∷◌ c s) ≡ String.◌∷◌ c s
kept_char c String.[] = refl
kept_char c (String.◌∷◌ d s) = refl

pub rstrip-no_space : (s : String) → no_space s ≡ true → rstrip s ≡ s
unfolding rstrip all_chars
rstrip-no_space String.[] h = refl
rstrip-no_space (String.◌∷◌ c s) h =
    let parts = and_parts (is_space c) (no_space s) h in
    rw (rstrip-no_space s (parts.1), parts.0) (kept_char c s)

pub strip-no_space : (s : String) → no_space s ≡ true → strip s ≡ s
unfolding strip
strip-no_space s h = rw (lstrip-no_space s h) (rstrip-no_space s h)
