-- ===== src/Core/Env/Reading.antt =====
-- What app/core/env.py makes of the values of variables: numbers, and the name of the deployment.
use inride_worker_manager.Prelude.{
  ℤ, Bool, false, if◌then◌else◌, true, Option, none, some, String, text_or, Bool-cases, inl, inr,
  refl, ◌≡◌, ◌∙◌, str_eq, ap,
}
use inride_worker_manager.Text.{strip, lower}
use inride_worker_manager.Text.Characters.{strip-no_space}
use inride_worker_manager.Text.Numerals.{int_digits, parse_int, int_text}
use inride_worker_manager.Text.Numerals.RoundTrip.{
  parse_int-int_text, int_text-no_space, int_text-nonempty,
}
use inride_worker_manager.Core.Env.{
  get_env_bool, get_env_float, is_nonzero, truth_of, Environment, get_env, get_env_int, value_or,
}

abbrev pub printed : Option ℤ → Option String
printed none = none
printed (some z) = some (int_text z)

abbrev pub or_default : Option ℤ → ℤ → ℤ
or_default none d = d
or_default (some z) d = z

get_env_printed :
    (env : Environment) (key default : String) (z : ℤ)
    → env key ≡ some (int_text z)
    → get_env env key default ≡ int_text z
unfolding get_env
get_env_printed env key default z h =
    rw (h, int_text-nonempty z) (strip-no_space (int_text z) (int_text-no_space z))

-- A variable that holds the decimal text of a whole number reads as that number, and an absent
-- one as the default.
pub get_env_int_reads :
    (env : Environment) (key : String) (default : ℤ) (o : Option ℤ)
    → env key ≡ printed o
    → get_env_int env key default ≡ some (or_default o default)
unfolding get_env_int
get_env_int_reads env key default none h = rw h (parse_int-int_text default)
get_env_int_reads env key default (some z) h =
    rw (h, int_text-nonempty z, strip-no_space (int_text z) (int_text-no_space z))
      (parse_int-int_text z)

truth_lem : (b : Bool) → truth_of (parse_int (if b then "1" else "0")) ≡ some b
unfolding parse_int int_digits
truth_lem true = refl
truth_lem false = refl

abbrev pub bool_or_default : Option ℤ → Bool → Bool
bool_or_default none d = d
bool_or_default (some z) d = is_nonzero z

-- a variable that holds the decimal text of a whole number reads as whether it is not zero
pub get_env_bool_reads :
    (env : Environment) (key : String) (default : Bool) (o : Option ℤ)
    → env key ≡ printed o
    → get_env_bool env key default ≡ some (bool_or_default o default)
unfolding get_env_bool get_env
get_env_bool_reads env key default none h = rw h (truth_lem default)
get_env_bool_reads env key default (some z) h =
    ap (λ t. truth_of (parse_int t)) (get_env_printed env key _ z h)
    ∙ ap truth_of (parse_int-int_text z)

pub get_env_float_reads :
    {F : Type 0} (to_float : String → Option F) (of_int : ℤ → F)
    → ((z : ℤ) → to_float (int_text z) ≡ some (of_int z))
    → (env : Environment) (key : String) (default : ℤ) (o : Option ℤ) → env key ≡ printed o
    → get_env_float to_float env key default ≡ some (of_int (or_default o default))
unfolding get_env_float get_env
get_env_float_reads to_float of_int reads env key default none h = rw h (reads default)
get_env_float_reads to_float of_int reads env key default (some z) h =
    ap to_float (get_env_printed env key _ z h) ∙ reads z

named : (o : Option String) → lower (strip (text_or o "dev")) ≡ lower (value_or "dev" o)
unfolding strip
named none = refl
named (some v) = elim (Bool-cases (str_eq v "")) [ inl e ↦ rw e refl | inr e ↦ rw e refl ]
