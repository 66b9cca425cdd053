-- ===== src/Text.antt =====
-- The methods of Python's `str` that the code calls, on texts of Unicode characters, and `str` of
-- a UUID. `lower` maps the letters A to Z and leaves other characters as they are.
pub mod Characters
pub mod Numerals
use Prim.Native.Char.{Char, code}
use Prim.Native.Nat.{◌/◌, ◌%◌, ◌^◌}
use Prim.Native.String.{char_at, ◌++◌}
use inride_worker_manager.Prelude.{
  ℕ, zero, suc, ◌-◌, String, Bool, true, false, ◌&&◌, ◌||◌, ◌==◌, leb, if◌then◌else◌,
}

-- the characters for which `str.isspace` holds and which `strip` removes
unfoldable pub is_space : Char → Bool
is_space c =
    let n = code c in
    (leb 9 n && leb n 13)
    || (leb 28 n && leb n 32)
    || (n == 133)
    || (n == 160)
    || (n == 5760)
    || (leb 8192 n && leb n 8202)
    || (n == 8232)
    || (n == 8233)
    || (n == 8239)
    || (n == 8287)
    || (n == 12288)

unfoldable pub lstrip : String → String
unfolding is_space
lstrip String.[] = String.[]
lstrip (String.◌∷◌ c s) = if is_space c then lstrip s else String.◌∷◌ c s

abbrev pub is_empty : String → Bool
is_empty String.[] = true
is_empty (String.◌∷◌ c s) = false

unfoldable pub rstrip : String → String
unfolding is_space
rstrip String.[] = String.[]
rstrip (String.◌∷◌ c s) =
    let rest = rstrip s in if is_empty rest && is_space c then String.[] else String.◌∷◌ c rest

unfoldable pub strip : String → String
unfolding lstrip rstrip
strip s = rstrip (lstrip s)

-- `s[:n]`
unfoldable pub prefix : ℕ → String → String
prefix zero s = String.[]
prefix (suc n) String.[] = String.[]
prefix (suc n) (String.◌∷◌ c s) = String.◌∷◌ c (prefix n s)

-- `s.startswith(start)`
unfoldable pub begins_with : String → String → Bool
begins_with s String.[] = true
begins_with String.[] (String.◌∷◌ d t) = false
begins_with (String.◌∷◌ c s) (String.◌∷◌ d t) = (code c == code d) && begins_with s t

abbrev lower_char : Char → Char
lower_char c =
    if leb 65 (code c) && leb (code c) 90
    then char_at "abcdefghijklmnopqrstuvwxyz" (code c - 65)
    else c

unfoldable pub lower : String → String
lower String.[] = String.[]
lower (String.◌∷◌ c s) = String.◌∷◌ (lower_char c) (lower s)

-- `needle in s`
unfoldable pub contains : String → String → Bool
contains needle String.[] = begins_with String.[] needle
contains needle (String.◌∷◌ c s) = begins_with (String.◌∷◌ c s) needle || contains needle s

-- the text of a digit below 16
abbrev pub hex_digit : ℕ → String
hex_digit d = String.◌∷◌ (char_at "0123456789abcdef" d) String.[]

-- the last `k` hexadecimal digits of a number
unfoldable pub hex : ℕ → ℕ → String
hex zero n = ""
hex (suc k) n = hex k (n / 16) ++ hex_digit (n % 16)

-- `str(uuid)`: 8-4-4-4-12 digits
unfoldable pub uuid_text : ℕ → String
unfolding hex
uuid_text u =
    hex 8 (u / 16 ^ 24)
    ++ ("-"
        ++ (hex 4 (u / 16 ^ 20)
            ++ ("-"
                ++ (hex 4 (u / 16 ^ 16) ++ ("-" ++ (hex 4 (u / 16 ^ 12) ++ ("-" ++ hex 12 u)))))))
