-- ===== src/Ingress/Payload.antt =====
-- The payload of a Pub/Sub message, as far as `_on_message` reads it: the JSON values, their
-- truth, `str` of an id, and `UUID` of a text (uuid.py of Python's library, over ASCII digits).
pub mod Digits
pub mod Pieces
pub mod RoundTrip
use Prim.Native.Char.{Char, code}
use Prim.Native.String.{count, ◌++◌}
use inride_worker_manager.Prelude.{
  ℕ, zero, suc, ◌+◌, ◌-◌, ◌*◌, String, Bool, true, false, not, ◌&&◌, ◌||◌, Option, none, some, ◌==◌,
  leb, str_eq, if◌then◌else◌,
}
use inride_worker_manager.Domain.{Uuid}
use inride_worker_manager.Text.{strip, is_empty, begins_with}
use inride_worker_manager.Text.Numerals.{decimal}

-- A float counts only by whether it is zero, since its text is never that of a UUID.
mutual
  pub data Json : Type 0 where
    null : Json
    bool : Bool → Json
    int : ℕ → Json
    negative : ℕ → Json
    float : (is_zero : Bool) → Json
    str : String → Json
    arr : Items → Json
    obj : Fields → Json

  pub data Items : Type 0 where
    nil : Items
    item : Json → Items → Items

  pub data Fields : Type 0 where
    end : Fields
    field : String → Json → Fields → Fields

-- `payload.get(key)`; the keys of a dict are distinct
unfoldable pub get_field : String → Fields → Option Json
get_field key end = none
get_field key (field k v rest) = if str_eq k key then some v else get_field key rest

abbrev pub no_items : Items → Bool
no_items nil = true
no_items (item v vs) = false

abbrev pub no_fields : Fields → Bool
no_fields end = true
no_fields (field k v rest) = false

-- `bool(value)`
unfoldable pub is_truthy : Json → Bool
is_truthy null = false
is_truthy (bool b) = b
is_truthy (int n) = not (n == 0)
is_truthy (negative n) = not (n == 0)
is_truthy (float is_zero) = not is_zero
is_truthy (str s) = not (is_empty s)
is_truthy (arr vs) = not (no_items vs)
is_truthy (obj fs) = not (no_fields fs)

-- `str(value)` where it may be the text of a UUID: the texts of the other values hold a quote, a
-- bracket, a colon or a point, or are shorter than 32 characters
unfoldable pub id_text : Json → Option String
unfolding decimal
id_text (str s) = some s
id_text (int n) = some (decimal n)
id_text (negative n) = some ("-" ++ decimal n)
id_text _ = none

-- `s.replace(piece, "")` for a piece that is not empty: `skip` counts the characters still to
-- pass over
unfoldable pub without : ℕ → String → String → String
without skip piece String.[] = String.[]
without (suc skip) piece (String.◌∷◌ c s) = without skip piece s
without zero piece (String.◌∷◌ c s) =
    let cut = without (count piece - 1) piece s in
    let kept = String.◌∷◌ c (without zero piece s) in
    if begins_with (String.◌∷◌ c s) piece then cut else kept

abbrev pub is_brace : Char → Bool
is_brace c = (code c == 123) || (code c == 125)

unfoldable pub strip_braces_left : String → String
strip_braces_left String.[] = String.[]
strip_braces_left (String.◌∷◌ c s) = if is_brace c then strip_braces_left s else String.◌∷◌ c s

unfoldable pub strip_braces_right : String → String
strip_braces_right String.[] = String.[]
strip_braces_right (String.◌∷◌ c s) =
    let rest = strip_braces_right s in
    if is_empty rest && is_brace c then String.[] else String.◌∷◌ c rest

abbrev pub hex_value : ℕ → Option ℕ
hex_value c =
    if leb 48 c && leb c 57
    then some (c - 48)
    else if leb 97 c && leb c 102
    then some (c - 87)
    else if leb 65 c && leb c 70
    then some (c - 55)
    else none

-- the digits of `int(text, 16)`: single underscores may stand between digits
unfoldable pub hex_digits : ℕ → (after_gap : Bool) → String → Option ℕ
hex_digits acc after_gap String.[] = if after_gap then none else some acc
hex_digits acc after_gap (String.◌∷◌ c s) = elim (hex_value (code c)) [
  | some d ↦ hex_digits (acc * 16 + d) false s
  | none ↦
      let rest = hex_digits acc true s in if (code c == 95) && not after_gap then rest else none
]

abbrev pub drop_underscore : String → String
drop_underscore String.[] = String.[]
drop_underscore (String.◌∷◌ c s) = if code c == 95 then s else String.◌∷◌ c s

abbrev pub drop_two : String → String
drop_two (String.◌∷◌ c (String.◌∷◌ d s)) = s
drop_two s = s

abbrev pub drop_plus : String → String
drop_plus String.[] = String.[]
drop_plus (String.◌∷◌ c s) = if code c == 43 then s else String.◌∷◌ c s

-- `int(text, 16)` for a text with no minus sign
unfoldable pub parse_hex : String → Option ℕ
unfolding hex_digits strip
parse_hex text =
    let s = drop_plus (strip text) in
    if begins_with s "0x" || begins_with s "0X"
    then hex_digits 0 true (drop_underscore (drop_two s))
    else hex_digits 0 true s

-- `UUID(text)`: `none` is a ValueError
unfoldable pub parse_uuid : String → Option Uuid
unfolding without strip_braces_left strip_braces_right parse_hex
parse_uuid text =
    let bare = strip_braces_right (strip_braces_left (without 0 "uuid:" (without 0 "urn:" text))) in
    let digits = without 0 "-" bare in if count digits == 32 then parse_hex digits else none

abbrev uuid_of : Option String → Option Uuid
uuid_of none = none
uuid_of (some text) = parse_uuid text

-- `if not raw_id: raise …; UUID(str(raw_id))`
unfoldable pub uuid_of_value : Option Json → Option Uuid
unfolding is_truthy id_text parse_uuid
uuid_of_value none = none
uuid_of_value (some v) = if is_truthy v then uuid_of (id_text v) else none

-- the id in a payload, or `none` where the `try` block raises: it has to be an object
unfoldable pub notification_id_of : Json → Option Uuid
unfolding get_field uuid_of_value
notification_id_of (obj fields) = uuid_of_value (get_field "notification_id" fields)
notification_id_of _ = none
