-- ===== src/Tools/Converters.antt =====
-- asusrouter/tools/converters.py and cleaners.py: reading Python values, as far as the
-- configuration, the connection and parental control use them. A value is `None`, a Boolean, an
-- integer or a text; there are no floats. What `int(float(s))` makes of a text that is no decimal
-- integer is the parameter `float_int`.
use asusrouter.Base.{
  ℕ, zero, ◌+◌, ◌-◌, ◌*◌, Bool, true, false, not, ◌&&◌, Option, none, some, List, [], ◌∷◌, any, leb,
  ◌==◌, if◌then◌else◌,
}
use asusrouter.Base.Int.{ℤ, pos, negate}
use asusrouter.Base.Text.{Text, codes, same_text, strip, lower}

pub data Value : Type 0 where
  null : Value
  bool : Bool → Value
  int : ℤ → Value
  text : Text → Value

-- `clean_content`: a leading byte order mark is dropped.
unfoldable pub clean_content : Text → Text
clean_content [] = []
clean_content (c ∷ s) = if c == 65279 then s else c ∷ s

-- `if not content: return None`
abbrev pub non_empty : Text → Option Text
non_empty [] = none
non_empty (c ∷ s) = some (c ∷ s)

unfoldable pub clean_string : Text → Option Text
unfolding clean_content strip
clean_string s = non_empty (clean_content (strip s))

abbrev or_null : Option Text → Value
or_null none = null
or_null (some s) = text s

-- The decorator `clean_input`: a text is cleaned before the call, and an empty one is `None`.
unfoldable pub clean_input : Value → Value
unfolding clean_string
clean_input (text s) = or_null (clean_string s)
clean_input v = v

abbrev pub true_values : List Text
true_values = codes "true" ∷ codes "allow" ∷ codes "1" ∷ codes "on" ∷ codes "enabled" ∷ []

abbrev pub false_values : List Text
false_values = codes "false" ∷ codes "block" ∷ codes "0" ∷ codes "off" ∷ codes "disabled" ∷ []

read_word : Text → Option Bool
read_word w =
    if any (same_text w) true_values
    then some true
    else if any (same_text w) false_values
    then some false
    else none

is_zero : ℤ → Bool
is_zero (pos zero) = true
is_zero _ = false

read_bool : Value → Option Bool
unfolding read_word is_zero lower
read_bool null = none
read_bool (bool b) = some b
read_bool (int z) = some (not (is_zero z))
read_bool (text s) = read_word (lower s)

unfoldable pub safe_bool : Value → Option Bool
unfolding clean_input read_bool
safe_bool v = read_bool (clean_input v)

unfoldable pub is_digit : ℕ → Bool
is_digit c = leb b'0' c && leb c b'9'

-- The rest of `int(s, 10)` after a digit, or after an underscore between digits.
abbrev pub read_digits : ℕ → Bool → Text → Option ℕ
read_digits acc gap [] = if gap then none else some acc
read_digits acc gap (c ∷ s) =
    let digit = read_digits (acc * 10 + (c - b'0')) false s in
    let under = read_digits acc true s in
    if leb b'0' c && leb c b'9' then digit else if (c == b'_') && not gap then under else none

-- `gap` holds at the start too, so an unsigned decimal begins with a digit.
abbrev pub read_decimal : Text → Option ℕ
read_decimal s = read_digits 0 true s

abbrev map_ℤ : (ℕ → ℤ) → Option ℕ → Option ℤ
map_ℤ f none = none
map_ℤ f (some n) = some (f n)

-- `int(s, 10)` of a stripped ASCII text; `none` is `ValueError`.
unfoldable pub int_10 : Text → Option ℤ
int_10 [] = none
int_10 (c ∷ s) =
    if c == b'-'
    then map_ℤ negate (read_decimal s)
    else if c == b'+'
    then map_ℤ pos (read_decimal s)
    else map_ℤ pos (read_decimal (c ∷ s))

-- `handle_none_content`
abbrev pub handle_none_content {ℓ} : {A : Type ℓ} → Option A → Option A → Option A
handle_none_content none default = default
handle_none_content (some a) default = some a

-- `safe_convert` on a text: the conversion, then the fallback, then the default.
abbrev pub safe_convert : (Text → Option ℤ) → (Text → Option ℤ) → Text → Option ℤ → Option ℤ
safe_convert convert fallback s default =
    handle_none_content (convert s) (handle_none_content (fallback s) default)

abbrev int_of_bool : Bool → ℤ
int_of_bool false = pos 0
int_of_bool true = pos 1

module _ (float_int : Text → Option ℤ) where
  read_int : Option ℤ → Value → Option ℤ
  unfolding int_10
  read_int default null = default
  read_int default (bool b) = some (int_of_bool b)
  read_int default (int z) = some z
  read_int default (text s) = safe_convert int_10 float_int s default

  unfoldable pub safe_int : Value → Option ℤ → Option ℤ
  unfolding clean_input read_int
  safe_int v default = read_int default (clean_input v)
