-- ===== src/Tools/Security.antt =====
-- asusrouter/tools/security.py, and `FromIntMixin.from_value` of tools/enum.py at its enum. A
-- member of the enum stands as its value; `upper` is that of ASCII text.
use asusrouter.Base.{◌-◌, Bool, ◌&&◌, Option, none, some, map, leb, ◌==◌, if◌then◌else◌}
use asusrouter.Base.Int.{ℤ, pos, negsuc, ltb_ℤ}
use asusrouter.Base.Text.{Text, codes, same_text}
use asusrouter.Tools.Converters.{Value, text, clean_string, safe_int}
use mathlib.Core.Bool.{not}

pub data SecurityLevel : Type 0 where
  unknown strict default_level sanitized unsafe : SecurityLevel

abbrev pub level_value : SecurityLevel → ℤ
level_value unknown = negsuc 998
level_value strict = pos 0
level_value default_level = pos 1
level_value sanitized = pos 5
level_value unsafe = pos 9

-- `cls(n)`; `none` is `ValueError`.
unfoldable pub level_of_int : ℤ → Option SecurityLevel
level_of_int (pos n) =
    if n == 0
    then some strict
    else if n == 1
    then some default_level
    else if n == 5
    then some sanitized
    else if n == 9
    then some unsafe
    else none
level_of_int (negsuc n) = if n == 998 then some unknown else none

abbrev upper : Text → Text
upper = map λ c. if leb b'a' c && leb c b'z' then c - 32 else c

-- `getattr(cls, name, None)`
unfoldable pub level_of_name : Text → Option SecurityLevel
level_of_name s =
    if same_text s (codes "UNKNOWN")
    then some unknown
    else if same_text s (codes "STRICT")
    then some strict
    else if same_text s (codes "DEFAULT")
    then some default_level
    else if same_text s (codes "SANITIZED")
    then some sanitized
    else if same_text s (codes "UNSAFE")
    then some unsafe
    else none

name_level : Option Text → SecurityLevel
name_level none = unknown
name_level (some s) = elim (level_of_name (upper s)) [ none ↦ unknown | some l ↦ l ]

level_by_name : Value → SecurityLevel
unfolding name_level clean_string
level_by_name (text s) = name_level (clean_string s)
level_by_name _ = unknown

by_number : Value → Option ℤ → SecurityLevel
unfolding level_by_name
by_number v none = level_by_name v
by_number v (some n) = elim (level_of_int n) [ none ↦ level_by_name v | some l ↦ l ]

-- `ARSecurityLevel.from_value`
unfoldable pub level_from_value : (Text → Option ℤ) → Value → SecurityLevel
unfolding by_number safe_int
level_from_value float_int v = by_number v (safe_int float_int v none)

-- `at_least_sanitized`
unfoldable pub at_least_sanitized : SecurityLevel → Bool
at_least_sanitized l = not (ltb_ℤ (level_value l) (level_value sanitized))
