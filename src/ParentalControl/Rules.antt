-- ===== src/ParentalControl/Rules.antt =====
-- parental_control.py: `check_rule`, `add_rule` and `remove_rule`. The fields of a rule that the
-- source annotates as texts are texts or `None`.
pub mod Checked
pub mod Newline
use asusrouter.Base.{
  ℕ, zero, suc, Bool, true, false, not, ◌&&◌, ◌||◌, Option, none, some, List, [], ◌∷◌, any, length,
  leb, ltb, ◌==◌, if◌then◌else◌,
}
use asusrouter.Base.Int.{ℤ, pos, negsuc}
use asusrouter.Base.Text.{Text, text_key, codes, same_text, has_substring, strip}
use asusrouter.Base.Dict.{Dict, insert, erase}

-- `PCRuleType`
pub data RuleType : Type 0 where
  unknown remove disable time block : RuleType

abbrev pub type_value : RuleType → ℤ
type_value unknown = negsuc 998
type_value remove = negsuc 0
type_value disable = pos 0
type_value time = pos 1
type_value block = pos 2

pub record Rule : Type 0 where
  pub mac : Option Text
  pub name : Option Text
  pub timemap : Option Text
  pub kind : RuleType

abbrev pub Rules : Type 0
Rules = Dict Text Rule

abbrev pub default_timemap : Text
default_timemap = codes "W03E21000700<W04122000800"

abbrev pub max_name_length : ℕ
max_name_length = 32

unfoldable pub is_hex : ℕ → Bool
is_hex c = (leb b'0' c && leb c b'9') || (leb b'A' c && leb c b'F') || (leb b'a' c && leb c b'f')

-- `$` also matches before a line feed at the end.
abbrev pub at_end : Text → Bool
at_end [] = true
at_end (c ∷ []) = c == 10
at_end _ = false

unfoldable pub groups : ℕ → Text → Bool
groups zero s = at_end s
groups (suc n) (c ∷ a ∷ b ∷ s) = (c == b':') && is_hex a && is_hex b && groups n s
groups (suc n) _ = false

-- `_PC_MAC.match(s)`
unfoldable pub is_mac : Text → Bool
unfolding groups
is_mac (a ∷ b ∷ s) = is_hex a && is_hex b && groups 5 s
is_mac _ = false

abbrev pub is_settable : RuleType → Bool
is_settable disable = true
is_settable time = true
is_settable block = true
is_settable _ = false

-- `_PC_FIELD_DELIMITERS`
abbrev pub field_delimiters : List Text
field_delimiters = codes ">" ∷ codes "<" ∷ codes "&#62" ∷ codes "&#60" ∷ []

unfoldable pub is_unsafe : Text → Bool
is_unsafe s = any (λ token. has_substring token s) field_delimiters || any (λ c. ltb c 32) s

-- `if not value: continue`
abbrev pub is_unsafe_field : Option Text → Bool
is_unsafe_field none = false
is_unsafe_field (some s) = is_unsafe s

abbrev pub is_unsafe_timemap : Option Text → Bool
is_unsafe_timemap none = false
is_unsafe_timemap (some s) = not (same_text s default_timemap) && is_unsafe s

abbrev is_empty : Text → Bool
is_empty [] = true
is_empty (c ∷ s) = false

-- `not (value or "").strip()`
unfoldable pub is_blank : Option Text → Bool
is_blank none = true
is_blank (some s) = is_empty (strip s)

unfoldable pub fill_timemap : Option Text → Option Text
fill_timemap t = if is_blank t then some default_timemap else t

unfoldable pub fill_name : Option Text → Text → Option Text
fill_name n mac = if is_blank n then some mac else n

abbrev pub name_fits : Option Text → Bool
name_fits none = true
name_fits (some s) = leb (length s) max_name_length

-- The rule with its time map and its name filled in.
unfoldable pub fill : Text → Rule → Rule
unfolding fill_timemap fill_name
fill mac r = record r { timemap = fill_timemap r.timemap; name = fill_name r.name mac }

-- The checks after that of the MAC address.
unfoldable pub check_with : Text → Rule → Bool × Rule
check_with mac r =
    if not (is_settable r.kind)
    then (false, r)
    else if is_unsafe_field r.name || is_unsafe_timemap r.timemap
    then (false, r)
    else (name_fits (fill mac r).name, fill mac r)

unfoldable pub check_mac : Option Text → Rule → Bool × Rule
unfolding check_with
check_mac none r = (false, r)
check_mac (some mac) r = if is_mac mac then check_with mac r else (false, r)

-- `check_rule`: whether the rule is returned, and the rule as it is left, since its name and its
-- time map may be filled in.
unfoldable pub check_rule : Rule → Bool × Rule
unfolding check_mac
check_rule r = check_mac r.mac r

unfoldable pub insert_by : Option Text → Rule → Rules → Rules
insert_by none r rules = rules
insert_by (some mac) r rules = insert mac r rules

unfoldable pub add_rule : Rules → Rule → Rules
unfolding check_rule insert_by
add_rule rules r =
    let (accepted, checked) = check_rule r in
    if accepted then insert_by checked.mac checked rules else rules

-- What `remove_rule` may be given.
pub data Target : Type 0 where
  rule : Rule → Target
  mac_text : Text → Target
  nothing : Target

abbrev rule_mac : Target → Option Text
rule_mac (rule r) = r.mac
rule_mac (mac_text s) = some s
rule_mac nothing = none

unfoldable pub erase_by : Option Text → Rules → Rules
erase_by none rules = rules
erase_by (some mac) rules = erase mac rules

unfoldable pub remove_rule : Rules → Target → Rules
unfolding erase_by
remove_rule rules t = erase_by (rule_mac t) rules
