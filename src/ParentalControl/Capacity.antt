-- ===== src/ParentalControl/Capacity.antt =====
-- parental_control.py: the router's limits, and `validate_pc_capacity`.
pub mod Windows
use asusrouter.Base.{
  ℕ, suc, ◌+◌, ◌≤◌, ◌≡◌, ◌↔◌, ◌⊎◌, Bool, true, false, ◌||◌, ◌&&◌, Option, none, some, List, [], ◌∷◌,
  all, length, leb, if◌then◌else◌, arith,
}
use asusrouter.Base.Int.{ℤ, pos}
use asusrouter.Base.Text.{Text, codes, split, replace}
use asusrouter.Tools.Converters.{Value, int, text, safe_int, is_digit}
use asusrouter.ParentalControl.Rules.{Rules}

-- `ParentalControlCapabilities`
pub record Capabilities : Type 0 where
  pub max_rules : Option ℕ
  pub max_entries : Option ℕ
  pub sched_version : Option ℕ

abbrev pub default_max_rules : ℕ
default_max_rules = 16

abbrev pub default_max_entries : ℕ
default_max_entries = 128

abbrev positive : Option ℤ → Option ℕ
positive (some (pos (suc n))) = some (suc n)
positive _ = none

-- `str.isdecimal`, on ASCII text.
abbrev is_decimal : Text → Bool
is_decimal [] = false
is_decimal (c ∷ s) = all is_digit (c ∷ s)

-- `_read_positive_int`
unfoldable pub read_positive_int : (Text → Option ℤ) → Value → Option ℕ
unfolding safe_int
read_positive_int float_int (int z) = positive (safe_int float_int (int z) none)
read_positive_int float_int (text s) =
    if is_decimal s then positive (safe_int float_int (text s) none) else none
read_positive_int float_int _ = none

-- `read_pc_capabilities`, on the three values that it looks up.
unfoldable pub read_pc_capabilities : (Text → Option ℤ) → Value → Value → Value → Capabilities
unfolding read_positive_int
read_pc_capabilities float_int rules entries version = record {
  max_rules = read_positive_int float_int rules;
  max_entries = read_positive_int float_int entries;
  sched_version = read_positive_int float_int version;
}

unfoldable pub non_empty_count : List Text → ℕ
non_empty_count [] = 0
non_empty_count ([] ∷ ws) = non_empty_count ws
non_empty_count ((c ∷ w) ∷ ws) = suc (non_empty_count ws)

-- The raw schedule segments of one rule.
unfoldable pub window_count : Option Text → ℕ
unfolding non_empty_count
window_count none = 0
window_count (some s) = non_empty_count (split b'<' (replace (codes "&#60") (codes "<") s))

unfoldable pub windows : Rules → ℕ
windows [] = 0
windows ((k, r) ∷ rules) = window_count r.timemap + windows rules

-- `count_pc_rule_entries`
unfoldable pub count_pc_rule_entries : Rules → ℕ × ℕ
unfolding windows
count_pc_rule_entries rules = (length rules, windows rules)

abbrev pub limit_of : Option ℕ → ℕ → ℕ
limit_of none fallback = fallback
limit_of (some n) fallback = n

-- One dimension passes.
abbrev fits : ℕ → ℕ → ℕ → Bool
fits current proposed limit = leb proposed current || leb proposed limit

-- `validate_pc_capacity`; `false` is `ParentalControlCapacityError`.
unfoldable pub validate_pc_capacity : Rules → Rules → Capabilities → Bool
validate_pc_capacity current proposed c =
    let (rules, segments) = count_pc_rule_entries current in
    let (new_rules, new_segments) = count_pc_rule_entries proposed in
    fits rules new_rules (limit_of c.max_rules default_max_rules)
    && fits segments new_segments (limit_of c.max_entries default_max_entries)
