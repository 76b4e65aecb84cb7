-- ===== src/ParentalControl/Table.antt =====
-- parental_control.py: `read_pc_rules` and `write_pc_rules`, between the rules and the four vectors
-- of the router.
pub mod Columns
pub mod Accepted
pub mod Reading
pub mod Address
use asusrouter.Base.{
  ℕ, zero, suc, Bool, true, false, ◌&&◌, Option, none, some, List, [], ◌∷◌, map, length, ◌==◌,
  if◌then◌else◌,
}
use asusrouter.Base.Int.{ℤ, pos, negsuc}
use asusrouter.Base.Text.{Text, text_key, codes, split_on, join, replace}
use asusrouter.Base.Dict.{Dict, insert}
use asusrouter.Tools.Converters.{text, clean_string, safe_int}
use asusrouter.ParentalControl.Rules.{Rule, Rules, RuleType, unknown, remove, disable, time, block}

-- The texts under the four keys of `PC_RULE_MAP`.
pub record Vectors : Type 0 where
  pub macs : Text
  pub names : Text
  pub timemaps : Text
  pub kinds : Text

-- `str(value)`, or the empty text for `None`.
abbrev pub or_empty : Option Text → Text
or_empty none = []
or_empty (some s) = s

-- `str` of the integer behind a type.
abbrev pub show_type : RuleType → Text
show_type unknown = codes "-999"
show_type remove = codes "-1"
show_type disable = codes "0"
show_type time = codes "1"
show_type block = codes "2"

abbrev value_of : Text × Rule → Rule
value_of (k, r) = r

-- `rules.values()`
abbrev pub values : Rules → List Rule
values = map value_of

unfoldable pub write_pc_rules : Rules → Vectors
write_pc_rules [] = record { macs = []; names = []; timemaps = []; kinds = [] }
write_pc_rules (entry ∷ rules) =
    let rows = values (entry ∷ rules) in
    let sep = codes ">" in
    record {
      macs = join sep (map (λ (r : Rule). or_empty r.mac) rows);
      names = join sep (map (λ (r : Rule). or_empty r.name) rows);
      timemaps =
          replace (codes "&#60") (codes "<")
            (join sep (map (λ (r : Rule). or_empty r.timemap) rows));
      kinds = join sep (map (λ (r : Rule). show_type r.kind) rows);
    }

-- A value of the router's answer: missing, no text, or a text.
pub data Field : Type 0 where
  missing other : Field
  is_text : Text → Field

pub record Answer : Type 0 where
  pub macs : Field
  pub names : Field
  pub timemaps : Field
  pub kinds : Field

-- `PCRuleType(type_code)`, or `UNKNOWN` if there is no such member.
unfoldable pub type_of_code : Option ℤ → RuleType
type_of_code (some (pos n)) =
    if n == 0 then disable else if n == 1 then time else if n == 2 then block else unknown
type_of_code (some (negsuc n)) = if n == 0 then remove else unknown
type_of_code none = unknown

-- `read_pc_string`
unfoldable pub read_pc_string : Text → List Text
unfolding split_on
read_pc_string = split_on (codes "&#62")

unfoldable pub same_length : List Text → List Text → Bool
same_length xs ys = length xs == length ys

abbrev pub is_empty : Text → Bool
is_empty [] = true
is_empty (c ∷ s) = false

module _ (float_int : Text → Option ℤ) where
  -- One row of the zipped vectors.
  unfoldable pub read_row : Text → Text → Text → Text → Rule
  unfolding clean_string safe_int type_of_code
  read_row m n t k = record {
    mac = clean_string m;
    name = some n;
    timemap = some t;
    kind = type_of_code (safe_int float_int (text k) (some (negsuc 998)));
  }

  -- The loop over `zip(*vectors.values(), strict=True)`.
  unfoldable pub read_rows : List Text → List Text → List Text → List Text → Rules → Rules
  read_rows (m ∷ ms) (n ∷ ns) (t ∷ ts) (k ∷ ks) rules =
      read_rows ms ns ts ks (insert m (read_row m n t k) rules)
  read_rows _ _ _ _ rules = rules

  unfoldable pub read_texts : Text → Text → Text → Text → Option Rules
  unfolding read_pc_string read_rows same_length
  read_texts m n t k =
      let ms = read_pc_string m in
      let ns = read_pc_string n in
      let ts = read_pc_string t in
      let ks = read_pc_string k in
      if same_length ms ns && same_length ms ts && same_length ms ks
      then (if is_empty m && is_empty n && is_empty t && is_empty k
          then some []
          else some (read_rows ms ns ts ks []))
      else none

  -- `read_pc_rules`; `none` is `AsusRouterDataError`.
  unfoldable pub read_fields : Field → Field → Field → Field → Option Rules
  unfolding read_texts
  read_fields (is_text m) (is_text n) (is_text t) (is_text k) = read_texts m n t k
  read_fields _ _ _ _ = none

  unfoldable pub read_pc_rules : Answer → Option Rules
  unfolding read_fields
  read_pc_rules a = read_fields a.macs a.names a.timemaps a.kinds
