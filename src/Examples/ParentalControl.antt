-- ===== src/Examples/ParentalControl.antt =====
-- parental_control.py at concrete rules.
use asusrouter.Base.{
  Option, ℕ_discrete, ◌≡◌, ◌≤◌, ◌↔◌, ◌⊎◌, inl, inr, All, List, refl, true, false, none, some, [],
  ◌∷◌, arith, map,
}
use asusrouter.Base.Text.{
  Text, text_key, Text-discrete, codes, split, strip, strip_left, is_space, join,
}
use asusrouter.Base.Dict.{lookup, insert, IsDict}
use asusrouter.ParentalControl.Rules.{
  Rule, Rules, block, disable, remove, check_rule, check_mac, check_with, is_mac, groups, is_hex,
  is_unsafe, is_blank, fill, fill_name, fill_timemap, add_rule,
}
use asusrouter.ParentalControl.Rules.Checked.{IsChecked, check_rule-IsChecked}
use asusrouter.ParentalControl.Capacity.{Capabilities, validate_pc_capacity}
use asusrouter.Base.Int.{ℤ}
use asusrouter.ParentalControl.Capacity.Windows.{IsWindow, total, validate_pc_capacity_exact}
use asusrouter.ParentalControl.Table.Reading.{Row, IsRouterRow, answer, entry, read_pc_rules-answer}
use asusrouter.ParentalControl.Table.{read_pc_rules, or_empty, show_type, values, write_pc_rules}
use asusrouter.ParentalControl.Table.Columns.{IsRows, unescape, split-write_pc_rules}
use asusrouter.ParentalControl.Table.Accepted.{add_rule-IsRows}
use asusrouter.ParentalControl.Update.{Known, table, set_rule, is_remove}
use asusrouter.ParentalControl.Update.Sent.{set_rule-none, set_rule-set, set_rule-control}

abbrev address : Text
address = codes "AA:BB:CC:DD:EE:FF"

abbrev other_address : Text
other_address = codes "00:11:22:33:44:55"

abbrev tablet : Rule
tablet = record { mac = some address; name = some (codes "Tablet"); timemap = none; kind = block }

abbrev console : Rule
console = record {
  mac = some other_address;
  name = some (codes " ");
  timemap = some (codes "M13E15001700");
  kind = disable;
}

abbrev removal : Rule
removal = record { mac = some address; name = none; timemap = none; kind = remove }

-- The address ends in a line feed.
abbrev broken_address : Text
broken_address = codes "AA:BB:CC:DD:EE:FF\n"

abbrev broken : Rule
broken = record { mac = some broken_address; name = none; timemap = none; kind = block }

abbrev one_rule : Rules
one_rule = (other_address, console) ∷ []

abbrev two_rules : Rules
two_rules = (other_address, console) ∷ (address, tablet) ∷ []

tablet_accepted : (check_rule tablet).0 ≡ true
unfolding check_rule check_mac check_with is_mac groups is_hex is_unsafe fill fill_name fill_timemap
    is_blank strip strip_left is_space
tablet_accepted = refl

broken_accepted : (check_rule broken).0 ≡ true
unfolding check_rule check_mac check_with is_mac groups is_hex is_unsafe fill fill_name fill_timemap
    is_blank strip strip_left is_space
broken_accepted = refl

address_safe : is_unsafe address ≡ false
unfolding is_unsafe
address_safe = refl

broken_unsafe : is_unsafe broken_address ≡ true
unfolding is_unsafe
broken_unsafe = refl

broken_blank : is_blank broken.name ≡ true
unfolding is_blank
broken_blank = refl

one_rule-IsRows : IsRows one_rule
one_rule-IsRows = (record { mac = ground arith; name = ground arith; timemap = ground arith }, tt)

two_rules-IsDict : IsDict two_rules
unfolding lookup Text-discrete ℕ_discrete
two_rules-IsDict = (refl, (refl, tt))

check_rule-IsChecked_example :
    (mac : Text) × (some address ≡ some mac) × IsChecked mac (check_rule tablet).1
check_rule-IsChecked_example = check_rule-IsChecked tablet tablet_accepted

add_rule-IsRows_example : IsRows (add_rule one_rule tablet)
add_rule-IsRows_example = add_rule-IsRows one_rule tablet one_rule-IsRows

abbrev known : Known
known = record { rules = some one_rule; invalidated = false }

set_rule-none_example : (set_rule (some known) tablet ≡ none) ↔ (
    (some one_rule ≡ none)
    ⊎ (false ≡ true)
    ⊎ ((is_remove block ≡ false) × ((check_rule tablet).0 ≡ false)))
set_rule-none_example = set_rule-none known tablet

set_rule-set_example :
    set_rule (some known) tablet
    ≡ some (table (write_pc_rules (insert address (check_rule tablet).1 one_rule)))
set_rule-set_example = set_rule-set one_rule tablet address refl address_safe refl tablet_accepted

set_rule-control_example : set_rule (some known) broken ≡ some (table (write_pc_rules one_rule))
set_rule-control_example =
    set_rule-control one_rule broken broken_address refl broken_blank broken_unsafe refl
      broken_accepted

abbrev capabilities : Capabilities
capabilities = record { max_rules = some 1; max_entries = none; sched_version = none }

abbrev window : Text
window = codes "W03E21000700"

abbrev other_window : Text
other_window = codes "W04122000800"

-- A rule with two windows, as the router answers them and as they are written.
abbrev scheduled : Text → Rules
scheduled sep =
    (address, record tablet { timemap = some (join sep (window ∷ other_window ∷ [])) }) ∷ []

windows-AreWindows : All IsWindow (window ∷ other_window ∷ [])
windows-AreWindows = (
  record { is_there = λ e. absurd (cc); separate = ground arith; plain = ground arith },
  (record { is_there = λ e. absurd (cc); separate = ground arith; plain = ground arith }, tt),
)

abbrev two_windows : List (List Text)
two_windows = (window ∷ other_window ∷ []) ∷ []

validate_pc_capacity_exact_example :
    (validate_pc_capacity (scheduled (codes "&#60")) (scheduled (codes "<")) capabilities ≡ true)
    ↔ (((1 ≤ 1) ⊎ (1 ≤ 1)) × ((total two_windows ≤ total two_windows) ⊎ (total two_windows ≤ 128)))
validate_pc_capacity_exact_example =
    validate_pc_capacity_exact (scheduled (codes "&#60")) (scheduled (codes "<")) two_windows
      two_windows capabilities (inr (inr refl, windows-AreWindows), tt)
      (inr (inl refl, windows-AreWindows), tt)

split-write_pc_rules_example :
    let v = write_pc_rules one_rule in
    let rows = values one_rule in
    (split b'>' v.macs ≡ map (λ (r : Rule). or_empty r.mac) rows)
    × (split b'>' v.names ≡ map (λ (r : Rule). or_empty r.name) rows)
    × (split b'>' v.timemaps ≡ map (λ (r : Rule). unescape (or_empty r.timemap)) rows)
    × (split b'>' v.kinds ≡ map (λ (r : Rule). show_type r.kind) rows)
split-write_pc_rules_example = split-write_pc_rules (other_address, console) [] one_rule-IsRows

abbrev no_floats : Text → Option ℤ
no_floats s = none

-- A row that the router answers with the codes of `<`.
abbrev router_row : Row
router_row = record {
  mac = codes "00:00:00:00:00:01";
  name = codes "FakeName001";
  timemap = codes "W03E21000700<W04122000800";
  kind = block;
}

router_row-IsRouterRow : IsRouterRow router_row
router_row-IsRouterRow = record {
  mac = (λ e. absurd (cc), ground arith);
  name = ground arith;
  timemap = ground arith;
}

router_row-IsDict : IsDict (map entry (router_row ∷ []))
unfolding lookup
router_row-IsDict = (refl, tt)

read_pc_rules-answer_example :
    read_pc_rules no_floats (answer (router_row ∷ [])) ≡ some (map entry (router_row ∷ []))
read_pc_rules-answer_example =
    read_pc_rules-answer no_floats router_row [] (router_row-IsRouterRow, tt) router_row-IsDict
