-- ===== src/ParentalControl/Update/Sent.antt =====
-- parental_control.py: the table that `set_rule` sends.
use asusrouter.Base.{◌≡◌, Bool, ap, ◌↔◌, ◌⊎◌, true, false, Option, none, some, arith}
use asusrouter.Base.Text.{Text, text_key}
use asusrouter.Base.Dict.{insert, erase}
use asusrouter.ParentalControl.Rules.{
  Rule, Rules, is_unsafe, is_blank, check_rule, add_rule, remove_rule, insert_by, erase_by,
}
use asusrouter.ParentalControl.Rules.Checked.{check_rule_idem, mac-check_rule}
use asusrouter.ParentalControl.Rules.Newline.{add_rule-twice}
use asusrouter.ParentalControl.Table.{write_pc_rules}
use asusrouter.ParentalControl.Update.{
  Known, table, change, set_rule, is_remove, map_table, from_known,
}

add_rule-again :
    (rules : Rules) (r : Rule) (mac : Text)
    → r.mac ≡ some mac
    → is_unsafe mac ≡ false
    → (check_rule r).0 ≡ true
    → add_rule rules (check_rule r).1 ≡ insert mac (check_rule r).1 rules
unfolding add_rule insert_by
add_rule-again rules r mac e u h =
    ground (arith, check_rule_idem r (ground (arith, e)) h, mac-check_rule r)

from_known-none :
    (known : Option Rules) (stale : Bool) (r : Rule)
    → (from_known known stale r ≡ none) ↔ (
        (known ≡ none) ⊎ (stale ≡ true) ⊎ ((is_remove r.kind ≡ false) × ((check_rule r).0 ≡ false)))
unfolding from_known change map_table
from_known-none none stale r = ground arith
from_known-none (some rules) true r = ground arith
from_known-none (some rules) false r = ground arith

-- Nothing is sent exactly if the rules are not known, if a write has made them stale, or if the rule
-- is to be set and is not accepted.
pub set_rule-none :
    (k : Known) (r : Rule)
    → (set_rule (some k) r ≡ none) ↔ (
        (k.rules ≡ none)
        ⊎ (k.invalidated ≡ true)
        ⊎ ((is_remove r.kind ≡ false) × ((check_rule r).0 ≡ false)))
unfolding set_rule
set_rule-none k r = from_known-none k.rules k.invalidated r

change-set :
    (rules : Rules) (r : Rule) (mac : Text)
    → r.mac ≡ some mac
    → is_unsafe mac ≡ false
    → is_remove r.kind ≡ false
    → (check_rule r).0 ≡ true
    → change rules r ≡ some (insert mac (check_rule r).1 rules)
unfolding change
change-set rules r mac e u n h = ground (arith, add_rule-again rules r mac e u h)

-- From known rules that are not stale, an accepted rule is sent with the whole table, as the check
-- has left it and in place of the rule of its address, if that has no control character or delimiter.
pub set_rule-set :
    (rules : Rules) (r : Rule) (mac : Text)
    → r.mac ≡ some mac
    → is_unsafe mac ≡ false
    → is_remove r.kind ≡ false
    → (check_rule r).0 ≡ true
    → set_rule (some record { rules = some rules; invalidated = false }) r
      ≡ some (table (write_pc_rules (insert mac (check_rule r).1 rules)))
unfolding set_rule from_known map_table
set_rule-set rules r mac e u n h = ap map_table (change-set rules r mac e u n h)

-- From known rules that are not stale, a removal sends the whole table without the rule of its
-- address, whatever else the rule says.
pub set_rule-removal :
    (rules : Rules) (r : Rule) (mac : Text)
    → r.mac ≡ some mac
    → is_remove r.kind ≡ true
    → set_rule (some record { rules = some rules; invalidated = false }) r
      ≡ some (table (write_pc_rules (erase mac rules)))
unfolding set_rule from_known map_table change remove_rule erase_by
set_rule-removal rules r mac e d = ground arith

-- From known rules that are not stale, a rule with a blank name whose address is accepted although
-- it has a control character is not put into the table: the table that is sent is the known one.
pub set_rule-control :
    (rules : Rules) (r : Rule) (mac : Text)
    → r.mac ≡ some mac
    → is_blank r.name ≡ true
    → is_unsafe mac ≡ true
    → is_remove r.kind ≡ false
    → (check_rule r).0 ≡ true
    → set_rule (some record { rules = some rules; invalidated = false }) r
      ≡ some (table (write_pc_rules rules))
unfolding set_rule from_known map_table change
set_rule-control rules r mac e b u n h = ground (arith, add_rule-twice rules r mac e b u h)
