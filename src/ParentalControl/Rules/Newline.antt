-- ===== src/ParentalControl/Rules/Newline.antt =====
-- parental_control.py: a rule whose address passes the check of its shape but has a control
-- character, when its blank name is filled in from the address.
use asusrouter.Base.{◌≡◌, true, false, Option, some, arith}
use asusrouter.Base.Text.{Text}
use asusrouter.ParentalControl.Rules.Checked.{mac-check_rule}
use asusrouter.ParentalControl.Rules.{
  Rule, Rules, is_unsafe, is_blank, fill_name, fill, check_mac, check_with, check_rule, add_rule,
}

name-fill : (n : Option Text) (mac : Text) → is_blank n ≡ true → fill_name n mac ≡ some mac
unfolding fill_name
name-fill n mac b = ground arith

check_with-twice :
    (mac : Text) (r : Rule)
    → is_blank r.name ≡ true
    → is_unsafe mac ≡ true
    → (check_with mac r).0 ≡ true
    → (check_with mac (check_with mac r).1).0 ≡ false
unfolding check_with fill
check_with-twice mac r b u h = ground (arith, name-fill r.name mac b)

check_mac-twice :
    (mac : Text) (r : Rule)
    → is_blank r.name ≡ true
    → is_unsafe mac ≡ true
    → (check_mac (some mac) r).0 ≡ true
    → (check_mac (some mac) (check_mac (some mac) r).1).0 ≡ false
unfolding check_mac
check_mac-twice mac r b u h = ground (arith, check_with-twice mac r b u)

check_rule-twice :
    (r : Rule) (mac : Text)
    → r.mac ≡ some mac
    → is_blank r.name ≡ true
    → is_unsafe mac ≡ true
    → (check_rule r).0 ≡ true
    → (check_rule (check_rule r).1).0 ≡ false
unfolding check_rule
check_rule-twice r mac e b u h = ground (arith, check_mac-twice mac r b u, mac-check_rule r)

-- A rule with a blank name whose address has a control character and is accepted is left by that
-- check such that adding it changes nothing.
pub add_rule-twice :
    (rules : Rules) (r : Rule) (mac : Text)
    → r.mac ≡ some mac
    → is_blank r.name ≡ true
    → is_unsafe mac ≡ true
    → (check_rule r).0 ≡ true
    → add_rule rules (check_rule r).1 ≡ rules
unfolding add_rule
add_rule-twice rules r mac e b u h = ground (arith, check_rule-twice r mac e b u h)
