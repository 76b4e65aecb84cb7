-- ===== src/ParentalControl/Rules/Checked.antt =====
-- parental_control.py: what an accepted rule is like, and what adding and removing do to a table.
use asusrouter.Base.{
  ite, if◌then◌else◌, ◌≤◌, ◌≡◌, ◌⊎◌, inl, inr, refl, true, false, Bool-cases, length, Option, none,
  some, arith,
}
use asusrouter.Base.Text.{Text-discrete, Text, text_key, same_text→eq, same_text_refl}
use asusrouter.Base.Dict.{lookup-insert, IsDict, lookup, lookup-erase_self, lookup-erase_ne}
use asusrouter.ParentalControl.Rules.{
  Rule, Rules, mac_text, default_timemap, max_name_length, is_mac, is_settable, is_unsafe,
  is_unsafe_field, is_unsafe_timemap, is_blank, fill_name, fill_timemap, name_fits, fill, check_mac,
  check_with, check_rule, add_rule, remove_rule,
}

abbrev pub NameFits : Text → Option Text → Type 0
NameFits mac none = ⊥
NameFits mac (some n) = (length n ≤ max_name_length) × ((is_unsafe n ≡ false) ⊎ (n ≡ mac))

abbrev pub TimemapFits : Option Text → Type 0
TimemapFits none = ⊥
TimemapFits (some t) = (is_unsafe t ≡ false) ⊎ (t ≡ default_timemap)

abbrev pub MacFits : Text → Option Text → Type 0
MacFits mac none = ⊥
MacFits mac (some m) = (m ≡ mac) × (is_mac m ≡ true)

-- A rule that can be written for an address: it has that address, a name that fits and is safe or
-- the address itself, a time map that is safe or the default one, and a type to be set.
pub record IsChecked (mac : Text) (r : Rule) : Type 0 where
  pub address : MacFits mac r.mac
  pub named : NameFits mac r.name
  pub timed : TimemapFits r.timemap
  pub typed : is_settable r.kind ≡ true

name-filled :
    (n : Option Text) (mac : Text)
    → is_unsafe_field n ≡ false
    → name_fits (fill_name n mac) ≡ true
    → NameFits mac (fill_name n mac)
unfolding fill_name is_blank
name-filled none mac h f = ground arith
name-filled (some n) mac h f = ground arith

timemap-filled : (t : Option Text) → is_unsafe_timemap t ≡ false → TimemapFits (fill_timemap t)
unfolding fill_timemap is_blank
timemap-filled none h = ground arith
timemap-filled (some t) h = ground (arith, same_text→eq t default_timemap)

-- What the tests of an accepted rule have found.
check_with-accepted :
    (mac : Text) (r : Rule)
    → (check_with mac r).0 ≡ true
    → (is_settable r.kind ≡ true)
      × (is_unsafe_field r.name ≡ false)
      × (is_unsafe_timemap r.timemap ≡ false)
      × (name_fits (fill mac r).name ≡ true)
      × ((check_with mac r).1 ≡ fill mac r)
unfolding check_with
check_with-accepted mac r h = ground arith

fill-IsChecked :
    (mac : Text) (r : Rule)
    → MacFits mac r.mac
    → is_settable r.kind ≡ true
    → is_unsafe_field r.name ≡ false
    → is_unsafe_timemap r.timemap ≡ false
    → name_fits (fill mac r).name ≡ true
    → IsChecked mac (fill mac r)
unfolding fill
fill-IsChecked mac r m k n t f = record {
  address = m;
  named = name-filled r.name mac n f;
  timed = timemap-filled r.timemap t;
  typed = k;
}

check_mac-IsChecked :
    (m : Option Text) (r : Rule)
    → r.mac ≡ m
    → (check_mac m r).0 ≡ true
    → (mac : Text) × (m ≡ some mac) × IsChecked mac (check_mac m r).1
unfolding check_mac
check_mac-IsChecked none r e h = cc
check_mac-IsChecked (some mac) r e h = elim (Bool-cases (is_mac mac)) [
  | inl p ↦
      let q : (check_with mac r).0 ≡ true = ground (arith, h) in
      let (k, n, t, f, same) = check_with-accepted mac r q in
      (mac, refl, rw (p, same) (fill-IsChecked mac r (rw e (refl, p)) k n t f))
  | inr p ↦ absurd (ground (arith, h))
]

-- An accepted rule comes back fit to be written under its address, whatever it was like before.
pub check_rule-IsChecked :
    (r : Rule)
    → (check_rule r).0 ≡ true
    → (mac : Text) × (r.mac ≡ some mac) × IsChecked mac (check_rule r).1
unfolding check_rule
check_rule-IsChecked r h = check_mac-IsChecked r.mac r refl h

mac-check_mac : (m : Option Text) (r : Rule) → (check_mac m r).1.mac ≡ r.mac
unfolding check_mac check_with fill
mac-check_mac none r = refl
mac-check_mac (some mac) r = ground arith

-- Checking never changes the address.
pub mac-check_rule : (r : Rule) → (check_rule r).1.mac ≡ r.mac
unfolding check_rule
mac-check_rule r = mac-check_mac r.mac r

fill-fill : (mac : Text) (r : Rule) → fill mac (fill mac r) ≡ fill mac r
unfolding fill
fill-fill mac r = ground arith

check_with-fill :
    (mac : Text) (r : Rule)
    → is_unsafe mac ≡ false
    → is_settable r.kind ≡ true
    → is_unsafe_field r.name ≡ false
    → is_unsafe_timemap r.timemap ≡ false
    → name_fits (fill mac r).name ≡ true
    → check_with mac (fill mac r) ≡ (true, fill mac r)
unfolding check_with
check_with-fill mac r u k n t f =
    let filled = fill mac r in
    let k' : is_settable filled.kind ≡ true = unfold fill in k in
    let n' : is_unsafe_field filled.name ≡ false = unfold fill in ground arith in
    let t' : is_unsafe_timemap filled.timemap ≡ false =
      unfold fill in ground (arith, same_text_refl default_timemap) in
    ground (arith, fill-fill mac r)

check_mac-again :
    (m : Option Text) (r : Rule)
    → is_unsafe_field m ≡ false
    → (check_mac m r).0 ≡ true
    → check_mac m (check_mac m r).1 ≡ check_mac m r
unfolding check_mac
check_mac-again none r u h = refl
check_mac-again (some mac) r u h = elim (Bool-cases (is_mac mac)) [
  | inl p ↦
      let q : (check_with mac r).0 ≡ true = ground (arith, h) in
      let (k, n, t, f, same) = check_with-accepted mac r q in
      ground (arith, check_with-fill mac r u k n t f)
  | inr p ↦ absurd (ground (arith, h))
]

-- A rule that was accepted is accepted again as it was left, unchanged, if its address has no
-- control character: the second check that adding makes agrees with the first.
pub check_rule_idem :
    (r : Rule)
    → is_unsafe_field r.mac ≡ false
    → (check_rule r).0 ≡ true
    → check_rule (check_rule r).1 ≡ check_rule r
unfolding check_rule
check_rule_idem r u h = rw (mac-check_mac r.mac r) (check_mac-again r.mac r u h)

-- Adding an accepted rule makes it the rule of its address and leaves all other addresses alone;
-- adding any other rule that has an address changes nothing.
pub lookup-add_rule :
    (rules : Rules) (r : Rule) (mac other : Text)
    → r.mac ≡ some mac
    → let (accepted, checked) = check_rule r in
      lookup other (add_rule rules r) ≡ (
        if accepted
        then ite (Text-discrete mac other) (some checked) (lookup other rules)
        else lookup other rules)
unfolding add_rule
lookup-add_rule rules r mac other e =
    let checked = (check_rule r).1 in
    ground (arith, mac-check_rule r, lookup-insert mac other checked rules)

-- Removing a rule by its address leaves none there, and all other addresses of a dict alone.
pub lookup-remove_rule :
    (rules : Rules) (mac other : Text)
    → IsDict rules
    → lookup other (remove_rule rules (mac_text mac))
      ≡ ite (Text-discrete mac other) none (lookup other rules)
unfolding remove_rule
lookup-remove_rule rules mac other h =
    ground (arith, lookup-erase_self mac rules h, lookup-erase_ne mac other rules)
