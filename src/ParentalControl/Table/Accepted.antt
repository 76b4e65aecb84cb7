-- ===== src/ParentalControl/Table/Accepted.antt =====
-- parental_control.py: an accepted rule cannot break the vectors of the table.
use asusrouter.Base.{
  ℕ, zero, suc, ◌≡◌, inl, inr, ap, sym, ◌∙◌, true, false, Option, none, some, [], ◌∷◌, ◌==◌,
  Bool-cases, arith,
}
use asusrouter.Base.Text.{Text, text_key}
use asusrouter.Base.Dict.{insert}
use asusrouter.Base.Text.Separators.{Free, Free-has_substring}
use asusrouter.ParentalControl.Rules.{
  Rule, Rules, is_hex, at_end, groups, is_mac, is_unsafe, check_rule, add_rule, insert_by,
}
use asusrouter.ParentalControl.Rules.Checked.{MacFits, NameFits, TimemapFits, check_rule-IsChecked}
use asusrouter.ParentalControl.Table.{or_empty}
use asusrouter.ParentalControl.Table.Columns.{IsRow, IsRows}

hex-ne : (c : ℕ) → is_hex c ≡ true → (c == b'>') ≡ false
unfolding is_hex
hex-ne c h = ground arith

Free-at_end : (s : Text) → at_end s ≡ true → Free b'>' s
Free-at_end [] h = tt
Free-at_end (c ∷ []) h = (ground arith, tt)
Free-at_end (c ∷ d ∷ s) h = absurd (ground arith)

Free-groups : (n : ℕ) (s : Text) → groups n s ≡ true → Free b'>' s
unfolding groups
Free-groups zero s h = Free-at_end s h
Free-groups (suc n) [] h = tt
Free-groups (suc n) (c ∷ []) h = absurd (ground arith)
Free-groups (suc n) (c ∷ a ∷ []) h = absurd (ground arith)
Free-groups (suc n) (c ∷ a ∷ b ∷ s) h = ground (arith, hex-ne a, hex-ne b, Free-groups n s)

Free-is_mac : (s : Text) → is_mac s ≡ true → Free b'>' s
unfolding is_mac
Free-is_mac [] h = tt
Free-is_mac (a ∷ []) h = absurd (ground arith)
Free-is_mac (a ∷ b ∷ s) h = ground (arith, hex-ne a, hex-ne b, Free-groups 5 s)

Free-is_unsafe : (s : Text) → is_unsafe s ≡ false → Free b'>' s
unfolding is_unsafe
Free-is_unsafe s h = Free-has_substring b'>' s (ground arith)

checked-mac : (mac : Text) (m : Option Text) → MacFits mac m → Free b'>' (or_empty m)
checked-mac mac none h = tt
checked-mac mac (some m) (e, h) = Free-is_mac m h

checked-name :
    (mac : Text) (n : Option Text) → is_mac mac ≡ true → NameFits mac n → Free b'>' (or_empty n)
checked-name mac none m h = tt
checked-name mac (some n) m (l, inl u) = Free-is_unsafe n u
checked-name mac (some n) m (l, inr e) = rw e (Free-is_mac mac m)

checked-timemap : (t : Option Text) → TimemapFits t → Free b'>' (or_empty t)
checked-timemap none h = tt
checked-timemap (some t) (inl u) = Free-is_unsafe t u
checked-timemap (some t) (inr e) = rw e (ground arith)

fits-mac : (mac : Text) (m : Option Text) → MacFits mac m → is_mac mac ≡ true
fits-mac mac none h = absurd h
fits-mac mac (some m) (e, h) = ap is_mac (sym e) ∙ h

-- No text of an accepted rule has the separator of the vectors.
pub check_rule-IsRow : (r : Rule) → (check_rule r).0 ≡ true → IsRow (check_rule r).1
check_rule-IsRow r h =
    let (mac, e, c) = check_rule-IsChecked r h in
    record {
      mac = checked-mac mac _ c.address;
      name = checked-name mac _ (fits-mac mac _ c.address) c.named;
      timemap = checked-timemap _ c.timed;
    }

insert-IsRows :
    (mac : Text) (r : Rule) (rules : Rules) → IsRow r → IsRows rules → IsRows (insert mac r rules)
unfolding insert
insert-IsRows mac r [] p h = (p, tt)
insert-IsRows mac r ((k, q) ∷ rules) p (a, h) = ground (arith, insert-IsRows mac r rules p h)

insert_by-IsRows :
    (mac : Option Text) (r : Rule) (rules : Rules)
    → IsRow r
    → IsRows rules
    → IsRows (insert_by mac r rules)
unfolding insert_by
insert_by-IsRows none r rules p h = h
insert_by-IsRows (some mac) r rules p h = insert-IsRows mac r rules p h

-- Whatever rule is added to a table, no text of the table gets the separator of the vectors.
pub add_rule-IsRows : (rules : Rules) (r : Rule) → IsRows rules → IsRows (add_rule rules r)
unfolding add_rule
add_rule-IsRows rules r h = elim (Bool-cases (check_rule r).0) [
  | inl p ↦ rw p (insert_by-IsRows _ _ rules (check_rule-IsRow r p) h)
  | inr p ↦ rw p h
]
