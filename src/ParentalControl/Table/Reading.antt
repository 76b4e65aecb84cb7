-- ===== src/ParentalControl/Table/Reading.antt =====
-- parental_control.py: `read_pc_rules` on the vectors that a router makes of its rows.
use asusrouter.Base.{
  ◌≡◌, ◌≢◌, refl, inl, inr, ap, sym, ◌∙◌, true, false, Option, none, some, List, [], ◌∷◌, ◌++◌, map,
  All, arith,
}
use mathlib.Core.Path.{subst}
use mathlib.Core.List.{append_assoc, append-nil}
use asusrouter.Base.Int.{ℤ}
use asusrouter.Base.Text.{Text, text_key, codes, split_on, join}
use asusrouter.Base.Dict.{IsDict, lookup, insert}
use asusrouter.ParentalControl.Rules.{Rule, Rules, RuleType, unknown, remove, disable, time, block}
use asusrouter.ParentalControl.Table.{
  is_text, Answer, read_row, read_rows, read_texts, read_fields, read_pc_string, same_length,
  is_empty, read_pc_rules,
}
use asusrouter.Base.Text.Separators.{Free}
use asusrouter.Base.Text.Escaped.{escape, escape_Free, split_on-escaped}
use asusrouter.ParentalControl.Table.Address.{
  IsAddress, Free_address, clean_string_address, digits, type_of_digits,
}

-- One row of the router's table: a time map has `<` between its windows.
pub record Row : Type 0 where
  pub mac : Text
  pub name : Text
  pub timemap : Text
  pub kind : RuleType

-- The address is one, and no other text has an ampersand.
pub record IsRouterRow (r : Row) : Type 0 where
  pub mac : IsAddress r.mac
  pub name : Free b'&' r.name
  pub timemap : Free b'&' r.timemap

-- A column in the answer of the router, which writes `<` and the separator `>` as their codes, as in
-- tests/test_data/rt_ax88u_merlin_388/hook_003.content.
abbrev pub column : (Row → Text) → List Row → Text
column f rows = join (codes "&#62") (map (λ r. escape (f r)) rows)

abbrev pub answer : List Row → Answer
answer rows = record {
  macs = is_text (column (λ r. r.mac) rows);
  names = is_text (column (λ r. r.name) rows);
  timemaps = is_text (column (λ r. r.timemap) rows);
  kinds = is_text (column (λ r. digits r.kind) rows);
}

-- The rule of a row: its address, its name and its time map as the answer has them, and its type.
abbrev pub entry : Row → Text × Rule
entry r = (
  r.mac,
  record {
    mac = some r.mac;
    name = some (escape r.name);
    timemap = some (escape r.timemap);
    kind = r.kind;
  },
)

digits-Free : (k : RuleType) → Free b'&' (digits k)
digits-Free disable = ground arith
digits-Free time = ground arith
digits-Free block = ground arith
digits-Free remove = ground arith
digits-Free unknown = ground arith

escape-digits : (k : RuleType) → escape (digits k) ≡ digits k
escape-digits disable = refl
escape-digits time = refl
escape-digits block = refl
escape-digits remove = refl
escape-digits unknown = refl

escape-mac : (r : Row) → IsRouterRow r → escape r.mac ≡ r.mac
escape-mac r h = escape_Free r.mac (Free_address b'<' r.mac (inr refl) h.mac.1)

All-column :
    (f : Row → Text)
    → ((r : Row) → IsRouterRow r → Free b'&' (f r))
    → (rows : List Row) → All IsRouterRow rows
    → All (Free b'&') (map f rows)
All-column f h [] t = tt
All-column f h (r ∷ rows) (p, t) = (h r p, All-column f h rows t)

map-map :
    (f : Row → Text) (rows : List Row) → map escape (map f rows) ≡ map (λ r. escape (f r)) rows
map-map f [] = refl
map-map f (r ∷ rows) = ap (λ ts. escape (f r) ∷ ts) (map-map f rows)

read_pc_string-column :
    (f : Row → Text) (row : Row) (rows : List Row)
    → ((r : Row) → IsRouterRow r → Free b'&' (f r))
    → All IsRouterRow (row ∷ rows)
    → read_pc_string (column f (row ∷ rows)) ≡ map (λ r. escape (f r)) (row ∷ rows)
unfolding read_pc_string
read_pc_string-column f row rows h t =
    let same = map-map f (row ∷ rows) in
    subst (λ ts. split_on (codes "&#62") (join (codes "&#62") ts) ≡ ts) same
      (split_on-escaped (f row) (map f rows) (All-column f h (row ∷ rows) t))

same_length-map :
    (f g : Row → Text) (rows : List Row) → same_length (map f rows) (map g rows) ≡ true
unfolding same_length
same_length-map f g [] = refl
same_length-map f g (r ∷ rows) = ground (arith, same_length-map f g rows)

is_empty-ne : (s : Text) → s ≢ [] → is_empty s ≡ false
is_empty-ne [] n = absurd (n refl)
is_empty-ne (c ∷ s) n = refl

is_empty-append : (s t : Text) → is_empty s ≡ false → is_empty (s ++ t) ≡ false
is_empty-append [] t h = absurd (ground arith)
is_empty-append (c ∷ s) t h = refl

is_empty-mac : (r : Row) → IsRouterRow r → is_empty (escape r.mac) ≡ false
is_empty-mac r h = rw (escape-mac r h) (is_empty-ne r.mac h.mac.0)

is_empty-column :
    (row : Row) (rows : List Row)
    → IsRouterRow row
    → is_empty (column (λ r. r.mac) (row ∷ rows)) ≡ false
unfolding join
is_empty-column row [] h = is_empty-mac row h
is_empty-column row (r ∷ rows) h = is_empty-append (escape row.mac) _ (is_empty-mac row h)

lookup-append :
    (k : Text) (rules : Rules) (j : Text) (r : Rule) (rest : Rules)
    → lookup k (rules ++ ((j, r) ∷ rest)) ≡ none
    → k ≢ j
unfolding lookup
lookup-append k [] j r rest h = ground arith
lookup-append k ((i, q) ∷ rules) j r rest h = ground (arith, lookup-append k rules j r rest)

lookup-fresh :
    (rules : Rules) (k : Text) (r : Rule) (rest : Rules)
    → IsDict (rules ++ ((k, r) ∷ rest))
    → lookup k rules ≡ none
unfolding lookup
lookup-fresh [] k r rest h = refl
lookup-fresh ((i, q) ∷ rules) k r rest (n, h) =
    ground (arith, lookup-fresh rules k r rest h, lookup-append i rules k r rest n)

insert-fresh :
    (k : Text) (r : Rule) (rules : Rules)
    → lookup k rules ≡ none
    → insert k r rules ≡ rules ++ ((k, r) ∷ [])
unfolding lookup insert
insert-fresh k r [] h = refl
insert-fresh k r ((i, q) ∷ rules) h = ground (arith, insert-fresh k r rules)

module _ (float_int : Text → Option ℤ) where
  -- What is read of a row.
  read_entry : Row → Text × Rule
  read_entry r = (
    escape r.mac,
    read_row float_int (escape r.mac) (escape r.name) (escape r.timemap) (escape (digits r.kind)),
  )

  read_entry-entry : (r : Row) → IsRouterRow r → read_entry r ≡ entry r
  unfolding read_entry read_row
  read_entry-entry r h =
      rw
        (
          escape-mac r h,
          escape-digits r.kind,
          clean_string_address r.mac h.mac,
          type_of_digits float_int r.kind,
        )
        refl

  map-entry : (rows : List Row) → All IsRouterRow rows → map read_entry rows ≡ map entry rows
  map-entry [] h = refl
  map-entry (r ∷ rows) (h, hs) = rw (read_entry-entry r h, map-entry rows hs) refl

  read_rows-map :
      (rows : List Row) (rules : Rules)
      → IsDict (rules ++ map read_entry rows)
      → read_rows float_int
          (map (λ (r : Row). escape r.mac) rows)
          (map (λ (r : Row). escape r.name) rows)
          (map (λ (r : Row). escape r.timemap) rows)
          (map (λ (r : Row). escape (digits r.kind)) rows)
          rules
        ≡ rules ++ map read_entry rows
  unfolding read_rows read_entry
  read_rows-map [] rules h = sym (append-nil rules)
  read_rows-map (row ∷ rows) rules h =
      let (k, r) = read_entry row in
      let fresh = insert-fresh k r rules (lookup-fresh rules k r (map read_entry rows) h) in
      let assoc = append_assoc rules (read_entry row ∷ []) (map read_entry rows) in
      rw fresh (read_rows-map rows (rules ++ (read_entry row ∷ [])) (rw assoc h) ∙ assoc)

  read_texts-column :
      (row : Row) (rows : List Row)
      → All IsRouterRow (row ∷ rows)
      → IsDict (map read_entry (row ∷ rows))
      → read_texts float_int
          (column (λ r. r.mac) (row ∷ rows))
          (column (λ r. r.name) (row ∷ rows))
          (column (λ r. r.timemap) (row ∷ rows))
          (column (λ r. digits r.kind) (row ∷ rows))
        ≡ some (map read_entry (row ∷ rows))
  unfolding read_texts
  read_texts-column row rows h d = ground (
    arith,
    read_pc_string-column (λ r. r.mac) row rows (λ r p. Free_address b'&' r.mac (inl refl) p.mac.1)
        h,
    read_pc_string-column (λ r. r.name) row rows (λ r p. p.name) h,
    read_pc_string-column (λ r. r.timemap) row rows (λ r p. p.timemap) h,
    read_pc_string-column (λ r. digits r.kind) row rows (λ r p. digits-Free r.kind) h,
    same_length-map (λ r. escape r.mac) (λ r. escape r.name) (row ∷ rows),
    same_length-map (λ r. escape r.mac) (λ r. escape r.timemap) (row ∷ rows),
    same_length-map (λ r. escape r.mac) (λ r. escape (digits r.kind)) (row ∷ rows),
    is_empty-column row rows h.0,
    read_rows-map (row ∷ rows) [] d,
  )

  -- An answer for one row or more in which `<` and the separator are written as codes, whose addresses
  -- are made of digits, colons and the characters from `A` to `f` and are all different, and whose other
  -- texts have no ampersand before they are so written, is read as one rule for each row, in order,
  -- under its address: with the address, with the name and the time map as the answer has them, and with
  -- the type that the number in the answer stands for.
  pub read_pc_rules-answer :
      (row : Row) (rows : List Row)
      → All IsRouterRow (row ∷ rows)
      → IsDict (map entry (row ∷ rows))
      → read_pc_rules float_int (answer (row ∷ rows)) ≡ some (map entry (row ∷ rows))
  unfolding read_pc_rules read_fields
  read_pc_rules-answer row rows h d =
      let same = map-entry (row ∷ rows) h in
      read_texts-column row rows h (subst IsDict (sym same) d) ∙ ap some same
