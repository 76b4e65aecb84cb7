-- ===== src/ParentalControl/Table/Columns.antt =====
-- parental_control.py: the vectors that `write_pc_rules` makes, as the router splits them.
use asusrouter.Base.{◌≡◌, refl, ap, ◌∙◌, List, [], ◌∷◌, map, All, arith}
use asusrouter.Base.Text.{Text, codes, split, join, replace}
use asusrouter.Base.Text.Separators.{Free, split-join, Free-replace, replace-join}
use asusrouter.ParentalControl.Rules.{Rule, Rules, RuleType, unknown, remove, disable, time, block}
use asusrouter.ParentalControl.Table.{or_empty, show_type, values, write_pc_rules}

-- No text of the rule has the character that separates the rules in a vector.
pub record IsRow (r : Rule) : Type 0 where
  pub mac : Free b'>' (or_empty r.mac)
  pub name : Free b'>' (or_empty r.name)
  pub timemap : Free b'>' (or_empty r.timemap)

abbrev pub IsRows : Rules → Type 0
IsRows rules = All IsRow (values rules)

Free-column :
    (f : Rule → Text)
    → ((s : Rule) → IsRow s → Free b'>' (f s))
    → (rows : List Rule) → All IsRow rows
    → All (Free b'>') (map f rows)
Free-column f h [] t = tt
Free-column f h (r ∷ rows) (p, t) = (h r p, Free-column f h rows t)

Free-show_type : (t : RuleType) → Free b'>' (show_type t)
Free-show_type unknown = ground arith
Free-show_type remove = ground arith
Free-show_type disable = ground arith
Free-show_type time = ground arith
Free-show_type block = ground arith

column :
    (f : Rule → Text) (rows : List Rule) (r : Rule)
    → ((s : Rule) → IsRow s → Free b'>' (f s))
    → All IsRow (r ∷ rows)
    → split b'>' (join (codes ">") (map f (r ∷ rows))) ≡ map f (r ∷ rows)
column f rows r h (p, ps) = split-join b'>' (f r) (map f rows) (h r p) (Free-column f h rows ps)

map-map :
    (f : Text → Text) (g : Rule → Text) (rows : List Rule)
    → map f (map g rows) ≡ map (λ r. f (g r)) rows
map-map f g [] = refl
map-map f g (r ∷ rows) = ap (λ ts. f (g r) ∷ ts) (map-map f g rows)

abbrev pub unescape : Text → Text
unescape = replace (codes "&#60") (codes "<")

timemap_column :
    (rows : List Rule) (r : Rule)
    → All IsRow (r ∷ rows)
    → split b'>' (unescape (join (codes ">") (map (λ (s : Rule). or_empty s.timemap) (r ∷ rows))))
      ≡ map (λ (s : Rule). unescape (or_empty s.timemap)) (r ∷ rows)
unfolding replace join
timemap_column rows r h =
    let f : Rule → Text = λ s. or_empty s.timemap in
    let g : Rule → Text = λ s. unescape (or_empty s.timemap) in
    ap (split b'>') (
      replace-join b'>' b'&' (codes "#60") (codes "<") (f r) (map f rows) (ground arith)
      ∙ ap (join (codes ">")) (map-map unescape f (r ∷ rows)))
    ∙ column g rows r
        (λ s p.
          Free-replace b'>' (codes "&#60") (codes "<") 0 (or_empty s.timemap) (ground arith)
            p.timemap)
        h

-- If no text of a table that is not empty has the separator of the vectors, each vector that is
-- written splits at it into one piece per rule, in order: its address, its name, its time map with
-- the escaped separators undone, and its type.
pub split-write_pc_rules :
    (entry : Text × Rule) (rules : Rules)
    → IsRows (entry ∷ rules)
    → let v = write_pc_rules (entry ∷ rules) in
      let rows = values (entry ∷ rules) in
      (split b'>' v.macs ≡ map (λ (r : Rule). or_empty r.mac) rows)
      × (split b'>' v.names ≡ map (λ (r : Rule). or_empty r.name) rows)
      × (split b'>' v.timemaps ≡ map (λ (r : Rule). unescape (or_empty r.timemap)) rows)
      × (split b'>' v.kinds ≡ map (λ (r : Rule). show_type r.kind) rows)
unfolding write_pc_rules
split-write_pc_rules (k, r) rules h = (
  column (λ s. or_empty s.mac) (values rules) r (λ s p. p.mac) h,
  column (λ s. or_empty s.name) (values rules) r (λ s p. p.name) h,
  timemap_column (values rules) r h,
  column (λ s. show_type s.kind) (values rules) r (λ s p. Free-show_type s.kind) h,
)
