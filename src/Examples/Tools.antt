-- ===== src/Examples/Tools.antt =====
-- Addresses and nested dicts of asusrouter/tools at concrete inputs.
use asusrouter.Base.{
  ℕ_discrete, ◌≡◌, ◌≤◌, ◌<◌, ◌+◌, ◌⊎◌, ◌++◌, refl, Option, none, some, [], ◌∷◌, arith,
}
use asusrouter.Base.Int.{ℤ}
use asusrouter.Base.Text.{Text, codes, Text-discrete}
use asusrouter.Tools.Converters.{text, null}
use asusrouter.Tools.Identifiers.Mac.{MacAddress, value, from_value, as_asus, show}
use asusrouter.Tools.Identifiers.Mac.Number.{IsMac}
use asusrouter.Tools.Identifiers.Mac.Print.{from_value-as_asus}
use asusrouter.Tools.Readers.{leaf, dict, Tree, empty, entry, get_node, merge_dicts}
use asusrouter.Tools.Readers.Nesting.{json_nesting_depth}
use asusrouter.Tools.Readers.Nesting.Depth.{
  openings, closings, IsNested, json_nesting_depth-IsNested,
}
use asusrouter.Tools.Readers.Merged.{IsTree}
use asusrouter.Tools.Readers.Merged.Deep.{IsMerged, merge_dicts-IsMerged}

abbrev no_floats : Text → Option ℤ
no_floats s = none

abbrev card : MacAddress
card = record { octets = 0 ∷ 17 ∷ 34 ∷ 171 ∷ 205 ∷ 239 ∷ [] }

card-IsMac : IsMac card
card-IsMac = record { six_octets = refl; in_range = omega arith }

from_value-as_asus_example :
    (from_value no_floats (value (text (as_asus card))) ≡ some card)
    × (from_value no_floats (value (text (show card))) ≡ some card)
from_value-as_asus_example = from_value-as_asus no_floats card (λ t h. refl) card-IsMac

card_read : from_value no_floats (value (text (codes "00:11:22:ab:CD:ef"))) ≡ some card
unfolding from_value
card_read = refl

-- A known client, and an older record of it.
abbrev client : Tree
client = entry (codes "name") (leaf null) (entry (codes "ip") (leaf (text (codes "1"))) empty)

abbrev older : Tree
older =
    entry (codes "ip") (leaf (text (codes "2")))
      (entry (codes "name") (leaf (text (codes "pc"))) empty)

abbrev merged : Tree
merged =
    entry (codes "name") (leaf (text (codes "pc")))
      (entry (codes "ip") (leaf (text (codes "1"))) empty)

clients_merged :
    merge_dicts (entry (codes "a") (dict client) empty) (entry (codes "a") (dict older) empty)
    ≡ some (entry (codes "a") (dict merged) empty)
unfolding merge_dicts Text-discrete ℕ_discrete
clients_merged = refl

older-IsTree : IsTree (entry (codes "a") (dict older) empty)
unfolding get_node Text-discrete ℕ_discrete
older-IsTree = ground arith

merge_dicts-IsMerged_example :
    IsMerged
      (get_node (codes "a") (entry (codes "a") (dict client) empty))
      (get_node (codes "a") (entry (codes "a") (dict older) empty))
      (get_node (codes "a") (entry (codes "a") (dict merged) empty))
merge_dicts-IsMerged_example =
    merge_dicts-IsMerged (entry (codes "a") (dict client) empty)
      (entry (codes "a") (dict older) empty) (entry (codes "a") (dict merged) empty) (codes "a")
      older-IsTree clients_merged

abbrev nested : Text
nested = codes "{a:[1,{}]}"

-- There are no string literals in the text.
abbrev unchanged : Text → Text
unchanged s = s

json_nesting_depth-IsNested_example :
    let n = json_nesting_depth unchanged nested in
    ((p q : Text) × (nested ≡ p ++ q) × IsNested n p)
    × ((64 < n) ⊎ ((p q : Text) → nested ≡ p ++ q → openings p ≤ closings p + n))
json_nesting_depth-IsNested_example = json_nesting_depth-IsNested unchanged nested
