-- ===== src/Tools/Readers/Merged.antt =====
-- asusrouter/tools/readers.py: what a merge of nested dicts holds.
pub mod Deep
use mathlib.Core.Path.{subst}
use mathlib.Core.Logic.{if_pos, if_neg}
use asusrouter.Base.{◌≢◌, ◌≡◌, refl, sym, ap, ◌∙◌, Option, none, some, arith, ite}
use asusrouter.Base.Text.{Text, text_key}
use asusrouter.Tools.Converters.{Value, null, bool, int, text}
use asusrouter.Tools.Readers.{
  Node, leaf, dict, Tree, empty, entry, get_node, set_node, base_of, fill_leaf, and_then,
  merge_dicts,
}

-- No key is listed twice, at any depth.
abbrev pub IsTree : Tree → Type 0
IsTree empty = Unit
IsTree (entry k (leaf v) d) = (get_node k d ≡ none) × IsTree d
IsTree (entry k (dict t) d) = (get_node k d ≡ none) × IsTree t × IsTree d

get_node-set_node :
    (k j : Text) (v : Node) (d : Tree)
    → get_node j (set_node k v d) ≡ ite (text_key.same k j) (some v) (get_node j d)
unfolding get_node set_node
get_node-set_node k j v empty = ground arith
get_node-set_node k j v (entry i w d) = ground (arith, get_node-set_node k j v d)

abbrev pub as_dict : Option Tree → Option (Option Node)
as_dict none = none
as_dict (some d) = some (some (dict d))

abbrev merge_base : Option Tree → Tree → Option (Option Node)
merge_base none t = none
merge_base (some s) t = as_dict (merge_dicts s t)

abbrev pub filled_node : Option Node → Value → Option Node
filled_node none v = some (leaf v)
filled_node (some (leaf null)) v = some (leaf v)
filled_node (some w) v = some w

-- What one key holds after a merge, by what it held on both sides; `none` is the error.
abbrev pub merged_node : Option Node → Option Node → Option (Option Node)
merged_node a none = some a
merged_node a (some (leaf v)) = some (filled_node a v)
merged_node a (some (dict t)) = merge_base (base_of a) t

and_then_inv :
    (o : Option Tree) (f : Tree → Option Tree) (m : Tree)
    → and_then o f ≡ some m
    → (d : Tree) × (o ≡ some d) × (f d ≡ some m)
and_then_inv none f m h = absurd (ground (arith, h))
and_then_inv (some d) f m h = (d, refl, h)

get_node-set_node_self : (k : Text) (v : Node) (d : Tree) → get_node k (set_node k v d) ≡ some v
get_node-set_node_self k v d = ground (arith, get_node-set_node k k v d)

get_node-set_node_ne :
    (k j : Text) (v : Node) (d : Tree) → k ≢ j → get_node j (set_node k v d) ≡ get_node j d
get_node-set_node_ne k j v d n = ground (arith, get_node-set_node k j v d)

get_node-fill_leaf :
    (k : Text) (v : Value) (o : Option Node) (d : Tree)
    → get_node k d ≡ o
    → get_node k (fill_leaf k v o d) ≡ filled_node o v
get_node-fill_leaf k v none d h = get_node-set_node_self k (leaf v) d
get_node-fill_leaf k v (some (leaf null)) d h = get_node-set_node_self k (leaf v) d
get_node-fill_leaf k v (some (leaf (bool b))) d h = h
get_node-fill_leaf k v (some (leaf (int z))) d h = h
get_node-fill_leaf k v (some (leaf (text s))) d h = h
get_node-fill_leaf k v (some (dict t)) d h = h

get_node-fill_leaf_ne :
    (k j : Text) (v : Value) (o : Option Node) (d : Tree)
    → k ≢ j
    → get_node j (fill_leaf k v o d) ≡ get_node j d
get_node-fill_leaf_ne k j v none d n = get_node-set_node_ne k j (leaf v) d n
get_node-fill_leaf_ne k j v (some (leaf null)) d n = get_node-set_node_ne k j (leaf v) d n
get_node-fill_leaf_ne k j v (some (leaf (bool b))) d n = refl
get_node-fill_leaf_ne k j v (some (leaf (int z))) d n = refl
get_node-fill_leaf_ne k j v (some (leaf (text s))) d n = refl
get_node-fill_leaf_ne k j v (some (dict t)) d n = refl

-- The two cases of an entry: its own key, and another one.
at_key :
    (k j : Text) (a m rest : Tree) (v : Node)
    → (k ≡ j → merged_node (get_node k a) (some v) ≡ some (get_node k m))
    → (k ≢ j → merged_node (get_node j a) (get_node j rest) ≡ some (get_node j m))
    → merged_node (get_node j a) (get_node j (entry k v rest)) ≡ some (get_node j m)
unfolding get_node
at_key k j a m rest v here there = elim (text_key.same k j) [
  | yes p ↦
      rw (if_pos _ p)
        (subst (λ i. merged_node (get_node i a) (some v) ≡ some (get_node i m)) p (here p))
  | no n ↦ rw (if_neg _ n) (there n)
]

-- Each key of a merge that succeeds, with a dict that has no key twice, holds what `merged_node` makes
-- of the two sides.
pub get_node-merge_dicts :
    (a b m : Tree) (j : Text)
    → IsTree b
    → merge_dicts a b ≡ some m
    → merged_node (get_node j a) (get_node j b) ≡ some (get_node j m)
unfolding merge_dicts
get_node-merge_dicts a empty m j h e = unfold get_node in ap (λ d. some (get_node j d)) (cc)
get_node-merge_dicts a (entry k (leaf v) rest) m j (h, hs) e =
    let d = fill_leaf k v (get_node k a) a in
    at_key k j a m rest (leaf v)
      (λ _.
        ap some (sym (get_node-fill_leaf k v (get_node k a) a refl))
        ∙ ap (merged_node (get_node k d)) (sym h)
        ∙ get_node-merge_dicts d rest m k hs e)
      (λ n.
        ap (λ o. merged_node o (get_node j rest))
          (sym (get_node-fill_leaf_ne k j v (get_node k a) a n))
        ∙ get_node-merge_dicts d rest m j hs e)
get_node-merge_dicts a (entry k (dict t) rest) m j (h, _, hs) e =
    let (s, es, e2) = and_then_inv (base_of (get_node k a)) _ m e in
    let (q, eq, e3) = and_then_inv (merge_dicts s t) _ m e2 in
    let d = set_node k (dict q) a in
    at_key k j a m rest (dict t)
      (λ _.
        ap (λ o. merge_base o t) es
        ∙ ap as_dict eq
        ∙ ap some (sym (get_node-set_node_self k (dict q) a))
        ∙ ap (merged_node (get_node k d)) (sym h)
        ∙ get_node-merge_dicts d rest m k hs e3)
      (λ n.
        ap (λ o. merged_node o (get_node j rest)) (sym (get_node-set_node_ne k j (dict q) a n))
        ∙ get_node-merge_dicts d rest m j hs e3)
