-- ===== src/Tools/Readers/Merged/Deep.antt =====
-- asusrouter/tools/readers.py: what a merge of nested dicts holds, at every depth.
use mathlib.Core.Path.{subst}
use mathlib.Core.Logic.{if_pos, if_neg}
use asusrouter.Base.{◌≢◌, ◌≡◌, refl, sym, Option, none, some, arith}
use asusrouter.Base.Text.{Text, text_key}
use asusrouter.Tools.Converters.{Value, null, bool, int, text}
use asusrouter.Tools.Readers.{Node, leaf, dict, Tree, empty, entry, get_node, merge_dicts}
use asusrouter.Tools.Readers.Merged.{
  IsTree, as_dict, filled_node, merged_node, get_node-merge_dicts,
}

-- What is at a place after a merge, by what was at it on both sides: `some` is what there is. A place
-- of one side stays; a value is taken where there was nothing or `None`; a dict goes there too, with
-- what it has at its own keys; everything else that was there stays, and only dicts are merged with
-- dicts, at each key.
pub data IsMerged : Option Node → Option Node → Option Node → Type 0 where
  stays : (o : Option Node) → IsMerged o none o
  taken : (v : Value) → IsMerged none (some (leaf v)) (some (leaf v))
  taken_null : (v : Value) → IsMerged (some (leaf null)) (some (leaf v)) (some (leaf v))
  value_stays : (w v : Value) → w ≢ null → IsMerged (some (leaf w)) (some (leaf v)) (some (leaf w))
  dict_stays : (d : Tree) (v : Value) → IsMerged (some (dict d)) (some (leaf v)) (some (dict d))
  dict_taken :
      (t m : Tree)
      → ((j : Text) → IsMerged none (get_node j t) (get_node j m))
      → IsMerged none (some (dict t)) (some (dict m))
  dict_taken_null :
      (t m : Tree)
      → ((j : Text) → IsMerged none (get_node j t) (get_node j m))
      → IsMerged (some (leaf null)) (some (dict t)) (some (dict m))
  dicts_merged :
      (d t m : Tree)
      → ((j : Text) → IsMerged (get_node j d) (get_node j t) (get_node j m))
      → IsMerged (some (dict d)) (some (dict t)) (some (dict m))

as_dict_inv :
    (o : Option Tree) (m : Option Node)
    → as_dict o ≡ some m
    → (q : Tree) × (o ≡ some q) × (m ≡ some (dict q))
as_dict_inv none m h = absurd (ground (arith, h))
as_dict_inv (some q) m h = (q, refl, cc)

filled-IsMerged : (o : Option Node) (v : Value) → IsMerged o (some (leaf v)) (filled_node o v)
filled-IsMerged none v = taken v
filled-IsMerged (some (leaf null)) v = taken_null v
filled-IsMerged (some (leaf (bool b))) v = value_stays (bool b) v (λ e. absurd (cc))
filled-IsMerged (some (leaf (int z))) v = value_stays (int z) v (λ e. absurd (cc))
filled-IsMerged (some (leaf (text s))) v = value_stays (text s) v (λ e. absurd (cc))
filled-IsMerged (some (dict d)) v = dict_stays d v

leaf-IsMerged :
    (v : Value) (o m : Option Node)
    → merged_node o (some (leaf v)) ≡ some m
    → IsMerged o (some (leaf v)) m
leaf-IsMerged v o m e =
    let same : filled_node o v ≡ m = cc in
    subst (IsMerged o (some (leaf v))) same (filled-IsMerged o v)

-- What each key of a tree is merged to, whatever was there before.
abbrev Merges : Tree → Type 0
Merges t =
    (o m : Option Node) (j : Text)
    → merged_node o (get_node j t) ≡ some m
    → IsMerged o (get_node j t) m

merged_into_empty :
    (t q : Tree) (j : Text)
    → IsTree t
    → merge_dicts empty t ≡ some q
    → merged_node none (get_node j t) ≡ some (get_node j q)
merged_into_empty t q j h e = unfold get_node in get_node-merge_dicts empty t q j h e

dict-IsMerged :
    (t : Tree) (o m : Option Node)
    → IsTree t
    → Merges t
    → merged_node o (some (dict t)) ≡ some m
    → IsMerged o (some (dict t)) m
dict-IsMerged t none m h k e =
    let (q, eq, em) = as_dict_inv (merge_dicts empty t) m e in
    subst (IsMerged none (some (dict t))) (sym em)
      (dict_taken t q (λ j. k none (get_node j q) j (merged_into_empty t q j h eq)))
dict-IsMerged t (some (leaf null)) m h k e =
    let (q, eq, em) = as_dict_inv (merge_dicts empty t) m e in
    subst (IsMerged (some (leaf null)) (some (dict t))) (sym em)
      (dict_taken_null t q (λ j. k none (get_node j q) j (merged_into_empty t q j h eq)))
dict-IsMerged t (some (leaf (bool b))) m h k e = absurd (ground (arith, e))
dict-IsMerged t (some (leaf (int z))) m h k e = absurd (ground (arith, e))
dict-IsMerged t (some (leaf (text s))) m h k e = absurd (ground (arith, e))
dict-IsMerged t (some (dict d)) m h k e =
    let (q, eq, em) = as_dict_inv (merge_dicts d t) m e in
    subst (IsMerged (some (dict d)) (some (dict t))) (sym em) (
      dicts_merged d t q
        (λ j. k (get_node j d) (get_node j q) j (get_node-merge_dicts d t q j h eq)))

at_place :
    (k j : Text) (v : Node) (d : Tree) (o m : Option Node)
    → (merged_node o (some v) ≡ some m → IsMerged o (some v) m)
    → (merged_node o (get_node j d) ≡ some m → IsMerged o (get_node j d) m)
    → merged_node o (get_node j (entry k v d)) ≡ some m
    → IsMerged o (get_node j (entry k v d)) m
unfolding get_node
at_place k j v d o m here there = elim (text_key.same k j) [
  | yes p ↦ rw (if_pos _ p) here
  | no n ↦ rw (if_neg _ n) there
]

none-IsMerged : (o m : Option Node) → merged_node o none ≡ some m → IsMerged o none m
none-IsMerged o m e = let same : o ≡ m = cc in subst (IsMerged o none) same (stays o)

tree-Merges : (t : Tree) → IsTree t → Merges t
tree-Merges empty h o m j e = unfold get_node in none-IsMerged o m e
tree-Merges (entry k (leaf v) d) (_, h) o m j e =
    at_place k j (leaf v) d o m (leaf-IsMerged v o m) (tree-Merges d h o m j) e
tree-Merges (entry k (dict t) d) (_, ht, h) o m j e =
    at_place k j (dict t) d o m (dict-IsMerged t o m ht (tree-Merges t ht)) (tree-Merges d h o m j)
      e

-- After a merge that succeeds with a dict in which no key is listed twice, at any depth, every key holds
-- what `IsMerged` says of the two sides: what one side only has is there, a value that is not `None`
-- stays, what is `None` is replaced, and two dicts are merged key by key in the same way.
pub merge_dicts-IsMerged :
    (a b m : Tree) (j : Text)
    → IsTree b
    → merge_dicts a b ≡ some m
    → IsMerged (get_node j a) (get_node j b) (get_node j m)
merge_dicts-IsMerged a b m j h e =
    tree-Merges b h (get_node j a) (get_node j m) j (get_node-merge_dicts a b m j h e)
