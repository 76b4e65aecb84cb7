-- ===== src/Tools/Readers.antt =====
-- asusrouter/tools/readers.py: merging nested dicts. The values are those of an answer of the router.
pub mod Merged
pub mod Nesting
use asusrouter.Base.{◌≢◌, ◌≡◌, Bool, true, false, Option, none, some, arith, ite}
use asusrouter.Base.Dict.{Key}
use asusrouter.Base.Text.{Text, text_key}
use asusrouter.Tools.Converters.{Value, null, bool, int, text, safe_bool}

-- A value of a nested dict, and such a dict in the order of its keys.
mutual
  pub data Node : Type 0 where
    leaf : Value → Node
    dict : Tree → Node

  pub data Tree : Type 0 where
    empty : Tree
    entry : Text → Node → Tree → Tree

-- `d.get(k)`, with `none` for a key that is not there.
unfoldable pub get_node : Text → Tree → Option Node
get_node k empty = none
get_node k (entry j v d) = ite (text_key.same j k) (some v) (get_node k d)

-- `d[k] = v`
unfoldable pub set_node : Text → Node → Tree → Tree
set_node k v empty = entry k v empty
set_node k v (entry j w d) = ite (text_key.same j k) (entry j v d) (entry j w (set_node k v d))

-- The dict that a nested dict is merged into: an empty one if there is nothing; `none` is the error of
-- a value that is no dict.
abbrev pub base_of : Option Node → Option Tree
base_of none = some empty
base_of (some (leaf null)) = some empty
base_of (some (leaf v)) = none
base_of (some (dict d)) = some d

-- A value that is no dict: it fills only what is absent or `None`.
abbrev pub fill_leaf : Text → Value → Option Node → Tree → Tree
fill_leaf k v none d = set_node k (leaf v) d
fill_leaf k v (some (leaf null)) d = set_node k (leaf v) d
fill_leaf k v (some w) d = d

abbrev pub and_then : Option Tree → (Tree → Option Tree) → Option Tree
and_then none f = none
and_then (some d) f = f d

-- `merge_dicts`; `none` is the error of a dict that meets another value.
unfoldable pub merge_dicts : Tree → Tree → Option Tree
unfolding get_node set_node
merge_dicts d empty = some d
merge_dicts d (entry k (leaf v) rest) = merge_dicts (fill_leaf k v (get_node k d) d) rest
merge_dicts d (entry k (dict t) rest) =
    and_then (base_of (get_node k d))
      λ s. and_then (merge_dicts s t) λ m. merge_dicts (set_node k (dict m) d) rest

abbrev pub value_or_none : Option Node → Value
value_or_none (some (leaf v)) = v
value_or_none _ = null
