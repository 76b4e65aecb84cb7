-- ===== src/Config.antt =====
-- asusrouter/config.py: the registry of options that every configuration object extends. An
-- option store is a dict of values and a dict of converters; `KeyError` is `none`. The lock of the
-- source makes each operation atomic, so an operation is a function.
pub mod Laws
pub mod Keys
pub mod Instance
use asusrouter.Base.{Bool, Option, none, some, List, [], ◌∷◌, map, if◌then◌else◌}
use asusrouter.Base.Dict.{Key, Dict, lookup, insert, contains}

-- `ARConfigBase`, over the keys `K` and Python's values `V`.
pub record ConfigBase (K V : Type 0) : Type 0 where
  pub options : Dict K V
  pub types : Dict K (V → V)

-- `d.get(k, default)`
abbrev pub or_else : {A : Type 0} → Option A → A → A
or_else none a = a
or_else (some a) _ = a

abbrev first : {A B : Type 0} → A × B → A
first (a, b) = a

-- `fallback` is `safe_bool_config`, the converter of a key that has none; `null` is `None`.
module _ {K V : Type 0} ⦃key : Key K⦄ (fallback : V → V) (null : V) where
  unfoldable pub set : K → V → ConfigBase K V → Option (ConfigBase K V)
  set k v c =
      if contains k c.options
      then (let converter = or_else (lookup k c.types) fallback in
          some (record c { options = insert k (converter v) c.options }))
      else none

  unfoldable pub register : K → Option (V → V) → ConfigBase K V → ConfigBase K V
  register k converter c =
      let chosen = or_else converter fallback in
      record { options = insert k (chosen null) c.options; types = insert k chosen c.types }

module _ {K V : Type 0} ⦃key : Key K⦄ where
  unfoldable pub get : K → ConfigBase K V → Option V
  get k c = lookup k c.options

  unfoldable pub keys : ConfigBase K V → List K
  keys c = map first c.options

  -- `list`
  unfoldable pub list_options : ConfigBase K V → List (K × V)
  list_options c = c.options

  -- `ARConfigBase.reset`, and the state that `__init__` leaves.
  unfoldable pub reset : ConfigBase K V
  reset = record { options = []; types = [] }

  unfoldable pub has_key : K → ConfigBase K V → Bool
  has_key k c = contains k c.options
