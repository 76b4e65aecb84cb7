-- ===== src/Config/Instance/Overrides.antt =====
-- config.py: an instance's options override the global ones, and only those.
use asusrouter.Base.{ite, ◌≡◌, refl, Option, none, some, [], ◌∷◌, arith}
use asusrouter.Base.Text.{Text}
use asusrouter.Base.Int.{ℤ}
use asusrouter.Base.Dict.{
  Dict, IsDict, lookup, insert, lookup-insert, lookup-erase_self, lookup-erase_ne,
}
use asusrouter.Tools.Converters.{Value}
use asusrouter.Config.{ConfigBase, get, reset}
use asusrouter.Config.Keys.{ConfigKey-discrete, ConfigKey, config_key}
use asusrouter.Config.Instance.{types_default, instance_loop, instance_reset, instance_get, remove}

module _ (float_int : Text → Option ℤ) where
  -- The configuration after one round of the loop.
  abbrev after : ConfigKey → Value → ConfigBase ConfigKey Value → ConfigBase ConfigKey Value
  after j v c = record {
    options = insert j (types_default float_int j v) c.options;
    types = insert j (types_default float_int j) c.types;
  }

  lookup-instance_loop :
      (k : ConfigKey) (d : Dict ConfigKey Value) (c : ConfigBase ConfigKey Value)
      → IsDict d
      → lookup k (instance_loop float_int d c).options ≡ elim (lookup k d) [
        | some v ↦ some (types_default float_int k v)
        | none ↦ lookup k c.options
      ]
  unfolding lookup instance_loop
  lookup-instance_loop k [] c h = refl
  lookup-instance_loop k ((j, v) ∷ d) c h = ground (
    arith,
    lookup-instance_loop k d (after j v c) h.1,
    lookup-insert j k (types_default float_int j v) c.options,
  )

  -- An instance made from a dict of overrides reads each key as follows: an overridden one as its converter
  -- makes it of the override, any other one as the global configuration has it.
  pub get-instance_reset :
      (k : ConfigKey) (d : Dict ConfigKey Value) (global : ConfigBase ConfigKey Value)
      → IsDict d
      → instance_get k (instance_reset float_int d) global
        ≡ elim (lookup k d) [ some v ↦ some (types_default float_int k v) | none ↦ get k global ]
  unfolding instance_get instance_reset lookup reset
  get-instance_reset k d global h = ground (arith, lookup-instance_loop k d reset h)

-- Removing an option from a dict of options uncovers the global value of that option and of no other.
pub get-remove :
    (k j : ConfigKey) (c global : ConfigBase ConfigKey Value)
    → IsDict c.options
    → instance_get j (remove k c) global
      ≡ ite (ConfigKey-discrete k j) (get k global) (instance_get j c global)
unfolding instance_get remove
get-remove k j c global h =
    ground (arith, lookup-erase_self k c.options h, lookup-erase_ne k j c.options)
