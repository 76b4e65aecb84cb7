-- ===== src/Registry.antt =====
-- asusrouter/registry.py: named callables for classes. The lock of the source makes each operation
-- atomic, so an operation is a function. A class comes with its MRO, which Python computes, and an
-- instance stands for its class.
pub mod Resolve
use asusrouter.Base.{Bool, true, false, Option, none, some, List, [], ◌∷◌}
use asusrouter.Base.Text.{Text, text_key}
use asusrouter.Base.Dict.{Key, Dict, lookup, insert}
use asusrouter.Config.{or_else}

-- `ARCallableEntry`: a callable, or a pair of one and a flag.
pub data Entry (F : Type 0) : Type 0 where
  plain : F → Entry F
  flagged : F → Bool → Entry F

-- `ARCallableRegistryBase`, over classes `K` and callables `F`.
pub record Registry (K F : Type 0) : Type 0 where
  pub map_of : Dict K (Dict Text (Entry F))
  pub flags : Dict F Bool

abbrev pub callable_of : {F : Type 0} → Entry F → F
callable_of (plain f) = f
callable_of (flagged f b) = f

-- The flag that `register` stores.
abbrev pub flag_of : {F : Type 0} → Entry F → Bool
flag_of (plain f) = false
flag_of (flagged f b) = b

abbrev pub map_entry : {A B : Type 0} → (A → B) → Option A → Option B
map_entry f none = none
map_entry f (some a) = some (f a)

module _ {F : Type 0} where
  -- The loop of `register` over the callables.
  unfoldable pub set_entries : List (Text × Entry F) → Dict Text (Entry F) → Dict Text (Entry F)
  set_entries [] entries = entries
  set_entries ((name, value) ∷ more) entries = set_entries more (insert name value entries)

  abbrev pub find_in : Text → Option (Dict Text (Entry F)) → Option (Entry F)
  find_in name none = none
  find_in name (some entries) = lookup name entries

module _ {F : Type 0} ⦃callables : Key F⦄ where
  unfoldable pub set_flags : List (Text × Entry F) → Dict F Bool → Dict F Bool
  set_flags [] flags = flags
  set_flags ((name, value) ∷ more) flags =
      set_flags more (insert (callable_of value) (flag_of value) flags)

  -- The flag of a registered entry: its own, or the one stored for its callable.
  abbrev pub entry_flag : Dict F Bool → Option (Entry F) → Bool
  entry_flag flags none = false
  entry_flag flags (some (plain f)) = or_else (lookup f flags) false
  entry_flag flags (some (flagged f b)) = b

module _ {K F : Type 0} ⦃key : Key K⦄ ⦃callables : Key F⦄ where
  unfoldable pub empty_registry : Registry K F
  empty_registry = record { map_of = []; flags = [] }

  unfoldable pub register : K → List (Text × Entry F) → Registry K F → Registry K F
  unfolding set_entries set_flags
  register cls named r = record {
    map_of = insert cls (set_entries named (or_else (lookup cls r.map_of) [])) r.map_of;
    flags = set_flags named r.flags;
  }

  -- The loop of `_resolve_entry` over the bases of the MRO.
  unfoldable pub resolve_entry : Text → List K → Registry K F → Option (Entry F)
  resolve_entry name [] r = none
  resolve_entry name (base ∷ mro) r = elim (find_in name (lookup base r.map_of)) [
    | none ↦ resolve_entry name mro r
    | some value ↦ some value
  ]

  unfoldable pub get_callable : Text → List K → Registry K F → Option F
  unfolding resolve_entry
  get_callable name mro r = map_entry callable_of (resolve_entry name mro r)

  -- `get_callable_flag`, of a class and a name.
  unfoldable pub get_callable_flag : Text → List K → Registry K F → Bool
  unfolding resolve_entry
  get_callable_flag name mro r = entry_flag r.flags (resolve_entry name mro r)

  -- `get_callable_flag`, of a callable.
  unfoldable pub stored_flag : F → Registry K F → Bool
  stored_flag f r = or_else (lookup f r.flags) false
