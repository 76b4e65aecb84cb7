-- ===== src/Registry/Resolve.antt =====
-- asusrouter/registry.py: which callable is found for a class after a registration.
use asusrouter.Base.{
  ap, Option-cases, ◌≡◌, ◌≢◌, refl, ite, Option, none, some, List, [], ◌∷◌, ◌++◌, All, arith,
}
use asusrouter.Base.Text.{Text, text_key, Text-discrete}
use asusrouter.Base.Dict.{Key, Dict, lookup, insert, lookup-insert}
use asusrouter.Config.{or_else}
use asusrouter.Registry.{
  Entry, Registry, register, set_entries, set_flags, resolve_entry, get_callable, callable_of,
  flag_of, find_in, map_entry, stored_flag,
}

-- The value that the last of the named callables with the name has.
abbrev pub last_named :
    {F : Type 0} → Text → List (Text × Entry F) → Option (Entry F) → Option (Entry F)
last_named name [] old = old
last_named name ((n, value) ∷ more) old =
    last_named name more (ite (Text-discrete n name) (some value) old)

module _ {F : Type 0} where
  lookup-set_entries :
      (name : Text) (named : List (Text × Entry F)) (entries : Dict Text (Entry F))
      → lookup name (set_entries named entries) ≡ last_named name named (lookup name entries)
  unfolding set_entries
  lookup-set_entries name [] entries = refl
  lookup-set_entries name ((n, value) ∷ more) entries = ground (
    arith,
    lookup-set_entries name more (insert n value entries),
    lookup-insert n name value entries,
  )

module _ {K F : Type 0} ⦃key : Key K⦄ ⦃callables : Key F⦄ where
  find-register :
      (cls base : K) (name : Text) (named : List (Text × Entry F)) (r : Registry K F)
      → find_in name (lookup base (register cls named r).map_of)
        ≡ ite
            (key.same cls base)
            (last_named name named (find_in name (lookup cls r.map_of)))
            (find_in name (lookup base r.map_of))
  unfolding register lookup
  find-register cls base name named r =
      let entries = set_entries named (or_else (lookup cls r.map_of) []) in
      ground (
        arith,
        lookup-insert cls base entries r.map_of,
        lookup-set_entries name named (or_else (lookup cls r.map_of) []),
        Option-cases (lookup cls r.map_of),
      )

  -- The bases before the class have no callable of the name and are other classes.
  abbrev pub Passes : K → Text → Registry K F → K → Type 0
  Passes cls name r base = (cls ≢ base) × (find_in name (lookup base r.map_of) ≡ none)

  resolve_entry-register :
      (cls : K) (name : Text) (named : List (Text × Entry F)) (value : Entry F) (r : Registry K F)
      (before after : List K)
      → All (Passes cls name r) before
      → last_named name named (find_in name (lookup cls r.map_of)) ≡ some value
      → resolve_entry name (before ++ (cls ∷ after)) (register cls named r) ≡ some value
  unfolding resolve_entry
  resolve_entry-register cls name named value r [] after t h =
      ground (arith, find-register cls cls name named r)
  resolve_entry-register cls name named value r (base ∷ before) after ((ne, p), t) h = ground (
    arith,
    find-register cls base name named r,
    resolve_entry-register cls name named value r before after t h,
  )

  resolve_entry-register_ne :
      (cls : K) (name : Text) (named : List (Text × Entry F)) (r : Registry K F) (mro : List K)
      → All (λ base. cls ≢ base) mro
      → resolve_entry name mro (register cls named r) ≡ resolve_entry name mro r
  unfolding resolve_entry
  resolve_entry-register_ne cls name named r [] t = refl
  resolve_entry-register_ne cls name named r (base ∷ mro) (ne, t) =
      ground (
        arith,
        find-register cls base name named r,
        resolve_entry-register_ne cls name named r mro t,
      )

  -- After a registration, a class whose MRO reaches the registered one before any other with the name
  -- gets the callable that was registered last under that name, or the earlier one if none was.
  pub get_callable-register :
      (cls : K) (name : Text) (named : List (Text × Entry F)) (value : Entry F) (r : Registry K F)
      (before after : List K)
      → All (Passes cls name r) before
      → last_named name named (find_in name (lookup cls r.map_of)) ≡ some value
      → get_callable name (before ++ (cls ∷ after)) (register cls named r)
        ≡ some (callable_of value)
  unfolding get_callable
  get_callable-register cls name named value r before after t h =
      ap (map_entry callable_of) (resolve_entry-register cls name named value r before after t h)

  -- A registration changes nothing for a class whose MRO does not have the registered one.
  pub get_callable-register_ne :
      (cls : K) (name : Text) (named : List (Text × Entry F)) (r : Registry K F) (mro : List K)
      → All (λ base. cls ≢ base) mro
      → get_callable name mro (register cls named r) ≡ get_callable name mro r
  unfolding get_callable
  get_callable-register_ne cls name named r mro t =
      ap (map_entry callable_of) (resolve_entry-register_ne cls name named r mro t)

  -- The flag of a callable is that of its last registration, whatever the class.
  pub stored_flag-register :
      (cls : K) (name : Text) (value : Entry F) (f : F) (r : Registry K F)
      → stored_flag f (register cls ((name, value) ∷ []) r)
        ≡ ite (callables.same (callable_of value) f) (flag_of value) (stored_flag f r)
  unfolding stored_flag register set_flags
  stored_flag-register cls name value f r =
      ground (arith, lookup-insert (callable_of value) f (flag_of value) r.flags)
