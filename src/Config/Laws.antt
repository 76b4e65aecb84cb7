-- ===== src/Config/Laws.antt =====
-- config.py: what setting, registering and reading an option do to one another.
use mathlib.Core.Option
use asusrouter.Base.{◌≡◌, ite, Option, some, arith}
use asusrouter.Base.Dict.{Key, lookup, insert, is_some, lookup-insert}
use asusrouter.Config.{ConfigBase, set, get, register, has_key, or_else}

module _ {K V : Type 0} ⦃key : Key K⦄ (fallback : V → V) (null : V) where
  -- A known option reads back as its converter made it, whatever was set; every other option, the
  -- set of known options and all converters are as before.
  pub get-set :
      (k j : K) (v : V) (c : ConfigBase K V) {d : ConfigBase K V}
      → set fallback null k v c ≡ some d
      → (get j d ≡ ite (key.same k j) (some (or_else (lookup k c.types) fallback v)) (get j c))
        × (has_key j d ≡ has_key j c)
        × (d.types ≡ c.types)
  unfolding set get has_key
  get-set k j v c {d} h =
      let w = or_else (lookup k c.types) fallback v in ground (arith, lookup-insert k j w c.options)

  -- Setting succeeds for the options that are known, and for no other.
  pub set_total :
      (k : K) (v : V) (c : ConfigBase K V) → is_some (set fallback null k v c) ≡ has_key k c
  unfolding set has_key
  set_total k v c = ground arith

  -- A registered option holds its converter's reading of `None`, and can be set from then on to
  -- what that converter makes of a value.
  pub set-register :
      (k : K) (converter : Option (V → V)) (v : V) (c : ConfigBase K V)
      → let made = register fallback null k converter c in
        (get k made ≡ some (or_else converter fallback null))
        × (Option.map (get k) (set fallback null k v made)
            ≡ some (some (or_else converter fallback v)))
  unfolding register set get
  set-register k converter v c =
      let w = or_else converter fallback in
      ground (
        arith,
        lookup-insert k k (w null) c.options,
        lookup-insert k k w c.types,
        lookup-insert k k (w v) (insert k (w null) c.options),
      )
