-- ===== src/Examples/Registry.antt =====
-- registry.py at two classes, of which the second derives from the first.
use asusrouter.Base.{ℕ, ◌≡◌, refl, ℕ_discrete, true, some, List, [], ◌∷◌, All, arith}
use asusrouter.Base.Text.{Text, text_key, Text-discrete, codes}
use asusrouter.Base.Dict.{Key, lookup}
use asusrouter.Registry.{Entry, plain, flagged, Registry, find_in}
use asusrouter.Registry.Resolve.{last_named, Passes}

-- Classes and callables are numbers.
instance abbrev number_key : Key ℕ
number_key = record { same = ℕ_discrete }

abbrev base : Registry ℕ ℕ
base = record { map_of = []; flags = [] }

abbrev getters : List (Text × Entry ℕ)
getters = (codes "get_state", plain 10) ∷ (codes "get_request", flagged 11 true) ∷ []

passes : All (Passes 1 (codes "get_request") base) (2 ∷ [])
unfolding lookup
passes = ((ground arith, refl), tt)

named :
    last_named (codes "get_request") getters (find_in (codes "get_request") (lookup 1 base.map_of))
    ≡ some (flagged 11 true)
unfolding lookup ℕ_discrete Text-discrete
named = refl
