-- ===== src/StaticDhcp/Snapshot.antt =====
-- asusrouter/asusrouter.py: the router's static leases and their state, and the writer of requests for
-- values in asusrouter/tools/writers.py.
use asusrouter.Base.{Bool, Option, none, some, List, [], ◌∷◌, ◌++◌, if◌then◌else◌}
use asusrouter.Base.Int.{ℤ}
use asusrouter.Base.Dict.{Dict, lookup, contains}
use asusrouter.Base.Text.{Text, codes, text_key}
use asusrouter.Tools.Converters.{Value, null, text, clean_string, safe_bool}
use asusrouter.Tools.Identifiers.Ip.{Library}
use asusrouter.StaticDhcp.{Lease, parse_leases}

-- What `nvram` takes: a list, a text, which is cleaned, or `None`.
pub data Content : Type 0 where
  names : List Text → Content
  name : Text → Content
  nothing : Content

abbrev pub one_value : Text → Text
one_value item = codes "nvram_get(" ++ (item ++ codes ");")

unfoldable pub all_values : List Text → Text
all_values [] = []
all_values (item ∷ items) = one_value item ++ all_values items

abbrev pub one_request : Option Text → Option Text
one_request none = none
one_request (some item) = some (one_value item)

unfoldable pub nvram : Content → Option Text
unfolding all_values clean_string
nvram (names items) = some (all_values items)
nvram (name item) = one_request (clean_string item)
nvram nothing = none

abbrev pub key_list : Text
key_list = codes "dhcp_staticlist"

abbrev pub key_state : Text
key_state = codes "dhcp_static_x"

-- `d.get(k)`, where a missing key gives `None`.
abbrev pub state_value : Option Value → Value
state_value none = null
state_value (some v) = v

abbrev pub as_leases : Option Bool → Option (List Lease) → Option (Bool × List Lease)
as_leases (some state) (some rs) = some (state, rs)
as_leases _ _ = none

-- `async_api_hook` is `hook`, where `none` is an answer that is no dict.
module _ (f : Text → Option ℤ) (l : Library) where
  unfoldable pub list_and_state : Dict Text Value → Option Value → Option (Bool × List Lease)
  unfolding safe_bool lookup parse_leases
  list_and_state d (some (text s)) =
      if contains key_state d
      then as_leases (safe_bool (state_value (lookup key_state d))) (parse_leases f l (some s))
      else none
  list_and_state d _ = none

  unfoldable pub read_answer : Option (Dict Text Value) → Option (Bool × List Lease)
  unfolding list_and_state
  read_answer none = none
  read_answer (some d) = list_and_state d (lookup key_list d)

  unfoldable pub ask : (Text → Option (Dict Text Value)) → Option Text → Option (Bool × List Lease)
  unfolding read_answer
  ask hook none = none
  ask hook (some []) = none
  ask hook (some (c ∷ request)) = read_answer (hook (c ∷ request))

  -- `_async_get_static_dhcp_snapshot`; `none` is `AsusRouterDataError`.
  unfoldable pub snapshot : (Text → Option (Dict Text Value)) → Option (Bool × List Lease)
  unfolding nvram ask
  snapshot hook = ask hook (nvram (names (key_state ∷ key_list ∷ [])))

  abbrev leases_of : Option (Bool × List Lease) → Option (List Lease)
  leases_of none = none
  leases_of (some (state, rs)) = some rs

  -- `async_get_static_dhcp_leases`
  unfoldable pub get_leases : (Text → Option (Dict Text Value)) → Option (List Lease)
  unfolding snapshot
  get_leases hook = leases_of (snapshot hook)
