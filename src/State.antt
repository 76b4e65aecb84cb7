-- ===== src/State.antt =====
-- asusrouter/modules/state.py, with `update_state` of asusrouter/modules/data.py: the states that may
-- be set, the data that each belongs to, and how a state that was set is saved.
pub mod Saved
pub mod Ended
pub mod Stale
pub mod Steps
use mathlib.Core.Option.{map as map_option}
use native.Mathlib.Decide.{ℕ_discrete}
use asusrouter.Base.{
  ℕ, Bool, true, false, ◌&&◌, ◌||◌, Option, none, some, List, [], ◌∷◌, if◌then◌else◌,
}
use asusrouter.Base.Int.{ℤ, ℤ-discrete}
use asusrouter.Base.Dict.{Key, Dict, lookup, insert, contains}
use asusrouter.Base.Text.{Text, codes, text_key, Text-discrete}
use asusrouter.Tools.Converters.{Value, bool, safe_bool}
use asusrouter.Data.{AsusData, DataState, data_key, offset_time}
use asusrouter.Data.Fetch.{Store, on, check_state}

-- `AsusState`
pub data AsusState : Type 0 where
  no_state aura block_all connection ddns led openvpn_client openvpn_server : AsusState
  parental_control pc_rule port_forwarding system vpnc wireguard_client : AsusState
  wireguard_server wlan : AsusState

unfoldable pub AsusState-discrete : Discrete AsusState
AsusState-discrete = hlevel

instance abbrev pub state_key : Key AsusState
state_key = record { same = AsusState-discrete }

-- A map from states to data; a state that is not in it, or to `None`, has none.
abbrev pub StateMap : Type 0
StateMap = Dict AsusState AsusData

-- `AsusStateMap`, without the states that it maps to `None`.
abbrev pub default_states : StateMap
default_states =
    (aura, AsusData.aura)
    ∷ (block_all, AsusData.parental_control)
    ∷ (led, AsusData.led)
    ∷ (openvpn_client, AsusData.openvpn_client)
    ∷ (openvpn_server, AsusData.openvpn_server)
    ∷ (parental_control, AsusData.parental_control)
    ∷ (pc_rule, AsusData.parental_control)
    ∷ (port_forwarding, AsusData.port_forwarding)
    ∷ (system, AsusData.system)
    ∷ (vpnc, AsusData.vpnc)
    ∷ (wireguard_client, AsusData.wireguard_client)
    ∷ (wireguard_server, AsusData.wireguard_server)
    ∷ (wlan, AsusData.wlan)
    ∷ []

-- `add_conditional_state`, on a given map.
unfoldable pub add_conditional_state : AsusState → AsusData → StateMap → StateMap
add_conditional_state state key m = insert state key m

-- `get_datatype`, by the type of the state.
unfoldable pub get_datatype : AsusState → StateMap → Option AsusData
get_datatype state m = lookup state m

-- A key of a data dict, and a value of it: a dict with text keys, or anything else.
pub data Name : Type 0 where
  word : Text → Name
  number : ℤ → Name

unfoldable pub Name-discrete : Discrete Name
Name-discrete = hlevel ℕ_discrete

instance abbrev pub name_key : Key Name
name_key = record { same = Name-discrete }

pub data Item : Type 0 where
  plain : Value → Item
  fields : Dict Text Value → Item

-- The data of a state: a dict or not.
pub data DataContent : Type 0 where
  not_a_dict : Value → DataContent
  dict_of : Dict Name Item → DataContent

-- `convert_state`
abbrev pub is_yes : Option Bool → Bool
is_yes (some b) = b
is_yes none = false

unfoldable pub convert_state : Value → Bool
unfolding safe_bool
convert_state v = is_yes (safe_bool v)

abbrev pub dict_in : Option DataContent → Dict Name Item
dict_in (some (dict_of d)) = d
dict_in _ = []

-- `setdefault(last_id, {})["state"] = state`; `none` is the error of an item that is no dict.
abbrev pub set_field : Bool → Option Item → Option Item
set_field b none = some (fields ((codes "state", bool b) ∷ []))
set_field b (some (fields d)) = some (fields (insert (codes "state") (bool b) d))
set_field b (some (plain v)) = none

-- `update_state`, on the data; `none` is an error.
unfoldable pub update_state : Value → Option ℤ → Text → Option DataContent → Option DataContent
unfolding convert_state
update_state state (some i) key content =
    map_option (λ item. dict_of (insert (number i) item (dict_in content)))
      (set_field (convert_state state) (lookup (number i) (dict_in content)))
update_state state none key content =
    some (dict_of (insert (word key) (plain (bool (convert_state state))) (dict_in content)))

-- The key that a state is saved under.
abbrev pub key_of : AsusState → Text
key_of block_all = codes "block_all"
key_of _ = codes "state"

-- `update_state` and `offset_time` of one state.
unfoldable pub saved_in :
    ℕ
    → AsusState
    → Value
    → Option ℤ
    → Option ℤ
    → DataState DataContent
    → Option (DataState DataContent)
unfolding update_state offset_time
saved_in now state v needed last_id s =
    map_option (λ c. offset_time now needed (record s { content = some c }))
      (update_state v last_id (key_of state) s.content)

abbrev pub put_back :
    AsusData → Store DataContent → Option (DataState DataContent) → Option (Store DataContent)
put_back key store none = none
put_back key store (some s) = some (insert key s store)

abbrev pub save_in :
    (DataState DataContent → Option (DataState DataContent))
    → AsusData
    → Store DataContent
    → Option (DataState DataContent)
    → Option (Store DataContent)
save_in f key store none = some store
save_in f key store (some s) = put_back key store (f s)

-- `save_state`, at a time, of a state of some type and value.
unfoldable pub save_state :
    ℕ
    → AsusState
    → Value
    → Store DataContent
    → Option ℤ
    → Option ℤ
    → StateMap
    → Option (Store DataContent)
unfolding saved_in get_datatype
save_state now state v store needed last_id m = elim (get_datatype state m) [
  | none ↦ some store
  | some key ↦ save_in (saved_in now state v needed last_id) key store (lookup key store)
]
