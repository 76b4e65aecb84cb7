-- ===== src/Data.antt =====
-- asusrouter/modules/data.py: the kinds of data and the cached state of one of them.
pub mod Fetch
pub mod Sources
use asusrouter.Base.{ℕ, suc, ◌+◌, ◌-◌, ◌*◌, Bool, true, false, Option, none, some, if◌then◌else◌}
use asusrouter.Base.Int.{ℤ, pos, negsuc}
use asusrouter.Base.Dict.{Key}

pub data AsusData : Type 0 where
  aimesh aura boottime clients cpu ddns devicemap dsl firmware firmware_note flags gwlan : AsusData
  led network node_info openvpn openvpn_client openvpn_server parental_control ping : AsusData
  port_forwarding ports ram speedtest speedtest_result sysinfo system temperature : AsusData
  vpnc vpnc_clientlist wan wireguard wireguard_client wireguard_server wlan : AsusData

unfoldable pub AsusData-discrete : Discrete AsusData
AsusData-discrete = hlevel

instance abbrev pub data_key : Key AsusData
data_key = record { same = AsusData-discrete }

-- `AsusDataState`, for data of some type. The time is in microseconds from the first `datetime`, and
-- the event is whether it is set.
pub record DataState (A : Type 0) : Type 0 where
  pub content : Option A
  pub timestamp : ℕ
  pub active : Bool
  pub inactive_event : Bool
  pub invalidated : Bool
  pub generation : ℕ

-- A time so many seconds later; Python raises before the first `datetime`.
abbrev pub shift : ℕ → ℤ → ℕ
shift now (pos n) = now + n * 1000000
shift now (negsuc n) = now - suc n * 1000000

abbrev moved : ℕ → Option ℤ → ℕ
moved now none = now
moved now (some z) = shift now z

module _ {A : Type 0} where
  -- `AsusDataState(timestamp=t)`
  abbrev pub new_state : ℕ → DataState A
  new_state t = record {
    content = none;
    timestamp = t;
    active = false;
    inactive_event = false;
    invalidated = false;
    generation = 0;
  }

  abbrev pub invalidate : DataState A → DataState A
  invalidate s = record s { invalidated = true; generation = suc s.generation }

  abbrev pub start : DataState A → DataState A
  start s = record s { active = true; inactive_event = false }

  abbrev pub stop : DataState A → DataState A
  stop s = record s { active = false; inactive_event = true }

  -- `update`, at the time of its call.
  unfoldable pub update : ℕ → A → DataState A → DataState A
  update now a s = stop (record s { content = some a; invalidated = false; timestamp = now })

  unfoldable pub offset_time : ℕ → Option ℤ → DataState A → DataState A
  offset_time now offset s = if s.invalidated then s else record s { timestamp = moved now offset }
