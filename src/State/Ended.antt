-- ===== src/State/Ended.antt =====
-- The end of `async_set_state` in asusrouter/asusrouter.py: what is done with a state that was set. The
-- refresh of the data that it depends on is an argument, which leaves some store.
use asusrouter.Base.{ℕ, Bool, true, false, Option, none, some}
use asusrouter.Base.Int.{ℤ}
use asusrouter.Tools.Converters.{Value}
use asusrouter.Data.{AsusData}
use asusrouter.Data.Fetch.{Store, check_state}
use asusrouter.State.{
  AsusState, pc_rule, state_key, StateMap, DataContent, get_datatype, save_state,
}

-- What the last service call has left for the state.
pub record Pending : Type 0 where
  pub needed_time : Option ℤ
  pub last_id : Option ℤ

-- How a state that was set is kept.
pub data Keeping : Type 0 where
  refreshed not_saved saved : Keeping

abbrev pub keeping_of : AsusState → Option AsusData → Keeping
keeping_of state (some AsusData.vpnc) = refreshed
keeping_of state (some AsusData.aura) = refreshed
keeping_of pc_rule key = not_saved
keeping_of state key = saved

-- `_check_state`, of no kind of data too.
abbrev pub check_for : ℕ → Option AsusData → Store DataContent → Store DataContent
check_for expired none store = store
check_for expired (some key) store = check_state expired key store

abbrev pub without_pending : Option (Store DataContent) → Option (Store DataContent × Pending)
without_pending none = none
without_pending (some store) = some (store, record { needed_time = none; last_id = none })

module _ (expired now : ℕ) (refresh : Store DataContent → Store DataContent) where
  abbrev pub keep :
      Keeping
      → AsusState
      → Value
      → StateMap
      → Store DataContent
      → Pending
      → Option (Store DataContent × Pending)
  keep refreshed state v m store p = some (refresh store, p)
  keep not_saved state v m store p = some (store, p)
  keep saved state v m store p = without_pending (
      save_state now state v (check_for expired (get_datatype state m) store) p.needed_time
        p.last_id m)

  -- By whether the state was set; `none` is an error.
  unfoldable pub set_done :
      Bool
      → AsusState
      → Value
      → StateMap
      → Store DataContent
      → Pending
      → Option (Store DataContent × Pending)
  unfolding get_datatype save_state
  set_done false state v m store p = some (store, p)
  set_done true state v m store p = keep (keeping_of state (get_datatype state m)) state v m store p
