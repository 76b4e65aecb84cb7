-- ===== src/StaticDhcp/Update.antt =====
-- asusrouter/asusrouter.py: the methods that set and remove static leases, between the ends of their lock.
pub mod Kept
pub mod Methods
pub mod Removal
pub mod Parsed
use asusrouter.Base.{
  ℕ, Bool, true, false, not, ◌&&◌, ◌||◌, Option, none, some, List, [], ◌∷◌, ◌++◌, any, length, ◌==◌,
  if◌then◌else◌,
}
use asusrouter.Base.Int.{ℤ, pos}
use asusrouter.Base.Dict.{Dict, lookup, contains}
use asusrouter.Base.Text.{Text, codes, same_text, join, text_key}
use asusrouter.Tools.Converters.{Value, null, bool, int, text, clean_string, safe_bool}
use asusrouter.Tools.Identifiers.Ip.{Library}
use asusrouter.Service.{ServiceResult, ServiceArguments, call_service}
use asusrouter.StaticDhcp.Snapshot.{key_list, key_state, snapshot}
use asusrouter.StaticDhcp.{
  Layout, legacy, modern, Lease, lease_of, is_legacy, is_empty, normalize_mac, normalize_lease,
  parse_leases, Compiled, compile,
}

-- How a method ends: with the request that it has sent to the service, if any, and its value;
-- with `AsusRouterDataError`, also after a request; with `ValueError`; or with the exception of the
-- service after a request.
pub data Ending {ℓ} (A : Type ℓ) : Type ℓ where
  done : Option Compiled → A → Ending A
  data_error : Option Compiled → Ending A
  value_error : Ending A
  service_error : Compiled → Ending A

-- `next((current for current in leases if ...), None)`
abbrev pub found : Text → Lease → Option Text → Option (Option Lease) → Option (Option Lease)
found m r none rest = none
found m r (some n) rest = if same_text n m then some (some r) else rest

-- One step of the comprehension that leaves out a MAC address.
abbrev pub left_out : Text → Lease → Option Text → Option (List Lease) → Option (List Lease)
left_out m r (some n) (some rs) = some (if same_text n m then rs else r ∷ rs)
left_out m r _ _ = none

-- The layout of the lease that is set.
abbrev pub layout_for : Option Lease → List Lease → Layout → Layout
layout_for (some existing) rs own = existing.layout
layout_for none rs own = if any (λ (r : Lease). is_legacy r.layout) rs then legacy else own

abbrev pub optional_text : Option Text → Text
optional_text none = []
optional_text (some s) = s

abbrev pub filled : List Lease → Bool
filled [] = false
filled (r ∷ rs) = true

abbrev pub ended : Compiled → Option Bool → Ending Bool
ended c none = service_error c
ended c (some ok) = done (some c) ok

abbrev pub sent_as : (Compiled → Option Bool) → Option Compiled → Ending Bool
sent_as run none = value_error
sent_as run (some c) = ended c (run c)

-- What a removal makes of the answer of the service.
abbrev pub removed : List Lease → Ending Bool → Ending (List Lease)
removed rs (done sent ok) = if ok then done sent rs else data_error sent
removed rs (data_error sent) = data_error sent
removed rs value_error = value_error
removed rs (service_error c) = service_error c

module _ (f : Text → Option ℤ) where
  unfoldable pub find_mac : Text → List Lease → Option (Option Lease)
  unfolding normalize_mac
  find_mac m [] = some none
  find_mac m (r ∷ rs) = found m r (normalize_mac f r.mac) (find_mac m rs)

  unfoldable pub without_mac : Text → List Lease → Option (List Lease)
  unfolding normalize_mac
  without_mac m [] = some []
  without_mac m (r ∷ rs) = left_out m r (normalize_mac f r.mac) (without_mac m rs)

abbrev pub state_number : Bool → ℤ
state_number false = pos 0
state_number true = pos 1

-- The arguments of the request.
abbrev pub request_arguments : Compiled → ServiceArguments
request_arguments c = (key_list, text c.list_text) ∷ (key_state, int (state_number c.enabled)) ∷ []

abbrev pub success_of : Option ServiceResult → Option Bool
success_of none = none
success_of (some r) = some r.success

-- `async_run_service` of the service that applies the leases, where the callback answers what is sent;
-- `none` is the exception of the service.
unfoldable pub run_service :
    (Text → Option ℤ) → (ServiceArguments → ServiceArguments) → Compiled → Option Bool
unfolding call_service
run_service f callback c =
    success_of
      (call_service f callback (some (codes "restart_dnsmasq")) (request_arguments c) true true)

-- `async_api_hook` is `hook`, where `none` is an answer that is no dict, and `run` is
-- `async_run_service` of the service that applies the leases.
module _ (f : Text → Option ℤ) (l : Library) where
  -- `async_apply_static_dhcp_leases`
  unfoldable pub apply_leases : (Compiled → Option Bool) → List Lease → Option Bool → Ending Bool
  unfolding compile
  apply_leases run rs enabled = sent_as run (compile f l rs enabled)

  -- The rest of the method once the list and the lease are there.
  unfoldable pub put_lease :
      (Compiled → Option Bool) → Option Lease → Option (List Lease) → Ending Bool
  unfolding apply_leases
  put_lease run (some r) (some rs) = apply_leases run (rs ++ (r ∷ [])) (some true)
  put_lease run _ _ = value_error

  unfoldable pub choose_lease :
      (Compiled → Option Bool) → List Lease → Lease → Option (Option Lease) → Ending Bool
  unfolding put_lease normalize_lease without_mac
  choose_lease run current r none = value_error
  choose_lease run current r (some existing) =
      put_lease run
        (normalize_lease f l
          (lease_of r.mac r.ip r.dns r.hostname (layout_for existing current r.layout)))
        (without_mac f r.mac current)

  unfoldable pub set_normal : (Compiled → Option Bool) → List Lease → Option Lease → Ending Bool
  unfolding choose_lease find_mac
  set_normal run current none = value_error
  set_normal run current (some r) = choose_lease run current r (find_mac f r.mac current)

  -- `async_set_static_dhcp_lease` after the snapshot.
  unfoldable pub set_in :
      (Compiled → Option Bool) → Lease → Option (Bool × List Lease) → Ending Bool
  unfolding set_normal normalize_lease
  set_in run asked none = data_error none
  set_in run asked (some (state, current)) = set_normal run current (normalize_lease f l asked)

  -- `async_set_static_dhcp_lease`
  unfoldable pub set_lease :
      (Text → Option (Dict Text Value))
      → (Compiled → Option Bool)
      → Text
      → Text
      → Option Text
      → Option Text
      → Ending Bool
  unfolding snapshot set_in
  set_lease hook run mac ip hostname dns =
      set_in run (lease_of mac ip (optional_text dns) (optional_text hostname) modern)
        (snapshot f l hook)

  unfoldable pub remove_from :
      (Compiled → Option Bool)
      → Bool
      → Bool
      → List Lease
      → Option (List Lease)
      → Ending (List Lease)
  unfolding apply_leases
  remove_from run apply state current none = value_error
  remove_from run apply state current (some rs) =
      if apply && not (length rs == length current)
      then removed rs (apply_leases run rs (some (state && filled rs)))
      else done none rs

  unfoldable pub remove_normal :
      (Compiled → Option Bool) → Bool → Bool → List Lease → Option Text → Ending (List Lease)
  unfolding remove_from without_mac
  remove_normal run apply state current none = value_error
  remove_normal run apply state current (some m) =
      remove_from run apply state current (without_mac f m current)

  unfoldable pub remove_in :
      (Compiled → Option Bool) → Text → Bool → Option (Bool × List Lease) → Ending (List Lease)
  unfolding remove_normal normalize_mac
  remove_in run mac apply none = data_error none
  remove_in run mac apply (some (state, current)) =
      remove_normal run apply state current (normalize_mac f mac)

  -- `async_remove_static_dhcp_lease`
  unfoldable pub remove_lease :
      (Text → Option (Dict Text Value))
      → (Compiled → Option Bool)
      → Text
      → Bool
      → Ending (List Lease)
  unfolding snapshot remove_in
  remove_lease hook run mac apply = remove_in run mac apply (snapshot f l hook)
