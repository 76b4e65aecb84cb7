-- ===== src/Examples/StaticDhcp.antt =====
-- Static leases of asusrouter/modules/static_dhcp.py at concrete inputs, with a library of two addresses.
use asusrouter.Base.{
  ◌≡◌, ◌<◌, ◌⊎◌, refl, Bool, true, false, not, ◌&&◌, Option, none, some, [], ◌∷◌, map, length, ◌==◌,
  if◌then◌else◌, ℕ_discrete, arith,
}
use asusrouter.Base.Int.{ℤ}
use asusrouter.Base.Dict.{Dict, insert}
use asusrouter.Base.Text.{Text, codes, same_text, strip, join, split, replace, Text-discrete}
use asusrouter.Tools.Converters.{Value, text}
use asusrouter.Tools.Identifiers.Ip.{Library}
use asusrouter.Service.{ServiceArguments}
use asusrouter.StaticDhcp.{
  legacy, modern, Lease, lease_of, Compiled, normalize_mac, normalize_ipv4, normalize_lease,
  normalize_all, parse_leases, serialize, compile,
}
use asusrouter.StaticDhcp.Normal.{normalize_lease-IsNormal}
use asusrouter.StaticDhcp.Distinct.{Distinct, compile_lem}
use asusrouter.StaticDhcp.RoundTrip.{IsReadable, parse_leases-serialize}
use asusrouter.StaticDhcp.RoundTrip.Rows.{reread}
use asusrouter.StaticDhcp.Update.{done, value_error, sent_as, run_service, set_lease, remove_lease}
use asusrouter.StaticDhcp.Snapshot.{snapshot}
use asusrouter.StaticDhcp.Update.Kept.{kept}
use asusrouter.StaticDhcp.Update.Methods.{Accepted, chosen, set_lease_lem}
use asusrouter.StaticDhcp.Update.Removal.{removal, removal_ending, remove_lease_lem}

abbrev no_floats : Text → Option ℤ
no_floats s = none

abbrev shown : Bool → Text
shown true = codes "192.168.1.2"
shown false = codes "192.168.1.3"

abbrev of_text : Text → Option Bool
of_text s =
    if same_text s (shown true)
    then some true
    else if same_text s (shown false)
    then some false
    else none

of_text-shown : (a : Bool) → of_text (strip (shown a)) ≡ some a
unfolding strip
of_text-shown true = refl
of_text-shown false = refl

shown-length : (a : Bool) → 0 < length (shown a)
shown-length true = omega arith
shown-length false = omega arith

abbrev addresses : Library
addresses = record {
  Address = Bool;
  of_text = of_text;
  of_int = λ z. none;
  of_bytes = λ s. none;
  version = λ a. 4;
  shown = shown;
  of_text-shown = of_text-shown;
  shown-length = shown-length;
}

-- A lease of each layout.
abbrev phone : Lease
phone = lease_of (codes "AA:BB:CC:DD:EE:01") (shown true) [] (codes "phone") modern

abbrev printer : Lease
printer = lease_of (codes "AA:BB:CC:DD:EE:02") (shown false) [] (codes "printer") legacy

phone-normal : normalize_lease no_floats addresses phone ≡ some phone
unfolding normalize_lease join
phone-normal = refl

printer-normal : normalize_lease no_floats addresses printer ≡ some printer
unfolding normalize_lease join
printer-normal = refl

phone-IsReadable : IsReadable addresses phone
phone-IsReadable = record {
  normal = (normalize_lease-IsNormal no_floats addresses phone phone phone-normal).0;
  no_address = refl;
}

printer-IsReadable : IsReadable addresses printer
unfolding normalize_ipv4 strip
printer-IsReadable = record {
  normal = (normalize_lease-IsNormal no_floats addresses printer printer printer-normal).0;
  no_address = refl;
}

parse_leases-serialize_example :
    parse_leases no_floats addresses (some (serialize (phone ∷ printer ∷ [])))
    ≡ some (map reread (phone ∷ printer ∷ []))
parse_leases-serialize_example =
    parse_leases-serialize no_floats addresses (phone ∷ printer ∷ [])
      (phone-IsReadable, (printer-IsReadable, tt))

both-normal : normalize_all no_floats addresses (phone ∷ printer ∷ []) ≡ some (phone ∷ printer ∷ [])
unfolding normalize_all join
both-normal = refl

compile_lem_example :
    (Distinct (phone ∷ printer ∷ [])
      × (compile no_floats addresses (phone ∷ printer ∷ []) none
          ≡ some (record { list_text = serialize (phone ∷ printer ∷ []); enabled = true })))
    ⊎ ((¬ Distinct (phone ∷ printer ∷ []))
        × (compile no_floats addresses (phone ∷ printer ∷ []) none ≡ none))
compile_lem_example =
    compile_lem no_floats addresses (phone ∷ printer ∷ []) (phone ∷ printer ∷ []) none both-normal

-- The answer of a router that has the lease of the printer.
abbrev hook : Text → Option (Dict Text Value)
hook request = some (
    (codes "dhcp_static_x", text (codes "1"))
    ∷ (codes "dhcp_staticlist", text (codes "<AA:BB:CC:DD:EE:02>192.168.1.3>printer"))
    ∷ [])

-- A router that runs the service and says what it changed.
abbrev answering : ServiceArguments → ServiceArguments
answering sent =
    (codes "run_service", text (codes "restart_dnsmasq")) ∷ (codes "modify", text (codes "1")) ∷ []

abbrev grant : Compiled → Option Bool
grant = run_service no_floats answering

hook-snapshot : snapshot no_floats addresses hook ≡ some (true, printer ∷ [])
unfolding snapshot split replace Text-discrete ℕ_discrete normalize_lease join
hook-snapshot = refl

set_lease_lem_example :
    (Accepted (printer ∷ []) phone
      × (set_lease no_floats addresses hook grant
            (codes "AA:BB:CC:DD:EE:01")
            (shown true)
            (some (codes "phone"))
            none
          ≡ sent_as grant (
              some (record {
                list_text = serialize (printer ∷ chosen (printer ∷ []) phone ∷ []);
                enabled = true;
              }))))
    ⊎ ((¬ Accepted (printer ∷ []) phone)
        × (set_lease no_floats addresses hook grant
              (codes "AA:BB:CC:DD:EE:01")
              (shown true)
              (some (codes "phone"))
              none
            ≡ value_error))
set_lease_lem_example =
    set_lease_lem no_floats addresses hook grant (codes "AA:BB:CC:DD:EE:01") (shown true)
      (some (codes "phone")) none true (printer ∷ []) phone hook-snapshot phone-normal

printer-mac : normalize_mac no_floats (codes "aabbccddee02") ≡ some (codes "AA:BB:CC:DD:EE:02")
unfolding normalize_mac join
printer-mac = refl

remove_lease_lem_example :
    (((true
          && not
              (length (kept (codes "AA:BB:CC:DD:EE:02") (printer ∷ [])) == length (printer ∷ [])))
        ≡ false)
      × (remove_lease no_floats addresses hook grant (codes "aabbccddee02") true ≡ done none []))
    ⊎ (((true
            && not
                (length (kept (codes "AA:BB:CC:DD:EE:02") (printer ∷ [])) == length (printer ∷ [])))
          ≡ true)
        × ((Distinct []
              × (remove_lease no_floats addresses hook grant (codes "aabbccddee02") true
                  ≡ removal_ending (removal true []) [] (grant (removal true []))))
            ⊎ ((¬ Distinct [])
                × (remove_lease no_floats addresses hook grant (codes "aabbccddee02") true
                    ≡ value_error))))
remove_lease_lem_example =
    remove_lease_lem no_floats addresses hook grant (codes "aabbccddee02")
      (codes "AA:BB:CC:DD:EE:02") true true (printer ∷ []) hook-snapshot printer-mac

grant-removal : grant (removal true []) ≡ some true
unfolding run_service insert Text-discrete ℕ_discrete
grant-removal = refl
