-- ===== src/Examples/Clients.antt =====
-- The clients of asusrouter/modules/client.py at concrete descriptions.
use asusrouter.Base.{ℕ_discrete, refl, ℕ, ◌≡◌, true, false, Option, none, some, [], ◌∷◌, arith}
use asusrouter.Base.Int.{ℤ, pos}
use asusrouter.Base.Text.{Text, codes, split, text_key, Text-discrete}
use asusrouter.Base.Dict.{Dict}
use asusrouter.Tools.Converters.{Value, null, text}
use asusrouter.Clients.{connected_state, wlan_5g, unknown_mode, Wlan, ClientConnection, Client}
use asusrouter.Clients.Reading.{process_client_connection}
use asusrouter.Clients.Process.{process_client}
use asusrouter.Clients.Processed.{IsProcessed, process_client_lem}
use asusrouter.Clients.History.{IsSince, IsNear, settled, settled-IsSince}

abbrev no_floats : Text → Option ℤ
no_floats s = none

-- Floats are kept as they are.
abbrev any_float : Value → Option Value
any_float v = some v

abbrev said : Dict Text Value
said =
    (codes "name", text (codes "pc"))
    ∷ (codes "mac", text (codes "00:00:00:00:00:01"))
    ∷ (codes "isWL", text (codes "2"))
    ∷ (codes "ip", text (codes "10.0.0.2"))
    ∷ (codes "isOnline", text (codes "1"))
    ∷ (codes "wlConnectTime", text (codes "01:02:03"))
    ∷ []

-- The connection at the time 5000 seconds, and one read four seconds later.
abbrev radio : ℕ → Wlan Value
radio t = record {
  guest = some false;
  guest_id = null;
  rssi = none;
  since = some (pos t);
  rx_speed = none;
  tx_speed = none;
}

abbrev linked : ℕ → ClientConnection Value
linked t = record {
  kind = wlan_5g;
  ip_address = text (codes "10.0.0.2");
  ip_method = none;
  internet_state = none;
  internet_mode = unknown_mode;
  node = null;
  online = some true;
  aimesh = none;
  wlan = some (radio t);
}

abbrev pc : Client Value
pc = record {
  state = connected_state;
  description =
      some (record {
        name = text (codes "pc");
        mac = text (codes "00:00:00:00:00:01");
        vendor = null;
      });
  connection = some (linked 1277);
}

process_client-said : process_client no_floats any_float (pos 5000) false said none ≡ some pc
unfolding process_client Text-discrete ℕ_discrete split
process_client-said = refl

process_client_lem_example :
    (c : ClientConnection Value) × (process_client_connection no_floats any_float (pos 5000) said
      ≡ some c)
    × IsProcessed false none c pc
process_client_lem_example =
    process_client_lem no_floats any_float (pos 5000) false said none pc process_client-said

linked-IsSince : IsSince (pos 1277) (linked 1277)
linked-IsSince = (radio 1277, refl, refl)

linked-IsNear : IsNear (pos 1277) (linked 1281)
linked-IsNear = (pos 1281, (radio 1281, refl, refl), ground arith)

settled-IsSince_example :
    IsSince (pos 1277) (settled (linked 1277) (linked 1281 ∷ linked 1281 ∷ []))
settled-IsSince_example =
    settled-IsSince (pos 1277) (linked 1277) (linked 1281 ∷ linked 1281 ∷ []) linked-IsSince
      (linked-IsNear, (linked-IsNear, tt))
