-- ===== src/StaticDhcp.antt =====
-- asusrouter/modules/static_dhcp.py: static leases, between the list of the router and records. The
-- fields of a lease are texts.
pub mod Distinct
pub mod Normal
pub mod RoundTrip
pub mod Snapshot
pub mod Update
use asusrouter.Base.{
  ℕ, zero, suc, Bool, true, false, not, ◌&&◌, ◌||◌, Option, none, some, List, [], ◌∷◌, ◌++◌, map,
  any, length, ◌==◌, if◌then◌else◌,
}
use asusrouter.Base.Int.{ℤ}
use asusrouter.Base.Text.{Text, codes, same_text, has_substring, split, join, replace}
use asusrouter.Tools.Converters.{text}
use asusrouter.Tools.Identifiers.Ip
use asusrouter.Tools.Identifiers.Ip.{Library, to_addr}
use asusrouter.Tools.Identifiers.Mac.{
  MacAddress, value, clean, from_hex, hex, upper_digit, from_value, as_asus,
}

-- `LAYOUT_LEGACY`, `LAYOUT_MODERN`, and any other text.
pub data Layout : Type 0 where
  legacy modern unknown_layout : Layout

-- `StaticDHCPLease`
pub record Lease : Type 0 where
  pub mac : Text
  pub ip : Text
  pub dns : Text
  pub hostname : Text
  pub layout : Layout

abbrev pub is_empty : Text → Bool
is_empty [] = true
is_empty (c ∷ s) = false

abbrev pub asus_text : Option MacAddress → Option Text
unfolding as_asus
asus_text none = none
asus_text (some m) = some (as_asus m)

-- `normalize_static_dhcp_mac`; here and below `none` is `ValueError`.
unfoldable pub normalize_mac : (Text → Option ℤ) → Text → Option Text
unfolding clean from_hex hex from_value asus_text
normalize_mac float_int s =
    if length (clean s) == 12
    then some (hex upper_digit (from_hex (clean s)))
    else asus_text (from_value float_int (value (text s)))

-- `_check_text`, as whether the text passes.
abbrev pub passes : Text → Bool
passes s = not (
    has_substring (codes "<") s
    || has_substring (codes ">") s
    || has_substring (codes "&#60") s
    || has_substring (codes "&#62") s)

abbrev pub is_legacy : Layout → Bool
is_legacy legacy = true
is_legacy _ = false

abbrev pub is_known : Layout → Bool
is_known unknown_layout = false
is_known _ = true

-- The checks after the addresses.
unfoldable pub finish_lease : Text → Text → Text → Text → Layout → Option Lease
finish_lease m i d h layout =
    if not (is_known layout)
    then none
    else if is_legacy layout && not (is_empty d)
    then none
    else if passes m && passes i && passes d && passes h
    then some (record { mac = m; ip = i; dns = d; hostname = h; layout = layout })
    else none

abbrev pub prepend : Option Lease → Option (List Lease) → Option (List Lease)
prepend (some r) (some rs) = some (r ∷ rs)
prepend _ _ = none

unfoldable pub with_parts : Option Text → Option Text → Option Text → Text → Layout → Option Lease
unfolding finish_lease
with_parts (some m) (some i) (some d) h layout = finish_lease m i d h layout
with_parts _ _ _ h layout = none

abbrev pub lease_of : Text → Text → Text → Text → Layout → Lease
lease_of m i d h layout = record { mac = m; ip = i; dns = d; hostname = h; layout = layout }

-- The third of three columns: a DNS server, or else the host name of a legacy row.
abbrev pub third_column : Text → Text → Text → Option Text → Lease
third_column m i third (some dns) = lease_of m i dns [] modern
third_column m i third none = lease_of m i [] third legacy

module _ (l : Library) where
  abbrev pub ipv4_text : Option (l.Address) → Option Text
  ipv4_text none = none
  ipv4_text (some a) = if l.version a == 4 then some (l.shown a) else none

  -- `_normalize_ipv4` of a text that is not empty.
  unfoldable pub normalize_ipv4 : Text → Option Text
  unfolding to_addr
  normalize_ipv4 [] = none
  normalize_ipv4 (c ∷ s) = ipv4_text (to_addr l (Ip.text (c ∷ s)))

  -- `_normalize_ipv4` with `allow_empty`.
  unfoldable pub normalize_dns : Text → Option Text
  unfolding normalize_ipv4
  normalize_dns [] = some []
  normalize_dns (c ∷ s) = normalize_ipv4 (c ∷ s)

  -- `_parse_row`, on the columns, up to the last call.
  unfoldable pub columns_lease : List Text → Option Lease
  unfolding normalize_ipv4
  columns_lease ((a ∷ m) ∷ (b ∷ i) ∷ []) = some (lease_of (a ∷ m) (b ∷ i) [] [] modern)
  columns_lease ((a ∷ m) ∷ (b ∷ i) ∷ [] ∷ []) = some (lease_of (a ∷ m) (b ∷ i) [] [] modern)
  columns_lease ((a ∷ m) ∷ (b ∷ i) ∷ (c ∷ third) ∷ []) =
      some (third_column (a ∷ m) (b ∷ i) (c ∷ third) (normalize_ipv4 (c ∷ third)))
  columns_lease ((a ∷ m) ∷ (b ∷ i) ∷ dns ∷ hostname ∷ []) =
      some (lease_of (a ∷ m) (b ∷ i) dns hostname modern)
  columns_lease _ = none

-- The escaped delimiters undone.
abbrev pub decode : Text → Text
decode s = replace (codes "&#62") (codes ">") (replace (codes "&#60") (codes "<") s)

module _ (float_int : Text → Option ℤ) (l : Library) where
  -- `normalize_static_dhcp_lease`
  unfoldable pub normalize_lease : Lease → Option Lease
  unfolding normalize_mac normalize_ipv4 normalize_dns with_parts
  normalize_lease r =
      with_parts (normalize_mac float_int r.mac) (normalize_ipv4 l r.ip) (normalize_dns l r.dns)
        r.hostname r.layout

  abbrev pub then_normalize : Option Lease → Option Lease
  then_normalize none = none
  then_normalize (some r) = normalize_lease r

  unfoldable pub parse_row : Text → Option Lease
  unfolding columns_lease
  parse_row row = then_normalize (columns_lease l (split b'>' row))

  -- The comprehension over the rows that are not empty.
  unfoldable pub parse_rows : List Text → Option (List Lease)
  unfolding parse_row
  parse_rows [] = some []
  parse_rows ([] ∷ rows) = parse_rows rows
  parse_rows ((c ∷ row) ∷ rows) = prepend (parse_row (c ∷ row)) (parse_rows rows)

  -- `parse_static_dhcp_leases`, of `None` or a text.
  unfoldable pub parse_leases : Option Text → Option (List Lease)
  unfolding parse_rows
  parse_leases none = some []
  parse_leases (some []) = some []
  parse_leases (some (c ∷ s)) = parse_rows (split b'<' (decode (c ∷ s)))

-- The fields that `_serialize_lease` joins.
unfoldable pub fields : Lease → List Text
fields r =
    r.mac
    ∷ r.ip
    ∷ (if is_legacy r.layout
        then (if is_empty r.hostname then [] else r.hostname ∷ [])
        else if is_empty r.hostname
        then (if is_empty r.dns then [] else r.dns ∷ [])
        else r.dns ∷ r.hostname ∷ [])

-- `_serialize_lease`
unfoldable pub serialize_lease : Lease → Text
unfolding fields
serialize_lease r = b'<' ∷ join (codes ">") (fields r)

-- The text of the whole list.
unfoldable pub serialize : List Lease → Text
unfolding serialize_lease
serialize [] = []
serialize (r ∷ rs) = serialize_lease r ++ serialize rs

abbrev pub holds : Text → List Text → Bool
holds s = any (same_text s)

-- The loop over the normalized leases, with the addresses seen so far; `false` is `ValueError`.
unfoldable pub is_distinct : List Text → List Text → List Lease → Bool
is_distinct macs ips [] = true
is_distinct macs ips (r ∷ rs) =
    not (holds r.mac macs) && not (holds r.ip ips) && is_distinct (r.mac ∷ macs) (r.ip ∷ ips) rs

-- `bool(normalized) if enabled is None else enabled`
abbrev pub state_of : Option Bool → List Lease → Bool
state_of (some b) rs = b
state_of none [] = false
state_of none (r ∷ rs) = true

-- The two arguments of the request.
pub record Compiled : Type 0 where
  pub list_text : Text
  pub enabled : Bool

module _ (float_int : Text → Option ℤ) (l : Library) where
  unfoldable pub normalize_all : List Lease → Option (List Lease)
  unfolding normalize_lease
  normalize_all [] = some []
  normalize_all (r ∷ rs) = prepend (normalize_lease float_int l r) (normalize_all rs)

  compile_normal : Option Bool → Option (List Lease) → Option Compiled
  unfolding is_distinct serialize
  compile_normal enabled none = none
  compile_normal enabled (some rs) =
      if is_distinct [] [] rs
      then some (record { list_text = serialize rs; enabled = state_of enabled rs })
      else none

  -- `compile_static_dhcp_leases`
  unfoldable pub compile : List Lease → Option Bool → Option Compiled
  unfolding normalize_all compile_normal
  compile rs enabled = compile_normal enabled (normalize_all rs)
