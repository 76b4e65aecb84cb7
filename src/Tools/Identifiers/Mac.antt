-- ===== src/Tools/Identifiers/Mac.antt =====
-- asusrouter/tools/identifiers/mac.py: the class `MacAddress`.
pub mod Number
pub mod Invariant
pub mod Print
pub mod Local
use Prim.Native.Nat.{bit_and, bit_or, ◌^◌}
use asusrouter.Base.{
  ℕ, zero, suc, ◌+◌, ◌-◌, ◌*◌, ◌/◌, ◌%◌, Bool, true, false, ◌&&◌, ◌||◌, Option, none, some, List,
  [], ◌∷◌, map, length, leb, ltb, ◌==◌, if◌then◌else◌,
}
use asusrouter.Base.Int.{ℤ, pos, negsuc}
use asusrouter.Base.Text.{Text, codes, join}
use asusrouter.Tools.Converters.{Value, null, bool, int, text, safe_int}

-- `MacAddress`: its bytes.
pub record MacAddress : Type 0 where
  pub octets : List ℕ

-- What an address may be made from: an address, bytes, or another value.
pub data Source : Type 0 where
  address : MacAddress → Source
  bytes : List ℕ → Source
  value : Value → Source

abbrev pub length_bytes : ℕ
length_bytes = 6

abbrev pub length_str : ℕ
length_str = 12

-- `int.to_bytes(v, n, "big")`
unfoldable pub big_endian : ℕ → ℕ → List ℕ
big_endian zero v = []
big_endian (suc n) v = (v / 256 ^ n) % 256 ∷ big_endian n v

-- `int.from_bytes(s, "big")`
unfoldable pub from_bytes : ℕ → List ℕ → ℕ
from_bytes acc [] = acc
from_bytes acc (b ∷ s) = from_bytes (acc * 256 + b) s

abbrev pub is_lower_hex : ℕ → Bool
is_lower_hex c = leb b'a' c && leb c b'f'

abbrev pub is_upper_hex : ℕ → Bool
is_upper_hex c = leb b'A' c && leb c b'F'

-- The characters that `MAC_CLEAN_RE` keeps.
abbrev pub is_hex_digit : ℕ → Bool
is_hex_digit c = (leb b'0' c && leb c b'9') || is_lower_hex c || is_upper_hex c

-- `MAC_CLEAN_RE.sub("", s)`
unfoldable pub clean : Text → Text
clean [] = []
clean (c ∷ s) = if is_hex_digit c then c ∷ clean s else clean s

-- The value of a hexadecimal digit.
abbrev pub hex_value : ℕ → ℕ
hex_value c =
    if is_lower_hex c then c - b'a' + 10 else if is_upper_hex c then c - b'A' + 10 else c - b'0'

-- `bytes.fromhex(s)`, on an even number of digits.
unfoldable pub from_hex : Text → List ℕ
from_hex (a ∷ b ∷ s) = (hex_value a * 16 + hex_value b) ∷ from_hex s
from_hex _ = []

-- The digit of `bytes.hex`, and the upper case of it.
abbrev pub lower_digit : ℕ → ℕ
lower_digit n = if ltb n 10 then b'0' + n else b'a' + (n - 10)

abbrev pub upper_digit : ℕ → ℕ
upper_digit n = if ltb n 10 then b'0' + n else b'A' + (n - 10)

-- `s.hex(":")`, with its digits.
abbrev pub hex_pair : (ℕ → ℕ) → ℕ → Text
hex_pair digit b = digit (b / 16) ∷ digit (b % 16) ∷ []

unfoldable pub hex : (ℕ → ℕ) → List ℕ → Text
hex digit s = join (codes ":") (map (hex_pair digit) s)

-- Six bytes; `none` is `ValueError`.
abbrev pub six : List ℕ → Option (List ℕ)
six s = if length s == length_bytes then some s else none

abbrev pub int_bytes : ℤ → Option (List ℕ)
int_bytes (pos v) = if leb (2 ^ 48) v then none else some (big_endian 6 v)
int_bytes (negsuc n) = none

-- The part for texts.
unfoldable pub text_bytes : Value → Option (List ℕ)
unfolding clean from_hex
text_bytes (text s) = if length (clean s) == length_str then some (from_hex (clean s)) else none
text_bytes _ = none

abbrev pub number_or_text : Option ℤ → Value → Option (List ℕ)
number_or_text (some z) v = int_bytes z
number_or_text none v = text_bytes v

abbrev pub as_address : Option (List ℕ) → Option MacAddress
as_address none = none
as_address (some s) = some (record { octets = s })

-- `cls(parsed)`: the length of the bytes is checked once more.
abbrev pub make : Option (List ℕ) → Option MacAddress
make none = none
make (some s) = as_address (six s)

module _ (float_int : Text → Option ℤ) where
  -- `_to_bytes`
  unfoldable pub to_octets : Source → Option (List ℕ)
  unfolding safe_int big_endian text_bytes
  to_octets (address m) = some m.octets
  to_octets (bytes s) = six s
  to_octets (value v) = number_or_text (safe_int float_int v none) v

  -- `from_value`
  unfoldable pub from_value : Source → Option MacAddress
  unfolding to_octets
  from_value (address m) = some m
  from_value source = make (to_octets source)

-- `as_asus`
unfoldable pub as_asus : MacAddress → Text
unfolding hex
as_asus m = hex upper_digit m.octets

-- `__str__`
unfoldable pub show : MacAddress → Text
unfolding hex
show m = hex lower_digit m.octets

-- `to_int`
unfoldable pub to_int : MacAddress → ℕ
unfolding from_bytes
to_int m = from_bytes 0 m.octets

-- The first byte with the multicast bit cleared and the local bit set.
unfoldable pub local_byte : ℕ → ℕ
local_byte b = bit_or (bit_and b 254) 2

local_head : List ℕ → List ℕ
unfolding local_byte
local_head [] = []
local_head (b ∷ s) = local_byte b ∷ s

-- `set_locally_administered`
unfoldable pub set_locally_administered : MacAddress → MacAddress
unfolding local_head
set_locally_administered m = record { octets = local_head m.octets }
