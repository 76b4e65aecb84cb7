-- ===== src/Tools/Identifiers/Ip.antt =====
-- asusrouter/tools/identifiers/ip.py: the class `IpAddress`, which wraps an address of Python's
-- `ipaddress`. That library is a parameter.
use asusrouter.Base.{ℕ, ◌<◌, ◌≡◌, Option, none, some, List, length, ◌==◌, ◌||◌, if◌then◌else◌}
use asusrouter.Base.Int.{ℤ}
use asusrouter.Base.Text.{Text, strip}

-- `ipaddress`: `ip_address` on a text, a number and bytes, where `none` is `ValueError`, and the
-- version and the text of an address.
pub record Library : Type 1 where
  pub Address : Type 0
  pub of_text : Text → Option Address
  pub of_int : ℤ → Option Address
  pub of_bytes : List ℕ → Option Address
  pub version : Address → ℕ
  pub shown : Address → Text
  -- the text of an address is not empty, has no white space around it and is read as that address
  pub of_text-shown : (a : Address) → of_text (strip (shown a)) ≡ some a
  pub shown-length : (a : Address) → 0 < length (shown a)

module _ (l : Library) where
  open l use {Address, of_text, of_int, of_bytes, version, shown}

  -- What an address may be made from.
  pub data Source : Type 0 where
    address : Address → Source
    bytes : List ℕ → Source
    number : ℤ → Source
    text : Text → Source
    other : Source

  -- `_to_addr`
  unfoldable pub to_addr : Source → Option Address
  to_addr (address a) = some a
  to_addr (bytes s) = if (length s == 4) || (length s == 16) then of_bytes s else none
  to_addr (number z) = of_int z
  to_addr (text s) = of_text (strip s)
  to_addr other = none
