-- ===== src/Tools/Identifiers/Mac/Number.antt =====
-- asusrouter/tools/identifiers/mac.py: addresses as 48-bit numbers.
use Prim.Native.Nat.{◌^◌}
use asusrouter.Base.{
  ℕ, zero, suc, ◌/◌, ◌%◌, ◌<◌, ◌≡◌, refl, ap, ◌∙◌, Option, some, List, [], ◌∷◌, All, length, arith,
}
use asusrouter.Base.Int.{ℤ, pos}
use asusrouter.Base.Text.{Text}
use asusrouter.Tools.Converters.{int, safe_int}
use asusrouter.Tools.Identifiers.Mac.{
  MacAddress, value, big_endian, from_bytes, six, int_bytes, make, as_address, to_octets,
  from_value, to_int,
}

-- Six bytes.
pub record IsMac (m : MacAddress) : Type 0 where
  pub six_octets : length m.octets ≡ 6
  pub in_range : All (λ b. b < 256) m.octets

pub length-big_endian : (n v : ℕ) → length (big_endian n v) ≡ n
unfolding big_endian
length-big_endian zero v = refl
length-big_endian (suc n) v = ap suc (length-big_endian n v)

pub big_endian-All : (n v : ℕ) → All (λ b. b < 256) (big_endian n v)
unfolding big_endian
big_endian-All zero v = tt
big_endian-All (suc n) v = (omega arith, big_endian-All n v)

from_bytes-big_endian : (v : ℕ) → v < 2 ^ 48 → from_bytes 0 (big_endian 6 v) ≡ v
unfolding from_bytes big_endian
from_bytes-big_endian v h = omega arith

-- The six bytes of a number are read back from it.
big_endian-from_bytes :
    (s : List ℕ)
    → length s ≡ 6
    → All (λ b. b < 256) s
    → (from_bytes 0 s < 2 ^ 48) × (big_endian 6 (from_bytes 0 s) ≡ s)
unfolding from_bytes big_endian
big_endian-from_bytes (a ∷ b ∷ c ∷ d ∷ e ∷ f ∷ []) l (pa, (pb, (pc, (pd, (pe, (pf, _)))))) =
    let n = from_bytes 0 (a ∷ b ∷ c ∷ d ∷ e ∷ f ∷ []) in
    let ea : n / 256 ^ 5 % 256 ≡ a = omega arith in
    let eb : n / 256 ^ 4 % 256 ≡ b = omega arith in
    let ec : n / 256 ^ 3 % 256 ≡ c = omega arith in
    let ed : n / 256 ^ 2 % 256 ≡ d = omega arith in
    let ee : n / 256 ^ 1 % 256 ≡ e = omega arith in
    let ef : n / 256 ^ 0 % 256 ≡ f = omega arith in (omega arith, cc)
big_endian-from_bytes _ l h = absurd (ground arith)

int_bytes-fits : (n : ℕ) → n < 2 ^ 48 → int_bytes (pos n) ≡ some (big_endian 6 n)
int_bytes-fits n h = ground arith

pub six-length : (s : List ℕ) → length s ≡ 6 → six s ≡ some s
six-length s h = ground arith

module _ (float_int : Text → Option ℤ) where
  -- A number below 2 ^ 48 is an address of six bytes that stands for it.
  pub to_int-from_value :
      (n : ℕ)
      → n < 2 ^ 48
      → (m : MacAddress) × (from_value float_int (value (int (pos n))) ≡ some m)
        × IsMac m
        × (to_int m ≡ n)
  unfolding from_value to_octets safe_int to_int
  to_int-from_value n h = (
    record { octets = big_endian 6 n },
    ap make (int_bytes-fits n h)
        ∙ ap as_address (six-length (big_endian 6 n) (length-big_endian 6 n)),
    record { six_octets = length-big_endian 6 n; in_range = big_endian-All 6 n },
    from_bytes-big_endian n h,
  )

  -- The number of an address is below 2 ^ 48, and the address is made again from it.
  pub from_value-to_int :
      (m : MacAddress)
      → IsMac m
      → (to_int m < 2 ^ 48) × (from_value float_int (value (int (pos (to_int m)))) ≡ some m)
  unfolding from_value to_octets safe_int to_int
  from_value-to_int m h =
      let (lt, back) = big_endian-from_bytes m.octets h.six_octets h.in_range in
      (
        lt,
        ap make (int_bytes-fits (from_bytes 0 m.octets) lt ∙ ap some back)
            ∙ ap as_address (six-length m.octets h.six_octets),
      )
