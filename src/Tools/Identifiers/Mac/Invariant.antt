-- ===== src/Tools/Identifiers/Mac/Invariant.antt =====
-- asusrouter/tools/identifiers/mac.py: every address that is made has six bytes.
use Prim.Native.Nat.{◌^◌}
use mathlib.Core.Path.{subst}
use asusrouter.Base.{
  ℕ, ◌/◌, ◌<◌, leb, ◌≡◌, refl, true, Bool-cases, inl, inr, Option, none, some, List, [], ◌∷◌, All,
  length, ◌==◌, arith,
}
use asusrouter.Base.Int.{ℤ, pos, negsuc}
use asusrouter.Base.Text.{Text}
use asusrouter.Tools.Converters.{Value, null, bool, int, text, safe_int}
use asusrouter.Tools.Identifiers.Mac.{
  MacAddress, Source, address, bytes, value, is_hex_digit, hex_value, clean, from_hex, text_bytes,
  int_bytes, number_or_text, make, to_octets, from_value, big_endian,
}
use asusrouter.Tools.Identifiers.Mac.Number.{IsMac, big_endian-All}

clean-All : (s : Text) → All (λ c. is_hex_digit c ≡ true) (clean s)
unfolding clean
clean-All [] = tt
clean-All (c ∷ s) = elim (Bool-cases (is_hex_digit c)) [
  | inl h ↦ rw h (h, clean-All s)
  | inr h ↦ rw h (clean-All s)
]

hex_value-lt : (c : ℕ) → is_hex_digit c ≡ true → hex_value c < 16
hex_value-lt c h = ground arith

from_hex-All : (s : Text) → All (λ c. is_hex_digit c ≡ true) s → All (λ b. b < 256) (from_hex s)
unfolding from_hex
from_hex-All [] h = tt
from_hex-All (a ∷ []) h = tt
from_hex-All (a ∷ b ∷ s) (ha, (hb, h)) =
    (omega (arith, hex_value-lt a ha, hex_value-lt b hb), from_hex-All s h)

length-from_hex : (s : Text) → length (from_hex s) ≡ length s / 2
unfolding from_hex
length-from_hex [] = refl
length-from_hex (a ∷ []) = refl
length-from_hex (a ∷ b ∷ s) = omega (arith, length-from_hex s)

-- The bytes that twelve digits stand for.
pub from_hex-IsMac :
    (s : Text) → length (clean s) ≡ 12 → IsMac (record { octets = from_hex (clean s) })
from_hex-IsMac s h = record {
  six_octets = omega (arith, length-from_hex (clean s));
  in_range = from_hex-All (clean s) (clean-All s);
}

-- What the bytes that are given must be like.
abbrev pub IsSource : Source → Type 0
IsSource (address m) = IsMac m
IsSource (bytes s) = All (λ b. b < 256) s
IsSource (value v) = Unit

some_inj : {A : Type 0} (a b : A) → some a ≡ some b → a ≡ b
some_inj a b h = cc

text_bytes-All : (v : Value) (s : List ℕ) → text_bytes v ≡ some s → All (λ b. b < 256) s
unfolding text_bytes
text_bytes-All (text t) s h = elim (Bool-cases (length (clean t) == 12)) [
  | inl e ↦
      let e2 : from_hex (clean t) ≡ s = ground (arith, e, h) in
      subst (All (λ b. b < 256)) e2 (from_hex-All (clean t) (clean-All t))
  | inr e ↦ absurd (ground (arith, e, h))
]
text_bytes-All null s h = absurd (cc)
text_bytes-All (bool b) s h = absurd (cc)
text_bytes-All (int z) s h = absurd (cc)

int_bytes-All : (z : ℤ) (s : List ℕ) → int_bytes z ≡ some s → All (λ b. b < 256) s
int_bytes-All (pos n) s h = elim (Bool-cases (leb (2 ^ 48) n)) [
  | inl e ↦ absurd (ground (arith, e, h))
  | inr e ↦
      let e2 : big_endian 6 n ≡ s = ground (arith, e, h) in
      subst (All (λ b. b < 256)) e2 (big_endian-All 6 n)
]
int_bytes-All (negsuc n) s h = absurd (cc)

number_or_text-All :
    (z : Option ℤ) (v : Value) (s : List ℕ) → number_or_text z v ≡ some s → All (λ b. b < 256) s
number_or_text-All (some z) v s h = int_bytes-All z s h
number_or_text-All none v s h = text_bytes-All v s h

-- The bytes that pass the check of the length.
six-IsMac :
    (r : Option (List ℕ)) (m : MacAddress)
    → ((s : List ℕ) → r ≡ some s → All (λ b. b < 256) s)
    → make r ≡ some m
    → IsMac m
six-IsMac none m good h = absurd (cc)
six-IsMac (some s) m good h = elim (Bool-cases (length s == 6)) [
  | inl e ↦
      let e2 : s ≡ m.octets = ground (arith, e, h) in
      record {
        six_octets = ground (arith, e, e2);
        in_range = subst (All (λ b. b < 256)) e2 (good s refl);
      }
  | inr e ↦ absurd (ground (arith, e, h))
]

module _ (float_int : Text → Option ℤ) where
  -- Whatever an address is made from, if bytes are below 256 and an address has six of them, a value
  -- that is accepted gives six bytes.
  pub from_value-IsMac :
      (source : Source) (m : MacAddress)
      → IsSource source
      → from_value float_int source ≡ some m
      → IsMac m
  unfolding from_value to_octets
  from_value-IsMac (address a) m k h = subst IsMac (some_inj a m h) k
  from_value-IsMac (bytes s) m k h = elim (Bool-cases (length s == 6)) [
    | inl e ↦
        let e2 : s ≡ m.octets = ground (arith, e, h) in
        record { six_octets = ground (arith, e, e2); in_range = subst (All (λ b. b < 256)) e2 k }
    | inr e ↦ absurd (ground (arith, e, h))
  ]
  from_value-IsMac (value v) m k h =
      six-IsMac (number_or_text (safe_int float_int v none) v) m
        (number_or_text-All (safe_int float_int v none) v) h
