-- ===== src/Tools/Identifiers/Mac/Print.antt =====
-- asusrouter/tools/identifiers/mac.py: an address is read back from its text.
use mathlib.Core.List.{reverse, reverse_aux}
use asusrouter.Base.{
  ℕ, ◌+◌, ◌*◌, ◌/◌, ◌%◌, ◌<◌, ◌≡◌, ◌-◌, refl, ap, ◌∙◌, Bool, true, false, ◌||◌, Option, none, some,
  List, [], ◌∷◌, any, length, All, ◌==◌, arith,
}
use asusrouter.Base.Int.{ℤ}
use asusrouter.Base.Text.{Text, strip, strip_left, is_space, join}
use asusrouter.Tools.Converters.{
  text, clean_content, clean_string, clean_input, int_10, safe_int, read_digits,
}
use asusrouter.Tools.Identifiers.Mac.{
  MacAddress, value, upper_digit, lower_digit, hex, hex_value, is_hex_digit, clean, from_hex,
  text_bytes, make, as_address, to_octets, from_value, as_asus, show, number_or_text,
}
use asusrouter.Tools.Identifiers.Mac.Number.{IsMac, six-length}

abbrev pub has_colon : Text → Bool
has_colon s = any (λ c. c == b':') s

any-reverse_aux : (p : ℕ → Bool) (s t : Text) → any p (reverse_aux s t) ≡ (any p s || any p t)
any-reverse_aux p [] t = refl
any-reverse_aux p (c ∷ s) t = ground (arith, any-reverse_aux p s (c ∷ t))

any-reverse : (p : ℕ → Bool) (s : Text) → any p (reverse s) ≡ any p s
any-reverse p s = ground (arith, any-reverse_aux p s [])

has_colon-strip_left : (s : Text) → has_colon (strip_left s) ≡ has_colon s
unfolding strip_left is_space
has_colon-strip_left [] = refl
has_colon-strip_left (c ∷ s) = ground (arith, has_colon-strip_left s)

has_colon-strip : (s : Text) → has_colon (strip s) ≡ has_colon s
unfolding strip
has_colon-strip s =
    any-reverse _ (strip_left (reverse (strip_left s)))
    ∙ has_colon-strip_left (reverse (strip_left s))
    ∙ any-reverse _ (strip_left s)
    ∙ has_colon-strip_left s

has_colon-clean_content : (s : Text) → has_colon (clean_content s) ≡ has_colon s
unfolding clean_content
has_colon-clean_content [] = refl
has_colon-clean_content (c ∷ s) = ground arith

read_digits_colon :
    (acc : ℕ) (gap : Bool) (s : Text) → has_colon s ≡ true → read_digits acc gap s ≡ none
read_digits_colon acc gap [] h = cc
read_digits_colon acc gap (c ∷ s) h =
    ground (arith, read_digits_colon (acc * 10 + (c - b'0')) false s, read_digits_colon acc true s)

int_10-colon : (s : Text) → has_colon s ≡ true → int_10 s ≡ none
unfolding int_10
int_10-colon [] h = cc
int_10-colon (c ∷ s) h =
    ground (arith, read_digits_colon 0 true s, read_digits_colon 0 true (c ∷ s))

safe_int_colon :
    (float_int : Text → Option ℤ) (s : Text)
    → ((t : Text) → has_colon t ≡ true → float_int t ≡ none)
    → has_colon s ≡ true
    → safe_int float_int (text s) none ≡ none
unfolding safe_int clean_input clean_string
safe_int_colon float_int s refuses h =
    let t = clean_content (strip s) in
    let k : has_colon t ≡ true = has_colon-clean_content (strip s) ∙ has_colon-strip s ∙ h in
    ground (arith, int_10-colon t k, refuses t k)

-- Digits that are kept and that stand for their number.
record IsDigits (digit : ℕ → ℕ) : Type 0 where
  kept : (n : ℕ) → n < 16 → is_hex_digit (digit n) ≡ true
  stands : (n : ℕ) → n < 16 → hex_value (digit n) ≡ n

upper_digit-IsDigits : IsDigits upper_digit
upper_digit-IsDigits = record { kept = λ n h. ground arith; stands = λ n h. ground arith }

lower_digit-IsDigits : IsDigits lower_digit
lower_digit-IsDigits = record { kept = λ n h. ground arith; stands = λ n h. ground arith }

module _ (digit : ℕ → ℕ) (d : IsDigits digit) where
  -- The digits of the bytes with nothing in between.
  abbrev plain : List ℕ → Text
  plain [] = []
  plain (b ∷ s) = digit (b / 16) ∷ digit (b % 16) ∷ plain s

  clean_digit : (n : ℕ) (t : Text) → n < 16 → clean (digit n ∷ t) ≡ digit n ∷ clean t
  unfolding clean
  clean_digit n t h = rw (d.kept n h) refl

  clean_pair :
      (b : ℕ) (t : Text)
      → b < 256
      → clean (digit (b / 16) ∷ digit (b % 16) ∷ t) ≡ digit (b / 16) ∷ digit (b % 16) ∷ clean t
  clean_pair b t h =
      clean_digit (b / 16) _ (omega arith)
      ∙ ap (λ u. digit (b / 16) ∷ u) (clean_digit (b % 16) t (omega arith))

  clean_colon : (t : Text) → clean (b':' ∷ t) ≡ clean t
  unfolding clean
  clean_colon t = refl

  clean-hex : (s : List ℕ) → All (λ b. b < 256) s → clean (hex digit s) ≡ plain s
  unfolding hex join
  clean-hex [] h = unfold clean in refl
  clean-hex (b ∷ []) (lt, h) = clean_pair b [] lt ∙ unfold clean in refl
  clean-hex (b ∷ c ∷ s) (lt, h) =
      clean_pair b _ lt
      ∙ ap (λ t. digit (b / 16) ∷ digit (b % 16) ∷ t) (clean_colon _ ∙ clean-hex (c ∷ s) h)

  from_hex-plain : (s : List ℕ) → All (λ b. b < 256) s → from_hex (plain s) ≡ s
  unfolding from_hex
  from_hex-plain [] h = refl
  from_hex-plain (b ∷ s) (lt, h) =
      ground (
        arith,
        d.stands (b / 16) (omega arith),
        d.stands (b % 16) (omega arith),
        from_hex-plain s h,
      )

  length-plain : (s : List ℕ) → length (plain s) ≡ length s + length s
  length-plain [] = refl
  length-plain (b ∷ s) = ground (arith, length-plain s)

  has_colon-hex : (s : List ℕ) → length s ≡ 6 → has_colon (hex digit s) ≡ true
  unfolding hex join
  has_colon-hex (b ∷ c ∷ s) h = ground arith
  has_colon-hex (b ∷ []) h = absurd (ground arith)
  has_colon-hex [] h = absurd (ground arith)

  text_bytes-hex :
      (s : List ℕ) → length s ≡ 6 → All (λ b. b < 256) s → text_bytes (text (hex digit s)) ≡ some s
  unfolding text_bytes
  text_bytes-hex s l h =
      let size : length (plain s) ≡ 12 = omega (arith, length-plain s) in
      rw (clean-hex s h) (rw size (ap some (from_hex-plain s h)))

  from_value-hex :
      (float_int : Text → Option ℤ) (m : MacAddress)
      → ((t : Text) → has_colon t ≡ true → float_int t ≡ none)
      → IsMac m
      → from_value float_int (value (text (hex digit m.octets))) ≡ some m
  unfolding from_value to_octets
  from_value-hex float_int m refuses h =
      let s = m.octets in
      let read = safe_int_colon float_int (hex digit s) refuses (has_colon-hex s h.six_octets) in
      ap (λ z. make (number_or_text z (text (hex digit s)))) read
      ∙ ap make (text_bytes-hex s h.six_octets h.in_range)
      ∙ ap as_address (six-length s h.six_octets)

-- The digits of the text of an address.
pub clean-as_asus :
    (m : MacAddress)
    → IsMac m
    → (length (clean (as_asus m)) ≡ 12) × (from_hex (clean (as_asus m)) ≡ m.octets)
unfolding as_asus
clean-as_asus m h =
    let plain_text = clean-hex upper_digit upper_digit-IsDigits m.octets h.in_range in
    (
      ap length plain_text
          ∙ omega (arith, length-plain upper_digit upper_digit-IsDigits m.octets, h.six_octets),
      ap from_hex plain_text ∙ from_hex-plain upper_digit upper_digit-IsDigits m.octets h.in_range,
    )

pub as_asus-filled : (m : MacAddress) → IsMac m → has_colon (as_asus m) ≡ true
unfolding as_asus
as_asus-filled m h = has_colon-hex upper_digit upper_digit-IsDigits m.octets h.six_octets

-- An address is read back from both of its texts, with upper or lower case digits, if Python reads no
-- text with a colon as a float.
pub from_value-as_asus :
    (float_int : Text → Option ℤ) (m : MacAddress)
    → ((t : Text) → has_colon t ≡ true → float_int t ≡ none)
    → IsMac m
    → (from_value float_int (value (text (as_asus m))) ≡ some m)
      × (from_value float_int (value (text (show m))) ≡ some m)
unfolding as_asus show
from_value-as_asus float_int m refuses h = (
  from_value-hex upper_digit upper_digit-IsDigits float_int m refuses h,
  from_value-hex lower_digit lower_digit-IsDigits float_int m refuses h,
)
