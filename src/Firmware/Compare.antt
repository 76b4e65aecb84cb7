-- ===== src/Firmware/Compare.antt =====
-- asusrouter/modules/firmware.py: the comparisons of the class `Firmware`.
use asusrouter.Base.{
  Bool, true, false, not, ◌&&◌, Option, none, some, List, [], ◌∷◌, ltb, ◌==◌, if◌then◌else◌,
}
use asusrouter.Base.Decimal.{show_int}
use asusrouter.Base.Int.{ℤ, pos, negsuc, ltb_ℤ}
use asusrouter.Base.Text.{Text, codes, same_text, has_substring, split, split_on, strip}
use asusrouter.Tools.Converters.{clean_string, int_10}
use asusrouter.Firmware.{
  Firmware, FirmwareType, unknown_type, stock, merlin, gnuton, Revision, no_revision, number, word,
}

-- `a < b` on texts.
abbrev pub lt_text : Text → Text → Bool
lt_text s [] = false
lt_text [] (b ∷ t) = true
lt_text (a ∷ s) (b ∷ t) = if ltb a b then true else if a == b then lt_text s t else false

abbrev pub same_type : FirmwareType → FirmwareType → Bool
same_type unknown_type unknown_type = true
same_type stock stock = true
same_type merlin merlin = true
same_type gnuton gnuton = true
same_type _ _ = false

abbrev pub same_int : ℤ → ℤ → Bool
same_int (pos a) (pos b) = a == b
same_int (negsuc a) (negsuc b) = a == b
same_int _ _ = false

abbrev pub same_option : Option ℤ → Option ℤ → Bool
same_option none none = true
same_option (some a) (some b) = same_int a b
same_option _ _ = false

abbrev pub same_major : Option Text → Option Text → Bool
same_major none none = true
same_major (some a) (some b) = same_text a b
same_major _ _ = false

abbrev pub same_revision : Revision → Revision → Bool
same_revision no_revision no_revision = true
same_revision (number a) (number b) = same_int a b
same_revision (word a) (word b) = same_text a b
same_revision _ _ = false

-- `__eq__`
unfoldable pub equal : Firmware → Firmware → Bool
equal a b =
    same_major a.major b.major
    && same_option a.minor b.minor
    && same_option a.build b.build
    && same_revision a.revision b.revision

abbrev pub or_minus_one : Option Text → Text
or_minus_one none = codes "-1"
or_minus_one (some s) = s

abbrev pub head_piece : List Text → Text
head_piece [] = []
head_piece (s ∷ pieces) = s

-- `get_prefix`
unfoldable pub get_prefix : Text → Text
unfolding clean_string split_on
get_prefix v =
    if has_substring (codes "alpha") v
    then or_minus_one (clean_string (head_piece (split_on (codes "alpha") v)))
    else if has_substring (codes "beta") v
    then or_minus_one (clean_string (head_piece (split_on (codes "beta") v)))
    else v

-- `lt_values`, on the lists, on the numbers and on the revisions.
abbrev pub lt_list : List ℤ → List ℤ → Bool
lt_list (a ∷ s) (b ∷ t) = if ltb_ℤ a b then true else if ltb_ℤ b a then false else lt_list s t
lt_list _ _ = false

abbrev pub lt_number : Option ℤ → Option ℤ → Bool
lt_number a none = false
lt_number none (some b) = true
lt_number (some a) (some b) = ltb_ℤ a b

unfoldable pub lt_revision : Revision → Revision → Bool
unfolding get_prefix show_int
lt_revision a no_revision = false
lt_revision no_revision (number b) = true
lt_revision no_revision (word b) = true
lt_revision (number a) (number b) = ltb_ℤ a b
lt_revision (word a) (word b) = lt_text a b
lt_revision (number a) (word b) =
    if same_text (show_int a) (get_prefix b) then false else lt_text (show_int a) (get_prefix b)
lt_revision (word a) (number b) =
    if same_text (show_int b) (get_prefix a) then true else lt_text (get_prefix a) (show_int b)

-- `[int(x) for x in pieces]`; `none` is `ValueError`.
abbrev pub add_int : Option ℤ → Option (List ℤ) → Option (List ℤ)
add_int (some z) (some zs) = some (z ∷ zs)
add_int _ _ = none

unfoldable pub ints : List Text → Option (List ℤ)
unfolding int_10 strip
ints [] = some []
ints (s ∷ pieces) = add_int (int_10 (strip s)) (ints pieces)

abbrev pub later_pieces : List Text → List Text
later_pieces [] = []
later_pieces (s ∷ pieces) = pieces

unfoldable pub major_ints : Text → Option (List ℤ)
unfolding ints
major_ints s = ints (later_pieces (split b'.' s))

-- One of the comparisons in a row.
abbrev pub then_compare : Bool → Bool → Bool → Bool
then_compare less more rest = if less then true else if more then false else rest

unfoldable pub lt_parts : Firmware → Firmware → Option (List ℤ) → Option (List ℤ) → Option Bool
unfolding lt_revision
lt_parts a b (some m) (some n) = some (
    then_compare (lt_list m n) (lt_list n m) (
      then_compare (lt_number a.minor b.minor) (lt_number b.minor a.minor) (
        then_compare (lt_number a.build b.build) (lt_number b.build a.build) (
          then_compare (lt_revision a.revision b.revision) (lt_revision b.revision a.revision)
            false))))
lt_parts a b _ _ = none

unfoldable pub lt_major : Firmware → Firmware → Option Text → Option Text → Option Bool
unfolding lt_parts major_ints
lt_major a b (some (c ∷ s)) (some (d ∷ t)) = lt_parts a b (major_ints (c ∷ s)) (major_ints (d ∷ t))
lt_major a b _ _ = some false

-- `__lt__` of two firmware objects; `none` is the `ValueError` of a major version that is not numeric.
unfoldable pub less : Firmware → Firmware → Option Bool
unfolding lt_major
less a b = if same_type a.source b.source then lt_major a b a.major b.major else some false

abbrev pub and_not : Option Bool → Bool → Option Bool
and_not none same = none
and_not (some b) same = some (not b && not same)

-- `__gt__`
unfoldable pub greater : Firmware → Firmware → Option Bool
unfolding less equal
greater a b = and_not (less a b) (equal a b)
