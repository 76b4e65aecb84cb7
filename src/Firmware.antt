-- ===== src/Firmware.antt =====
-- asusrouter/modules/firmware.py: the class `Firmware`. The match of the regular expression is a
-- parameter, which gives the groups.
pub mod Compare
pub mod Order
pub mod Greater
use asusrouter.Base.{
  ℕ, zero, suc, ◌+◌, ◌-◌, ◌/◌, ◌%◌, Bool, true, false, not, ◌&&◌, ◌||◌, Option, none, some, List,
  [], ◌∷◌, ◌++◌, any, all, length, ltb, ◌==◌, if◌then◌else◌,
}
use asusrouter.Base.Int.{ℤ, pos, negsuc, ltb_ℤ, pos_part, neg_part}
use asusrouter.Base.Text.{Text, codes, same_text, has_substring, split, split_on, strip}
use asusrouter.Tools.Converters.{text, clean_string, int_10, safe_int, is_digit}

-- `FirmwareType`
pub data FirmwareType : Type 0 where
  unknown_type stock merlin gnuton : FirmwareType

pub data Revision : Type 0 where
  no_revision : Revision
  number : ℤ → Revision
  word : Text → Revision

pub record Firmware : Type 0 where
  pub major : Option Text
  pub minor : Option ℤ
  pub build : Option ℤ
  pub revision : Revision
  pub source : FirmwareType
  pub rog : Bool
  pub beta : Bool

-- The groups of a match.
pub record Groups : Type 0 where
  pub major_text : Option Text
  pub minor_text : Text
  pub build_text : Text
  pub revision_text : Text
  pub rog_found : Bool

-- `_update_beta`
abbrev pub is_beta : Option Text → Bool
is_beta (some (c ∷ s)) = c == b'9'
is_beta _ = false

unfoldable pub update_beta : Firmware → Firmware
update_beta v = record v { beta = is_beta v.major }

abbrev pub first_chars : ℕ → Text → Text
first_chars zero s = []
first_chars (suc n) [] = []
first_chars (suc n) (c ∷ s) = c ∷ first_chars n s

abbrev pub without_rog : Text → Revision
without_rog s =
    if has_substring (codes "_rog") s then word (first_chars (length s - 4) s) else word s

abbrev pub revision_rog : Revision → Revision
revision_rog (word s) = without_rog s
revision_rog r = r

abbrev pub has_rog : Revision → Bool
has_rog (word s) = has_substring (codes "_rog") s
has_rog r = false

-- `_update_rog`
unfoldable pub update_rog : Firmware → Firmware
update_rog v = record v { rog = has_rog v.revision; revision = revision_rog v.revision }

abbrev pub source_of : Revision → FirmwareType
source_of (number z) = merlin
source_of (word s) =
    if has_substring (codes "gnuton") s
    then gnuton
    else if has_substring (codes "alpha") s || has_substring (codes "beta") s
    then merlin
    else stock
source_of no_revision = stock

-- `_update_source`
unfoldable pub update_source : Firmware → Firmware
update_source v = record v { source = source_of v.revision }

-- The major version with its dots.
abbrev pub dotted : Text → Text
dotted (a ∷ b ∷ c ∷ d ∷ []) =
    if has_substring (codes ".") (a ∷ b ∷ c ∷ d ∷ [])
    then a ∷ b ∷ c ∷ d ∷ []
    else a ∷ b'.' ∷ b ∷ b'.' ∷ c ∷ b'.' ∷ d ∷ []
dotted s = s

abbrev pub dotted_major : Option Text → Option Text
dotted_major none = none
dotted_major (some s) = some (dotted s)

-- `revision.isdigit()`, of the characters that the group allows.
abbrev pub is_number : Text → Bool
is_number [] = false
is_number (c ∷ s) = all is_digit (c ∷ s)

abbrev pub number_revision : Option ℤ → Revision
number_revision none = no_revision
number_revision (some z) = number z

-- The texts that were warned of: `_fw_warned`, which all objects share.
abbrev pub warn : Text → List Text → List Text
warn s warned = if any (same_text s) warned then warned else warned ++ (s ∷ [])

abbrev pub blank : Firmware
blank = record {
  major = none;
  minor = none;
  build = none;
  revision = no_revision;
  source = stock;
  rog = false;
  beta = false;
}

module _ (float_int : Text → Option ℤ) (matched : Text → Option Groups) where
  unfoldable pub fill_groups : Firmware → Groups → Firmware
  unfolding safe_int
  fill_groups v g =
      let major = dotted_major g.major_text in
      record v {
        major = major;
        minor = safe_int float_int (text g.minor_text) none;
        build = safe_int float_int (text g.build_text) none;
        revision =
            if is_number g.revision_text
            then number_revision (safe_int float_int (text g.revision_text) none)
            else word g.revision_text;
        rog = g.rog_found;
        beta = is_beta major;
      }

  -- The rest of `from_string` after the match.
  unfoldable pub from_groups : Text → Option Groups → List Text → Firmware → Firmware × List Text
  unfolding fill_groups
  from_groups s none warned v = (v, warn s warned)
  from_groups s (some g) warned v = (fill_groups v g, warned)

  unfoldable pub from_clean : Option Text → List Text → Firmware → Firmware × List Text
  unfolding from_groups
  from_clean none warned v = (v, warned)
  from_clean (some s) warned v =
      if same_text s (codes "__") || same_text s (codes "___")
      then (v, warned)
      else from_groups s (matched s) warned v

  -- `from_string`
  unfoldable pub from_string : Text → List Text → Firmware → Firmware × List Text
  unfolding clean_string from_clean
  from_string s warned v = from_clean (clean_string s) warned v

  unfoldable pub updated : Firmware → Firmware
  unfolding update_beta update_source
  updated v = update_source (update_beta v)

  -- `__init__`
  unfoldable pub make :
      Option Text → Option Text → Option ℤ → Option ℤ → Revision → List Text → Firmware × List Text
  unfolding from_string update_rog updated
  make (some (c ∷ s)) major minor build rev warned =
      let r = from_string (c ∷ s) warned blank in (updated r.0, r.1)
  make _ major minor build rev warned = (
    updated
        (update_rog (record blank { major = major; minor = minor; build = build; revision = rev })),
    warned,
  )
