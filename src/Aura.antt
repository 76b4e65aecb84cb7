-- ===== src/Aura.antt =====
-- asusrouter/modules/aura.py: the light of a router. What is kept of it is a record, and a list of
-- colours is a list of references to objects, since one of them may stand in the list twice.
pub mod Palette
pub mod State
pub mod Reading
pub mod Painted
pub mod Zones
pub mod Kept
pub mod Active
use asusrouter.Base.{
  ℕ, zero, suc, ◌+◌, ◌*◌, ◌/◌, Bool, true, false, Option, none, some, List, [], ◌∷◌, ◌++◌, map,
  if◌then◌else◌,
}
use asusrouter.Base.Int.{ℤ, pos, negsuc}
use asusrouter.Base.Dict.{Key, Dict}
use asusrouter.Color.{Rgb, ColorRgbb, full, default_scale}

-- `AsusAura`
pub data AsusAura : Type 0 where
  unknown on off gradient static breathing evolution rainbow wave marquee : AsusAura

abbrev pub aura_value : AsusAura → ℤ
aura_value unknown = negsuc 998
aura_value on = negsuc 0
aura_value off = pos 0
aura_value gradient = pos 1
aura_value static = pos 2
aura_value breathing = pos 3
aura_value evolution = pos 4
aura_value rainbow = pos 5
aura_value wave = pos 6
aura_value marquee = pos 7

-- The number of a scheme in `AsusAuraColor`, if it has colours.
abbrev pub color_number : AsusAura → Option ℕ
color_number gradient = some 1
color_number static = some 2
color_number breathing = some 3
color_number marquee = some 7
color_number _ = none

-- The colours of each scheme; `none` is what `parse_colors` makes of a text without colours.
abbrev pub Effect : Type 0
Effect = Dict ℕ (Option (List ColorRgbb))

-- What is active: the colours of the zones with their brightness, and the colour and the brightness of
-- them all.
pub record Lights : Type 0 where
  pub zone_colors : List ColorRgbb
  pub color : ColorRgbb
  pub brightness : ℤ

-- What `process_aura` returns.
pub record AuraState : Type 0 where
  pub state : Option Bool
  pub night_mode : Option Bool
  pub scheme : AsusAura
  pub scheme_prev : AsusAura
  pub effect : Effect
  pub active : Option Lights
  pub zones : ℕ

abbrev rgb : ℕ → ℕ → ℕ → Rgb
rgb r g b = record { r = pos r; g = pos g; b = pos b }

-- `DEFAULT_COLOR_PATTERN`
unfoldable pub default_pattern : List ColorRgbb
default_pattern =
    full (rgb 20 0 128) default_scale
    ∷ full (rgb 110 0 100) default_scale
    ∷ full (rgb 128 0 80) default_scale
    ∷ full (rgb 110 0 100) default_scale
    ∷ []

abbrev pub take : {A : Type 0} → ℕ → List A → List A
take zero xs = []
take (suc n) [] = []
take (suc n) (x ∷ xs) = x ∷ take n xs

abbrev pub repeat : {A : Type 0} → ℕ → List A → List A
repeat zero xs = []
repeat (suc n) xs = xs ++ repeat n xs

-- `get_default_aura_color`
unfoldable pub get_default_aura_color : ℕ → List ColorRgbb
unfolding default_pattern
get_default_aura_color zones = take zones (repeat ((zones + 3) / 4) default_pattern)

-- Whether a scheme is one that a router can show.
abbrev pub is_valid_scheme : AsusAura → Bool
is_valid_scheme unknown = false
is_valid_scheme on = false
is_valid_scheme off = false
is_valid_scheme _ = true

-- `get_scheme_from_state`
abbrev pub get_scheme_from_state : AuraState → AsusAura
get_scheme_from_state a =
    if is_valid_scheme a.scheme
    then a.scheme
    else if is_valid_scheme a.scheme_prev
    then a.scheme_prev
    else static
