-- ===== src/Color.antt =====
-- asusrouter/modules/color.py: colours of three channels, alone and with a brightness. A method gives
-- the object as it leaves it, and `none` is an error; values are those of an answer.
pub mod Bounds
pub mod Brightness
pub mod Zones
pub mod Lit
pub mod Parsing
use asusrouter.Base.{
  ℕ, zero, suc, ◌+◌, ◌/◌, Bool, true, false, ◌&&◌, Option, none, some, List, [], ◌∷◌, ◌++◌, map,
  length, if◌then◌else◌,
}
use mathlib.Core.Option.{map as map_option}
use asusrouter.Base.Int.{ℤ, pos, negsuc, ◌+ℤ◌, ltb_ℤ}
use asusrouter.Base.Text.{Text, split}
use asusrouter.Tools.Converters.{Value, null, bool, int, text, clean_input, clean_string, safe_int}
use asusrouter.Tools.Scaling.{min_ℤ, max_ℤ, int_eq, scale_value_int}

-- A tuple of three channels.
pub record Rgb : Type 0 where
  pub r : ℤ
  pub g : ℤ
  pub b : ℤ

-- `ColorRGB`
pub record ColorRgb : Type 0 where
  pub rgb : Rgb
  pub scale : ℤ

-- `ColorRGBB`
pub record ColorRgbb : Type 0 where
  pub rgb : Rgb
  pub br : ℤ
  pub scale : ℤ

-- `ColorRGB.__eq__` on two colours.
abbrev pub same_color : ColorRgb → ColorRgb → Bool
same_color a b =
    int_eq a.rgb.r b.rgb.r
    && int_eq a.rgb.g b.rgb.g
    && int_eq a.rgb.b b.rgb.b
    && int_eq a.scale b.scale

-- What a colour is read from: `None`, a text, a colour, or a tuple.
pub data Source : Type 0 where
  nothing : Source
  text_of : Text → Source
  color_of : Rgb → Source
  tuple_of : List Value → Source

abbrev pub default_color : Rgb
default_color = record { r = pos 0; g = pos 0; b = pos 0 }

abbrev pub default_scale : ℤ
default_scale = pos 128

-- `DEFAULT_COLOR_DELIMITER`
abbrev pub delimiter : ℕ
delimiter = b','

abbrev pub same_zero : ℤ → Bool
same_zero z = int_eq z (pos 0)

-- `scale or self._scale`
abbrev pub or_scale : Option ℤ → ℤ → ℤ
or_scale none own = own
or_scale (some z) own = if same_zero z then own else z

-- Three channels that are all integers; the comparison of a channel with `None` raises.
abbrev pub all_read : Option ℤ → Option ℤ → Option ℤ → Option Rgb
all_read (some r) (some g) (some b) = some (record { r = r; g = g; b = b })
all_read _ _ _ = none

-- `(rgb + (0,) * 3)[:3]`
abbrev pub first_three : List (Option ℤ) → Option Rgb
first_three [] = some default_color
first_three (r ∷ []) = all_read r (some (pos 0)) (some (pos 0))
first_three (r ∷ g ∷ []) = all_read r g (some (pos 0))
first_three (r ∷ g ∷ b ∷ rest) = all_read r g b

abbrev pub brightest : Rgb → ℤ
brightest c = max_ℤ (max_ℤ c.r c.g) c.b

unfoldable pub rescale : ℤ → ℤ → Rgb → Rgb
unfolding scale_value_int
rescale scale from c = record {
  r = scale_value_int c.r scale (some from);
  g = scale_value_int c.g scale (some from);
  b = scale_value_int c.b scale (some from);
}

-- `_normalize_scale`
unfoldable pub normalize_scale : Rgb → ℤ → Rgb
normalize_scale c scale = if ltb_ℤ scale (brightest c) then rescale scale (brightest c) c else c

unfoldable pub normalize_with : Option Rgb → ℤ → Option Rgb
normalize_with none scale = none
normalize_with (some c) scale = some (normalize_scale c scale)

abbrev pub with_brightness : ℤ → Rgb → ColorRgbb
with_brightness scale c = record {
  rgb = rescale scale (brightest c) c;
  br = brightest c;
  scale = scale;
}

-- What a `ColorRGB` is made from: a number and two that may be left out, a tuple, or anything else.
pub data Init : Type 0 where
  number : ℤ → Option ℤ → Option ℤ → Init
  tuple : List Value → Init
  other : Init

abbrev pub or_else : Option ℤ → ℤ → ℤ
or_else none z = z
or_else (some y) z = y

abbrev pub limited : Option ℤ → ℤ → ℤ
limited none scale = scale
limited (some br) scale = min_ℤ br scale

abbrev pub prepended : {A : Type 0} → Option A → Option (List A) → Option (List A)
prepended (some a) (some rest) = some (a ∷ rest)
prepended _ _ = none

-- `colors if len(colors) > 0 else None`
abbrev pub colors_or_none : {A : Type 0} → List A → Option (List A)
colors_or_none [] = none
colors_or_none (a ∷ rest) = some (a ∷ rest)

-- `ColorRGB.from_rgb` of three integers.
unfoldable pub rgb_of : Rgb → ℤ → ColorRgb
rgb_of c scale = record { rgb = normalize_scale c scale; scale = scale }

-- `_to_rgb`, without an argument and with four components.
unfoldable pub to_channels : ColorRgbb → Rgb
to_channels c = rescale c.br c.scale c.rgb

unfoldable pub to_scaled : ColorRgbb → Rgb → ℤ → Rgb
to_scaled c channels scale = rescale scale c.scale channels

-- `to_rgb`
unfoldable pub to_rgb : ColorRgbb → Option ℤ → ColorRgb
to_rgb c none = rgb_of (to_channels c) c.scale
to_rgb c (some scale) = rgb_of (to_scaled c (to_channels c) scale) default_scale

-- `ColorRGBB.set_brightness`
unfoldable pub set_brightness : ℤ → ColorRgbb → ColorRgbb
set_brightness br c = record c { br = max_ℤ (pos 0) (min_ℤ br c.scale) }

-- `ColorRGBB.from_rgb`, from a colour.
unfoldable pub paint : Rgb → ColorRgbb → ColorRgbb
paint c own = record own { rgb = normalize_scale c own.scale }

-- `ColorRGBB(color)`: the new colour is at its full brightness.
unfoldable pub full : Rgb → ℤ → ColorRgbb
full c scale = record (with_brightness scale (normalize_scale c scale)) { br = limited none scale }

-- `sum(values) // n`, for a positive n.
abbrev pub floor_quotient : ℤ → ℕ → ℤ
floor_quotient (pos n) d = pos (n / d)
floor_quotient (negsuc n) d = negsuc (n / d)

unfoldable pub sum_of : (Rgb → ℤ) → List ColorRgb → ℤ
sum_of channel [] = pos 0
sum_of channel (c ∷ cs) = channel c.rgb +ℤ sum_of channel cs

abbrev pub max_scale : ColorRgb → List ColorRgb → ℤ
max_scale c [] = c.scale
max_scale c (d ∷ cs) = max_ℤ c.scale (max_scale d cs)

-- `average_color` of a list.
unfoldable pub average_color : List ColorRgb → ColorRgb
average_color [] = rgb_of default_color default_scale
average_color (c ∷ cs) =
    let n = suc (length cs) in
    rgb_of
      (record {
        r = floor_quotient (sum_of (λ c. c.r) (c ∷ cs)) n;
        g = floor_quotient (sum_of (λ c. c.g) (c ∷ cs)) n;
        b = floor_quotient (sum_of (λ c. c.b) (c ∷ cs)) n;
      })
      (max_scale c cs)

-- `color_zone` of a value that is no number.
abbrev pub zones_in : Option Text → ℕ
zones_in none = 0
zones_in (some s) = length (split delimiter s) / 3

unfoldable pub color_zone : Text → ℕ
unfolding split clean_string
color_zone s = zones_in (clean_string s)
