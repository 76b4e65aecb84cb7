-- ===== src/Color/Parsing.antt =====
-- asusrouter/modules/color.py: how colours are made from what a caller or a router gives.
use asusrouter.Base.{Option, none, some, List, [], ◌∷◌, map}
use mathlib.Core.Option.{map as map_option}
use asusrouter.Base.Int.{ℤ}
use asusrouter.Base.Text.{Text, split}
use asusrouter.Tools.Converters.{Value, int, text, clean_string, safe_int}
use asusrouter.Color.{
  ColorRgb, ColorRgbb, Init, Rgb, Source, all_read, colors_or_none, default_color, default_scale,
  delimiter, first_three, limited, normalize_with, or_else, or_scale, prepended, rgb_of,
  with_brightness, nothing, text_of, color_of, tuple_of, number, tuple, other,
}

-- The first argument is `safe_int`'s reading of floats.
module _ (float_int : Text → Option ℤ) where
  unfoldable pub read_channel : Text → Option ℤ
  unfolding safe_int
  read_channel s = safe_int float_int (text s) none

  unfoldable pub read_value : Value → Option ℤ
  unfolding safe_int
  read_value v = safe_int float_int v none

  -- `_normalize_input_rgb`; `none` once its channels are compared.
  unfoldable pub normalize_input_rgb : Source → Option Rgb
  unfolding split read_channel read_value
  normalize_input_rgb nothing = some default_color
  normalize_input_rgb (text_of s) = first_three (map read_channel (split delimiter s))
  normalize_input_rgb (color_of c) = some c
  normalize_input_rgb (tuple_of vs) = first_three (map read_value vs)

  -- `ColorRGB.from_rgb`
  unfoldable pub from_rgb : Source → ColorRgb → Option ColorRgb
  from_rgb s own = map_option (λ c. rgb_of c own.scale) (normalize_input_rgb s)

  -- What `ColorRGB(r, g, b, scale)` is made of.
  abbrev pub source_of : Init → Source
  source_of (number r g b) = tuple_of (int r ∷ int (or_else g r) ∷ int (or_else b r) ∷ [])
  source_of (tuple vs) = tuple_of vs
  source_of other = color_of default_color

  -- `ColorRGB.__init__`
  unfoldable pub make_rgb : Init → ℤ → Option ColorRgb
  make_rgb i scale = map_option (λ c. rgb_of c scale) (normalize_input_rgb (source_of i))

  -- `ColorRGBB.from_rgbwb`, by the object's own scale.
  unfoldable pub from_rgbwb : Source → Option ℤ → ℤ → Option ColorRgbb
  from_rgbwb s scale own =
      map_option (with_brightness (or_scale scale own))
        (normalize_with (normalize_input_rgb s) (or_scale scale own))

  -- `ColorRGBB.__init__`
  unfoldable pub make_rgbb : Source → Option ℤ → ℤ → Option ColorRgbb
  make_rgbb s br scale =
      map_option (λ (c : ColorRgbb). record c { br = limited br scale }) (from_rgbwb s none scale)

  -- The loop of `parse_colors`; a last group of less than three is dropped.
  unfoldable pub parse_groups : ℤ → List Text → Option (List ColorRgbb)
  parse_groups scale (r ∷ g ∷ b ∷ rest) =
      let tail = parse_groups scale rest in
      let c = all_read (read_channel r) (read_channel g) (read_channel b) in
      prepended (map_option (with_brightness scale) (normalize_with c scale)) tail
  parse_groups scale _ = some []

  unfoldable pub parsed : Option Text → Option (Option (List ColorRgbb))
  unfolding parse_groups split
  parsed none = some none
  parsed (some s) = map_option colors_or_none (parse_groups default_scale (split delimiter s))

  -- `parse_colors` of a text, at the default scale.
  unfoldable pub parse_colors : Text → Option (Option (List ColorRgbb))
  unfolding clean_string parsed
  parse_colors s = parsed (clean_string s)
