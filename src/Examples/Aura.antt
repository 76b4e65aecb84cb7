-- ===== src/Examples/Aura.antt =====
-- Colours of asusrouter/modules/color.py and the lights of modules/aura.py at concrete inputs.
use native.Mathlib.Decide.{ℕ_discrete}
use mathlib.Core.Option.{map as map_option}
use asusrouter.Base.{
  ap, ◌∙◌, ℕ, ◌≤◌, ◌<◌, ◌*◌, ◌≡◌, ◌⊎◌, refl, Option, none, some, [], ◌∷◌, length, ite,
}
use asusrouter.Base.Int.{ℤ, pos}
use asusrouter.Base.Dict.{Dict, lookup, insert}
use asusrouter.Base.Text.{Text, codes, text_key, Text-discrete}
use asusrouter.Tools.Converters.{Value, null, text}
use asusrouter.Color.{
  ColorRgbb, Source, text_of, normalize_scale, normalize_with, to_rgb, rgb_of, sum_of, rescale,
}
use asusrouter.Color.Parsing.{normalize_input_rgb, from_rgbwb, read_channel, parse_colors}
use asusrouter.Color.Bounds.{natural}
use asusrouter.Color.Brightness.{to_rgb-from_rgbwb}
use asusrouter.Aura.{AuraState, Lights, static}
use asusrouter.Aura.Palette.{Palette, color, no_color, fresh, set_color}
use asusrouter.Aura.State.{scheme_key, set_state}
use asusrouter.Aura.Reading.{effects_from, lights_of, aura_with, process_aura}
use asusrouter.Aura.Painted.{IsPainted}
use asusrouter.Aura.Zones.{set_color_exact}
use asusrouter.Aura.Kept.{channels, SameChannels, set_state-SameChannels}
use asusrouter.Aura.Active.{IsActive, process_aura-IsActive}

abbrev no_floats : Text → Option ℤ
no_floats s = none

abbrev orange_text : Source
orange_text = text_of (codes "60,30,0")

-- Its brightness is 60 of 128.
abbrev orange : ColorRgbb
orange = record { rgb = natural 128 64 0; br = pos 60; scale = pos 128 }

orange_channels : normalize_input_rgb no_floats orange_text ≡ some (natural 60 30 0)
unfolding normalize_input_rgb
orange_channels = refl

orange_read : from_rgbwb no_floats orange_text none (pos 128) ≡ some orange
unfolding from_rgbwb normalize_input_rgb normalize_with normalize_scale rescale
orange_read = refl

to_rgb-from_rgbwb_example : to_rgb orange none ≡ rgb_of (natural 60 30 0) (pos 128)
to_rgb-from_rgbwb_example =
    to_rgb-from_rgbwb no_floats orange_text 60 30 0 128 orange orange_channels orange_read

-- A text with one colour, and one number more.
abbrev four_numbers : Text
four_numbers = codes "60,30,0,5"

four_parsed : parse_colors no_floats four_numbers ≡ some (some (orange ∷ []))
unfolding parse_colors normalize_with normalize_scale rescale read_channel
four_parsed = refl

-- One colour is not enough for three zones.
set_color_exact_example :
    ((3 ≤ 2 * length (orange ∷ []))
      × (q : Palette) × (set_color (color (natural 0 0 9)) none 3 (fresh (orange ∷ [])) ≡ some q)
      × ((j : ℕ) → j < 3 → IsPainted (natural 0 0 9) q j))
    ⊎ ((2 * length (orange ∷ []) < 3)
        × (set_color (color (natural 0 0 9)) none 3 (fresh (orange ∷ [])) ≡ none))
set_color_exact_example = set_color_exact (natural 0 0 9) 2 (orange ∷ [])

-- The state of a router with one zone that shows the orange, and that at its full brightness.
abbrev shown : ColorRgbb → AuraState
shown c = record {
  state = none;
  night_mode = none;
  scheme = static;
  scheme_prev = static;
  effect = (2, some (c ∷ [])) ∷ [];
  active = none;
  zones = 1;
}

abbrev full_orange : ColorRgbb
full_orange = record orange { br = pos 128 }

same_effects :
    (n : ℕ)
    → channels (lookup n (shown orange).effect) ≡ channels (lookup n (shown full_orange).effect)
unfolding lookup
same_effects n =
    elim (ℕ_discrete 2 n)
      as (λ d.
        channels (ite d (some (some (orange ∷ []))) none)
        ≡ channels (ite d (some (some (full_orange ∷ []))) none)) [ yes p ↦ refl | no p ↦ refl ]

same_orange : SameChannels (shown orange) (shown full_orange)
same_orange = record { same_scheme = refl; same_previous = refl; same_channels = same_effects }

set_state-SameChannels_example :
    set_state no_floats 1 (some (shown orange)) static no_color null none
    ≡ set_state no_floats 1 (some (shown full_orange)) static no_color null none
set_state-SameChannels_example =
    set_state-SameChannels no_floats no_color null none 1 (shown orange) (shown full_orange) static
      same_orange

abbrev said : Dict Text Value
said =
    (codes "ledg_scheme", text (codes "2"))
    ∷ (codes "ledg_scheme_old", text (codes "2"))
    ∷ (codes "ledg_rgb2", text (codes "60,30,0"))
    ∷ []

abbrev lights : Lights
lights = record { zone_colors = orange ∷ []; color = orange; brightness = pos 60 }

abbrev read : AuraState
read = record (shown orange) { active = some lights }

said_effects : effects_from no_floats [] said ≡ some read.effect
unfolding effects_from parse_colors read_channel normalize_with normalize_scale rescale insert
said_effects = refl

lit_orange : lights_of (orange ∷ []) ≡ some lights
unfolding lights_of rgb_of normalize_scale rescale sum_of
lit_orange = refl

said_with : aura_with no_floats said read.effect ≡ read
unfolding aura_with Text-discrete ℕ_discrete
said_with = rw lit_orange refl

process_aura-said : process_aura no_floats said ≡ some read
unfolding process_aura
process_aura-said = ap (map_option (aura_with no_floats said)) said_effects ∙ ap some said_with

process_aura-IsActive_example : IsActive lights
process_aura-IsActive_example =
    process_aura-IsActive no_floats said read lights process_aura-said refl
