-- ===== src/Aura/Reading.antt =====
-- asusrouter/modules/aura.py: what `process_aura` makes of an answer of the router.
use mathlib.Core.Option.{map as map_option}
use asusrouter.Base.{
  ℕ, zero, suc, ◌+◌, ◌-◌, ◌*◌, Bool, false, ◌&&◌, Option, none, some, List, [], ◌∷◌, map, length,
  leb, if◌then◌else◌,
}
use asusrouter.Base.Int.{ℤ, pos, negsuc}
use asusrouter.Base.Dict.{Dict, lookup, insert}
use asusrouter.Base.Text.{Text, codes, starts_with, text_key}
use asusrouter.Tools.Converters.{Value, null, bool, int, text, safe_bool, safe_int}
use asusrouter.Tools.Scaling.{max_ℤ}
use asusrouter.Color.{ColorRgb, ColorRgbb, full, default_scale, average_color, set_brightness}
use asusrouter.Color.Parsing.{parse_colors}
use asusrouter.Aura.{
  AsusAura, unknown, on, off, gradient, static, breathing, evolution, rainbow, wave, marquee,
  Effect, Lights, AuraState, aura_value,
}
use asusrouter.Aura.State.{scheme_key}

-- `safe_enum(AsusAura, value, default_value=-999)`
abbrev pub scheme_of : Option ℤ → AsusAura
scheme_of (some (negsuc zero)) = on
scheme_of (some (pos zero)) = off
scheme_of (some (pos (suc zero))) = gradient
scheme_of (some (pos (suc (suc zero)))) = static
scheme_of (some (pos (suc (suc (suc zero))))) = breathing
scheme_of (some (pos (suc (suc (suc (suc zero)))))) = evolution
scheme_of (some (pos (suc (suc (suc (suc (suc zero))))))) = rainbow
scheme_of (some (pos (suc (suc (suc (suc (suc (suc zero)))))))) = wave
scheme_of (some (pos (suc (suc (suc (suc (suc (suc (suc zero))))))))) = marquee
scheme_of _ = unknown

-- `data.get(key)`
abbrev pub or_null : Option Value → Value
or_null none = null
or_null (some v) = v

abbrev pub number_from : ℕ → Text → ℕ
number_from acc [] = acc
number_from acc (c ∷ s) =
    let rest = number_from (acc * 10 + (c - b'0')) s in
    if leb b'0' c && leb c b'9' then rest else acc

-- The digits that a text begins with, if there is one.
abbrev pub number_at_start : Text → Option ℕ
number_at_start [] = none
number_at_start (c ∷ s) = if leb b'0' c && leb c b'9' then some (number_from 0 (c ∷ s)) else none

abbrev pub drop : ℕ → Text → Text
drop zero s = s
drop (suc n) [] = []
drop (suc n) (c ∷ s) = drop n s

-- The number of a key that `ledg_rgb(\d+)` matches, for ASCII digits: more may follow.
unfoldable pub effect_number : Text → Option ℕ
effect_number key =
    if starts_with (codes "ledg_rgb") key then number_at_start (drop 8 key) else none

-- `effect.get(scheme.value)`
abbrev pub effect_at : ℤ → Effect → Option (Option (List ColorRgbb))
effect_at (pos n) effect = lookup n effect
effect_at (negsuc n) effect = none

abbrev pub colors_at : Option (Option (List ColorRgbb)) → List ColorRgbb
colors_at (some (some cs)) = cs
colors_at _ = []

-- A colour with a brightness, as a plain one.
abbrev pub as_rgb : ColorRgbb → ColorRgb
as_rgb c = record { rgb = c.rgb; scale = c.scale }

-- The largest brightness, from 0.
abbrev pub most : ℤ → List ColorRgbb → ℤ
most br [] = br
most br (c ∷ cs) = most (max_ℤ br c.br) cs

unfoldable pub lights_of : List ColorRgbb → Option Lights
unfolding full average_color set_brightness
lights_of [] = none
lights_of (c ∷ cs) =
    let br = most (pos 0) (c ∷ cs) in
    some (record {
      zone_colors = c ∷ cs;
      color = set_brightness br (full (average_color (map as_rgb (c ∷ cs))).rgb default_scale);
      brightness = br;
    })

-- The state of a router that shows nothing is `False`.
abbrev pub state_with : AsusAura → Option Bool → Option Bool
state_with off state = some false
state_with scheme state = state

-- The first argument is `safe_int`'s reading of floats.
module _ (float_int : Text → Option ℤ) where
  -- `parse_colors` of a value; a number or `True` raises.
  unfoldable pub parse_value : Value → Option (Option (List ColorRgbb))
  unfolding parse_colors
  parse_value (text s) = parse_colors float_int s
  parse_value null = some none
  parse_value (bool false) = some none
  parse_value (int (pos zero)) = some none
  parse_value _ = none

  abbrev pub add_effect : Option ℕ → Option (Option (List ColorRgbb)) → Effect → Option Effect
  add_effect none cs effect = some effect
  add_effect (some n) none effect = none
  add_effect (some n) (some cs) effect = some (insert n cs effect)

  abbrev pub then_effect : Option Effect → (Effect → Option Effect) → Option Effect
  then_effect none f = none
  then_effect (some effect) f = f effect

  unfoldable pub effects_from : Effect → Dict Text Value → Option Effect
  unfolding effect_number parse_value
  effects_from effect [] = some effect
  effects_from effect ((key, v) ∷ d) =
      then_effect (add_effect (effect_number key) (parse_value v) effect) (λ e. effects_from e d)

  -- `get_scheme`
  unfoldable pub get_scheme : Text → Dict Text Value → AsusAura
  unfolding lookup safe_int
  get_scheme key d = scheme_of (safe_int float_int (or_null (lookup key d)) none)

  -- What is made of the effects.
  unfoldable pub aura_with : Dict Text Value → Effect → AuraState
  unfolding get_scheme lights_of lookup safe_bool
  aura_with d effect =
      let scheme = get_scheme (codes "ledg_scheme") d in
      record {
        state = state_with scheme (safe_bool (or_null (lookup (codes "AllLED") d)));
        night_mode = safe_bool (or_null (lookup (codes "ledg_night_mode") d));
        scheme = scheme;
        scheme_prev = get_scheme (codes "ledg_scheme_old") d;
        effect = effect;
        active = lights_of (colors_at (effect_at (aura_value scheme) effect));
        zones = length (colors_at (lookup 2 effect));
      }

  -- `process_aura`
  unfoldable pub process_aura : Dict Text Value → Option AuraState
  unfolding effects_from aura_with
  process_aura d = map_option (aura_with d) (effects_from [] d)
