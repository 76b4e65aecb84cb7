-- ===== src/Aura/State.antt =====
-- asusrouter/modules/aura.py: what `set_state` sends.
use mathlib.Core.Option.{map as map_option}
use asusrouter.Base.{ℕ, zero, suc, Option, none, some, List, [], ◌∷◌, ◌++◌, map}
use asusrouter.Base.Int.{ℤ}
use asusrouter.Base.Dict.{Key, lookup}
use asusrouter.Base.Decimal.{show_int}
use asusrouter.Base.Text.{Text, join}
use asusrouter.Tools.Converters.{Value, safe_int}
use asusrouter.Color.{Rgb, ColorRgbb, full, default_scale, delimiter, to_rgb}
use asusrouter.Aura.{
  AsusAura, on, color_number, AuraState, get_default_aura_color, get_scheme_from_state,
}
use asusrouter.Base.Positions.{item_at}
use asusrouter.Aura.Palette.{Palette, Paint, fresh, and_then, set_color, set_brightness_of}
use native.Mathlib.Decide.{ℕ_discrete}

instance abbrev pub scheme_key : Key ℕ
scheme_key = record { same = ℕ_discrete }

-- What is given to the callback: a scheme, or a scheme with colours. Without zones nothing is sent.
pub data Sent : Type 0 where
  not_sent : Sent
  only_scheme : AsusAura → Sent
  with_colors : AsusAura → Text → Sent

-- `str(color)`
unfoldable pub show_rgb : Rgb → Text
unfolding show_int
show_rgb c = show_int c.r ++ (delimiter ∷ (show_int c.g ++ (delimiter ∷ show_int c.b)))

-- The colours of a palette, as the list has them.
unfoldable pub colors_of : List ColorRgbb → List ℕ → List ColorRgbb
colors_of objects [] = []
colors_of objects (i ∷ refs) =
    let rest = colors_of objects refs in
    elim (item_at i objects) [ none ↦ rest | some c ↦ c ∷ rest ]

unfoldable pub color_text : Palette → Text
unfolding join colors_of show_rgb to_rgb
color_text p =
    join (delimiter ∷ []) (map (λ c. show_rgb (to_rgb c none).rgb) (colors_of p.objects p.refs))

-- The colours to start from, by what the effects have; a scheme with the value `None` raises.
abbrev pub stored_colors : ℕ → Option (Option (List ColorRgbb)) → Option (List ColorRgbb)
stored_colors zones none = some (get_default_aura_color zones)
stored_colors zones (some cs) = cs

-- `[ColorRGBB(color) ...]`
unfoldable pub copies : List ColorRgbb → Palette
copies cs = fresh (map (λ c. full c.rgb default_scale) cs)

abbrev pub sent_with : AsusAura → Option Palette → Option Sent
sent_with state none = none
sent_with state (some p) = some (with_colors state (color_text p))

-- The scheme that is to be shown; `none` is an `AttributeError` on a state that is not known.
abbrev pub chosen_scheme : AsusAura → Option AuraState → Option AsusAura
chosen_scheme on none = none
chosen_scheme on (some a) = some (get_scheme_from_state a)
chosen_scheme state known = some state

-- The first argument is `safe_int`'s reading of floats.
module _ (float_int : Text → Option ℤ) where
  unfoldable pub recolor : AsusAura → Paint → Value → Option ℤ → ℕ → Option Palette → Option Sent
  unfolding safe_int
  recolor state new br z zones p = sent_with state (
      and_then (and_then p (set_color new z zones))
        (set_brightness_of (safe_int float_int br none) z))

  unfoldable pub send_scheme :
      Option AuraState → Paint → Value → Option ℤ → ℕ → AsusAura → Option ℕ → Option Sent
  unfolding recolor lookup
  send_scheme known new br z zones state none = some (only_scheme state)
  send_scheme none new br z zones state (some n) = none
  send_scheme (some a) new br z zones state (some n) =
      recolor state new br z zones (map_option copies (stored_colors zones (lookup n a.effect)))

  unfoldable pub send_chosen :
      Option AuraState → Paint → Value → Option ℤ → ℕ → Option AsusAura → Option Sent
  send_chosen known new br z zones none = none
  send_chosen known new br z zones (some state) =
      send_scheme known new br z zones state (color_number state)

  -- `set_state`, by the number of zones, the known state, the colour, the brightness and the zone.
  unfoldable pub set_state :
      ℕ → Option AuraState → AsusAura → Paint → Value → Option ℤ → Option Sent
  unfolding send_chosen
  set_state zero known state new br z = some not_sent
  set_state (suc n) known state new br z =
      send_chosen known new br z (suc n) (chosen_scheme state known)
