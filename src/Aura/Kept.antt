-- ===== src/Aura/Kept.antt =====
-- asusrouter/modules/aura.py: what `set_state` takes from the stored colours.
use mathlib.Core.Option.{map as map_option}
use asusrouter.Base.{ℕ, zero, suc, ◌≡◌, refl, sym, ap, ◌∙◌, Option, none, some, List, [], ◌∷◌, map}
use asusrouter.Base.Int.{ℤ}
use asusrouter.Base.Dict.{lookup}
use asusrouter.Base.Text.{Text}
use asusrouter.Tools.Converters.{Value}
use asusrouter.Color.{Rgb, ColorRgbb, full, default_scale}
use asusrouter.Aura.{AsusAura, on, AuraState, color_number, get_default_aura_color}
use asusrouter.Aura.Palette.{Palette, Paint, fresh}
use asusrouter.Aura.State.{
  scheme_key, copies, stored_colors, recolor, send_scheme, chosen_scheme, send_chosen, set_state,
}

-- The channels of stored colours, without their brightness and scale.
abbrev pub channels : Option (Option (List ColorRgbb)) → Option (Option (List Rgb))
channels = map_option (map_option (map λ c. c.rgb))

-- The same schemes, and for each scheme the same channels.
pub record SameChannels (a b : AuraState) : Type 0 where
  pub same_scheme : a.scheme ≡ b.scheme
  pub same_previous : a.scheme_prev ≡ b.scheme_prev
  pub same_channels : (n : ℕ) → channels (lookup n a.effect) ≡ channels (lookup n b.effect)

abbrev from_channels : ℕ → Option (Option (List Rgb)) → Option Palette
from_channels zones none = some (copies (get_default_aura_color zones))
from_channels zones (some none) = none
from_channels zones (some (some cs)) = some (fresh (map (λ c. full c default_scale) cs))

map-channels :
    (cs : List ColorRgbb)
    → map (λ c. full c.rgb default_scale) cs
      ≡ map (λ c. full c default_scale) (map (λ (c : ColorRgbb). c.rgb) cs)
map-channels [] = refl
map-channels (c ∷ cs) = ap (λ rest. full c.rgb default_scale ∷ rest) (map-channels cs)

from_channels_lem :
    (zones : ℕ) (o : Option (Option (List ColorRgbb)))
    → map_option copies (stored_colors zones o) ≡ from_channels zones (channels o)
unfolding copies
from_channels_lem zones none = refl
from_channels_lem zones (some none) = refl
from_channels_lem zones (some (some cs)) = ap (λ l. some (fresh l)) (map-channels cs)

module _ (float_int : Text → Option ℤ) (new : Paint) (br : Value) (z : Option ℤ) where
  send_scheme-SameChannels :
      (zones : ℕ) (a b : AuraState) (state : AsusAura) (o : Option ℕ)
      → SameChannels a b
      → send_scheme float_int (some a) new br z zones state o
        ≡ send_scheme float_int (some b) new br z zones state o
  unfolding send_scheme
  send_scheme-SameChannels zones a b state none h = refl
  send_scheme-SameChannels zones a b state (some n) h =
      ap (recolor float_int state new br z zones) (
        from_channels_lem zones (lookup n a.effect)
        ∙ ap (from_channels zones) (h.same_channels n)
        ∙ sym (from_channels_lem zones (lookup n b.effect)))

  send_chosen-SameChannels :
      (zones : ℕ) (a b : AuraState) (state : Option AsusAura)
      → SameChannels a b
      → send_chosen float_int (some a) new br z zones state
        ≡ send_chosen float_int (some b) new br z zones state
  unfolding send_chosen
  send_chosen-SameChannels zones a b none h = refl
  send_chosen-SameChannels zones a b (some state) h =
      send_scheme-SameChannels zones a b state (color_number state) h

  chosen_scheme-SameChannels :
      (a b : AuraState) (state : AsusAura)
      → SameChannels a b
      → chosen_scheme state (some a) ≡ chosen_scheme state (some b)
  chosen_scheme-SameChannels a b on h = rw h.same_scheme (rw h.same_previous refl)
  chosen_scheme-SameChannels a b _ h = refl

  -- What is sent does not depend on the brightness that the stored colours have: two known states with
  -- the same schemes and the same channels in each effect lead to the same request or error.
  pub set_state-SameChannels :
      (zones : ℕ) (a b : AuraState) (state : AsusAura)
      → SameChannels a b
      → set_state float_int zones (some a) state new br z
        ≡ set_state float_int zones (some b) state new br z
  unfolding set_state
  set_state-SameChannels zero a b state h = refl
  set_state-SameChannels (suc n) a b state h =
      ap (send_chosen float_int (some a) new br z (suc n)) (chosen_scheme-SameChannels a b state h)
      ∙ send_chosen-SameChannels (suc n) a b (chosen_scheme state (some b)) h
