-- ===== src/Aura/Palette.antt =====
-- asusrouter/modules/aura.py: a list of colours that are changed in place.
pub mod Positions
use asusrouter.Base.{
  ℕ, zero, suc, ◌+◌, ◌-◌, ◌%◌, Bool, true, false, Option, none, some, List, [], ◌∷◌, ◌++◌, map,
  length, ltb, if◌then◌else◌,
}
use asusrouter.Base.Positions.{item_at, change_at, index}
use asusrouter.Base.Int.{ℤ, pos, negsuc, ltb_ℤ}
use asusrouter.Tools.Converters.{Value, safe_int}
use asusrouter.Base.Text.{Text}
use asusrouter.Color.{Rgb, ColorRgbb, paint, set_brightness}
use asusrouter.Aura.{take}

-- The objects, and the list as their numbers.
pub record Palette : Type 0 where
  pub objects : List ColorRgbb
  pub refs : List ℕ

-- What is to be painted: nothing, a colour, a list in which only some are colours, or what is none of
-- them.
pub data Paint : Type 0 where
  no_color : Paint
  color : Rgb → Paint
  colors : List (Option Rgb) → Paint
  not_a_color : Paint

abbrev pub range : ℕ → ℕ → List ℕ
range k zero = []
range k (suc n) = k ∷ range (suc k) n

-- A list of objects, each of its own.
abbrev pub fresh : List ColorRgbb → Palette
fresh cs = record { objects = cs; refs = range 0 (length cs) }

-- `colors[i]`
abbrev pub object_at : Palette → ℕ → Option ColorRgbb
object_at p i = elim (item_at i p.refs) [ none ↦ none | some r ↦ item_at r p.objects ]

-- A method of `colors[i]` that changes it; `none` is an `IndexError`.
abbrev pub modify_ref : Option ℕ → (ColorRgbb → ColorRgbb) → Palette → Option Palette
modify_ref none f p = none
modify_ref (some r) f p = some (record p { objects = change_at r f p.objects })

abbrev pub modify : ℕ → (ColorRgbb → ColorRgbb) → Palette → Option Palette
modify i f p = modify_ref (item_at i p.refs) f p

-- The colours are repeated once at most, by reference.
abbrev pub extend : ℕ → Palette → Palette
extend zones p =
    if ltb (length p.refs) zones
    then record p { refs = p.refs ++ take (zones - length p.refs) p.refs }
    else p

abbrev pub and_then : Option Palette → (Palette → Option Palette) → Option Palette
and_then none f = none
and_then (some p) f = f p

-- The same change at so many indices from one on.
unfoldable pub modify_from : ℕ → ℕ → (ColorRgbb → ColorRgbb) → Palette → Option Palette
modify_from i zero f p = some p
modify_from i (suc n) f p = and_then (modify i f p) (modify_from (suc i) n f)

abbrev pub modify_at : Option ℕ → (ColorRgbb → ColorRgbb) → Palette → Option Palette
modify_at none f p = none
modify_at (some i) f p = modify i f p

-- One index of the loop over a list of colours: what is no colour is not looked up.
abbrev pub paint_one : ℕ → Option (Option Rgb) → Palette → Option Palette
paint_one i (some (some c)) p = modify i (paint c) p
paint_one i _ p = some p

unfoldable pub paint_list : ℕ → ℕ → List (Option Rgb) → Palette → Option Palette
paint_list i zero cs p = some p
paint_list i (suc n) cs p =
    and_then (paint_one i (item_at (i % length cs) cs) p) (paint_list (suc i) n cs)

-- Whether a zone is given and below the number of zones.
unfoldable pub paint_zone : Option ℤ → ℕ → Rgb → Palette → Option Palette
paint_zone none zones c p = modify_from 0 zones (paint c) p
paint_zone (some z) zones c p =
    if ltb_ℤ z (pos zones)
    then modify_at (index z (length p.refs)) (paint c) p
    else modify_from 0 zones (paint c) p

abbrev pub zones_of : ℕ → Palette → ℕ
zones_of zero p = length p.refs
zones_of (suc n) p = suc n

unfoldable pub paint_colors : Paint → Option ℤ → ℕ → Palette → Option Palette
paint_colors (color c) z zones p = paint_zone z zones c p
paint_colors (colors (c ∷ cs)) z zones p = paint_list 0 zones (c ∷ cs) p
paint_colors _ z zones p = some p

-- `set_color`; the number of zones is 0 if there is none.
unfoldable pub set_color : Paint → Option ℤ → ℕ → Palette → Option Palette
set_color new z zones p = paint_colors new z (zones_of zones p) (extend (zones_of zones p) p)

-- Whether the zone is an index of the list.
abbrev pub zone_in : Option ℤ → ℕ → Option ℕ
zone_in (some (pos i)) n = if ltb i n then some i else none
zone_in _ n = none

unfoldable pub set_bright : Option ℤ → Option ℕ → Palette → Option Palette
set_bright none i p = some p
set_bright (some br) (some i) p = modify i (set_brightness br) p
set_bright (some br) none p = modify_from 0 (length p.refs) (set_brightness br) p

-- `set_brightness` on a list.
unfoldable pub set_brightness_of : Option ℤ → Option ℤ → Palette → Option Palette
set_brightness_of br z p = set_bright br (zone_in z (length p.refs)) p
