-- ===== src/Color/Zones.antt =====
-- asusrouter/modules/color.py: the zones that a text has colours for.
use mathlib.Core.Option.{map-eq-some_iff, some_inj}
use asusrouter.Base.{
  ℕ, suc, ◌/◌, ◌≡◌, refl, sym, ap, ◌∙◌, Option, none, some, List, [], ◌∷◌, length, arith,
}
use asusrouter.Base.Int.{ℤ}
use asusrouter.Base.Text.{Text, split}
use asusrouter.Tools.Converters.{clean_string}
use asusrouter.Color.{
  ColorRgbb, default_scale, delimiter, prepended, colors_or_none, zones_in, color_zone,
}
use asusrouter.Color.Parsing.{parse_groups, parsed, parse_colors}

abbrev pub colors_in : Option (List ColorRgbb) → ℕ
colors_in none = 0
colors_in (some cs) = length cs

colors_in-colors_or_none : (cs : List ColorRgbb) → colors_in (colors_or_none cs) ≡ length cs
colors_in-colors_or_none [] = refl
colors_in-colors_or_none (c ∷ cs) = refl

third : (n : ℕ) → suc (suc (suc n)) / 3 ≡ suc (n / 3)
third n = omega arith

prepended_inv :
    {A : Type 0} (a : Option A) (rest : Option (List A)) (l : List A)
    → prepended a rest ≡ some l
    → (r : List A) × (rest ≡ some r) × (length l ≡ suc (length r))
prepended_inv none rest l h = absurd (ground (arith, h))
prepended_inv (some a) none l h = absurd (ground (arith, h))
prepended_inv (some a) (some r) l h = (r, refl, ap length (sym (some_inj.0 h)))

module _ (float_int : Text → Option ℤ) where
  parse_groups-length :
      (scale : ℤ) (pieces : List Text) (cs : List ColorRgbb)
      → parse_groups float_int scale pieces ≡ some cs
      → length cs ≡ length pieces / 3
  unfolding parse_groups
  parse_groups-length scale [] cs h = ap length (sym (some_inj.0 h))
  parse_groups-length scale (r ∷ []) cs h = ap length (sym (some_inj.0 h))
  parse_groups-length scale (r ∷ g ∷ []) cs h = ap length (sym (some_inj.0 h))
  parse_groups-length scale (r ∷ g ∷ b ∷ rest) cs h =
      let (tail, e, l) = prepended_inv _ (parse_groups float_int scale rest) cs h in
      l ∙ ap suc (parse_groups-length scale rest tail e) ∙ sym (third (length rest))

  parsed_lem :
      (s : Option Text) (cs : Option (List ColorRgbb))
      → parsed float_int s ≡ some cs
      → colors_in cs ≡ zones_in s
  unfolding parsed
  parsed_lem none cs h = ap colors_in (sym (some_inj.0 h))
  parsed_lem (some s) cs h =
      let pieces = split delimiter s in
      let (l, e, k) =
        (map-eq-some_iff colors_or_none (parse_groups float_int default_scale pieces)).0 h in
      sym (ap colors_in k)
      ∙ colors_in-colors_or_none l
      ∙ parse_groups-length default_scale pieces l e

  -- A text that is parsed gives a colour for each zone that is counted in it.
  pub parse_colors-color_zone :
      (s : Text) (cs : Option (List ColorRgbb))
      → parse_colors float_int s ≡ some cs
      → colors_in cs ≡ color_zone s
  unfolding parse_colors color_zone
  parse_colors-color_zone s cs h = parsed_lem (clean_string s) cs h
