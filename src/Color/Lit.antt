-- ===== src/Color/Lit.antt =====
-- asusrouter/modules/color.py: how bright a colour is that is read.
use mathlib.Core.Path.{subst}
use mathlib.Core.Option.{map as map_option, some_inj, map-eq-some_iff, some-ne-none}
use asusrouter.Base.{
  ℕ, zero, suc, ◌≤◌, ◌≡◌, inl, inr, refl, sym, true, false, Option, none, some, List, [], ◌∷◌, All,
  Bool-cases, arith,
}
use asusrouter.Base.Int.{ℤ, pos, negsuc, pos_part, ltb_ℤ}
use asusrouter.Base.Text.{Text, split}
use asusrouter.Tools.Converters.{clean_string}
use asusrouter.Tools.Scaling.{round_quotient, ◌*ℤ◌, min_ℤ, max_ℤ, int_eq, scale_value_int}
use asusrouter.Color.{
  Rgb, ColorRgbb, brightest, rescale, normalize_scale, normalize_with, all_read, with_brightness,
  prepended, colors_or_none, delimiter, default_scale,
}
use asusrouter.Color.Parsing.{read_channel, parse_groups, parsed, parse_colors}

min-le : (x : ℤ) (s : ℕ) → pos_part (min_ℤ x (pos s)) ≤ s
min-le (pos n) s = ground arith
min-le (negsuc n) s = ground arith

-- What is scaled from another scale is at most the new one.
scale_value_int-le :
    (v f : ℤ) (s : ℕ) → int_eq f (pos s) ≡ false → pos_part (scale_value_int v (pos s) (some f)) ≤ s
unfolding scale_value_int
scale_value_int-le v (pos zero) s h = rw h (omega arith)
scale_value_int-le v (pos (suc n)) s h = rw h (min-le (round_quotient (v *ℤ pos s) (pos (suc n))) s)
scale_value_int-le v (negsuc n) s h = min-le (round_quotient (v *ℤ pos s) (negsuc n)) s

max-le : (x y : ℤ) (s : ℕ) → pos_part x ≤ s → pos_part y ≤ s → pos_part (max_ℤ x y) ≤ s
max-le x y s h k = elim (Bool-cases (ltb_ℤ x y)) [ inl e ↦ rw e k | inr e ↦ rw e h ]

brightest-le :
    (c : Rgb) (s : ℕ)
    → pos_part c.r ≤ s
    → pos_part c.g ≤ s
    → pos_part c.b ≤ s
    → pos_part (brightest c) ≤ s
brightest-le c s hr hg hb = max-le (max_ℤ c.r c.g) c.b s (max-le c.r c.g s hr hg) hb

dark : (z : ℤ) (s : ℕ) → ltb_ℤ (pos s) z ≡ false → pos_part z ≤ s
dark (pos n) s h = ground (arith, h)
dark (negsuc n) s h = omega arith

bright : (z : ℤ) (s : ℕ) → ltb_ℤ (pos s) z ≡ true → int_eq z (pos s) ≡ false
bright (pos n) s h = ground (arith, h)
bright (negsuc n) s h = refl

-- A colour that is normalized is at most as bright as its scale.
pub normalize_scale-brightest :
    (c : Rgb) (s : ℕ) → pos_part (brightest (normalize_scale c (pos s))) ≤ s
unfolding normalize_scale rescale
normalize_scale-brightest c s = elim (Bool-cases (ltb_ℤ (pos s) (brightest c))) [
  | inl e ↦
      (let n = bright (brightest c) s e in
        rw e (
          brightest-le (rescale (pos s) (brightest c) c) s
            (scale_value_int-le c.r (brightest c) s n) (scale_value_int-le c.g (brightest c) s n)
            (scale_value_int-le c.b (brightest c) s n)))
  | inr e ↦ rw e (dark (brightest c) s e)
]

-- A colour that is at most as bright as a scale.
abbrev pub IsLit : ℕ → ColorRgbb → Type 0
IsLit s c = pos_part c.br ≤ s

or_none_lem :
    (l cs : List ColorRgbb) → All (IsLit 128) l → colors_or_none l ≡ some cs → All (IsLit 128) cs
or_none_lem [] cs h e = absurd (some-ne-none cs (sym e))
or_none_lem (c ∷ l) cs h e = subst (All (IsLit 128)) (some_inj.0 e) h

with_brightness-IsLit :
    (s : ℕ) (o : Option Rgb) (c : ColorRgbb)
    → map_option (with_brightness (pos s)) (normalize_with o (pos s)) ≡ some c
    → IsLit s c
unfolding normalize_with
with_brightness-IsLit s none c h = absurd (some-ne-none c (sym h))
with_brightness-IsLit s (some n) c h =
    subst (IsLit s) (some_inj.0 h) (normalize_scale-brightest n s)

prepended-All :
    (s : ℕ) (o : Option ColorRgbb) (rest : Option (List ColorRgbb)) (cs : List ColorRgbb)
    → ((c : ColorRgbb) → o ≡ some c → IsLit s c)
    → ((l : List ColorRgbb) → rest ≡ some l → All (IsLit s) l)
    → prepended o rest ≡ some cs
    → All (IsLit s) cs
prepended-All s none rest cs h k e = absurd (some-ne-none cs (sym e))
prepended-All s (some c) none cs h k e = absurd (some-ne-none cs (sym e))
prepended-All s (some c) (some l) cs h k e =
    subst (All (IsLit s)) (some_inj.0 e) (h c refl, k l refl)

module _ (float_int : Text → Option ℤ) where
  parse_groups-IsLit :
      (s : ℕ) (pieces : List Text) (cs : List ColorRgbb)
      → parse_groups float_int (pos s) pieces ≡ some cs
      → All (IsLit s) cs
  unfolding parse_groups
  parse_groups-IsLit s [] cs h = subst (All (IsLit s)) (some_inj.0 h) tt
  parse_groups-IsLit s (r ∷ []) cs h = subst (All (IsLit s)) (some_inj.0 h) tt
  parse_groups-IsLit s (r ∷ g ∷ []) cs h = subst (All (IsLit s)) (some_inj.0 h) tt
  parse_groups-IsLit s (r ∷ g ∷ b ∷ rest) cs h =
      let o =
        all_read (read_channel float_int r) (read_channel float_int g) (read_channel float_int b) in
      prepended-All s _ (parse_groups float_int (pos s) rest) cs (with_brightness-IsLit s o)
        (parse_groups-IsLit s rest) h

  parsed-IsLit :
      (s : Option Text) (cs : List ColorRgbb)
      → parsed float_int s ≡ some (some cs)
      → All (IsLit 128) cs
  unfolding parsed
  parsed-IsLit none cs h = absurd (some-ne-none cs (sym (some_inj.0 h)))
  parsed-IsLit (some s) cs h =
      let (l, e, k) =
        (map-eq-some_iff colors_or_none
            (parse_groups float_int default_scale (split delimiter s))).0
          h in
      or_none_lem l cs (parse_groups-IsLit 128 (split delimiter s) l e) k

  -- Whatever a text has for numbers, a colour that is parsed of it is at most as bright as the scale.
  pub parse_colors-IsLit :
      (s : Text) (cs : List ColorRgbb)
      → parse_colors float_int s ≡ some (some cs)
      → All (IsLit 128) cs
  unfolding parse_colors
  parse_colors-IsLit s cs h = parsed-IsLit (clean_string s) cs h
