-- ===== src/Color/Brightness.antt =====
-- asusrouter/modules/color.py: a colour with its brightness, turned back into a plain one.
use asusrouter.Base.{ℕ, ◌≤◌, ◌≡◌, refl, sym, ap, ◌∙◌, Option, none, some}
use mathlib.Core.Option.{map as map_option, some_inj}
use asusrouter.Base.Text.{Text}
use asusrouter.Base.Int.{ℤ, pos}
use asusrouter.Tools.Scaling.Natural.{scaled, scaled-scaled}
use asusrouter.Color.{
  Rgb, ColorRgbb, Source, normalize_scale, normalize_with, with_brightness, to_channels, to_rgb,
  rgb_of,
}
use asusrouter.Color.Parsing.{normalize_input_rgb, from_rgbwb}
use asusrouter.Color.Bounds.{
  natural, brightness, brightest-natural, brightness-le, brightness_below, rescale-natural,
  IsWithin, normalize_scale_same, normalize_scale-IsWithin,
}

to_channels-natural :
    (x y z s : ℕ)
    → x ≤ s
    → y ≤ s
    → z ≤ s
    → to_channels (with_brightness (pos s) (natural x y z)) ≡ natural x y z
unfolding to_channels
to_channels-natural x y z s hx hy hz =
    let b = brightness x y z in
    let (lx, ly, lz) = brightness-le x y z in
    let k = brightness_below x y z s hx hy hz in
    rw (brightest-natural x y z) (
      rw (rescale-natural x y z s b) (
        rw (rescale-natural (scaled x s b) (scaled y s b) (scaled z s b) b s) (
          rw (scaled-scaled x s b lx k)
            (rw (scaled-scaled y s b ly k) (rw (scaled-scaled z s b lz k) refl)))))

to_rgb-within :
    (s : ℕ) (c : Rgb)
    → IsWithin s c
    → to_rgb (with_brightness (pos s) c) none ≡ record { rgb = c; scale = pos s }
unfolding to_rgb rgb_of
to_rgb-within s c (x, y, z, e, hx, hy, hz) = rw e (
    rw (to_channels-natural x y z s hx hy hz)
      (ap (λ c. record { rgb = c; scale = pos s }) (normalize_scale_same x y z s hx hy hz)))

from_rgbwb_inv :
    (float_int : Text → Option ℤ) (source : Source) (n : Rgb) (s : ℤ) (c : ColorRgbb)
    → normalize_input_rgb float_int source ≡ some n
    → from_rgbwb float_int source none s ≡ some c
    → with_brightness s (normalize_scale n s) ≡ c
unfolding from_rgbwb normalize_with
from_rgbwb_inv float_int source n s c h k =
    let e : map_option (with_brightness s) (normalize_with (normalize_input_rgb float_int source) s)
        ≡ some c =
      k in
    some_inj.0 (sym (ap (λ o. map_option (with_brightness s) (normalize_with o s)) h) ∙ e)

-- A colour that is read with its brightness and turned back is what a plain colour is made of the
-- same channels, if they and the scale are no negative numbers.
pub to_rgb-from_rgbwb :
    (float_int : Text → Option ℤ) (source : Source) (x y z s : ℕ) (c : ColorRgbb)
    → normalize_input_rgb float_int source ≡ some (natural x y z)
    → from_rgbwb float_int source none (pos s) ≡ some c
    → to_rgb c none ≡ rgb_of (natural x y z) (pos s)
unfolding rgb_of
to_rgb-from_rgbwb float_int source x y z s c h k =
    let n = natural x y z in
    ap (λ c. to_rgb c none) (sym (from_rgbwb_inv float_int source n (pos s) c h k))
    ∙ to_rgb-within s (normalize_scale n (pos s)) (normalize_scale-IsWithin x y z s)
