-- ===== src/Color/Bounds.antt =====
-- asusrouter/modules/color.py: channels stay within the scale of their colour.
use asusrouter.Base.{ℕ, ◌≤◌, ◌<◌, ◌≡◌, ◌⊎◌, inl, inr, refl, ◌∙◌, arith, ltb, if◌then◌else◌}
use asusrouter.Base.Int.{pos, ltb_ℤ}
use asusrouter.Tools.Scaling.Natural.{scaled, scale_value_int-pos, scaled-le}
use asusrouter.Color.{Rgb, brightest, rescale, normalize_scale}

-- A colour of natural numbers, and its brightness.
abbrev pub natural : ℕ → ℕ → ℕ → Rgb
natural x y z = record { r = pos x; g = pos y; b = pos z }

abbrev pub larger : ℕ → ℕ → ℕ
larger x y = if ltb x y then y else x

abbrev pub brightness : ℕ → ℕ → ℕ → ℕ
brightness x y z = larger (larger x y) z

pub brightest-natural : (x y z : ℕ) → brightest (natural x y z) ≡ pos (brightness x y z)
brightest-natural x y z = ground arith

pub brightness-le :
    (x y z : ℕ) → (x ≤ brightness x y z) × (y ≤ brightness x y z) × (z ≤ brightness x y z)
brightness-le x y z = ground arith

pub brightness_below : (x y z s : ℕ) → x ≤ s → y ≤ s → z ≤ s → brightness x y z ≤ s
brightness_below x y z s hx hy hz = ground arith

pub rescale-natural :
    (x y z s f : ℕ)
    → rescale (pos s) (pos f) (natural x y z) ≡ natural (scaled x s f) (scaled y s f) (scaled z s f)
unfolding rescale
rescale-natural x y z s f =
    rw (scale_value_int-pos x s f)
      (rw (scale_value_int-pos y s f) (rw (scale_value_int-pos z s f) refl))

-- All channels are from 0 to a scale.
abbrev pub IsWithin : ℕ → Rgb → Type 0
IsWithin s c = (x y z : ℕ) × (c ≡ natural x y z) × (x ≤ s) × (y ≤ s) × (z ≤ s)

chosen_dark :
    {A : Type 0} (s b : ℕ) (p q : A) → b ≤ s → (if ltb_ℤ (pos s) (pos b) then p else q) ≡ q
chosen_dark s b p q h = ground arith

chosen_bright :
    {A : Type 0} (s b : ℕ) (p q : A) → s < b → (if ltb_ℤ (pos s) (pos b) then p else q) ≡ p
chosen_bright s b p q h = ground arith

pub normalize_scale_same :
    (x y z s : ℕ) → x ≤ s → y ≤ s → z ≤ s → normalize_scale (natural x y z) (pos s) ≡ natural x y z
unfolding normalize_scale
normalize_scale_same x y z s hx hy hz =
    let c = natural x y z in
    rw (brightest-natural x y z) (
      chosen_dark s (brightness x y z) (rescale (pos s) (pos (brightness x y z)) c) c
        (brightness_below x y z s hx hy hz))

scaled_bright :
    (x y z s : ℕ)
    → s < brightness x y z
    → normalize_scale (natural x y z) (pos s)
      ≡ rescale (pos s) (pos (brightness x y z)) (natural x y z)
unfolding normalize_scale
scaled_bright x y z s h =
    let c = natural x y z in
    rw (brightest-natural x y z)
      (chosen_bright s (brightness x y z) (rescale (pos s) (pos (brightness x y z)) c) c h)

dark_or_bright : (b s : ℕ) → (b ≤ s) ⊎ (s < b)
dark_or_bright b s = ground arith

-- Whatever natural numbers the channels are, they are from 0 to the scale once they are normalized.
pub normalize_scale-IsWithin : (x y z s : ℕ) → IsWithin s (normalize_scale (natural x y z) (pos s))
normalize_scale-IsWithin x y z s =
    let b = brightness x y z in
    let (hx, hy, hz) = brightness-le x y z in
    elim (dark_or_bright b s) [
      | inl l ↦ (
        x,
        y,
        z,
        normalize_scale_same x y z s (omega arith) (omega arith) (omega arith),
        omega arith,
        omega arith,
        omega arith,
      )
      | inr l ↦ (
        scaled x s b,
        scaled y s b,
        scaled z s b,
        scaled_bright x y z s l ∙ rescale-natural x y z s b,
        scaled-le x s b hx,
        scaled-le y s b hy,
        scaled-le z s b hz,
      )
    ]
