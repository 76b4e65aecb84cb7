-- ===== src/Tools/Scaling/Natural.antt =====
-- asusrouter/tools/converters.py: `scale_value_int` on natural numbers.
use native.Mathlib.Nat.{mul-le-mul_right, mul_comm}
use asusrouter.Base.{
  ℕ, zero, suc, ◌*◌, ◌≤◌, ◌<◌, ◌≡◌, ◌⊎◌, inl, inr, some, arith, ltb, ◌==◌, if◌then◌else◌,
}
use asusrouter.Base.Int.{pos}
use asusrouter.Tools.Scaling.{
  round_half, round_half-near, round_half_unique, closer, scale_value_int,
}

abbrev pub rescaled_nat : ℕ → ℕ → ℕ → ℕ
rescaled_nat v s zero = 0
rescaled_nat v s (suc f) =
    if ltb s (round_half (v * s) (suc f)) then s else round_half (v * s) (suc f)

unfoldable pub scaled : ℕ → ℕ → ℕ → ℕ
scaled v s f = if f == s then v else rescaled_nat v s f

-- On natural numbers the result is one.
pub scale_value_int-pos :
    (v s f : ℕ) → scale_value_int (pos v) (pos s) (some (pos f)) ≡ pos (scaled v s f)
unfolding scale_value_int scaled
scale_value_int-pos v s zero = ground arith
scale_value_int-pos v s (suc f) = ground arith

-- A value that is at most the scale that it is from is at most the new scale.
pub scaled-le : (v s f : ℕ) → v ≤ f → scaled v s f ≤ s
unfolding scaled
scaled-le v s zero h = ground arith
scaled-le v s (suc f) h = ground arith

-- The scale itself is scaled to the new one.
pub scaled_self : (s f : ℕ) → 0 < f → scaled f s f ≡ s
unfolding scaled
scaled_self s zero h = absurd (omega arith)
scaled_self s (suc f) h =
    let c = mul_comm (suc f) s in
    let e : round_half (suc f * s) (suc f) ≡ s =
      round_half_unique (suc f * s) (suc f) s (omega arith) (omega arith) in
    ground (arith, e)

scaled_up : (v s b : ℕ) → v ≤ b → b < s → 0 < b → scaled v s b ≡ round_half (v * s) b
unfolding scaled
scaled_up v s zero h k p = absurd (omega arith)
scaled_up v s (suc b) h k p =
    let (near, up) = round_half-near (v * s) (suc b) (omega arith) in
    let m = mul-le-mul_right s h in
    let c = mul_comm (suc b) s in
    let le = closer (round_half (v * s) (suc b)) s (suc b) (omega arith) in ground (arith, le)

scaled_down : (v u s b : ℕ) → v ≤ b → b < s → round_half (u * b) s ≡ v → scaled u b s ≡ v
unfolding scaled
scaled_down v u zero b h k e = absurd (omega arith)
scaled_down v u (suc s) b h k e = ground (arith, e)

scaled_same : (v s : ℕ) → scaled v s s ≡ v
unfolding scaled
scaled_same v s = ground arith

-- The rounded value, rounded back: it is less than a half away from the old one.
rounds_back : (v s b : ℕ) → v ≤ b → b < s → 0 < b → round_half (round_half (v * s) b * b) s ≡ v
rounds_back v s b h k p =
    let (near, up) = round_half-near (v * s) b p in
    round_half_unique (round_half (v * s) b * b) s v (omega arith) (omega arith)

order : (b s : ℕ) → b ≤ s → (b ≡ s) ⊎ ((b ≡ 0) × (b < s)) ⊎ ((b < s) × (0 < b))
order b s h = ground arith

-- A value that is scaled up from its brightness and down again is the same.
pub scaled-scaled : (v s b : ℕ) → v ≤ b → b ≤ s → scaled (scaled v s b) b s ≡ v
scaled-scaled v s b h k = elim (order b s k) [
  | inl e ↦ rw e (rw (scaled_same v s) (scaled_same v s))
  | inr (inl (e, l)) ↦ (let m = scaled-le (scaled v s b) b s (scaled-le v s b h) in omega arith)
  | inr (inr (l, p)) ↦
      rw (scaled_up v s b h l p)
        (scaled_down v (round_half (v * s) b) s b h l (rounds_back v s b h l p))
]
