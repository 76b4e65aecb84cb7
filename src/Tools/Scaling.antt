-- ===== src/Tools/Scaling.antt =====
-- asusrouter/tools/converters.py: `scale_value_int`. Its quotient is rounded exactly here; Python's
-- float quotient rounds to the same integer while the product stays below 2 ^ 52.
pub mod Natural
use native.Mathlib.Nat.{mul_comm, mul-add, mul_assoc, mul-le-mul_right, mod-lt, div-add-mod}
use asusrouter.Base.{
  ℕ, zero, suc, ◌+◌, ◌-◌, ◌*◌, ◌/◌, ◌%◌, ◌≤◌, ◌<◌, ◌≡◌, ◌⊎◌, inl, inr, ◌∙◌, refl, sym, ap, Bool,
  true, false, Option, none, some, arith, ltb, leb, ◌==◌, if◌then◌else◌,
}
use asusrouter.Base.Int.{ℤ, pos, negsuc, negate, ◌⊖◌, ltb_ℤ}

-- `round(n / d)`, for a positive d: a half goes to the even neighbour.
unfoldable pub round_half : ℕ → ℕ → ℕ
round_half n d =
    let q = n / d in
    let r = n % d in if ltb (2 * r) d then q else if ltb d (2 * r) then suc q else q + q % 2

abbrev pub round_quotient : ℤ → ℤ → ℤ
round_quotient (pos n) (pos d) = pos (round_half n d)
round_quotient (negsuc n) (pos d) = negate (round_half (suc n) d)
round_quotient (pos n) (negsuc d) = negate (round_half n (suc d))
round_quotient (negsuc n) (negsuc d) = pos (round_half (suc n) (suc d))

infixl 70 ◌*ℤ◌
abbrev pub ◌*ℤ◌ : ℤ → ℤ → ℤ
pos m *ℤ pos n = pos (m * n)
pos m *ℤ negsuc n = negate (m * suc n)
negsuc m *ℤ pos n = negate (suc m * n)
negsuc m *ℤ negsuc n = pos (suc m * suc n)

-- `min`, `max` and `==`
abbrev pub min_ℤ : ℤ → ℤ → ℤ
min_ℤ a b = if ltb_ℤ b a then b else a

abbrev pub max_ℤ : ℤ → ℤ → ℤ
max_ℤ a b = if ltb_ℤ a b then b else a

abbrev pub int_eq : ℤ → ℤ → Bool
int_eq (pos m) (pos n) = m == n
int_eq (negsuc m) (negsuc n) = m == n
int_eq _ _ = false

abbrev pub rescaled : ℤ → ℤ → ℤ → ℤ
rescaled value scale (pos zero) = pos 0
rescaled value scale from = min_ℤ (round_quotient (value *ℤ scale) from) scale

-- `scale_value_int`
unfoldable pub scale_value_int : ℤ → ℤ → Option ℤ → ℤ
unfolding round_half
scale_value_int value scale none = value
scale_value_int value scale (some from) =
    if int_eq from scale then value else rescaled value scale from

leb-cases : (a b : ℕ) → (a ≤ b) ⊎ (suc b ≤ a)
leb-cases a b = ground arith

-- The rounded quotient is one of the two next to the quotient.
round_half-cases :
    (n d : ℕ)
    → 0 < d
    → ((round_half n d ≡ n / d) × (2 * (n % d) ≤ d))
      ⊎ ((round_half n d ≡ suc (n / d)) × (d ≤ 2 * (n % d)))
unfolding round_half
round_half-cases n d h = ground arith

near :
    (n d q r a : ℕ)
    → d * q + r ≡ n
    → r < d
    → ((a ≡ q) × (2 * r ≤ d)) ⊎ ((a ≡ suc q) × (d ≤ 2 * r))
    → (2 * n ≤ 2 * (a * d) + d) × (2 * (a * d) ≤ 2 * n + d)
near n d q r a e l (inl (h, k)) =
    let m : a * d ≡ d * q = ap (λ x. x * d) h ∙ mul_comm q d in (omega arith, omega arith)
near n d q r a e l (inr (h, k)) =
    let m : a * d ≡ d * suc q = ap (λ x. x * d) h ∙ mul_comm (suc q) d in
    let w : d * suc q ≡ d * q + d = omega arith in (omega arith, omega arith)

-- A rounded quotient is at most a half from the quotient.
pub round_half-near :
    (n d : ℕ)
    → 0 < d
    → (2 * n ≤ 2 * (round_half n d * d) + d) × (2 * (round_half n d * d) ≤ 2 * n + d)
round_half-near n d h =
    near n d (n / d) (n % d) (round_half n d) (div-add-mod n d) (mod-lt n h)
      (round_half-cases n d h)

pub closer : (a b d : ℕ) → 2 * (a * d) < 2 * (b * d) + 2 * d → a ≤ b
closer a b d h = elim (leb-cases a b) [
  | inl le ↦ le
  | inr gt ↦
      (let m = mul-le-mul_right d gt in
        let w : suc b * d ≡ b * d + d = omega arith in absurd (omega arith))
]

-- A number less than a half from the quotient is the rounded quotient.
pub round_half_unique :
    (n d v : ℕ) → 2 * n < 2 * (v * d) + d → 2 * (v * d) < 2 * n + d → round_half n d ≡ v
round_half_unique n d v h k =
    let d_positive : 0 < d = omega arith in
    let (l, u) = round_half-near n d d_positive in
    let le = closer (round_half n d) v d (omega arith) in
    let ge = closer v (round_half n d) d (omega arith) in omega arith
