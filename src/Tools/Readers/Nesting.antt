-- ===== src/Tools/Readers/Nesting.antt =====
-- asusrouter/tools/readers.py: the check of the nesting of a JSON text. The removal of the string
-- literals by a regular expression is a parameter.
pub mod Depth
use mathlib.Core.Path.{subst}
use asusrouter.Base.{
  [], ◌∷◌, ℕ, zero, suc, ◌≤◌, ◌<◌, ◌≡◌, ◌⊎◌, refl, ap, ◌∙◌, sym, inl, inr, Bool, ◌||◌, Bool-cases,
  ltb, ◌==◌, if◌then◌else◌, arith,
}
use asusrouter.Base.Int.{ℤ, pos, negsuc, pos_part}
use asusrouter.Base.Text.{Text}

abbrev max_json_nesting : ℕ
max_json_nesting = 64

abbrev opens : ℕ → Bool
opens c = (c == b'[') || (c == b'{')

abbrev closes : ℕ → Bool
closes c = (c == b']') || (c == b'}')

-- `depth += 1` and `depth -= 1`
abbrev up : ℤ → ℤ
up (pos n) = pos (suc n)
up (negsuc zero) = pos zero
up (negsuc (suc n)) = negsuc n

abbrev down : ℤ → ℤ
down (pos zero) = negsuc zero
down (pos (suc n)) = pos n
down (negsuc n) = negsuc (suc n)

-- `max`, of a number that is not negative.
abbrev higher : ℕ → ℤ → ℕ
higher m d = if ltb m (pos_part d) then pos_part d else m

-- The loop with its break.
nesting : ℤ → ℕ → Text → ℕ
nesting d m [] = m
nesting d m (c ∷ s) =
    let inner = nesting (up d) (higher m (up d)) s in
    let outer = nesting (down d) m s in
    let same = nesting d m s in
    if opens c
    then (if ltb max_json_nesting (higher m (up d)) then higher m (up d) else inner)
    else if closes c
    then outer
    else same

-- `_json_nesting_depth`
pub json_nesting_depth : (Text → Text) → Text → ℕ
unfolding nesting
json_nesting_depth without_strings content = nesting (pos 0) 0 (without_strings content)

-- The depth after one more character.
abbrev pub step : ℤ → ℕ → ℤ
step d c = if opens c then up d else if closes c then down d else d

-- A statement of the depth after some prefix, or after every one.
abbrev pub SomePrefix : (ℤ → Type 0) → ℤ → Text → Type 0
SomePrefix P d [] = P d
SomePrefix P d (c ∷ s) = P d ⊎ SomePrefix P (step d c) s

abbrev pub AllPrefixes : (ℤ → Type 0) → ℤ → Text → Type 0
AllPrefixes P d [] = P d
AllPrefixes P d (c ∷ s) = P d × AllPrefixes P (step d c) s

abbrev pub TooDeep : ℤ → Type 0
TooDeep d = 64 < pos_part d

SomePrefix-here : (P : ℤ → Type 0) (d : ℤ) (s : Text) → P d → SomePrefix P d s
SomePrefix-here P d [] h = h
SomePrefix-here P d (c ∷ s) h = inl h

down_le : (d : ℤ) → pos_part (down d) ≤ pos_part d
down_le (pos zero) = omega arith
down_le (pos (suc n)) = omega arith
down_le (negsuc n) = omega arith

higher_le : (m : ℕ) (d : ℤ) → (m ≤ higher m d) × (pos_part d ≤ higher m d)
higher_le m d = (ground arith, ground arith)

-- What the loop tells of the depths.
abbrev pub Tells : ℕ → ℤ → Text → Type 0
Tells n d s =
    ((64 < n) × SomePrefix TooDeep d s) ⊎ ((n ≤ 64) × AllPrefixes (λ e. pos_part e ≤ n) d s)

-- One more character in front.
Tells-step :
    (n m : ℕ) (d : ℤ) (c : ℕ) (s : Text)
    → pos_part d ≤ m
    → m ≤ n
    → Tells n (step d c) s
    → Tells n d (c ∷ s)
Tells-step n m d c s h k (inl (deep, some)) = inl (deep, inr some)
Tells-step n m d c s h k (inr (low, all)) = inr (low, (omega (arith, h, k), all))

nesting_le : (d : ℤ) (m : ℕ) (s : Text) → m ≤ nesting d m s
unfolding nesting
nesting_le d m [] = omega arith
nesting_le d m (c ∷ s) = ground (
  arith,
  (higher_le m (up d)).0,
  nesting_le (up d) (higher m (up d)) s,
  nesting_le (down d) m s,
  nesting_le d m s,
)

-- The cases of one round, with the depth and the result that they lead to.
round-Tells :
    (n m : ℕ) (d e : ℤ) (c : ℕ) (s : Text)
    → nesting d m (c ∷ s) ≡ n
    → step d c ≡ e
    → pos_part d ≤ m
    → m ≤ n
    → Tells n e s
    → Tells (nesting d m (c ∷ s)) d (c ∷ s)
round-Tells n m d e c s result next h k t =
    subst (λ r. Tells r d (c ∷ s)) (sym result)
      (Tells-step n m d c s h k (subst (λ f. Tells n f s) (sym next) t))

nesting-Tells : (d : ℤ) (m : ℕ) (s : Text) → pos_part d ≤ m → m ≤ 64 → Tells (nesting d m s) d s
nesting-Tells d m [] h k = unfold nesting in inr (k, h)
nesting-Tells d m (c ∷ s) h k = elim (Bool-cases (opens c)) [
  | inl o ↦ elim (Bool-cases (ltb 64 (higher m (up d)))) [
    | inl deep ↦
        let far : 64 < higher m (up d) = ground (arith, deep) in
        round-Tells (higher m (up d)) m d (up d) c s (unfold nesting in ground (arith, o, deep))
          (ground (arith, o)) h (higher_le m (up d)).0
          (inl (far, SomePrefix-here TooDeep (up d) s (ground (arith, deep, k))))
    | inr low ↦
        round-Tells (nesting (up d) (higher m (up d)) s) m d (up d) c s
          (unfold nesting in ground (arith, o, low)) (ground (arith, o)) h
          (omega (arith, (higher_le m (up d)).0, nesting_le (up d) (higher m (up d)) s))
          (nesting-Tells (up d) (higher m (up d)) s (higher_le m (up d)).1 (ground (arith, low)))
  ]
  | inr o ↦ elim (Bool-cases (closes c)) [
    | inl e ↦
        round-Tells (nesting (down d) m s) m d (down d) c s (unfold nesting in ground (arith, o, e))
          (ground (arith, o, e)) h (nesting_le (down d) m s)
          (nesting-Tells (down d) m s (omega (arith, h, down_le d)) k)
    | inr e ↦
        round-Tells (nesting d m s) m d d c s (unfold nesting in ground (arith, o, e))
          (ground (arith, o, e)) h (nesting_le d m s) (nesting-Tells d m s h k)
  ]
]

higher-reached : (m : ℕ) (d : ℤ) → (higher m d ≡ m) ⊎ (d ≡ pos (higher m d))
higher-reached m (pos n) = elim (Bool-cases (ltb m n)) [
  | inl p ↦ inr (rw p refl)
  | inr p ↦ inl (rw p refl)
]
higher-reached m (negsuc n) = inl (ground arith)

-- A number that is a maximum so far, or the depth of a prefix.
abbrev Reached : ℕ → ℕ → ℤ → Text → Type 0
Reached n m d s = (n ≡ m) ⊎ SomePrefix (λ e. e ≡ pos n) d s

Reached-later :
    (n m : ℕ) (d : ℤ) (c : ℕ) (s : Text) → Reached n m (step d c) s → Reached n m d (c ∷ s)
Reached-later n m d c s (inl e) = inl e
Reached-later n m d c s (inr h) = inr (inr h)

Reached-opened :
    (n m : ℕ) (d : ℤ) (c : ℕ) (s : Text)
    → step d c ≡ up d
    → Reached n (higher m (up d)) (step d c) s
    → Reached n m d (c ∷ s)
Reached-opened n m d c s next (inr h) = inr (inr h)
Reached-opened n m d c s next (inl e) = elim (higher-reached m (up d)) [
  | inl k ↦ inl (e ∙ k)
  | inr k ↦ inr (inr (SomePrefix-here (λ e. e ≡ pos n) (step d c) s (next ∙ k ∙ ap pos (sym e))))
]

nesting-Reached : (d : ℤ) (m : ℕ) (s : Text) → Reached (nesting d m s) m d s
nesting-Reached d m [] = unfold nesting in inl refl
nesting-Reached d m (c ∷ s) = elim (Bool-cases (opens c)) [
  | inl o ↦
      let next : step d c ≡ up d = ground (arith, o) in
      elim (Bool-cases (ltb 64 (higher m (up d)))) [
        | inl deep ↦
            let result : nesting d m (c ∷ s) ≡ higher m (up d) =
              unfold nesting in ground (arith, o, deep) in
            Reached-opened (nesting d m (c ∷ s)) m d c s next (inl result)
        | inr low ↦
            let result : nesting d m (c ∷ s) ≡ nesting (up d) (higher m (up d)) s =
              unfold nesting in ground (arith, o, low) in
            Reached-opened (nesting d m (c ∷ s)) m d c s next
              (rw (result, next) (nesting-Reached (up d) (higher m (up d)) s))
      ]
  | inr o ↦ elim (Bool-cases (closes c)) [
    | inl e ↦
        let result : nesting d m (c ∷ s) ≡ nesting (down d) m s =
          unfold nesting in ground (arith, o, e) in
        let next : step d c ≡ down d = ground (arith, o, e) in
        Reached-later (nesting d m (c ∷ s)) m d c s
          (rw (result, next) (nesting-Reached (down d) m s))
    | inr e ↦
        let result : nesting d m (c ∷ s) ≡ nesting d m s = unfold nesting in ground (arith, o, e) in
        let next : step d c ≡ d = ground (arith, o, e) in
        Reached-later (nesting d m (c ∷ s)) m d c s (rw (result, next) (nesting-Reached d m s))
  ]
]

-- The depth that is reported is the one of some prefix; unless it exceeds the limit, no prefix is
-- deeper.
pub json_nesting_depth-reached :
    (without_strings : Text → Text) (content : Text)
    → let n = json_nesting_depth without_strings content in
      let s = without_strings content in
      SomePrefix (λ e. e ≡ pos n) (pos 0) s
      × ((64 < n) ⊎ AllPrefixes (λ e. pos_part e ≤ n) (pos 0) s)
unfolding json_nesting_depth
json_nesting_depth-reached without_strings content =
    let s = without_strings content in
    (
      elim (nesting-Reached (pos 0) 0 s) [
        | inl e ↦ SomePrefix-here (λ e. e ≡ pos (nesting (pos 0) 0 s)) (pos 0) s (ap pos (sym e))
        | inr h ↦ h
      ],
      elim (nesting-Tells (pos 0) 0 s (omega arith) (omega arith)) [
        | inl (deep, _) ↦ inl deep
        | inr (_, all) ↦ inr all
      ],
    )
