-- ===== src/Tools/Readers/Nesting/Depth.antt =====
-- asusrouter/tools/readers.py: the reported nesting of a JSON text against the brackets in its
-- prefixes.
use mathlib.Core.Path.{subst}
use asusrouter.Base.{
  [], ◌∷◌, ◌++◌, ℕ, zero, suc, ◌+◌, ◌≤◌, ◌<◌, ◌≡◌, ◌⊎◌, refl, ap, inl, inr, ◌==◌, if◌then◌else◌,
  arith,
}
use asusrouter.Base.Int.{ℤ, pos, negsuc, pos_part}
use asusrouter.Base.Text.{Text}
use asusrouter.Tools.Readers.Nesting.{
  up, down, step, SomePrefix, AllPrefixes, json_nesting_depth, json_nesting_depth-reached,
}

abbrev opening : ℕ → ℕ
opening c = if c == b'[' then 1 else if c == b'{' then 1 else 0

abbrev closing : ℕ → ℕ
closing c = if c == b']' then 1 else if c == b'}' then 1 else 0

-- The opening and the closing brackets of a text.
abbrev pub openings : Text → ℕ
openings [] = 0
openings (c ∷ s) = opening c + openings s

abbrev pub closings : Text → ℕ
closings [] = 0
closings (c ∷ s) = closing c + closings s

-- The prefix opens so many brackets more than it closes.
abbrev pub IsNested : ℕ → Text → Type 0
IsNested n p = closings p + n ≡ openings p

-- A depth is what the brackets that were opened have more than those that were closed.
abbrev IsDepth : ℤ → ℕ → ℕ → Type 0
IsDepth (pos n) o c = n + c ≡ o
IsDepth (negsuc n) o c = suc n + o ≡ c

up-IsDepth : (d : ℤ) (o c : ℕ) → IsDepth d o c → IsDepth (up d) (suc o) c
up-IsDepth (pos n) o c h = omega (arith, h)
up-IsDepth (negsuc zero) o c h = omega (arith, h)
up-IsDepth (negsuc (suc n)) o c h = omega (arith, h)

down-IsDepth : (d : ℤ) (o c : ℕ) → IsDepth d o c → IsDepth (down d) o (suc c)
down-IsDepth (pos zero) o c h = omega (arith, h)
down-IsDepth (pos (suc n)) o c h = omega (arith, h)
down-IsDepth (negsuc n) o c h = omega (arith, h)

step-IsDepth :
    (d : ℤ) (o c x : ℕ) → IsDepth d o c → IsDepth (step d x) (opening x + o) (closing x + c)
step-IsDepth d o c x h = ground (arith, h, up-IsDepth d o c h, down-IsDepth d o c h)

some_depth : (n : ℕ) (d : ℤ) (o c : ℕ) → IsDepth d o c → d ≡ pos n → n + c ≡ o
some_depth n d o c h e = subst (λ f. IsDepth f o c) e h

depth_le : (n : ℕ) (d : ℤ) (o c : ℕ) → IsDepth d o c → pos_part d ≤ n → o ≤ n + c
depth_le n (pos m) o c h k = omega (arith, h, k)
depth_le n (negsuc m) o c h k = omega (arith, h)

AllPrefixes-here :
    (n : ℕ) (d : ℤ) (s : Text) → AllPrefixes (λ e. pos_part e ≤ n) d s → pos_part d ≤ n
AllPrefixes-here n d [] h = h
AllPrefixes-here n d (x ∷ s) (h, _) = h

some_prefix :
    (n : ℕ) (d : ℤ) (o c : ℕ) (s : Text)
    → IsDepth d o c
    → SomePrefix (λ e. e ≡ pos n) d s
    → (p q : Text) × (s ≡ p ++ q) × ((closings p + c) + n ≡ openings p + o)
some_prefix n d o c [] h e = ([], [], refl, omega (arith, some_depth n d o c h e))
some_prefix n d o c (x ∷ s) h (inl e) = ([], x ∷ s, refl, omega (arith, some_depth n d o c h e))
some_prefix n d o c (x ∷ s) h (inr k) =
    let (p, q, e, w) =
      some_prefix n (step d x) (opening x + o) (closing x + c) s (step-IsDepth d o c x h) k in
    (x ∷ p, q, ap (λ t. x ∷ t) e, omega (arith, w))

every_prefix :
    (n : ℕ) (d : ℤ) (o c : ℕ) (p q : Text)
    → IsDepth d o c
    → AllPrefixes (λ e. pos_part e ≤ n) d (p ++ q)
    → openings p + o ≤ (closings p + c) + n
every_prefix n d o c [] q h k = omega (arith, depth_le n d o c h (AllPrefixes-here n d q k))
every_prefix n d o c (x ∷ p) q h (_, k) =
    let w =
      every_prefix n (step d x) (opening x + o) (closing x + c) p q (step-IsDepth d o c x h) k in
    omega (arith, w)

-- The depth that is reported for a text is the nesting of some prefix of the text without its string
-- literals, by its opening and closing brackets; unless it exceeds 64, no prefix is nested deeper,
-- although the loop stops early.
pub json_nesting_depth-IsNested :
    (without_strings : Text → Text) (content : Text)
    → let n = json_nesting_depth without_strings content in
      let s = without_strings content in
      ((p q : Text) × (s ≡ p ++ q) × IsNested n p)
      × ((64 < n) ⊎ ((p q : Text) → s ≡ p ++ q → openings p ≤ closings p + n))
json_nesting_depth-IsNested without_strings content =
    let n = json_nesting_depth without_strings content in
    let s = without_strings content in
    let (some, all) = json_nesting_depth-reached without_strings content in
    let (p, q, e, w) = some_prefix n (pos 0) 0 0 s refl some in
    (
      (p, q, e, omega (arith, w)),
      elim all [
        | inl deep ↦ inl deep
        | inr h ↦ inr (λ p q e.
            let w =
              every_prefix n (pos 0) 0 0 p q refl
                (subst (AllPrefixes (λ d. pos_part d ≤ n) (pos 0)) e h) in
            omega (arith, w))
      ],
    )
