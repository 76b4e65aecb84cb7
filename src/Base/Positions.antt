-- ===== src/Base/Positions.antt =====
-- Lists by position, as Python indexes them.
use Prim.Native.Nat.{ℕ, zero, suc, ◌-◌, ◌≤◌, ◌<◌}
use mathlib.Core.Path.{◌≡◌, refl, ap, subst}
use mathlib.Core.Logic.{◌⊎◌, inl, inr}
use mathlib.Core.Option.{Option, none, some, some_inj}
use mathlib.Core.List.{List, [], ◌∷◌}
use native.Mathlib.Omega.{arith}
use asusrouter.Base.Tests.{ltb, if◌then◌else◌}
use asusrouter.Base.Lists.{length, All}
use asusrouter.Base.Int.{ℤ, pos, negsuc}

abbrev pub item_at : {A : Type 0} → ℕ → List A → Option A
item_at n [] = none
item_at zero (x ∷ xs) = some x
item_at (suc n) (x ∷ xs) = item_at n xs

abbrev pub change_at : {A : Type 0} → ℕ → (A → A) → List A → List A
change_at n f [] = []
change_at zero f (x ∷ xs) = f x ∷ xs
change_at (suc n) f (x ∷ xs) = x ∷ change_at n f xs

-- A negative index counts from the end.
abbrev pub index : ℤ → ℕ → Option ℕ
index (pos i) n = some i
index (negsuc i) n = if ltb i n then some (n - suc i) else none

pub item_at-some :
    {A : Type 0} (i : ℕ) (xs : List A) → i < length xs → (x : A) × (item_at i xs ≡ some x)
item_at-some i [] h = absurd (omega arith)
item_at-some zero (x ∷ xs) h = (x, refl)
item_at-some (suc i) (x ∷ xs) h = item_at-some i xs (omega arith)

pub item_at-none : {A : Type 0} (i : ℕ) (xs : List A) → length xs ≤ i → item_at i xs ≡ none
item_at-none i [] h = refl
item_at-none zero (x ∷ xs) h = absurd (omega arith)
item_at-none (suc i) (x ∷ xs) h = item_at-none i xs (omega arith)

pub item_at-All :
    {A : Type 0} (P : A → Type 0) (i : ℕ) (xs : List A) (x : A)
    → All P xs
    → item_at i xs ≡ some x
    → P x
item_at-All P i [] x h e = absurd (ground (arith, e))
item_at-All P zero (y ∷ xs) x (h, _) e = subst P (some_inj.0 e) h
item_at-All P (suc i) (y ∷ xs) x (_, hs) e = item_at-All P i xs x hs e

pub length-change_at :
    {A : Type 0} (i : ℕ) (f : A → A) (xs : List A) → length (change_at i f xs) ≡ length xs
length-change_at i f [] = refl
length-change_at zero f (x ∷ xs) = refl
length-change_at (suc i) f (x ∷ xs) = ap suc (length-change_at i f xs)

pub item_at-change_self :
    {A : Type 0} (i : ℕ) (f : A → A) (xs : List A) (x : A)
    → item_at i xs ≡ some x
    → item_at i (change_at i f xs) ≡ some (f x)
item_at-change_self i f [] x e = absurd (ground (arith, e))
item_at-change_self zero f (y ∷ xs) x e = ap (λ o. some (f o)) (some_inj.0 e)
item_at-change_self (suc i) f (y ∷ xs) x e = item_at-change_self i f xs x e

pub item_at-change_at :
    {A : Type 0} (i j : ℕ) (f : A → A) (xs : List A) (x : A)
    → item_at i xs ≡ some x
    → (item_at i (change_at j f xs) ≡ some x) ⊎ (item_at i (change_at j f xs) ≡ some (f x))
item_at-change_at i j f [] x e = inl e
item_at-change_at zero zero f (y ∷ xs) x e = inr (ap (λ o. some (f o)) (some_inj.0 e))
item_at-change_at zero (suc j) f (y ∷ xs) x e = inl e
item_at-change_at (suc i) zero f (y ∷ xs) x e = inl e
item_at-change_at (suc i) (suc j) f (y ∷ xs) x e = item_at-change_at i j f xs x e
