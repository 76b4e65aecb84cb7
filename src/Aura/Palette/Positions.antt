-- ===== src/Aura/Palette/Positions.antt =====
-- Lists by position, as the palettes use them.
use mathlib.Core.Path.{subst}
use asusrouter.Base.{
  ltb, if◌then◌else◌, ◌+◌, ◌++◌, ℕ, zero, suc, ◌<◌, ◌≡◌, refl, ap, List, [], ◌∷◌, length, All,
  arith,
}
use asusrouter.Aura.{take}
use asusrouter.Aura.Palette.{range}

pub length-range : (k n : ℕ) → length (range k n) ≡ n
length-range k zero = refl
length-range k (suc n) = ap suc (length-range (suc k) n)

pub range-All : (k n : ℕ) → All (λ r. r < k + n) (range k n)
range-All k zero = tt
range-All k (suc n) = (
  omega arith,
  subst (λ m. All (λ r. r < m) (range (suc k) n)) (omega arith) (range-All (suc k) n),
)

module _ {A : Type 0} where
  pub length-append : (xs ys : List A) → length (xs ++ ys) ≡ length xs + length ys
  length-append [] ys = omega arith
  length-append (x ∷ xs) ys = let e = length-append xs ys in omega arith

  pub length-take :
      (n : ℕ) (xs : List A) → length (take n xs) ≡ (if ltb n (length xs) then n else length xs)
  length-take zero xs = ground arith
  length-take (suc n) [] = ground arith
  length-take (suc n) (x ∷ xs) = ground (arith, length-take n xs)

  pub append-All : (P : A → Type 0) (xs ys : List A) → All P xs → All P ys → All P (xs ++ ys)
  append-All P [] ys h k = k
  append-All P (x ∷ xs) ys (h, hs) k = (h, append-All P xs ys hs k)

  pub take-All : (P : A → Type 0) (n : ℕ) (xs : List A) → All P xs → All P (take n xs)
  take-All P zero xs h = tt
  take-All P (suc n) [] h = tt
  take-All P (suc n) (x ∷ xs) (h, hs) = (h, take-All P n xs hs)
