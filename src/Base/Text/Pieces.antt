-- ===== src/Base/Text/Pieces.antt =====
-- The pieces of a text between separators, and lists of pieces that are joined again.
use asusrouter.Base.{
  ℕ, zero, suc, ◌<◌, ◌≡◌, false, inl, inr, Bool-cases, List, [], ◌∷◌, length, All, ◌==◌, arith,
}
use asusrouter.Base.Text.{Text, split, push_char, join}
use asusrouter.Base.Text.Separators.{Free, split-join}
use asusrouter.Base.Positions.{change_at}

push_char-All :
    (e c : ℕ) (ws : List Text) → (c == e) ≡ false → All (Free e) ws → All (Free e) (push_char c ws)
push_char-All e c [] n h = ((n, tt), tt)
push_char-All e c (w ∷ ws) n (h, hs) = ((n, h), hs)

-- No piece has the separator.
pub split-All : (d : ℕ) (s : Text) → All (Free d) (split d s)
unfolding split
split-All d [] = (tt, tt)
split-All d (c ∷ s) = elim (Bool-cases (c == d)) [
  | inl e ↦ rw e (tt, split-All d s)
  | inr e ↦ rw e (push_char-All d c (split d s) e (split-All d s))
]

-- What the text lacks its pieces lack.
pub split-All_other : (d e : ℕ) (s : Text) → Free e s → All (Free e) (split d s)
unfolding split
split-All_other d e [] h = (tt, tt)
split-All_other d e (c ∷ s) (n, h) = elim (Bool-cases (c == d)) [
  | inl q ↦ rw q (tt, split-All_other d e s h)
  | inr q ↦ rw q (push_char-All e c (split d s) n (split-All_other d e s h))
]

pub change_at-All :
    {A : Type 0} (P : A → Type 0) (i : ℕ) (x : A) (xs : List A)
    → P x
    → All P xs
    → All P (change_at i (λ _. x) xs)
change_at-All P i x [] p h = tt
change_at-All P zero x (y ∷ xs) p (h, hs) = (p, hs)
change_at-All P (suc i) x (y ∷ xs) p (h, hs) = (h, change_at-All P i x xs p hs)

-- Pieces without the separator are those of their join.
pub split-join_all :
    (d : ℕ) (ws : List Text) → 0 < length ws → All (Free d) ws → split d (join (d ∷ []) ws) ≡ ws
split-join_all d [] l h = absurd (omega arith)
split-join_all d (w ∷ ws) l (h, hs) = split-join d w ws h hs
