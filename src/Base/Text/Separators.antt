-- ===== src/Base/Text/Separators.antt =====
-- Texts that lack a separator: splitting, joining and replacing them.
use mathlib.Core.List.{append_assoc}
use asusrouter.Base.{
  ℕ, zero, suc, ◌-◌, ◌≤◌, ◌≡◌, refl, ap, ◌∙◌, true, false, ◌||◌, inl, inr, Bool-cases, List, [],
  ◌∷◌, ◌++◌, map, length, All, ◌==◌, arith,
}
use asusrouter.Base.Text.{Text, starts_with, has_substring, split, join, replace_from, replace}

-- The character is not in the text.
abbrev pub Free : ℕ → Text → Type 0
Free d [] = Unit
Free d (c ∷ s) = ((c == d) ≡ false) × Free d s

pub split-Free : (d : ℕ) (s : Text) → Free d s → split d s ≡ s ∷ []
unfolding split
split-Free d [] h = refl
split-Free d (c ∷ s) (n, h) = ground (arith, split-Free d s h)

pub split-cut : (d : ℕ) (s t : Text) → Free d s → split d (s ++ (d ∷ t)) ≡ s ∷ split d t
unfolding split
split-cut d [] t h = ground arith
split-cut d (c ∷ s) t (n, h) = ground (arith, split-cut d s t h)

pub split-join :
    (d : ℕ) (w : Text) (ws : List Text)
    → Free d w
    → All (Free d) ws
    → split d (join (d ∷ []) (w ∷ ws)) ≡ w ∷ ws
unfolding join
split-join d w [] h hs = split-Free d w h
split-join d w (v ∷ ws) h (hv, hs) =
    split-cut d w (join (d ∷ []) (v ∷ ws)) h ∙ ap (λ vs. w ∷ vs) (split-join d v ws hv hs)

pub starts_with_self : (p t : Text) → starts_with p (p ++ t) ≡ true
starts_with_self [] t = refl
starts_with_self (a ∷ p) t = ground (arith, starts_with_self p t)

pub starts_with-cut :
    (d : ℕ) (p s t : Text) → Free d p → starts_with p (s ++ (d ∷ t)) ≡ starts_with p s
starts_with-cut d [] s t h = refl
starts_with-cut d (a ∷ p) [] t (n, h) = ground arith
starts_with-cut d (a ∷ p) (c ∷ s) t (n, h) = ground (arith, starts_with-cut d p s t h)

pub starts_with-length : (p s : Text) → starts_with p s ≡ true → length p ≤ length s
starts_with-length [] s h = ground arith
starts_with-length (a ∷ p) [] h = cc
starts_with-length (a ∷ p) (c ∷ s) h = ground (arith, starts_with-length p s)

pub replace-cut :
    (d a : ℕ) (p new : Text) (k : ℕ) (s t : Text)
    → Free d (a ∷ p)
    → k ≤ length s
    → replace_from (a ∷ p) new k (s ++ (d ∷ t))
      ≡ replace_from (a ∷ p) new k s ++ (d ∷ replace_from (a ∷ p) new 0 t)
unfolding replace_from
replace-cut d a p new zero [] t f h = ground arith
replace-cut d a p new (suc k) [] t f h = absurd (ground arith)
replace-cut d a p new (suc k) (c ∷ s) t f h = replace-cut d a p new k s t f (ground arith)
replace-cut d a p new zero (c ∷ s) t f h = elim (Bool-cases (starts_with (a ∷ p) (c ∷ s))) [
  | inl q ↦ ground (
    arith,
    starts_with-cut d p s t f.1,
    append_assoc new (replace_from (a ∷ p) new (length p) s) (d ∷ replace_from (a ∷ p) new 0 t),
    replace-cut d a p new (length p) s t f (starts_with-length p s (ground arith)),
  )
  | inr q ↦
      ground (arith, starts_with-cut d p s t f.1, replace-cut d a p new 0 s t f (ground arith))
]

pub Free-append : (d : ℕ) (s t : Text) → Free d s → Free d t → Free d (s ++ t)
Free-append d [] t h k = k
Free-append d (c ∷ s) t (n, h) k = (n, Free-append d s t h k)

pub Free-replace :
    (d : ℕ) (old new : Text) (k : ℕ) (s : Text)
    → Free d new
    → Free d s
    → Free d (replace_from old new k s)
unfolding replace_from
Free-replace d old new k [] hn h = tt
Free-replace d old new (suc k) (c ∷ s) hn h = Free-replace d old new k s hn h.1
Free-replace d old new zero (c ∷ s) hn h = elim (Bool-cases (starts_with old (c ∷ s))) [
  | inl q ↦ rw q (Free-append d new _ hn (Free-replace d old new (length old - 1) s hn h.1))
  | inr q ↦ rw q (h.0, Free-replace d old new 0 s hn h.1)
]

pub replace-join :
    (d a : ℕ) (p new w : Text) (ws : List Text)
    → Free d (a ∷ p)
    → replace (a ∷ p) new (join (d ∷ []) (w ∷ ws))
      ≡ join (d ∷ []) (map (replace (a ∷ p) new) (w ∷ ws))
unfolding replace join
replace-join d a p new w [] f = refl
replace-join d a p new w (v ∷ ws) f =
    replace-cut d a p new 0 w (join (d ∷ []) (v ∷ ws)) f (ground arith)
    ∙ ap (λ t. replace_from (a ∷ p) new 0 w ++ (d ∷ t)) (replace-join d a p new v ws f)

-- A text without the one-character text lacks the character.
pub Free-has_substring : (d : ℕ) (s : Text) → has_substring (d ∷ []) s ≡ false → Free d s
Free-has_substring d [] h = tt
Free-has_substring d (c ∷ s) h = ground (arith, Free-has_substring d s)

pub replace_absent :
    (a : ℕ) (p new s : Text) → has_substring (a ∷ p) s ≡ false → replace (a ∷ p) new s ≡ s
unfolding replace replace_from
replace_absent a p new [] h = refl
replace_absent a p new (c ∷ s) h = ground (arith, replace_absent a p new s)

pub starts_with-separator :
    (d a : ℕ) (p t : Text) → Free d (a ∷ p) → starts_with (a ∷ p) (d ∷ t) ≡ false
starts_with-separator d a p t (n, h) = ground arith

-- A text that has no separator lies on one side of it.
pub has_substring-cut :
    (d a : ℕ) (p s t : Text)
    → Free d (a ∷ p)
    → has_substring (a ∷ p) (s ++ (d ∷ t)) ≡ (has_substring (a ∷ p) s || has_substring (a ∷ p) t)
has_substring-cut d a p [] t f = rw (starts_with-separator d a p t f) refl
has_substring-cut d a p (c ∷ s) t f =
    ground (arith, starts_with-cut d p s t f.1, has_substring-cut d a p s t f)

pub has_substring-join :
    (d a : ℕ) (p w : Text) (ws : List Text)
    → Free d (a ∷ p)
    → has_substring (a ∷ p) w ≡ false
    → All (λ v. has_substring (a ∷ p) v ≡ false) ws
    → has_substring (a ∷ p) (join (d ∷ []) (w ∷ ws)) ≡ false
unfolding join
has_substring-join d a p w [] f h hs = h
has_substring-join d a p w (v ∷ ws) f h (hv, hs) =
    has_substring-cut d a p w (join (d ∷ []) (v ∷ ws)) f
    ∙ ground (arith, h, has_substring-join d a p v ws f hv hs)

pub Free-join :
    (d : ℕ) (e w : Text) (ws : List Text)
    → Free d e
    → Free d w
    → All (Free d) ws
    → Free d (join e (w ∷ ws))
unfolding join
Free-join d e w [] he h hs = h
Free-join d e w (v ∷ ws) he h (hv, hs) =
    Free-append d w (e ++ join e (v ∷ ws)) h
      (Free-append d e (join e (v ∷ ws)) he (Free-join d e v ws he hv hs))
