-- ===== src/Base/Text/Escaped.antt =====
-- A text in which a router has written `<` as its code, and splitting such texts at the code of `>`.
use asusrouter.Base.{
  zero, ◌≡◌, refl, ap, ◌∙◌, List, [], ◌∷◌, ◌++◌, All, map, ◌==◌, length, if◌then◌else◌, arith,
}
use asusrouter.Base.Text.{Text, codes, split_from, split_on, join}
use asusrouter.Base.Text.Separators.{Free, starts_with_self}

-- Each `<` becomes `&#60`.
abbrev pub escape : Text → Text
escape [] = []
escape (c ∷ s) = if c == b'<' then codes "&#60" ++ escape s else c ∷ escape s

pub escape_Free : (s : Text) → Free b'<' s → escape s ≡ s
escape_Free [] h = refl
escape_Free (c ∷ s) (n, h) = ground (arith, escape_Free s h)

split_from-skip : (d p t : Text) → split_from d (length p) (p ++ t) ≡ split_from d zero t
unfolding split_from
split_from-skip d [] t = refl
split_from-skip d (a ∷ p) t = split_from-skip d p t

-- The code of `>`
abbrev separator : Text
separator = codes "&#62"

split_from-last : (s : Text) → Free b'&' s → split_from separator zero (escape s) ≡ escape s ∷ []
unfolding split_from
split_from-last [] h = refl
split_from-last (c ∷ s) (n, h) = ground (arith, split_from-last s h)

split_from-cut :
    (s t : Text)
    → Free b'&' s
    → split_from separator zero (escape s ++ (separator ++ t))
      ≡ escape s ∷ split_from separator zero t
unfolding split_from
split_from-cut [] t h =
    ground (arith, starts_with_self separator t, split_from-skip separator separator t)
split_from-cut (c ∷ s) t (n, h) = ground (arith, split_from-cut s t h)

pub split_on-escaped :
    (w : Text) (ws : List Text)
    → All (Free b'&') (w ∷ ws)
    → split_on separator (join separator (map escape (w ∷ ws))) ≡ map escape (w ∷ ws)
unfolding split_on join
split_on-escaped w [] (h, _) = split_from-last w h
split_on-escaped w (v ∷ ws) (h, hs) =
    split_from-cut w (join separator (map escape (v ∷ ws))) h
    ∙ ap (λ vs. escape w ∷ vs) (split_on-escaped v ws hs)
