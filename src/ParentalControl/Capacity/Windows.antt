-- ===== src/ParentalControl/Capacity/Windows.antt =====
-- parental_control.py: `validate_pc_capacity` on tables whose schedules are made of known windows.
use asusrouter.Base.{
  ℕ, zero, ◌+◌, ◌≤◌, ◌≡◌, ◌≢◌, ◌↔◌, ◌⊎◌, inl, inr, refl, ap, ◌∙◌, true, Option, none, some, List,
  [], ◌∷◌, ◌++◌, All, map, length, arith,
}
use asusrouter.Base.Text.{Text, codes, split, join, replace, replace_from}
use asusrouter.Base.Text.Separators.{Free, starts_with_self, split-join, replace-join}
use asusrouter.ParentalControl.Rules.{Rules}
use asusrouter.ParentalControl.Capacity.{
  Capabilities, non_empty_count, window_count, windows, count_pc_rule_entries, limit_of,
  validate_pc_capacity,
}

-- A window of a schedule: not empty, and without the characters that begin a separator.
pub record IsWindow (w : Text) : Type 0 where
  pub is_there : w ≢ []
  pub separate : Free b'<' w
  pub plain : Free b'&' w

-- What a rule holds for a list of windows: their text with one of the two separators, or nothing.
abbrev pub IsSchedule : Option Text → List Text → Type 0
IsSchedule o ws =
    ((o ≡ none) × (ws ≡ []))
    ⊎ (((o ≡ some (join (codes "<") ws)) ⊎ (o ≡ some (join (codes "&#60") ws))) × All IsWindow ws)

-- The schedules of all the rules of a table, in order.
abbrev pub HasWindows : Rules → List (List Text) → Type 0
HasWindows [] [] = Unit
HasWindows ((k, r) ∷ rules) (ws ∷ plans) = IsSchedule r.timemap ws × HasWindows rules plans
HasWindows _ _ = ⊥

abbrev pub total : List (List Text) → ℕ
total [] = 0
total (ws ∷ plans) = length ws + total plans

-- Within the limit, or the given one if there is none.
abbrev pub IsWithin : ℕ → Option ℕ → ℕ → Type 0
IsWithin n none fallback = n ≤ fallback
IsWithin n (some limit) fallback = n ≤ limit

replace-Free : (a : ℕ) (p new s : Text) → Free a s → replace_from (a ∷ p) new zero s ≡ s
unfolding replace_from
replace-Free a p new [] h = refl
replace-Free a p new (c ∷ s) (n, h) = ground (arith, replace-Free a p new s h)

replace-skip :
    (old new p t : Text) → replace_from old new (length p) (p ++ t) ≡ replace_from old new zero t
unfolding replace_from
replace-skip old new [] t = refl
replace-skip old new (a ∷ p) t = replace-skip old new p t

replace_once :
    (a : ℕ) (p new s t : Text)
    → Free a s
    → replace_from (a ∷ p) new zero (s ++ ((a ∷ p) ++ t))
      ≡ s ++ (new ++ replace_from (a ∷ p) new zero t)
unfolding replace_from
replace_once a p new [] t h = ground (arith, starts_with_self p t, replace-skip (a ∷ p) new p t)
replace_once a p new (c ∷ s) t (n, h) = ground (arith, replace_once a p new s t h)

replace-separators :
    (a : ℕ) (p new w : Text) (ws : List Text)
    → All (Free a) (w ∷ ws)
    → replace (a ∷ p) new (join (a ∷ p) (w ∷ ws)) ≡ join new (w ∷ ws)
unfolding replace join
replace-separators a p new w [] (h, _) = replace-Free a p new w h
replace-separators a p new w (v ∷ ws) (h, hs) =
    replace_once a p new w (join (a ∷ p) (v ∷ ws)) h
    ∙ ap (λ t. w ++ (new ++ t)) (replace-separators a p new v ws hs)

plain-replace :
    (ws : List Text) → All IsWindow ws → map (replace (codes "&#60") (codes "<")) ws ≡ ws
unfolding replace
plain-replace [] h = refl
plain-replace (w ∷ ws) (h, hs) =
    ground (arith, replace-Free b'&' (codes "#60") (codes "<") w h.plain, plain-replace ws hs)

All-Free : (ws : List Text) → All IsWindow ws → All (Free b'<') ws × All (Free b'&') ws
All-Free [] h = (tt, tt)
All-Free (w ∷ ws) (h, hs) = let (k, l) = All-Free ws hs in ((h.separate, k), (h.plain, l))

non_empty_count-length : (ws : List Text) → All IsWindow ws → non_empty_count ws ≡ length ws
unfolding non_empty_count
non_empty_count-length [] h = refl
non_empty_count-length ([] ∷ ws) (h, hs) = absurd (h.is_there refl)
non_empty_count-length ((c ∷ w) ∷ ws) (h, hs) = ground (arith, non_empty_count-length ws hs)

split_count :
    (ws : List Text)
    → All IsWindow ws
    → non_empty_count (split b'<' (join (codes "<") ws)) ≡ length ws
split_count [] h = unfold join in unfold split in unfold non_empty_count in refl
split_count (w ∷ ws) h =
    let (f, fs) = (All-Free (w ∷ ws) h).0 in
    ap non_empty_count (split-join b'<' w ws f fs) ∙ non_empty_count-length (w ∷ ws) h

join_replaced :
    (ws : List Text)
    → All IsWindow ws
    → replace (codes "&#60") (codes "<") (join (codes "<") ws) ≡ join (codes "<") ws
join_replaced [] h = unfold join in unfold replace in unfold replace_from in refl
join_replaced (w ∷ ws) h =
    replace-join b'<' b'&' (codes "#60") (codes "<") w ws (ground arith)
    ∙ ap (join (codes "<")) (plain-replace (w ∷ ws) h)

separators_replaced :
    (ws : List Text)
    → All IsWindow ws
    → replace (codes "&#60") (codes "<") (join (codes "&#60") ws) ≡ join (codes "<") ws
separators_replaced [] h = unfold join in unfold replace in unfold replace_from in refl
separators_replaced (w ∷ ws) h =
    replace-separators b'&' (codes "#60") (codes "<") w ws (All-Free (w ∷ ws) h).1

window_count-length :
    (o : Option Text) (ws : List Text) → IsSchedule o ws → window_count o ≡ length ws
unfolding window_count
window_count-length o ws (inl (e, k)) = rw (e, k) refl
window_count-length o ws (inr (inl e, h)) =
    rw e (ap (λ t. non_empty_count (split b'<' t)) (join_replaced ws h) ∙ split_count ws h)
window_count-length o ws (inr (inr e, h)) =
    rw e (ap (λ t. non_empty_count (split b'<' t)) (separators_replaced ws h) ∙ split_count ws h)

windows-total :
    (rules : Rules) (plans : List (List Text))
    → HasWindows rules plans
    → windows rules ≡ total plans
unfolding windows
windows-total [] [] h = refl
windows-total [] (ws ∷ plans) h = absurd h
windows-total ((k, r) ∷ rules) [] h = absurd h
windows-total ((k, r) ∷ rules) (ws ∷ plans) (h, hs) =
    ground (arith, window_count-length r.timemap ws h, windows-total rules plans hs)

IsWithin-limit :
    (n : ℕ) (o : Option ℕ) (fallback : ℕ) → (n ≤ limit_of o fallback) ↔ IsWithin n o fallback
IsWithin-limit n none fallback = (λ h. h, λ h. h)
IsWithin-limit n (some limit) fallback = (λ h. h, λ h. h)

-- Both dimensions, by the code's own count.
both_dimensions :
    (current proposed : Rules) (c : Capabilities) (n m : ℕ)
    → windows current ≡ n
    → windows proposed ≡ m
    → (validate_pc_capacity current proposed c ≡ true) ↔ (
        ((length proposed ≤ length current) ⊎ (length proposed ≤ limit_of c.max_rules 16))
        × ((m ≤ n) ⊎ (m ≤ limit_of c.max_entries 128)))
unfolding validate_pc_capacity count_pc_rule_entries
both_dimensions current proposed c n m w v = (λ h. ground (arith, w, v), λ h. ground (arith, w, v))

or_right : {P Q R : Type 0} → (Q → R) → P ⊎ Q → P ⊎ R
or_right f (inl p) = inl p
or_right f (inr q) = inr (f q)

-- On tables whose schedules are made of windows, with either separator, an update is let through
-- exactly if the rules do not become more or are within the advertised limit, or 16 without one, and
-- the windows of all rules do not become more or are within the advertised limit, or 128 without one.
pub validate_pc_capacity_exact :
    (current proposed : Rules) (plans new_plans : List (List Text)) (c : Capabilities)
    → HasWindows current plans
    → HasWindows proposed new_plans
    → (validate_pc_capacity current proposed c ≡ true) ↔ (
        ((length proposed ≤ length current) ⊎ IsWithin (length proposed) c.max_rules 16)
        × ((total new_plans ≤ total plans) ⊎ IsWithin (total new_plans) c.max_entries 128))
validate_pc_capacity_exact current proposed plans new_plans c h k =
    let w = windows-total current plans h in
    let v = windows-total proposed new_plans k in
    let (f, g) = both_dimensions current proposed c (total plans) (total new_plans) w v in
    let (a, b) = IsWithin-limit (length proposed) c.max_rules 16 in
    let (d, e) = IsWithin-limit (total new_plans) c.max_entries 128 in
    (
      λ t. let (r, q) = f t in (or_right a r, or_right d q),
      λ (r, q). g (or_right b r, or_right e q),
    )
