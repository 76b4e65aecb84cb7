-- ===== src/Aura/Active.antt =====
-- asusrouter/modules/aura.py: the brightness of what is active, after `process_aura`.
use mathlib.Core.Path.{subst}
use mathlib.Core.Option.{some_inj, map-eq-some_iff, some-ne-none}
use native.Mathlib.Decide.{ℕ_discrete}
use asusrouter.Base.{
  ℕ, zero, suc, ◌≤◌, ◌≡◌, ◌⊎◌, inl, inr, refl, sym, ap, ◌∙◌, true, false, Option, none, some, List,
  [], ◌∷◌, All, arith, ite,
}
use asusrouter.Base.Int.{ℤ, pos, negsuc, pos_part}
use asusrouter.Base.Dict.{Dict, lookup, insert, lookup-insert}
use asusrouter.Base.Text.{Text}
use asusrouter.Tools.Converters.{Value, null, bool, int, text}
use asusrouter.Tools.Scaling.{min_ℤ, max_ℤ}
use asusrouter.Color.{ColorRgbb, default_scale}
use asusrouter.Color.Lit.{IsLit, parse_colors-IsLit}
use asusrouter.Aura.{Effect, Lights, AuraState}
use asusrouter.Aura.State.{scheme_key}
use asusrouter.Aura.Reading.{
  effect_number, parse_value, add_effect, then_effect, effects_from, effect_at, colors_at, most,
  lights_of, aura_with, process_aura,
}

-- All stored colours are at most as bright as the scale.
abbrev pub IsLitEffect : Effect → Type 0
IsLitEffect effect =
    (n : ℕ) (cs : List ColorRgbb) → lookup n effect ≡ some (some cs) → All (IsLit 128) cs

empty-IsLitEffect : IsLitEffect []
unfolding lookup
empty-IsLitEffect n cs h = absurd (some-ne-none (some cs) (sym h))

insert-IsLitEffect :
    (m : ℕ) (o : Option (List ColorRgbb)) (effect : Effect)
    → ((cs : List ColorRgbb) → o ≡ some cs → All (IsLit 128) cs)
    → IsLitEffect effect
    → IsLitEffect (insert m o effect)
insert-IsLitEffect m o effect h k n cs e =
    let l = sym (lookup-insert m n o effect) ∙ e in
    elim (ℕ_discrete m n)
        as (λ d. ite d (some o) (lookup n effect) ≡ some (some cs) → All (IsLit 128) cs) [
          | yes p ↦ (λ l. h cs (some_inj.0 l))
          | no p ↦ (λ l. k n cs l)
        ]
      l

module _ (float_int : Text → Option ℤ) where
  parse_value-IsLit :
      (v : Value) (cs : List ColorRgbb)
      → parse_value float_int v ≡ some (some cs)
      → All (IsLit 128) cs
  unfolding parse_value
  parse_value-IsLit (text s) cs h = parse_colors-IsLit float_int s cs h
  parse_value-IsLit null cs h = absurd (some-ne-none cs (sym (some_inj.0 h)))
  parse_value-IsLit (bool false) cs h = absurd (some-ne-none cs (sym (some_inj.0 h)))
  parse_value-IsLit (bool true) cs h = absurd (some-ne-none (some cs) (sym h))
  parse_value-IsLit (int (pos zero)) cs h = absurd (some-ne-none cs (sym (some_inj.0 h)))
  parse_value-IsLit (int (pos (suc n))) cs h = absurd (some-ne-none (some cs) (sym h))
  parse_value-IsLit (int (negsuc n)) cs h = absurd (some-ne-none (some cs) (sym h))

  add_effect-IsLitEffect :
      (number : Option ℕ) (o : Option (Option (List ColorRgbb))) (effect next : Effect)
      → ((cs : List ColorRgbb) → o ≡ some (some cs) → All (IsLit 128) cs)
      → IsLitEffect effect
      → add_effect float_int number o effect ≡ some next
      → IsLitEffect next
  add_effect-IsLitEffect none o effect next h k e = subst IsLitEffect (some_inj.0 e) k
  add_effect-IsLitEffect (some n) none effect next h k e = absurd (some-ne-none next (sym e))
  add_effect-IsLitEffect (some n) (some cs) effect next h k e =
      subst IsLitEffect (some_inj.0 e) (insert-IsLitEffect n cs effect (λ l p. h l (ap some p)) k)

  then_effect_inv :
      (o : Option Effect) (f : Effect → Option Effect) (effect : Effect)
      → then_effect float_int o f ≡ some effect
      → (e : Effect) × (o ≡ some e) × (f e ≡ some effect)
  then_effect_inv none f effect h = absurd (some-ne-none effect (sym h))
  then_effect_inv (some e) f effect h = (e, refl, h)

  effects_from-IsLitEffect :
      (d : Dict Text Value) (old new : Effect)
      → IsLitEffect old
      → effects_from float_int old d ≡ some new
      → IsLitEffect new
  unfolding effects_from
  effects_from-IsLitEffect [] old new k h = subst IsLitEffect (some_inj.0 h) k
  effects_from-IsLitEffect ((key, v) ∷ d) old new k h =
      let (e, he, hn) = then_effect_inv _ (λ e. effects_from float_int e d) new h in
      effects_from-IsLitEffect d e new
        (add_effect-IsLitEffect (effect_number key) (parse_value float_int v) old e
          (parse_value-IsLit v) k he)
        hn

leq_total : (a b : ℕ) → (a ≤ b) ⊎ (b ≤ a)
leq_total a b = ground arith

max-right : (n m : ℕ) → n ≤ m → max_ℤ (pos n) (pos m) ≡ pos m
max-right n m h = ground arith

max-left : (n m : ℕ) → m ≤ n → max_ℤ (pos n) (pos m) ≡ pos n
max-left n m h = ground arith

max-negative : (n m : ℕ) → max_ℤ (pos n) (negsuc m) ≡ pos n
max-negative n m = ground arith

-- The larger one of a natural number and an integer.
larger :
    (z : ℤ) (n s : ℕ)
    → n ≤ s
    → pos_part z ≤ s
    → (k : ℕ) × (max_ℤ (pos n) z ≡ pos k) × (n ≤ k) × (pos_part z ≤ k) × (k ≤ s)
larger (pos m) n s h l = elim (leq_total n m) [
  | inl a ↦ (m, max-right n m a, a, omega arith, l)
  | inr b ↦ (n, max-left n m b, omega arith, b, h)
]
larger (negsuc m) n s h l = (n, max-negative n m, omega arith, omega arith, h)

-- The largest brightness of colours that are lit at most so much.
most_lem :
    (n s : ℕ) (cs : List ColorRgbb)
    → n ≤ s
    → All (IsLit s) cs
    → (m : ℕ) × (most (pos n) cs ≡ pos m) × (n ≤ m) × (m ≤ s) × All (IsLit m) cs
most_lem n s [] h k = (n, refl, omega arith, h, tt)
most_lem n s (c ∷ cs) h (l, ls) =
    let (k, e, nk, ck, ks) = larger c.br n s h l in
    let (m, em, km, ms, all) = most_lem k s cs ks ls in
    (m, ap (λ z. most z cs) e ∙ em, omega arith, ms, (omega arith, all))

clipped : (n : ℕ) → n ≤ 128 → max_ℤ (pos 0) (min_ℤ (pos n) default_scale) ≡ pos n
clipped n h = ground arith

-- What is active is as bright as its brightest zone, from 0 to the scale.
pub record IsActive (l : Lights) : Type 0 where
  pub bright : ℕ
  pub in_scale : bright ≤ 128
  pub brightness_of : l.brightness ≡ pos bright
  pub color_of : l.color.br ≡ pos bright
  pub zones_below : All (IsLit bright) l.zone_colors

lights_of-IsActive :
    (cs : List ColorRgbb) (l : Lights) → All (IsLit 128) cs → lights_of cs ≡ some l → IsActive l
unfolding lights_of
lights_of-IsActive [] l h e = absurd (some-ne-none l (sym e))
lights_of-IsActive (c ∷ cs) l h e =
    let (m, em, _, ms, all) = most_lem 0 128 (c ∷ cs) (omega arith) h in
    subst IsActive (some_inj.0 e) (record {
      bright = m;
      in_scale = ms;
      brightness_of = em;
      color_of = ap (λ z. max_ℤ (pos 0) (min_ℤ z default_scale)) em ∙ clipped m ms;
      zones_below = all;
    })

colors_at-IsLit :
    (z : ℤ) (effect : Effect)
    → IsLitEffect effect
    → All (IsLit 128) (colors_at (effect_at z effect))
colors_at-IsLit (pos n) effect h =
    elim (lookup n effect)
        as (λ o.
          ((cs : List ColorRgbb) → o ≡ some (some cs) → All (IsLit 128) cs)
          → All (IsLit 128) (colors_at o)) [
            | none ↦ (λ k. tt)
            | some o ↦
                elim o
                  as (λ o.
                    ((cs : List ColorRgbb) → some o ≡ some (some cs) → All (IsLit 128) cs)
                    → All (IsLit 128) (colors_at (some o))) [
                      | none ↦ (λ k. tt)
                      | some cs ↦ (λ k. k cs refl)
                    ]
          ]
      (h n)
colors_at-IsLit (negsuc n) effect h = tt

-- The reported brightness of what is active is from 0 to the scale; the colour of all zones has it, and
-- no zone is brighter.
pub process_aura-IsActive :
    (float_int : Text → Option ℤ) (d : Dict Text Value) (a : AuraState) (l : Lights)
    → process_aura float_int d ≡ some a
    → a.active ≡ some l
    → IsActive l
unfolding process_aura aura_with
process_aura-IsActive float_int d a l h k =
    let (effect, e, made) =
      (map-eq-some_iff (aura_with float_int d) (effects_from float_int [] d)).0 h in
    let lit = effects_from-IsLitEffect float_int d [] effect empty-IsLitEffect e in
    lights_of-IsActive _ l (colors_at-IsLit _ effect lit)
      (ap (λ (a : AuraState). a.active) made ∙ k)
