-- ===== src/Aura/Painted.antt =====
-- asusrouter/modules/aura.py: painting all zones in `set_color`.
use mathlib.Core.Path.{subst}
use mathlib.Core.Option.{some-ne-none}
use asusrouter.Base.{
  ℕ, ◌<◌, ◌≡◌, ◌⊎◌, inl, inr, refl, sym, ap, ◌∙◌, Option, none, some, Option-cases, length, All,
}
use asusrouter.Color.{Rgb, ColorRgbb, normalize_scale, paint}
use asusrouter.Base.Positions.{
  item_at-some, item_at-All, length-change_at, item_at-change_self, item_at-change_at, item_at,
  change_at,
}
use asusrouter.Aura.Palette.{modify_ref, Palette, object_at, modify}

-- Every reference is to an object.
pub record IsPalette (p : Palette) : Type 0 where
  pub has_object : All (λ r. r < length p.objects) p.refs

-- The colour at an index is one with its scale.
abbrev pub IsPainted : Rgb → Palette → ℕ → Type 0
IsPainted c p i = (d : ColorRgbb) × (object_at p i ≡ some d) × (d.rgb ≡ normalize_scale c d.scale)

object_at-item_at :
    (p : Palette) (i r : ℕ) → item_at i p.refs ≡ some r → object_at p i ≡ item_at r p.objects
object_at-item_at p i r e = ap (λ o. elim o [ none ↦ none | some r ↦ item_at r p.objects ]) e

-- What a change of one object does.
pub record IsModified (c : Rgb) (i : ℕ) (p q : Palette) : Type 0 where
  pub same_refs : q.refs ≡ p.refs
  pub valid : IsPalette q
  pub painted : IsPainted c q i
  pub kept : (j : ℕ) → IsPainted c p j → IsPainted c q j

abbrev repainted : Rgb → ℕ → Palette → Palette
repainted c r p = record p { objects = change_at r (paint c) p.objects }

repainted-IsPainted :
    (c : Rgb) (r i : ℕ) (p : Palette)
    → IsPalette p
    → item_at i p.refs ≡ some r
    → IsPainted c (repainted c r p) i
unfolding paint
repainted-IsPainted c r i p v e =
    let (d, ed) =
      item_at-some r p.objects
        (item_at-All (λ r. r < length p.objects) i p.refs r v.has_object e) in
    (
      paint c d,
      object_at-item_at (repainted c r p) i r e ∙ item_at-change_self r (paint c) p.objects d ed,
      refl,
    )

still_painted :
    (c : Rgb) (d : ColorRgbb) (o : Option ColorRgbb)
    → d.rgb ≡ normalize_scale c d.scale
    → (o ≡ some d) ⊎ (o ≡ some (paint c d))
    → (x : ColorRgbb) × (o ≡ some x) × (x.rgb ≡ normalize_scale c x.scale)
unfolding paint
still_painted c d o h (inl e) = (d, e, h)
still_painted c d o h (inr e) = (paint c d, e, refl)

ref_of :
    (p : Palette) (j : ℕ) (d : ColorRgbb)
    → object_at p j ≡ some d
    → (r : ℕ) × (item_at j p.refs ≡ some r)
ref_of p j d e = elim (Option-cases (item_at j p.refs)) [
  | inl n ↦
      absurd
        (some-ne-none d (sym e ∙ ap (λ o. elim o [ none ↦ none | some r ↦ item_at r p.objects ]) n))
  | inr s ↦ s
]

repainted-kept :
    (c : Rgb) (r j : ℕ) (p : Palette) → IsPainted c p j → IsPainted c (repainted c r p) j
repainted-kept c r j p (d, e, h) =
    let (k, ek) = ref_of p j d e in
    let at = item_at-change_at k r (paint c) p.objects d (sym (object_at-item_at p j k ek) ∙ e) in
    let (x, ex, hx) = still_painted c d (item_at k (change_at r (paint c) p.objects)) h at in
    (x, object_at-item_at (repainted c r p) j k ek ∙ ex, hx)

pub modify_lem :
    (c : Rgb) (i : ℕ) (p : Palette)
    → IsPalette p
    → i < length p.refs
    → (q : Palette) × (modify i (paint c) p ≡ some q) × IsModified c i p q
modify_lem c i p v l =
    let (r, e) = item_at-some i p.refs l in
    let n = sym (length-change_at r (paint c) p.objects) in
    (
      repainted c r p,
      ap (λ o. modify_ref o (paint c) p) e,
      record {
        same_refs = refl;
        valid = record { has_object = subst (λ n. All (λ r. r < n) p.refs) n v.has_object };
        painted = repainted-IsPainted c r i p v e;
        kept = λ j h. repainted-kept c r j p h;
      },
    )
