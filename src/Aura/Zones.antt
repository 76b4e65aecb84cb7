-- ===== src/Aura/Zones.antt =====
-- asusrouter/modules/aura.py: one colour for all zones in `set_color`.
use mathlib.Core.Path.{subst}
use asusrouter.Base.{
  ℕ, zero, suc, ◌+◌, ◌-◌, ◌*◌, ◌≤◌, ◌<◌, ◌≡◌, ◌⊎◌, inl, inr, refl, sym, ap, ◌∙◌, none, some, List,
  ◌++◌, length, All, ltb, Bool-cases, arith,
}
use asusrouter.Color.{Rgb, ColorRgbb, paint}
use asusrouter.Aura.{take}
use asusrouter.Aura.Painted.{IsPalette, IsPainted, modify_lem}
use asusrouter.Base.Positions.{item_at-none}
use asusrouter.Aura.Palette.Positions.{
  length-range, range-All, length-append, length-take, append-All, take-All,
}
use asusrouter.Aura.Palette.{
  Palette, color, range, fresh, modify_ref, modify_from, and_then, extend, paint_zone, paint_colors,
  set_color,
}

index-cases : (i j n : ℕ) → i ≤ j → j < i + suc n → (j ≡ i) ⊎ (suc i ≤ j)
index-cases i j n h k = ground arith

within_or_not : (i n : ℕ) → (i < n) ⊎ (n ≤ i)
within_or_not i n = ground arith

-- The zones from i on, so many of them, are painted, and what was painted still is.
modify_from_lem :
    (c : Rgb) (n i : ℕ) (p : Palette)
    → IsPalette p
    → i + n ≤ length p.refs
    → (q : Palette) × (modify_from i n (paint c) p ≡ some q)
      × ((j : ℕ) → i ≤ j → j < i + n → IsPainted c q j)
      × ((j : ℕ) → IsPainted c p j → IsPainted c q j)
unfolding modify_from
modify_from_lem c zero i p v l = (p, refl, λ j h k. absurd (omega arith), λ j h. h)
modify_from_lem c (suc n) i p v l =
    let (m, e, s) = modify_lem c i p v (omega arith) in
    let fits : suc i + n ≤ length m.refs =
      subst (λ rs. suc i + n ≤ length rs) (sym s.same_refs) (omega arith) in
    let (q, eq, new, old) = modify_from_lem c n (suc i) m s.valid fits in
    (
      q,
      ap (λ o. and_then o (modify_from (suc i) n (paint c))) e ∙ eq,
      λ j h k. elim (index-cases i j n h k) [
        | inl j_i ↦ old j (subst (IsPainted c m) (sym j_i) s.painted)
        | inr above ↦ new j above (omega arith)
      ],
      λ j h. old j (s.kept j h),
    )

modify_from-none :
    (c : Rgb) (n i : ℕ) (p : Palette)
    → IsPalette p
    → i ≤ length p.refs
    → length p.refs < i + n
    → modify_from i n (paint c) p ≡ none
unfolding modify_from
modify_from-none c zero i p v h l = absurd (omega arith)
modify_from-none c (suc n) i p v h l = elim (within_or_not i (length p.refs)) [
  | inl k ↦
      (let (m, e, s) = modify_lem c i p v k in
        let same = ap length s.same_refs in
        ap (λ o. and_then o (modify_from (suc i) n (paint c))) e
        ∙ modify_from-none c n (suc i) m s.valid (omega arith) (omega arith))
  | inr k ↦
      ap (λ o. and_then (modify_ref o (paint c) p) (modify_from (suc i) n (paint c)))
        (item_at-none i p.refs k)
]

fresh-IsPalette : (cs : List ColorRgbb) → IsPalette (fresh cs)
fresh-IsPalette cs = record {
  has_object =
      subst (λ n. All (λ r. r < n) (range 0 (length cs))) (omega arith) (range-All 0 (length cs));
}

extend-IsPalette : (zones : ℕ) (p : Palette) → IsPalette p → IsPalette (extend zones p)
extend-IsPalette zones p v = elim (Bool-cases (ltb (length p.refs) zones)) [
  | inl e ↦ rw e (record {
    has_object =
        append-All (λ r. r < length p.objects) p.refs (take (zones - length p.refs) p.refs)
          v.has_object
          (take-All (λ r. r < length p.objects) (zones - length p.refs) p.refs v.has_object);
  })
  | inr e ↦ rw e v
]

doubled :
    (zones n : ℕ) (xs : List ℕ)
    → length xs ≡ n
    → n < zones
    → let l = length (xs ++ take (zones - length xs) xs) in
      ((zones ≤ 2 * n) × (zones ≤ l)) ⊎ ((2 * n < zones) × (l < zones))
doubled zones n xs w h =
    let e = length-append xs (take (zones - length xs) xs) in
    let t = length-take (zones - length xs) xs in ground (arith, w, e, t)

-- The list has all zones exactly if they are at most twice as many as its objects.
length-extend :
    (zones : ℕ) (cs : List ColorRgbb)
    → ((zones ≤ 2 * length cs) × (zones ≤ length (extend zones (fresh cs)).refs))
      ⊎ ((2 * length cs < zones) × (length (extend zones (fresh cs)).refs < zones))
length-extend zones cs =
    let e = length-range 0 (length cs) in
    elim (Bool-cases (ltb (length (range 0 (length cs))) zones)) [
      | inl t ↦ rw t (doubled zones (length cs) (range 0 (length cs)) e (ground (arith, e, t)))
      | inr f ↦ rw f (ground (arith, e, f))
    ]

-- Of a list of colours, each an object of its own, all zones item_at a new colour exactly if they are at
-- most twice as many as the list has; otherwise an index is out of range.
pub set_color_exact :
    (c : Rgb) (n : ℕ) (cs : List ColorRgbb)
    → ((suc n ≤ 2 * length cs)
        × (q : Palette) × (set_color (color c) none (suc n) (fresh cs) ≡ some q)
        × ((j : ℕ) → j < suc n → IsPainted c q j))
      ⊎ ((2 * length cs < suc n) × (set_color (color c) none (suc n) (fresh cs) ≡ none))
unfolding set_color paint_colors paint_zone
set_color_exact c n cs =
    let p = extend (suc n) (fresh cs) in
    let v = extend-IsPalette (suc n) (fresh cs) (fresh-IsPalette cs) in
    elim (length-extend (suc n) cs) [
      | inl (few, fits) ↦
          (let (q, e, new, old) = modify_from_lem c (suc n) 0 p v (omega arith) in
            inl (few, q, e, λ j h. new j (omega arith) (omega arith)))
      | inr (many, short) ↦ inr (many, modify_from-none c (suc n) 0 p v (omega arith) (omega arith))
    ]
