-- ===== src/Firmware/Greater.antt =====
-- asusrouter/modules/firmware.py: the order against equality, and `__gt__`.
use asusrouter.Base.{
  ◌≡◌, refl, sym, ap, ◌∙◌, Bool, true, false, not, Bool-cases, inl, inr, Option, none, some, List,
  [], ◌∷◌, arith,
}
use asusrouter.Base.Int.{ℤ, pos, negsuc}
use asusrouter.Base.Text.{Text, same_text→eq}
use asusrouter.Firmware.{Firmware, Revision, no_revision, number, word}
use asusrouter.Firmware.Compare.{
  same_type, same_int, same_option, same_major, same_revision, equal, lt_list, lt_number,
  lt_revision, major_ints, lt_parts, lt_major, less, and_not, greater,
}
use asusrouter.Firmware.Order.{
  lt_list-asym, lt_number-asym, lt_revision-asym, same_type_comm, less-asym,
}

never_both : (b : Bool) → (b ≡ true → b ≡ false) → b ≡ false
never_both true h = h refl
never_both false h = refl

lt_list-eq : (s t : List ℤ) → s ≡ t → lt_list s t ≡ false
lt_list-eq s t e = rw e (never_both (lt_list t t) (lt_list-asym t t))

lt_number-eq : (a b : Option ℤ) → a ≡ b → lt_number a b ≡ false
lt_number-eq a b e = rw e (never_both (lt_number b b) (lt_number-asym b b))

lt_revision-eq : (a b : Revision) → a ≡ b → lt_revision a b ≡ false
lt_revision-eq a b e = rw e (never_both (lt_revision b b) (lt_revision-asym b b))

-- The equality tests decide equality.
same_int→eq : (a b : ℤ) → same_int a b ≡ true → a ≡ b
same_int→eq (pos a) (pos b) h = ground (arith, h)
same_int→eq (negsuc a) (negsuc b) h = ground (arith, h)
same_int→eq (pos a) (negsuc b) h = cc
same_int→eq (negsuc a) (pos b) h = cc

same_option→eq : (a b : Option ℤ) → same_option a b ≡ true → a ≡ b
same_option→eq none none h = refl
same_option→eq (some a) (some b) h = ap some (same_int→eq a b h)
same_option→eq none (some b) h = absurd (ground (arith, h))
same_option→eq (some a) none h = absurd (ground (arith, h))

same_major→eq : (a b : Option Text) → same_major a b ≡ true → a ≡ b
same_major→eq none none h = refl
same_major→eq (some a) (some b) h = ap some (same_text→eq a b h)
same_major→eq none (some b) h = absurd (ground (arith, h))
same_major→eq (some a) none h = absurd (ground (arith, h))

same_revision→eq : (a b : Revision) → same_revision a b ≡ true → a ≡ b
same_revision→eq no_revision no_revision h = refl
same_revision→eq (number a) (number b) h = ap number (same_int→eq a b h)
same_revision→eq (word a) (word b) h = ap word (same_text→eq a b h)
same_revision→eq no_revision (number b) h = absurd (ground (arith, h))
same_revision→eq no_revision (word b) h = absurd (ground (arith, h))
same_revision→eq (number a) no_revision h = absurd (ground (arith, h))
same_revision→eq (number a) (word b) h = absurd (ground (arith, h))
same_revision→eq (word a) no_revision h = absurd (ground (arith, h))
same_revision→eq (word a) (number b) h = absurd (ground (arith, h))

module _ (a b : Firmware) where
  record Same : Type 0 where
    major_eq : a.major ≡ b.major
    minor_eq : a.minor ≡ b.minor
    build_eq : a.build ≡ b.build
    revision_eq : a.revision ≡ b.revision

  equal-Same : equal a b ≡ true → Same
  unfolding equal
  equal-Same h = record {
    major_eq = same_major→eq a.major b.major (ground (arith, h));
    minor_eq = same_option→eq a.minor b.minor (ground (arith, h));
    build_eq = same_option→eq a.build b.build (ground (arith, h));
    revision_eq = same_revision→eq a.revision b.revision (ground (arith, h));
  }

  lt_parts-eq :
      (m n : Option (List ℤ)) → Same → m ≡ n → (lt_parts a b m n ≡ some true) → false ≡ true
  unfolding lt_parts
  lt_parts-eq (some m) (some n) s e h =
      let e2 : m ≡ n = cc in
      let p1 = lt_list-eq m n e2 in
      let p2 = lt_list-eq n m (sym e2) in
      let q1 = lt_number-eq a.minor b.minor s.minor_eq in
      let q2 = lt_number-eq b.minor a.minor (sym s.minor_eq) in
      let r1 = lt_number-eq a.build b.build s.build_eq in
      let r2 = lt_number-eq b.build a.build (sym s.build_eq) in
      let u1 = lt_revision-eq a.revision b.revision s.revision_eq in
      let u2 = lt_revision-eq b.revision a.revision (sym s.revision_eq) in
      ground (arith, h, p1, p2, q1, q2, r1, r2, u1, u2)
  lt_parts-eq (some m) none s e h = absurd (ground (arith, h))
  lt_parts-eq none n s e h = absurd (ground (arith, h))

  lt_major-eq : (m n : Option Text) → Same → m ≡ n → (lt_major a b m n ≡ some true) → false ≡ true
  unfolding lt_major
  lt_major-eq (some (c ∷ s)) (some (d ∷ t)) k e h =
      let e2 : c ∷ s ≡ d ∷ t = cc in
      lt_parts-eq (major_ints (c ∷ s)) (major_ints (d ∷ t)) k (ap major_ints e2) h
  lt_major-eq none n k e h = absurd (ground (arith, h))
  lt_major-eq (some []) n k e h = absurd (ground (arith, h))
  lt_major-eq (some (c ∷ s)) none k e h = absurd (ground (arith, h))
  lt_major-eq (some (c ∷ s)) (some []) k e h = absurd (ground (arith, h))

  less-Same : Same → less a b ≡ some true → false ≡ true
  unfolding less
  less-Same k h = elim (Bool-cases (same_type a.source b.source)) [
    | inl e ↦ lt_major-eq a.major b.major k k.major_eq (ground (arith, e, h))
    | inr e ↦ absurd (ground (arith, e, h))
  ]

flipped : (a b : Firmware) → Same b a → Same a b
flipped a b k = record {
  major_eq = sym k.major_eq;
  minor_eq = sym k.minor_eq;
  build_eq = sym k.build_eq;
  revision_eq = sym k.revision_eq;
}

less-equal : (a b : Firmware) → less a b ≡ some true → equal b a ≡ false
less-equal a b h = elim (Bool-cases (equal b a)) [
  | inl e ↦ let k : false ≡ true = less-Same a b (flipped a b (equal-Same b a e)) h in absurd (cc)
  | inr e ↦ e
]

-- Of an older version and a newer one, exactly the newer is greater, and they are not equal.
pub less-greater :
    (a b : Firmware)
    → less a b ≡ some true
    → (less b a ≡ some false)
      × (greater a b ≡ some false)
      × (greater b a ≡ some true)
      × (equal b a ≡ false)
unfolding greater
less-greater a b h = (
  less-asym a b h,
  ap (λ r. and_not r (equal a b)) h,
  ap (λ r. and_not r (equal b a)) (less-asym a b h) ∙ ap (λ e. some (not e)) (less-equal a b h),
  less-equal a b h,
)

-- Versions of different sources, of which neither is older, are each greater than the other unless
-- they are equal.
pub greater_other_source :
    (a b : Firmware)
    → same_type a.source b.source ≡ false
    → (greater a b ≡ some (not (equal a b))) × (greater b a ≡ some (not (equal b a)))
unfolding greater less
greater_other_source a b h =
    let back : same_type b.source a.source ≡ false = same_type_comm b.source a.source ∙ h in
    (rw h refl, rw back refl)
