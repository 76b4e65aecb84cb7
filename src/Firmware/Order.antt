-- ===== src/Firmware/Order.antt =====
-- asusrouter/modules/firmware.py: the order of versions.
use asusrouter.Base.{
  ◌≡◌, refl, ap, ◌∙◌, Bool, true, false, Bool-cases, inl, inr, Option, none, some, List, [], ◌∷◌,
  arith, if◌then◌else◌,
}
use asusrouter.Base.Int.{ℤ, ltb_ℤ}
use asusrouter.Base.Decimal.{show_int}
use asusrouter.Base.Text.{Text, same_text}
use asusrouter.Firmware.{
  Firmware, FirmwareType, unknown_type, stock, merlin, gnuton, Revision, no_revision, number, word,
}
use asusrouter.Firmware.Compare.{
  lt_text, same_type, get_prefix, lt_list, lt_number, lt_revision, major_ints, then_compare,
  lt_parts, lt_major, less,
}

ltb_ℤ-asym : (a b : ℤ) → ltb_ℤ a b ≡ true → ltb_ℤ b a ≡ false
ltb_ℤ-asym a b h = ground (arith, h)

lt_text-asym : (s t : Text) → lt_text s t ≡ true → lt_text t s ≡ false
lt_text-asym s [] h = absurd (ground (arith, h))
lt_text-asym [] (b ∷ t) h = refl
lt_text-asym (a ∷ s) (b ∷ t) h = ground (arith, h, lt_text-asym s t)

pub lt_list-asym : (s t : List ℤ) → lt_list s t ≡ true → lt_list t s ≡ false
lt_list-asym [] t h = absurd (ground (arith, h))
lt_list-asym (a ∷ s) [] h = absurd (ground (arith, h))
lt_list-asym (a ∷ s) (b ∷ t) h = ground (arith, h, ltb_ℤ-asym a b, lt_list-asym s t)

pub lt_number-asym : (a b : Option ℤ) → lt_number a b ≡ true → lt_number b a ≡ false
lt_number-asym none none h = refl
lt_number-asym none (some b) h = refl
lt_number-asym (some a) none h = absurd (ground (arith, h))
lt_number-asym (some a) (some b) h = ltb_ℤ-asym a b h

-- A number and a word: equal prefixes put the number last.
mixed-asym :
    (same ab ba : Bool)
    → (ab ≡ true → ba ≡ false)
    → (ba ≡ true → ab ≡ false)
    → ((if same then false else ab) ≡ true → (if same then true else ba) ≡ false)
      × ((if same then true else ba) ≡ true → (if same then false else ab) ≡ false)
mixed-asym same ab ba h k = (λ e. ground (arith, e, h), λ e. ground (arith, e, k))

pub lt_revision-asym : (a b : Revision) → lt_revision a b ≡ true → lt_revision b a ≡ false
unfolding lt_revision
lt_revision-asym a no_revision h = absurd (ground (arith, h))
lt_revision-asym no_revision (number b) h = refl
lt_revision-asym no_revision (word b) h = refl
lt_revision-asym (number a) (number b) h = ltb_ℤ-asym a b h
lt_revision-asym (word a) (word b) h = lt_text-asym a b h
lt_revision-asym (number a) (word b) h =
    let s = show_int a in
    let t = get_prefix b in
    (mixed-asym (same_text s t) (lt_text s t) (lt_text t s) (lt_text-asym s t) (lt_text-asym t s)).0
      h
lt_revision-asym (word a) (number b) h =
    let s = show_int b in
    let t = get_prefix a in
    (mixed-asym (same_text s t) (lt_text s t) (lt_text t s) (lt_text-asym s t) (lt_text-asym t s)).1
      h

then_compare-asym :
    (less more rest back : Bool)
    → (less ≡ true → more ≡ false)
    → (rest ≡ true → back ≡ false)
    → then_compare less more rest ≡ true
    → then_compare more less back ≡ false
then_compare-asym less more rest back h k e = ground (arith, h, k, e)

pub same_type_comm : (a b : FirmwareType) → same_type a b ≡ same_type b a
same_type_comm unknown_type unknown_type = refl
same_type_comm unknown_type stock = refl
same_type_comm unknown_type merlin = refl
same_type_comm unknown_type gnuton = refl
same_type_comm stock unknown_type = refl
same_type_comm stock stock = refl
same_type_comm stock merlin = refl
same_type_comm stock gnuton = refl
same_type_comm merlin unknown_type = refl
same_type_comm merlin stock = refl
same_type_comm merlin merlin = refl
same_type_comm merlin gnuton = refl
same_type_comm gnuton unknown_type = refl
same_type_comm gnuton stock = refl
same_type_comm gnuton merlin = refl
same_type_comm gnuton gnuton = refl

some-true : (x : Bool) → some x ≡ some true → x ≡ true
some-true x h = cc

lt_parts-asym :
    (a b : Firmware) (m n : Option (List ℤ))
    → lt_parts a b m n ≡ some true
    → lt_parts b a n m ≡ some false
unfolding lt_parts
lt_parts-asym a b (some m) (some n) h = ap some (
    then_compare-asym (lt_list m n) (lt_list n m) _ _ (lt_list-asym m n)
      (then_compare-asym (lt_number a.minor b.minor) (lt_number b.minor a.minor) _ _
        (lt_number-asym a.minor b.minor)
        (then_compare-asym (lt_number a.build b.build) (lt_number b.build a.build) _ _
          (lt_number-asym a.build b.build)
          (then_compare-asym (lt_revision a.revision b.revision) (lt_revision b.revision a.revision)
            false false (lt_revision-asym a.revision b.revision) (λ _. refl))))
      (some-true _ h))
lt_parts-asym a b (some m) none h = absurd (ground (arith, h))
lt_parts-asym a b none n h = absurd (ground (arith, h))

lt_major-asym :
    (a b : Firmware) (m n : Option Text)
    → lt_major a b m n ≡ some true
    → lt_major b a n m ≡ some false
unfolding lt_major
lt_major-asym a b (some (c ∷ s)) (some (d ∷ t)) h =
    lt_parts-asym a b (major_ints (c ∷ s)) (major_ints (d ∷ t)) h
lt_major-asym a b none n h = absurd (ground (arith, h))
lt_major-asym a b (some []) n h = absurd (ground (arith, h))
lt_major-asym a b (some (c ∷ s)) none h = absurd (ground (arith, h))
lt_major-asym a b (some (c ∷ s)) (some []) h = absurd (ground (arith, h))

-- Of two versions at most one is older.
pub less-asym : (a b : Firmware) → less a b ≡ some true → less b a ≡ some false
unfolding less
less-asym a b h = elim (Bool-cases (same_type a.source b.source)) [
  | inl e ↦
      let e2 : same_type b.source a.source ≡ true = same_type_comm b.source a.source ∙ e in
      rw e2 (lt_major-asym a b a.major b.major (ground (arith, e, h)))
  | inr e ↦ absurd (ground (arith, e, h))
]
