-- ===== src/Vpn/Switched.antt =====
-- asusrouter/modules/vpnc.py: what becomes of the list of clients when one of them is switched.
use mathlib.Core.Path.{subst}
use mathlib.Core.Option.{map as map_option, some_inj, map-eq-some_iff, some-ne-none}
use asusrouter.Base.{
  ℕ, ◌<◌, ◌≡◌, refl, sym, ap, ◌∙◌, Option, none, some, List, [], ◌∷◌, length, All, ltb, Bool-cases,
  Option-cases, inl, inr, arith, if◌then◌else◌,
}
use asusrouter.Base.Int.{pos, ltb_ℤ}
use asusrouter.Base.Positions.{item_at, change_at, item_at-All, length-change_at}
use asusrouter.Base.Text.{Text, split, join}
use asusrouter.Base.Text.Separators.{Free, Free-join}
use asusrouter.Base.Text.Pieces.{split-All, split-All_other, change_at-All, split-join_all}
use asusrouter.Vpn.{
  replace_at, with_state, put_row, change_row, get_argument_clientlist, row_delimiter,
  field_delimiter,
}

replace_at_inv :
    {A : Type 0} (i : ℕ) (x : A) (xs ys : List A)
    → replace_at i x xs ≡ some ys
    → (i < length xs) × (ys ≡ change_at i (λ _. x) xs)
replace_at_inv i x xs ys h = elim (Bool-cases (ltb i (length xs))) [
  | inl e ↦ (
    ground (arith, e),
    sym (some_inj.0 (sym (ap (λ b. if b then some (change_at i (λ _. x) xs) else none) e) ∙ h)),
  )
  | inr e ↦
      absurd
        (some-ne-none ys (sym h ∙ ap (λ b. if b then some (change_at i (λ _. x) xs) else none) e))
]

-- A row with a new state has the same fields but the sixth one.
with_state-fields :
    (state row new : Text)
    → Free field_delimiter state
    → with_state state row ≡ some new
    → split field_delimiter new ≡ change_at 5 (λ _. state) (split field_delimiter row)
unfolding with_state
with_state-fields state row new f h =
    let (ws, e, k) =
      (map-eq-some_iff (join (field_delimiter ∷ []))
          (replace_at 5 state (split field_delimiter row))).0
        h in
    let (l, c) = replace_at_inv 5 state (split field_delimiter row) ws e in
    let n = length-change_at 5 (λ _. state) (split field_delimiter row) in
    let all =
      change_at-All (Free field_delimiter) 5 state (split field_delimiter row) f
        (split-All field_delimiter row) in
    ap (split field_delimiter) (sym k ∙ ap (join (field_delimiter ∷ [])) c)
    ∙ split-join_all field_delimiter (change_at 5 (λ _. state) (split field_delimiter row))
        (omega arith) all

Free-join_all :
    (e : Text) (d : ℕ) (ws : List Text) → Free d e → All (Free d) ws → Free d (join e ws)
unfolding join
Free-join_all e d [] h k = tt
Free-join_all e d (w ∷ ws) h (k, ks) = Free-join d e w ws h k ks

with_state-Free :
    (state row new : Text)
    → Free row_delimiter state
    → Free row_delimiter row
    → with_state state row ≡ some new
    → Free row_delimiter new
unfolding with_state
with_state-Free state row new f g h =
    let (ws, e, k) =
      (map-eq-some_iff (join (field_delimiter ∷ []))
          (replace_at 5 state (split field_delimiter row))).0
        h in
    let (l, c) = replace_at_inv 5 state (split field_delimiter row) ws e in
    let all =
      change_at-All (Free row_delimiter) 5 state (split field_delimiter row) f
        (split-All_other field_delimiter row_delimiter row g) in
    subst (Free row_delimiter) k (
      Free-join_all (field_delimiter ∷ []) row_delimiter ws (refl, tt)
        (subst (All (Free row_delimiter)) (sym c) all))

-- What the list becomes: the row of the unit gets the state as its sixth field, and all else is as before.
pub record IsSwitched (u : ℕ) (state list out : Text) : Type 0 where
  pub row : Text
  pub new_row : Text
  pub at : item_at u (split row_delimiter list) ≡ some row
  pub rows : split row_delimiter out ≡ change_at u (λ _. new_row) (split row_delimiter list)
  pub fields : split field_delimiter new_row ≡ change_at 5 (λ _. state) (split field_delimiter row)

put_row_inv :
    (clients : List Text) (u : ℕ) (o : Option Text) (out : Text)
    → put_row clients u o ≡ some out
    → (row : Text) × (o ≡ some row)
      × (join (row_delimiter ∷ []) (change_at u (λ _. row) clients) ≡ out)
put_row_inv clients u none out h = absurd (some-ne-none out (sym h))
put_row_inv clients u (some row) out h = (row, refl, some_inj.0 h)

change_row_inv :
    (clients : List Text) (state : Text) (u : ℕ) (out : Text)
    → change_row clients state (some u) ≡ some out
    → (row : Text) × (item_at u clients ≡ some row)
      × (put_row clients u (with_state state row) ≡ some out)
change_row_inv clients state u out h = elim (Option-cases (item_at u clients)) [
  | inl n ↦ absurd (
      some-ne-none out (
        sym h
        ∙ ap (λ o. elim o [ none ↦ none | some row ↦ put_row clients u (with_state state row) ]) n))
  | inr (row, e) ↦ (
    row,
    e,
    sym (ap (λ o. elim o [ none ↦ none | some row ↦ put_row clients u (with_state state row) ]) e)
        ∙ h,
  )
]

length-item_at : {A : Type 0} (i : ℕ) (xs : List A) (x : A) → item_at i xs ≡ some x → 0 < length xs
length-item_at i [] x h = absurd (some-ne-none x (sym h))
length-item_at i (y ∷ xs) x h = omega arith

change_row-IsSwitched :
    (state list out : Text) (u : ℕ)
    → Free row_delimiter state
    → Free field_delimiter state
    → change_row (split row_delimiter list) state (some u) ≡ some out
    → IsSwitched u state list out
change_row-IsSwitched state list out u f g h =
    let clients = split row_delimiter list in
    let (row, e, p) = change_row_inv clients state u out h in
    let (new, w, j) = put_row_inv clients u (with_state state row) out p in
    let free = split-All row_delimiter list in
    let n = length-change_at u (λ _. new) clients in
    let some_row = length-item_at u clients row e in
    let new_free =
      with_state-Free state row new f (item_at-All (Free row_delimiter) u clients row free e) w in
    record {
      row = row;
      new_row = new;
      at = e;
      rows =
          ap (split row_delimiter) (sym j)
          ∙ split-join_all row_delimiter (change_at u (λ _. new) clients) (omega arith)
              (change_at-All (Free row_delimiter) u new clients new_free free);
      fields = with_state-fields state row new g w;
    }

-- A list that is given back for a unit that is no negative number is the list with the state of this
-- unit's row changed, if the state has no angle brackets.
pub get_argument_clientlist-IsSwitched :
    (state list out : Text) (u : ℕ)
    → Free row_delimiter state
    → Free field_delimiter state
    → get_argument_clientlist list (pos u) state ≡ some (some out)
    → IsSwitched u state list out
unfolding get_argument_clientlist
get_argument_clientlist-IsSwitched state list out u f g h =
    let clients = split row_delimiter list in
    elim (Bool-cases (ltb_ℤ (pos u) (pos (length clients)))) [
      | inl t ↦
          (let e =
              sym (
                ap
                  (λ b.
                    if b then map_option some (change_row clients state (some u)) else some none)
                  t)
              ∙ h in
            let (o, c, k) = (map-eq-some_iff some (change_row clients state (some u))).0 e in
            change_row-IsSwitched state list out u f g (c ∙ ap some (some_inj.0 k)))
      | inr t ↦ absurd (
          some-ne-none out (
            sym (
              some_inj.0 (
                sym (
                  ap
                    (λ b.
                      if b then map_option some (change_row clients state (some u)) else some none)
                    t)
                ∙ h))))
    ]
