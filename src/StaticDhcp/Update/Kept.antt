-- ===== src/StaticDhcp/Update/Kept.antt =====
-- asusrouter/asusrouter.py: the searches of the methods for static leases, on normal leases.
use asusrouter.Base.{
  ◌≡◌, refl, ap, ◌∙◌, true, Bool-cases, inl, inr, Option, none, some, List, [], ◌∷◌, ◌++◌, any, All,
  arith, if◌then◌else◌,
}
use asusrouter.Base.Int.{ℤ}
use asusrouter.Base.Text.{Text, same_text}
use asusrouter.Tools.Identifiers.Ip.{Library}
use asusrouter.StaticDhcp.{Layout, Lease, is_legacy, is_known, normalize_all, prepend}
use asusrouter.StaticDhcp.Normal.{IsNormal, normalize_lease_same, normalize_mac-MacText_same}
use asusrouter.StaticDhcp.Update.{found, left_out, layout_for, find_mac, without_mac}

-- The leases of other MAC addresses, in their order.
abbrev pub kept : Text → List Lease → List Lease
kept m [] = []
kept m (r ∷ rs) = if same_text r.mac m then kept m rs else r ∷ kept m rs

-- The first lease of a MAC address.
abbrev pub first : Text → List Lease → Option Lease
first m [] = none
first m (r ∷ rs) = if same_text r.mac m then some r else first m rs

module _ (f : Text → Option ℤ) (l : Library) where
  pub without_mac-kept :
      (m : Text) (rs : List Lease) → All (IsNormal l) rs → without_mac f m rs ≡ some (kept m rs)
  unfolding without_mac
  without_mac-kept m [] h = refl
  without_mac-kept m (r ∷ rs) (k, h) =
      ap (λ n. left_out m r n (without_mac f m rs)) (normalize_mac-MacText_same f r.mac k.mac_text)
      ∙ ap (left_out m r (some r.mac)) (without_mac-kept m rs h)

  pub find_mac-first :
      (m : Text) (rs : List Lease) → All (IsNormal l) rs → find_mac f m rs ≡ some (first m rs)
  unfolding find_mac
  find_mac-first m [] h = refl
  find_mac-first m (r ∷ rs) (k, h) =
      ap (λ n. found m r n (find_mac f m rs)) (normalize_mac-MacText_same f r.mac k.mac_text)
      ∙ ap (found m r (some r.mac)) (find_mac-first m rs h)
      ∙ ground arith

  pub normalize_all_same : (rs : List Lease) → All (IsNormal l) rs → normalize_all f l rs ≡ some rs
  unfolding normalize_all
  normalize_all_same [] h = refl
  normalize_all_same (r ∷ rs) (k, h) =
      ap (λ p. prepend p (normalize_all f l rs)) (normalize_lease_same f l r k)
      ∙ ap (prepend (some r)) (normalize_all_same rs h)

module _ (l : Library) where
  pub kept-All : (m : Text) (rs : List Lease) → All (IsNormal l) rs → All (IsNormal l) (kept m rs)
  kept-All m [] h = tt
  kept-All m (r ∷ rs) (k, h) = elim (Bool-cases (same_text r.mac m)) [
    | inl e ↦ rw e (kept-All m rs h)
    | inr e ↦ rw e (k, kept-All m rs h)
  ]

  pub append-All :
      (rs : List Lease) (r : Lease)
      → All (IsNormal l) rs
      → IsNormal l r
      → All (IsNormal l) (rs ++ (r ∷ []))
  append-All [] r h k = (k, tt)
  append-All (q ∷ rs) r (kq, h) k = (kq, append-All rs r h k)

  first-known :
      (m : Text) (rs qs : List Lease) (own : Layout)
      → All (IsNormal l) rs
      → is_known own ≡ true
      → is_known (layout_for (first m rs) qs own) ≡ true
  first-known m [] qs own h k = elim (Bool-cases (any (λ (r : Lease). is_legacy r.layout) qs)) [
    | inl e ↦ rw e refl
    | inr e ↦ rw e k
  ]
  first-known m (r ∷ rs) qs own (kr, h) k = elim (Bool-cases (same_text r.mac m)) [
    | inl e ↦ rw e kr.known_layout
    | inr e ↦ rw e (first-known m rs qs own h k)
  ]

  -- The layout of a lease that is set is a known one.
  pub layout_for-known :
      (m : Text) (rs : List Lease) (own : Layout)
      → All (IsNormal l) rs
      → is_known own ≡ true
      → is_known (layout_for (first m rs) rs own) ≡ true
  layout_for-known m rs own h k = first-known m rs rs own h k
