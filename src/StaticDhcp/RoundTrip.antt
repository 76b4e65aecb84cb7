-- ===== src/StaticDhcp/RoundTrip.antt =====
-- asusrouter/modules/static_dhcp.py: the list of the router is read back.
pub mod Rows
use mathlib.Core.List.{append-nil}
use asusrouter.Base.{
  ℕ, ◌≡◌, refl, sym, ap, ◌∙◌, Bool, true, false, ◌||◌, Bool-cases, inl, inr, Option, none, some,
  List, [], ◌∷◌, ◌++◌, map, length, All, arith,
}
use asusrouter.Base.Int.{ℤ}
use asusrouter.Base.Text.{Text, codes, has_substring, split, join, replace}
use asusrouter.Base.Text.Separators.{Free, split-Free, split-cut, replace_absent, has_substring-cut}
use asusrouter.Tools.Identifiers.Ip.{Library}
use asusrouter.StaticDhcp.{
  Lease, is_empty, decode, parse_leases, parse_rows, prepend, parse_row, fields, serialize_lease,
  serialize, normalize_all, Compiled, compile, compile_normal, is_distinct, normalize_lease,
  lease_of,
}
use asusrouter.StaticDhcp.Normal.{IsNormal, normalize_lease-IsNormal}
use asusrouter.StaticDhcp.RoundTrip.Rows.{
  row, reread, reads_as_ipv4, row-Free, row-absent, parse_row-row, row-filled,
}

-- A normal lease whose host name is not mistaken for the address of a DNS server.
pub record IsReadable (l : Library) (r : Lease) : Type 0 where
  pub normal : IsNormal l r
  pub no_address : reads_as_ipv4 l r ≡ false

parse_rows-filled :
    (f : Text → Option ℤ) (l : Library) (w : Text) (ws : List Text)
    → is_empty w ≡ false
    → parse_rows f l (w ∷ ws) ≡ prepend (parse_row f l w) (parse_rows f l ws)
unfolding parse_rows
parse_rows-filled f l [] ws h = absurd (cc)
parse_rows-filled f l (c ∷ w) ws h = refl

module _ (l : Library) where
  split-serialize :
      (r : Lease) (rs : List Lease)
      → IsReadable l r
      → All (IsReadable l) rs
      → split b'<' (row r ++ serialize rs) ≡ row r ∷ map row rs
  unfolding serialize serialize_lease row
  split-serialize r [] h hs =
      ap (split b'<') (append-nil (row r)) ∙ split-Free b'<' (row r) (row-Free l r h.normal)
  split-serialize r (q ∷ rs) h (hq, hs) =
      split-cut b'<' (row r) (row q ++ serialize rs) (row-Free l r h.normal)
      ∙ ap (λ ws. row r ∷ ws) (split-serialize q rs hq hs)

  -- What no row has is not in the list.
  has_substring-serialize :
      (a : ℕ) (p : Text) (r : Lease) (rs : List Lease)
      → Free b'<' (a ∷ p)
      → has_substring (a ∷ p) (row r) ≡ false
      → All (λ q. has_substring (a ∷ p) (row q) ≡ false) rs
      → has_substring (a ∷ p) (row r ++ serialize rs) ≡ false
  unfolding serialize serialize_lease row
  has_substring-serialize a p r [] f h hs = ap (has_substring (a ∷ p)) (append-nil (row r)) ∙ h
  has_substring-serialize a p r (q ∷ rs) f h (hq, hs) =
      has_substring-cut b'<' a p (row r) (row q ++ serialize rs) f
      ∙ rw h (has_substring-serialize a p q rs f hq hs)

  rows-absent :
      (rs : List Lease)
      → All (IsReadable l) rs
      → All (λ q. has_substring (codes "&#60") (row q) ≡ false) rs
        × All (λ q. has_substring (codes "&#62") (row q) ≡ false) rs
  rows-absent [] hs = (tt, tt)
  rows-absent (r ∷ rs) (h, hs) =
      let (a, b) = row-absent l r h.normal in let (xs, ys) = rows-absent rs hs in ((a, xs), (b, ys))

  decode-serialize :
      (r : Lease) (rs : List Lease)
      → IsReadable l r
      → All (IsReadable l) rs
      → decode (b'<' ∷ (row r ++ serialize rs)) ≡ b'<' ∷ (row r ++ serialize rs)
  decode-serialize r rs h hs =
      let s = b'<' ∷ (row r ++ serialize rs) in
      let (a, b) = row-absent l r h.normal in
      let (xs, ys) = rows-absent rs hs in
      let no_less : has_substring (codes "&#60") s ≡ false =
        has_substring-serialize b'&' (codes "#60") r rs (refl, (refl, (refl, (refl, tt)))) a xs in
      let no_more : has_substring (codes "&#62") s ≡ false =
        has_substring-serialize b'&' (codes "#62") r rs (refl, (refl, (refl, (refl, tt)))) b ys in
      ap (replace (codes "&#62") (codes ">"))
        (replace_absent b'&' (codes "#60") (codes "<") s no_less)
      ∙ replace_absent b'&' (codes "#62") (codes ">") s no_more

module _ (f : Text → Option ℤ) (l : Library) where
  parse_rows-map :
      (rs : List Lease) → All (IsReadable l) rs → parse_rows f l (map row rs) ≡ some (map reread rs)
  parse_rows-map [] hs = unfold parse_rows in refl
  parse_rows-map (r ∷ rs) (h, hs) =
      parse_rows-filled f l (row r) (map row rs) (row-filled l r h.normal)
      ∙ ap (λ p. prepend p (parse_rows f l (map row rs)))
          (parse_row-row l r h.normal f h.no_address)
      ∙ ap (prepend (some (reread r))) (parse_rows-map rs hs)

  -- The text of normal leases is read back as those leases; only the layout of a legacy lease without
  -- a host name is lost. No legacy host name may be the text of an address.
  pub parse_leases-serialize :
      (rs : List Lease)
      → All (IsReadable l) rs
      → parse_leases f l (some (serialize rs)) ≡ some (map reread rs)
  unfolding parse_leases serialize serialize_lease row split
  parse_leases-serialize [] hs = refl
  parse_leases-serialize (r ∷ rs) (h, hs) =
      ap (λ s. parse_rows f l (split b'<' s)) (decode-serialize l r rs h hs)
      ∙ ap (λ ws. parse_rows f l ([] ∷ ws)) (split-serialize l r rs h hs)
      ∙ parse_rows-map (r ∷ rs) (h, hs)
