-- ===== src/StaticDhcp/Update/Parsed.antt =====
-- asusrouter/modules/static_dhcp.py, asusrouter/asusrouter.py: the leases that are read are normal.
use asusrouter.Base.{◌≡◌, Option, none, some, List, [], ◌∷◌, All, arith}
use asusrouter.Base.Int.{ℤ}
use asusrouter.Base.Text.{Text, split}
use asusrouter.Tools.Identifiers.Ip.{Library}
use asusrouter.StaticDhcp.{
  Lease, columns_lease, then_normalize, parse_row, parse_rows, parse_leases, prepend, decode,
}
use asusrouter.StaticDhcp.Normal.{IsNormal, normalize_lease-IsNormal}

prepend-All :
    (l : Library) (p : Option Lease) (ps : Option (List Lease)) (rs : List Lease)
    → ((r : Lease) → p ≡ some r → IsNormal l r)
    → ((qs : List Lease) → ps ≡ some qs → All (IsNormal l) qs)
    → prepend p ps ≡ some rs
    → All (IsNormal l) rs
prepend-All l (some r) (some qs) [] hr hs e = tt
prepend-All l (some r) (some qs) (q ∷ rs) hr hs e = (hr q (cc), hs rs (cc))
prepend-All l (some r) none rs hr hs e = absurd (ground (arith, e))
prepend-All l none ps rs hr hs e = absurd (ground (arith, e))

module _ (f : Text → Option ℤ) (l : Library) where
  then_normalize-IsNormal :
      (p : Option Lease) (r : Lease) → then_normalize f l p ≡ some r → IsNormal l r
  then_normalize-IsNormal none r e = absurd (ground (arith, e))
  then_normalize-IsNormal (some q) r e = (normalize_lease-IsNormal f l q r e).0

  parse_row-IsNormal : (row : Text) (r : Lease) → parse_row f l row ≡ some r → IsNormal l r
  unfolding parse_row
  parse_row-IsNormal row r e = then_normalize-IsNormal (columns_lease l (split b'>' row)) r e

  parse_rows-IsNormal :
      (rows : List Text) (rs : List Lease) → parse_rows f l rows ≡ some rs → All (IsNormal l) rs
  unfolding parse_rows
  parse_rows-IsNormal [] [] e = tt
  parse_rows-IsNormal [] (r ∷ rs) e = absurd (ground (arith, e))
  parse_rows-IsNormal ([] ∷ rows) rs e = parse_rows-IsNormal rows rs e
  parse_rows-IsNormal ((c ∷ row) ∷ rows) rs e =
      prepend-All l (parse_row f l (c ∷ row)) (parse_rows f l rows) rs
        (λ r. parse_row-IsNormal (c ∷ row) r) (λ qs. parse_rows-IsNormal rows qs) e

  -- Every lease that is read from a list is normal.
  pub parse_leases-IsNormal :
      (s : Option Text) (rs : List Lease) → parse_leases f l s ≡ some rs → All (IsNormal l) rs
  unfolding parse_leases
  parse_leases-IsNormal none [] e = tt
  parse_leases-IsNormal none (r ∷ rs) e = absurd (ground (arith, e))
  parse_leases-IsNormal (some []) [] e = tt
  parse_leases-IsNormal (some []) (r ∷ rs) e = absurd (ground (arith, e))
  parse_leases-IsNormal (some (c ∷ s)) rs e = parse_rows-IsNormal (split b'<' (decode (c ∷ s))) rs e
