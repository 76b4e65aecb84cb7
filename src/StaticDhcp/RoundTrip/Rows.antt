-- ===== src/StaticDhcp/RoundTrip/Rows.antt =====
-- asusrouter/modules/static_dhcp.py: one row of the list is read back.
use asusrouter.Base.{
  ◌≡◌, refl, ap, ◌∙◌, Bool, true, false, not, ◌&&◌, inl, inr, Option, none, some, List, [], ◌∷◌,
  length, All, arith, if◌then◌else◌,
}
use asusrouter.Base.Int.{ℤ}
use asusrouter.Base.Text.{Text, codes, has_substring, split, join}
use asusrouter.Base.Text.Separators.{
  Free, split-join, Free-has_substring, has_substring-join, Free-join,
}
use asusrouter.Tools.Identifiers.Ip.{Library, to_addr}
use asusrouter.Tools.Identifiers.Mac.Print.{as_asus-filled, has_colon}
use asusrouter.StaticDhcp.{
  Layout, legacy, modern, unknown_layout, Lease, lease_of, is_empty, passes, is_legacy, is_known,
  normalize_ipv4, third_column, columns_lease, parse_row, then_normalize, fields,
}
use asusrouter.StaticDhcp.Normal.{
  MacText, Ipv4Text, DnsText, IsNormal, normalize_lease_same, normalize_ipv4-Ipv4Text_same,
}

-- The row of a lease, without the delimiter in front.
unfoldable pub row : Lease → Text
unfolding fields
row r = join (codes ">") (fields r)

-- What a row is read back as: without a host name, a legacy row is a modern one.
unfoldable pub layout_back : Layout → Text → Layout
layout_back legacy [] = modern
layout_back layout h = layout

unfoldable pub reread : Lease → Lease
unfolding layout_back
reread r = lease_of r.mac r.ip r.dns r.hostname (layout_back r.layout r.hostname)

-- What the fields of a normal lease are like.
passes-Free :
    (s : Text)
    → passes s ≡ true
    → Free b'<' s
      × Free b'>' s
      × (has_substring (codes "&#60") s ≡ false)
      × (has_substring (codes "&#62") s ≡ false)
passes-Free s h = (
  Free-has_substring b'<' s (ground (arith, h)),
  Free-has_substring b'>' s (ground (arith, h)),
  ground (arith, h),
  ground (arith, h),
)

-- A statement of all four fields holds of those that are joined.
chosen-All :
    (P : Text → Type 0) (is_old no_name no_dns : Bool) (d h : Text)
    → P d
    → P h
    → All P (
        if is_old
        then (if no_name then [] else h ∷ [])
        else if no_name
        then (if no_dns then [] else d ∷ [])
        else d ∷ h ∷ [])
chosen-All P true true no_dns d h pd ph = tt
chosen-All P true false no_dns d h pd ph = (ph, tt)
chosen-All P false true true d h pd ph = tt
chosen-All P false true false d h pd ph = (pd, tt)
chosen-All P false false no_dns d h pd ph = (pd, (ph, tt))

fields-All :
    (P : Text → Type 0) (r : Lease)
    → P r.ip
    → P r.dns
    → P r.hostname
    → (ws : List Text) × (fields r ≡ r.mac ∷ ws) × All P ws
unfolding fields
fields-All P r i d h = (
  _,
  refl,
  (
    i,
    chosen-All P (is_legacy r.layout) (is_empty r.hostname) (is_empty r.dns) r.dns r.hostname d h,
  ),
)

-- What a legacy row has in the place of its host name is read as an address.
abbrev pub reads_as_ipv4 : Library → Lease → Bool
reads_as_ipv4 l r =
    is_legacy r.layout && elim (normalize_ipv4 l r.hostname) [ none ↦ false | some a ↦ true ]

absent_lem : (r : Option Text) → (elim r [ none ↦ false | some a ↦ true ]) ≡ false → r ≡ none
absent_lem none h = refl
absent_lem (some a) h = absurd (cc)

columns_lease-fields :
    (l : Library) (mac ip d h : Text) (layout : Layout)
    → is_empty mac ≡ false
    → is_empty ip ≡ false
    → is_known layout ≡ true
    → (is_legacy layout && not (is_empty d)) ≡ false
    → DnsText l d
    → reads_as_ipv4 l (lease_of mac ip d h layout) ≡ false
    → columns_lease l (fields (lease_of mac ip d h layout))
      ≡ some (reread (lease_of mac ip d h layout))
unfolding columns_lease fields reread layout_back normalize_ipv4 to_addr
columns_lease-fields l [] ip d h layout em ei known bad dns reads = absurd (cc)
columns_lease-fields l (a ∷ m) [] d h layout em ei known bad dns reads = absurd (cc)
columns_lease-fields l (a ∷ m) (b ∷ i) [] [] legacy em ei known bad dns reads = refl
columns_lease-fields l (a ∷ m) (b ∷ i) [] (c ∷ h) legacy em ei known bad dns reads =
    ap (λ t. some (third_column (a ∷ m) (b ∷ i) (c ∷ h) t))
      (absent_lem (normalize_ipv4 l (c ∷ h)) reads)
columns_lease-fields l (a ∷ m) (b ∷ i) (c ∷ d) h legacy em ei known bad dns reads = absurd (cc)
columns_lease-fields l (a ∷ m) (b ∷ i) [] [] modern em ei known bad dns reads = refl
columns_lease-fields l (a ∷ m) (b ∷ i) (c ∷ d) [] modern em ei known bad (inl e) reads = absurd (cc)
columns_lease-fields l (a ∷ m) (b ∷ i) (c ∷ d) [] modern em ei known bad (inr e) reads =
    ap (λ t. some (third_column (a ∷ m) (b ∷ i) (c ∷ d) t))
      (normalize_ipv4-Ipv4Text_same l (c ∷ d) e)
columns_lease-fields l (a ∷ m) (b ∷ i) [] (c ∷ h) modern em ei known bad dns reads = refl
columns_lease-fields l (a ∷ m) (b ∷ i) (e ∷ d) (c ∷ h) modern em ei known bad dns reads = refl
columns_lease-fields l (a ∷ m) (b ∷ i) d h unknown_layout em ei known bad dns reads = absurd (cc)

MacText-filled : (s : Text) → MacText s → is_empty s ≡ false
MacText-filled [] (m, k, e) =
    let c : has_colon [] ≡ true = ap has_colon e ∙ as_asus-filled m k in absurd (cc)
MacText-filled (c ∷ s) h = refl

Ipv4Text-filled : (l : Library) (s : Text) → Ipv4Text l s → is_empty s ≡ false
Ipv4Text-filled l [] (a, v, e) = absurd (omega (arith, l.shown-length a, ap length e))
Ipv4Text-filled l (c ∷ s) h = refl

join-filled :
    (e w : Text) (ws : List Text) → is_empty w ≡ false → is_empty (join e (w ∷ ws)) ≡ false
unfolding join
join-filled e [] ws h = absurd (cc)
join-filled e (c ∷ w) [] h = refl
join-filled e (c ∷ w) (v ∷ ws) h = refl

layout_back_lem :
    (layout : Layout) (d h : Text)
    → is_known layout ≡ true
    → (is_legacy layout && not (is_empty d)) ≡ false
    → (is_known (layout_back layout h) ≡ true)
      × ((is_legacy (layout_back layout h) && not (is_empty d)) ≡ false)
unfolding layout_back
layout_back_lem legacy d [] k e = (refl, refl)
layout_back_lem legacy d (c ∷ h) k e = (refl, e)
layout_back_lem modern d h k e = (refl, refl)
layout_back_lem unknown_layout d h k e = absurd (cc)

module _ (l : Library) (r : Lease) (k : IsNormal l r) where
  pub row-Free : Free b'<' (row r)
  unfolding row
  row-Free =
      let (m, i, d, h) = k.no_delimiters in
      let (ws, e, all) =
        fields-All (Free b'<') r (passes-Free r.ip i).0 (passes-Free r.dns d).0
          (passes-Free r.hostname h).0 in
      rw e (Free-join b'<' (codes ">") r.mac ws (refl, tt) (passes-Free r.mac m).0 all)

  pub row-absent :
      (has_substring (codes "&#60") (row r) ≡ false)
      × (has_substring (codes "&#62") (row r) ≡ false)
  unfolding row
  row-absent =
      let (m, i, d, h) = k.no_delimiters in
      let (ws, e, all) =
        fields-All (λ s. has_substring (codes "&#60") s ≡ false) r (passes-Free r.ip i).2
          (passes-Free r.dns d).2 (passes-Free r.hostname h).2 in
      let (vs, e2, all2) =
        fields-All (λ s. has_substring (codes "&#62") s ≡ false) r (passes-Free r.ip i).3
          (passes-Free r.dns d).3 (passes-Free r.hostname h).3 in
      (
        ap (λ t. has_substring (codes "&#60") (join (codes ">") t)) e
            ∙ has_substring-join b'>' b'&' (codes "#60") r.mac ws (refl, (refl, (refl, (refl, tt))))
                (passes-Free r.mac m).2 all,
        ap (λ t. has_substring (codes "&#62") (join (codes ">") t)) e2
            ∙ has_substring-join b'>' b'&' (codes "#62") r.mac vs (refl, (refl, (refl, (refl, tt))))
                (passes-Free r.mac m).3 all2,
      )

  split-row : split b'>' (row r) ≡ fields r
  unfolding row
  split-row =
      let (m, i, d, h) = k.no_delimiters in
      let (ws, e, all) =
        fields-All (Free b'>') r (passes-Free r.ip i).1 (passes-Free r.dns d).1
          (passes-Free r.hostname h).1 in
      rw e (split-join b'>' r.mac ws (passes-Free r.mac m).1 all)

  columns_lease-row : reads_as_ipv4 l r ≡ false → columns_lease l (fields r) ≡ some (reread r)
  columns_lease-row reads =
      columns_lease-fields l r.mac r.ip r.dns r.hostname r.layout (MacText-filled r.mac k.mac_text)
        (Ipv4Text-filled l r.ip k.ip_text) k.known_layout k.legacy_dns k.dns_text reads

  reread-IsNormal : IsNormal l (reread r)
  unfolding reread
  reread-IsNormal =
      let (known, bad) = layout_back_lem r.layout r.dns r.hostname k.known_layout k.legacy_dns in
      record {
        mac_text = k.mac_text;
        ip_text = k.ip_text;
        dns_text = k.dns_text;
        known_layout = known;
        legacy_dns = bad;
        no_delimiters = k.no_delimiters;
      }

  pub parse_row-row :
      (f : Text → Option ℤ) → reads_as_ipv4 l r ≡ false → parse_row f l (row r) ≡ some (reread r)
  unfolding parse_row
  parse_row-row f reads =
      ap (λ t. then_normalize f l (columns_lease l t)) split-row
      ∙ ap (then_normalize f l) (columns_lease-row reads)
      ∙ normalize_lease_same f l (reread r) reread-IsNormal

  pub row-filled : is_empty (row r) ≡ false
  unfolding row fields
  row-filled = join-filled (codes ">") r.mac _ (MacText-filled r.mac k.mac_text)
