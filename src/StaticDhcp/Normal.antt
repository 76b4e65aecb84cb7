-- ===== src/StaticDhcp/Normal.antt =====
-- asusrouter/modules/static_dhcp.py: what a normalized lease is like.
use mathlib.Core.Path.{subst}
use asusrouter.Base.{
  ◌≡◌, refl, sym, ap, ◌∙◌, Bool, true, false, not, ◌&&◌, ◌⊎◌, inl, inr, Bool-cases, Option, none,
  some, [], ◌∷◌, length, ◌==◌, if◌then◌else◌, arith,
}
use asusrouter.Base.Int.{ℤ}
use asusrouter.Base.Text.{Text, strip}
use asusrouter.Tools.Converters.{text}
use asusrouter.Tools.Identifiers.Ip
use asusrouter.Tools.Identifiers.Ip.{Library, to_addr}
use asusrouter.Tools.Identifiers.Mac.{
  MacAddress, value, clean, from_hex, hex, upper_digit, from_value, as_asus,
}
use asusrouter.Tools.Identifiers.Mac.Number.{IsMac}
use asusrouter.Tools.Identifiers.Mac.Print.{clean-as_asus}
use asusrouter.Tools.Identifiers.Mac.Invariant.{from_hex-IsMac, from_value-IsMac}
use asusrouter.StaticDhcp.{
  Layout, Lease, lease_of, is_empty, asus_text, normalize_mac, passes, is_legacy, is_known,
  finish_lease, ipv4_text, normalize_ipv4, normalize_dns, with_parts, normalize_lease,
}

-- The text of a six-byte address.
abbrev pub MacText : Text → Type 0
MacText s = (m : MacAddress) × IsMac m × (s ≡ as_asus m)

asus_text-MacText :
    (r : Option MacAddress) (s : Text)
    → ((m : MacAddress) → r ≡ some m → IsMac m)
    → asus_text r ≡ some s
    → MacText s
unfolding as_asus
asus_text-MacText none s good h = absurd (cc)
asus_text-MacText (some m) s good h = (m, good m refl, cc)

normalize_mac-MacText : (f : Text → Option ℤ) (s t : Text) → normalize_mac f s ≡ some t → MacText t
unfolding normalize_mac
normalize_mac-MacText f s t h = elim (Bool-cases (length (clean s) == 12)) [
  | inl e ↦
      let e2 : t ≡ hex upper_digit (from_hex (clean s)) = ground (arith, e, h) in
      (
        record { octets = from_hex (clean s) },
        from_hex-IsMac s (ground (arith, e)),
        unfold as_asus in e2,
      )
  | inr e ↦
      asus_text-MacText (from_value f (value (text s))) t
        (λ m. from_value-IsMac f (value (text s)) m tt) (ground (arith, e, h))
]

pub normalize_mac-MacText_same :
    (f : Text → Option ℤ) (s : Text) → MacText s → normalize_mac f s ≡ some s
unfolding normalize_mac
normalize_mac-MacText_same f s (m, k, e) =
    let (size, back) = clean-as_asus m k in
    rw e (rw size (ap some (ap (hex upper_digit) back ∙ unfold as_asus in refl)))

module _ (l : Library) where
  -- The text of an IPv4 address.
  abbrev pub Ipv4Text : Text → Type 0
  Ipv4Text s = (a : l.Address) × (l.version a ≡ 4) × (s ≡ l.shown a)

  ipv4_text-Ipv4Text : (r : Option (l.Address)) (s : Text) → ipv4_text l r ≡ some s → Ipv4Text s
  ipv4_text-Ipv4Text none s h = absurd (cc)
  ipv4_text-Ipv4Text (some a) s h = elim (Bool-cases (l.version a == 4)) [
    | inl e ↦ (a, ground (arith, e), ground (arith, e, h))
    | inr e ↦ absurd (ground (arith, e, h))
  ]

  normalize_ipv4-Ipv4Text : (s t : Text) → normalize_ipv4 l s ≡ some t → Ipv4Text t
  unfolding normalize_ipv4
  normalize_ipv4-Ipv4Text [] t h = absurd (cc)
  normalize_ipv4-Ipv4Text (c ∷ s) t h = ipv4_text-Ipv4Text (to_addr l (Ip.text (c ∷ s))) t h

  ipv4_text-shown :
      (a : l.Address) (s : Text)
      → l.version a ≡ 4
      → s ≡ l.shown a
      → ipv4_text l (l.of_text (strip s)) ≡ some s
  ipv4_text-shown a s v e = rw e (ap (ipv4_text l) (l.of_text-shown a) ∙ ground (arith, v))

  pub normalize_ipv4-Ipv4Text_same : (s : Text) → Ipv4Text s → normalize_ipv4 l s ≡ some s
  unfolding normalize_ipv4 to_addr
  normalize_ipv4-Ipv4Text_same [] (a, v, e) = absurd (omega (arith, l.shown-length a, ap length e))
  normalize_ipv4-Ipv4Text_same (c ∷ s) (a, v, e) = ipv4_text-shown a (c ∷ s) v e

  -- Empty, or the text of an IPv4 address.
  abbrev pub DnsText : Text → Type 0
  DnsText s = (s ≡ []) ⊎ Ipv4Text s

  normalize_dns-DnsText : (s t : Text) → normalize_dns l s ≡ some t → DnsText t
  unfolding normalize_dns
  normalize_dns-DnsText [] t h = inl (cc)
  normalize_dns-DnsText (c ∷ s) t h = inr (normalize_ipv4-Ipv4Text (c ∷ s) t h)

  normalize_dns-DnsText_same : (s : Text) → DnsText s → normalize_dns l s ≡ some s
  unfolding normalize_dns
  normalize_dns-DnsText_same [] h = refl
  normalize_dns-DnsText_same (c ∷ s) (inl h) = absurd (cc)
  normalize_dns-DnsText_same (c ∷ s) (inr h) = normalize_ipv4-Ipv4Text_same (c ∷ s) h

  -- A lease as `normalize_lease` leaves it.
  pub record IsNormal (r : Lease) : Type 0 where
    pub mac_text : MacText r.mac
    pub ip_text : Ipv4Text r.ip
    pub dns_text : DnsText r.dns
    pub known_layout : is_known r.layout ≡ true
    pub legacy_dns : (is_legacy r.layout && not (is_empty r.dns)) ≡ false
    pub no_delimiters :
        (passes r.mac ≡ true)
        × (passes r.ip ≡ true)
        × (passes r.dns ≡ true)
        × (passes r.hostname ≡ true)

-- What the checks have passed.
guards_lem :
    (known bad m i d h : Bool) (a r : Lease)
    → (if not known then none else if bad then none else if m && i && d && h then some a else none)
      ≡ some r
    → (known ≡ true) × (bad ≡ false) × (m ≡ true) × (i ≡ true) × (d ≡ true) × (h ≡ true) × (a ≡ r)
guards_lem known bad m i d h a r e = (
  ground (arith, e),
  ground (arith, e),
  ground (arith, e),
  ground (arith, e),
  ground (arith, e),
  ground (arith, e),
  ground (arith, e),
)

-- The parts of a lease that is made.
finish_lease-IsNormal :
    (l : Library) (m i d h : Text) (layout : Layout) (r : Lease)
    → MacText m
    → Ipv4Text l i
    → DnsText l d
    → finish_lease m i d h layout ≡ some r
    → IsNormal l r × (r.hostname ≡ h) × (r.layout ≡ layout)
unfolding finish_lease
finish_lease-IsNormal l m i d h layout r hm hi hd e =
    let a = lease_of m i d h layout in
    let (known, bad, pm, pi, pd, ph, same) =
      guards_lem (is_known layout) (is_legacy layout && not (is_empty d)) (passes m) (passes i)
        (passes d) (passes h) a r e in
    let normal : IsNormal l a = record {
      mac_text = hm;
      ip_text = hi;
      dns_text = hd;
      known_layout = known;
      legacy_dns = bad;
      no_delimiters = (pm, pi, pd, ph);
    } in
    (
      subst (IsNormal l) same normal,
      ap (λ (b : Lease). b.hostname) (sym same),
      ap (λ (b : Lease). b.layout) (sym same),
    )

with_parts-IsNormal :
    (l : Library) (m i d : Option Text) (h : Text) (layout : Layout) (r : Lease)
    → ((s : Text) → m ≡ some s → MacText s)
    → ((s : Text) → i ≡ some s → Ipv4Text l s)
    → ((s : Text) → d ≡ some s → DnsText l s)
    → with_parts m i d h layout ≡ some r
    → IsNormal l r × (r.hostname ≡ h) × (r.layout ≡ layout)
unfolding with_parts
with_parts-IsNormal l (some m) (some i) (some d) h layout r hm hi hd e =
    finish_lease-IsNormal l m i d h layout r (hm m refl) (hi i refl) (hd d refl) e
with_parts-IsNormal l none i d h layout r hm hi hd e = absurd (ground (arith, e))
with_parts-IsNormal l (some m) none d h layout r hm hi hd e = absurd (ground (arith, e))
with_parts-IsNormal l (some m) (some i) none h layout r hm hi hd e = absurd (ground (arith, e))

finish_lease-pass :
    (m i d h : Text) (layout : Layout)
    → is_known layout ≡ true
    → (is_legacy layout && not (is_empty d)) ≡ false
    → (passes m ≡ true) × (passes i ≡ true) × (passes d ≡ true) × (passes h ≡ true)
    → finish_lease m i d h layout ≡ some (lease_of m i d h layout)
unfolding finish_lease
finish_lease-pass m i d h layout known bad (pm, pi, pd, ph) =
    rw known (rw bad (rw pm (rw pi (rw pd (rw ph refl)))))

module _ (f : Text → Option ℤ) (l : Library) where
  -- A normalized lease has the text of a six-byte address, of an IPv4 address and of no or an IPv4 DNS
  -- server, the host name and the layout of the lease that was given, and no delimiters.
  pub normalize_lease-IsNormal :
      (r s : Lease)
      → normalize_lease f l r ≡ some s
      → IsNormal l s × (s.hostname ≡ r.hostname) × (s.layout ≡ r.layout)
  unfolding normalize_lease
  normalize_lease-IsNormal r s h =
      with_parts-IsNormal l (normalize_mac f r.mac) (normalize_ipv4 l r.ip) (normalize_dns l r.dns)
        r.hostname r.layout s (λ t. normalize_mac-MacText f r.mac t)
        (λ t. normalize_ipv4-Ipv4Text l r.ip t) (λ t. normalize_dns-DnsText l r.dns t) h

  -- The addresses of normal texts stay as they are.
  pub normalize_lease-finish_lease :
      (r : Lease)
      → MacText r.mac
      → Ipv4Text l r.ip
      → DnsText l r.dns
      → normalize_lease f l r ≡ finish_lease r.mac r.ip r.dns r.hostname r.layout
  unfolding normalize_lease with_parts
  normalize_lease-finish_lease r m i d =
      ap (λ t. with_parts t (normalize_ipv4 l r.ip) (normalize_dns l r.dns) r.hostname r.layout)
        (normalize_mac-MacText_same f r.mac m)
      ∙ ap (λ t. with_parts (some r.mac) t (normalize_dns l r.dns) r.hostname r.layout)
          (normalize_ipv4-Ipv4Text_same l r.ip i)
      ∙ ap (λ t. with_parts (some r.mac) (some r.ip) t r.hostname r.layout)
          (normalize_dns-DnsText_same l r.dns d)

  pub normalize_lease_same : (r : Lease) → IsNormal l r → normalize_lease f l r ≡ some r
  normalize_lease_same r k =
      normalize_lease-finish_lease r k.mac_text k.ip_text k.dns_text
      ∙ finish_lease-pass r.mac r.ip r.dns r.hostname r.layout k.known_layout k.legacy_dns
          k.no_delimiters
