-- ===== src/StaticDhcp/Distinct.antt =====
-- asusrouter/modules/static_dhcp.py: compiling a list refuses repeated addresses.
use asusrouter.Base.{
  ◌≡◌, ◌≢◌, ◌⊎◌, refl, Bool, true, false, Bool-cases, inl, inr, Option, none, some, List, [], ◌∷◌,
  All, arith,
}
use asusrouter.Base.Int.{ℤ}
use asusrouter.Base.Text.{Text, same_text, same_text→eq, same_text_refl}
use asusrouter.Tools.Identifiers.Ip.{Library}
use asusrouter.StaticDhcp.{
  Lease, holds, is_distinct, state_of, normalize_all, compile, compile_normal, serialize,
}

-- No two leases have the same MAC or the same IP address.
abbrev pub Apart : Lease → Lease → Type 0
Apart r q = (q.mac ≢ r.mac) × (q.ip ≢ r.ip)

abbrev pub Distinct : List Lease → Type 0
Distinct [] = Unit
Distinct (r ∷ rs) = All (Apart r) rs × Distinct rs

same_text-false : (s t : Text) → same_text s t ≡ false → s ≢ t
same_text-false s t h e =
    let k : same_text s t ≡ true = rw e (same_text_refl t) in absurd (ground (arith, h, k))

-- The lease has an address that was not seen.
abbrev Unseen : List Text → List Text → Lease → Type 0
Unseen macs ips r = (holds r.mac macs ≡ false) × (holds r.ip ips ≡ false)

same_text-ne : (s t : Text) → s ≢ t → same_text s t ≡ false
same_text-ne s t n = elim (Bool-cases (same_text s t)) [
  | inl h ↦ absurd (n (same_text→eq s t h))
  | inr h ↦ h
]

seen_before :
    (macs ips : List Text) (r : Lease) (rs : List Lease)
    → All (Unseen (r.mac ∷ macs) (r.ip ∷ ips)) rs
    → All (Unseen macs ips) rs × All (Apart r) rs
seen_before macs ips r [] h = (tt, tt)
seen_before macs ips r (q ∷ rs) ((m, i), h) =
    let (unseen, apart) = seen_before macs ips r rs h in
    (
      ((ground (arith, m), ground (arith, i)), unseen),
      (
        (
          same_text-false q.mac r.mac (ground (arith, m)),
          same_text-false q.ip r.ip (ground (arith, i)),
        ),
        apart,
      ),
    )

seen_now :
    (macs ips : List Text) (r : Lease) (rs : List Lease)
    → All (Unseen macs ips) rs
    → All (Apart r) rs
    → All (Unseen (r.mac ∷ macs) (r.ip ∷ ips)) rs
seen_now macs ips r [] h k = tt
seen_now macs ips r (q ∷ rs) ((m, i), h) ((nm, ni), k) = (
  (rw (same_text-ne q.mac r.mac nm) m, rw (same_text-ne q.ip r.ip ni) i),
  seen_now macs ips r rs h k,
)

is_distinct-Distinct :
    (macs ips : List Text) (rs : List Lease)
    → is_distinct macs ips rs ≡ true
    → All (Unseen macs ips) rs × Distinct rs
unfolding is_distinct
is_distinct-Distinct macs ips [] h = (tt, tt)
is_distinct-Distinct macs ips (r ∷ rs) h =
    let (seen, distinct) =
      is_distinct-Distinct (r.mac ∷ macs) (r.ip ∷ ips) rs (ground (arith, h)) in
    let (unseen, apart) = seen_before macs ips r rs seen in
    (((ground (arith, h), ground (arith, h)), unseen), (apart, distinct))

Distinct-is_distinct :
    (macs ips : List Text) (rs : List Lease)
    → All (Unseen macs ips) rs
    → Distinct rs
    → is_distinct macs ips rs ≡ true
unfolding is_distinct
Distinct-is_distinct macs ips [] h k = refl
Distinct-is_distinct macs ips (r ∷ rs) ((m, i), h) (apart, distinct) = rw m (
    rw i (
      Distinct-is_distinct (r.mac ∷ macs) (r.ip ∷ ips) rs (seen_now macs ips r rs h apart)
        distinct))

none_seen : (rs : List Lease) → All (Unseen [] []) rs
none_seen [] = tt
none_seen (r ∷ rs) = ((refl, refl), none_seen rs)

module _ (f : Text → Option ℤ) (l : Library) where
  -- Of leases that can all be normalized, compiling succeeds exactly if no MAC and no IP address is
  -- repeated in the normal leases; the result is their text, with the state that is asked for or else
  -- whether there is a lease.
  pub compile_lem :
      (rs ns : List Lease) (enabled : Option Bool)
      → normalize_all f l rs ≡ some ns
      → (Distinct ns
          × (compile f l rs enabled
              ≡ some (record { list_text = serialize ns; enabled = state_of enabled ns })))
        ⊎ ((¬ Distinct ns) × (compile f l rs enabled ≡ none))
  unfolding compile compile_normal
  compile_lem rs ns enabled h = elim (Bool-cases (is_distinct [] [] ns)) [
    | inl e ↦ inl ((is_distinct-Distinct [] [] ns e).1, rw h (rw e refl))
    | inr e ↦ inr (
      λ d. let k = Distinct-is_distinct [] [] ns (none_seen ns) d in absurd (ground (arith, e, k)),
      rw h (rw e refl),
    )
  ]
