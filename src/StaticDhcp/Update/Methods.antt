-- ===== src/StaticDhcp/Update/Methods.antt =====
-- asusrouter/asusrouter.py: setting and removing a static lease.
use asusrouter.Base.{
  ◌≡◌, ◌⊎◌, refl, ap, ◌∙◌, Bool, true, false, not, ◌&&◌, Bool-cases, inl, inr, Option, none, some,
  List, [], ◌∷◌, ◌++◌, All, arith,
}
use asusrouter.Base.Int.{ℤ}
use asusrouter.Base.Dict.{Dict, lookup, contains}
use asusrouter.Base.Text.{Text, text_key}
use asusrouter.Tools.Converters.{Value, null, bool, int, text, safe_bool}
use asusrouter.Tools.Identifiers.Ip.{Library}
use asusrouter.StaticDhcp.{
  Layout, modern, Lease, lease_of, is_legacy, is_known, is_empty, normalize_lease, finish_lease,
  parse_leases, Compiled, serialize,
}
use asusrouter.StaticDhcp.Normal.{
  IsNormal, normalize_lease-finish_lease, normalize_lease_same, normalize_lease-IsNormal,
}
use asusrouter.StaticDhcp.Distinct.{Distinct, compile_lem}
use asusrouter.StaticDhcp.Update.{
  value_error, sent_as, layout_for, apply_leases, put_lease, choose_lease, set_normal, set_in,
  set_lease, optional_text,
}
use asusrouter.StaticDhcp.Snapshot.{
  key_state, key_list, state_value, nvram, all_values, as_leases, list_and_state, read_answer, ask,
  snapshot,
}
use asusrouter.StaticDhcp.Update.Kept.{
  kept, first, without_mac-kept, find_mac-first, normalize_all_same, kept-All, append-All,
  layout_for-known,
}
use asusrouter.StaticDhcp.Update.Parsed.{parse_leases-IsNormal}

-- The lease that is sent for a normal lease.
abbrev pub chosen : List Lease → Lease → Lease
chosen rs n = lease_of n.mac n.ip n.dns n.hostname (layout_for (first n.mac rs) rs n.layout)

-- The lease that is sent has no DNS server if it is a legacy one, and repeats no address.
abbrev pub Accepted : List Lease → Lease → Type 0
Accepted rs n =
    ((is_legacy (chosen rs n).layout && not (is_empty n.dns)) ≡ false)
    × Distinct (kept n.mac rs ++ (chosen rs n ∷ []))

module _ (f : Text → Option ℤ) (l : Library) where
  as_leases-IsNormal :
      (b : Option Bool) (p : Option (List Lease)) (state : Bool) (rs : List Lease)
      → ((qs : List Lease) → p ≡ some qs → All (IsNormal l) qs)
      → as_leases b p ≡ some (state, rs)
      → All (IsNormal l) rs
  as_leases-IsNormal (some b) (some qs) state rs h e = h rs (cc)
  as_leases-IsNormal (some b) none state rs h e = absurd (ground (arith, e))
  as_leases-IsNormal none p state rs h e = absurd (ground (arith, e))

  list_and_state-IsNormal :
      (d : Dict Text Value) (v : Option Value) (state : Bool) (rs : List Lease)
      → list_and_state f l d v ≡ some (state, rs)
      → All (IsNormal l) rs
  unfolding list_and_state
  list_and_state-IsNormal d (some (text s)) state rs e = elim (Bool-cases (contains key_state d)) [
    | inl c ↦
        as_leases-IsNormal (safe_bool (state_value (lookup key_state d)))
          (parse_leases f l (some s)) state rs (parse_leases-IsNormal f l (some s))
          (ground (arith, c, e))
    | inr c ↦ absurd (ground (arith, c, e))
  ]
  list_and_state-IsNormal d none state rs e = absurd (ground (arith, e))
  list_and_state-IsNormal d (some null) state rs e = absurd (ground (arith, e))
  list_and_state-IsNormal d (some (bool x)) state rs e = absurd (ground (arith, e))
  list_and_state-IsNormal d (some (int x)) state rs e = absurd (ground (arith, e))

  read_answer-IsNormal :
      (answer : Option (Dict Text Value)) (state : Bool) (rs : List Lease)
      → read_answer f l answer ≡ some (state, rs)
      → All (IsNormal l) rs
  unfolding read_answer
  read_answer-IsNormal none state rs e = absurd (ground (arith, e))
  read_answer-IsNormal (some d) state rs e =
      list_and_state-IsNormal d (lookup key_list d) state rs e

  -- The leases of a snapshot are normal, whatever the router answers.
  pub snapshot-IsNormal :
      (hook : Text → Option (Dict Text Value)) (state : Bool) (rs : List Lease)
      → snapshot f l hook ≡ some (state, rs)
      → All (IsNormal l) rs
  unfolding snapshot ask nvram all_values
  snapshot-IsNormal hook state rs e = read_answer-IsNormal _ state rs e

  -- What is sent for normal leases.
  pub apply_leases_same :
      (run : Compiled → Option Bool) (rs : List Lease) (enabled : Bool)
      → All (IsNormal l) rs
      → (Distinct rs
          × (apply_leases f l run rs (some enabled)
              ≡ sent_as run (some (record { list_text = serialize rs; enabled = enabled }))))
        ⊎ ((¬ Distinct rs) × (apply_leases f l run rs (some enabled) ≡ value_error))
  unfolding apply_leases
  apply_leases_same run rs enabled h =
      elim (compile_lem f l rs rs (some enabled) (normalize_all_same f l rs h)) [
        | inl (d, e) ↦ inl (d, ap (sent_as run) e)
        | inr (d, e) ↦ inr (d, ap (sent_as run) e)
      ]

  -- A lease of a known layout is normal unless a legacy one has a DNS server.
  chosen-IsNormal :
      (n : Lease) (layout : Layout)
      → IsNormal l n
      → is_known layout ≡ true
      → (is_legacy layout && not (is_empty n.dns)) ≡ false
      → IsNormal l (lease_of n.mac n.ip n.dns n.hostname layout)
  chosen-IsNormal n layout k known bad = record {
    mac_text = k.mac_text;
    ip_text = k.ip_text;
    dns_text = k.dns_text;
    known_layout = known;
    legacy_dns = bad;
    no_delimiters = k.no_delimiters;
  }

  chosen_refused :
      (n : Lease) (layout : Layout)
      → IsNormal l n
      → is_known layout ≡ true
      → (is_legacy layout && not (is_empty n.dns)) ≡ true
      → normalize_lease f l (lease_of n.mac n.ip n.dns n.hostname layout) ≡ none
  unfolding finish_lease
  chosen_refused n layout k known bad =
      normalize_lease-finish_lease f l (lease_of n.mac n.ip n.dns n.hostname layout) k.mac_text
        k.ip_text k.dns_text
      ∙ rw known (rw bad refl)

  -- The steps before the lease is put into the list.
  set_normal-put_lease :
      (run : Compiled → Option Bool) (rs : List Lease) (n : Lease)
      → All (IsNormal l) rs
      → set_normal f l run rs (some n)
        ≡ put_lease f l run (normalize_lease f l (chosen rs n)) (some (kept n.mac rs))
  unfolding set_normal choose_lease
  set_normal-put_lease run rs n h =
      ap (choose_lease f l run rs n) (find_mac-first f l n.mac rs h)
      ∙ ap (put_lease f l run (normalize_lease f l (chosen rs n))) (without_mac-kept f l n.mac rs h)

  -- What the method does after the snapshot, for a lease that is normal.
  set_normal_lem :
      (run : Compiled → Option Bool) (rs : List Lease) (n : Lease)
      → All (IsNormal l) rs
      → IsNormal l n
      → (Accepted rs n
          × (set_normal f l run rs (some n)
              ≡ sent_as run (
                  some (record {
                    list_text = serialize (kept n.mac rs ++ (chosen rs n ∷ []));
                    enabled = true;
                  }))))
        ⊎ ((¬ Accepted rs n) × (set_normal f l run rs (some n) ≡ value_error))
  unfolding put_lease
  set_normal_lem run rs n h k =
      let known = layout_for-known l n.mac rs n.layout h k.known_layout in
      let step = set_normal-put_lease run rs n h in
      elim (Bool-cases (is_legacy (chosen rs n).layout && not (is_empty n.dns))) [
        | inl bad ↦ inr (
          λ (ok, d). absurd (ground (arith, ok, bad)),
          step
              ∙ ap (λ r. put_lease f l run r (some (kept n.mac rs)))
                  (chosen_refused n _ k known bad),
        )
        | inr ok ↦
            let fine = chosen-IsNormal n _ k known ok in
            let put =
              step
              ∙ ap (λ r. put_lease f l run r (some (kept n.mac rs)))
                  (normalize_lease_same f l (chosen rs n) fine) in
            elim (apply_leases_same run (kept n.mac rs ++ (chosen rs n ∷ [])) true
              (append-All l (kept n.mac rs) (chosen rs n) (kept-All l n.mac rs h) fine)) [
                | inl (d, e) ↦ inl ((ok, d), put ∙ e)
                | inr (d, e) ↦ inr (λ (_, t). d t, put ∙ e)
              ]
      ]

  -- Setting a lease, of an answer of the router that is read and of values that are normal: the
  -- request holds the leases of the other MAC addresses in their order and then the new one, and
  -- enables static leases. If the new lease had a DNS server in the legacy layout, or an address would
  -- be repeated, no request is sent.
  pub set_lease_lem :
      (hook : Text → Option (Dict Text Value)) (run : Compiled → Option Bool) (mac ip : Text)
      (hostname dns : Option Text) (state : Bool) (rs : List Lease) (n : Lease)
      → snapshot f l hook ≡ some (state, rs)
      → normalize_lease f l (lease_of mac ip (optional_text dns) (optional_text hostname) modern)
        ≡ some n
      → (Accepted rs n
          × (set_lease f l hook run mac ip hostname dns
              ≡ sent_as run (
                  some (record {
                    list_text = serialize (kept n.mac rs ++ (chosen rs n ∷ []));
                    enabled = true;
                  }))))
        ⊎ ((¬ Accepted rs n) × (set_lease f l hook run mac ip hostname dns ≡ value_error))
  unfolding set_lease set_in
  set_lease_lem hook run mac ip hostname dns state rs n read normal =
      let asked = lease_of mac ip (optional_text dns) (optional_text hostname) modern in
      let step : set_in f l run asked (snapshot f l hook) ≡ set_normal f l run rs (some n) =
        ap (set_in f l run asked) read ∙ ap (set_normal f l run rs) normal in
      elim (set_normal_lem run rs n (snapshot-IsNormal hook state rs read)
        (normalize_lease-IsNormal f l asked n normal).0) [
          | inl (a, e) ↦ inl (a, step ∙ e)
          | inr (a, e) ↦ inr (a, step ∙ e)
        ]
