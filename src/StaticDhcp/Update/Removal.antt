-- ===== src/StaticDhcp/Update/Removal.antt =====
-- asusrouter/asusrouter.py: removing a static lease.
use asusrouter.Base.{
  ◌≡◌, ◌⊎◌, refl, ap, ◌∙◌, Bool, true, false, not, ◌&&◌, Bool-cases, inl, inr, Option, none, some,
  List, length, ◌==◌, All,
}
use asusrouter.Base.Int.{ℤ}
use asusrouter.Base.Dict.{Dict}
use asusrouter.Base.Text.{Text}
use asusrouter.Tools.Converters.{Value}
use asusrouter.Tools.Identifiers.Ip.{Library}
use asusrouter.StaticDhcp.{Lease, normalize_mac, Compiled, serialize}
use asusrouter.StaticDhcp.Normal.{IsNormal}
use asusrouter.StaticDhcp.Distinct.{Distinct}
use asusrouter.StaticDhcp.Update.{
  Ending, done, data_error, value_error, service_error, ended, removed, remove_from, remove_normal,
  remove_in, remove_lease, filled,
}
use asusrouter.StaticDhcp.Snapshot.{snapshot}
use asusrouter.StaticDhcp.Update.Kept.{kept, without_mac-kept, kept-All}
use asusrouter.StaticDhcp.Update.Methods.{apply_leases_same, snapshot-IsNormal}

-- The request that removes a lease.
abbrev pub removal : Bool → List Lease → Compiled
removal state rs = record { list_text = serialize rs; enabled = state && filled rs }

-- The end of a removal by that of the service: it raised, it failed, or it succeeded.
abbrev pub removal_ending : Compiled → List Lease → Option Bool → Ending (List Lease)
removal_ending c rs none = service_error c
removal_ending c rs (some false) = data_error (some c)
removal_ending c rs (some true) = done (some c) rs

removed-ended :
    (c : Compiled) (rs : List Lease) (r : Option Bool)
    → removed rs (ended c r) ≡ removal_ending c rs r
removed-ended c rs none = refl
removed-ended c rs (some false) = refl
removed-ended c rs (some true) = refl

module _ (f : Text → Option ℤ) (l : Library) where
  remove_normal-remove_from :
      (run : Compiled → Option Bool) (apply state : Bool) (rs : List Lease) (m : Text)
      → All (IsNormal l) rs
      → remove_normal f l run apply state rs (some m)
        ≡ remove_from f l run apply state rs (some (kept m rs))
  unfolding remove_normal
  remove_normal-remove_from run apply state rs m h =
      ap (remove_from f l run apply state rs) (without_mac-kept f l m rs h)

  remove_from_lem :
      (run : Compiled → Option Bool) (apply state : Bool) (rs qs : List Lease)
      → All (IsNormal l) qs
      → (((apply && not (length qs == length rs)) ≡ false)
          × (remove_from f l run apply state rs (some qs) ≡ done none qs))
        ⊎ (((apply && not (length qs == length rs)) ≡ true)
            × ((Distinct qs
                  × (remove_from f l run apply state rs (some qs)
                      ≡ (removal_ending (removal state qs) qs (run (removal state qs)))))
                ⊎ ((¬ Distinct qs) × (remove_from f l run apply state rs (some qs) ≡ value_error))))
  unfolding remove_from
  remove_from_lem run apply state rs qs h =
      elim (Bool-cases (apply && not (length qs == length rs))) [
        | inr e ↦ inl (e, rw e refl)
        | inl e ↦ inr (
          e,
          elim (apply_leases_same f l run qs (state && filled qs) h) [
            | inl (d, sent) ↦ inl (
              d,
              rw e (
                  ap (removed qs) sent
                  ∙ removed-ended (removal state qs) qs (run (removal state qs))),
            )
            | inr (d, sent) ↦ inr (d, rw e (ap (removed qs) sent))
          ],
        )
      ]

  -- Removing a MAC address, of an answer of the router that is read and of an address that is: the
  -- result is the leases of the other addresses in their order. They are sent only if that is asked for
  -- and a lease is gone; static leases stay enabled if they were and a lease is left. If the service
  -- fails or raises the method does, and if the leases that are left repeat an address nothing is sent.
  pub remove_lease_lem :
      (hook : Text → Option (Dict Text Value)) (run : Compiled → Option Bool) (mac m : Text)
      (apply state : Bool) (rs : List Lease)
      → snapshot f l hook ≡ some (state, rs)
      → normalize_mac f mac ≡ some m
      → (((apply && not (length (kept m rs) == length rs)) ≡ false)
          × (remove_lease f l hook run mac apply ≡ done none (kept m rs)))
        ⊎ (((apply && not (length (kept m rs) == length rs)) ≡ true)
            × ((Distinct (kept m rs)
                  × (remove_lease f l hook run mac apply ≡ (
                      removal_ending
                        (removal state (kept m rs))
                        (kept m rs)
                        (run (removal state (kept m rs))))))
                ⊎ ((¬ Distinct (kept m rs)) × (remove_lease f l hook run mac apply ≡ value_error))))
  unfolding remove_lease remove_in
  remove_lease_lem hook run mac m apply state rs read normal =
      let h = snapshot-IsNormal f l hook state rs read in
      let step : remove_in f l run mac apply (snapshot f l hook)
          ≡ remove_from f l run apply state rs (some (kept m rs)) =
        ap (remove_in f l run mac apply) read
        ∙ ap (remove_normal f l run apply state rs) normal
        ∙ remove_normal-remove_from run apply state rs m h in
      elim (remove_from_lem run apply state rs (kept m rs) (kept-All l m rs h)) [
        | inl (e, r) ↦ inl (e, step ∙ r)
        | inr (e, inl (d, r)) ↦ inr (e, inl (d, step ∙ r))
        | inr (e, inr (d, r)) ↦ inr (e, inr (d, step ∙ r))
      ]
