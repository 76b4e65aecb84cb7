-- ===== src/Vpn/Services/Fixed.antt =====
-- asusrouter/modules/openvpn.py and modules/wireguard.py: a service is one of a fixed list, whatever the
-- caller gives as an id.
use mathlib.Core.Path.{subst}
use mathlib.Core.Option.{some_inj, some-ne-none, map-eq-some_iff}
use asusrouter.Base.{
  ℕ, zero, suc, Bool-cases, ◌≡◌, ◌≤◌, refl, sym, ap, ◌∙◌, Bool, true, false, ◌&&◌, any, Option,
  none, some, List, [], ◌∷◌, ◌++◌, leb, inl, inr, arith, if◌then◌else◌,
}
use asusrouter.Base.Int.{pos, negsuc}
use asusrouter.Base.Text.{Text, codes, same_text}
use asusrouter.Tools.Converters.{Value, null, bool, int, text}
use asusrouter.Vpn.{VpnEnding, not_set, calls}
use asusrouter.Vpn.Services.{
  Side, client, server, VpnSwitch, on, off, neither, Device, id_in, numbered, openvpn_call,
  openvpn_with, set_state_openvpn, wireguard_id, wireguard_with, set_state_wireguard, has_numbers,
}

abbrev with_ids : Text → List Text
with_ids word =
    (word ++ codes "1")
    ∷ (word ++ codes "2")
    ∷ (word ++ codes "3")
    ∷ (word ++ codes "4")
    ∷ (word ++ codes "5")
    ∷ []

-- All services of OpenVPN, and those of WireGuard.
abbrev pub openvpn_services : List Text
openvpn_services =
    with_ids (codes "start_vpnclient")
    ++ (with_ids (codes "stop_vpnclient")
        ++ (with_ids (codes "start_vpnserver")
            ++ (with_ids (codes "stop_vpnserver")
                ++ (codes "restart_openvpnd;restart_chpass;restart_samba;restart_dnsmasq;"
                    ∷ codes "stop_openvpnd;restart_samba;restart_dnsmasq;"
                    ∷ []))))

abbrev pub wireguard_services : List Text
wireguard_services =
    with_ids (codes "start_wgc ")
    ++ (with_ids (codes "stop_wgc ") ++ (codes "restart_wgs;restart_dnsmasq" ∷ []))

-- A service call with one of the services; no call is one too.
abbrev pub IsFixed : List Text → VpnEnding → Type 0
IsFixed services not_set = Unit
IsFixed services (calls c) = any (same_text c.service) services ≡ true

pub data IsId : ℕ → Type 0 where
  one : IsId 1
  two : IsId 2
  three : IsId 3
  four : IsId 4
  five : IsId 5

bounded-IsId : (n : ℕ) → 1 ≤ n → n ≤ 5 → IsId n
bounded-IsId zero h k = absurd (omega arith)
bounded-IsId (suc zero) h k = one
bounded-IsId (suc (suc zero)) h k = two
bounded-IsId (suc (suc (suc zero))) h k = three
bounded-IsId (suc (suc (suc (suc zero)))) h k = four
bounded-IsId (suc (suc (suc (suc (suc zero))))) h k = five
bounded-IsId (suc (suc (suc (suc (suc (suc n)))))) h k = absurd (omega arith)

id_in-IsId : (v : Value) (n : ℕ) → id_in v ≡ some n → IsId n
id_in-IsId (int (pos m)) n h = elim (Bool-cases (leb 1 m && leb m 5)) [
  | inl e ↦
      (let same : m ≡ n = some_inj.0 (sym (ap (λ b. if b then some m else none) e) ∙ h) in
        subst IsId same (bounded-IsId m (ground (arith, e)) (ground (arith, e))))
  | inr e ↦ absurd (some-ne-none n (sym h ∙ ap (λ b. if b then some m else none) e))
]
id_in-IsId (int (negsuc m)) n h = absurd (some-ne-none n (sym h))
id_in-IsId null n h = absurd (some-ne-none n (sym h))
id_in-IsId (bool b) n h = absurd (some-ne-none n (sym h))
id_in-IsId (text t) n h = absurd (some-ne-none n (sym h))

abbrev IsIn : List Text → Text → Type 0
IsIn services s = any (same_text s) services ≡ true

numbered-IsIn :
    (n : ℕ)
    → IsId n
    → IsIn openvpn_services (numbered (codes "start_vpnclient") n)
      × IsIn openvpn_services (numbered (codes "stop_vpnclient") n)
      × IsIn openvpn_services (numbered (codes "start_vpnserver") n)
      × IsIn openvpn_services (numbered (codes "stop_vpnserver") n)
unfolding numbered
numbered-IsIn n one = (refl, refl, refl, refl)
numbered-IsIn n two = (refl, refl, refl, refl)
numbered-IsIn n three = (refl, refl, refl, refl)
numbered-IsIn n four = (refl, refl, refl, refl)
numbered-IsIn n five = (refl, refl, refl, refl)

wireguard-IsIn :
    (n : ℕ)
    → IsId n
    → IsIn wireguard_services (numbered (codes "start_wgc ") n)
      × IsIn wireguard_services (numbered (codes "stop_wgc ") n)
unfolding numbered
wireguard-IsIn n one = (refl, refl)
wireguard-IsIn n two = (refl, refl)
wireguard-IsIn n three = (refl, refl)
wireguard-IsIn n four = (refl, refl)
wireguard-IsIn n five = (refl, refl)

openvpn_call-IsFixed :
    (side : Side) (switch : VpnSwitch) (n : ℕ) (b : Bool)
    → IsId n
    → IsFixed openvpn_services (openvpn_call side switch n b)
openvpn_call-IsFixed client on n true i = (numbered-IsIn n i).0
openvpn_call-IsFixed client off n true i = (numbered-IsIn n i).1
openvpn_call-IsFixed server on n true i = (numbered-IsIn n i).2
openvpn_call-IsFixed server off n true i = (numbered-IsIn n i).3
openvpn_call-IsFixed client neither n true i = tt
openvpn_call-IsFixed server neither n true i = tt
openvpn_call-IsFixed client on n false i = tt
openvpn_call-IsFixed client off n false i = tt
openvpn_call-IsFixed client neither n false i = tt
openvpn_call-IsFixed server on n false i = refl
openvpn_call-IsFixed server off n false i = refl
openvpn_call-IsFixed server neither n false i = tt

openvpn_with-IsFixed :
    (side : Side) (switch : VpnSwitch) (device : Option Device) (o : Option ℕ) (e : VpnEnding)
    → ((n : ℕ) → o ≡ some n → IsId n)
    → openvpn_with side switch device o ≡ some e
    → IsFixed openvpn_services e
openvpn_with-IsFixed side switch device none e h k =
    subst (IsFixed openvpn_services) (some_inj.0 k) tt
openvpn_with-IsFixed side switch device (some n) e h k =
    let (b, _, same) = (map-eq-some_iff (openvpn_call side switch n) (has_numbers device)).0 k in
    subst (IsFixed openvpn_services) same (openvpn_call-IsFixed side switch n b (h n refl))

-- Whatever the caller gives as an id, what OpenVPN sends has one of the fixed services.
pub set_state_openvpn-IsFixed :
    (side : Side) (switch : VpnSwitch) (id : Value) (device : Option Device) (e : VpnEnding)
    → set_state_openvpn side switch id device ≡ some e
    → IsFixed openvpn_services e
unfolding set_state_openvpn
set_state_openvpn-IsFixed side on id device e h =
    openvpn_with-IsFixed side on device (id_in id) e (id_in-IsId id) h
set_state_openvpn-IsFixed side off id device e h =
    openvpn_with-IsFixed side off device (id_in id) e (id_in-IsId id) h
set_state_openvpn-IsFixed side neither id device e h =
    subst (IsFixed openvpn_services) (some_inj.0 h) tt

wireguard_id-IsId : (v : Value) (n : ℕ) → wireguard_id v ≡ some n → IsId n
wireguard_id-IsId null n h = subst IsId (some_inj.0 h) one
wireguard_id-IsId (bool b) n h = id_in-IsId (bool b) n h
wireguard_id-IsId (int z) n h = id_in-IsId (int z) n h
wireguard_id-IsId (text t) n h = id_in-IsId (text t) n h

wireguard_with-IsFixed :
    (side : Side) (switch : VpnSwitch) (o : Option ℕ)
    → ((n : ℕ) → o ≡ some n → IsId n)
    → IsFixed wireguard_services (wireguard_with side switch o)
wireguard_with-IsFixed side switch none h = tt
wireguard_with-IsFixed client on (some n) h = (wireguard-IsIn n (h n refl)).0
wireguard_with-IsFixed client off (some n) h = (wireguard-IsIn n (h n refl)).1
wireguard_with-IsFixed server on (some n) h = refl
wireguard_with-IsFixed server off (some n) h = refl
wireguard_with-IsFixed client neither (some n) h = tt
wireguard_with-IsFixed server neither (some n) h = tt

-- Whatever the caller gives as an id, what WireGuard sends has one of the fixed services.
pub set_state_wireguard-IsFixed :
    (side : Side) (switch : VpnSwitch) (id : Value)
    → IsFixed wireguard_services (set_state_wireguard side switch id)
unfolding set_state_wireguard
set_state_wireguard-IsFixed side switch id =
    wireguard_with-IsFixed side switch (wireguard_id id) (wireguard_id-IsId id)
