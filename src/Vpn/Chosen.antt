-- ===== src/Vpn/Chosen.antt =====
-- asusrouter/modules/vpnc.py: `set_state_other` switches the client that is asked for.
use mathlib.Core.Path.{subst}
use mathlib.Core.Option.{some_inj, some-ne-none}
use asusrouter.Base.{
  ◌≡◌, refl, sym, ap, ◌∙◌, Bool, true, false, ◌&&◌, Option, none, some, [], ◌∷◌, All, Option-cases,
  Bool-cases, inl, inr, arith, if◌then◌else◌,
}
use asusrouter.Base.Int.{ℤ, pos}
use asusrouter.Base.Text.{Text, codes, split}
use asusrouter.Base.Text.Separators.{Free}
use asusrouter.Tools.Converters.{int, text}
use asusrouter.Vpn.{
  VpnType, Info, ClientTable, VpncState, unknown, connecting, connected, error, disconnected,
  ClientState, state_of, service_of, VpnEnding, not_set, calls, Call, call_of, set_service,
  set_state_vpnc, get_argument_clientlist, row_delimiter, field_delimiter,
}
use asusrouter.Vpn.Reading.{
  unescaped, read_clients, find_client, same_vpn_type, same_number, unit_in, find_vpnc_unit,
  set_state_other,
}
use asusrouter.Vpn.Switched.{IsSwitched, get_argument_clientlist-IsSwitched}
use asusrouter.Vpn.Units.{IsAt, IsRow, read_clients-IsAt}

-- A client of a type and a number.
abbrev pub IsClient : VpnType → ℤ → Info → Type 0
IsClient kind id info =
    (same_vpn_type info.kind kind ≡ true) × (same_number info.client_id id ≡ true)

both : (a b : Bool) → (a && b) ≡ true → (a ≡ true) × (b ≡ true)
both true b h = (refl, h)
both false b h = absurd (ground (arith, h))

abbrev or_first : Option Info → Bool → Info → Option Info
or_first later b info = elim later [ some i ↦ some i | none ↦ if b then some info else none ]

find_client-All :
    (P : Option ℤ × Info → Type 0) (kind : VpnType) (id : ℤ) (clients : ClientTable) (info : Info)
    → All P clients
    → find_client kind id clients ≡ some info
    → (number : Option ℤ) × P (number, info) × IsClient kind id info
unfolding find_client
find_client-All P kind id [] info h e = absurd (some-ne-none info (sym e))
find_client-All P kind id ((number, i) ∷ clients) info (h, hs) e =
    let b = same_vpn_type i.kind kind && same_number i.client_id id in
    elim (Option-cases (find_client kind id clients)) [
      | inr (j, q) ↦
          find_client-All P kind id clients info hs (q ∙ (sym (ap (λ o. or_first o b i) q) ∙ e))
      | inl q ↦
          (let w = sym (ap (λ o. or_first o b i) q) ∙ e in
            elim (Bool-cases b) [
              | inl t ↦
                  (let same = some_inj.0 (sym (ap (λ c. if c then some i else none) t) ∙ w) in
                    let (k, n) = both (same_vpn_type i.kind kind) (same_number i.client_id id) t in
                    subst (λ x. (number : Option ℤ) × P (number, x) × IsClient kind id x) same
                      (number, h, (k, n)))
              | inr t ↦ absurd (some-ne-none info (sym w ∙ ap (λ c. if c then some i else none) t))
            ])
    ]

service_of-Free :
    (v : VpncState) (p : Text × Text)
    → service_of v ≡ some p
    → Free row_delimiter p.1 × Free field_delimiter p.1
service_of-Free unknown p h = absurd (some-ne-none p (sym h))
service_of-Free connected p h = absurd (some-ne-none p (sym h))
service_of-Free error p h = absurd (some-ne-none p (sym h))
service_of-Free connecting p h =
    subst (λ (p : Text × Text). Free row_delimiter p.1 × Free field_delimiter p.1) (some_inj.0 h)
      ((refl, tt), (refl, tt))
service_of-Free disconnected p h =
    subst (λ (p : Text × Text). Free row_delimiter p.1 × Free field_delimiter p.1) (some_inj.0 h)
      ((refl, tt), (refl, tt))

abbrev pub call_for : Text → ℤ → Text → Call
call_for service unit out = record {
  service = service;
  arguments = (codes "vpnc_unit", int unit) ∷ (codes "vpnc_clientlist", text out) ∷ [];
}

is_calls : Option VpnEnding → Bool
is_calls (some (calls c)) = true
is_calls _ = false

call_in : Call → Option VpnEnding → Call
call_in c (some (calls d)) = d
call_in c _ = c

call_of_inv :
    (service : Text) (unit : ℤ) (o : Option (Option Text)) (c : Call)
    → call_of service unit o ≡ some (calls c)
    → (out : Text) × (o ≡ some (some out)) × (call_for service unit out ≡ c)
unfolding is_calls call_in
call_of_inv service unit none c h = absurd (ground (arith, ap is_calls h))
call_of_inv service unit (some none) c h = absurd (ground (arith, ap is_calls h))
call_of_inv service unit (some (some [])) c h = absurd (ground (arith, ap is_calls h))
call_of_inv service unit (some (some (x ∷ out))) c h = (x ∷ out, refl, ap (call_in c) h)

set_service_inv :
    (o : Option (Text × Text)) (unit : ℤ) (s : Text) (c : Call)
    → set_service o unit s ≡ some (calls c)
    → (p : Text × Text) × (o ≡ some p)
      × (out : Text) × (get_argument_clientlist s unit p.1 ≡ some (some out))
      × (call_for p.0 unit out ≡ c)
unfolding is_calls
set_service_inv none unit s c h = absurd (ground (arith, ap is_calls h))
set_service_inv (some (service, b)) unit s c h =
    let (out, e, k) = call_of_inv service unit (get_argument_clientlist s unit b) c h in
    ((service, b), refl, out, e, k)

set_state_vpnc_inv :
    (v : VpncState) (o : Option ℤ) (s : Text) (c : Call)
    → set_state_vpnc (some v) o (some s) ≡ some (calls c)
    → (unit : ℤ) × (o ≡ some unit) × (set_service (service_of v) unit s ≡ some (calls c))
unfolding set_state_vpnc is_calls
set_state_vpnc_inv v none s c h = absurd (ground (arith, ap is_calls h))
set_state_vpnc_inv v (some unit) [] c h = absurd (ground (arith, ap is_calls h))
set_state_vpnc_inv v (some unit) (x ∷ s) c h = (unit, refl, h)

unit_in_inv :
    (o : Option Info) (unit : ℤ)
    → unit_in o ≡ some unit
    → (info : Info) × (o ≡ some info) × (pos info.vpnc_unit ≡ unit)
unit_in_inv none unit h = absurd (some-ne-none unit (sym h))
unit_in_inv (some info) unit h = (info, refl, some_inj.0 h)

-- What a client's switch sends: the row of a client with the type and the number is changed to the state,
-- and its unit is sent with the list.
pub record IsChosen (float_int : Text → Option ℤ) (kind : VpnType) (v : VpncState) (id : ℤ)
    (s : Text) (c : Call) : Type 0 where
  pub info : Info
  pub number : Option ℤ
  pub chosen : IsClient kind id info
  pub at : IsAt float_int (split row_delimiter s) (number, info)
  pub state : Text × Text
  pub mapped : service_of v ≡ some state
  pub out : Text
  pub sent : call_for state.0 (pos info.vpnc_unit) out ≡ c
  pub switched : IsSwitched info.vpnc_unit state.1 s out

-- From a list without escapes in which every piece is a row that is read, a service call that switches a
-- client by its number changes the state of a row with this type and number, and nothing else.
pub set_state_other-IsChosen :
    (float_int : Text → Option ℤ) (state : ClientState) (kind : VpnType) (v : VpncState) (id : ℤ)
    (s : Text) (c : Call)
    → unescaped s ≡ s
    → All (IsRow float_int) (split row_delimiter s)
    → state_of state ≡ some (kind, v)
    → set_state_other state (some id) (some (read_clients float_int s)) (some s) ≡ some (calls c)
    → IsChosen float_int kind v id s c
unfolding set_state_other find_vpnc_unit
set_state_other-IsChosen float_int state kind v id s c plain rows of h =
    let clients = read_clients float_int s in
    let asked =
      sym (
        ap
          (λ (o : Option (VpnType × VpncState)). elim o [
            | none ↦ some not_set
            | some (kind, vpnc) ↦
                set_state_vpnc (some vpnc) (find_vpnc_unit (some clients) kind id) (some s)
          ])
          of)
      ∙ h in
    let (unit, u, w) = set_state_vpnc_inv v (find_vpnc_unit (some clients) kind id) s c asked in
    let (info, found, same) = unit_in_inv (find_client kind id clients) unit u in
    let (number, at, client) =
      find_client-All (IsAt float_int (split row_delimiter s)) kind id clients info
        (read_clients-IsAt float_int s plain rows) found in
    let (p, m, out, list, call) = set_service_inv (service_of v) unit s c w in
    let (f, g) = service_of-Free v p m in
    record {
      info = info;
      number = number;
      chosen = client;
      at = at;
      state = p;
      mapped = m;
      out = out;
      sent = subst (λ z. call_for p.0 z out ≡ c) (sym same) call;
      switched =
          get_argument_clientlist-IsSwitched p.1 s out info.vpnc_unit f g
            (subst (λ z. get_argument_clientlist s z p.1 ≡ some (some out)) (sym same) list);
    }
