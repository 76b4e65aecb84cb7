-- ===== src/Clients/Processed.antt =====
-- asusrouter/modules/client.py: what a client that was read is made of, whether connected or not.
use mathlib.Core.Path.{subst}
use asusrouter.Base.{
  ◌≡◌, ◌≢◌, ◌⊎◌, inl, inr, refl, ap, ◌∙◌, Bool, false, Option, none, some, arith, ◌<◌, ◌≤◌, ltb,
  Bool-cases,
}
use asusrouter.Base.Int.{ℤ, ◌-ℤ◌, abs}
use asusrouter.Base.Dict.{Dict}
use asusrouter.Base.Text.{Text}
use asusrouter.Tools.Converters.{Value, null}
use asusrouter.Clients.{
  connected_state, disconnected_state, disconnected, AddressType, dhcp, pppoe, pptp, static,
  unknown_address, Wlan, ClientConnection, Description, Client,
}
use asusrouter.Clients.Reading.{◌>>=◌, process_client_description, process_client_connection}
use asusrouter.Clients.Process.{
  is_static, kept_since, with_since, process_disconnected, process_history, with_history, cleaned,
  client_of, process_client,
}
use asusrouter.Clients.States.{IsOnline, process_client_state_exact}

bind_inv :
    {A B : Type 0} (o : Option A) (f : A → Option B) (b : B)
    → (o >>= f) ≡ some b
    → (a : A) × (o ≡ some a) × (f a ≡ some b)
bind_inv none f b h = absurd (ground (arith, h))
bind_inv (some a) f b h = (a, refl, h)

is_static-false : (m : Option AddressType) → m ≢ some static → is_static m ≡ false
is_static-false none n = refl
is_static-false (some dhcp) n = refl
is_static-false (some pppoe) n = refl
is_static-false (some pptp) n = refl
is_static-false (some static) n = absurd (n refl)
is_static-false (some unknown_address) n = refl

-- The time of a wireless connection, by the old one and the one that is read: the old one if they are
-- less than ten seconds apart, else the one that is read.
abbrev pub IsTimed : Option ℤ → Option ℤ → Option ℤ → Type 0
IsTimed (some t) (some u) o =
    ((abs (t -ℤ u) < 10) × (o ≡ some t)) ⊎ ((10 ≤ abs (t -ℤ u)) × (o ≡ some u))
IsTimed _ u o = o ≡ u

kept_since-IsTimed : (old u : Option ℤ) → IsTimed old u (kept_since u old)
kept_since-IsTimed none none = refl
kept_since-IsTimed none (some u) = refl
kept_since-IsTimed (some t) none = refl
kept_since-IsTimed (some t) (some u) = elim (Bool-cases (ltb (abs (t -ℤ u)) 10)) [
  | inl p ↦ inl (ground (arith, p), rw p refl)
  | inr p ↦ inr (ground (arith, p), rw p refl)
]

module _ {F : Type 0} where
  history_disconnected :
      (c : ClientConnection F) (history : Option (Client F))
      → with_history history (process_disconnected c) ≡ process_disconnected c
  unfolding with_history process_history process_disconnected
  history_disconnected c none = refl
  history_disconnected c (some old) =
      elim old.connection
        as (λ o.
          elim o [
            | none ↦ process_disconnected c
            | some h ↦ process_history (process_disconnected c) h
          ]
          ≡ process_disconnected c) [ none ↦ refl | some h ↦ refl ]

  -- What is left of a connection that is not on line: the internet mode, the address method, and the
  -- address if it is static.
  pub record IsCleared (c d : ClientConnection F) : Type 0 where
    pub no_type : d.kind ≡ disconnected
    pub same_mode : d.internet_mode ≡ c.internet_mode
    pub same_method : d.ip_method ≡ c.ip_method
    pub static_address : c.ip_method ≡ some static → d.ip_address ≡ c.ip_address
    pub no_address : c.ip_method ≢ some static → d.ip_address ≡ null
    pub no_internet : d.internet_state ≡ none
    pub no_node : d.node ≡ null
    pub off_line : d.online ≡ some false
    pub no_aimesh : d.aimesh ≡ none
    pub no_wlan : d.wlan ≡ none

  process_disconnected-IsCleared : (c : ClientConnection F) → IsCleared c (process_disconnected c)
  unfolding process_disconnected
  process_disconnected-IsCleared c = record {
    no_type = refl;
    same_mode = refl;
    same_method = refl;
    static_address = λ h. rw h refl;
    no_address = λ n. rw (is_static-false c.ip_method n) refl;
    no_internet = refl;
    no_node = refl;
    off_line = refl;
    no_aimesh = refl;
    no_wlan = refl;
  }

  -- The wireless part of a connection, by the old one and the one that is read.
  abbrev pub IsContinued : Option (Wlan F) → Option (Wlan F) → Option (Wlan F) → Type 0
  IsContinued (some old) (some w) o =
      (v : Wlan F) × (o ≡ some v)
      × (v ≡ record w { since = v.since })
      × IsTimed old.since w.since v.since
  IsContinued _ w o = o ≡ w

  abbrev pub wlan_in : Option (ClientConnection F) → Option (Wlan F)
  wlan_in none = none
  wlan_in (some h) = h.wlan

  -- The wireless part of the connection that the history has.
  abbrev pub wlan_before : Option (Client F) → Option (Wlan F)
  wlan_before none = none
  wlan_before (some old) = wlan_in old.connection

  with_since-IsContinued : (old w : Option (Wlan F)) → IsContinued old w (with_since w old)
  with_since-IsContinued none none = refl
  with_since-IsContinued none (some w) = refl
  with_since-IsContinued (some v) none = refl
  with_since-IsContinued (some v) (some w) = (
    record w { since = kept_since w.since v.since },
    refl,
    refl,
    kept_since-IsTimed v.since w.since,
  )

  IsContinued-none : (w : Option (Wlan F)) → IsContinued none w w
  IsContinued-none none = refl
  IsContinued-none (some w) = refl

  with_connection :
      (c : ClientConnection F) (o : Option (ClientConnection F))
      → let d = elim o as (λ _. ClientConnection F) [ none ↦ c | some h ↦ process_history c h ] in
        (d ≡ record c { wlan = d.wlan }) × IsContinued (wlan_in o) c.wlan d.wlan
  unfolding process_history
  with_connection c none = (refl, IsContinued-none c.wlan)
  with_connection c (some h) = (refl, with_since-IsContinued h.wlan c.wlan)

  with_history-IsContinued :
      (c : ClientConnection F) (history : Option (Client F))
      → let d = with_history history c in
        (d ≡ record c { wlan = d.wlan }) × IsContinued (wlan_before history) c.wlan d.wlan
  unfolding with_history
  with_history-IsContinued c none = (refl, IsContinued-none c.wlan)
  with_history-IsContinued c (some old) = with_connection c old.connection

  -- What a client is made of: if its connection is on line it is connected and has it, but for the time
  -- of a wireless one; otherwise it is disconnected and its connection is cleared.
  abbrev pub IsProcessed : Bool → Option (Client F) → ClientConnection F → Client F → Type 0
  IsProcessed mesh history c r =
      (d : ClientConnection F) × (r.connection ≡ some d)
      × (((r.state ≡ connected_state)
            × IsOnline mesh c
            × (d ≡ record c { wlan = d.wlan })
            × IsContinued (wlan_before history) c.wlan d.wlan)
          ⊎ ((r.state ≡ disconnected_state) × (¬ IsOnline mesh c) × IsCleared c d))

  client_of_lem :
      (mesh : Bool) (history : Option (Client F)) (description : Description)
      (c : ClientConnection F)
      → IsProcessed mesh history c (client_of mesh history description c)
  unfolding client_of cleaned
  client_of_lem mesh history description c = elim (process_client_state_exact mesh c) [
    | inl (e, o) ↦
        let (same, continued) = with_history-IsContinued c history in
        (
          with_history history c,
          ap (λ s. some (with_history history (cleaned s c))) e,
          inl (e, o, same, continued),
        )
    | inr (e, o) ↦ (
      process_disconnected c,
      ap (λ s. some (with_history history (cleaned s c))) e
          ∙ ap some (history_disconnected c history),
      inr (e, o, process_disconnected-IsCleared c),
    )
  ]

  -- A client that is read is connected exactly if its connection has an address and a type, is no node of
  -- an AiMesh, has a node if the router has an AiMesh, and says that it is on line. Then it keeps the
  -- connection, except that a wireless one keeps the time of the history's wireless one if both have a
  -- time and these are less than ten seconds apart. If not, it keeps the internet mode, the address
  -- method and a static address, and nothing else.
  pub process_client_lem :
      (float_int : Text → Option ℤ) (safe_float : Value → Option F) (now : ℤ) (mesh : Bool)
      (d : Dict Text Value) (history : Option (Client F)) (r : Client F)
      → process_client float_int safe_float now mesh d history ≡ some r
      → (c : ClientConnection F) × (process_client_connection float_int safe_float now d ≡ some c)
        × IsProcessed mesh history c r
  unfolding process_client
  process_client_lem float_int safe_float now mesh d history r h =
      let (description, _, h2) = bind_inv (process_client_description d) _ r h in
      let (c, read, h3) = bind_inv (process_client_connection float_int safe_float now d) _ r h2 in
      let same : client_of mesh history description c ≡ r = cc in
      (c, read, subst (IsProcessed mesh history c) same (client_of_lem mesh history description c))
