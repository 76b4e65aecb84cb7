-- ===== src/Clients/States.antt =====
-- asusrouter/modules/client.py: which clients are connected, and what is kept of the others.
use asusrouter.Base.{
  ◌≡◌, ◌≢◌, ◌⊎◌, ◌↔◌, inl, inr, refl, Bool, true, false, ◌&&◌, ◌||◌, Option, none, some, arith,
  if◌then◌else◌,
}
use asusrouter.Tools.Converters.{Value, null, bool, int, text}
use asusrouter.Clients.{
  connected_state, disconnected_state, ConnectionType, wired, wlan_2g, wlan_5g, wlan_5g2, wlan_6g,
  disconnected, ClientConnection,
}
use asusrouter.Clients.Process.{is_null, is_disconnected, is_true, process_client_state}

-- A client that is on line: it has an address and a type, is no node of an AiMesh, has a node if the
-- router has one, and says that it is on line.
pub record IsOnline {F : Type 0} (mesh : Bool) (c : ClientConnection F) : Type 0 where
  pub has_address : c.ip_address ≢ null
  pub has_type : c.kind ≢ disconnected
  pub no_node : c.aimesh ≢ some true
  pub has_node : (mesh ≡ false) ⊎ (c.node ≢ null)
  pub is_online : c.online ≡ some true

is_null-false : (v : Value) → (is_null v ≡ false) ↔ (v ≢ null)
is_null-false null = (λ h. absurd (cc), λ n. absurd (n refl))
is_null-false (bool b) = (λ h e. absurd (cc), λ n. refl)
is_null-false (int z) = (λ h e. absurd (cc), λ n. refl)
is_null-false (text s) = (λ h e. absurd (cc), λ n. refl)

is_disconnected-false : (k : ConnectionType) → (is_disconnected k ≡ false) ↔ (k ≢ disconnected)
is_disconnected-false disconnected = (λ h. absurd (cc), λ n. absurd (n refl))
is_disconnected-false wired = (λ h e. absurd (cc), λ n. refl)
is_disconnected-false wlan_2g = (λ h e. absurd (cc), λ n. refl)
is_disconnected-false wlan_5g = (λ h e. absurd (cc), λ n. refl)
is_disconnected-false wlan_5g2 = (λ h e. absurd (cc), λ n. refl)
is_disconnected-false wlan_6g = (λ h e. absurd (cc), λ n. refl)

is_true-true : (o : Option Bool) → (is_true o ≡ true) ↔ (o ≡ some true)
is_true-true none = (λ h. absurd (cc), λ h. absurd (cc))
is_true-true (some false) = (λ h. absurd (cc), λ h. absurd (ground (arith, h)))
is_true-true (some true) = (λ h. refl, λ h. refl)

is_true-false : (o : Option Bool) → (is_true o ≡ false) ↔ (o ≢ some true)
is_true-false none = (λ h e. absurd (cc), λ n. refl)
is_true-false (some false) = (λ h e. absurd (ground (arith, e)), λ n. refl)
is_true-false (some true) = (λ h. absurd (cc), λ n. absurd (n refl))

-- The tests of the code in one.
tests_lem :
    (no_ip no_type node mesh no_node up : Bool)
    → let state =
        if no_ip || no_type
        then disconnected_state
        else if node
        then disconnected_state
        else if mesh && no_node
        then disconnected_state
        else if up
        then connected_state
        else disconnected_state in
      ((state ≡ connected_state)
        × (no_ip ≡ false)
        × (no_type ≡ false)
        × (node ≡ false)
        × ((mesh ≡ false) ⊎ (no_node ≡ false))
        × (up ≡ true))
      ⊎ ((state ≡ disconnected_state)
          × ((no_ip ≡ true)
              ⊎ (no_type ≡ true)
              ⊎ (node ≡ true)
              ⊎ ((mesh ≡ true) × (no_node ≡ true))
              ⊎ (up ≡ false)))
tests_lem true no_type node mesh no_node up = inr (refl, inl refl)
tests_lem false true node mesh no_node up = inr (refl, inr (inl refl))
tests_lem false false true mesh no_node up = inr (refl, inr (inr (inl refl)))
tests_lem false false false true true up = inr (refl, inr (inr (inr (inl (refl, refl)))))
tests_lem false false false true false true = inl (refl, refl, refl, refl, inr refl, refl)
tests_lem false false false true false false = inr (refl, inr (inr (inr (inr refl))))
tests_lem false false false false no_node true = inl (refl, refl, refl, refl, inl refl, refl)
tests_lem false false false false no_node false = inr (refl, inr (inr (inr (inr refl))))

no_mesh_node :
    (mesh : Bool) (v : Value) → mesh ≡ true → is_null v ≡ true → (mesh ≡ false) ⊎ (v ≢ null) → ⊥
no_mesh_node mesh v h n (inl f) = absurd (ground (arith, h, f))
no_mesh_node mesh v h n (inr f) = let e = (is_null-false v).1 f in absurd (ground (arith, n, e))

module _ {F : Type 0} where
  refused :
      (mesh : Bool) (c : ClientConnection F)
      → IsOnline mesh c
      → ((is_null c.ip_address ≡ true)
          ⊎ (is_disconnected c.kind ≡ true)
          ⊎ (is_true c.aimesh ≡ true)
          ⊎ ((mesh ≡ true) × (is_null c.node ≡ true))
          ⊎ (is_true c.online ≡ false))
      → ⊥
  refused mesh c k (inl h) =
      let e = (is_null-false c.ip_address).1 k.has_address in absurd (ground (arith, h, e))
  refused mesh c k (inr (inl h)) =
      let e = (is_disconnected-false c.kind).1 k.has_type in absurd (ground (arith, h, e))
  refused mesh c k (inr (inr (inl h))) =
      let e = (is_true-false c.aimesh).1 k.no_node in absurd (ground (arith, h, e))
  refused mesh c k (inr (inr (inr (inl (h, n))))) = no_mesh_node mesh c.node h n k.has_node
  refused mesh c k (inr (inr (inr (inr h)))) =
      let e = (is_true-true c.online).1 k.is_online in absurd (ground (arith, h, e))

  -- A client is connected exactly if it is on line.
  pub process_client_state_exact :
      (mesh : Bool) (c : ClientConnection F)
      → ((process_client_state mesh c ≡ connected_state) × IsOnline mesh c)
        ⊎ ((process_client_state mesh c ≡ disconnected_state) × (¬ IsOnline mesh c))
  unfolding process_client_state
  process_client_state_exact mesh c =
      elim (tests_lem (is_null c.ip_address) (is_disconnected c.kind) (is_true c.aimesh) mesh
        (is_null c.node) (is_true c.online)) [
          | inl (e, ip, k, n, m, o) ↦ inl (
            e,
            record {
              has_address = (is_null-false c.ip_address).0 ip;
              has_type = (is_disconnected-false c.kind).0 k;
              no_node = (is_true-false c.aimesh).0 n;
              has_node = elim m [ inl h ↦ inl h | inr h ↦ inr ((is_null-false c.node).0 h) ];
              is_online = (is_true-true c.online).0 o;
            },
          )
          | inr (e, w) ↦ inr (e, λ (k : IsOnline mesh c). refused mesh c k w)
        ]
