-- ===== src/Vpn/Units.antt =====
-- asusrouter/modules/endpoint/hook.py and modules/vpnc.py: the unit of a client is the place of its row in
-- the list, as long as every row is read.
use mathlib.Core.Path.{subst}
use mathlib.Core.Option.{some_inj, some-ne-none}
use asusrouter.Base.{ℕ, suc, ◌+◌, ◌≡◌, refl, sym, ap, Option, some, List, [], ◌∷◌, All, ite, arith}
use asusrouter.Base.Int.{ℤ}
use asusrouter.Base.Positions.{item_at}
use asusrouter.Base.Dict.{insert}
use asusrouter.Base.Text.{Text, split}
use asusrouter.Vpn.{Info, ClientTable, row_delimiter, field_delimiter}
use asusrouter.Vpn.Reading.{
  ClientNumber-discrete, number_key, unescaped, read_fields, read_client_row, read_client_rows,
  read_clients,
}

-- A client stands in the list at its unit.
abbrev pub IsAt : (Text → Option ℤ) → List Text → Option ℤ × Info → Type 0
IsAt float_int all p =
    (row : Text) × (item_at p.1.vpnc_unit all ≡ some row)
    × (read_client_row float_int p.1.vpnc_unit row ≡ some p)

insert-All :
    (P : Option ℤ × Info → Type 0) (k : Option ℤ) (v : Info) (d : ClientTable)
    → P (k, v)
    → All P d
    → All P (insert k v d)
unfolding insert
insert-All P k v [] h hs = (h, tt)
insert-All P k v ((j, w) ∷ d) h (hw, hs) =
    elim (ClientNumber-discrete j k) as (λ q. All P (ite q ((j, v) ∷ d) ((j, w) ∷ insert k v d))) [
      | yes p ↦ (subst (λ i. P (i, v)) (sym p) h, hs)
      | no p ↦ (hw, insert-All P k v d h hs)
    ]

module _ (float_int : Text → Option ℤ) where
  -- A row that is read, whatever its unit is.
  abbrev pub IsRow : Text → Type 0
  IsRow row = (u : ℕ) → (p : Option ℤ × Info) × (read_client_row float_int u row ≡ some p)

  read_fields-unit :
      (u : ℕ) (fs : List Text) (p : Option ℤ × Info)
      → read_fields float_int u fs ≡ some p
      → p.1.vpnc_unit ≡ u
  unfolding read_fields
  read_fields-unit u (a ∷ b ∷ c ∷ d ∷ e ∷ f ∷ g ∷ rest) p h =
      sym (ap (λ (q : Option ℤ × Info). q.1.vpnc_unit) (some_inj.0 h))
  read_fields-unit u [] p h = absurd (some-ne-none p (sym h))
  read_fields-unit u (a ∷ []) p h = absurd (some-ne-none p (sym h))
  read_fields-unit u (a ∷ b ∷ []) p h = absurd (some-ne-none p (sym h))
  read_fields-unit u (a ∷ b ∷ c ∷ []) p h = absurd (some-ne-none p (sym h))
  read_fields-unit u (a ∷ b ∷ c ∷ d ∷ []) p h = absurd (some-ne-none p (sym h))
  read_fields-unit u (a ∷ b ∷ c ∷ d ∷ e ∷ []) p h = absurd (some-ne-none p (sym h))
  read_fields-unit u (a ∷ b ∷ c ∷ d ∷ e ∷ f ∷ []) p h = absurd (some-ne-none p (sym h))

  read_client_row-unit :
      (u : ℕ) (row : Text) (p : Option ℤ × Info)
      → read_client_row float_int u row ≡ some p
      → p.1.vpnc_unit ≡ u
  unfolding read_client_row
  read_client_row-unit u [] p h = absurd (some-ne-none p (sym h))
  read_client_row-unit u (c ∷ row) p h = read_fields-unit u (split field_delimiter (c ∷ row)) p h

  row-IsAt :
      (all : List Text) (u : ℕ) (row : Text) (p : Option ℤ × Info)
      → item_at u all ≡ some row
      → read_client_row float_int u row ≡ some p
      → IsAt float_int all p
  row-IsAt all u row p h e =
      let q = sym (read_client_row-unit u row p e) in
      (
        row,
        subst (λ i. item_at i all ≡ some row) q h,
        subst (λ i. read_client_row float_int i row ≡ some p) q e,
      )

  read_client_rows-IsAt :
      (all rows : List Text) (u : ℕ) (clients : ClientTable)
      → ((i : ℕ) (row : Text) → item_at i rows ≡ some row → item_at (u + i) all ≡ some row)
      → All IsRow rows
      → All (IsAt float_int all) clients
      → All (IsAt float_int all) (read_client_rows float_int u rows clients)
  unfolding read_client_rows
  read_client_rows-IsAt all [] u clients at rs h = h
  read_client_rows-IsAt all (row ∷ rows) u clients at (r, rs) h =
      let (p, e) = r u in
      let here = subst (λ i. item_at i all ≡ some row) (omega arith) (at 0 row refl) in
      let later = λ (i : ℕ) (w : Text) (q : item_at i rows ≡ some w).
        subst (λ k. item_at k all ≡ some w) (omega arith) (at (suc i) w q) in
      rw e (
        read_client_rows-IsAt all rows (suc u) (insert p.0 p.1 clients) later rs
          (insert-All (IsAt float_int all) p.0 p.1 clients (row-IsAt all u row p here e) h))

  -- If every piece of a list without escapes is a row that is read, each client that is read stands in the
  -- list at its unit.
  pub read_clients-IsAt :
      (s : Text)
      → unescaped s ≡ s
      → All IsRow (split row_delimiter s)
      → All (IsAt float_int (split row_delimiter s)) (read_clients float_int s)
  unfolding read_clients
  read_clients-IsAt s h rs = rw h (
      read_client_rows-IsAt (split row_delimiter s) (split row_delimiter s) 0 []
        (λ i row q. subst (λ k. item_at k (split row_delimiter s) ≡ some row) (omega arith) q) rs
        tt)
