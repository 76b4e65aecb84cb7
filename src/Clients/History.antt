-- ===== src/Clients/History.antt =====
-- asusrouter/modules/client.py: the time of a wireless connection over several readings.
use asusrouter.Base.{◌<◌, ◌≡◌, ap, ◌∙◌, some, List, [], ◌∷◌, All, arith}
use asusrouter.Base.Int.{ℤ, ◌-ℤ◌, abs}
use asusrouter.Clients.{Wlan, ClientConnection}
use asusrouter.Clients.Process.{process_history, with_since, kept_since}

module _ {F : Type 0} where
  -- A wireless connection since some time.
  abbrev pub IsSince : ℤ → ClientConnection F → Type 0
  IsSince t c = (w : Wlan F) × (c.wlan ≡ some w) × (w.since ≡ some t)

  -- A wireless connection whose time is less than ten seconds from another one.
  abbrev pub IsNear : ℤ → ClientConnection F → Type 0
  IsNear t c = (u : ℤ) × IsSince u c × (abs (t -ℤ u) < 10)

  -- The connection after several readings, each with the one before as its history.
  unfoldable pub settled : ClientConnection F → List (ClientConnection F) → ClientConnection F
  unfolding process_history
  settled old [] = old
  settled old (c ∷ cs) = settled (process_history c old) cs

  with_since_lem :
      (t u : ℤ) (w old : Wlan F)
      → old.since ≡ some t
      → w.since ≡ some u
      → abs (t -ℤ u) < 10
      → kept_since w.since old.since ≡ some t
  with_since_lem t u w old ho hw near = rw ho (rw hw (ground (arith, near)))

  process_history-IsSince :
      (t : ℤ) (c old : ClientConnection F)
      → IsNear t c
      → IsSince t old
      → IsSince t (process_history c old)
  unfolding process_history
  process_history-IsSince t c old (u, (w, e, hw), near) (v, eo, ho) = (
    record w { since = kept_since w.since v.since },
    ap (λ o. with_since o old.wlan) e ∙ ap (with_since (some w)) eo,
    with_since_lem t u w v ho hw near,
  )

  -- However often the time of a wireless connection is read again, as long as each reading is less
  -- than ten seconds from the first one, the first one stays.
  pub settled-IsSince :
      (t : ℤ) (old : ClientConnection F) (cs : List (ClientConnection F))
      → IsSince t old
      → All (IsNear t) cs
      → IsSince t (settled old cs)
  unfolding settled
  settled-IsSince t old [] h hs = h
  settled-IsSince t old (c ∷ cs) h (n, hs) =
      settled-IsSince t (process_history c old) cs (process_history-IsSince t c old n h) hs
