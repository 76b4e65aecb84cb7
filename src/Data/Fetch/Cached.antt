-- ===== src/Data/Fetch/Cached.antt =====
-- asusrouter/asusrouter.py: when `async_get_data` answers from its cache.
use asusrouter.Base.{
  ℕ, ◌+◌, ◌*◌, ◌<◌, ◌≡◌, Bool, true, false, Option, none, some, Bool-cases, inl, inr, arith,
}
use asusrouter.Base.Dict.{lookup}
use asusrouter.Data.{AsusData, DataState, data_key}
use asusrouter.Data.Fetch.{Store, answer, data_of, is_cached, cached_in, begin, data_in}

module _ {A : Type 0} (is_true : A → Bool) (cache_time : ℕ) where
  -- A state whose data may be returned without a request.
  abbrev pub IsCurrent : ℕ → Option (DataState A) → Option A → Type 0
  IsCurrent now none o = ⊥
  IsCurrent now (some s) o =
      (s.content ≡ o) × (s.invalidated ≡ false) × (now < s.timestamp + cache_time * 1000000)

  cached_in-IsCurrent :
      (now : ℕ) (force : Bool) (s : Option (DataState A))
      → cached_in is_true cache_time now force s ≡ true
      → (force ≡ false) × IsCurrent now s (data_in s)
  unfolding cached_in is_cached
  cached_in-IsCurrent now force none h = absurd (ground arith)
  cached_in-IsCurrent now force (some s) h = ground arith

  -- Data is returned without a request only if the call is not forced and the data is the one of a
  -- state that is not invalidated and is younger than the cache time.
  pub begin-IsCurrent :
      (now : ℕ) (key : AsusData) (force found : Bool) (store : Store A) (o : Option A)
      → (begin is_true cache_time now key force found store).0 ≡ answer (data_of o)
      → (force ≡ false) × IsCurrent now (lookup key store) o
  unfolding begin
  begin-IsCurrent now key force found store o h =
      elim (Bool-cases (cached_in is_true cache_time now force (lookup key store))) [
        | inl p ↦
            let q : o ≡ data_in (lookup key store) = ground (arith, p, h) in
            rw q (cached_in-IsCurrent now force (lookup key store) p)
        | inr p ↦ absurd (ground (arith, p, h))
      ]
