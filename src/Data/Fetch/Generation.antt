-- ===== src/Data/Fetch/Generation.antt =====
-- asusrouter/asusrouter.py: the operations on the cached states never lower a generation.
use asusrouter.Base.{
  true, ℕ, ◌≤◌, ◌<◌, ◌≡◌, ◌≢◌, inl, inr, refl, Bool, Option, none, some, Option-cases, List, [],
  ◌∷◌, arith,
}
use asusrouter.Base.Text.{Text}
use asusrouter.Base.Int.{ℤ}
use asusrouter.Base.Dict.{lookup, lookup-insert, lookup-insert_self}
use asusrouter.Data.{
  AsusData, DataState, data_key, parental_control, new_state, invalidate, start, stop, update,
  offset_time,
}
use asusrouter.Data.Fetch.{
  service_done, touches_rules, Store, Generations, recorded, generation_of, generations, on,
  check_state, invalidate_rules, begin, save, save_all, finish,
}

abbrev pub map_option : {A B : Type 0} → (A → B) → Option A → Option B
map_option f none = none
map_option f (some a) = some (f a)

module _ {A : Type 0} where
  pub lookup-on :
      (key : AsusData) (f : DataState A → DataState A) (store : Store A)
      → lookup key (on key f store) ≡ map_option f (lookup key store)
  unfolding lookup on
  lookup-on key f [] = refl
  lookup-on key f ((k, s) ∷ store) = ground (arith, lookup-on key f store)

  pub lookup-on_ne :
      (key other : AsusData) (f : DataState A → DataState A) (store : Store A)
      → key ≢ other
      → lookup other (on key f store) ≡ lookup other store
  unfolding lookup on
  lookup-on_ne key other f [] ne = refl
  lookup-on_ne key other f ((k, s) ∷ store) ne = ground (arith, lookup-on_ne key other f store ne)

  pub recorded-generations :
      (key : AsusData) (store : Store A)
      → recorded key (generations store) ≡ generation_of key store
  unfolding recorded lookup generations
  recorded-generations key [] = refl
  recorded-generations key ((k, s) ∷ store) = ground (arith, recorded-generations key store)

  pub on-generation :
      (key other : AsusData) (f : DataState A → DataState A) (store : Store A)
      → ((s : DataState A) → s.generation ≤ (f s).generation)
      → generation_of key store ≤ generation_of key (on other f store)
  unfolding lookup on
  on-generation key other f [] h = ground arith
  on-generation key other f ((k, s) ∷ store) h =
      ground (arith, h s, on-generation key other f store h)

  pub check_state-generation :
      (t : ℕ) (key other : AsusData) (store : Store A)
      → generation_of key store ≤ generation_of key (check_state t other store)
  unfolding check_state
  check_state-generation t key other store =
      ground (arith, lookup-insert other key (new_state t) store)

  pub offset-generation :
      (now : ℕ) (o : Option ℤ) (s : DataState A) → s.generation ≤ (offset_time now o s).generation
  unfolding offset_time
  offset-generation now o s = ground arith

  pub invalidate_rules-generation :
      (t : ℕ) (key : AsusData) (store : Store A)
      → generation_of key store ≤ generation_of key (invalidate_rules t store)
  unfolding invalidate_rules
  invalidate_rules-generation t key store = ground (
    arith,
    check_state-generation t key parental_control store,
    on-generation key parental_control invalidate (check_state t parental_control store)
        (λ s. ground arith),
  )

  lookup-check_state :
      (t : ℕ) (key : AsusData) (store : Store A)
      → (s : DataState A) × (lookup key (check_state t key store) ≡ some s)
        × (s.generation ≡ generation_of key store)
  unfolding check_state
  lookup-check_state t key store = elim (Option-cases (lookup key store)) [
    | inl p ↦ (
      new_state t,
      ground (arith, p, lookup-insert_self key (new_state {A = A} t) store),
      ground (arith, p),
    )
    | inr (s, p) ↦ (s, ground (arith, p), ground (arith, p))
  ]

  pub invalidated-generation :
      (t : ℕ) (store : Store A)
      → generation_of parental_control store
        < generation_of parental_control (invalidate_rules t store)
  unfolding invalidate_rules
  invalidated-generation t store =
      let (s, p, q) = lookup-check_state t parental_control store in
      rw (lookup-on parental_control invalidate (check_state t parental_control store), p)
        (ground (arith, q))

  pub service_done-generation :
      (t : ℕ) (success : Bool) (arguments : List Text) (key : AsusData) (store : Store A)
      → generation_of key store ≤ generation_of key (service_done t success arguments store)
  unfolding service_done
  service_done-generation t success arguments key store =
      ground (arith, invalidate_rules-generation t key store)

  pub written-generation :
      (t : ℕ) (arguments : List Text) (store : Store A)
      → touches_rules arguments ≡ true
      → generation_of parental_control store
        < generation_of parental_control (service_done t true arguments store)
  unfolding service_done
  written-generation t arguments store h = rw h (invalidated-generation t store)

  module _ (is_true : A → Bool) (cache_time : ℕ) where
    pub begin-generation :
        (now : ℕ) (key other : AsusData) (force found : Bool) (store : Store A)
        → generation_of key store
          ≤ generation_of key (begin is_true cache_time now other force found store).1
    unfolding begin
    begin-generation now key other force found store = ground (
      arith,
      on-generation key other start store (λ s. ground arith),
      on-generation key other stop (on other start store) (λ s. ground arith),
    )

  module _ (imported : ℕ) (transform : AsusData → A → A) where
    save-generation :
        (now : ℕ) (gens : Generations) (key other : AsusData) (a : A) (store : Store A)
        → generation_of key store
          ≤ generation_of key (save imported transform now gens other a store)
    unfolding save update
    save-generation now gens key other a store = ground (
      arith,
      on-generation key other (update now (transform other a)) (check_state imported other store)
          (λ s. ground arith),
      check_state-generation imported key other store,
    )

    pub save_all-generation :
        (now : ℕ) (gens : Generations) (key : AsusData) (result : List (AsusData × A))
        (store : Store A)
        → generation_of key store
          ≤ generation_of key (save_all imported transform now gens result store)
    unfolding save_all
    save_all-generation now gens key [] store = ground arith
    save_all-generation now gens key ((k, a) ∷ result) store =
        let next = save imported transform now gens k a store in
        ground (
          arith,
          save-generation now gens key k a store,
          save_all-generation now gens key result next,
        )

    pub finish-generation :
        (now : ℕ) (key other : AsusData) (force : Bool) (gens : Generations)
        (result : Option (List (AsusData × A))) (store : Store A)
        → generation_of key store
          ≤ generation_of key (finish imported transform now other force gens result store).1
    unfolding finish
    finish-generation now key other force gens none store =
        on-generation key other stop store (λ s. ground arith)
    finish-generation now key other force gens (some result) store =
        let saved = save_all imported transform now gens result store in
        ground (
          arith,
          on-generation key other stop store (λ s. ground arith),
          on-generation key other stop saved (λ s. ground arith),
          save_all-generation now gens key result store,
        )
