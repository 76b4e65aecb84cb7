-- ===== src/Data/Fetch/Stale.antt =====
-- asusrouter/asusrouter.py: a fetch with an outdated generation of a kind of data does not save it.
use asusrouter.Data.Fetch.Generation.{map_option, lookup-on_ne}
use asusrouter.Base.{
  ℕ, ◌<◌, ◌≡◌, inl, inr, refl, ◌∙◌, Bool, true, Option, none, some, Option-cases, List, [], ◌∷◌,
  arith,
}
use asusrouter.Base.Dict.{lookup, lookup-insert_ne}
use asusrouter.Data.{AsusData, data_key, new_state, stop, update}
use asusrouter.Data.Fetch.{
  Store, Generations, raised, recorded, generation_of, on, check_state, save, save_all, finish,
}

module _ {A : Type 0} where
  lookup-stop :
      (key other : AsusData) (store : Store A)
      → map_option stop (lookup key (on other stop store)) ≡ map_option stop (lookup key store)
  unfolding lookup on
  lookup-stop key other [] = refl
  lookup-stop key other ((k, s) ∷ store) = ground (arith, lookup-stop key other store)

  module _ (imported : ℕ) (transform : AsusData → A → A) where
    save-refused :
        (now : ℕ) (gens : Generations) (key : AsusData) (a : A) (store : Store A)
        → recorded key gens < generation_of key store
        → save imported transform now gens key a store ≡ store
    unfolding save
    save-refused now gens key a store h = elim (Option-cases (lookup key store)) [
      | inl p ↦ absurd (ground (arith, p))
      | inr (s, p) ↦ ground (arith, p, h)
    ]

    save-stale :
        (now : ℕ) (gens : Generations) (key other : AsusData) (a : A) (store : Store A)
        → recorded key gens < generation_of key store
        → lookup key (save imported transform now gens other a store) ≡ lookup key store
    unfolding save check_state
    save-stale now gens key other a store h = elim (data_key.same other key) [
      | yes p ↦ ground (arith, p, h, save-refused now gens key a store h)
      | no n ↦ ground (
        arith,
        lookup-on_ne other key (update now (transform other a)) (check_state imported other store)
            n,
        lookup-insert_ne other key (new_state imported) store n,
      )
    ]

    save_all-stale :
        (now : ℕ) (gens : Generations) (key : AsusData) (result : List (AsusData × A))
        (store : Store A)
        → recorded key gens < generation_of key store
        → lookup key (save_all imported transform now gens result store) ≡ lookup key store
    unfolding save_all
    save_all-stale now gens key [] store h = refl
    save_all-stale now gens key ((k, a) ∷ result) store h =
        let next = save imported transform now gens k a store in
        let kept = save-stale now gens key k a store h in
        save_all-stale now gens key result next (ground (arith, kept)) ∙ kept

    pub finish-stale :
        (now : ℕ) (gens : Generations) (key other : AsusData) (force : Bool)
        (result : Option (List (AsusData × A))) (store : Store A)
        → recorded key gens < generation_of key store
        → map_option stop
            (lookup key (finish imported transform now other force gens result store).1)
          ≡ map_option stop (lookup key store)
    unfolding finish
    finish-stale now gens key other force none store h = lookup-stop key other store
    finish-stale now gens key other force (some result) store h =
        let saved = save_all imported transform now gens result store in
        ground (
          arith,
          lookup-stop key other store,
          lookup-stop key other saved,
          save_all-stale now gens key result store h,
        )

    pub finish-raised :
        (now : ℕ) (gens : Generations) (key : AsusData) (result : Option (List (AsusData × A)))
        (store : Store A)
        → recorded key gens < generation_of key store
        → (finish imported transform now key true gens result store).0 ≡ raised
    unfolding finish
    finish-raised now gens key none store h = refl
    finish-raised now gens key (some result) store h = ground (arith, h)
