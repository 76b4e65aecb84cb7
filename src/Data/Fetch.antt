-- ===== src/Data/Fetch.antt =====
-- asusrouter/asusrouter.py: the cache of the states in `async_get_data`. A fetch is cut where it
-- waits for the router: what it does before, with the generations that it takes along, and what it
-- does with the merged result of its endpoints.
pub mod Generation
pub mod Stale
pub mod Runs
pub mod Cached
use asusrouter.Base.{
  any, ℕ, zero, ◌+◌, ◌*◌, Bool, true, false, not, ◌&&◌, ◌||◌, Option, none, some, List, [], ◌∷◌,
  map, ltb, ite, ◌==◌, if◌then◌else◌,
}
use asusrouter.Base.Text.{Text, codes, same_text}
use asusrouter.Base.Dict.{Dict, lookup, insert, contains, is_some}
use asusrouter.Data.{
  AsusData, DataState, data_key, parental_control, new_state, invalidate, start, stop, update,
}

-- `_state`
abbrev pub Store : Type 0 → Type 0
Store A = Dict AsusData (DataState A)

abbrev pub Generations : Type 0
Generations = Dict AsusData ℕ

-- How `async_get_data` ends: with the data of the state, with `{}`, or by raising. Of the data of
-- `PORTS`, `_return_state` may still select a device; this selection is not modelled.
pub data Answer (A : Type 0) : Type 0 where
  data_of : Option A → Answer A
  empty raised : Answer A

-- What a fetch does before it waits: it answers, or it goes on.
pub data Begun (A : Type 0) : Type 0 where
  answer : Answer A → Begun A
  fetch : Generations → Begun A

abbrev generation_from : Option ℕ → ℕ
generation_from none = 0
generation_from (some n) = n

-- `generations.get(key, 0)`
unfoldable pub recorded : AsusData → Generations → ℕ
recorded key gens = generation_from (lookup key gens)

-- `HOOK_PC`
abbrev pub hook_pc : List Text
hook_pc =
    codes "MULTIFILTER_BLOCK_ALL"
    ∷ codes "MULTIFILTER_MAC"
    ∷ codes "MULTIFILTER_DEVICENAME"
    ∷ codes "MULTIFILTER_ALL"
    ∷ codes "MULTIFILTER_MACFILTER_DAYTIME_V2"
    ∷ codes "MULTIFILTER_ENABLE"
    ∷ []

-- Whether the arguments of a service, by their keys, write the parental control.
abbrev pub touches_rules : List Text → Bool
touches_rules arguments = any (λ key. any (λ k. same_text k key) arguments) hook_pc

module _ {A : Type 0} where
  abbrev pub generation_in : Option (DataState A) → ℕ
  generation_in none = 0
  generation_in (some s) = s.generation

  -- The generation of a state, 0 if there is none.
  abbrev pub generation_of : AsusData → Store A → ℕ
  generation_of key store = generation_in (lookup key store)

  unfoldable pub generations : Store A → Generations
  generations [] = []
  generations ((key, s) ∷ store) = (key, s.generation) ∷ generations store

  abbrev pub data_in : Option (DataState A) → Option A
  data_in none = none
  data_in (some s) = s.content

  -- An operation on a state that is in the store.
  unfoldable pub on : AsusData → (DataState A → DataState A) → Store A → Store A
  on key f [] = []
  on key f ((k, s) ∷ store) = ite (data_key.same k key) ((k, f s) ∷ store) ((k, s) ∷ on key f store)

  -- `_check_state`, with the time that its new state gets.
  unfoldable pub check_state : ℕ → AsusData → Store A → Store A
  check_state expired key store =
      if contains key store then store else insert key (new_state expired) store

  -- The calls in the branch of `async_run_service_result`.
  unfoldable pub invalidate_rules : ℕ → Store A → Store A
  invalidate_rules expired store =
      on parental_control invalidate (check_state expired parental_control store)

  -- `async_run_service_result` after the service, which succeeded or did not.
  unfoldable pub service_done : ℕ → Bool → List Text → Store A → Store A
  unfolding invalidate_rules
  service_done expired success arguments store =
      if success && touches_rules arguments then invalidate_rules expired store else store

  -- The truth of Python on the data, and the time for which data is kept.
  module _ (is_true : A → Bool) (cache_time : ℕ) where
    abbrev has_data : Option A → Bool
    has_data none = false
    has_data (some a) = is_true a

    -- Whether the cached data is returned.
    unfoldable pub is_cached : ℕ → Bool → DataState A → Bool
    is_cached now force s =
        has_data s.content
        && not force
        && not s.invalidated
        && ltb now (s.timestamp + cache_time * 1000000)

    unfoldable pub cached_in : ℕ → Bool → Option (DataState A) → Bool
    cached_in now force none = false
    cached_in now force (some s) = is_cached now force s

    -- `async_get_data` from its check of the cache to its first request; the last but one argument is
    -- whether there is a data finder.
    unfoldable pub begin : ℕ → AsusData → Bool → Bool → Store A → Begun A × Store A
    unfolding cached_in
    begin now key force found store =
        if cached_in now force (lookup key store)
        then (answer (data_of (data_in (lookup key store))), store)
        else (let active = on key start store in
            if found
            then (fetch (generations active), active)
            else (answer empty, on key stop active))

  -- The time of the class's own default, which a state made while saving starts with.
  module _ (imported : ℕ) (transform : AsusData → A → A) where
    -- One key of the result.
    unfoldable pub save : ℕ → Generations → AsusData → A → Store A → Store A
    save now gens key a store =
        if contains key store && not (generation_of key store == recorded key gens)
        then store
        else on key (update now (transform key a)) (check_state imported key store)

    unfoldable pub save_all : ℕ → Generations → List (AsusData × A) → Store A → Store A
    save_all now gens [] store = store
    save_all now gens ((key, a) ∷ result) store =
        save_all now gens result (save now gens key a store)

    -- The `except` clause: raised again if forced, else the last known data.
    abbrev excepted : AsusData → Bool → Store A → Answer A × Store A
    excepted key force store =
        (if force then raised else data_of (data_in (lookup key store)), on key stop store)

    -- `async_get_data` after its last request; no result is an `AsusRouterConnectionError` or an
    -- `AsusRouterDataError` of a request.
    unfoldable pub finish :
        ℕ
        → AsusData
        → Bool
        → Generations
        → Option (List (AsusData × A))
        → Store A
        → Answer A × Store A
    finish now key force gens none store = excepted key force store
    finish now key force gens (some result) store =
        let saved = on key stop (save_all now gens result store) in
        if not (generation_of key store == recorded key gens)
          || (force && not (contains key result))
        then excepted key force store
        else (data_of (data_in (lookup key saved)), saved)
