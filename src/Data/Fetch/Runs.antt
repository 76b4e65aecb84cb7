-- ===== src/Data/Fetch/Runs.antt =====
-- asusrouter/asusrouter.py: what a fetch that was under way may not save when its data has been
-- invalidated, whatever calls of `async_get_data`, services and saves of states run in between.
use asusrouter.Data.Fetch.Generation.{
  service_done-generation, written-generation, map_option, recorded-generations, on-generation,
  check_state-generation, begin-generation, finish-generation, offset-generation,
  service_done-generation, written-generation,
}
use asusrouter.Data.Fetch.Stale.{finish-stale, finish-raised}
use asusrouter.Base.{
  ◌≢◌, ◌⊎◌, inl, inr, false, refl, ℕ, ◌≤◌, ◌<◌, ◌≡◌, Bool, true, Option, List, arith,
}
use asusrouter.Base.Text.{Text}
use asusrouter.Base.Int.{ℤ}
use asusrouter.Base.Dict.{lookup}
use asusrouter.Data.{
  AsusData-discrete, AsusData, DataState, data_key, parental_control, stop, offset_time,
}
use asusrouter.Data.Fetch.{
  service_done, touches_rules, Store, Generations, raised, recorded, generation_of, generations, on,
  check_state, begin, finish,
}

module _ {A : Type 0} where
  -- A write of the data alone.
  abbrev pub with_content : Option A → DataState A → DataState A
  with_content o s = record s { content = o }

  module _ (is_true : A → Bool) (cache_time : ℕ) (imported : ℕ) (transform : AsusData → A → A) where
    -- What may run while a fetch waits: other calls, up to their own requests and after them, services,
    -- and the writes of a saved state, which change the data or its time.
    pub data Step (store : Store A) : Store A → Type 0 where
      checks : (t : ℕ) (key : AsusData) → Step store (check_state t key store)
      begins :
          (now : ℕ) (key : AsusData) (force found : Bool)
          → Step store (begin is_true cache_time now key force found store).1
      finishes :
          (now : ℕ) (key : AsusData) (force : Bool) (gens : Generations)
          (result : Option (List (AsusData × A)))
          → Step store (finish imported transform now key force gens result store).1
      services :
          (t : ℕ) (success : Bool) (arguments : List Text)
          → Step store (service_done t success arguments store)
      offsets :
          (now : ℕ) (key : AsusData) (o : Option ℤ) → Step store (on key (offset_time now o) store)
      contents : (key : AsusData) (o : Option A) → Step store (on key (with_content o) store)

    pub data Run (store : Store A) : Store A → Type 0 where
      stay : Run store store
      then : {mid later : Store A} → Run store mid → Step mid later → Run store later

    Step-generation :
        (key : AsusData) {store later : Store A}
        → Step store later
        → generation_of key store ≤ generation_of key later
    Step-generation key (checks t other) = check_state-generation t key other _
    Step-generation key (begins now other force found) =
        begin-generation is_true cache_time now key other force found _
    Step-generation key (finishes now other force gens result) =
        finish-generation imported transform now key other force gens result _
    Step-generation key (services t success arguments) =
        service_done-generation t success arguments key _
    Step-generation key (offsets now other o) =
        on-generation key other (offset_time now o) _ (offset-generation now o)
    Step-generation key (contents other o) =
        on-generation key other (with_content o) _ (λ s. ground arith)

    -- No call ever lowers the generation of a state, in whatever order calls run.
    pub Run-generation :
        (key : AsusData) {store later : Store A}
        → Run store later
        → generation_of key store ≤ generation_of key later
    Run-generation key stay = ground arith
    Run-generation key (then run step) =
        ground (arith, Run-generation key run, Step-generation key step)

    raised_if_forced :
        (now : ℕ) (gens : Generations) (key : AsusData) (force : Bool)
        (result : Option (List (AsusData × A))) (store : Store A)
        → recorded parental_control gens < generation_of parental_control store
        → (key ≢ parental_control)
          ⊎ (force ≡ false)
          ⊎ ((finish imported transform now key force gens result store).0 ≡ raised)
    raised_if_forced now gens key false result store h = inr (inl refl)
    raised_if_forced now gens key true result store h =
        elim (AsusData-discrete key parental_control) [
          | yes p ↦ inr (
              inr
                (rw p (finish-raised imported transform now gens parental_control result store h)))
          | no n ↦ inl n
        ]

    -- A fetch that took its generations before a successful service that writes the rules cannot put
    -- the rules that it read into the cache, whatever calls of `async_get_data`, services and saves of
    -- states ran before and after the service, and whatever kind of data the fetch asked for: apart
    -- from its own end being marked, the state of the rules stays as it is, still invalidated if it
    -- was; and if the fetch was forced and asked for the rules, it raises.
    pub finish-invalidated :
        (store before after : Store A) (t now : ℕ) (arguments : List Text) (key : AsusData)
        (force : Bool) (result : Option (List (AsusData × A)))
        → Run store before
        → touches_rules arguments ≡ true
        → Run (service_done t true arguments before) after
        → let (answered, last) =
            finish imported transform now key force (generations store) result after in
          (map_option stop (lookup parental_control last)
            ≡ map_option stop (lookup parental_control after))
          × ((key ≢ parental_control) ⊎ (force ≡ false) ⊎ (answered ≡ raised))
    finish-invalidated store before after t now arguments key force result run touched later =
        let stale : recorded parental_control (generations store)
            < generation_of parental_control after =
          ground (
            arith,
            recorded-generations parental_control store,
            Run-generation parental_control run,
            written-generation t arguments before touched,
            Run-generation parental_control later,
          ) in
        (
          finish-stale imported transform now (generations store) parental_control key force result
              after stale,
          raised_if_forced now (generations store) key force result after stale,
        )
