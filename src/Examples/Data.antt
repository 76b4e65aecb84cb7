-- ===== src/Examples/Data.antt =====
-- The cached states of asusrouter.py at a concrete store.
use asusrouter.Base.{refl, List, ℕ, ◌≡◌, ◌≢◌, ◌⊎◌, Bool, true, false, some, [], ◌∷◌}
use asusrouter.Base.Text.{Text, codes}
use asusrouter.Base.Dict.{lookup}
use asusrouter.Data.{AsusData-discrete, AsusData, parental_control, data_key, new_state, stop}
use asusrouter.Data.Fetch.{
  answer, data_of, is_cached, cached_in, Store, generations, service_done, begin, finish, raised,
}
use asusrouter.Data.Fetch.Generation.{map_option}
use asusrouter.Data.Fetch.Runs.{Run, stay, then, begins, finish-invalidated}

-- The data is a number, true in Python if it is not 0.
abbrev is_true : ℕ → Bool
is_true n = true

abbrev unchanged : AsusData → ℕ → ℕ
unchanged key n = n

abbrev cached : Store ℕ
cached = (parental_control, new_state 0) ∷ []

-- The store after a forced fetch has begun.
abbrev begun : Store ℕ
begun = (begin is_true 5 100 parental_control true true cached).1

abbrev rule_arguments : List Text
rule_arguments = codes "MULTIFILTER_ALL" ∷ []

-- One more forced fetch begins after the write.
abbrev written : Store ℕ
written =
    (begin is_true 5 200 parental_control true true (service_done 50 true rule_arguments begun)).1

begun-Run : Run is_true 5 0 unchanged cached begun
begun-Run = then stay (begins 100 parental_control true true)

written-Run : Run is_true 5 0 unchanged (service_done 50 true rule_arguments begun) written
written-Run = then stay (begins 200 parental_control true true)

finish-invalidated_example :
    let (answered, last) =
      finish 0 unchanged 300 parental_control true
        (generations cached)
        (some ((parental_control, 7) ∷ []))
        written in
    (map_option stop (lookup parental_control last)
      ≡ map_option stop (lookup parental_control written))
    × ((parental_control ≢ parental_control) ⊎ (true ≡ false) ⊎ (answered ≡ raised))
finish-invalidated_example =
    finish-invalidated is_true 5 0 unchanged cached begun written 50 300 rule_arguments
      parental_control true (some ((parental_control, 7) ∷ [])) begun-Run refl written-Run

-- A state that was filled three seconds ago.
abbrev filled : Store ℕ
filled = (parental_control, record (new_state 1000000) { content = some 7 }) ∷ []

filled_cached :
    (begin is_true 5 4000000 parental_control false true filled).0 ≡ answer (data_of (some 7))
unfolding begin cached_in is_cached lookup AsusData-discrete
filled_cached = refl
