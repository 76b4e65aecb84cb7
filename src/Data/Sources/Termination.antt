-- ===== src/Data/Sources/Termination.antt =====
-- `_where_to_get_data` of asusrouter/asusrouter.py: when its loop over aliases ends.
use asusrouter.Base.{
  ℕ, zero, suc, ◌<◌, ◌≡◌, ◌≢◌, refl, sym, ap, ◌∙◌, Option, none, some, [], ◌∷◌, Bool, true, false,
  not, ◌&&◌, arith, if◌then◌else◌,
}
use asusrouter.Base.Dict.{Dict, lookup, insert, lookup-insert_ne, lookup-insert_self}
use asusrouter.Endpoint.{Endpoint}
use asusrouter.Data.{AsusData, data_key, AsusData-discrete}
use asusrouter.Data.Sources.{
  Source, alias, finder, DataMap, default_map, Search, has_finder, no_finder, still_searching,
  followed, find, filter_found, where_to_get_data, add_conditional_data_alias,
}

-- Every alias goes down in a rank.
abbrev pub IsRanked : (AsusData → ℕ) → DataMap → Type 0
IsRanked rank m =
    (key origin : AsusData) → lookup key m ≡ some (alias origin) → rank origin < rank key

followed-ends :
    (rank : AsusData → ℕ) (fuel : ℕ) (key : AsusData) (m : DataMap) (o : Option Source)
    → ((origin : AsusData) → o ≡ some (alias origin) → find fuel origin m ≢ still_searching)
    → followed o (λ origin. find fuel origin m) ≢ still_searching
followed-ends rank fuel key m none h = λ e. absurd (ground (arith, e))
followed-ends rank fuel key m (some (finder f)) h = λ e. absurd (ground (arith, e))
followed-ends rank fuel key m (some (alias origin)) h = h origin refl

find-ends :
    (rank : AsusData → ℕ) (m : DataMap)
    → IsRanked rank m
    → (fuel : ℕ) (key : AsusData) → rank key < fuel
    → find fuel key m ≢ still_searching
unfolding find
find-ends rank m h zero key l = absurd (omega arith)
find-ends rank m h (suc fuel) key l =
    followed-ends rank fuel key m (lookup key m)
      λ origin e. (let d = h key origin e in find-ends rank m h fuel origin (omega arith))

filter_found-ends :
    (known : Dict Endpoint Bool) (s : Search)
    → s ≢ still_searching
    → filter_found known s ≢ still_searching
filter_found-ends known (has_finder f) h = λ e. absurd (ground (arith, e))
filter_found-ends known no_finder h = h
filter_found-ends known still_searching h = h

-- If every alias goes down in some rank, the search for a kind of data ends within one look more than
-- its rank, with or without an identity.
pub where_to_get_data-ends :
    (rank : AsusData → ℕ) (m : DataMap) (fuel : ℕ) (identity : Option (Dict Endpoint Bool))
    (key : AsusData)
    → IsRanked rank m
    → rank key < fuel
    → where_to_get_data fuel identity key m ≢ still_searching
unfolding where_to_get_data
where_to_get_data-ends rank m fuel none key h l = λ e. absurd (ground (arith, e))
where_to_get_data-ends rank m fuel (some known) key h l =
    filter_found-ends known (find fuel key m) (find-ends rank m h fuel key l)

-- An alias of a kind of data to itself, or two that lead to each other, are followed for ever.
abbrev pub IsCycle : AsusData → AsusData → DataMap → Type 0
IsCycle a b m = (lookup a m ≡ some (alias b)) × (lookup b m ≡ some (alias a))

find_forever :
    (a b : AsusData) (m : DataMap) → IsCycle a b m → (fuel : ℕ) → find fuel a m ≡ still_searching
unfolding find
find_forever a b m (h, k) zero = refl
find_forever a b m (h, k) (suc fuel) =
    ap (λ o. followed o (λ origin. find fuel origin m)) h ∙ find_forever b a m (k, h) fuel

add_conditional_data_alias-IsCycle :
    (a b : AsusData) (m : DataMap)
    → a ≢ b
    → IsCycle a b (add_conditional_data_alias b a (add_conditional_data_alias a b m))
unfolding add_conditional_data_alias
add_conditional_data_alias-IsCycle a b m h = (
  lookup-insert_ne b a (alias a) (insert a (alias b) m) (λ e. h (sym e))
      ∙ lookup-insert_self a (alias b) m,
  lookup-insert_self b (alias a) (insert a (alias b) m),
)

-- Whatever the map, once two different kinds of data are made aliases of each other, the search for the
-- first one never ends if there is an identity.
pub where_to_get_data-forever :
    (a b : AsusData) (m : DataMap) (known : Dict Endpoint Bool) (fuel : ℕ)
    → a ≢ b
    → where_to_get_data fuel
        (some known)
        a
        (add_conditional_data_alias b a (add_conditional_data_alias a b m))
      ≡ still_searching
unfolding where_to_get_data
where_to_get_data-forever a b m known fuel h =
    let n = add_conditional_data_alias b a (add_conditional_data_alias a b m) in
    ap (filter_found known) (find_forever a b n (add_conditional_data_alias-IsCycle a b m h) fuel)

-- Whether no alias of a map leads to another one.
abbrev pub is_alias : Option Source → Bool
is_alias (some (alias key)) = true
is_alias _ = false

abbrev pub is_flat_in : DataMap → DataMap → Bool
is_flat_in whole [] = true
is_flat_in whole ((key, finder f) ∷ m) = is_flat_in whole m
is_flat_in whole ((key, alias origin) ∷ m) =
    not (is_alias (lookup origin whole)) && is_flat_in whole m

abbrev pub rank_of : Option Source → ℕ
rank_of o = if is_alias o then 1 else 0

alias-flat :
    (whole m : DataMap) (key origin : AsusData)
    → is_flat_in whole m ≡ true
    → lookup key m ≡ some (alias origin)
    → is_alias (lookup origin whole) ≡ false
unfolding lookup
alias-flat whole [] key origin h e = absurd (ground (arith, e))
alias-flat whole ((k, finder f) ∷ m) key origin h e =
    ground (arith, e, h, alias-flat whole m key origin)
alias-flat whole ((k, alias o) ∷ m) key origin h e =
    ground (arith, e, h, alias-flat whole m key origin)

default_map-flat : is_flat_in default_map default_map ≡ true
unfolding lookup AsusData-discrete
default_map-flat = refl

rank_of-lt :
    (o p : Option Source) (origin : AsusData)
    → o ≡ some (alias origin)
    → is_alias p ≡ false
    → rank_of p < rank_of o
rank_of-lt o p origin h k = rw h (rw k (omega arith))

-- In the map of the code no alias leads to another one.
pub default_map-IsRanked : IsRanked (λ key. rank_of (lookup key default_map)) default_map
default_map-IsRanked key origin h =
    rank_of-lt (lookup key default_map) (lookup origin default_map) origin h
      (alias-flat default_map default_map key origin default_map-flat h)
