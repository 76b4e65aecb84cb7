-- ===== src/State/Stale.antt =====
-- asusrouter/asusrouter.py: data that a write has made stale, after another state of it is saved.
use asusrouter.Base.{ℕ, ◌≡◌, refl, ap, ◌∙◌, Bool, true, false, Option, none, some, arith}
use asusrouter.Base.Int.{ℤ}
use asusrouter.Base.Dict.{lookup}
use asusrouter.Tools.Converters.{Value}
use asusrouter.Data.{AsusData, DataState, data_key}
use asusrouter.Data.Fetch.{Store, check_state, is_cached, cached_in}
use asusrouter.State.{AsusState, StateMap, DataContent, get_datatype, save_state}
use asusrouter.State.Saved.{save_state-IsSaved}
use asusrouter.State.Ended.{Pending, saved, keeping_of, check_for, without_pending, keep, set_done}

check_state_known :
    (expired : ℕ) (key : AsusData) (store : Store DataContent) (s : DataState DataContent)
    → lookup key store ≡ some s
    → check_state expired key store ≡ store
unfolding check_state
check_state_known expired key store s h = rw h refl

stale_not_cached :
    (is_true : DataContent → Bool) (cache_time now : ℕ) (force : Bool)
    (o : Option (DataState DataContent)) (s : DataState DataContent)
    → o ≡ some s
    → s.invalidated ≡ true
    → cached_in is_true cache_time now force o ≡ false
unfolding cached_in is_cached
stale_not_cached is_true cache_time now force o s h k = rw h (ground (arith, k))

-- If a state without an id has been set with success, its data is known and stale, and the state is one
-- that is saved, then saving it does not fail and leaves nothing pending, and the next call for this
-- data does not answer from the cache, whenever it comes.
pub set_done-stale :
    (expired now : ℕ) (refresh : Store DataContent → Store DataContent) (state : AsusState)
    (v : Value) (m : StateMap) (store : Store DataContent) (needed : Option ℤ) (key : AsusData)
    (s : DataState DataContent)
    → get_datatype state m ≡ some key
    → keeping_of state (some key) ≡ saved
    → lookup key store ≡ some s
    → s.invalidated ≡ true
    → (new : Store DataContent) × (set_done expired now refresh true state v m store
          (record { needed_time = needed; last_id = none })
        ≡ some (new, record { needed_time = none; last_id = none }))
      × ((is_true : DataContent → Bool) (cache_time later : ℕ) (force : Bool)
          → cached_in is_true cache_time later force (lookup key new) ≡ false)
unfolding set_done
set_done-stale expired now refresh state v m store needed key s h k l i =
    let (new, t, e, at, w, _) = save_state-IsSaved now state v store needed m key s h l in
    let p : Pending = record { needed_time = needed; last_id = none } in
    let known : check_for expired (get_datatype state m) store ≡ store =
      ap (λ o. check_for expired o store) h ∙ check_state_known expired key store s l in
    (
      new,
      ap (λ o. keep expired now refresh (keeping_of state o) state v m store p) h
          ∙ ap (λ g. keep expired now refresh g state v m store p) k
          ∙ ap (λ st. without_pending (save_state now state v st needed none m)) known
          ∙ ap without_pending e,
      λ is_true cache_time later force.
          stale_not_cached is_true cache_time later force (lookup key new) t at
            (w.same_invalidated ∙ i),
    )
