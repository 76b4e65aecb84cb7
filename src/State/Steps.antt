-- ===== src/State/Steps.antt =====
-- asusrouter/modules/state.py: saving a state is one of the writes that may run while data is fetched.
use mathlib.Core.Path.{subst}
use mathlib.Core.Option.{map as map_option}
use asusrouter.Base.{ℕ, ◌≡◌, refl, sym, ap, ◌∙◌, Bool, Option, none, some, [], ◌∷◌, arith}
use asusrouter.Base.Int.{ℤ}
use asusrouter.Base.Dict.{lookup, insert}
use asusrouter.Tools.Converters.{Value}
use asusrouter.Data.{AsusData, DataState, data_key, offset_time}
use asusrouter.Data.Fetch.{Store, on}
use asusrouter.Data.Fetch.Runs.{Run, stay, then, contents, offsets, with_content}
use asusrouter.State.{
  AsusState, StateMap, DataContent, get_datatype, saved_in, put_back, save_in, save_state,
}

insert-on :
    (key : AsusData) (f : DataState DataContent → DataState DataContent) (store : Store DataContent)
    (s : DataState DataContent)
    → lookup key store ≡ some s
    → insert key (f s) store ≡ on key f store
unfolding lookup insert on
insert-on key f [] s h = absurd (ground (arith, h))
insert-on key f ((k, r) ∷ store) s h = ground (arith, h, insert-on key f store s)

on-on :
    (key : AsusData) (f g : DataState DataContent → DataState DataContent)
    (store : Store DataContent)
    → on key g (on key f store) ≡ on key (λ s. g (f s)) store
unfolding on
on-on key f g [] = refl
on-on key f g ((k, s) ∷ store) = ground (arith, on-on key f g store)

map_inv :
    {A B : Type 0} (f : A → B) (o : Option A) (b : B)
    → map_option f o ≡ some b
    → (a : A) × (b ≡ f a)
map_inv f none b h = absurd (ground (arith, h))
map_inv f (some a) b h = (a, cc)

put_back_inv :
    (key : AsusData) (store : Store DataContent) (o : Option (DataState DataContent))
    (new : Store DataContent)
    → put_back key store o ≡ some new
    → (t : DataState DataContent) × (o ≡ some t) × (insert key t store ≡ new)
put_back_inv key store none new h = absurd (ground (arith, h))
put_back_inv key store (some t) new h = (t, refl, cc)

module _ (is_true : DataContent → Bool) (cache_time imported : ℕ)
    (transform : AsusData → DataContent → DataContent) where
  written-Run :
      (now : ℕ) (needed : Option ℤ) (key : AsusData) (c : DataContent) (store : Store DataContent)
      (s : DataState DataContent)
      → lookup key store ≡ some s
      → Run is_true cache_time imported transform store
          (insert key (offset_time now needed (with_content (some c) s)) store)
  written-Run now needed key c store s h =
      let write = with_content (some c) in
      let after = on key write store in
      let same =
        on-on key write (offset_time now needed) store
        ∙ sym (insert-on key (λ r. offset_time now needed (write r)) store s h) in
      subst (Run is_true cache_time imported transform store) same
        (then (then stay (contents key (some c))) (offsets now key needed))

  saved_in_inv :
      (now : ℕ) (state : AsusState) (v : Value) (needed last_id : Option ℤ)
      (s t : DataState DataContent)
      → saved_in now state v needed last_id s ≡ some t
      → (c : DataContent) × (t ≡ offset_time now needed (with_content (some c) s))
  unfolding saved_in
  saved_in_inv now state v needed last_id s t h = map_inv _ _ t h

  save_in-Run :
      (now : ℕ) (state : AsusState) (v : Value) (needed last_id : Option ℤ) (key : AsusData)
      (store new : Store DataContent) (o : Option (DataState DataContent))
      → lookup key store ≡ o
      → save_in (saved_in now state v needed last_id) key store o ≡ some new
      → Run is_true cache_time imported transform store new
  save_in-Run now state v needed last_id key store new none h e =
      let same : store ≡ new = cc in
      subst (Run is_true cache_time imported transform store) same stay
  save_in-Run now state v needed last_id key store new (some s) h e =
      let (t, e1, e2) = put_back_inv key store (saved_in now state v needed last_id s) new e in
      let (c, e3) = saved_in_inv now state v needed last_id s t e1 in
      subst (Run is_true cache_time imported transform store)
        (ap (λ r. insert key r store) (sym e3) ∙ e2) (written-Run now needed key c store s h)

  -- Whatever the state, its value and its id, saving it only does what `Run` allows.
  save_state-Run :
      (now : ℕ) (state : AsusState) (v : Value) (store new : Store DataContent)
      (needed last_id : Option ℤ) (m : StateMap)
      → save_state now state v store needed last_id m ≡ some new
      → Run is_true cache_time imported transform store new
  unfolding save_state
  save_state-Run now state v store new needed last_id m =
      elim (get_datatype state m)
        as (λ o.
          elim o [
            | none ↦ some store
            | some key ↦ save_in (saved_in now state v needed last_id) key store (lookup key store)
          ]
            ≡ some new
          → Run is_true cache_time imported transform store new) [
            | none ↦ λ e.
                let same : store ≡ new = cc in
                subst (Run is_true cache_time imported transform store) same stay
            | some key ↦
                λ e. save_in-Run now state v needed last_id key store new (lookup key store) refl e
          ]
