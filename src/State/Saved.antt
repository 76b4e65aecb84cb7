-- ===== src/State/Saved.antt =====
-- asusrouter/modules/state.py: what is changed by saving a state.
use asusrouter.Base.{ℕ, ◌≡◌, ◌≢◌, refl, ap, ◌∙◌, true, Option, none, some, ite, arith}
use asusrouter.Base.Int.{ℤ}
use asusrouter.Base.Dict.{lookup, insert, lookup-insert, lookup-insert_self, lookup-insert_ne}
use asusrouter.Tools.Converters.{Value, bool}
use asusrouter.Data.{AsusData, DataState, data_key, offset_time}
use asusrouter.Data.Fetch.{Store}
use asusrouter.State.{
  AsusState, StateMap, Name, word, name_key, plain, DataContent, dict_of, dict_in, convert_state,
  key_of, update_state, get_datatype, saved_in, put_back, save_in, save_state,
}

-- What saving a state without an id does to the data that it belongs to: its own key gets the state, all
-- others are as before, and data that a write has made stale stays so, with its time.
pub record IsSaved (state : AsusState) (v : Value) (s t : DataState DataContent) : Type 0 where
  pub keys :
      (n : Name)
      → lookup n (dict_in t.content)
        ≡ ite
            (name_key.same (word (key_of state)) n)
            (some (plain (bool (convert_state v))))
            (lookup n (dict_in s.content))
  pub same_generation : t.generation ≡ s.generation
  pub same_invalidated : t.invalidated ≡ s.invalidated
  pub same_time : s.invalidated ≡ true → t.timestamp ≡ s.timestamp

saved_content : AsusState → Value → DataState DataContent → DataState DataContent
saved_content state v s = record s {
  content =
      some (
        dict_of
          (insert (word (key_of state)) (plain (bool (convert_state v))) (dict_in s.content)));
}

offset_time-content :
    (now : ℕ) (o : Option ℤ) (s : DataState DataContent) → (offset_time now o s).content ≡ s.content
unfolding offset_time
offset_time-content now o s = ground arith

offset_time-generation :
    (now : ℕ) (o : Option ℤ) (s : DataState DataContent)
    → (offset_time now o s).generation ≡ s.generation
unfolding offset_time
offset_time-generation now o s = ground arith

offset_time-invalidated :
    (now : ℕ) (o : Option ℤ) (s : DataState DataContent)
    → (offset_time now o s).invalidated ≡ s.invalidated
unfolding offset_time
offset_time-invalidated now o s = ground arith

offset_time-timestamp :
    (now : ℕ) (o : Option ℤ) (s : DataState DataContent)
    → s.invalidated ≡ true
    → (offset_time now o s).timestamp ≡ s.timestamp
unfolding offset_time
offset_time-timestamp now o s h = rw h refl

saved_in-IsSaved :
    (now : ℕ) (state : AsusState) (v : Value) (needed : Option ℤ) (s : DataState DataContent)
    → (t : DataState DataContent) × (saved_in now state v needed none s ≡ some t)
      × IsSaved state v s t
unfolding saved_in update_state saved_content
saved_in-IsSaved now state v needed s =
    let c = saved_content state v s in
    (
      offset_time now needed c,
      refl,
      record {
        keys = λ n.
            ap (λ o. lookup n (dict_in o)) (offset_time-content now needed c)
            ∙ lookup-insert (word (key_of state)) n (plain (bool (convert_state v)))
                (dict_in s.content);
        same_generation = offset_time-generation now needed c;
        same_invalidated = offset_time-invalidated now needed c;
        same_time = λ h. offset_time-timestamp now needed c h;
      },
    )

pub save_state-IsSaved :
    (now : ℕ) (state : AsusState) (v : Value) (store : Store DataContent) (needed : Option ℤ)
    (m : StateMap) (key : AsusData) (s : DataState DataContent)
    → get_datatype state m ≡ some key
    → lookup key store ≡ some s
    → (new : Store DataContent) × (t : DataState DataContent) × (save_state now state v store needed
          none m
        ≡ some new)
      × (lookup key new ≡ some t)
      × IsSaved state v s t
      × ((k : AsusData) → key ≢ k → lookup k new ≡ lookup k store)
unfolding save_state
save_state-IsSaved now state v store needed m key s h k =
    let (t, e, w) = saved_in-IsSaved now state v needed s in
    let f = saved_in now state v needed none in
    (
      insert key t store,
      t,
      ap (λ o. elim o [ none ↦ some store | some key ↦ save_in f key store (lookup key store) ]) h
          ∙ ap (save_in f key store) k
          ∙ ap (put_back key store) e,
      lookup-insert_self key t store,
      w,
      λ j n. lookup-insert_ne key j t store n,
    )
