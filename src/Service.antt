-- ===== src/Service.antt =====
-- asusrouter/modules/service.py: the call of a service. The values of the answer are texts, integers,
-- Booleans or `None`.
pub mod Sent
pub mod Result
use asusrouter.Base.{
  ℕ, zero, suc, Bool, true, false, not, ◌||◌, ◌&&◌, Option, none, some, List, [], ◌∷◌, ◌==◌,
  if◌then◌else◌,
}
use asusrouter.Base.Int.{ℤ, pos, negsuc}
use asusrouter.Base.Dict.{Dict, lookup, insert}
use asusrouter.Base.Text.{Text, codes, same_text, text_key}
use asusrouter.Tools.Converters.{Value, null, bool, int, text, safe_bool, safe_int}

-- `ServiceResult`
pub record ServiceResult : Type 0 where
  pub success : Bool
  pub needed_time : Option ℤ
  pub last_id : Option ℤ

abbrev pub ServiceArguments : Type 0
ServiceArguments = Dict Text Value

-- `d.update(e)`
unfoldable pub update_dict : ServiceArguments → ServiceArguments → ServiceArguments
unfolding insert
update_dict d [] = d
update_dict d ((k, v) ∷ e) = update_dict (insert k v d) e

abbrev pub service_commands : Option Text → ServiceArguments
service_commands none = []
service_commands (some s) = (codes "rc_service", text s) ∷ []

-- The arguments with the apply command.
unfoldable pub with_apply : Bool → ServiceArguments → ServiceArguments
unfolding insert
with_apply true arguments = insert (codes "action_mode") (text (codes "apply")) arguments
with_apply false arguments = arguments

-- What is sent.
unfoldable pub commands : Option Text → Bool → ServiceArguments → ServiceArguments
unfolding update_dict with_apply
commands service apply arguments =
    update_dict (service_commands service) (with_apply apply arguments)

-- `d.get(k)`
abbrev pub or_none : Option Value → Value
or_none none = null
or_none (some v) = v

unfoldable pub value_at : Text → ServiceArguments → Value
unfolding lookup
value_at k d = or_none (lookup k d)

abbrev pub matches_text : Text → Value → Bool
matches_text s (text t) = same_text t s
matches_text s _ = false

-- The check that the service was run.
unfoldable pub is_run : Option Text → ServiceArguments → Bool
unfolding value_at
is_run none answer = true
is_run (some s) answer = matches_text s (value_at (codes "run_service") answer)

-- `a or b`
abbrev pub or_value : Value → Value → Value
or_value null w = w
or_value (bool b) w = if b then bool b else w
or_value (int (pos zero)) w = w
or_value (int (pos (suc n))) w = int (pos (suc n))
or_value (int (negsuc n)) w = int (negsuc n)
or_value (text []) w = w
or_value (text (c ∷ s)) w = text (c ∷ s)

abbrev pub not_negative : Option ℤ → Option ℤ
not_negative (some (pos n)) = some (pos n)
not_negative _ = none

-- The wait for a setting with an identifier.
abbrev pub or_five : Option ℤ → Option ℤ → Option ℤ
or_five (some t) last_id = some t
or_five none none = none
or_five none (some id) = some (pos 5)

-- `safe_bool(...) or False`
abbrev pub is_yes : Option Bool → Bool
is_yes (some b) = b
is_yes none = false

module _ (float_int : Text → Option ℤ) where
  -- `_safe_needed_time`
  unfoldable pub safe_needed_time : Value → Option ℤ
  unfolding safe_int
  safe_needed_time (bool b) = none
  safe_needed_time (int (negsuc n)) = none
  safe_needed_time v = not_negative (safe_int float_int v none)

  unfoldable pub last_id_of : ServiceArguments → ServiceArguments → Option ℤ
  unfolding value_at safe_int
  last_id_of answer sent =
      safe_int float_int (or_value (value_at (codes "id") answer) (value_at (codes "id") sent)) none

  unfoldable pub needed_time_of : ServiceArguments → Option ℤ → Option ℤ
  unfolding value_at safe_needed_time
  needed_time_of answer last_id =
      or_five (safe_needed_time (value_at (codes "restart_needed_time") answer)) last_id

  unfoldable pub is_success : Bool → ServiceArguments → ServiceArguments → Bool
  unfolding value_at safe_bool
  is_success expect_modify answer sent =
      if matches_text (codes "update_client_list") (value_at (codes "action_mode") sent)
      then true
      else if expect_modify
      then is_yes (safe_bool (value_at (codes "modify") answer))
      else true

  -- The part after the answer; `none` is `AsusRouterServiceError`.
  unfoldable pub read_result :
      Option Text → Bool → ServiceArguments → ServiceArguments → Option ServiceResult
  unfolding is_run last_id_of needed_time_of is_success
  read_result service expect_modify sent answer =
      if is_run service answer
      then some (record {
        success = is_success expect_modify answer sent;
        needed_time = needed_time_of answer (last_id_of answer sent);
        last_id = last_id_of answer sent;
      })
      else none

  -- `async_call_service`, where the callback answers what is sent.
  unfoldable pub call_service :
      (ServiceArguments → ServiceArguments)
      → Option Text
      → ServiceArguments
      → Bool
      → Bool
      → Option ServiceResult
  unfolding commands read_result
  call_service callback service arguments apply expect_modify =
      read_result service expect_modify (with_apply apply arguments)
        (callback (commands service apply arguments))
