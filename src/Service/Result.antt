-- ===== src/Service/Result.antt =====
-- asusrouter/modules/service.py: the wait that a service call reports.
use mathlib.Core.Path.{subst}
use asusrouter.Base.{ℕ, ◌≡◌, ◌⊎◌, refl, Bool, Bool-cases, inl, inr, Option, none, some, arith}
use asusrouter.Base.Int.{ℤ, pos, negsuc}
use asusrouter.Base.Text.{Text}
use asusrouter.Tools.Converters.{Value, null, bool, int, text, safe_int}
use asusrouter.Service.{
  ServiceResult, ServiceArguments, not_negative, or_five, safe_needed_time, needed_time_of,
  last_id_of, value_at, is_run, is_success, read_result, with_apply, commands, call_service,
}
use asusrouter.Base.Text.{codes}

-- No number, or one that is not negative.
abbrev pub IsDelay : Option ℤ → Type 0
IsDelay t = (t ≡ none) ⊎ ((n : ℕ) × (t ≡ some (pos n)))

not_negative-IsDelay : (t : Option ℤ) → IsDelay (not_negative t)
not_negative-IsDelay none = inl refl
not_negative-IsDelay (some (pos n)) = inr (n, refl)
not_negative-IsDelay (some (negsuc n)) = inl refl

-- A wait that is given with an identifier.
abbrev pub HasDelay : Option ℤ → Option ℤ → Type 0
HasDelay id t = ((id ≡ none) × (t ≡ none)) ⊎ ((n : ℕ) × (t ≡ some (pos n)))

or_five-HasDelay : (t id : Option ℤ) → IsDelay t → HasDelay id (or_five t id)
or_five-HasDelay (some t) id (inl h) = absurd (ground (arith, h))
or_five-HasDelay (some t) id (inr (n, h)) = inr (n, h)
or_five-HasDelay none none h = inl (refl, refl)
or_five-HasDelay none (some id) h = inr (5, refl)

module _ (float_int : Text → Option ℤ) where
  safe_needed_time-IsDelay : (v : Value) → IsDelay (safe_needed_time float_int v)
  unfolding safe_needed_time
  safe_needed_time-IsDelay (bool b) = inl refl
  safe_needed_time-IsDelay (int (negsuc n)) = inl refl
  safe_needed_time-IsDelay (int (pos n)) =
      not_negative-IsDelay (safe_int float_int (int (pos n)) none)
  safe_needed_time-IsDelay null = not_negative-IsDelay (safe_int float_int null none)
  safe_needed_time-IsDelay (text s) = not_negative-IsDelay (safe_int float_int (text s) none)

  read_result-HasDelay :
      (service : Option Text) (expect_modify : Bool) (sent answer : ServiceArguments)
      (r : ServiceResult)
      → read_result float_int service expect_modify sent answer ≡ some r
      → HasDelay r.last_id r.needed_time
  unfolding read_result needed_time_of
  read_result-HasDelay service expect_modify sent answer r h =
      elim (Bool-cases (is_run service answer)) [
        | inl e ↦
            let id = last_id_of float_int answer sent in
            let made : ServiceResult = record {
              success = is_success float_int expect_modify answer sent;
              needed_time = needed_time_of float_int answer id;
              last_id = id;
            } in
            let same : made ≡ r = ground (arith, e, h) in
            subst (λ (q : ServiceResult). HasDelay q.last_id q.needed_time) same
              (or_five-HasDelay
                (safe_needed_time float_int (value_at (codes "restart_needed_time") answer)) id
                (safe_needed_time-IsDelay (value_at (codes "restart_needed_time") answer)))
        | inr e ↦ absurd (ground (arith, e, h))
      ]

  -- A result of a service never has a negative wait, and with an identifier it has a wait.
  pub call_service-HasDelay :
      (callback : ServiceArguments → ServiceArguments) (service : Option Text)
      (arguments : ServiceArguments) (apply expect_modify : Bool) (r : ServiceResult)
      → call_service float_int callback service arguments apply expect_modify ≡ some r
      → HasDelay r.last_id r.needed_time
  unfolding call_service
  call_service-HasDelay callback service arguments apply expect_modify r h =
      read_result-HasDelay service expect_modify (with_apply apply arguments)
        (callback (commands service apply arguments)) r h
