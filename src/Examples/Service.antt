-- ===== src/Examples/Service.antt =====
-- A service call of asusrouter/modules/service.py at a concrete router.
use asusrouter.Base.{ℕ_discrete, ◌≡◌, refl, true, Option, none, some, [], ◌∷◌}
use asusrouter.Base.Int.{ℤ, pos}
use asusrouter.Base.Dict.{IsDict, lookup}
use asusrouter.Base.Text.{Text, codes, Text-discrete, text_key}
use asusrouter.Tools.Converters.{text}
use asusrouter.Service.{ServiceResult, ServiceArguments, call_service}
use asusrouter.Service.Result.{HasDelay, call_service-HasDelay}

abbrev no_floats : Text → Option ℤ
no_floats s = none

-- A client of a VPN that is switched.
abbrev arguments : ServiceArguments
arguments = (codes "id", text (codes "3")) ∷ []

arguments-IsDict : IsDict arguments
unfolding lookup
arguments-IsDict = (refl, tt)

abbrev answering : ServiceArguments → ServiceArguments
answering sent =
    (codes "run_service", text (codes "restart_vpn"))
    ∷ (codes "modify", text (codes "1"))
    ∷ (codes "restart_needed_time", text (codes "-2"))
    ∷ []

abbrev switched : ServiceResult
switched = record { success = true; needed_time = some (pos 5); last_id = some (pos 3) }

switch_result :
    call_service no_floats answering (some (codes "restart_vpn")) arguments true true
    ≡ some switched
unfolding call_service Text-discrete ℕ_discrete
switch_result = refl

call_service-HasDelay_example : HasDelay switched.last_id switched.needed_time
call_service-HasDelay_example =
    call_service-HasDelay no_floats answering (some (codes "restart_vpn")) arguments true true
      switched switch_result
