-- ===== src/Service/Sent.antt =====
-- asusrouter/modules/service.py: the commands that are sent.
use asusrouter.Base.{
  ◌≡◌, refl, ap, ◌∙◌, Bool, true, false, Option, none, some, [], ◌∷◌, arith, ite, if◌then◌else◌,
}
use asusrouter.Base.Dict.{IsDict, lookup, insert, lookup-insert, insert-IsDict}
use asusrouter.Base.Text.{Text, codes, text_key}
use asusrouter.Tools.Converters.{Value, text}
use asusrouter.Service.{ServiceArguments, update_dict, service_commands, with_apply, commands}

-- The first of two values that is there.
abbrev pub over : Option Value → Option Value → Option Value
over (some v) w = some v
over none w = w

lookup-update_dict :
    (k : Text) (d e : ServiceArguments)
    → IsDict e
    → lookup k (update_dict d e) ≡ over (lookup k e) (lookup k d)
unfolding update_dict lookup
lookup-update_dict k d [] h = refl
lookup-update_dict k d ((j, v) ∷ e) (fresh, h) =
    lookup-update_dict k (insert j v d) e h ∙ ground (arith, fresh, lookup-insert j k v d)

-- Each key of what is sent, if the arguments have no key twice: the arguments come before the name of
-- the service, and `apply` before both.
pub lookup-commands :
    (k : Text) (service : Option Text) (apply : Bool) (arguments : ServiceArguments)
    → IsDict arguments
    → lookup k (commands service apply arguments)
      ≡ over
          (if apply
            then ite
                (text_key.same (codes "action_mode") k)
                (some (text (codes "apply")))
                (lookup k arguments)
            else lookup k arguments)
          (lookup k (service_commands service))
unfolding commands with_apply
lookup-commands k service true arguments h =
    lookup-update_dict k (service_commands service) (with_apply true arguments)
      (insert-IsDict (codes "action_mode") (text (codes "apply")) arguments h)
    ∙ ap (λ v. over v (lookup k (service_commands service)))
        (lookup-insert (codes "action_mode") k (text (codes "apply")) arguments)
lookup-commands k service false arguments h =
    lookup-update_dict k (service_commands service) arguments h
