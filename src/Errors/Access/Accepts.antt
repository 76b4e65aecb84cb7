-- ===== src/Errors/Access/Accepts.antt =====
-- asusrouter/modules/endpoint/error.py: which status of a response is no error.
use asusrouter.Base.{◌≡◌, ◌↔◌, refl, Option, none, some, arith}
use asusrouter.Base.Int.{ℤ, pos, negsuc}
use asusrouter.Base.Text.{Text}
use asusrouter.Tools.Converters.{safe_int}
use asusrouter.Errors.{AccessError, success, try_again, logout_code, ok}
use asusrouter.Errors.Access.{
  Message, small_code, access_error, raise_access, by_code, is_format_error, by_status, status_of,
  handle_access_error,
}

access_error-success : (z : ℤ) → access_error z ≡ success → z ≡ pos 200
unfolding access_error small_code
access_error-success (pos n) h = ground arith
access_error-success (negsuc n) h = absurd (ground arith)

by_code-ok : (e : AccessError) (m : Message) → by_code e m ≡ ok tt → e ≡ success
unfolding by_code raise_access
by_code-ok success m h = refl
by_code-ok logout_code m h = absurd (ground arith)
by_code-ok try_again m h = absurd (ground arith)
by_code-ok _ m h = absurd (ground arith)

by_status-ok : (z : ℤ) (m : Message) → by_status z m ≡ ok tt → z ≡ pos 200
unfolding by_status
by_status-ok z m h = ground (arith, by_code-ok (access_error z) m, access_error-success z)

by_status-accepted : (m : Message) → by_status (pos 200) m ≡ ok tt
unfolding by_status access_error small_code by_code is_format_error
by_status-accepted m = refl

status_of-ok : (o : Option ℤ) → status_of o ≡ pos 200 → o ≡ some (pos 200)
unfolding status_of
status_of-ok none h = absurd (ground arith)
status_of-ok (some z) h = ground arith

-- A reported status is accepted exactly if it reads as 200; every other one raises.
pub handle_access_error_exact :
    (float_int : Text → Option ℤ) (m : Message)
    → (handle_access_error float_int m ≡ ok tt)
      ↔ (safe_int float_int m.error_status (some (negsuc 998)) ≡ some (pos 200))
unfolding handle_access_error
handle_access_error_exact float_int m =
    let o = safe_int float_int m.error_status (some (negsuc 998)) in
    (
      λ h. status_of-ok o (by_status-ok (status_of o) m h),
      λ h. rw h (unfold status_of in by_status-accepted m),
    )
