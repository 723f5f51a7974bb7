-- ===== src/Tests/Logins.antt =====
-- The login lock of app/services/login_attempt.py with three failures and a lock of ten minutes.
use sync_nesto_backend.Base.{
  ℕ, ◌+◌, ◌≡◌, refl, true, false, ◌&&◌, List, [], ◌∷◌, arith, leb, ltb, map, if◌then◌else◌, All,
  length,
}
use sync_nesto_backend.Base.Text.{Text, is_space, strip_left, strip, codes}
use sync_nesto_backend.Errors.{ok}
use sync_nesto_backend.Database.{request}
use sync_nesto_backend.Auth.LoginAttempt.{
  LoginSettings, minutes, is_locked, record_failure, reset, normalize_email,
}
use sync_nesto_backend.Auth.LoginAttempt.Lock.{fail_all, lockout}
use sync_nesto_backend.Auth.LoginAttempt.Invariant.{
  LoginEvent, check, failure, success, handle_all, IsConsistent, Foreign, IsConsistent-handle_all,
  is_locked-handle_all, is_locked-reset,
}
use sync_nesto_backend.Auth.LoginAttempt.Refines.{
  is_locked_at, status, specified_all, handle_all-refines,
}

-- `str.lower` on ASCII
abbrev lower : Text → Text
lower text = map (λ c. if leb 65 c && leb c 90 then c + 32 else c) text

abbrev settings : LoginSettings
settings = record { login_max_failed_attempts = 3; login_lock_minutes = 10 }

abbrev alice : Text
alice = codes " Alice@x.jp"

abbrev bob : Text
bob = codes "bob@x.jp"

locked_after_three :
    (request
      (is_locked lower settings alice 9)
      (request
        (record_failure lower settings alice 3)
        (fail_all lower settings alice (1 ∷ 2 ∷ []) [])).1).0
    ≡ ok true
unfolding is_locked record_failure strip strip_left is_space
locked_after_three = refl

abbrev times : List ℕ
times = 1 ∷ 2 ∷ []

lockout_example :
    (request
      (is_locked lower settings alice 9)
      (request
        (record_failure lower settings alice 3)
        (fail_all lower settings alice (1 ∷ 2 ∷ []) [])).1).0
    ≡ ok (leb 3 (length times + 1) && ltb 9 (3 + minutes 10))
lockout_example = lockout lower settings alice (1 ∷ 2 ∷ []) 3 9 [] refl (ground arith)

abbrev events : List LoginEvent
events = failure bob 4 ∷ check bob 5 ∷ failure bob 6 ∷ success bob true ∷ []

IsConsistent-handle_all_example : All (IsConsistent settings) (handle_all lower settings events [])
IsConsistent-handle_all_example = IsConsistent-handle_all lower settings events [] (omega arith) tt

events-Foreign : Foreign lower settings (normalize_email lower alice) events
unfolding strip strip_left is_space
events-Foreign = ground arith

is_locked-handle_all_example :
    (request (is_locked lower settings alice 9) (handle_all lower settings events [])).0
    ≡ (request (is_locked lower settings alice 9) []).0
is_locked-handle_all_example = is_locked-handle_all lower settings alice 9 events [] events-Foreign

is_locked-reset_example :
    (request
      (is_locked lower settings alice 9)
      (request
        (reset lower settings alice true)
        (fail_all lower settings alice (1 ∷ 2 ∷ 3 ∷ []) [])).1).0
    ≡ ok false
is_locked-reset_example =
    is_locked-reset lower settings alice 9 (fail_all lower settings alice (1 ∷ 2 ∷ 3 ∷ []) [])

handle_all-refines_example :
    let e = normalize_email lower alice in
    let rows' = handle_all lower settings (failure alice 1 ∷ events) [] in
    (status e rows' ≡ specified_all lower settings e (failure alice 1 ∷ events) (status e []))
    × ((request (is_locked lower settings alice 9) rows').0
        ≡ ok (
            is_locked_at
              (specified_all lower settings e (failure alice 1 ∷ events) (status e []))
              9))
handle_all-refines_example = handle_all-refines lower settings alice 9 (failure alice 1 ∷ events) []
