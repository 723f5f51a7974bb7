-- ===== src/Auth/LoginAttempt.antt =====
-- Failed logins and the temporary lock: app/services/login_attempt.py over
-- app/repositories/login_attempt.py. A row is identified by its unique email. `now` is the value of
-- `datetime.now(UTC)` in microseconds, and `lower` is Python's `str.lower`.
pub mod Rows
pub mod Lock
pub mod Invariant
pub mod Refines
use sync_nesto_backend.Base.{
  ℕ, ◌+◌, ◌*◌, Bool, true, false, Option, none, some, List, [], ◌∷◌, if◌then◌else◌, ltb, leb, find?,
}
use sync_nesto_backend.Base.Text.{Text, text_eq, strip}
use sync_nesto_backend.Database.{Action, pure, gets, modify, commit, ◌>>=◌, ◌>>◌}

pub record LoginAttempt : Type 0 where
  pub email : Text
  pub failed_count : ℕ
  pub locked_until : Option ℕ
  pub last_failed_at : Option ℕ

-- The table `login_attempts`.
abbrev pub Rows : Type 0
Rows = List LoginAttempt

pub record LoginSettings : Type 0 where
  pub login_max_failed_attempts : ℕ
  pub login_lock_minutes : ℕ

-- `timedelta(minutes=n)`
abbrev pub minutes : ℕ → ℕ
minutes n = n * 60000000

-- `LoginAttemptRepository.get_by_email`
abbrev pub get_by_email : Text → Rows → Option LoginAttempt
get_by_email email rows = find? (λ row. text_eq row.email email) rows

-- The table after the row of an email has been written; a new email is added at the end.
abbrev pub put : LoginAttempt → Rows → Rows
put row [] = row ∷ []
put row (r ∷ rows) = if text_eq r.email row.email then row ∷ rows else r ∷ put row rows

-- `LoginAttempt(email=email)` with the defaults of the columns
abbrev pub new_attempt : Text → LoginAttempt
new_attempt email = record {
  email = email;
  failed_count = 0;
  locked_until = none;
  last_failed_at = none;
}

-- `LoginAttemptRepository.get_or_create`
abbrev pub get_or_create : Text → Action Rows LoginAttempt
get_or_create email = do
  found ← gets (get_by_email email)
  elim found [
    | some row ↦ pure row
    | none ↦ do modify (put (new_attempt email)); pure (new_attempt email)
  ]

-- `LoginAttemptRepository.record_failure`
abbrev pub write_failure : LoginAttempt → ℕ → Option ℕ → ℕ → Action Rows LoginAttempt
write_failure login_attempt failed_count locked_until failed_at = do
  let row = record login_attempt {
    failed_count = failed_count;
    locked_until = locked_until;
    last_failed_at = some failed_at;
  }
  modify (put row)
  pure row

-- `LoginAttemptRepository.reset`
abbrev pub reset_row : LoginAttempt → LoginAttempt
reset_row login_attempt = record login_attempt {
  failed_count = 0;
  locked_until = none;
  last_failed_at = none;
}

-- `login_attempt.locked_until is not None and login_attempt.locked_until <= now`
abbrev pub lock_ended : Option ℕ → ℕ → Bool
lock_ended none now = false
lock_ended (some until) now = leb until now

-- `normalize_email`
abbrev pub normalize_email : (Text → Text) → Text → Text
normalize_email lower email = lower (strip email)

-- What `is_locked` does with a row, by its `locked_until`.
abbrev pub check_lock : ℕ → LoginAttempt → Option ℕ → Action Rows Bool
check_lock now row none = pure false
check_lock now row (some until) =
    if ltb now until then pure true else do modify (put (reset_row row)); commit; pure false

-- The count that a failure is added to.
abbrev pub count_before : LoginAttempt → ℕ → ℕ
count_before row now = if lock_ended row.locked_until now then 0 else row.failed_count

module _ (lower : Text → Text) (settings : LoginSettings) where
  unfoldable pub is_locked : Text → ℕ → Action Rows Bool
  is_locked email now = do
    found ← gets (get_by_email (normalize_email lower email))
    elim found [ none ↦ pure false | some row ↦ check_lock now row row.locked_until ]

  unfoldable pub record_failure : Text → ℕ → Action Rows LoginAttempt
  record_failure email now = do
    login_attempt ← get_or_create (normalize_email lower email)
    let failed_count = count_before login_attempt now + 1
    let locked_until =
        if leb settings.login_max_failed_attempts failed_count
        then some (now + minutes settings.login_lock_minutes)
        else none
    row ← write_failure login_attempt failed_count locked_until now
    commit
    pure row

  -- `reset`; with `commit=False` the caller commits.
  unfoldable pub reset : Text → Bool → Action Rows Unit
  reset email commits = do
    found ← gets (get_by_email (normalize_email lower email))
    elim found [
      | none ↦ pure tt
      | some row ↦ do modify (put (reset_row row)); if commits then commit else pure tt
    ]
