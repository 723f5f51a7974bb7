-- ===== src/Auth/LoginAttempt/Invariant.antt =====
-- The invariant of the rows, kept by every request, and the independence of emails.
use sync_nesto_backend.Base.{
  ℕ, ◌+◌, ◌≤◌, ◌<◌, ◌≡◌, refl, sym, ap, ◌∙◌, ◌≢◌, inl, inr, Bool, true, false, Option, none, some,
  List, [], ◌∷◌, arith, All, Option-cases,
}
use sync_nesto_backend.Base.Text.{Text, text_eq_iff}
use sync_nesto_backend.Errors.{ok}
use sync_nesto_backend.Database.{request}
use sync_nesto_backend.Auth.LoginAttempt.{
  LoginAttempt, Rows, LoginSettings, minutes, get_by_email, put, new_attempt, reset_row,
  normalize_email, is_locked, record_failure, reset,
}
use sync_nesto_backend.Auth.LoginAttempt.Rows.{get_by_email-put, get_by_email-email, All-put}
use sync_nesto_backend.Auth.LoginAttempt.Lock.{failed_row, locked_at, is_locked-result}

-- A row without a lock has fewer failures than the maximum; a locked row has reached it, and its
-- lock lasts for the configured time from its last failure.
abbrev pub LockFits : LoginSettings → Option ℕ → ℕ → Option ℕ → Type 0
LockFits settings none count last = count < settings.login_max_failed_attempts
LockFits settings (some until) count none = ⊥
LockFits settings (some until) count (some last) =
    (settings.login_max_failed_attempts ≤ count)
    × (until ≡ last + minutes settings.login_lock_minutes)

abbrev pub IsConsistent : LoginSettings → LoginAttempt → Type 0
IsConsistent settings row = LockFits settings row.locked_until row.failed_count row.last_failed_at

-- A call of the service.
pub data LoginEvent : Type 0 where
  check : Text → ℕ → LoginEvent
  failure : Text → ℕ → LoginEvent
  success : Text → Bool → LoginEvent

abbrev pub event_email : LoginEvent → Text
event_email (check email now) = email
event_email (failure email now) = email
event_email (success email commits) = email

module _ (lower : Text → Text) (settings : LoginSettings) where
  -- The table after the calls, each in a request of its own.
  abbrev pub handle : LoginEvent → Rows → Rows
  handle (check email now) rows = (request (is_locked lower settings email now) rows).1
  handle (failure email now) rows = (request (record_failure lower settings email now) rows).1
  handle (success email commits) rows = (request (reset lower settings email commits) rows).1

  abbrev pub handle_all : List LoginEvent → Rows → Rows
  handle_all [] rows = rows
  handle_all (event ∷ events) rows = handle_all events (handle event rows)

  IsConsistent-failed_row :
      (row : LoginAttempt) (now : ℕ) → IsConsistent settings (failed_row settings row now)
  IsConsistent-failed_row row now = ground arith

  IsConsistent-handle :
      (event : LoginEvent) (rows : Rows)
      → 0 < settings.login_max_failed_attempts
      → All (IsConsistent settings) rows
      → All (IsConsistent settings) (handle event rows)
  unfolding is_locked record_failure reset
  IsConsistent-handle (check email now) rows pos h =
      elim (Option-cases (get_by_email (normalize_email lower email) rows)) [
        | inl e ↦ ground arith
        | inr (row, e) ↦ ground (arith, All-put (IsConsistent settings) (reset_row row) rows pos h)
      ]
  IsConsistent-handle (failure email now) rows pos h =
      let e = normalize_email lower email in
      elim (Option-cases (get_by_email e rows)) [
        | inl new ↦
            let row = failed_row settings (new_attempt e) now in
            ground (
              arith,
              All-put (IsConsistent settings) row (put (new_attempt e) rows)
                  (IsConsistent-failed_row (new_attempt e) now)
                  (All-put (IsConsistent settings) (new_attempt e) rows pos h),
            )
        | inr (row, old) ↦ ground (
          arith,
          All-put (IsConsistent settings) (failed_row settings row now) rows
              (IsConsistent-failed_row row now) h,
        )
      ]
  IsConsistent-handle (success email commits) rows pos h =
      elim (Option-cases (get_by_email (normalize_email lower email) rows)) [
        | inl e ↦ ground arith
        | inr (row, e) ↦ ground (arith, All-put (IsConsistent settings) (reset_row row) rows pos h)
      ]

  -- With a positive maximum every sequence of calls keeps, of every row, that without a lock it has
  -- fewer failures than the maximum, and that with a lock it has reached the maximum and the lock
  -- ends the configured time after its last failure.
  pub IsConsistent-handle_all :
      (events : List LoginEvent) (rows : Rows)
      → 0 < settings.login_max_failed_attempts
      → All (IsConsistent settings) rows
      → All (IsConsistent settings) (handle_all events rows)
  IsConsistent-handle_all [] rows pos h = h
  IsConsistent-handle_all (event ∷ events) rows pos h =
      IsConsistent-handle_all events (handle event rows) pos (IsConsistent-handle event rows pos h)

  pub handle-get_ne :
      (event : LoginEvent) (other : Text) (rows : Rows)
      → other ≢ normalize_email lower (event_email event)
      → get_by_email other (handle event rows) ≡ get_by_email other rows
  unfolding is_locked record_failure reset
  handle-get_ne (check email now) other rows ne =
      let e = normalize_email lower email in
      elim (Option-cases (get_by_email e rows)) [
        | inl new ↦ ground arith
        | inr (row, old) ↦ ground (
          arith,
          get_by_email-email e rows row old,
          get_by_email-put other (reset_row row) rows,
          text_eq_iff e other,
        )
      ]
  handle-get_ne (failure email now) other rows ne =
      let e = normalize_email lower email in
      elim (Option-cases (get_by_email e rows)) [
        | inl new ↦ ground (
          arith,
          get_by_email-put other (failed_row settings (new_attempt e) now)
              (put (new_attempt e) rows),
          get_by_email-put other (new_attempt e) rows,
          text_eq_iff e other,
        )
        | inr (row, old) ↦ ground (
          arith,
          get_by_email-email e rows row old,
          get_by_email-put other (failed_row settings row now) rows,
          text_eq_iff e other,
        )
      ]
  handle-get_ne (success email commits) other rows ne =
      let e = normalize_email lower email in
      elim (Option-cases (get_by_email e rows)) [
        | inl new ↦ ground arith
        | inr (row, old) ↦ ground (
          arith,
          get_by_email-email e rows row old,
          get_by_email-put other (reset_row row) rows,
          text_eq_iff e other,
        )
      ]

  abbrev pub Foreign : Text → List LoginEvent → Type 0
  Foreign email events = All (λ event. email ≢ normalize_email lower (event_email event)) events

  -- Calls for other emails do not change whether an email is locked.
  pub is_locked-handle_all :
      (email : Text) (now : ℕ) (events : List LoginEvent) (rows : Rows)
      → Foreign (normalize_email lower email) events
      → (request (is_locked lower settings email now) (handle_all events rows)).0
        ≡ (request (is_locked lower settings email now) rows).0
  is_locked-handle_all email now [] rows foreign = refl
  is_locked-handle_all email now (event ∷ events) rows foreign =
      is_locked-handle_all email now events (handle event rows) foreign.1
      ∙ (is_locked-result lower settings email now (handle event rows)
          ∙ ap (λ row. ok (locked_at row now))
              (handle-get_ne event (normalize_email lower email) rows foreign.0)
          ∙ sym (is_locked-result lower settings email now rows))

  -- After the reset of a committed login the email is not locked at any time.
  pub is_locked-reset :
      (email : Text) (now : ℕ) (rows : Rows)
      → (request
          (is_locked lower settings email now)
          (request (reset lower settings email true) rows).1).0
        ≡ ok false
  unfolding reset is_locked
  is_locked-reset email now rows =
      let e = normalize_email lower email in
      elim (Option-cases (get_by_email e rows)) [
        | inl new ↦ ground arith
        | inr (row, old) ↦ ground (
          arith,
          get_by_email-email e rows row old,
          get_by_email-put e (reset_row row) rows,
          text_eq_iff e e,
        )
      ]
