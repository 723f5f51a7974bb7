-- ===== src/Auth/LoginAttempt/Lock.antt =====
-- When an email is locked: the count of failures, the end of the lock, and what stays untouched.
use sync_nesto_backend.Base.{
  ℕ, suc, ◌+◌, ◌≤◌, ◌<◌, ◌≡◌, refl, inl, inr, Bool, false, ◌&&◌, Option, none, some, List, [], ◌∷◌,
  arith, ltb, leb, if◌then◌else◌, length, Option-cases,
}
use mathlib.Core.Path.{subst}
use sync_nesto_backend.Base.Text.{Text, text_eq, text_eq_refl}
use sync_nesto_backend.Errors.{ok}
use sync_nesto_backend.Database.{request}
use sync_nesto_backend.Auth.LoginAttempt.{
  LoginAttempt, Rows, LoginSettings, minutes, get_by_email, put, new_attempt, count_before,
  normalize_email, is_locked, record_failure,
}
use sync_nesto_backend.Auth.LoginAttempt.Rows.{get_by_email-put, get_by_email-email}

-- The row that a failure for an email works on.
abbrev pub current : Text → Rows → LoginAttempt
current email rows = elim (get_by_email email rows) [ none ↦ new_attempt email | some row ↦ row ]

-- The row that a failure writes.
abbrev pub failed_row : LoginSettings → LoginAttempt → ℕ → LoginAttempt
failed_row settings row now =
    let n = count_before row now + 1 in
    record row {
      failed_count = n;
      locked_until =
          if leb settings.login_max_failed_attempts n
          then some (now + minutes settings.login_lock_minutes)
          else none;
      last_failed_at = some now;
    }

-- What `is_locked` answers for the row of an email.
abbrev pub locked_at : Option LoginAttempt → ℕ → Bool
locked_at none now = false
locked_at (some row) now = elim row.locked_until [ none ↦ false | some until ↦ ltb now until ]

module _ (lower : Text → Text) (settings : LoginSettings) where
  -- A failure writes the row of its own email and no other row.
  pub record_failure-get :
      (email other : Text) (now : ℕ) (rows : Rows)
      → get_by_email other (request (record_failure lower settings email now) rows).1 ≡ (
          if text_eq (normalize_email lower email) other
          then some (failed_row settings (current (normalize_email lower email) rows) now)
          else get_by_email other rows)
  unfolding record_failure
  record_failure-get email other now rows =
      let e = normalize_email lower email in
      elim (Option-cases (get_by_email e rows)) [
        | inl new ↦
            let row = failed_row settings (new_attempt e) now in
            ground (
              arith,
              get_by_email-put other row (put (new_attempt e) rows),
              get_by_email-put other (new_attempt e) rows,
            )
        | inr (row, old) ↦ ground (
          arith,
          get_by_email-email e rows row old,
          get_by_email-put other (failed_row settings row now) rows,
        )
      ]

  pub is_locked-result :
      (email : Text) (now : ℕ) (rows : Rows)
      → (request (is_locked lower settings email now) rows).0
        ≡ ok (locked_at (get_by_email (normalize_email lower email) rows) now)
  unfolding is_locked
  is_locked-result email now rows = ground arith

  -- The table after failures at the given times, the earliest first.
  abbrev pub fail_all : Text → List ℕ → Rows → Rows
  fail_all email [] rows = rows
  fail_all email (now ∷ times) rows =
      fail_all email times (request (record_failure lower settings email now) rows).1

  -- An email that has failed `n` times and is not locked.
  abbrev HasFailures : Option LoginAttempt → ℕ → Type 0
  HasFailures none n = n ≡ 0
  HasFailures (some row) n = (row.failed_count ≡ n) × (row.locked_until ≡ none)

  HasFailures-record_failure :
      (email : Text) (now n : ℕ) (rows : Rows)
      → HasFailures (get_by_email (normalize_email lower email) rows) n
      → suc n < settings.login_max_failed_attempts
      → HasFailures
          (get_by_email
            (normalize_email lower email)
            (request (record_failure lower settings email now) rows).1)
          (suc n)
  HasFailures-record_failure email now n rows h small =
      let e = normalize_email lower email in
      rw (record_failure-get email e now rows, text_eq_refl e)
        (elim (Option-cases (get_by_email e rows)) [
          | inl new ↦ ground arith
          | inr (row, old) ↦ ground arith
        ])

  HasFailures-fail_all :
      (email : Text) (times : List ℕ) (n : ℕ) (rows : Rows)
      → HasFailures (get_by_email (normalize_email lower email) rows) n
      → n + length times < settings.login_max_failed_attempts
      → HasFailures
          (get_by_email (normalize_email lower email) (fail_all email times rows))
          (n + length times)
  HasFailures-fail_all email [] n rows h small =
      let same : n ≡ n + 0 = omega arith in
      subst (HasFailures (get_by_email (normalize_email lower email) rows)) same h
  HasFailures-fail_all email (now ∷ times) n rows h small =
      let rest =
        HasFailures-fail_all email times (suc n)
          (request (record_failure lower settings email now) rows).1
          (HasFailures-record_failure email now n rows h (omega arith)) (omega arith) in
      let same : suc n + length times ≡ n + suc (length times) = omega arith in
      subst
        (HasFailures
          (get_by_email (normalize_email lower email) (fail_all email (now ∷ times) rows)))
        same rest

  -- From an email without a row, after any number of failures up to the maximum, the email is
  -- locked exactly if the maximum is reached and the lock that began at the last failure has not
  -- ended.
  pub lockout :
      (email : Text) (times : List ℕ) (now later : ℕ) (rows : Rows)
      → get_by_email (normalize_email lower email) rows ≡ none
      → length times + 1 ≤ settings.login_max_failed_attempts
      → (request
          (is_locked lower settings email later)
          (request (record_failure lower settings email now) (fail_all email times rows)).1).0
        ≡ ok (
            leb settings.login_max_failed_attempts (length times + 1)
            && ltb later (now + minutes settings.login_lock_minutes))
  lockout email times now later rows none_yet small =
      let e = normalize_email lower email in
      let rows' = fail_all email times rows in
      let counted = HasFailures-fail_all email times 0 rows (rw none_yet refl) (omega arith) in
      rw
        (
          is_locked-result email later (request (record_failure lower settings email now) rows').1,
          record_failure-get email e now rows',
          text_eq_refl e,
        )
        (elim (Option-cases (get_by_email e rows')) [
          | inl new ↦ ground arith
          | inr (row, old) ↦ ground arith
        ])
