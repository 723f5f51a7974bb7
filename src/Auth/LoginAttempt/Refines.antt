-- ===== src/Auth/LoginAttempt/Refines.antt =====
-- The table of failed logins implements a specification without a table: what one email has been
-- through decides its count and its lock.
use sync_nesto_backend.Base.{
  ℕ, ◌+◌, ◌≡◌, refl, sym, ap, ◌∙◌, inl, inr, Bool, false, Option, none, some, List, [], ◌∷◌, arith,
  ltb, leb, if◌then◌else◌, Bool-cases, Option-cases,
}
use mathlib.Core.Path.{subst}
use sync_nesto_backend.Base.Text.{Text, text_eq, text_eq_iff}
use sync_nesto_backend.Errors.{ok}
use sync_nesto_backend.Database.{request}
use sync_nesto_backend.Auth.LoginAttempt.{
  LoginAttempt, Rows, LoginSettings, minutes, get_by_email, reset_row, lock_ended, normalize_email,
  is_locked, reset,
}
use sync_nesto_backend.Auth.LoginAttempt.Rows.{get_by_email-put, get_by_email-email}
use sync_nesto_backend.Auth.LoginAttempt.Lock.{locked_at, record_failure-get, is_locked-result}
use sync_nesto_backend.Auth.LoginAttempt.Invariant.{
  LoginEvent, check, failure, success, handle, handle_all,
}

-- What is known of an email: the failures that count, and the end of its lock.
pub record Status : Type 0 where
  pub failures : ℕ
  pub locked_until : Option ℕ

abbrev pub no_failures : Status
no_failures = record { failures = 0; locked_until = none }

-- A lock that has ended is lifted when someone asks.
abbrev pub asked : ℕ → Status → Status
asked now s = if lock_ended s.locked_until now then no_failures else s

-- A failure counts from zero after the end of a lock, and locks when the maximum is reached.
abbrev pub failed : LoginSettings → ℕ → Status → Status
failed settings now s =
    let n = (if lock_ended s.locked_until now then 0 else s.failures) + 1 in
    record {
      failures = n;
      locked_until =
          if leb settings.login_max_failed_attempts n
          then some (now + minutes settings.login_lock_minutes)
          else none;
    }

abbrev pub is_locked_at : Status → ℕ → Bool
is_locked_at s now = elim s.locked_until [ none ↦ false | some until ↦ ltb now until ]

abbrev pub of_row : Option LoginAttempt → Status
of_row none = no_failures
of_row (some row) = record { failures = row.failed_count; locked_until = row.locked_until }

-- What the table says of an email.
abbrev pub status : Text → Rows → Status
status email rows = of_row (get_by_email email rows)

module _ (lower : Text → Text) (settings : LoginSettings) where
  -- What a call does to the status of an email in its normal form, which only its own calls change.
  abbrev pub specified : Text → LoginEvent → Status → Status
  specified email (check other now) s =
      if text_eq (normalize_email lower other) email then asked now s else s
  specified email (failure other now) s =
      if text_eq (normalize_email lower other) email then failed settings now s else s
  specified email (success other commits) s =
      if text_eq (normalize_email lower other) email
      then (if commits then no_failures else s)
      else s

  abbrev pub specified_all : Text → List LoginEvent → Status → Status
  specified_all email [] s = s
  specified_all email (event ∷ events) s = specified_all email events (specified email event s)

  status-failure :
      (email other : Text) (now : ℕ) (rows : Rows)
      → status email (handle lower settings (failure other now) rows)
        ≡ specified email (failure other now) (status email rows)
  status-failure email other now rows =
      let e = normalize_email lower other in
      subst (λ o. of_row o ≡ specified email (failure other now) (status email rows))
        (sym (record_failure-get lower settings other email now rows))
        (elim (Bool-cases (text_eq e email)) [
          | inr foreign ↦ rw foreign refl
          | inl own ↦ elim (Option-cases (get_by_email e rows)) [
            | inl new ↦ ground (arith, text_eq_iff e email)
            | inr (row, old) ↦ ground (arith, text_eq_iff e email)
          ]
        ])

  status-check :
      (email other : Text) (now : ℕ) (rows : Rows)
      → status email (handle lower settings (check other now) rows)
        ≡ specified email (check other now) (status email rows)
  unfolding is_locked
  status-check email other now rows =
      let e = normalize_email lower other in
      elim (Option-cases (get_by_email e rows)) [
        | inl new ↦ ground (arith, text_eq_iff e email)
        | inr (row, old) ↦ ground (
          arith,
          get_by_email-email e rows row old,
          get_by_email-put email (reset_row row) rows,
          text_eq_iff e email,
        )
      ]

  status-success :
      (email other : Text) (commits : Bool) (rows : Rows)
      → status email (handle lower settings (success other commits) rows)
        ≡ specified email (success other commits) (status email rows)
  unfolding reset
  status-success email other commits rows =
      let e = normalize_email lower other in
      elim (Option-cases (get_by_email e rows)) [
        | inl new ↦ ground (arith, text_eq_iff e email)
        | inr (row, old) ↦ ground (
          arith,
          get_by_email-email e rows row old,
          get_by_email-put email (reset_row row) rows,
          text_eq_iff e email,
        )
      ]

  status-handle :
      (email : Text) (event : LoginEvent) (rows : Rows)
      → status email (handle lower settings event rows) ≡ specified email event (status email rows)
  status-handle email (check other now) rows = status-check email other now rows
  status-handle email (failure other now) rows = status-failure email other now rows
  status-handle email (success other commits) rows = status-success email other commits rows

  status-handle_all :
      (email : Text) (events : List LoginEvent) (rows : Rows)
      → status email (handle_all lower settings events rows)
        ≡ specified_all email events (status email rows)
  status-handle_all email [] rows = refl
  status-handle_all email (event ∷ events) rows =
      status-handle_all email events (handle lower settings event rows)
      ∙ ap (specified_all email events) (status-handle email event rows)

  locked_at-of_row :
      (o : Option LoginAttempt) (now : ℕ) → locked_at o now ≡ is_locked_at (of_row o) now
  locked_at-of_row none now = refl
  locked_at-of_row (some row) now = refl

  -- After any calls of the service, the table says of every email what the specification says from
  -- the calls for that email alone, and the answer whether it is locked is the specification's.
  pub handle_all-refines :
      (email : Text) (now : ℕ) (events : List LoginEvent) (rows : Rows)
      → let e = normalize_email lower email in
        let rows' = handle_all lower settings events rows in
        (status e rows' ≡ specified_all e events (status e rows))
        × ((request (is_locked lower settings email now) rows').0
            ≡ ok (is_locked_at (specified_all e events (status e rows)) now))
  handle_all-refines email now events rows =
      let e = normalize_email lower email in
      let rows' = handle_all lower settings events rows in
      let same = status-handle_all e events rows in
      (
        same,
        is_locked-result lower settings email now rows'
            ∙ ap ok (locked_at-of_row (get_by_email e rows') now)
            ∙ ap (λ s. ok (is_locked_at s now)) same,
      )
