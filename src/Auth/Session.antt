-- ===== src/Auth/Session.antt =====
-- Login sessions: app/services/session.py over app/repositories/session.py. `parse_uuid` reads the
-- text of a UUID, and each reading of a clock is an argument.
pub mod Valid
pub mod Kept
pub mod History
pub mod Revoked
use sync_nesto_backend.Base.{
  ℕ, ◌+◌, String, Bool, true, false, not, ◌&&◌, ◌||◌, Option, none, some, List, [], ◌∷◌, ◌++◌,
  if◌then◌else◌, ◌==◌, ltb, leb, find?, filter, any, is_none, length,
}
use sync_nesto_backend.Base.Text.{Text}
use sync_nesto_backend.Errors.{invalid_token, token_expired, integrity_error}
use sync_nesto_backend.Database.{
  Action, pure, raise, gets, or_raise, raise_if, modify, commit, ◌>>=◌, ◌>>◌,
}
use sync_nesto_backend.Auth.Demo.{
  UserSession, DemoSession, SessionRevoked, SessionTables, minutes, write, write_session,
  write_demo, revoked_session, by_session, is_active, revoke_demo, CleanupRun, cleanup,
}

-- A value of the payload of a token; a number is a time in microseconds.
pub data Claim : Type 0 where
  missing other : Claim
  string : Text → Claim
  numeric : ℕ → Claim

pub record Payload : Type 0 where
  pub sid : Claim
  pub exp : Claim

pub record SessionSettings : Type 0 where
  pub session_idle_timeout_minutes : ℕ
  pub session_absolute_timeout_minutes : ℕ
  pub session_refresh_threshold_minutes : ℕ

-- `IDLE_MINUTES` of app/services/demo.py
abbrev pub idle_minutes : ℕ
idle_minutes = 15

-- `UserSessionRepository.get_by_id`
abbrev pub get_session : ℕ → SessionTables → Option UserSession
get_session session_id t = find? (λ s. s.id == session_id) t.sessions

abbrev pub at_most : ℕ → ℕ → ℕ
at_most n bound = if ltb bound n then bound else n

-- The row that `UserSessionRepository.create` adds.
abbrev pub new_session : SessionSettings → ℕ → ℕ → ℕ → UserSession
new_session settings id user_id now =
    let absolute = now + minutes settings.session_absolute_timeout_minutes in
    record {
      id = id;
      user_id = user_id;
      started_at = now;
      last_seen_at = now;
      expires_at = at_most (now + minutes settings.session_idle_timeout_minutes) absolute;
      absolute_expires_at = absolute;
      revoked_at = none;
      revoked_reason = none;
      mfa_method = none;
      mfa_verified_at = none;
      mfa_reauthenticated_at = none;
      mfa_security_version = none;
    }

-- The fields of a verified second factor.
abbrev pub with_mfa : Option String → ℕ → ℕ → UserSession → UserSession
with_mfa none version now s = s
with_mfa (some method) version now s = record s {
  mfa_method = some method;
  mfa_verified_at = some now;
  mfa_reauthenticated_at = some now;
  mfa_security_version = some version;
}

-- `create_session_token`, without the signed token; `id` is the new UUID. With `commits` false the
-- caller commits.
unfoldable pub create_session :
    SessionSettings → ℕ → ℕ → Option String → ℕ → Bool → ℕ → Action SessionTables UserSession
create_session settings id user_id mfa_method security_version commits now = do
  let row = with_mfa mfa_method security_version now (new_session settings id user_id now)
  taken ← gets (λ t. any (λ s. s.id == id) t.sessions)
  raise_if taken integrity_error
  modify (λ t. record t { sessions = t.sessions ++ row ∷ [] })
  if commits then commit else pure tt
  pure row

-- `get_session_id`
abbrev pub get_session_id : (Text → Option ℕ) → Payload → Option ℕ
get_session_id parse_uuid payload = elim payload.sid [ string text ↦ parse_uuid text | _ ↦ none ]

-- `payload_expires_at is not None and payload_expires_at <= now`
abbrev pub token_over : Claim → ℕ → Bool
token_over (numeric at) now = leb at now
token_over _ now = false

-- `UserSessionRepository.revoke`
abbrev pub revoke_row : UserSession → String → ℕ → Action SessionTables Unit
revoke_row s reason now = elim s.revoked_at [
  | none ↦ (write_session s.id (revoked_session reason now) >> commit)
  | some at ↦ pure tt
]

-- A cleanup in its own connection, seen by the next query. A demo that `revoke` has left alone is
-- still locked by this transaction.
abbrev pub run_cleanup : CleanupRun → DemoSession → Action SessionTables Unit
run_cleanup run demo s =
    let run' = record run { is_locked = run.is_locked || not (is_active demo.status) } in
    let t = cleanup run' demo.id s.committed in pure tt (record { committed = t; pending = t })

-- `revoke_expired_session`
unfoldable pub revoke_expired_session :
    CleanupRun → UserSession → String → ℕ → Action SessionTables Unit
revoke_expired_session run s reason now = do
  demo ← gets (by_session s.id)
  elim demo [
    | none ↦ revoke_row s reason now
    | some demo ↦ (revoke_demo demo.id reason now >> run_cleanup run demo)
  ]

-- `reason or "revoked"`
abbrev pub reason_or_revoked : Option String → String
reason_or_revoked none = "revoked"
reason_or_revoked (some reason) = reason

-- The revocation of the demo of a session that is revoked already.
abbrev pub revoke_demo_of : UserSession → ℕ → Action SessionTables Unit
revoke_demo_of s now = do
  demo ← gets (by_session s.id)
  elim demo [
    | none ↦ pure tt
    | some demo ↦ revoke_demo demo.id (reason_or_revoked s.revoked_reason) now
  ]

-- `validate_session` on the row that it has loaded.
abbrev pub validate_row : CleanupRun → Claim → UserSession → ℕ → Action SessionTables UserSession
validate_row run exp s now = elim s.revoked_at [
  | some at ↦ (revoke_demo_of s now >> raise invalid_token)
  | none ↦
      if token_over exp now
      then (revoke_expired_session run s "expired" now >> raise token_expired)
      else if leb s.absolute_expires_at now
      then (revoke_expired_session run s "absolute_expired" now >> raise token_expired)
      else if leb s.expires_at now
      then (revoke_expired_session run s "expired" now >> raise token_expired)
      else pure s
]

unfoldable pub validate_session :
    (Text → Option ℕ) → CleanupRun → Payload → ℕ → Action SessionTables UserSession
validate_session parse_uuid run payload now = do
  session_id ← or_raise (get_session_id parse_uuid payload) invalid_token
  found ← gets (get_session session_id)
  user_session ← or_raise found invalid_token
  validate_row run payload.exp user_session now

-- `should_refresh_session`
abbrev pub should_refresh_session : SessionSettings → UserSession → ℕ → Bool
should_refresh_session settings s now =
    leb s.expires_at (now + minutes settings.session_refresh_threshold_minutes)

abbrev pub extended : ℕ → ℕ → UserSession → UserSession
extended next now s = record s {
  last_seen_at = now;
  expires_at = at_most next s.absolute_expires_at;
}

-- `UserSessionRepository.extend` on the row of a session
unfoldable pub extend : SessionSettings → UserSession → ℕ → Action SessionTables Unit
extend settings s now = do
  demo ← gets (by_session s.id)
  elim demo [
    | none ↦ do
      write_session s.id (extended (now + minutes settings.session_idle_timeout_minutes) now)
      commit
    | some demo ↦ do
      let next = now + minutes idle_minutes
      write_session s.id (extended next now)
      write_demo demo.id (λ d. record d { expires_at = at_most next s.absolute_expires_at })
      commit
  ]

-- `UserSessionRepository.touch`
abbrev pub touch : UserSession → ℕ → Action SessionTables Unit
touch s now = write_session s.id (λ s. record s { last_seen_at = now }) >> commit

-- `revoke_token_session` on the payload of a token, `none` if it does not decode
unfoldable pub revoke_token_session :
    (Text → Option ℕ) → Option Payload → String → ℕ → Action SessionTables (Option UserSession)
revoke_token_session parse_uuid none reason now = pure none
revoke_token_session parse_uuid (some payload) reason now =
    elim (get_session_id parse_uuid payload) [
      | none ↦ pure none
      | some session_id ↦ do
        found ← gets (get_session session_id)
        elim found [
          | none ↦ pure none
          | some s ↦ do
            demo ← gets (by_session session_id)
            elim demo [
              | none ↦ revoke_row s reason now
              | some demo ↦ revoke_demo demo.id reason now
            ]
            gets (get_session session_id)
        ]
    ]

-- An unrevoked session of the user.
abbrev pub is_open : ℕ → UserSession → Bool
is_open user_id s = s.user_id == user_id && is_none s.revoked_at

-- `UserSessionRepository.revoke_all_by_user_id`
abbrev pub revoke_all_by_user_id : ℕ → String → Bool → ℕ → Action SessionTables ℕ
revoke_all_by_user_id user_id reason commits now = do
  count ← gets (λ t. length (filter (is_open user_id) t.sessions))
  modify
      (λ t. record t { sessions = write (is_open user_id) (revoked_session reason now) t.sessions })
  if not (count == 0) && commits then commit else pure tt
  pure count

-- `revoke_user_sessions`, whose audit entry is committed
unfoldable pub revoke_user_sessions : ℕ → String → Bool → ℕ → Action SessionTables ℕ
revoke_user_sessions user_id reason commits now = do
  count ← revoke_all_by_user_id user_id reason commits now
  if not (count == 0) && commits
      then (do
        let entry : SessionRevoked = record {
          target_user_id = user_id;
          reason = reason;
          revoked_count = count;
        }
        modify (λ t. record t { audit_logs = t.audit_logs ++ entry ∷ [] })
        commit)
      else pure tt
  pure count
