-- ===== src/Tests/Sessions.antt =====
-- Login sessions of app/services/session.py: two of one user, one of them revoked, and a demo.
use sync_nesto_backend.Base.{
  ℕ, ◌+◌, ◌≡◌, ◌≢◌, ◌↔◌, refl, true, false, Option, none, some, List, [], ◌∷◌, arith, if◌then◌else◌,
  All,
}
use sync_nesto_backend.Base.Text.{Text, text_eq, codes}
use sync_nesto_backend.Errors.{ok, err, token_expired}
use sync_nesto_backend.Database.{request}
use sync_nesto_backend.Auth.Demo.{
  UserSession, DemoSession, active, SessionTables, minutes, CleanupRun, revoked_session,
  revoke_demo, cleanup,
}
use sync_nesto_backend.Auth.Session.{
  Claim, string, numeric, Payload, SessionSettings, create_session, validate_session,
  revoke_expired_session, revoke_user_sessions,
}
use sync_nesto_backend.Auth.Session.Valid.{IsLive, validate_session_iff}
use sync_nesto_backend.Auth.Session.History.{
  SessionEvent, creates, validates, extends, revokes_token, happen_all, IsBounded,
  IsBounded-happen_all,
}
use sync_nesto_backend.Auth.Session.Revoked.{
  NewId, NotFor, revoked_forever, revoke_user_sessions-others,
}

abbrev parse_uuid : Text → Option ℕ
parse_uuid text =
    if text_eq text (codes "s1") then some 1 else if text_eq text (codes "s2") then some 2 else none

abbrev first : UserSession
first = record {
  id = 1;
  user_id = 4;
  started_at = 0;
  last_seen_at = 0;
  expires_at = 100;
  absolute_expires_at = 200;
  revoked_at = none;
  revoked_reason = none;
  mfa_method = none;
  mfa_verified_at = none;
  mfa_reauthenticated_at = none;
  mfa_security_version = none;
}

abbrev second : UserSession
second = revoked_session "logout" 50 (record first { id = 2 })

abbrev tables : SessionTables
tables = record {
  sessions = first ∷ second ∷ [];
  demos = [];
  owned_users = [];
  uploads = [];
  audit_logs = [];
}

abbrev calm : CleanupRun
calm = record { unavailable = false; is_locked = false; fails = false; now = 300 }

abbrev token_of : Claim → Payload
token_of sid = record { sid = sid; exp = numeric 150 }

abbrev settings : SessionSettings
settings = record {
  session_idle_timeout_minutes = 30;
  session_absolute_timeout_minutes = 480;
  session_refresh_threshold_minutes = 10;
}

-- Past the idle expiry the token is refused, and the revocation is durable.
expires : request (validate_session parse_uuid calm (token_of (string (codes "s1"))) 120) tables ≡ (
  err token_expired,
  record tables { sessions = revoked_session "expired" 120 first ∷ second ∷ [] },
)
unfolding validate_session revoke_expired_session
expires = refl

abbrev demo : DemoSession
demo = record {
  id = 9;
  tenant_id = some 3;
  session_id = some 1;
  status = active;
  expires_at = 100;
  revoked_at = none;
  revoked_reason = none;
  cleanup_after = 0;
  cleanup_attempts = 0;
  cleanup_error = none;
  cleaned_at = none;
}

abbrev demo_tables : SessionTables
demo_tables = record tables {
  demos = demo ∷ [];
  owned_users = record { user_id = 4; demo_id = 9 } ∷ [];
}

-- An expired session of a demo takes the sessions of the demo's users with it.
expires_demo :
    (request
      (validate_session parse_uuid calm (token_of (string (codes "s1"))) 120)
      demo_tables).1.sessions
    ≡ []
unfolding validate_session revoke_expired_session revoke_demo cleanup
expires_demo = refl

validate_session_iff_example :
    (request (validate_session parse_uuid calm (token_of (string (codes "s1"))) 60) tables
      ≡ (ok first, tables))
    ↔ IsLive (numeric 150) 60 first
validate_session_iff_example =
    validate_session_iff parse_uuid calm (token_of (string (codes "s1"))) 60 tables 1 first refl
      refl

abbrev events : List SessionEvent
events =
    validates calm (token_of (string (codes "s1"))) 60
    ∷ extends settings second 61
    ∷ creates settings 3 8 (some "totp") 1 true 62
    ∷ revokes_token (some (token_of (string (codes "s1")))) "logout" 63
    ∷ []

IsBounded-happen_all_example : All IsBounded (happen_all parse_uuid events tables).sessions
IsBounded-happen_all_example = IsBounded-happen_all parse_uuid events tables (ground arith)

second-revoked : All (λ s. s.id ≡ 2 → s.revoked_at ≢ none) tables.sessions
second-revoked = ground arith

events-NewId : All (NewId 2) events
events-NewId = ground arith

revoked_forever_example :
    (request
      (validate_session parse_uuid calm (token_of (string (codes "s2"))) 64)
      (happen_all parse_uuid events tables)).0
    ≢ ok second
revoked_forever_example =
    revoked_forever parse_uuid 2 events tables second-revoked events-NewId calm
      (token_of (string (codes "s2"))) 64 second refl

-- The session of another user, who logs in after the revocation.
abbrev newcomer : UserSession
newcomer = record {
  id = 1;
  user_id = 8;
  started_at = 62;
  last_seen_at = 62;
  expires_at = 62 + minutes 30;
  absolute_expires_at = 62 + minutes 480;
  revoked_at = none;
  revoked_reason = none;
  mfa_method = none;
  mfa_verified_at = none;
  mfa_reauthenticated_at = none;
  mfa_security_version = none;
}

abbrev login : List SessionEvent
login = creates settings 1 8 none 1 true 62 ∷ []

abbrev old_tables : SessionTables
old_tables = record tables { sessions = record first { id = 7 } ∷ second ∷ [] }

login-NotFor : All (NotFor 4) login
login-NotFor = ground arith

newcomer-accepted :
    (request (validate_session parse_uuid calm (token_of (string (codes "s1"))) 64) (
      happen_all parse_uuid login
        (request (revoke_user_sessions 4 "credentials_changed" true 55) old_tables).1)).0
    ≡ ok newcomer
unfolding validate_session create_session revoke_user_sessions
newcomer-accepted = refl

revoke_user_sessions-others_example : newcomer.user_id ≢ 4
revoke_user_sessions-others_example =
    revoke_user_sessions-others parse_uuid 4 "credentials_changed" 55 login old_tables login-NotFor
      calm (token_of (string (codes "s1"))) 64 newcomer newcomer-accepted
