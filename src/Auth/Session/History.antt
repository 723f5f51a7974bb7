-- ===== src/Auth/Session/History.antt =====
-- Histories of the sessions: every call on them in a request of its own, and the sweeps of demos.
use sync_nesto_backend.Base.{ℕ, ◌≤◌, String, Bool, Option, none, some, List, [], ◌∷◌, arith, All}
use sync_nesto_backend.Base.Text.{Text}
use sync_nesto_backend.Database.{opened, request}
use sync_nesto_backend.Auth.Demo.{
  UserSession, SessionTables, revoked_session, revoke_demo, CleanupRun, cleanup,
}
use sync_nesto_backend.Auth.Session.{
  Payload, SessionSettings, new_session, with_mfa, create_session, validate_session, extended,
  extend, touch, revoke_token_session, revoke_user_sessions,
}
use sync_nesto_backend.Auth.Session.Kept.{
  revoke_demo-Kept, cleanup-Kept, validate_session-Kept, revoke_token_session-Kept,
  revoke_user_sessions-Kept, extend-Kept, touch-Kept, create_session-Kept,
}

pub data SessionEvent : Type 0 where
  creates : SessionSettings → ℕ → ℕ → Option String → ℕ → Bool → ℕ → SessionEvent
  validates : CleanupRun → Payload → ℕ → SessionEvent
  extends : SessionSettings → UserSession → ℕ → SessionEvent
  touches : UserSession → ℕ → SessionEvent
  revokes_token : Option Payload → String → ℕ → SessionEvent
  revokes_user : ℕ → String → Bool → ℕ → SessionEvent
  revokes_demo : ℕ → String → ℕ → SessionEvent
  cleans : CleanupRun → ℕ → SessionEvent

module _ (parse_uuid : Text → Option ℕ) where
  abbrev pub happen : SessionEvent → SessionTables → SessionTables
  happen (creates settings id user_id method version commits now) t =
      (request (create_session settings id user_id method version commits now) t).1
  happen (validates run payload now) t = (request (validate_session parse_uuid run payload now) t).1
  happen (extends settings row now) t = (request (extend settings row now) t).1
  happen (touches row now) t = (request (touch row now) t).1
  happen (revokes_token payload reason now) t =
      (request (revoke_token_session parse_uuid payload reason now) t).1
  happen (revokes_user user_id reason commits now) t =
      (request (revoke_user_sessions user_id reason commits now) t).1
  happen (revokes_demo demo_id reason now) t = (request (revoke_demo demo_id reason now) t).1
  happen (cleans run demo_id) t = cleanup run demo_id t

  abbrev pub happen_all : List SessionEvent → SessionTables → SessionTables
  happen_all [] t = t
  happen_all (event ∷ events) t = happen_all events (happen event t)

-- The new sessions of an event have the property.
abbrev pub Creates : (UserSession → Type 0) → SessionEvent → Type 0
Creates P (creates settings id user_id method version commits now) =
    P (with_mfa method version now (new_session settings id user_id now))
Creates P _ = Unit

-- The writes to a session keep the property.
pub record IsStable (P : UserSession → Type 0) : Type 0 where
  pub on_revoke :
      (reason : String) (now : ℕ) (s : UserSession) → P s → P (revoked_session reason now s)
  pub on_extend : (next now : ℕ) (s : UserSession) → P s → P (extended next now s)
  pub on_touch : (now : ℕ) (s : UserSession) → P s → P (record s { last_seen_at = now })

module _ (parse_uuid : Text → Option ℕ) (P : UserSession → Type 0) (stable : IsStable P) where
  Kept-happen :
      (event : SessionEvent) (t : SessionTables)
      → Creates P event
      → All P t.sessions
      → All P (happen parse_uuid event t).sessions
  Kept-happen (creates settings id user_id method version commits now) t new h =
      (create_session-Kept P stable.on_revoke settings id user_id method version commits now new
        (opened t) (h, h)).0
  Kept-happen (validates run payload now) t new h =
      (validate_session-Kept P stable.on_revoke parse_uuid run payload now (opened t) (h, h)).0
  Kept-happen (extends settings row now) t new h =
      (extend-Kept P stable.on_revoke settings row now (λ next. stable.on_extend next now)
        (opened t) (h, h)).0
  Kept-happen (touches row now) t new h =
      (touch-Kept P stable.on_revoke row now (stable.on_touch now) (opened t) (h, h)).0
  Kept-happen (revokes_token payload reason now) t new h =
      (revoke_token_session-Kept P stable.on_revoke parse_uuid payload reason now (opened t)
        (h, h)).0
  Kept-happen (revokes_user user_id reason commits now) t new h =
      (revoke_user_sessions-Kept P stable.on_revoke user_id reason commits now (opened t) (h, h)).0
  Kept-happen (revokes_demo demo_id reason now) t new h =
      (revoke_demo-Kept P stable.on_revoke demo_id reason now (opened t) (h, h)).0
  Kept-happen (cleans run demo_id) t new h = cleanup-Kept P stable.on_revoke run demo_id t h

  pub Kept-happen_all :
      (events : List SessionEvent) (t : SessionTables)
      → All (Creates P) events
      → All P t.sessions
      → All P (happen_all parse_uuid events t).sessions
  Kept-happen_all [] t new h = h
  Kept-happen_all (event ∷ events) t new h =
      Kept-happen_all events (happen parse_uuid event t) new.1 (Kept-happen event t new.0 h)

-- The idle expiry does not pass the absolute expiry.
abbrev pub IsBounded : UserSession → Type 0
IsBounded s = s.expires_at ≤ s.absolute_expires_at

IsBounded-IsStable : IsStable IsBounded
IsBounded-IsStable = record {
  on_revoke = λ reason now s h. h;
  on_extend = λ next now s h. ground arith;
  on_touch = λ now s h. h;
}

new_session-IsBounded :
    (settings : SessionSettings) (id user_id : ℕ) (method : Option String) (version now : ℕ)
    → IsBounded (with_mfa method version now (new_session settings id user_id now))
new_session-IsBounded settings id user_id none version now = ground arith
new_session-IsBounded settings id user_id (some m) version now = ground arith

Creates-IsBounded : (event : SessionEvent) → Creates IsBounded event
Creates-IsBounded (creates settings id user_id method version commits now) =
    new_session-IsBounded settings id user_id method version now
Creates-IsBounded _ = tt

-- If no session expires after its absolute expiry, this holds after every history.
pub IsBounded-happen_all :
    (parse_uuid : Text → Option ℕ) (events : List SessionEvent) (t : SessionTables)
    → All IsBounded t.sessions
    → All IsBounded (happen_all parse_uuid events t).sessions
IsBounded-happen_all parse_uuid events t h =
    Kept-happen_all parse_uuid IsBounded IsBounded-IsStable events t (all events) h
  where
    all : (events : List SessionEvent) → All (Creates IsBounded) events
    all [] = tt
    all (event ∷ events) = (Creates-IsBounded event, all events)
