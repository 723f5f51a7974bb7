-- ===== src/Auth/Demo.antt =====
-- The end of a demo environment, as far as login sessions depend on it: `revoke`, `cleanup` and
-- `_cleanup` of app/services/demo.py. Of the business data only the login sessions are kept.
use sync_nesto_backend.Base.{
  ℕ, ◌+◌, ◌*◌, ◌^◌, String, Bool, true, false, not, ◌&&◌, ◌||◌, Option, none, some, List, [], ◌∷◌,
  map, if◌then◌else◌, ◌==◌, opt_eq, ltb, leb, find?, filter, any, is_none,
}
use sync_nesto_backend.Database.{Action, pure, gets, modify, commit, request, ◌>>=◌, ◌>>◌}

-- The table `sessions`.
pub record UserSession : Type 0 where
  pub id : ℕ
  pub user_id : ℕ
  pub started_at : ℕ
  pub last_seen_at : ℕ
  pub expires_at : ℕ
  pub absolute_expires_at : ℕ
  pub revoked_at : Option ℕ
  pub revoked_reason : Option String
  pub mfa_method : Option String
  pub mfa_verified_at : Option ℕ
  pub mfa_reauthenticated_at : Option ℕ
  pub mfa_security_version : Option ℕ

-- The values of `DemoSession.status`.
pub data DemoStatus : Type 0 where
  active cleanup_pending cleaned : DemoStatus

pub record DemoSession : Type 0 where
  pub id : ℕ
  pub tenant_id : Option ℕ
  pub session_id : Option ℕ
  pub status : DemoStatus
  pub expires_at : ℕ
  pub revoked_at : Option ℕ
  pub revoked_reason : Option String
  pub cleanup_after : ℕ
  pub cleanup_attempts : ℕ
  pub cleanup_error : Option String
  pub cleaned_at : Option ℕ

pub record DemoOwnedUser : Type 0 where
  pub user_id : ℕ
  pub demo_id : ℕ

pub record DemoUpload : Type 0 where
  pub demo_id : ℕ
  pub expires_at : ℕ

-- The metadata of an audit log entry about revoked sessions.
pub record SessionRevoked : Type 0 where
  pub target_user_id : ℕ
  pub reason : String
  pub revoked_count : ℕ

pub record SessionTables : Type 0 where
  pub sessions : List UserSession
  pub demos : List DemoSession
  pub owned_users : List DemoOwnedUser
  pub uploads : List DemoUpload
  pub audit_logs : List SessionRevoked

-- `timedelta(minutes=n)`
abbrev pub minutes : ℕ → ℕ
minutes n = n * 60000000

-- UPDATE of the rows that meet a test.
abbrev pub write {ℓ} : {A : Type ℓ} → (A → Bool) → (A → A) → List A → List A
write test f rows = map (λ row. if test row then f row else row) rows

abbrev pub write_session : ℕ → (UserSession → UserSession) → Action SessionTables Unit
write_session id f = modify (λ t. record t { sessions = write (λ s. s.id == id) f t.sessions })

abbrev pub write_demo : ℕ → (DemoSession → DemoSession) → Action SessionTables Unit
write_demo id f = modify (λ t. record t { demos = write (λ d. d.id == id) f t.demos })

abbrev pub revoked_session : String → ℕ → UserSession → UserSession
revoked_session reason now s = record s { revoked_at = some now; revoked_reason = some reason }

-- `DemoRepository.lock`
abbrev pub lock_demo : ℕ → SessionTables → Option DemoSession
lock_demo demo_id t = find? (λ d. d.id == demo_id) t.demos

-- `DemoRepository.by_session`
abbrev pub by_session : ℕ → SessionTables → Option DemoSession
by_session session_id t = find? (λ d. opt_eq d.session_id (some session_id)) t.demos

abbrev pub is_active : DemoStatus → Bool
is_active active = true
is_active _ = false

-- The demo after `revoke`.
abbrev pub revoked_demo : String → ℕ → DemoSession → DemoSession
revoked_demo reason now d = record d {
  status = cleanup_pending;
  revoked_at = some now;
  revoked_reason = some reason;
  cleanup_after = now;
}

-- The session of the demo, if there is one, is revoked with it.
abbrev pub revoke_session_of : Option ℕ → String → ℕ → Action SessionTables Unit
revoke_session_of none reason now = pure tt
revoke_session_of (some id) reason now = write_session id (revoked_session reason now)

unfoldable pub revoke_demo : ℕ → String → ℕ → Action SessionTables Unit
revoke_demo demo_id reason now = do
  found ← gets (lock_demo demo_id)
  elim found [
    | none ↦ pure tt
    | some demo ↦
        if is_active demo.status
        then (do
          write_demo demo_id (revoked_demo reason now)
          revoke_session_of demo.session_id reason now
          commit)
        else pure tt
  ]

-- What a cleanup meets: no connection, a row that another transaction has locked, an error of the
-- storage or of the deletion, and the clock.
pub record CleanupRun : Type 0 where
  pub unavailable : Bool
  pub is_locked : Bool
  pub fails : Bool
  pub now : ℕ

-- The user is one that the demo owns.
abbrev pub is_owned : List DemoOwnedUser → ℕ → ℕ → Bool
is_owned owned demo_id user_id = any (λ o. o.demo_id == demo_id && o.user_id == user_id) owned

-- `delete_business_data` on the sessions and the owned users.
abbrev pub delete_business_data : DemoSession → SessionTables → SessionTables
delete_business_data demo t = if is_none demo.tenant_id then t else record t {
  sessions = filter (λ s. not (is_owned t.owned_users demo.id s.user_id)) t.sessions;
  owned_users = filter (λ o. not (o.demo_id == demo.id)) t.owned_users;
  demos =
      write (λ d. d.id == demo.id) (λ d. record d { tenant_id = none; session_id = none }) t.demos;
}

-- The greatest `expires_at` of the uploads of a demo; `none` if it has no upload.
abbrev pub later : ℕ → Option ℕ → Option ℕ
later n none = some n
later n (some k) = if ltb n k then some k else some n

abbrev pub latest_put : ℕ → List DemoUpload → Option ℕ
latest_put demo_id [] = none
latest_put demo_id (u ∷ uploads) =
    let rest = latest_put demo_id uploads in
    if u.demo_id == demo_id then later u.expires_at rest else rest

-- The attempt is counted, and the sweep repeated after the last upload may have ended.
abbrev pub swept_demo : Option ℕ → ℕ → DemoSession → DemoSession
swept_demo latest now d =
    let d' = record d { cleanup_attempts = d.cleanup_attempts + 1; cleanup_error = none } in
    elim latest [
      | none ↦ record d' { status = cleaned; cleaned_at = some now }
      | some put ↦
          if ltb now (put + minutes 1)
          then record d' { cleanup_after = put + minutes 1 }
          else record d' { status = cleaned; cleaned_at = some now }
    ]

-- The uploads are forgotten when the demo is cleaned.
abbrev pub forgets_uploads : Option ℕ → ℕ → Bool
forgets_uploads none now = true
forgets_uploads (some put) now = not (ltb now (put + minutes 1))

-- The body of the `try` of `_cleanup`.
abbrev pub sweep : DemoSession → ℕ → Action SessionTables Unit
sweep demo now = do
  latest ← gets (λ t. latest_put demo.id t.uploads)
  modify (delete_business_data demo)
  write_demo demo.id (swept_demo latest now)
  modify (λ t.
      if forgets_uploads latest now
      then record t { uploads = filter (λ u. not (u.demo_id == demo.id)) t.uploads }
      else t)
  commit

-- The delay of the next attempt: `min(60, 2 ** min(cleanup_attempts, 6))` minutes
abbrev pub retry_minutes : ℕ → ℕ
retry_minutes attempts = if leb attempts 5 then 2 ^ attempts else 60

abbrev pub failed_demo : ℕ → DemoSession → DemoSession
failed_demo now d = record d {
  cleanup_attempts = d.cleanup_attempts + 1;
  cleanup_error = some "cleanup_failed";
  cleanup_after = now + minutes (retry_minutes (d.cleanup_attempts + 1));
}

-- `_cleanup` from the `try` on
abbrev pub try_sweep : CleanupRun → ℕ → Action SessionTables Unit
try_sweep run demo_id = do
  found ← gets (lock_demo demo_id)
  elim found [
    | none ↦ pure tt
    | some demo ↦
        if run.fails
        then (write_demo demo_id (failed_demo run.now) >> commit)
        else sweep demo run.now
  ]

abbrev pub cleanup_of : CleanupRun → DemoSession → Action SessionTables Unit
cleanup_of run demo = elim demo.status [
  | cleaned ↦ pure tt
  | cleanup_pending ↦ try_sweep run demo.id
  | active ↦
      if ltb run.now demo.expires_at
      then pure tt
      else (revoke_demo demo.id "expired" run.now >> try_sweep run demo.id)
]

-- `cleanup` in its own connection, without its answer
unfoldable pub cleanup : CleanupRun → ℕ → SessionTables → SessionTables
cleanup run demo_id t =
    if run.unavailable || run.is_locked
    then t
    else elim (lock_demo demo_id t) [ none ↦ t | some demo ↦ (request (cleanup_of run demo) t).1 ]
