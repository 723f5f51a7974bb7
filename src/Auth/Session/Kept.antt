-- ===== src/Auth/Session/Kept.antt =====
-- What every operation keeps of all sessions, if revocations and extensions keep it.
use sync_nesto_backend.Base.{
  ℕ, ◌+◌, String, ◌≡◌, refl, inl, inr, Bool, not, Option, none, some, List, [], ◌∷◌, ◌++◌, arith,
  ◌==◌, filter, All, Option-cases,
}
use sync_nesto_backend.Base.Text.{Text}
use sync_nesto_backend.Database.{Session, gets}
use sync_nesto_backend.Database.Rules.{KeepsBoth, KeepsBoth->>=, request-KeepsBoth}
use sync_nesto_backend.Auth.Demo.{
  UserSession, DemoSession, DemoStatus, active, cleanup_pending, cleaned, SessionTables, minutes,
  write, revoked_session, lock_demo, by_session, is_owned, revoke_demo, CleanupRun, sweep,
  try_sweep, cleanup_of, cleanup,
}
use sync_nesto_backend.Auth.Session.{
  Claim, Payload, SessionSettings, get_session, get_session_id, create_session, revoke_row,
  run_cleanup, revoke_expired_session, revoke_demo_of, validate_row, validate_session, extended,
  extend, touch, revoke_token_session, is_open, revoke_user_sessions, reason_or_revoked, with_mfa,
  new_session,
}

module _ (P : UserSession → Type 0) where
  All-write :
      (test : UserSession → Bool) (f : UserSession → UserSession) (rows : List UserSession)
      → ((s : UserSession) → P s → P (f s))
      → All P rows
      → All P (write test f rows)
  All-write test f [] k h = tt
  All-write test f (s ∷ rows) k h = ground (arith, k s h.0, All-write test f rows k h.1)

  All-filter :
      (test : UserSession → Bool) (rows : List UserSession) → All P rows → All P (filter test rows)
  All-filter test [] h = tt
  All-filter test (s ∷ rows) h = ground (arith, All-filter test rows h.1)

  All-append :
      (rows : List UserSession) (s : UserSession) → P s → All P rows → All P (rows ++ s ∷ [])
  All-append [] s p h = (p, tt)
  All-append (r ∷ rows) s p h = (h.0, All-append rows s p h.1)

-- `revokes` says that a revocation keeps `P`.
module _ (P : UserSession → Type 0)
    (revokes : (reason : String) (now : ℕ) (s : UserSession)
      → P s
      → P (revoked_session reason now s)) where
  abbrev pub Kept : SessionTables → Type 0
  Kept t = All P t.sessions

  abbrev Both : Session SessionTables → Type 0
  Both s = Kept s.committed × Kept s.pending

  -- The write of one session.
  one :
      (id : ℕ) (f : UserSession → UserSession) (rows : List UserSession)
      → ((s : UserSession) → P s → P (f s))
      → All P rows
      → All P (write (λ s. s.id == id) f rows)
  one id f rows k h = All-write P (λ s. s.id == id) f rows k h

  pub revoke_demo-Kept :
      (demo_id : ℕ) (reason : String) (now : ℕ) → KeepsBoth Kept (revoke_demo demo_id reason now)
  unfolding revoke_demo
  revoke_demo-Kept demo_id reason now s h = elim (Option-cases (lock_demo demo_id s.pending)) [
    | inl gone ↦ ground arith
    | inr (demo, found) ↦ elim (Option-cases demo.session_id) [
      | inl alone ↦ ground arith
      | inr (id, there) ↦
          let kept =
            one id (revoked_session reason now) s.pending.sessions (revokes reason now) h.1 in
          ground arith
    ]
  ]

  sweep-Kept : (demo : DemoSession) (now : ℕ) → KeepsBoth Kept (sweep demo now)
  sweep-Kept demo now s h =
      let kept =
        All-filter P (λ r. not (is_owned s.pending.owned_users demo.id r.user_id))
          s.pending.sessions h.1 in
      ground arith

  try_sweep-Kept : (run : CleanupRun) (demo_id : ℕ) → KeepsBoth Kept (try_sweep run demo_id)
  try_sweep-Kept run demo_id s h = elim (Option-cases (lock_demo demo_id s.pending)) [
    | inl gone ↦ ground arith
    | inr (demo, found) ↦ let kept = sweep-Kept demo run.now s h in ground arith
  ]

  cleanup_of-Kept : (run : CleanupRun) (demo : DemoSession) → KeepsBoth Kept (cleanup_of run demo)
  cleanup_of-Kept run demo s h = by_status demo.status refl
    where
      by_status : (st : DemoStatus) → demo.status ≡ st → Both (cleanup_of run demo s).1
      by_status cleaned e = ground arith
      by_status cleanup_pending e = let kept = try_sweep-Kept run demo.id s h in ground arith
      by_status active e =
          let kept =
            KeepsBoth->>= Kept (revoke_demo demo.id "expired" run.now) (λ _. try_sweep run demo.id)
              (revoke_demo-Kept demo.id "expired" run.now) (λ _. try_sweep-Kept run demo.id) s h in
          ground arith

  pub cleanup-Kept :
      (run : CleanupRun) (demo_id : ℕ) (t : SessionTables) → Kept t → Kept (cleanup run demo_id t)
  unfolding cleanup
  cleanup-Kept run demo_id t h = elim (Option-cases (lock_demo demo_id t)) [
    | inl gone ↦ ground arith
    | inr (demo, found) ↦
        let kept = request-KeepsBoth Kept (cleanup_of run demo) t (cleanup_of-Kept run demo) h in
        ground arith
  ]

  revoke_row-Kept :
      (row : UserSession) (reason : String) (now : ℕ) → KeepsBoth Kept (revoke_row row reason now)
  revoke_row-Kept row reason now s h =
      let kept =
        one row.id (revoked_session reason now) s.pending.sessions (revokes reason now) h.1 in
      elim (Option-cases row.revoked_at) [
        | inl running ↦ ground arith
        | inr (at, over) ↦ ground arith
      ]

  run_cleanup-Kept : (run : CleanupRun) (demo : DemoSession) → KeepsBoth Kept (run_cleanup run demo)
  run_cleanup-Kept run demo s h = let kept = cleanup-Kept _ demo.id s.committed h.0 in (kept, kept)

  revoke_expired_session-Kept :
      (run : CleanupRun) (row : UserSession) (reason : String) (now : ℕ)
      → KeepsBoth Kept (revoke_expired_session run row reason now)
  unfolding revoke_expired_session
  revoke_expired_session-Kept run row reason now s h =
      elim (Option-cases (by_session row.id s.pending)) [
        | inl none_there ↦ let kept = revoke_row-Kept row reason now s h in ground arith
        | inr (demo, found) ↦
            let kept =
              KeepsBoth->>= Kept (revoke_demo demo.id reason now) (λ _. run_cleanup run demo)
                (revoke_demo-Kept demo.id reason now) (λ _. run_cleanup-Kept run demo) s h in
            ground arith
      ]

  revoke_demo_of-Kept : (row : UserSession) (now : ℕ) → KeepsBoth Kept (revoke_demo_of row now)
  revoke_demo_of-Kept row now s h = elim (Option-cases (by_session row.id s.pending)) [
    | inl none_there ↦ ground arith
    | inr (demo, found) ↦
        let kept = revoke_demo-Kept demo.id (reason_or_revoked row.revoked_reason) now s h in
        ground arith
  ]

  validate_row-Kept :
      (run : CleanupRun) (exp : Claim) (row : UserSession) (now : ℕ)
      → KeepsBoth Kept (validate_row run exp row now)
  validate_row-Kept run exp row now s h =
      let expired = revoke_expired_session-Kept run row "expired" now s h in
      let absolute = revoke_expired_session-Kept run row "absolute_expired" now s h in
      let demo = revoke_demo_of-Kept row now s h in
      elim (Option-cases row.revoked_at) [
        | inl running ↦ ground arith
        | inr (at, over) ↦ ground arith
      ]

  pub validate_session-Kept :
      (parse_uuid : Text → Option ℕ) (run : CleanupRun) (payload : Payload) (now : ℕ)
      → KeepsBoth Kept (validate_session parse_uuid run payload now)
  unfolding validate_session
  validate_session-Kept parse_uuid run payload now s h =
      elim (Option-cases (get_session_id parse_uuid payload)) [
        | inl bad ↦ ground arith
        | inr (id, good) ↦ elim (Option-cases (get_session id s.pending)) [
          | inl gone ↦ ground arith
          | inr (row, found) ↦
              let kept = validate_row-Kept run payload.exp row now s h in ground arith
        ]
      ]

  pub revoke_token_session-Kept :
      (parse_uuid : Text → Option ℕ) (payload : Option Payload) (reason : String) (now : ℕ)
      → KeepsBoth Kept (revoke_token_session parse_uuid payload reason now)
  unfolding revoke_token_session
  revoke_token_session-Kept parse_uuid none reason now s h = h
  revoke_token_session-Kept parse_uuid (some payload) reason now s h =
      elim (Option-cases (get_session_id parse_uuid payload)) [
        | inl bad ↦ ground arith
        | inr (id, good) ↦ elim (Option-cases (get_session id s.pending)) [
          | inl gone ↦ ground arith
          | inr (row, found) ↦
              let kept = revoke_row-Kept row reason now s h in
              elim (Option-cases (by_session id s.pending)) [
                | inl normal ↦ elim (Option-cases row.revoked_at) [
                  | inl running ↦ ground arith
                  | inr (at, over) ↦ ground arith
                ]
                | inr (demo, there) ↦
                    let kept' =
                      KeepsBoth->>= Kept (revoke_demo demo.id reason now)
                        (λ _. gets (get_session id)) (revoke_demo-Kept demo.id reason now)
                        (λ _ s' h'. h') s h in
                    ground arith
              ]
        ]
      ]

  pub revoke_user_sessions-Kept :
      (user_id : ℕ) (reason : String) (commits : Bool) (now : ℕ)
      → KeepsBoth Kept (revoke_user_sessions user_id reason commits now)
  unfolding revoke_user_sessions
  revoke_user_sessions-Kept user_id reason commits now s h =
      let kept =
        All-write P (is_open user_id) (revoked_session reason now) s.pending.sessions
          (revokes reason now) h.1 in
      ground arith

  -- `extends` says that an extension keeps `P`.
  pub extend-Kept :
      (settings : SessionSettings) (row : UserSession) (now : ℕ)
      → ((next : ℕ) (s : UserSession) → P s → P (extended next now s))
      → KeepsBoth Kept (extend settings row now)
  unfolding extend
  extend-Kept settings row now extends s h = elim (Option-cases (by_session row.id s.pending)) [
    | inl normal ↦
        let next = now + minutes settings.session_idle_timeout_minutes in
        let kept = one row.id (extended next now) s.pending.sessions (extends next) h.1 in
        ground arith
    | inr (demo, found) ↦
        let next = now + minutes 15 in
        let kept = one row.id (extended next now) s.pending.sessions (extends next) h.1 in
        ground arith
  ]

  pub create_session-Kept :
      (settings : SessionSettings) (id user_id : ℕ) (mfa_method : Option String)
      (security_version : ℕ) (commits : Bool) (now : ℕ)
      → P (with_mfa mfa_method security_version now (new_session settings id user_id now))
      → KeepsBoth Kept (create_session settings id user_id mfa_method security_version commits now)
  unfolding create_session
  create_session-Kept settings id user_id mfa_method security_version commits now p s h =
      let kept = All-append P s.pending.sessions _ p h.1 in ground arith

  pub touch-Kept :
      (row : UserSession) (now : ℕ)
      → ((s : UserSession) → P s → P (record s { last_seen_at = now }))
      → KeepsBoth Kept (touch row now)
  touch-Kept row now touches s h =
      let kept = one row.id (λ r. record r { last_seen_at = now }) s.pending.sessions touches h.1 in
      ground arith
