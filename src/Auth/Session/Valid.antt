-- ===== src/Auth/Session/Valid.antt =====
-- When a token is accepted.
use sync_nesto_backend.Base.{
  ℕ, ◌<◌, ◌≡◌, ◌↔◌, inl, inr, false, Option, none, some, arith, Option-cases,
}
use sync_nesto_backend.Base.Text.{Text}
use sync_nesto_backend.Errors.{ok, invalid_token, token_expired}
use sync_nesto_backend.Database.{request, opened}
use sync_nesto_backend.Database.Rules.{raises}
use sync_nesto_backend.Auth.Demo.{UserSession, SessionTables, CleanupRun}
use sync_nesto_backend.Auth.Session.{
  Claim, Payload, get_session, get_session_id, token_over, revoke_expired_session, revoke_demo_of,
  validate_session,
}

-- The session has not been revoked, and none of the three times has come.
pub record IsLive (exp : Claim) (now : ℕ) (s : UserSession) : Type 0 where
  pub not_revoked : s.revoked_at ≡ none
  pub token_runs : token_over exp now ≡ false
  pub idle_runs : now < s.expires_at
  pub absolute_runs : now < s.absolute_expires_at

module _ (parse_uuid : Text → Option ℕ) (run : CleanupRun) (payload : Payload) (now : ℕ)
    (t : SessionTables) where
  -- A token whose `sid` names a session is accepted, with this session and without a change of any
  -- table, exactly if the session has not been revoked and neither the expiry of the token nor the
  -- idle nor the absolute expiry of the session has come.
  pub validate_session_iff :
      (session_id : ℕ) (s : UserSession)
      → get_session_id parse_uuid payload ≡ some session_id
      → get_session session_id t ≡ some s
      → (request (validate_session parse_uuid run payload now) t ≡ (ok s, t))
        ↔ IsLive payload.exp now s
  unfolding validate_session
  validate_session_iff session_id s named found = (accepted, live)
    where
      accepted :
          request (validate_session parse_uuid run payload now) t ≡ (ok s, t)
          → IsLive payload.exp now s
      accepted h =
          let expired =
            raises (revoke_expired_session run s "expired" now) token_expired (opened t) s in
          let absolute =
            raises (revoke_expired_session run s "absolute_expired" now) token_expired (opened t)
              s in
          let revoked = raises (revoke_demo_of s now) invalid_token (opened t) s in
          elim (Option-cases s.revoked_at) [
            | inr (at, over) ↦ absurd (revoked (ground arith))
            | inl running ↦ record {
              not_revoked = running;
              token_runs = ground arith;
              idle_runs = ground arith;
              absolute_runs = ground arith;
            }
          ]

      live :
          IsLive payload.exp now s
          → request (validate_session parse_uuid run payload now) t ≡ (ok s, t)
      live h = ground (arith, h.not_revoked, h.token_runs, h.idle_runs, h.absolute_runs)
