-- ===== src/Auth/Mfa/Login.antt =====
-- The requests of a login with a second factor by a code.
pub mod Step
pub mod Requests
pub mod Once
pub mod Recovery
use sync_nesto_backend.Base.{
  ℕ, ◌+◌, Bool, true, false, not, ◌&&◌, ◌||◌, Option, none, some, List, [], ◌∷◌, ◌++◌, String, leb,
  ◌==◌, is_some, filter, if◌then◌else◌,
}
use sync_nesto_backend.Base.Text.{Text, strip}
use sync_nesto_backend.Errors.{mfa_invalid, assertion_error}
use sync_nesto_backend.Database.{
  Action, pure, raise, gets, inspect, or_raise, modify, commit, ◌>>=◌, ◌>>◌,
}
use sync_nesto_backend.Auth.Mfa.{
  MfaUser, MfaFactor, MfaFlow, MfaRecoveryCode, MfaTables, get_user, put_flow, put_factor, use_code,
  factors_of, recovery_code, consumed, failed_flow, find_flow, match_code,
}

-- `fail`; the audit entry is left out.
abbrev pub fail : MfaFlow → Action MfaTables Unit
fail flow = do
  modify (λ t. record t { flows = put_flow (failed_flow flow) t.flows })
  commit
  raise mfa_invalid

-- `verified` of a login: the flow is used up and the session is issued.
abbrev pub verified : MfaFlow → MfaUser → String → ℕ → Action MfaTables Unit
verified flow user method now = do
  modify (λ t. record t {
    flows = put_flow (consumed flow now) t.flows;
    logins = t.logins ++ record { user_id = user.id; mfa_method = method } ∷ [];
  })
  commit

abbrev pub is_pruned : ℕ → ℕ → MfaFlow → Bool
is_pruned user_id now flow =
    flow.user_id == user_id && (leb flow.expires_at now || is_some flow.consumed_at)

abbrev pub prune_flows : ℕ → ℕ → Action MfaTables Unit
prune_flows user_id now =
    modify (λ t. record t { flows = filter (λ f. not (is_pruned user_id now f)) t.flows })

module _ (digest : Text → String) (fingerprint : MfaUser → String) where
  -- `start` of a login, with the new token
  abbrev pub start : Text → MfaUser → ℕ → Action MfaTables Unit
  start token user now = do
    prune_flows user.id now
    modify (λ t. record t {
      flows =
          t.flows
          ++ record {
            token_hash = digest token;
            user_id = user.id;
            security_version = user.mfa_security_version;
            expires_at = now + 600000000;
            consumed_at = none;
            attempts = 0;
            fingerprint = fingerprint user;
          }
            ∷ [];
    })
    commit

  -- A user without factors starts a setup, whose flow is not in these tables.
  abbrev pub start_if : Text → ℕ → MfaUser → List MfaFactor → Action MfaTables Unit
  start_if token now user [] = do prune_flows user.id now; commit
  start_if token now user (f ∷ factors) = start token user now

  -- `login` of a user who is found: no flow while a recovery is pending
  abbrev pub login_found : Text → ℕ → MfaUser → Action MfaTables Unit
  login_found token now user =
      if user.mfa_recovery_pending
      then pure tt
      else (gets (λ t. factors_of t user.id) >>= start_if token now user)

  unfoldable pub login : Text → ℕ → ℕ → Action MfaTables Unit
  login token now user_id = do
    user ← gets (λ t. get_user user_id t.users)
    found ← or_raise user assertion_error
    login_found token now found

module _ (upper : Text → Text) (digest : Text → String) where
  -- `digest(code.replace("-", "").strip().upper())`
  abbrev pub code_digest : Text → String
  code_digest code = digest (upper (strip (filter (λ c. not (c == 45)) code)))

  abbrev pub use_recovery :
      MfaFlow → MfaUser → String → ℕ → Option MfaRecoveryCode → Action MfaTables Unit
  use_recovery flow user code_hash now none = fail flow
  use_recovery flow user code_hash now (some item) = do
    modify (λ t. record t { codes = use_code code_hash now t.codes })
    verified flow user "recovery_code" now

  -- `verify_code` of a login with `recovery=True`
  abbrev pub verify_recovery : MfaFlow → MfaUser → Text → ℕ → Action MfaTables Unit
  verify_recovery flow user code now =
      gets (λ t. recovery_code t user.id (code_digest code))
      >>= use_recovery flow user (code_digest code) now

  module _ (fingerprint : MfaUser → String) (decrypt : String → Option String)
      (totp_at : String → ℕ → Text) where
    abbrev pub use_match : MfaFlow → MfaUser → ℕ → Option (MfaFactor × ℕ) → Action MfaTables Unit
    use_match flow user now none = fail flow
    use_match flow user now (some (f, step)) = do
      modify (λ t. record t { factors = put_factor (record f { last_step = some step }) t.factors })
      verified flow user "totp" now

    -- `verify_code` of a login with a one-time password
    abbrev pub verify_totp : MfaFlow → MfaUser → Text → ℕ → Action MfaTables Unit
    verify_totp flow user code now =
        inspect (λ t. match_code decrypt totp_at (factors_of t user.id) code now)
        >>= use_match flow user now

    abbrev pub verify_found : Text → Bool → ℕ → MfaFlow × MfaUser → Action MfaTables Unit
    verify_found code true now (flow, user) = verify_recovery flow user code now
    verify_found code false now (flow, user) = verify_totp flow user code now

    -- The request: `flow` for its token, then `verify_code`
    unfoldable pub verify : Text → Text → Bool → ℕ → Action MfaTables Unit
    verify token code recovery now =
        inspect (λ t. find_flow digest fingerprint t token now) >>= verify_found code recovery now
