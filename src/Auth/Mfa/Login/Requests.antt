-- ===== src/Auth/Mfa/Login/Requests.antt =====
-- Histories of the requests of a login with a second factor, and a rule for what they keep.
use sync_nesto_backend.Base.{
  ℕ, ◌≡◌, Bool, true, false, Option, none, some, List, [], ◌∷◌, ◌++◌, String,
}
use sync_nesto_backend.Base.Text.{Text}
use sync_nesto_backend.Errors.{ok, assertion_error}
use sync_nesto_backend.Database.{Session, request, gets, pure, ◌>>=◌}
use sync_nesto_backend.Database.Rules.{KeepsBoth, request-KeepsBoth}
use sync_nesto_backend.Database.Kept.{Kept, or_raise-Kept, inspect-Kept, if-Kept}
use sync_nesto_backend.Auth.Mfa.{
  MfaUser, MfaFactor, MfaFlow, MfaRecoveryCode, MfaLogin, MfaTables, get_user, put_flow, consumed,
  failed_flow, put_factor, use_code, factors_of, recovery_code, find_flow, match_code,
}
use sync_nesto_backend.Auth.Mfa.Login.{
  fail, verified, start, start_if, login_found, login, code_digest, use_recovery, use_match,
  verify_found, verify,
}

-- The requests of a login with a second factor.
pub data MfaRequest : Type 0 where
  login_request : Text → ℕ → ℕ → MfaRequest
  verify_request : Text → Text → Bool → ℕ → MfaRequest

module _ (upper : Text → Text) (digest : Text → String) (fingerprint : MfaUser → String)
    (decrypt : String → Option String) (totp_at : String → ℕ → Text) where
  abbrev pub serve : MfaRequest → MfaTables → MfaTables
  serve (login_request token now user_id) t =
      (request (login digest fingerprint token now user_id) t).1
  serve (verify_request token code recovery now) t =
      (request (verify upper digest fingerprint decrypt totp_at token code recovery now) t).1

  abbrev pub serve_all : List MfaRequest → MfaTables → MfaTables
  serve_all [] t = t
  serve_all (r ∷ rs) t = serve_all rs (serve r t)

  -- What the writes of both requests keep of the tables.
  module _ (P : MfaTables → Type 0)
      (keep_flows : (t : MfaTables) (flows : List MfaFlow) → P t → P (record t { flows = flows }))
      (keep_logins : (t : MfaTables) (flows : List MfaFlow) (logins : List MfaLogin)
        → P t
        → P (record t { flows = flows; logins = logins }))
      (keep_codes : (t : MfaTables) (code_hash : String) (now : ℕ)
        → P t
        → P (record t { codes = use_code code_hash now t.codes }))
      (keep_factors : (t : MfaTables) (user_id : ℕ) (code : Text) (now : ℕ) (f : MfaFactor)
          (step : ℕ)
        → match_code decrypt totp_at (factors_of t user_id) code now ≡ ok (some (f, step))
        → P t
        → P (record t {
          factors = put_factor (record f { last_step = some step }) t.factors;
        })) where
    fail-Kept : (flow : MfaFlow) → KeepsBoth P (fail flow)
    fail-Kept flow s p =
        let q = keep_flows s.pending (put_flow (failed_flow flow) s.pending.flows) p.1 in (q, q)

    verified-Kept :
        (flow : MfaFlow) (user : MfaUser) (method : String) (now : ℕ)
        → KeepsBoth P (verified flow user method now)
    verified-Kept flow user method now s p =
        let login : MfaLogin = record { user_id = user.id; mfa_method = method } in
        let q =
          keep_logins s.pending (put_flow (consumed flow now) s.pending.flows)
            (s.pending.logins ++ login ∷ []) p.1 in
        (q, q)

    start_if-Kept :
        (token : Text) (now : ℕ) (user : MfaUser) (fs : List MfaFactor)
        → KeepsBoth P (start_if digest fingerprint token now user fs)
    start_if-Kept token now user [] s p =
        let q =
          keep_flows s.pending (start_if digest fingerprint token now user [] s).1.pending.flows
            p.1 in
        (q, q)
    start_if-Kept token now user (f ∷ fs) s p =
        let q =
          keep_flows s.pending (start digest fingerprint token user now s).1.pending.flows p.1 in
        (q, q)

    login-Kept :
        (token : Text) (now user_id : ℕ) → KeepsBoth P (login digest fingerprint token now user_id)
    unfolding login
    login-Kept token now user_id s =
        or_raise-Kept P (get_user user_id s.pending.users) assertion_error
          (login_found digest fingerprint token now) s
          (λ user e.
            if-Kept P user.mfa_recovery_pending (pure tt)
              (gets (λ t. factors_of t user.id) >>= start_if digest fingerprint token now user) s
              (λ e p. p) (λ e p. start_if-Kept token now user (factors_of s.pending user.id) s p))

    use_recovery-Kept :
        (flow : MfaFlow) (user : MfaUser) (code_hash : String) (now : ℕ)
        (item : Option MfaRecoveryCode)
        → KeepsBoth P (use_recovery upper digest flow user code_hash now item)
    use_recovery-Kept flow user code_hash now none s p = fail-Kept flow s p
    use_recovery-Kept flow user code_hash now (some item) s p =
        let s' : Session MfaTables = record {
          committed = s.committed;
          pending = record s.pending { codes = use_code code_hash now s.pending.codes };
        } in
        verified-Kept flow user "recovery_code" now s' (p.0, keep_codes s.pending code_hash now p.1)

    use_match-Kept :
        (flow : MfaFlow) (user : MfaUser) (code : Text) (now : ℕ) (s : Session MfaTables)
        (o : Option (MfaFactor × ℕ))
        → match_code decrypt totp_at (factors_of s.pending user.id) code now ≡ ok o
        → Kept P (use_match upper digest fingerprint decrypt totp_at flow user now o) s
    use_match-Kept flow user code now s none h p = fail-Kept flow s p
    use_match-Kept flow user code now s (some (f, step)) h p =
        let s' : Session MfaTables = record {
          committed = s.committed;
          pending = record s.pending {
            factors = put_factor (record f { last_step = some step }) s.pending.factors;
          };
        } in
        verified-Kept flow user "totp" now s'
          (p.0, keep_factors s.pending user.id code now f step h p.1)

    verify_found-Kept :
        (code : Text) (recovery : Bool) (now : ℕ) (found : MfaFlow × MfaUser)
        → KeepsBoth P
            (verify_found upper digest fingerprint decrypt totp_at code recovery now found)
    verify_found-Kept code true now (flow, user) s =
        let code_hash = code_digest upper digest code in
        use_recovery-Kept flow user code_hash now (recovery_code s.pending user.id code_hash) s
    verify_found-Kept code false now (flow, user) s =
        inspect-Kept P (λ t. match_code decrypt totp_at (factors_of t user.id) code now)
          (use_match upper digest fingerprint decrypt totp_at flow user now) s
          (λ o e. use_match-Kept flow user code now s o e)

    verify-Kept :
        (token code : Text) (recovery : Bool) (now : ℕ)
        → KeepsBoth P (verify upper digest fingerprint decrypt totp_at token code recovery now)
    unfolding verify
    verify-Kept token code recovery now s =
        inspect-Kept P (λ t. find_flow digest fingerprint t token now)
          (verify_found upper digest fingerprint decrypt totp_at code recovery now) s
          (λ found e. verify_found-Kept code recovery now found s)

    pub serve_all-keeps : (rs : List MfaRequest) (t : MfaTables) → P t → P (serve_all rs t)
    serve_all-keeps [] t p = p
    serve_all-keeps (login_request token now user_id ∷ rs) t p = serve_all-keeps rs _ (
        request-KeepsBoth P (login digest fingerprint token now user_id) t
          (login-Kept token now user_id) p)
    serve_all-keeps (verify_request token code recovery now ∷ rs) t p = serve_all-keeps rs _ (
        request-KeepsBoth P
          (verify upper digest fingerprint decrypt totp_at token code recovery now) t
          (verify-Kept token code recovery now) p)
