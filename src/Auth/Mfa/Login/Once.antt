-- ===== src/Auth/Mfa/Login/Once.antt =====
-- A one-time password is accepted once: the steps of a factor only rise.
use sync_nesto_backend.Base.{
  ℕ, ◌<◌, ◌≡◌, refl, Bool, true, false, ◌&&◌, Option, some, List, [], ◌∷◌, String, arith, ◌==◌,
  is_none, All, if◌then◌else◌,
}
use sync_nesto_backend.Base.Text.{Text}
use sync_nesto_backend.Errors.{ok}
use sync_nesto_backend.Database.Kept.{request-inspect}
use sync_nesto_backend.Auth.Mfa.{
  MfaUser, MfaFactor, MfaFlow, MfaTables, put_factor, factors_of, find_flow, match_code,
}
use sync_nesto_backend.Auth.Mfa.Login.{use_match, verify_found, verify}
use sync_nesto_backend.Auth.Mfa.Login.Step.{
  IsAtLeast, Spent, IsAtLeast-later, weaken, match_code-later, All-filter, All-put_factor,
}
use sync_nesto_backend.Auth.Mfa.Login.Requests.{
  MfaRequest, verify_request, serve, serve_all, serve_all-keeps,
}

module _ (upper : Text → Text) (digest : Text → String) (fingerprint : MfaUser → String)
    (decrypt : String → Option String) (totp_at : String → ℕ → Text) where
  serve_all-Spent :
      (id k : ℕ) (rs : List MfaRequest) (t : MfaTables)
      → Spent id k t
      → Spent id k (serve_all upper digest fingerprint decrypt totp_at rs t)
  serve_all-Spent id k =
      serve_all-keeps upper digest fingerprint decrypt totp_at (Spent id k) (λ t flows p. p)
        (λ t flows logins p. p) (λ t code_hash now p. p)
        (λ t user_id code now f step h p.
          let Q : MfaFactor → Type 0 = λ g. g.id ≡ id → IsAtLeast k g.last_step in
          let keep : MfaFactor → Bool = λ g. g.user_id == user_id && is_none g.revoked_at in
          let (q, later) =
            match_code-later decrypt totp_at Q (factors_of t user_id) code now f step h
              (All-filter Q keep t.factors p) in
          let row : MfaFactor = record f { last_step = some step } in
          All-put_factor Q row t.factors
            (λ e. weaken (IsAtLeast-later k step f.last_step (q e) later)) p)

  put_factor-Spent :
      (f : MfaFactor) (step : ℕ) (fs : List MfaFactor)
      → All
          (λ g. g.id ≡ f.id → IsAtLeast step g.last_step)
          (put_factor (record f { last_step = some step }) fs)
  put_factor-Spent f step [] = tt
  put_factor-Spent f step (g ∷ fs) = (by_id (g.id == f.id) refl, put_factor-Spent f step fs)
    where
      by_id :
          (c : Bool)
          → (g.id == f.id) ≡ c
          → let row = if c then record f { last_step = some step } else g in
            row.id ≡ f.id → IsAtLeast step row.last_step
      by_id true e h = ground arith
      by_id false e h = absurd (ground arith)

  -- The request of a code that is accepted spends the step of its factor.
  verify-Spent :
      (t : MfaTables) (token code : Text) (now : ℕ) (flow : MfaFlow) (user : MfaUser)
      (f : MfaFactor) (step : ℕ)
      → find_flow digest fingerprint t token now ≡ ok (flow, user)
      → match_code decrypt totp_at (factors_of t user.id) code now ≡ ok (some (f, step))
      → Spent f.id step
          (serve upper digest fingerprint decrypt totp_at (verify_request token code false now) t)
  unfolding verify
  verify-Spent t token code now flow user f step found matches =
      request-inspect (Spent f.id step) (λ t'. find_flow digest fingerprint t' token now)
        (verify_found upper digest fingerprint decrypt totp_at code false now) t (flow, user) found
        (request-inspect (Spent f.id step)
          (λ t'. match_code decrypt totp_at (factors_of t' user.id) code now)
          (use_match upper digest fingerprint decrypt totp_at flow user now) t (some (f, step))
          matches (put_factor-Spent f step t.factors))

  -- Once a login with a one-time password has been accepted, with a factor at a step, every match of
  -- a code with this factor, after any further requests, for any user and any flow, is at a later step.
  pub totp_once :
      (t : MfaTables) (token code : Text) (now : ℕ) (flow : MfaFlow) (user : MfaUser)
      (f : MfaFactor) (step : ℕ)
      → find_flow digest fingerprint t token now ≡ ok (flow, user)
      → match_code decrypt totp_at (factors_of t user.id) code now ≡ ok (some (f, step))
      → (rs : List MfaRequest) (user_id : ℕ) (code' : Text) (now' : ℕ) (g : MfaFactor) (step' : ℕ)
      → let t' = serve_all upper digest fingerprint decrypt totp_at rs (
          serve upper digest fingerprint decrypt totp_at (verify_request token code false now) t) in
        match_code decrypt totp_at (factors_of t' user_id) code' now' ≡ ok (some (g, step'))
        → g.id ≡ f.id
        → step < step'
  totp_once t token code now flow user f step found matches rs user_id code' now' g step' again
        same =
      let t' =
        serve_all upper digest fingerprint decrypt totp_at rs (
          serve upper digest fingerprint decrypt totp_at (verify_request token code false now) t) in
      let Q : MfaFactor → Type 0 = λ g. g.id ≡ f.id → IsAtLeast step g.last_step in
      let keep : MfaFactor → Bool = λ g. g.user_id == user_id && is_none g.revoked_at in
      let spent =
        serve_all-Spent f.id step rs
          (serve upper digest fingerprint decrypt totp_at (verify_request token code false now) t)
          (verify-Spent t token code now flow user f step found matches) in
      let (q, later) =
        match_code-later decrypt totp_at Q (factors_of t' user_id) code' now' g step' again
          (All-filter Q keep t'.factors spent) in
      IsAtLeast-later step step' g.last_step (q same) later
