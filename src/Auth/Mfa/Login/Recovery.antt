-- ===== src/Auth/Mfa/Login/Recovery.antt =====
-- A recovery code is accepted once.
use sync_nesto_backend.Base.{
  ℕ, ◌≡◌, ◌≢◌, refl, sym, Bool, true, false, ◌&&◌, Option, none, some, List, [], ◌∷◌, String,
  str_eq, ◌==◌, is_none, find?, All, if◌then◌else◌,
}
use mathlib.Core.Path.{subst}
use sync_nesto_backend.Base.Text.{Text}
use sync_nesto_backend.Errors.{Result, ok, err, mfa_invalid}
use sync_nesto_backend.Database.{request, ◌>>=◌}
use sync_nesto_backend.Database.Kept.{request-inspect}
use sync_nesto_backend.Auth.Mfa.{
  MfaUser, MfaFlow, MfaRecoveryCode, MfaTables, use_code, recovery_code, find_flow,
}
use sync_nesto_backend.Auth.Mfa.Login.{code_digest, use_recovery, verify_found, verify}
use sync_nesto_backend.Auth.Mfa.Login.Requests.{
  MfaRequest, verify_request, serve, serve_all, serve_all-keeps,
}

-- Every recovery code with this hash is used.
abbrev IsSpent : String → MfaTables → Type 0
IsSpent code_hash t =
    All (λ c. str_eq c.code_hash code_hash ≡ true → is_none c.used_at ≡ false) t.codes

use_code-IsSpent :
    (code_hash : String) (now : ℕ) (codes : List MfaRecoveryCode)
    → All
        (λ c. str_eq c.code_hash code_hash ≡ true → is_none c.used_at ≡ false)
        (use_code code_hash now codes)
use_code-IsSpent code_hash now [] = tt
use_code-IsSpent code_hash now (c ∷ codes) =
    (by_hash (str_eq c.code_hash code_hash) refl, use_code-IsSpent code_hash now codes)
  where
    by_hash :
        (b : Bool)
        → str_eq c.code_hash code_hash ≡ b
        → let row = if b then record c { used_at = some now } else c in
          str_eq row.code_hash code_hash ≡ true → is_none row.used_at ≡ false
    by_hash true e h = refl
    by_hash false e h = cc

use_code-keeps :
    (code_hash other : String) (now : ℕ) (codes : List MfaRecoveryCode)
    → All (λ c. str_eq c.code_hash code_hash ≡ true → is_none c.used_at ≡ false) codes
    → All
        (λ c. str_eq c.code_hash code_hash ≡ true → is_none c.used_at ≡ false)
        (use_code other now codes)
use_code-keeps code_hash other now [] all = tt
use_code-keeps code_hash other now (c ∷ codes) (p, all) =
    (by_hash (str_eq c.code_hash other), use_code-keeps code_hash other now codes all)
  where
    by_hash :
        (b : Bool)
        → let row = if b then record c { used_at = some now } else c in
          str_eq row.code_hash code_hash ≡ true → is_none row.used_at ≡ false
    by_hash true h = refl
    by_hash false h = p h

find-IsSpent :
    (code_hash : String) (user_id : ℕ) (codes : List MfaRecoveryCode)
    → All (λ c. str_eq c.code_hash code_hash ≡ true → is_none c.used_at ≡ false) codes
    → find? (λ c. c.user_id == user_id && str_eq c.code_hash code_hash && is_none c.used_at) codes
      ≡ none
find-IsSpent code_hash user_id [] all = refl
find-IsSpent code_hash user_id (c ∷ codes) (p, all) =
    by_row (c.user_id == user_id) (str_eq c.code_hash code_hash) refl
      (find-IsSpent code_hash user_id codes all)
  where
    by_row :
        (a b : Bool)
        → str_eq c.code_hash code_hash ≡ b
        → find?
            (λ c. c.user_id == user_id && str_eq c.code_hash code_hash && is_none c.used_at)
            codes
          ≡ none
        → (if a && b && is_none c.used_at
            then some c
            else find?
                (λ c. c.user_id == user_id && str_eq c.code_hash code_hash && is_none c.used_at)
                codes)
          ≡ none
    by_row false b e rest = rest
    by_row true false e rest = rest
    by_row true true e rest = rw (p e) rest

module _ (upper : Text → Text) (digest : Text → String) (fingerprint : MfaUser → String)
    (decrypt : String → Option String) (totp_at : String → ℕ → Text) where
  serve_all-IsSpent :
      (code_hash : String) (rs : List MfaRequest) (t : MfaTables)
      → IsSpent code_hash t
      → IsSpent code_hash (serve_all upper digest fingerprint decrypt totp_at rs t)
  serve_all-IsSpent code_hash =
      serve_all-keeps upper digest fingerprint decrypt totp_at (IsSpent code_hash) (λ t flows p. p)
        (λ t flows logins p. p) (λ t other now p. use_code-keeps code_hash other now t.codes p)
        (λ t user_id code now f step h p. p)

  use_recovery-IsSpent :
      (t : MfaTables) (flow : MfaFlow) (user : MfaUser) (code_hash : String) (now : ℕ)
      (o : Option MfaRecoveryCode) (item : MfaRecoveryCode)
      → o ≡ some item
      → IsSpent code_hash (request (use_recovery upper digest flow user code_hash now o) t).1
  use_recovery-IsSpent t flow user code_hash now none item e = cc
  use_recovery-IsSpent t flow user code_hash now (some row) item e =
      use_code-IsSpent code_hash now t.codes

  use_recovery-refused :
      (t : MfaTables) (flow : MfaFlow) (user : MfaUser) (code_hash : String) (now : ℕ)
      (o : Option MfaRecoveryCode)
      → o ≡ none
      → (request (use_recovery upper digest flow user code_hash now o) t).0 ≡ err mfa_invalid
  use_recovery-refused t flow user code_hash now none e = refl
  use_recovery-refused t flow user code_hash now (some row) e = cc

  verify_found-refused :
      (t : MfaTables) (code : Text) (now : ℕ) (r : Result (MfaFlow × MfaUser))
      → IsSpent (code_digest upper digest code) t
      → (request
          ((λ s. (r, s)) >>= verify_found upper digest fingerprint decrypt totp_at code true now)
          t).0
        ≢ ok tt
  verify_found-refused t code now (err e) p h = cc
  verify_found-refused t code now (ok (flow, user)) p h =
      let code_hash = code_digest upper digest code in
      let none_left = find-IsSpent code_hash user.id t.codes p in
      let refused =
        use_recovery-refused t flow user code_hash now (recovery_code t user.id code_hash)
          none_left in
      cc

  -- Once a login with a recovery code has been accepted, no later request with a recovery code of the
  -- same digest, by any user and with any flow, is accepted, whatever requests came between.
  pub recovery_once :
      (t : MfaTables) (token code : Text) (now : ℕ) (flow : MfaFlow) (user : MfaUser)
      (item : MfaRecoveryCode)
      → find_flow digest fingerprint t token now ≡ ok (flow, user)
      → recovery_code t user.id (code_digest upper digest code) ≡ some item
      → (rs : List MfaRequest) (token' code' : Text) (now' : ℕ)
      → code_digest upper digest code' ≡ code_digest upper digest code
      → let t' =
          serve_all upper digest fingerprint decrypt totp_at rs (
            serve upper digest fingerprint decrypt totp_at
              (verify_request token code true now)
              t) in
        (request (verify upper digest fingerprint decrypt totp_at token' code' true now') t').0
        ≢ ok tt
  unfolding verify
  recovery_once t token code now flow user item found matches rs token' code' now' same =
      let code_hash = code_digest upper digest code in
      let t1 =
        serve upper digest fingerprint decrypt totp_at (verify_request token code true now) t in
      let spent : IsSpent code_hash t1 =
        request-inspect (IsSpent code_hash) (λ t'. find_flow digest fingerprint t' token now)
          (verify_found upper digest fingerprint decrypt totp_at code true now) t (flow, user) found
          (use_recovery-IsSpent t flow user code_hash now (recovery_code t user.id code_hash) item
            matches) in
      let t' = serve_all upper digest fingerprint decrypt totp_at rs t1 in
      verify_found-refused t' code' now' (find_flow digest fingerprint t' token' now')
        (subst (λ d. IsSpent d t') (sym same) (serve_all-IsSpent code_hash rs t1 spent))
