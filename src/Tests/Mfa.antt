-- ===== src/Tests/Mfa.antt =====
-- The second factor of app/services/mfa.py on one user with one factor and one recovery code.
use sync_nesto_backend.Base.{
  ℕ, ◌-◌, ◌≡◌, ◌≢◌, ◌<◌, refl, true, false, ◌&&◌, Option, none, some, [], ◌∷◌, String, ◌==◌, leb,
  map, if◌then◌else◌, length,
}
use sync_nesto_backend.Base.Text.{Text, text_eq, codes, strip}
use sync_nesto_backend.Errors.{ok, err, mfa_invalid, ◌>>◌}
use sync_nesto_backend.Database.{request}
use sync_nesto_backend.Auth.Mfa.{
  MfaUser, MfaFactor, MfaFlow, MfaRecoveryCode, MfaTables, find_flow, match_code,
}
use sync_nesto_backend.Auth.Mfa.Login.{login, verify}
use sync_nesto_backend.Auth.Mfa.Login.Requests.{login_request, verify_request, serve, serve_all}
use sync_nesto_backend.Auth.Mfa.Login.Once.{totp_once}
use sync_nesto_backend.Auth.Mfa.Login.Recovery.{recovery_once}

-- `str.upper` on ASCII
abbrev upper : Text → Text
upper text = map (λ c. if leb 97 c && leb c 122 then (c - 32) else c) text

abbrev digest : Text → String
digest text =
    if text_eq text (codes "AB1")
    then "code"
    else if text_eq text (codes "t1")
    then "flow"
    else "other"

abbrev fingerprint : MfaUser → String
fingerprint user = "user"

abbrev decrypt : String → Option String
decrypt encrypted = some encrypted

abbrev totp_at : String → ℕ → Text
totp_at secret step = if step == 1 then codes "000001" else codes "000002"

abbrev carol : MfaUser
carol = record {
  id = 1;
  is_active = true;
  password_change_required = false;
  mfa_security_version = 1;
  mfa_recovery_pending = false;
}

abbrev phone : MfaFactor
phone = record {
  id = 7;
  user_id = 1;
  kind = "totp";
  secret = some "s";
  last_step = none;
  revoked_at = none;
}

abbrev waiting : MfaFlow
waiting = record {
  token_hash = "flow";
  user_id = 1;
  security_version = 1;
  expires_at = 600000000;
  consumed_at = none;
  attempts = 0;
  fingerprint = "user";
}

abbrev paper : MfaRecoveryCode
paper = record { user_id = 1; code_hash = "code"; used_at = none }

abbrev tables : MfaTables
tables = record {
  users = carol ∷ [];
  factors = phone ∷ [];
  flows = waiting ∷ [];
  codes = paper ∷ [];
  logins = [];
}

accepted :
    let (result, t') =
      request
        (verify upper digest fingerprint decrypt totp_at
          (codes "t1")
          (codes "000001")
          false
          30000000)
        tables in
    (result ≡ ok tt) × (length t'.logins ≡ 1)
unfolding verify find_flow match_code ◌>>◌
accepted = (refl, refl)

-- The second request with the same password and a new flow is refused.
repeated :
    let t' =
      serve_all upper digest fingerprint decrypt totp_at
        (verify_request (codes "t1") (codes "000001") false 30000000
          ∷ login_request (codes "t2") 30000000 1
          ∷ [])
        tables in
    (request
      (verify upper digest fingerprint decrypt totp_at (codes "t2") (codes "000001") false 30000000)
      t').0
    ≡ err mfa_invalid
unfolding verify find_flow match_code login ◌>>◌ strip
repeated = refl

totp_once_example : 1 < 2
unfolding verify find_flow match_code login ◌>>◌ strip
totp_once_example =
    totp_once upper digest fingerprint decrypt totp_at tables (codes "t1") (codes "000001") 30000000
      waiting carol phone 1 refl refl (login_request (codes "t2") 30000000 1 ∷ []) 1
      (codes "000002") 60000000 (record phone { last_step = some 1 }) 2 refl refl

recovery_once_example :
    let t' =
      serve_all upper digest fingerprint decrypt totp_at
        (login_request (codes "t2") 30000000 1 ∷ [])
        (serve upper digest fingerprint decrypt totp_at
          (verify_request (codes "t1") (codes "ab-1") true 30000000)
          tables) in
    (request
      (verify upper digest fingerprint decrypt totp_at (codes "t2") (codes "AB1 ") true 40000000)
      t').0
    ≢ ok tt
unfolding verify find_flow match_code login ◌>>◌ strip
recovery_once_example =
    recovery_once upper digest fingerprint decrypt totp_at tables (codes "t1") (codes "ab-1")
      30000000 waiting carol paper refl refl (login_request (codes "t2") 30000000 1 ∷ [])
      (codes "t2") (codes "AB1 ") 40000000 refl
