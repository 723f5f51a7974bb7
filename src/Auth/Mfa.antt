-- ===== src/Auth/Mfa.antt =====
-- The login with a second factor by a code: `start`, `flow`, `fail`, `totp_step`, `verify_code` and
-- `verified` of app/services/mfa.py for the purpose `login`, over app/repositories/mfa.py. SHA-256,
-- the decryption of secrets and the one-time passwords of pyotp are parameters.

pub mod Login
use sync_nesto_backend.Base.{
  ℕ, suc, ◌+◌, ◌-◌, ◌/◌, Bool, true, false, not, ◌&&◌, ◌||◌, Option, none, some, List, [], ◌∷◌,
  ◌++◌, String, str_eq, ◌==◌, leb, ltb, is_none, is_some, find?, filter, length, if◌then◌else◌,
}
use sync_nesto_backend.Base.Text.{Text, text_eq}
use sync_nesto_backend.Base.Decimal.{all_digits}
use sync_nesto_backend.Errors.{
  Result, ok, err, mfa_invalid, mfa_unavailable, refuse_if, or_refuse, ◌>>=◌, ◌>>◌,
}

-- The columns of a user that the second factor depends on.
pub record MfaUser : Type 0 where
  pub id : ℕ
  pub is_active : Bool
  pub password_change_required : Bool
  pub mfa_security_version : ℕ
  pub mfa_recovery_pending : Bool

-- A factor; `last_step` is none for -1.
pub record MfaFactor : Type 0 where
  pub id : ℕ
  pub user_id : ℕ
  pub kind : String
  pub secret : Option String
  pub last_step : Option ℕ
  pub revoked_at : Option ℕ

-- A limited state of the purpose `login`, which has no session; of its payload the fingerprint is
-- kept, which is empty once the payload is.
pub record MfaFlow : Type 0 where
  pub token_hash : String
  pub user_id : ℕ
  pub security_version : ℕ
  pub expires_at : ℕ
  pub consumed_at : Option ℕ
  pub attempts : ℕ
  pub fingerprint : String

pub record MfaRecoveryCode : Type 0 where
  pub user_id : ℕ
  pub code_hash : String
  pub used_at : Option ℕ

-- A login that has been completed, for which a session is issued.
pub record MfaLogin : Type 0 where
  pub user_id : ℕ
  pub mfa_method : String

-- The factors stand in the order of `verified_at`.
pub record MfaTables : Type 0 where
  pub users : List MfaUser
  pub factors : List MfaFactor
  pub flows : List MfaFlow
  pub codes : List MfaRecoveryCode
  pub logins : List MfaLogin

abbrev pub get_user : ℕ → List MfaUser → Option MfaUser
get_user id users = find? (λ u. u.id == id) users

-- `MfaRepository.flow`
abbrev pub get_flow : String → List MfaFlow → Option MfaFlow
get_flow token_hash flows = find? (λ f. str_eq f.token_hash token_hash) flows

abbrev pub put_flow : MfaFlow → List MfaFlow → List MfaFlow
put_flow flow [] = []
put_flow flow (f ∷ flows) =
    (if str_eq f.token_hash flow.token_hash then flow else f) ∷ put_flow flow flows

abbrev pub put_factor : MfaFactor → List MfaFactor → List MfaFactor
put_factor factor [] = []
put_factor factor (f ∷ factors) =
    (if f.id == factor.id then factor else f) ∷ put_factor factor factors

-- The code is used: the row has the unique hash.
abbrev pub use_code : String → ℕ → List MfaRecoveryCode → List MfaRecoveryCode
use_code code_hash now [] = []
use_code code_hash now (c ∷ codes) =
    (if str_eq c.code_hash code_hash then record c { used_at = some now } else c)
    ∷ use_code code_hash now codes

-- `MfaRepository.factors`
abbrev pub factors_of : MfaTables → ℕ → List MfaFactor
factors_of t user_id = filter (λ f. f.user_id == user_id && is_none f.revoked_at) t.factors

-- `MfaRepository.recovery_code`
abbrev pub recovery_code : MfaTables → ℕ → String → Option MfaRecoveryCode
recovery_code t user_id code_hash =
    find? (λ c. c.user_id == user_id && str_eq c.code_hash code_hash && is_none c.used_at) t.codes

-- `len(code) == 6 and code.isascii() and code.isdigit()`
abbrev pub is_code : Text → Bool
is_code code = length code == 6 && all_digits code

-- `step > last_step`
abbrev pub is_later : ℕ → Option ℕ → Bool
is_later step none = true
is_later step (some last) = ltb last step

-- The flow is refused, apart from its fingerprint.
abbrev pub is_refused : MfaFlow → MfaUser → ℕ → Bool
is_refused flow user now =
    not user.is_active
    || user.password_change_required
    || is_some flow.consumed_at
    || leb flow.expires_at now
    || leb 5 flow.attempts
    || not (flow.security_version == user.mfa_security_version)
    || user.mfa_recovery_pending

-- `flow.payload = {}` with `flow.consumed_at = now`
abbrev pub consumed : MfaFlow → ℕ → MfaFlow
consumed flow now = record flow { consumed_at = some now; fingerprint = "" }

-- The flow after a failure: the payload is cleared at the fifth.
abbrev pub failed_flow : MfaFlow → MfaFlow
failed_flow flow = record flow {
  attempts = flow.attempts + 1;
  fingerprint = if leb 5 (flow.attempts + 1) then "" else flow.fingerprint;
}

-- The steps of `totp_step` around the present one, in their order
abbrev pub steps_at : ℕ → List ℕ
steps_at now = let current = now / 30000000 in current ∷ (current - 1) ∷ (current + 1) ∷ []

module _ (digest : Text → String) (fingerprint : MfaUser → String) where
  -- `flow`: the flow of the token that is not refused, with its user
  unfoldable pub find_flow : MfaTables → Text → ℕ → Result (MfaFlow × MfaUser)
  find_flow t token now = do
    refuse_if (length token == 0 || ltb 200 (length token)) mfa_invalid
    flow ← or_refuse (get_flow (digest token) t.flows) mfa_invalid
    user ← or_refuse (get_user flow.user_id t.users) mfa_invalid
    refuse_if (is_refused flow user now || not (str_eq flow.fingerprint (fingerprint user)))
        mfa_invalid
    ok (flow, user)

module _ (decrypt : String → Option String) (totp_at : String → ℕ → Text) where
  -- The first of the steps that is later than the last one used, and whose password is the code.
  abbrev pub first_step : String → Text → Option ℕ → List ℕ → Option ℕ
  first_step secret code last [] = none
  first_step secret code last (step ∷ steps) =
      let rest = first_step secret code last steps in
      if is_later step last && text_eq (totp_at secret step) code then some step else rest

  abbrev pub totp_step : String → Text → Option ℕ → ℕ → Option ℕ
  totp_step secret code last now =
      if is_code code then first_step secret code last (steps_at now) else none

  -- A factor with the step that matched, or the search among the others
  abbrev pub matched :
      MfaFactor → Option ℕ → Result (Option (MfaFactor × ℕ)) → Result (Option (MfaFactor × ℕ))
  matched f none rest = rest
  matched f (some step) rest = ok (some (f, step))

  -- One factor with a secret: a secret that cannot be decrypted ends the request.
  abbrev pub match_secret :
      MfaFactor
      → Option String
      → Text
      → ℕ
      → Result (Option (MfaFactor × ℕ))
      → Result (Option (MfaFactor × ℕ))
  match_secret f none code now rest = err mfa_unavailable
  match_secret f (some secret) code now rest =
      matched f (totp_step secret code f.last_step now) rest

  abbrev pub match_factor :
      MfaFactor
      → Option String
      → Text
      → ℕ
      → Result (Option (MfaFactor × ℕ))
      → Result (Option (MfaFactor × ℕ))
  match_factor f none code now rest = rest
  match_factor f (some encrypted) code now rest =
      if not (str_eq f.kind "totp") || str_eq encrypted ""
      then rest
      else match_secret f (decrypt encrypted) code now rest

  -- The loop of `verify_code` over the factors of the user
  unfoldable pub match_code : List MfaFactor → Text → ℕ → Result (Option (MfaFactor × ℕ))
  match_code [] code now = ok none
  match_code (f ∷ factors) code now =
      let rest = match_code factors code now in match_factor f f.secret code now rest
