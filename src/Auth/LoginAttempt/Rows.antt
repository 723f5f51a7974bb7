-- ===== src/Auth/LoginAttempt/Rows.antt =====
-- Looking up a row after a write, and a property of every row under a write.
use sync_nesto_backend.Base.{◌≡◌, refl, some, [], ◌∷◌, arith, if◌then◌else◌, All}
use sync_nesto_backend.Base.Text.{Text, text_eq, text_eq_iff}
use sync_nesto_backend.Auth.LoginAttempt.{LoginAttempt, Rows, get_by_email, put}

pub get_by_email-put :
    (email : Text) (row : LoginAttempt) (rows : Rows)
    → get_by_email email (put row rows)
      ≡ (if text_eq row.email email then some row else get_by_email email rows)
get_by_email-put email row [] = refl
get_by_email-put email row (r ∷ rows) = ground (
  arith,
  get_by_email-put email row rows,
  text_eq_iff r.email row.email,
  text_eq_iff r.email email,
  text_eq_iff row.email email,
)

pub get_by_email-email :
    (email : Text) (rows : Rows) (row : LoginAttempt)
    → get_by_email email rows ≡ some row
    → row.email ≡ email
get_by_email-email email [] row h = cc
get_by_email-email email (r ∷ rows) row h =
    ground (arith, get_by_email-email email rows row, text_eq_iff r.email email)

module _ (P : LoginAttempt → Type 0) where
  pub All-put : (row : LoginAttempt) (rows : Rows) → P row → All P rows → All P (put row rows)
  All-put row [] p h = (p, tt)
  All-put row (r ∷ rows) p h = ground (arith, All-put row rows p h.1)

  pub All-get_by_email :
      (email : Text) (rows : Rows) (row : LoginAttempt)
      → get_by_email email rows ≡ some row
      → All P rows
      → P row
  All-get_by_email email [] row e h = cc
  All-get_by_email email (r ∷ rows) row e h = ground (arith, All-get_by_email email rows row, h.1)
