-- ===== src/Limit/Rows.antt =====
-- Looking up a row after a write, and a property of all rows.
use sync_nesto_backend.Base.{◌≡◌, refl, some, [], ◌∷◌, arith, if◌then◌else◌, All}
use sync_nesto_backend.Base.Text.{Text, text_eq, text_eq_iff}
use sync_nesto_backend.Limit.{RequestLimit, Rows, get, put}

pub get-put :
    (key : Text) (row : RequestLimit) (rows : Rows)
    → get key (put row rows) ≡ (if text_eq row.key key then some row else get key rows)
get-put key row [] = refl
get-put key row (r ∷ rows) = ground (
  arith,
  get-put key row rows,
  text_eq_iff r.key row.key,
  text_eq_iff r.key key,
  text_eq_iff row.key key,
)

pub get-key :
    (key : Text) (rows : Rows) (row : RequestLimit) → get key rows ≡ some row → row.key ≡ key
get-key key [] row h = cc
get-key key (r ∷ rows) row h = ground (arith, get-key key rows row, text_eq_iff r.key key)

module _ (P : RequestLimit → Type 0) where
  pub All-put : (row : RequestLimit) (rows : Rows) → P row → All P rows → All P (put row rows)
  All-put row [] p h = (p, tt)
  All-put row (r ∷ rows) p h = ground (arith, All-put row rows p h.1)

  pub All-get :
      (key : Text) (rows : Rows) (row : RequestLimit) → get key rows ≡ some row → All P rows → P row
  All-get key [] row e h = cc
  All-get key (r ∷ rows) row e h = ground (arith, All-get key rows row, h.1)
