-- ===== src/Limit/Window.antt =====
-- One consumption, stated by the counts of the rows of the current window.
use sync_nesto_backend.Base.{
  ℕ, ◌+◌, ◌-◌, ◌≤◌, ◌<◌, ◌≡◌, refl, inl, inr, Bool, true, ◌&&◌, none, some, [], ◌∷◌, arith,
  if◌then◌else◌, ltb, All, Option-cases, Bool-cases,
}
use sync_nesto_backend.Base.Text.{Text, text_eq, text_eq_iff}
use sync_nesto_backend.Errors.{ok}
use sync_nesto_backend.Database.{request}
use sync_nesto_backend.Limit.{RequestLimit, Rows, get, put, purge, window_of, global, consume}
use sync_nesto_backend.Limit.Rows.{get-put, get-key, All-put, All-get}

-- What a key has used: the count of its row.
abbrev pub used : Text → Rows → ℕ
used key rows = elim (get key rows) [ none ↦ 0 | some row ↦ row.count ]

-- Every row is of this window or a later one.
abbrev pub IsFresh : ℕ → Rows → Type 0
IsFresh window rows = All (λ row. window ≤ row.window_start) rows

pub purge-IsFresh : (window : ℕ) (rows : Rows) → IsFresh window (purge window rows)
purge-IsFresh window [] = tt
purge-IsFresh window (row ∷ rows) = ground (arith, purge-IsFresh window rows)

pub purge_fresh : (window : ℕ) (rows : Rows) → IsFresh window rows → purge window rows ≡ rows
purge_fresh window [] h = refl
purge_fresh window (row ∷ rows) h = ground (arith, purge_fresh window rows h.1)

-- Every row that exists has been counted at least once.
abbrev pub IsCounted : Rows → Type 0
IsCounted rows = All (λ row. 0 < row.count) rows

-- The rows after an increment that is granted.
abbrev pub counted : Text → ℕ → Rows → Rows
counted key window rows = elim (get key rows) [
  | none ↦ put (record { key = key; window_start = window; count = 1 }) rows
  | some row ↦ put (record row { count = row.count + 1 }) rows
]

-- Whether an increment is granted.
abbrev pub free : Text → ℕ → Rows → Bool
free key limit rows = elim (get key rows) [ none ↦ true | some row ↦ ltb row.count limit ]

pub used-counted :
    (key other : Text) (window : ℕ) (rows : Rows)
    → used other (counted key window rows)
      ≡ (if text_eq key other then used other rows + 1 else used other rows)
used-counted key other window rows = elim (Option-cases (get key rows)) [
  | inl e ↦ ground (
    arith,
    get-put other (record { key = key; window_start = window; count = 1 }) rows,
    text_eq_iff key other,
  )
  | inr (row, e) ↦ ground (
    arith,
    get-put other (record row { count = row.count + 1 }) rows,
    get-key key rows row e,
    text_eq_iff key other,
  )
]

pub IsFresh-counted :
    (key : Text) (window : ℕ) (rows : Rows)
    → IsFresh window rows
    → IsFresh window (counted key window rows)
IsFresh-counted key window rows h = elim (Option-cases (get key rows)) [
  | inl e ↦
      let row : RequestLimit = record { key = key; window_start = window; count = 1 } in
      ground (arith, All-put (λ row. window ≤ row.window_start) row rows (omega arith) h)
  | inr (row, e) ↦ ground (
    arith,
    All-put (λ row. window ≤ row.window_start) (record row { count = row.count + 1 }) rows
        (All-get (λ row. window ≤ row.window_start) key rows row e h) h,
  )
]

-- Whether a consumption is granted, in the rows of the window.
abbrev pub granted : Text → ℕ → ℕ → ℕ → Rows → Bool
granted key limit global_limit window rows =
    free global global_limit rows && free key limit (counted global window rows)

-- The rows after a consumption.
abbrev pub consumed : Text → ℕ → ℕ → ℕ → Rows → Rows
consumed key limit global_limit window rows =
    if free global global_limit rows
    then if free key limit (counted global window rows)
      then counted key window (counted global window rows)
      else counted global window rows
    else rows

-- A consumption works on the rows of its window: it returns 0 if it is granted, else the seconds
-- to the end of the window.
pub consume-result :
    (key : Text) (limit global_limit now : ℕ) (rows : Rows)
    → let window = window_of now in
      request (consume key limit global_limit now) rows ≡ (
        ok (
            if granted key limit global_limit window (purge window rows)
            then 0
            else 60 - (now - window)),
        consumed key limit global_limit window (purge window rows),
      )
unfolding consume
consume-result key limit global_limit now rows =
    let window = window_of now in
    let rows' = purge window rows in
    elim (Bool-cases (free global global_limit rows')) [
      | inr full ↦ elim (Option-cases (get global rows')) [
        | inl e ↦ ground arith
        | inr (row, e) ↦ ground arith
      ]
      | inl room ↦ elim (Option-cases (get global rows')) [
        | inl e ↦ elim (Option-cases (get key (counted global window rows'))) [
          | inl e' ↦ ground arith
          | inr (row, e') ↦ ground arith
        ]
        | inr (row, e) ↦ elim (Option-cases (get key (counted global window rows'))) [
          | inl e' ↦ ground arith
          | inr (row', e') ↦ ground arith
        ]
      ]
    ]
