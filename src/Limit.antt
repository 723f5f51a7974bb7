-- ===== src/Limit.antt =====
-- Request budgets: app/services/request_limit.py over app/repositories/request_limit.py. `now` is
-- the clock of the database in whole seconds, and each call runs in a transaction of its own.
pub mod Rows
pub mod Window
pub mod Budget
pub mod Mfa
use sync_nesto_backend.Base.{
  ℕ, ◌+◌, ◌-◌, ◌*◌, ◌/◌, Bool, true, false, not, Option, none, some, List, [], ◌∷◌, ◌++◌,
  if◌then◌else◌, ltb, ◌==◌, find?, filter, String,
}
use sync_nesto_backend.Base.Text.{Text, text_eq, codes}
use sync_nesto_backend.Errors.{Result, ok, err, rate_limited}
use sync_nesto_backend.Database.{Action, pure, gets, modify, commit, request, ◌>>=◌, ◌>>◌}

pub record RequestLimit : Type 0 where
  pub key : Text
  pub window_start : ℕ
  pub count : ℕ

-- The table `request_limits`, whose primary key is `key`.
abbrev pub Rows : Type 0
Rows = List RequestLimit

abbrev pub get : Text → Rows → Option RequestLimit
get key rows = find? (λ row. text_eq row.key key) rows

abbrev pub put : RequestLimit → Rows → Rows
put row [] = row ∷ []
put row (r ∷ rows) = if text_eq r.key row.key then row ∷ rows else r ∷ put row rows

-- `_increment`: the upsert inserts a row with count 1, or adds 1 to a count below the limit, or
-- changes nothing and returns no row.
abbrev pub increment : Text → ℕ → ℕ → Action Rows Bool
increment key window limit = do
  found ← gets (get key)
  elim found [
    | none ↦ do modify (put (record { key = key; window_start = window; count = 1 })); pure true
    | some row ↦
        if ltb row.count limit
        then (do modify (put (record row { count = row.count + 1 })); pure true)
        else pure false
  ]

-- `delete(RequestLimit).where(RequestLimit.window_start < window)`
abbrev pub purge : ℕ → Rows → Rows
purge window rows = filter (λ row. not (ltb row.window_start window)) rows

-- `now // 60 * 60`
abbrev pub window_of : ℕ → ℕ
window_of now = now / 60 * 60

abbrev pub global : Text
global = codes "global"

unfoldable pub consume : Text → ℕ → ℕ → ℕ → Action Rows ℕ
consume key limit global_limit now = do
  let window = window_of now
  modify (purge window)
  global_allowed ← increment global window global_limit
  allowed ← if global_allowed then increment key window limit else pure false
  commit
  pure (if allowed then 0 else 60 - (now - window))

-- f"{scope}:{digest}"
abbrev pub scoped : String → Text → Text
scoped scope digest = codes scope ++ (b':' ∷ digest)

-- `hmac secret text` is the hexadecimal HMAC-SHA256, and `lower` is `str.lower`.
module _ (hmac : Text → Text → Text) (lower : Text → Text) (secret_key demo_secret_key : Text) where
  pub consume_request_budget : Text → Bool → Bool → ℕ → Rows → Result ℕ × Rows
  unfolding consume
  consume_request_budget client_ip login demo now rows =
      let scope = if login then "login" else "api" in
      let digest = hmac (if demo then demo_secret_key else secret_key) client_ip in
      request (consume (scoped scope digest) (if login then 10 else 240) 6000 now) rows

  -- One round of the loops below: a consumption in its own transaction.
  abbrev pub consume_or_raise : String → Text → ℕ → ℕ → Rows → Result Unit × Rows
  consume_or_raise scope value limit now rows =
      let (wait, rows') =
        request (consume (scoped scope (hmac secret_key value)) limit 6000 now) rows in
      elim wait [
        | ok seconds ↦ (if seconds == 0 then ok tt else err rate_limited, rows')
        | err e ↦ (err e, rows')
      ]

  -- The second round runs if the first one did not raise.
  abbrev pub and_then : Result Unit × Rows → (Rows → Result Unit × Rows) → Result Unit × Rows
  and_then (ok _, rows) next = next rows
  and_then (err e, rows) next = (err e, rows)

  pub consume_email_request_budget : Text → Text → ℕ → ℕ → Rows → Result Unit × Rows
  consume_email_request_budget identifier client_ip now now' rows =
      and_then (consume_or_raise "email-recipient" (lower identifier) 2 now rows)
        (consume_or_raise "email-ip" client_ip 5 now')

  unfoldable pub consume_mfa_budget : Text → Text → ℕ → ℕ → Rows → Result Unit × Rows
  consume_mfa_budget identifier client_ip now now' rows =
      and_then (consume_or_raise "mfa-user" identifier 10 now rows)
        (consume_or_raise "mfa-ip" client_ip 30 now')
