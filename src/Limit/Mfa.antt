-- ===== src/Limit/Mfa.antt =====
-- The budget of the second factor: `consume_mfa_budget` bounds the attempts of one user.
use sync_nesto_backend.Base.{
  ℕ, ◌+◌, ◌≤◌, ◌≡◌, refl, ◌∙◌, ◌≢◌, inl, inr, Bool, true, false, ◌&&◌, List, [], ◌∷◌, arith,
  if◌then◌else◌, All, Bool-cases,
}
use mathlib.Core.Path.{subst}
use sync_nesto_backend.Base.Text.{Text, text_eq, text_eq_iff, text_eq_refl}
use sync_nesto_backend.Errors.{Result, ok, err}
use sync_nesto_backend.Limit.{Rows, purge, window_of, global, scoped, consume_mfa_budget}
use sync_nesto_backend.Limit.Window.{used}
use sync_nesto_backend.Limit.Budget.{Call, serve, passed, passes, IsCall, passes_le}

scoped_ne_global : (digest : Text) → scoped "mfa-user" digest ≢ global
scoped_ne_global digest h = cc

ip_ne_global : (digest : Text) → scoped "mfa-ip" digest ≢ global
ip_ne_global digest h = cc

user_ne_ip : (digest digest' : Text) → scoped "mfa-ip" digest' ≢ scoped "mfa-user" digest
user_ne_ip digest digest' h =
    let e : false ≡ true = (text_eq_iff (scoped "mfa-ip" digest') (scoped "mfa-user" digest)).1 h in
    cc

-- An attempt: whose, from where, and the clock at the two consumptions.
pub record Attempt : Type 0 where
  pub identifier : Text
  pub client_ip : Text
  pub now : ℕ
  pub now' : ℕ

abbrev pub is_ok : Result Unit → Bool
is_ok (ok _) = true
is_ok (err e) = false

module _ (hmac : Text → Text → Text) (lower : Text → Text) (secret demo_secret : Text) where
  abbrev pub attempt : Attempt → Rows → Result Unit × Rows
  attempt a rows =
      consume_mfa_budget hmac lower secret demo_secret a.identifier a.client_ip a.now a.now' rows

  -- The attempts of an identifier that are let through.
  abbrev pub let_through : Text → List Attempt → Rows → ℕ
  let_through identifier [] rows = 0
  let_through identifier (a ∷ attempts) rows =
      let (result, rows') = attempt a rows in
      (if text_eq a.identifier identifier && is_ok result then 1 else 0)
      + let_through identifier attempts rows'

  user_call : Attempt → Call
  user_call a = record {
    key = scoped "mfa-user" (hmac secret a.identifier);
    limit = 10;
    now = a.now;
  }

  ip_call : Attempt → Call
  ip_call a = record { key = scoped "mfa-ip" (hmac secret a.client_ip); limit = 30; now = a.now' }

  -- The consumptions that an attempt makes: the second only if the first passes.
  calls_of : Attempt → Rows → List Call
  calls_of a rows =
      user_call a ∷ (if passed (serve (user_call a) rows).0 then ip_call a ∷ [] else [])

  trace : List Attempt → Rows → List Call
  unfolding calls_of
  trace [] rows = []
  trace (a ∷ attempts) rows =
      let rest = trace attempts (attempt a rows).1 in
      user_call a ∷ (if passed (serve (user_call a) rows).0 then ip_call a ∷ rest else rest)

  -- Both clocks of the attempt are in the window.
  abbrev pub InWindow : ℕ → Attempt → Type 0
  InWindow window a = (window_of a.now ≡ window) × (window_of a.now' ≡ window)

  trace-IsCall :
      (identifier : Text) (window : ℕ) (attempts : List Attempt) (rows : Rows)
      → All (InWindow window) attempts
      → All (IsCall (scoped "mfa-user" (hmac secret identifier)) 10 window) (trace attempts rows)
  unfolding trace user_call ip_call
  trace-IsCall identifier window [] rows all = tt
  trace-IsCall identifier window (a ∷ attempts) rows all =
      let user = hmac secret a.identifier in
      let ip = hmac secret a.client_ip in
      let rest = trace-IsCall identifier window attempts (attempt a rows).1 all.1 in
      (
        (all.0.0, scoped_ne_global user, λ _. refl),
        elim (Bool-cases (passed (serve (user_call a) rows).0)) [
          | inl e ↦ rw e (
            (
              all.0.1,
              ip_ne_global ip,
              λ same. absurd (user_ne_ip (hmac secret identifier) ip same),
            ),
            rest,
          )
          | inr e ↦ rw e rest
        ],
      )

  -- An attempt makes these consumptions and passes if they do.
  attempt-calls :
      (a : Attempt) (rows : Rows)
      → let (first, rows') = serve (user_call a) rows in
        let (second, rows'') = serve (ip_call a) rows' in
        (is_ok (attempt a rows).0 ≡ (passed first && passed second))
        × ((attempt a rows).1 ≡ (if passed first then rows'' else rows'))
  unfolding consume_mfa_budget user_call ip_call
  attempt-calls a rows = ground arith

  same_user :
      (identifier : Text) (a : Attempt)
      → text_eq a.identifier identifier ≡ true
      → text_eq (user_call a).key (scoped "mfa-user" (hmac secret identifier)) ≡ true
  unfolding user_call
  same_user identifier a h =
      rw ((text_eq_iff a.identifier identifier).0 h) (text_eq_refl (hmac secret identifier))

  let_through-le-passes :
      (identifier : Text) (attempts : List Attempt) (rows : Rows)
      → let_through identifier attempts rows
        ≤ passes (scoped "mfa-user" (hmac secret identifier)) (trace attempts rows) rows
  unfolding trace
  let_through-le-passes identifier [] rows = omega arith
  let_through-le-passes identifier (a ∷ attempts) rows =
      let key = scoped "mfa-user" (hmac secret identifier) in
      let left = attempt a rows in
      let (_, first) = serve (user_call a) rows in
      let parts = attempt-calls a rows in
      let moved = λ (r : Rows) (step : left.1 ≡ r).
        subst (λ x. let_through identifier attempts left.1 ≤ passes key (trace attempts left.1) x)
          step (let_through-le-passes identifier attempts left.1) in
      elim (Bool-cases (passed (serve (user_call a) rows).0)) [
        | inl e ↦
            let rest = moved (serve (ip_call a) first).1 (parts.1 ∙ rw e refl) in
            rw e (ground (arith, same_user identifier a))
        | inr e ↦
            let rest = moved first (parts.1 ∙ rw e refl) in
            rw e (ground (arith, same_user identifier a))
      ]

  -- In one window in which the budget of a user is unused before the attempts, at most ten attempts
  -- for this user are let through, from whatever addresses they
  -- come and however they are mixed with attempts for others.
  pub mfa_budget :
      (identifier : Text) (window : ℕ) (attempts : List Attempt) (rows : Rows)
      → All (InWindow window) attempts
      → used (scoped "mfa-user" (hmac secret identifier)) (purge window rows) ≡ 0
      → let_through identifier attempts rows ≤ 10
  mfa_budget identifier window attempts rows all unused = omega (
    arith,
    let_through-le-passes identifier attempts rows,
    passes_le (scoped "mfa-user" (hmac secret identifier)) 10 window (trace attempts rows) rows
        (omega arith) (scoped_ne_global (hmac secret identifier))
        (trace-IsCall identifier window attempts rows all) (omega arith),
  )
