-- ===== src/Auth/Session/Revoked.antt =====
-- A revoked session stays revoked, and a revocation of a user's sessions leaves none of them.
use sync_nesto_backend.Base.{
  ℕ, ◌≡◌, ◌≢◌, subst⁻¹, inl, inr, String, Bool, true, Option, none, some, List, [], ◌∷◌, arith,
  if◌then◌else◌, ◌==◌, find?, filter, All, length, Bool-cases, Option-cases,
}
use sync_nesto_backend.Base.Text.{Text}
use sync_nesto_backend.Errors.{ok, invalid_token, token_expired}
use sync_nesto_backend.Database.{opened, request}
use sync_nesto_backend.Database.Rules.{raises}
use sync_nesto_backend.Auth.Demo.{UserSession, SessionTables, write, revoked_session, CleanupRun}
use sync_nesto_backend.Auth.Session.{
  Payload, get_session, get_session_id, revoke_expired_session, revoke_demo_of, validate_session,
  is_open, revoke_user_sessions,
}
use sync_nesto_backend.Auth.Session.History.{
  SessionEvent, creates, happen_all, Creates, IsStable, Kept-happen_all,
}

All-find? :
    (P : UserSession → Type 0) (q : UserSession → Bool) (rows : List UserSession)
    (row : UserSession)
    → find? q rows ≡ some row
    → All P rows
    → P row × (q row ≡ true)
All-find? P q [] row e h = cc
All-find? P q (r ∷ rows) row e h = elim (Bool-cases (q r)) [
  | inl found ↦ ground arith
  | inr other ↦ All-find? P q rows row (ground arith) h.1
]

-- What is validated is a session of the table that has not been revoked.
validate_session-open :
    (parse_uuid : Text → Option ℕ) (run : CleanupRun) (payload : Payload) (now : ℕ)
    (t : SessionTables) (s : UserSession)
    → (request (validate_session parse_uuid run payload now) t).0 ≡ ok s
    → (k : ℕ) × (get_session_id parse_uuid payload ≡ some k)
      × (get_session k t ≡ some s)
      × (s.revoked_at ≡ none)
unfolding validate_session
validate_session-open parse_uuid run payload now t s h =
    elim (Option-cases (get_session_id parse_uuid payload)) [
      | inl bad ↦ ground arith
      | inr (k, good) ↦ elim (Option-cases (get_session k t)) [
        | inl gone ↦ ground arith
        | inr (row, found) ↦
            let expired =
              raises (revoke_expired_session run row "expired" now) token_expired (opened t) s in
            let absolute =
              raises (revoke_expired_session run row "absolute_expired" now) token_expired
                (opened t) s in
            let revoked = raises (revoke_demo_of row now) invalid_token (opened t) s in
            elim (Option-cases row.revoked_at) [
              | inr (at, over) ↦ absurd (revoked (ground arith))
              | inl running ↦
                  let same : row ≡ s = ground arith in (k, good, ground arith, ground arith)
            ]
      ]
    ]

-- `Hit` selects sessions by id and user.
module _ (Hit : ℕ → ℕ → Type 0) where
  abbrev IsClosed : UserSession → Type 0
  IsClosed s = Hit s.id s.user_id → s.revoked_at ≢ none

  IsClosed-IsStable : IsStable IsClosed
  IsClosed-IsStable = record {
    on_revoke = λ reason now s h hit e. cc;
    on_extend = λ next now s h. h;
    on_touch = λ now s h. h;
  }

  abbrev Misses : SessionEvent → Type 0
  Misses (creates settings id user_id method version commits now) = ¬ Hit id user_id
  Misses _ = Unit

  Creates-IsClosed : (event : SessionEvent) → Misses event → Creates IsClosed event
  Creates-IsClosed (creates settings id user_id none version commits now) misses =
      λ hit. absurd (misses hit)
  Creates-IsClosed (creates settings id user_id (some m) version commits now) misses =
      λ hit. absurd (misses hit)
  Creates-IsClosed _ misses = tt

  All-Creates : (events : List SessionEvent) → All Misses events → All (Creates IsClosed) events
  All-Creates [] m = tt
  All-Creates (event ∷ events) m = (Creates-IsClosed event m.0, All-Creates events m.1)

  validate_session-closed :
      (parse_uuid : Text → Option ℕ) (events : List SessionEvent) (t : SessionTables)
      → All Misses events
      → All IsClosed t.sessions
      → (run : CleanupRun) (payload : Payload) (now : ℕ) (s : UserSession)
      → (request (validate_session parse_uuid run payload now) (happen_all parse_uuid events t)).0
        ≡ ok s
      → (k : ℕ) × (get_session_id parse_uuid payload ≡ some k) × (s.id ≡ k) × ¬ Hit s.id s.user_id
  validate_session-closed parse_uuid events t misses closed run payload now s h =
      let t' = happen_all parse_uuid events t in
      let (k, named, found, running) = validate_session-open parse_uuid run payload now t' s h in
      let kept =
        Kept-happen_all parse_uuid IsClosed IsClosed-IsStable events t (All-Creates events misses)
          closed in
      let (c, same) = All-find? IsClosed (λ r. r.id == k) t'.sessions s found kept in
      (k, named, ground arith, λ hit. c hit running)

-- No event creates a session with this id, or for this user.
abbrev pub NewId : ℕ → SessionEvent → Type 0
NewId k event = Misses (λ id user_id. id ≡ k) event

abbrev pub NotFor : ℕ → SessionEvent → Type 0
NotFor user event = Misses (λ id user_id. user_id ≡ user) event

-- If every session with an id has been revoked, then after every history that creates no session
-- with this id no token that names it is accepted, at any time.
pub revoked_forever :
    (parse_uuid : Text → Option ℕ) (k : ℕ) (events : List SessionEvent) (t : SessionTables)
    → All (λ s. s.id ≡ k → s.revoked_at ≢ none) t.sessions
    → All (NewId k) events
    → (run : CleanupRun) (payload : Payload) (now : ℕ) (s : UserSession)
    → get_session_id parse_uuid payload ≡ some k
    → (request (validate_session parse_uuid run payload now) (happen_all parse_uuid events t)).0
      ≢ ok s
revoked_forever parse_uuid k events t closed new run payload now s named h =
    let (k', named', same, misses) =
      validate_session-closed (λ id user_id. id ≡ k) parse_uuid events t new closed run payload now
        s h in
    misses (ground arith)

All-revoked :
    (user : ℕ) (reason : String) (now : ℕ) (rows : List UserSession)
    → All
        (λ s. s.user_id ≡ user → s.revoked_at ≢ none)
        (write (is_open user) (revoked_session reason now) rows)
All-revoked user reason now [] = tt
All-revoked user reason now (s ∷ rows) = (one s, All-revoked user reason now rows)
  where
    one :
        (s : UserSession)
        → (let s' = if is_open user s then revoked_session reason now s else s in
            s'.user_id ≡ user → s'.revoked_at ≢ none)
    one s = ground arith

All-none_open :
    (user : ℕ) (rows : List UserSession)
    → length (filter (is_open user) rows) ≡ 0
    → All (λ s. s.user_id ≡ user → s.revoked_at ≢ none) rows
All-none_open user [] h = tt
All-none_open user (s ∷ rows) h = elim (Bool-cases (is_open user s)) [
  | inl found ↦ ground arith
  | inr other ↦ (λ same e. ground arith, All-none_open user rows (ground arith))
]

revoke_user_sessions-rows :
    (user : ℕ) (reason : String) (at : ℕ) (t : SessionTables)
    → All
        (λ s. s.user_id ≡ user → s.revoked_at ≢ none)
        (request (revoke_user_sessions user reason true at) t).1.sessions
unfolding revoke_user_sessions
revoke_user_sessions-rows user reason at t =
    elim (Bool-cases (length (filter (is_open user) t.sessions) == 0)) [
      | inl none_open ↦
          let same : (request (revoke_user_sessions user reason true at) t).1.sessions
              ≡ t.sessions =
            ground arith in
          subst⁻¹ (All (λ s. s.user_id ≡ user → s.revoked_at ≢ none)) same
            (All-none_open user t.sessions (ground arith))
      | inr some_open ↦
          let written : (request (revoke_user_sessions user reason true at) t).1.sessions
              ≡ write (is_open user) (revoked_session reason at) t.sessions =
            ground arith in
          subst⁻¹ (All (λ s. s.user_id ≡ user → s.revoked_at ≢ none)) written
            (All-revoked user reason at t.sessions)
    ]

-- After the committed revocation of the sessions of a user, and every history that creates no
-- session for the user, every session that is accepted is another user's.
pub revoke_user_sessions-others :
    (parse_uuid : Text → Option ℕ) (user : ℕ) (reason : String) (at : ℕ)
    (events : List SessionEvent) (t : SessionTables)
    → All (NotFor user) events
    → (run : CleanupRun) (payload : Payload) (now : ℕ) (s : UserSession)
    → let t' = (request (revoke_user_sessions user reason true at) t).1 in
      (request (validate_session parse_uuid run payload now) (happen_all parse_uuid events t')).0
        ≡ ok s
      → s.user_id ≢ user
revoke_user_sessions-others parse_uuid user reason at events t new run payload now s h =
    let t' = (request (revoke_user_sessions user reason true at) t).1 in
    let closed = revoke_user_sessions-rows user reason at t in
    let (k, named, same, misses) =
      validate_session-closed (λ id user_id. user_id ≡ user) parse_uuid events t' new closed run
        payload now s h in
    misses
