-- ===== src/Limit/Budget.antt =====
-- The budgets: how many consumptions of one window are granted, for one key and over all keys.
use sync_nesto_backend.Base.{
  ℕ, ◌+◌, ◌-◌, ◌≤◌, ◌<◌, ◌≡◌, sym, ◌≢◌, inl, inr, Bool, true, false, ◌&&◌, List, [], ◌∷◌, arith,
  if◌then◌else◌, ◌==◌, All, Option-cases, Bool-cases,
}
use mathlib.Core.Path.{subst}
use sync_nesto_backend.Base.Text.{Text, text_eq, text_eq_iff}
use sync_nesto_backend.Errors.{Result, ok, err}
use sync_nesto_backend.Database.{request}
use sync_nesto_backend.Limit.{Rows, get, purge, window_of, global, consume}
use sync_nesto_backend.Limit.Window.{
  used, purge-IsFresh, purge_fresh, counted, free, used-counted, IsFresh-counted, granted, consumed,
  consume-result,
}

-- A call of `RequestLimitRepository.consume` with the default global limit.
pub record Call : Type 0 where
  pub key : Text
  pub limit : ℕ
  pub now : ℕ

abbrev pub serve : Call → Rows → Result ℕ × Rows
serve call rows = request (consume call.key call.limit 6000 call.now) rows

-- The caller goes on exactly if the answer is 0.
abbrev pub passed : Result ℕ → Bool
passed (ok seconds) = seconds == 0
passed (err e) = false

-- The calls of a key that pass.
abbrev pub passes : Text → List Call → Rows → ℕ
passes key [] rows = 0
passes key (call ∷ calls) rows =
    let (answer, rows') = serve call rows in
    (if text_eq call.key key && passed answer then 1 else 0) + passes key calls rows'

-- The calls of all keys that pass.
abbrev pub passes_all : List Call → Rows → ℕ
passes_all [] rows = 0
passes_all (call ∷ calls) rows =
    let (answer, rows') = serve call rows in
    (if passed answer then 1 else 0) + passes_all calls rows'

-- A refused caller is told to wait for 1 to 60 seconds, to the end of the window.
pub retry_seconds :
    (key : Text) (limit now : ℕ) (rows : Rows) {answer : ℕ}
    → (request (consume key limit 6000 now) rows).0 ≡ ok answer
    → answer ≢ 0
    → (answer ≤ 60) × (now + answer ≡ window_of now + 60)
retry_seconds key limit now rows {answer} h refused =
    elim (Bool-cases (granted key limit 6000 (window_of now) (purge (window_of now) rows))) [
      | inl yes_granted ↦ absurd (refused (ground (arith, consume-result key limit 6000 now rows)))
      | inr not_granted ↦
          let e : answer ≡ 60 - (now - window_of now) =
            ground (arith, consume-result key limit 6000 now rows) in
          omega arith
    ]

wait_pos : (now : ℕ) → 60 - (now - window_of now) ≢ 0
wait_pos now = omega arith

passed-serve :
    (call : Call) (rows : Rows)
    → passed (serve call rows).0
      ≡ granted call.key call.limit 6000 (window_of call.now) (purge (window_of call.now) rows)
passed-serve call rows =
    let window = window_of call.now in
    elim (Bool-cases (granted call.key call.limit 6000 window (purge window rows))) [
      | inl e ↦ ground (arith, consume-result call.key call.limit 6000 call.now rows)
      | inr e ↦
          ground (arith, consume-result call.key call.limit 6000 call.now rows, wait_pos call.now)
    ]

-- The rows that the next call of the same window works on.
purge-serve :
    (call : Call) (rows : Rows)
    → purge (window_of call.now) (serve call rows).1
      ≡ consumed call.key call.limit 6000 (window_of call.now) (purge (window_of call.now) rows)
purge-serve call rows =
    let window = window_of call.now in
    let rows' = purge window rows in
    let fresh = purge-IsFresh window rows in
    let global_fresh = IsFresh-counted global window rows' fresh in
    let both_fresh = IsFresh-counted call.key window (counted global window rows') global_fresh in
    subst
      (λ (r : Result ℕ × Rows). purge window r.1 ≡ consumed call.key call.limit 6000 window rows')
      (sym (consume-result call.key call.limit 6000 call.now rows))
      (elim (Bool-cases (free global 6000 rows')) [
        | inr full ↦ ground (arith, purge_fresh window rows' fresh)
        | inl room ↦ elim (Bool-cases (free call.key call.limit (counted global window rows'))) [
          | inr full ↦ ground (arith, purge_fresh window (counted global window rows') global_fresh)
          | inl free_key ↦ ground (
            arith,
            purge_fresh window (counted call.key window (counted global window rows')) both_fresh,
          )
        ]
      ])

-- A granted increment was below the limit.
free-used :
    (key : Text) (limit : ℕ) (rows : Rows)
    → 0 < limit
    → free key limit rows ≡ true
    → used key rows < limit
free-used key limit rows pos h = elim (Option-cases (get key rows)) [
  | inl e ↦ ground arith
  | inr (row, e) ↦ ground arith
]

-- One call for the budget of a key with this limit: what is used stays within the limit, and grows
-- by one if the call is the key's and passes.
used-consumed :
    (key : Text) (limit : ℕ) (call : Call) (window : ℕ) (rows : Rows)
    → 0 < limit
    → key ≢ global
    → call.key ≢ global
    → (call.key ≡ key → call.limit ≡ limit)
    → used key rows ≤ limit
    → let rows' = consumed call.key call.limit 6000 window rows in
      (used key rows' ≤ limit)
      × (used key rows
            + (if text_eq call.key key && granted call.key call.limit 6000 window rows
                then 1
                else 0)
          ≤ used key rows')
used-consumed key limit call window rows pos ne ne' same h = ground (
  arith,
  used-counted global key window rows,
  used-counted call.key key window (counted global window rows),
  free-used key limit (counted global window rows) pos,
  text_eq_iff global key,
  text_eq_iff call.key key,
)

used-global-consumed :
    (call : Call) (window : ℕ) (rows : Rows)
    → call.key ≢ global
    → used global rows ≤ 6000
    → let rows' = consumed call.key call.limit 6000 window rows in
      (used global rows' ≤ 6000)
      × (used global rows + (if granted call.key call.limit 6000 window rows then 1 else 0)
          ≤ used global rows')
used-global-consumed call window rows ne h = ground (
  arith,
  used-counted global global window rows,
  used-counted call.key global window (counted global window rows),
  free-used global 6000 rows,
  text_eq_iff global global,
  text_eq_iff call.key global,
)

-- The call is made in the window and not with the name of the global row; the calls with `key`
-- have the limit.
abbrev pub IsCall : Text → ℕ → ℕ → Call → Type 0
IsCall key limit window call =
    (window_of call.now ≡ window) × (call.key ≢ global) × (call.key ≡ key → call.limit ≡ limit)

-- In one window, however the calls of all keys are interleaved, the calls of a key that pass and
-- what the key had used before are together at most its limit.
pub passes_le :
    (key : Text) (limit window : ℕ) (calls : List Call) (rows : Rows)
    → 0 < limit
    → key ≢ global
    → All (IsCall key limit window) calls
    → used key (purge window rows) ≤ limit
    → passes key calls rows + used key (purge window rows) ≤ limit
passes_le key limit window [] rows pos ne all small = omega arith
passes_le key limit window (call ∷ calls) rows pos ne (is_call, all) small =
    subst
      (λ (w : ℕ).
        All (IsCall key limit w) calls
        → used key (purge w rows) ≤ limit
        → passes key (call ∷ calls) rows + used key (purge w rows) ≤ limit)
      is_call.0
      (λ all small.
        let rows' = purge (window_of call.now) rows in
        let kept =
          used-consumed key limit call (window_of call.now) rows' pos ne is_call.1 is_call.2
            small in
        let rest =
          passes_le key limit (window_of call.now) calls (serve call rows).1 pos ne all
            (rw (purge-serve call rows) kept.0) in
        let rest' = rw (purge-serve call rows) at rest in rw (passed-serve call rows) (omega arith))
      all small

-- In one window the calls of all keys that pass, and what was used before, are at most 6000.
pub passes_all_le :
    (window : ℕ) (calls : List Call) (rows : Rows)
    → All (λ call. (window_of call.now ≡ window) × (call.key ≢ global)) calls
    → used global (purge window rows) ≤ 6000
    → passes_all calls rows + used global (purge window rows) ≤ 6000
passes_all_le window [] rows all small = omega arith
passes_all_le window (call ∷ calls) rows (is_call, all) small =
    subst
      (λ (w : ℕ).
        All (λ call. (window_of call.now ≡ w) × (call.key ≢ global)) calls
        → used global (purge w rows) ≤ 6000
        → passes_all (call ∷ calls) rows + used global (purge w rows) ≤ 6000)
      is_call.0
      (λ all small.
        let rows' = purge (window_of call.now) rows in
        let kept = used-global-consumed call (window_of call.now) rows' is_call.1 small in
        let rest =
          passes_all_le (window_of call.now) calls (serve call rows).1 all
            (rw (purge-serve call rows) kept.0) in
        let rest' = rw (purge-serve call rows) at rest in rw (passed-serve call rows) (omega arith))
      all small
