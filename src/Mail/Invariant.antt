-- ===== src/Mail/Invariant.antt =====
-- The invariant of the deliveries, kept by every entry point: a row that waits has made at most
-- three attempts, no row more than four, and a running row has its token and its lease.
use sync_nesto_backend.Base.{
  ℕ, zero, suc, ◌+◌, ◌≤◌, ◌≡◌, refl, ◌≢◌, inl, inr, Bool, true, false, ◌&&◌, Option, none, some,
  List, [], ◌∷◌, arith, ◌==◌, opt_eq, find?, filter, All, Bool-cases, Option-cases,
}
use sync_nesto_backend.Database.{begin}
use sync_nesto_backend.Database.Rules.{Keeps, Keeps->>=}
use sync_nesto_backend.Mail.Tables.{
  DeliveryState, pending, leased, sending, retry_wait, accepted, unknown, failed, suppressed,
  Delivery, Outcome, MailOutcome, MailTables, put, insert,
}
use sync_nesto_backend.Mail.Delivery.{
  Eligible, new_delivery, enqueue_notification_email, is_running, is_waiting, lease_over, take,
  recover_as, recover_all, first_due, claimed_row, claim, expired_rows, recover_and_claim, counted,
  retry_delay, finished, finish,
}

abbrev pub Fits : DeliveryState → ℕ → Option ℕ → Option ℕ → Type 0
Fits pending n token lease = n ≤ 3
Fits retry_wait n token lease = n ≤ 3
Fits leased n token lease = (n ≤ 3) × (token ≢ none) × (lease ≢ none)
Fits sending n token lease = (1 ≤ n) × (n ≤ 4) × (token ≢ none) × (lease ≢ none)
Fits unknown n token lease = (1 ≤ n) × (n ≤ 4) × (token ≢ none) × (lease ≢ none)
Fits accepted n token lease = n ≤ 4
Fits failed n token lease = n ≤ 4
Fits suppressed n token lease = n ≤ 4

abbrev pub IsValid : Delivery → Type 0
IsValid d = Fits d.state d.attempt_count d.claim_token d.lease_until

abbrev pub AllValid : MailTables → Type 0
AllValid t = All IsValid t.deliveries

module _ (P : Delivery → Type 0) where
  pub All-put : (row : Delivery) (rows : List Delivery) → P row → All P rows → All P (put row rows)
  All-put row [] p h = tt
  All-put row (r ∷ rows) p h = ground (arith, All-put row rows p h.1)

  pub All-insert :
      (row : Delivery) (rows : List Delivery) → P row → All P rows → All P (insert row rows)
  All-insert row [] p h = (p, tt)
  All-insert row (r ∷ rows) p h = ground (arith, All-insert row rows p h.1)

  pub All-filter :
      (q : Delivery → Bool) (rows : List Delivery)
      → All P rows
      → All (λ d. P d × (q d ≡ true)) (filter q rows)
  All-filter q [] h = tt
  All-filter q (r ∷ rows) h = ground (arith, All-filter q rows h.1)

  pub All-take : (n : ℕ) (rows : List Delivery) → All P rows → All P (take n rows)
  All-take zero rows h = tt
  All-take (suc n) [] h = tt
  All-take (suc n) (r ∷ rows) h = (h.0, All-take n rows h.1)

  pub All-find? :
      (q : Delivery → Bool) (rows : List Delivery) (row : Delivery)
      → find? q rows ≡ some row
      → All P rows
      → P row × (q row ≡ true)
  All-find? q [] row e h = cc
  All-find? q (r ∷ rows) row e h = elim (Bool-cases (q r)) [
    | inl found ↦ ground arith
    | inr other ↦ All-find? q rows row (ground arith) h.1
  ]

  pub first_due-due :
      (now : ℕ) (rows : List Delivery) (row : Delivery)
      → first_due now rows ≡ some row
      → All P rows
      → P row × (is_waiting row.state ≡ true) × (row.next_attempt_at ≤ now)
  first_due-due now [] row e h = cc
  first_due-due now (r ∷ rows) row e h = elim (Option-cases (first_due now rows)) [
    | inl last ↦ ground arith
    | inr (other, found) ↦ ground (arith, first_due-due now rows other found h.1)
  ]

pub enqueue-AllValid :
    (available : Bool) (value : Option Eligible) (identity notification_id now : ℕ) (t : MailTables)
    → AllValid t
    → AllValid (begin (enqueue_notification_email available value identity notification_id now) t).1
unfolding enqueue_notification_email
enqueue-AllValid false value identity notification_id now t h = h
enqueue-AllValid true none identity notification_id now t h = h
enqueue-AllValid true (some e) identity notification_id now t h =
    let row = new_delivery identity notification_id now e in
    ground (arith, All-insert IsValid row t.deliveries (omega arith) h)

-- The rows that the recovery works on.
abbrev IsRecoverable : ℕ → Delivery → Type 0
IsRecoverable now d = IsValid d × ((is_running d.state && lease_over d.lease_until now) ≡ true)

recover_as-AllValid :
    (now : ℕ) (row : Delivery) → IsRecoverable now row → Keeps AllValid (recover_as row.state row)
recover_as-AllValid now row v s h = by_state row.state refl
  where
    by_state : (st : DeliveryState) → row.state ≡ st → AllValid (recover_as st row s).1.pending
    by_state sending e = elim (Option-cases row.claim_token) [
      | inl none_there ↦ ground arith
      | inr (token, there) ↦ ground (
        arith,
        All-put IsValid (record row { state = unknown; version = row.version + 1 })
            s.pending.deliveries,
      )
    ]
    by_state leased e = ground (
      arith,
      All-put IsValid
          (record row {
            state = pending;
            claim_token = none;
            lease_until = none;
            version = row.version + 1;
          })
          s.pending.deliveries,
    )
    by_state _ e = ground arith

recover_all-AllValid :
    (now : ℕ) (rows : List Delivery)
    → All (IsRecoverable now) rows
    → Keeps AllValid (recover_all rows)
recover_all-AllValid now [] v = λ s h. h
recover_all-AllValid now (row ∷ rows) v =
    Keeps->>= AllValid (recover_as row.state row) (λ _. recover_all rows)
      (recover_as-AllValid now row v.0) (λ _. recover_all-AllValid now rows v.1)

claimed_row-IsValid :
    (row : Delivery) (token now : ℕ)
    → IsValid row
    → is_waiting row.state ≡ true
    → IsValid (claimed_row row token now)
claimed_row-IsValid row token now v w = ground arith

claim-AllValid : (now token : ℕ) → Keeps AllValid (claim now token)
claim-AllValid now token s h = elim (Option-cases (first_due now s.pending.deliveries)) [
  | inl idle ↦ ground arith
  | inr (row, due) ↦
      let (valid, waits, _) = first_due-due IsValid now s.pending.deliveries row due h in
      ground (
        arith,
        All-put IsValid (claimed_row row token now) s.pending.deliveries
            (claimed_row-IsValid row token now valid waits) h,
      )
]

pub recover_and_claim-AllValid : (now token : ℕ) → Keeps AllValid (recover_and_claim now token)
unfolding recover_and_claim
recover_and_claim-AllValid now token s h =
    let rows = s.pending.deliveries in
    let expired =
      All-take (IsRecoverable now) 20 _
        (All-filter IsValid (λ d. is_running d.state && lease_over d.lease_until now) rows h) in
    Keeps->>= AllValid (recover_all (expired_rows now rows)) (λ _. claim now token)
      (recover_all-AllValid now (expired_rows now rows) expired) (λ _. claim-AllValid now token) s h

finished-IsValid :
    (outcome : Outcome) (now : ℕ) (row row' : Delivery)
    → IsValid row
    → is_running row.state ≡ true
    → finished outcome now (counted row) ≡ some row'
    → IsValid row'
finished-IsValid outcome now row row' v r e = by_state row.state refl
  where
    by_state : (st : DeliveryState) → row.state ≡ st → IsValid row'
    by_state leased e' = ground arith
    by_state sending e' = ground arith
    by_state _ e' = ground arith

pub retry_delay_total : (n : ℕ) → n ≤ 3 → retry_delay n ≢ none
retry_delay_total zero h e = cc
retry_delay_total (suc zero) h e = cc
retry_delay_total (suc (suc zero)) h e = cc
retry_delay_total (suc (suc (suc zero))) h e = cc
retry_delay_total (suc (suc (suc (suc n)))) h e = omega arith

-- The end of an attempt never indexes outside the list of delays, whatever the row and the outcome.
pub finished_total :
    (outcome : Outcome) (now : ℕ) (row : Delivery) → finished outcome now row ≢ none
finished_total outcome now row e = ground (arith, retry_delay_total row.attempt_count)

pub finish-AllValid :
    (identity : ℕ) (token : Option ℕ) (result : MailOutcome) (now : ℕ)
    → Keeps AllValid (finish identity token result now)
unfolding finish
finish-AllValid identity token result now s h =
    let test =
      λ (d : Delivery). d.id == identity && opt_eq d.claim_token token && is_running d.state in
    elim (Option-cases (find? test s.pending.deliveries)) [
      | inl gone ↦ ground arith
      | inr (row, found) ↦ elim (Option-cases (finished result.outcome now (counted row))) [
        | inl e ↦ absurd (finished_total result.outcome now (counted row) e)
        | inr (row', e) ↦
            let (valid, tested) = All-find? IsValid test s.pending.deliveries row found h in
            let valid' = finished-IsValid result.outcome now row row' valid (ground arith) e in
            ground (arith, All-put IsValid row' s.pending.deliveries valid' h)
      ]
    ]
