-- ===== src/Mail/Settled.antt =====
-- What the worker never touches: a delivery whose result is known, or that waits for an operator
-- because its result is not.
use sync_nesto_backend.Base.{
  ℕ, ◌+◌, ◌≡◌, refl, ◌≢◌, inl, inr, Bool, true, false, ◌&&◌, Option, none, some, List, [], ◌∷◌,
  arith, ◌==◌, opt_eq, find?, filter, All, Option-cases,
}
use sync_nesto_backend.Errors.{Result, ok, err}
use sync_nesto_backend.Database.{begin}
use sync_nesto_backend.Database.Rules.{Keeps, Keeps->>=, begin-keeps}
use sync_nesto_backend.Mail.Tables.{
  DeliveryState, pending, leased, sending, unknown, Delivery, Outcome, MailOutcome, MailTables, put,
  get,
}
use sync_nesto_backend.Mail.Delivery.{
  is_running, lease_over, recover_as, recover_all, first_due, claimed_row, claim, expired_rows,
  recover_and_claim, counted, finished, finish,
}
use sync_nesto_backend.Mail.Worker.{
  Sent, returned, raised, Surroundings, may_start, started_row, start, finish_with, interrupted,
  send, after_start, deliver, after_claim, run_once,
}
use sync_nesto_backend.Mail.Invariant.{All-find?, All-filter, All-take, first_due-due}
use sync_nesto_backend.Mail.Keyed.{is_settled, get-put, IsKeyed, IsKeyed-put, IsKeyed-All}
use sync_nesto_backend.Mail.Attempts.{deliver_keeps}

finished-id :
    (outcome : Outcome) (now : ℕ) (row row' : Delivery)
    → finished outcome now (counted row) ≡ some row'
    → row'.id ≡ row.id
finished-id outcome now row row' e = by_state row.state refl
  where
    by_state : (st : DeliveryState) → row.state ≡ st → row'.id ≡ row.id
    by_state leased e' = ground arith
    by_state _ e' = ground arith

module _ (k : ℕ) (d : Delivery) (settled : is_settled d.state ≡ true) where
  abbrev Has : MailTables → Type 0
  Has t = IsKeyed t.deliveries × (get k t.deliveries ≡ some d)

  apart : (t : MailTables) → Has t → All (λ r. is_settled r.state ≡ false → r.id ≢ k) t.deliveries
  apart t h = IsKeyed-All k d t.deliveries h.0 h.1 settled

  Has-write :
      (row : Delivery) (t : MailTables)
      → row.id ≢ k
      → Has t
      → IsKeyed (put row t.deliveries) × (get k (put row t.deliveries) ≡ some d)
  Has-write row t ne h =
      (IsKeyed-put row t.deliveries h.0, ground (arith, get-put k row t.deliveries))

  recover_as-Has : (row : Delivery) → row.id ≢ k → Keeps Has (recover_as row.state row)
  recover_as-Has row ne s h = by_state row.state refl
    where
      by_state : (st : DeliveryState) → row.state ≡ st → Has (recover_as st row s).1.pending
      by_state sending e = ground (
        arith,
        Has-write (record row { state = unknown; version = row.version + 1 }) s.pending ne h,
      )
      by_state _ e = ground (
        arith,
        Has-write
            (record row {
              state = pending;
              claim_token = none;
              lease_until = none;
              version = row.version + 1;
            })
            s.pending ne h,
      )

  recover_all-Has : (rows : List Delivery) → All (λ r. r.id ≢ k) rows → Keeps Has (recover_all rows)
  recover_all-Has [] v = λ s h. h
  recover_all-Has (row ∷ rows) v =
      Keeps->>= Has (recover_as row.state row) (λ _. recover_all rows) (recover_as-Has row v.0)
        (λ _. recover_all-Has rows v.1)

  claim-Has : (now token : ℕ) → Keeps Has (claim now token)
  claim-Has now token s h = elim (Option-cases (first_due now s.pending.deliveries)) [
    | inl idle ↦ ground arith
    | inr (row, due) ↦
        let (other, waits, _) =
          first_due-due _ now s.pending.deliveries row due (apart s.pending h) in
        let ne : row.id ≢ k = other (ground arith) in
        ground (arith, Has-write (claimed_row row token now) s.pending ne h)
  ]

  running_apart :
      (now : ℕ) (rows : List Delivery)
      → All
          (λ r.
            (is_settled r.state ≡ false → r.id ≢ k)
            × ((is_running r.state && lease_over r.lease_until now) ≡ true))
          rows
      → All (λ r. r.id ≢ k) rows
  running_apart now [] v = tt
  running_apart now (r ∷ rows) v = (v.0.0 (ground arith), running_apart now rows v.1)

  recover_and_claim-Has : (now token : ℕ) → Keeps Has (recover_and_claim now token)
  unfolding recover_and_claim
  recover_and_claim-Has now token s h =
      let rows = s.pending.deliveries in
      let test = λ (r : Delivery). is_running r.state && lease_over r.lease_until now in
      let expired = All-take _ 20 (filter test rows) (All-filter _ test rows (apart s.pending h)) in
      Keeps->>= Has (recover_all (expired_rows now rows)) (λ _. claim now token)
        (recover_all-Has (expired_rows now rows)
          (running_apart now (expired_rows now rows) expired))
        (λ _. claim-Has now token) s h

  start-Has : (row : Delivery) (now : ℕ) → Keeps Has (start row now)
  unfolding start
  start-Has claimed now s h =
      let rows = s.pending.deliveries in
      elim (Option-cases (find? (may_start claimed now) rows)) [
        | inl lost ↦ ground arith
        | inr (row, found) ↦
            let (other, tested) =
              All-find? _ (may_start claimed now) rows row found (apart s.pending h) in
            let ne : row.id ≢ k = other (ground arith) in
            ground (arith, Has-write (started_row row) s.pending ne h)
      ]

  finish-Has :
      (identity : ℕ) (token : Option ℕ) (result : MailOutcome) (now : ℕ)
      → Keeps Has (finish identity token result now)
  unfolding finish
  finish-Has identity token result now s h =
      let test =
        λ (r : Delivery). r.id == identity && opt_eq r.claim_token token && is_running r.state in
      elim (Option-cases (find? test s.pending.deliveries)) [
        | inl gone ↦ ground arith
        | inr (row, found) ↦
            let (other, tested) =
              All-find? _ test s.pending.deliveries row found (apart s.pending h) in
            let ne : row.id ≢ k = other (ground arith) in
            elim (Option-cases (finished result.outcome now (counted row))) [
              | inl e ↦ ground arith
              | inr (row', e) ↦
                  let same = finished-id result.outcome now row row' e in
                  ground (arith, Has-write row' s.pending (ground arith) h)
            ]
      ]

  finish_with-Has :
      (claimed : Delivery) (result : MailOutcome) (now : ℕ) (t : MailTables)
      → Has t
      → Has (finish_with claimed result now t).1
  unfolding finish_with
  finish_with-Has claimed result now t h =
      begin-keeps Has (finish claimed.id claimed.claim_token result now) t
        (finish-Has claimed.id claimed.claim_token result now) h

  interrupted-Has :
      (claimed : Delivery) (now : ℕ) (t : MailTables) → Has t → Has (interrupted claimed now t).1
  unfolding interrupted
  interrupted-Has claimed now t h = finish_with-Has claimed _ now t h

  after_start-Has :
      (env : Surroundings) (claimed : Delivery) (r : Result Bool) (t : MailTables)
      → Has t
      → Has (after_start env claimed (r, t)).1
  after_start-Has env claimed (err e) t h = interrupted-Has claimed env.finish_now t h
  after_start-Has env claimed (ok false) t h = h
  after_start-Has env claimed (ok true) t h = by_sent env.sent refl
    where
      by_sent : (sent : Sent) → env.sent ≡ sent → Has (after_start env claimed (ok true, t)).1
      by_sent raised e = ground (arith, interrupted-Has claimed env.finish_now (send claimed t) h)
      by_sent (returned result) e =
          ground (arith, finish_with-Has claimed result env.finish_now (send claimed t) h)

  deliver-Has :
      (env : Surroundings) (claimed : Delivery) (t : MailTables)
      → Has t
      → Has (deliver env claimed t).1
  deliver-Has env claimed t h =
      let (r, t') = begin (start claimed env.control_now) t in
      deliver_keeps Has env claimed t (λ result. finish_with-Has claimed result env.finish_now t h)
        (interrupted-Has claimed env.finish_now t h)
        (after_start-Has env claimed r t'
          (begin-keeps Has (start claimed env.control_now) t (start-Has claimed env.control_now) h))

  after_claim-Has :
      (env : Surroundings) (r : Result (Option Delivery)) (t : MailTables)
      → Has t
      → Has (after_claim env (r, t)).1
  after_claim-Has env (err e) t h = h
  after_claim-Has env (ok none) t h = h
  after_claim-Has env (ok (some row)) t h = deliver-Has env row t h

-- Where the deliveries have different ids, a run of the worker leaves a delivery that is accepted,
-- unknown, failed or suppressed as it is.
pub run_once-settled :
    (acquired available : Bool) (env : Surroundings) (now token : ℕ) (t : MailTables) (k : ℕ)
    (d : Delivery)
    → IsKeyed t.deliveries
    → get k t.deliveries ≡ some d
    → is_settled d.state ≡ true
    → get k (run_once acquired available env now token t).1.deliveries ≡ some d
unfolding run_once
run_once-settled false available env now token t k d keyed found settled = found
run_once-settled true false env now token t k d keyed found settled = found
run_once-settled true true env now token t k d keyed found settled =
    let (r, t') = begin (recover_and_claim now token) t in
    (after_claim-Has k d settled env r t' (
      begin-keeps (Has k d settled) (recover_and_claim now token) t
        (recover_and_claim-Has k d settled now token) (keyed, found))).1
