-- ===== src/Mail/Attempts.antt =====
-- Histories of the worker, the queue and the operator, and the bounds by state that they keep.
use sync_nesto_backend.Base.{
  ℕ, ◌+◌, ◌≤◌, ◌≡◌, refl, inl, inr, Bool, true, false, Option, none, some, List, [], ◌∷◌, arith,
  ◌==◌, find?, Bool-cases, Option-cases,
}
use sync_nesto_backend.Base.Text.{Text}
use sync_nesto_backend.Errors.{Result, ok, err}
use sync_nesto_backend.Database.{begin}
use sync_nesto_backend.Database.Rules.{Keeps, begin-keeps}
use sync_nesto_backend.Mail.Tables.{
  DeliveryState, pending, leased, accepted, unknown, Delivery, Outcome, MailOutcome, MailTables,
  get,
}
use sync_nesto_backend.Mail.Delivery.{
  Eligible, enqueue_notification_email, recover_and_claim, finish,
}
use sync_nesto_backend.Mail.Worker.{
  Sent, returned, raised, Surroundings, may_start, started_row, start, finish_with, interrupted,
  send, outcome_of, after_start, deliver, after_claim, run_once, Evidence, is_unknown,
  is_resolvable, rejection, rejected_row, settle, resolve_row, resolve,
}
use sync_nesto_backend.Mail.Invariant.{
  IsValid, AllValid, All-put, All-find?, enqueue-AllValid, recover_and_claim-AllValid,
  finish-AllValid,
}

started_row-IsValid :
    (claimed : Delivery) (now : ℕ) (row : Delivery)
    → IsValid row
    → may_start claimed now row ≡ true
    → IsValid (started_row row)
started_row-IsValid claimed now row v e = by_state row.state refl
  where
    by_state : (st : DeliveryState) → row.state ≡ st → IsValid (started_row row)
    by_state leased e' = ground arith
    by_state _ e' = ground arith

start-AllValid : (claimed : Delivery) (now : ℕ) → Keeps AllValid (start claimed now)
unfolding start
start-AllValid claimed now s h =
    let rows = s.pending.deliveries in
    elim (Option-cases (find? (may_start claimed now) rows)) [
      | inl lost ↦ ground arith
      | inr (row, found) ↦
          let (valid, tested) = All-find? IsValid (may_start claimed now) rows row found h in
          let valid' = started_row-IsValid claimed now row valid tested in
          ground (arith, All-put IsValid (started_row row) rows valid' h)
    ]

finish_with-AllValid :
    (claimed : Delivery) (result : MailOutcome) (now : ℕ) (t : MailTables)
    → AllValid t
    → AllValid (finish_with claimed result now t).1
unfolding finish_with
finish_with-AllValid claimed result now t h =
    begin-keeps AllValid (finish claimed.id claimed.claim_token result now) t
      (finish-AllValid claimed.id claimed.claim_token result now) h

interrupted-AllValid :
    (claimed : Delivery) (now : ℕ) (t : MailTables)
    → AllValid t
    → AllValid (interrupted claimed now t).1
unfolding interrupted
interrupted-AllValid claimed now t h = finish_with-AllValid claimed _ now t h

after_start-AllValid :
    (env : Surroundings) (claimed : Delivery) (r : Result Bool) (t : MailTables)
    → AllValid t
    → AllValid (after_start env claimed (r, t)).1
after_start-AllValid env claimed (err e) t h = interrupted-AllValid claimed env.finish_now t h
after_start-AllValid env claimed (ok false) t h = h
after_start-AllValid env claimed (ok true) t h = by_sent env.sent refl
  where
    by_sent : (sent : Sent) → env.sent ≡ sent → AllValid (after_start env claimed (ok true, t)).1
    by_sent raised e =
        ground (arith, interrupted-AllValid claimed env.finish_now (send claimed t) h)
    by_sent (returned result) e =
        ground (arith, finish_with-AllValid claimed result env.finish_now (send claimed t) h)

-- `deliver` ends in one of three ways.
pub deliver_keeps :
    (P : MailTables → Type 0) (env : Surroundings) (claimed : Delivery) (t : MailTables)
    → ((result : MailOutcome) → P (finish_with claimed result env.finish_now t).1)
    → P (interrupted claimed env.finish_now t).1
    → P (after_start env claimed (begin (start claimed env.control_now) t)).1
    → P (deliver env claimed t).1
unfolding deliver
deliver_keeps P env claimed t finishes interrupts starts = ground (
  arith,
  finishes (outcome_of Outcome.suppressed "notification_unavailable"),
  finishes (outcome_of Outcome.suppressed "qualification_or_expiry"),
  finishes (outcome_of Outcome.suppressed "identity_or_content_changed"),
)

deliver-AllValid :
    (env : Surroundings) (claimed : Delivery) (t : MailTables)
    → AllValid t
    → AllValid (deliver env claimed t).1
deliver-AllValid env claimed t h =
    let (r, t') = begin (start claimed env.control_now) t in
    deliver_keeps AllValid env claimed t
      (λ result. finish_with-AllValid claimed result env.finish_now t h)
      (interrupted-AllValid claimed env.finish_now t h)
      (after_start-AllValid env claimed r t' (
        begin-keeps AllValid (start claimed env.control_now) t
          (start-AllValid claimed env.control_now) h))

run_once-AllValid :
    (acquired available : Bool) (env : Surroundings) (now token : ℕ) (t : MailTables)
    → AllValid t
    → AllValid (run_once acquired available env now token t).1
unfolding run_once
run_once-AllValid false available env now token t h = h
run_once-AllValid true false env now token t h = h
run_once-AllValid true true env now token t h =
    let (r, t') = begin (recover_and_claim now token) t in
    claimed r t' (
      begin-keeps AllValid (recover_and_claim now token) t (recover_and_claim-AllValid now token) h)
  where
    claimed :
        (r : Result (Option Delivery)) (t' : MailTables)
        → AllValid t'
        → AllValid (after_claim env (r, t')).1
    claimed (err e) t' h' = h'
    claimed (ok none) t' h' = h'
    claimed (ok (some row)) t' h' = deliver-AllValid env row t' h'

-- An event in the life of the tables: a notification is queued, the worker runs, or an operator
-- resolves a delivery.
pub data MailEvent : Type 0 where
  enqueue : Bool → Option Eligible → ℕ → ℕ → ℕ → MailEvent
  run : Bool → Bool → Surroundings → ℕ → ℕ → MailEvent
  resolves : Bool → ℕ → ℕ → Bool → Text → Evidence → ℕ → MailEvent

abbrev pub happen : MailEvent → MailTables → MailTables
happen (enqueue available value identity notification_id now) t =
    (begin (enqueue_notification_email available value identity notification_id now) t).1
happen (run acquired available env now token) t = (run_once acquired available env now token t).1
happen (resolves acquired identity version says reason evidence now) t =
    (begin (resolve acquired identity version says reason evidence now) t).1

abbrev pub happen_all : List MailEvent → MailTables → MailTables
happen_all [] t = t
happen_all (event ∷ events) t = happen_all events (happen event t)

settle-AllValid : (row : Delivery) → IsValid row → Keeps AllValid (settle row)
settle-AllValid row v s h =
    let row' = record row { version = row.version + 1 } in
    ground (arith, All-put IsValid row' s.pending.deliveries v h)

rejected_row-IsValid :
    (row row' : Delivery) (code now : ℕ)
    → IsValid row
    → is_unknown row.state ≡ true
    → rejected_row row code now ≡ some row'
    → IsValid row'
rejected_row-IsValid row row' code now v e h = by_state row.state refl
  where
    by_state : (st : DeliveryState) → row.state ≡ st → IsValid row'
    by_state unknown e' = ground arith
    by_state _ e' = ground arith

accepted_row-IsValid :
    (row : Delivery)
    → IsValid row
    → is_unknown row.state ≡ true
    → IsValid (record row { state = accepted })
accepted_row-IsValid row v e = by_state row.state refl
  where
    by_state : (st : DeliveryState) → row.state ≡ st → IsValid (record row { state = accepted })
    by_state unknown e' = ground arith
    by_state _ e' = ground arith

resolve_row-AllValid :
    (row : Delivery) (version : ℕ) (says : Bool) (evidence : Evidence) (now : ℕ)
    → IsValid row
    → Keeps AllValid (resolve_row row version says evidence now)
resolve_row-AllValid row version true evidence now v s h =
    elim (Bool-cases (is_resolvable row version now)) [
      | inr stale ↦ ground arith
      | inl unknown_row ↦
          let row' = record row { state = accepted } in
          let kept = settle-AllValid row' (accepted_row-IsValid row v (ground arith)) s h in
          ground arith
    ]
resolve_row-AllValid row version false evidence now v s h =
    elim (Option-cases (rejection evidence)) [
      | inl e ↦ ground arith
      | inr (code, e) ↦ elim (Option-cases (rejected_row row code now)) [
        | inl e' ↦ ground arith
        | inr (row', e') ↦ elim (Bool-cases (is_resolvable row version now)) [
          | inr stale ↦ ground arith
          | inl unknown_row ↦
              let v' = rejected_row-IsValid row row' code now v (ground arith) e' in
              let kept = settle-AllValid row' v' s h in ground arith
        ]
      ]
    ]

resolve-AllValid :
    (acquired : Bool) (identity version : ℕ) (says : Bool) (reason : Text) (evidence : Evidence)
    (now : ℕ)
    → Keeps AllValid (resolve acquired identity version says reason evidence now)
unfolding resolve
resolve-AllValid acquired identity version says reason evidence now s h =
    elim (Option-cases (get identity s.pending.deliveries)) [
      | inl gone ↦ ground arith
      | inr (row, found) ↦
          let (v, _) = All-find? IsValid (λ r. r.id == identity) s.pending.deliveries row found h in
          let kept = resolve_row-AllValid row version says evidence now v s h in ground arith
    ]

AllValid-happen : (event : MailEvent) (t : MailTables) → AllValid t → AllValid (happen event t)
AllValid-happen (enqueue available value identity notification_id now) t h =
    enqueue-AllValid available value identity notification_id now t h
AllValid-happen (run acquired available env now token) t h =
    run_once-AllValid acquired available env now token t h
AllValid-happen (resolves acquired identity version says reason evidence now) t h =
    begin-keeps AllValid (resolve acquired identity version says reason evidence now) t
      (resolve-AllValid acquired identity version says reason evidence now) h

-- Every history of the queue, the worker and the operator keeps that of the deliveries those that
-- wait or are leased have at most three attempts, no other more than four, and those that are leased,
-- sending or unknown have a token and a lease.
pub AllValid-happen_all :
    (events : List MailEvent) (t : MailTables) → AllValid t → AllValid (happen_all events t)
AllValid-happen_all [] t h = h
AllValid-happen_all (event ∷ events) t h =
    AllValid-happen_all events (happen event t) (AllValid-happen event t h)

pub IsValid-attempts : (d : Delivery) → IsValid d → d.attempt_count ≤ 4
IsValid-attempts d v = by_state d.state refl
  where
    by_state : (st : DeliveryState) → d.state ≡ st → d.attempt_count ≤ 4
    by_state pending e = ground arith
    by_state _ e = ground arith

abbrev pub no_mail : MailTables
no_mail = record { deliveries = []; attempts = []; sent = [] }
