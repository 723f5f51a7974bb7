-- ===== src/Mail/Sends.antt =====
-- What the transactions on deliveries keep of the attempts that a row counts.
pub mod Bound
use sync_nesto_backend.Base.{
  ℕ, ◌+◌, ◌≤◌, ◌≡◌, refl, sym, ◌∙◌, inl, inr, Bool, true, false, ◌&&◌, Option, none, some, List, [],
  ◌∷◌, arith, ◌==◌, ==_iff, opt_eq, any, find?, filter, All, Bool-cases, Option-cases,
  if◌then◌else◌,
}
use mathlib.Core.Path.{subst}
use sync_nesto_backend.Base.Text.{Text}
use sync_nesto_backend.Errors.{Result, ok, err}
use sync_nesto_backend.Database.{Session, opened, begin, conclude}
use sync_nesto_backend.Database.Rules.{Keeps, Keeps->>=, begin-keeps}
use sync_nesto_backend.Mail.Tables.{
  DeliveryState, pending, leased, sending, accepted, unknown, Delivery, Outcome, MailOutcome,
  MailTables, put, insert, get,
}
use sync_nesto_backend.Mail.Delivery.{
  Eligible, new_delivery, insert_delivery, enqueue_notification_email, is_running, lease_over,
  recover_as, recover_all, first_due, claimed_row, claim, expired_rows, recover_and_claim, counted,
  finished, finish,
}
use sync_nesto_backend.Mail.Worker.{
  Sent, returned, raised, Surroundings, may_start, started_row, start, finish_with, interrupted,
  send, after_start, deliver, after_claim, run_once, Evidence, is_resolvable, rejection,
  rejected_row, settle, resolve_row, resolve,
}
use sync_nesto_backend.Mail.Invariant.{
  IsValid, AllValid, All-put, All-insert, All-find?, All-filter, All-take, first_due-due,
}
use sync_nesto_backend.Mail.Attempts.{
  deliver_keeps, MailEvent, enqueue, run, resolves, happen, happen_all, no_mail,
  AllValid-happen_all, IsValid-attempts,
}

pub get-put-back :
    (k : ℕ) (row : Delivery) (rows : List Delivery)
    → get k (put row rows) ≡ none
    → get k rows ≡ none
get-put-back k row [] h = refl
get-put-back k row (r ∷ rows) h = ground (arith, get-put-back k row rows)

get-insert-back :
    (k : ℕ) (row : Delivery) (rows : List Delivery)
    → get k (insert row rows) ≡ none
    → get k rows ≡ none
get-insert-back k row [] h = refl
get-insert-back k row (r ∷ rows) h = ground (arith, get-insert-back k row rows)

unused-get : (k : ℕ) (rows : List Delivery) → any (λ d. d.id == k) rows ≡ false → get k rows ≡ none
unused-get k [] h = refl
unused-get k (r ∷ rows) h = ground (arith, unused-get k rows)

pub find-get :
    (q : Delivery → Bool) (rows : List Delivery) (row : Delivery)
    → find? q rows ≡ some row
    → get row.id rows ≡ none
    → ⊥
find-get q [] row found h = cc
find-get q (r ∷ rows) row found h = ground (arith, find-get q rows row)

finished-count :
    (outcome : Outcome) (now : ℕ) (row row' : Delivery)
    → finished outcome now (counted row) ≡ some row'
    → (row'.id ≡ row.id) × (row.attempt_count ≤ row'.attempt_count)
finished-count outcome now row row' e = by_state row.state refl
  where
    by_state :
        (st : DeliveryState)
        → row.state ≡ st
        → (row'.id ≡ row.id) × (row.attempt_count ≤ row'.attempt_count)
    by_state leased e' = ground arith
    by_state _ e' = ground arith

rejected_row-count :
    (row row' : Delivery) (code now : ℕ)
    → rejected_row row code now ≡ some row'
    → (row'.id ≡ row.id) × (row.attempt_count ≤ row'.attempt_count)
rejected_row-count row row' code now e = ground arith

-- How often an id is in a list.
abbrev pub count : ℕ → List ℕ → ℕ
count k [] = 0
count k (x ∷ xs) = (if x == k then 1 else 0) + count k xs

module _ (k : ℕ) where
  -- A row of this delivery has at least so many attempts.
  abbrev pub IsAbove : ℕ → Delivery → Type 0
  IsAbove n d = d.id ≡ k → n ≤ d.attempt_count

  -- So do all its rows, and it has one unless there are none; these are the calls of the transport.
  abbrev pub Covers : ℕ → List ℕ → MailTables → Type 0
  Covers n sent t =
      All (IsAbove n) t.deliveries × (get k t.deliveries ≡ none → n ≡ 0) × (t.sent ≡ sent)

  module _ (n : ℕ) (sent : List ℕ) where
    Covers-write :
        (row : Delivery) (t : MailTables)
        → IsAbove n row
        → Covers n sent t
        → Covers n sent (record t { deliveries = put row t.deliveries })
    Covers-write row t above (all, absent, same) = (
      All-put (IsAbove n) row t.deliveries above all,
      λ e. absent (get-put-back k row t.deliveries e),
      same,
    )

    recover_as-Covers :
        (row : Delivery) → IsAbove n row → Keeps (Covers n sent) (recover_as row.state row)
    recover_as-Covers row above s h = by_state row.state
      where
        by_state : (st : DeliveryState) → Covers n sent (recover_as st row s).1.pending
        by_state sending = elim (Option-cases row.claim_token) [
          | inl missing ↦ ground arith
          | inr (token, there) ↦ ground (
            arith,
            Covers-write (record row { state = unknown; version = row.version + 1 }) s.pending above
                h,
          )
        ]
        by_state _ =
            Covers-write
              (record row {
                state = pending;
                claim_token = none;
                lease_until = none;
                version = row.version + 1;
              })
              s.pending above h

    recover_all-Covers :
        (now : ℕ) (rows : List Delivery)
        → All
            (λ d. IsAbove n d × ((is_running d.state && lease_over d.lease_until now) ≡ true))
            rows
        → Keeps (Covers n sent) (recover_all rows)
    recover_all-Covers now [] v = λ s h. h
    recover_all-Covers now (row ∷ rows) v =
        Keeps->>= (Covers n sent) (recover_as row.state row) (λ _. recover_all rows)
          (recover_as-Covers row v.0.0) (λ _. recover_all-Covers now rows v.1)

    claim-Covers : (now token : ℕ) → Keeps (Covers n sent) (claim now token)
    claim-Covers now token s h = elim (Option-cases (first_due now s.pending.deliveries)) [
      | inl idle ↦ ground arith
      | inr (row, due) ↦
          let (above, _, _) = first_due-due (IsAbove n) now s.pending.deliveries row due h.0 in
          ground (arith, Covers-write (claimed_row row token now) s.pending above h)
    ]

    pub recover_and_claim-Covers :
        (now token : ℕ) → Keeps (Covers n sent) (recover_and_claim now token)
    unfolding recover_and_claim
    recover_and_claim-Covers now token s h =
        let rows = s.pending.deliveries in
        let test = λ (d : Delivery). is_running d.state && lease_over d.lease_until now in
        let expired = All-take _ 20 _ (All-filter (IsAbove n) test rows h.0) in
        Keeps->>= (Covers n sent) (recover_all (expired_rows now rows)) (λ _. claim now token)
          (recover_all-Covers now (expired_rows now rows) expired) (λ _. claim-Covers now token) s h

    pub finish-Covers :
        (identity : ℕ) (token : Option ℕ) (result : MailOutcome) (now : ℕ)
        → Keeps (Covers n sent) (finish identity token result now)
    unfolding finish
    finish-Covers identity token result now s h =
        let test =
          λ (d : Delivery). d.id == identity && opt_eq d.claim_token token && is_running d.state in
        elim (Option-cases (find? test s.pending.deliveries)) [
          | inl gone ↦ ground arith
          | inr (row, found) ↦ elim (Option-cases (finished result.outcome now (counted row))) [
            | inl e ↦ ground arith
            | inr (row', e) ↦
                let (above, _) = All-find? (IsAbove n) test s.pending.deliveries row found h.0 in
                let (same, le) = finished-count result.outcome now row row' e in
                ground (
                  arith,
                  Covers-write row' s.pending (λ e'. omega (arith, above (sym same ∙ e'))) h,
                )
          ]
        ]

    settle-Covers : (row : Delivery) → IsAbove n row → Keeps (Covers n sent) (settle row)
    settle-Covers row above s h =
        ground (arith, Covers-write (record row { version = row.version + 1 }) s.pending above h)

    resolve_row-Covers :
        (row : Delivery) (version : ℕ) (says : Bool) (evidence : Evidence) (now : ℕ)
        → IsAbove n row
        → Keeps (Covers n sent) (resolve_row row version says evidence now)
    resolve_row-Covers row version true evidence now above s h =
        ground (arith, settle-Covers (record row { state = accepted }) above s h)
    resolve_row-Covers row version false evidence now above s h =
        elim (Option-cases (rejection evidence)) [
          | inl e ↦ ground arith
          | inr (code, e) ↦ elim (Option-cases (rejected_row row code now)) [
            | inl e' ↦ ground arith
            | inr (row', e') ↦
                let (same, le) = rejected_row-count row row' code now e' in
                ground (arith, settle-Covers row' (λ i. omega (arith, above (sym same ∙ i))) s h)
          ]
        ]

    pub resolve-Covers :
        (acquired : Bool) (identity version : ℕ) (says : Bool) (reason : Text) (evidence : Evidence)
        (now : ℕ)
        → Keeps (Covers n sent) (resolve acquired identity version says reason evidence now)
    unfolding resolve
    resolve-Covers acquired identity version says reason evidence now s h =
        elim (Option-cases (get identity s.pending.deliveries)) [
          | inl gone ↦ ground arith
          | inr (row, found) ↦
              let (above, _) =
                All-find? (IsAbove n) (λ r. r.id == identity) s.pending.deliveries row found h.0 in
              ground (arith, resolve_row-Covers row version says evidence now above s h)
        ]

    insert-Covers :
        (row : Delivery) (t : MailTables)
        → any (λ d. d.id == row.id) t.deliveries ≡ false
        → Covers n sent t
        → Covers n sent (record t { deliveries = insert row t.deliveries })
    insert-Covers row t unused (all, absent, same) = (
      All-insert (IsAbove n) row t.deliveries
          (λ e. omega (
            arith,
            absent
                (subst (λ i. get i t.deliveries ≡ none) e (unused-get row.id t.deliveries unused)),
          ))
          all,
      λ e. absent (get-insert-back k row t.deliveries e),
      same,
    )

    pub enqueue-Covers :
        (available : Bool) (value : Option Eligible) (identity notification_id now : ℕ)
        → Keeps
            (Covers n sent)
            (enqueue_notification_email available value identity notification_id now)
    unfolding enqueue_notification_email
    enqueue-Covers false value identity notification_id now s h = h
    enqueue-Covers true none identity notification_id now s h = h
    enqueue-Covers true (some e) identity notification_id now s h =
        elim (Bool-cases (any (λ d. d.id == identity) s.pending.deliveries)) [
          | inl used ↦ ground arith
          | inr unused ↦ ground (
            arith,
            insert-Covers (new_delivery identity notification_id now e) s.pending unused h,
          )
        ]
