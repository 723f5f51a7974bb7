-- ===== src/Mail/Live.antt =====
-- A delivery that is due is not passed over: `recover_and_claim` claims one.
use sync_nesto_backend.Base.{
  ℕ, ◌+◌, ◌≤◌, ◌≡◌, ◌≢◌, refl, sym, ◌∙◌, inl, inr, Bool, true, ◌&&◌, Option, none, some, List, [],
  ◌∷◌, arith, ◌==◌, ==_iff, filter, All, Bool-cases, Option-cases,
}
use mathlib.Core.Path.{subst}
use sync_nesto_backend.Errors.{Result, ok}
use sync_nesto_backend.Database.{Session, Action, opened, begin, conclude}
use sync_nesto_backend.Database.Ends.{after}
use sync_nesto_backend.Mail.Tables.{DeliveryState, leased, sending, Delivery, MailTables, get}
use sync_nesto_backend.Mail.Delivery.{
  is_running, is_waiting, lease_over, recover_as, recover_all, first_due, claimed_row, claim,
  expired_rows, recover_and_claim,
}
use sync_nesto_backend.Mail.Invariant.{IsValid, AllValid, All-filter, All-take}
use sync_nesto_backend.Mail.Keyed.{IsKeyed, get-put, get-none-All}

weaken_running :
    (id : ℕ) (rows : List Delivery)
    → All (λ r. r.id ≢ id) rows
    → All (λ r. is_running r.state ≡ true → r.id ≢ id) rows
weaken_running id [] all = tt
weaken_running id (r ∷ rows) (ne, all) = (λ running. ne, weaken_running id rows all)

-- With different ids, a running row has another id than a waiting one.
running-ne :
    (id : ℕ) (d : Delivery) (rows : List Delivery)
    → IsKeyed rows
    → get id rows ≡ some d
    → is_waiting d.state ≡ true
    → All (λ r. is_running r.state ≡ true → r.id ≢ id) rows
running-ne id d [] keyed found waits = tt
running-ne id d (r ∷ rows) keyed found waits = elim (Bool-cases (r.id == id)) [
  | inl same ↦ (
    λ running e. ground arith,
    weaken_running id rows
        (get-none-All id rows (subst (λ k. get k rows ≡ none) ((==_iff r.id id).0 same) keyed.0)),
  )
  | inr other ↦ (λ running e. ground arith, running-ne id d rows keyed.1 (ground arith) waits)
]

-- A row that the recovery works on: valid, running, and another one than the due row.
abbrev IsOther : ℕ → Delivery → Type 0
IsOther id d = IsValid d × (is_running d.state ≡ true) × (d.id ≢ id)

-- The action returns, and what `get` finds for an id stays.
abbrev Spares : ℕ → Action MailTables Unit → Type 0
Spares id m =
    (s : Session MailTables)
    → ((m s).0 ≡ ok tt) × (get id (m s).1.pending.deliveries ≡ get id s.pending.deliveries)

recover_as-Spares :
    (id : ℕ) (row : Delivery) → IsOther id row → Spares id (recover_as row.state row)
recover_as-Spares id row (valid, running, ne) s = by_state row.state refl
  where
    by_state :
        (st : DeliveryState)
        → row.state ≡ st
        → ((recover_as st row s).0 ≡ ok tt)
          × (get id (recover_as st row s).1.pending.deliveries ≡ get id s.pending.deliveries)
    by_state sending e = elim (Option-cases row.claim_token) [
      | inl missing ↦ ground arith
      | inr (token, there) ↦ ground (
        arith,
        get-put id (record row { state = DeliveryState.unknown; version = row.version + 1 })
            s.pending.deliveries ne,
      )
    ]
    by_state leased e = (refl, get-put id _ s.pending.deliveries ne)
    by_state _ e = (refl, get-put id _ s.pending.deliveries ne)

recover_all-Spares :
    (id : ℕ) (rows : List Delivery) → All (IsOther id) rows → Spares id (recover_all rows)
recover_all-Spares id [] all s = (refl, refl)
recover_all-Spares id (row ∷ rows) (other, all) s =
    let m = recover_as row.state row in
    let (e, f) = recover_as-Spares id row other s in
    let (e', f') = recover_all-Spares id rows all (m s).1 in
    subst (λ x. (x.0 ≡ ok tt) × (get id x.1.pending.deliveries ≡ get id s.pending.deliveries))
      (sym (after m (recover_all rows) s e)) (e', f' ∙ f)

-- A table with a due row has a first one.
first_due-ne :
    (now id : ℕ) (rows : List Delivery) (d : Delivery)
    → get id rows ≡ some d
    → is_waiting d.state ≡ true
    → d.next_attempt_at ≤ now
    → first_due now rows ≢ none
first_due-ne now id [] d e w le h = cc
first_due-ne now id (r ∷ rows) d e w le h = elim (Option-cases (first_due now rows)) [
  | inr (other, found) ↦ ground arith
  | inl last ↦ elim (Bool-cases (r.id == id)) [
    | inl same ↦ ground arith
    | inr differs ↦ first_due-ne now id rows d (ground arith) w le last
  ]
]

left : (a b : Bool) → (a && b) ≡ true → a ≡ true
left a b h = ground arith

abbrev IsReady : ℕ → ℕ → Delivery → Type 0
IsReady now id r =
    (IsValid r × (is_running r.state ≡ true → r.id ≢ id))
    × ((is_running r.state && lease_over r.lease_until now) ≡ true)

-- The rows that are recovered are other rows than a waiting one.
expired-IsOther :
    (now id : ℕ) (d : Delivery) (rows : List Delivery)
    → All IsValid rows
    → IsKeyed rows
    → get id rows ≡ some d
    → is_waiting d.state ≡ true
    → All (IsOther id) (expired_rows now rows)
expired-IsOther now id d rows valid keyed found waits =
    let ready = λ (r : Delivery). is_running r.state && lease_over r.lease_until now in
    to_other (expired_rows now rows) (
      All-take (λ r. IsReady now id r) 20 (filter ready rows)
        (All-filter (λ r. IsValid r × (is_running r.state ≡ true → r.id ≢ id)) ready rows
          (both rows valid (running-ne id d rows keyed found waits))))
  where
    both :
        (rs : List Delivery)
        → All IsValid rs
        → All (λ r. is_running r.state ≡ true → r.id ≢ id) rs
        → All (λ r. IsValid r × (is_running r.state ≡ true → r.id ≢ id)) rs
    both [] v n = tt
    both (r ∷ rs) (v, vs) (n, ns) = ((v, n), both rs vs ns)

    to_other : (rs : List Delivery) → All (IsReady now id) rs → All (IsOther id) rs
    to_other [] all = tt
    to_other (r ∷ rs) (((v, n), ready), all) =
        let running : is_running r.state ≡ true =
          left (is_running r.state) (lease_over r.lease_until now) ready in
        ((v, running, n running), to_other rs all)

-- Whenever a delivery waits and its time has come, in valid rows with different ids, the claim of
-- the worker returns a delivery: no error and no idle turn, whatever else has to be recovered.
pub recover_and_claim-live :
    (now token id : ℕ) (d : Delivery) (t : MailTables)
    → AllValid t
    → IsKeyed t.deliveries
    → get id t.deliveries ≡ some d
    → is_waiting d.state ≡ true
    → d.next_attempt_at ≤ now
    → (claimed : Delivery) × ((begin (recover_and_claim now token) t).0 ≡ ok (some claimed))
unfolding recover_and_claim
recover_and_claim-live now token id d t valid keyed found waits le =
    let expired = expired_rows now t.deliveries in
    let (e, f) =
      recover_all-Spares id expired (expired-IsOther now id d t.deliveries valid keyed found waits)
        (opened t) in
    let s : Session MailTables = (recover_all expired (opened t)).1 in
    subst (Claims t) (sym (after (recover_all expired) (claim now token) (opened t) e))
      (elim (Option-cases (first_due now s.pending.deliveries)) [
        | inl none_due ↦
            absurd (first_due-ne now id s.pending.deliveries d (f ∙ found) waits le none_due)
        | inr (row, due) ↦ claims row s due
      ])
  where
    Claims : MailTables → Result (Option Delivery) × Session MailTables → Type 0
    Claims t (r, s) = (claimed : Delivery) × ((conclude t r s).0 ≡ ok (some claimed))

    claims :
        (row : Delivery) (s : Session MailTables)
        → first_due now s.pending.deliveries ≡ some row
        → Claims t (claim now token s)
    claims row s due = rw (due, conclude) (claimed_row row token now, refl)
