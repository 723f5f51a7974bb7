-- ===== src/Mail/Sends/Bound.antt =====
-- The calls of the transport over all histories of the worker, the queue and the operator.
use sync_nesto_backend.Base.{
  ℕ, ◌+◌, ◌≤◌, ◌≡◌, refl, sym, ap, ◌∙◌, inl, inr, Bool, true, false, Option, none, some, List, [],
  ◌∷◌, arith, ◌==◌, ==_iff, find?, All, Bool-cases, Option-cases, if◌then◌else◌,
}
use mathlib.Core.Path.{subst}
use sync_nesto_backend.Errors.{Result, ok, err}
use sync_nesto_backend.Database.{begin}
use sync_nesto_backend.Database.Rules.{begin-keeps}
use sync_nesto_backend.Mail.Tables.{Delivery, MailOutcome, MailTables, put, get}
use sync_nesto_backend.Mail.Delivery.{enqueue_notification_email, recover_and_claim, finish}
use sync_nesto_backend.Mail.Worker.{
  Sent, returned, raised, Surroundings, may_start, started_row, start, finish_with, interrupted,
  send, after_start, deliver, after_claim, run_once, resolve,
}
use sync_nesto_backend.Mail.Invariant.{IsValid, AllValid, All-find?}
use sync_nesto_backend.Mail.Attempts.{
  deliver_keeps, MailEvent, enqueue, run, resolves, happen, happen_all, no_mail,
  AllValid-happen_all, IsValid-attempts,
}
use sync_nesto_backend.Mail.Sends.{
  get-put-back, find-get, count, IsAbove, Covers, recover_and_claim-Covers, finish-Covers,
  resolve-Covers, enqueue-Covers,
}

module _ (k : ℕ) where
  -- One for the delivery in question.
  abbrev one_for : Delivery → ℕ
  one_for claimed = if claimed.id == k then 1 else 0

  -- After the transaction of `start`, which has counted an attempt if it answers true.
  abbrev Started : ℕ → List ℕ → Delivery → Result Bool → MailTables → Type 0
  Started n sent claimed (ok true) t = Covers k (one_for claimed + n) sent t
  Started n sent claimed (ok false) t = Covers k n sent t
  Started n sent claimed (err e) t = Covers k n sent t

  All-started :
      (n : ℕ) (claimed row : Delivery) (rows : List Delivery)
      → row.id ≡ claimed.id
      → IsAbove k n row
      → All (IsAbove k n) rows
      → All (IsAbove k (one_for claimed + n)) (put (started_row row) rows)
  All-started n claimed row [] same above all = tt
  All-started n claimed row (r ∷ rows) same above (this, all) =
      (ground arith, All-started n claimed row rows same above all)

  started-Covers :
      (n : ℕ) (sent : List ℕ) (claimed row : Delivery) (now : ℕ) (t : MailTables)
      → find? (may_start claimed now) t.deliveries ≡ some row
      → Covers k n sent t
      → Covers k
          (one_for claimed + n)
          sent
          (record t { deliveries = put (started_row row) t.deliveries })
  started-Covers n sent claimed row now t found (all, absent, same_sent) =
      let (above, tested) =
        All-find? (IsAbove k n) (may_start claimed now) t.deliveries row found all in
      let same : row.id ≡ claimed.id = ground arith in
      (
        All-started n claimed row t.deliveries same above all,
        λ e.
            let gone = get-put-back k (started_row row) t.deliveries e in
            elim (Bool-cases (claimed.id == k)) [
              | inr other ↦ ground (arith, absent gone)
              | inl it ↦ absurd (
                  find-get (may_start claimed now) t.deliveries row found (
                    subst (λ i. get i t.deliveries ≡ none) (sym (same ∙ (==_iff claimed.id k).0 it))
                      gone))
            ],
        same_sent,
      )

  begin-Started :
      (n : ℕ) (sent : List ℕ) (claimed : Delivery) (now : ℕ) (t : MailTables)
      → Covers k n sent t
      → Started n sent claimed (begin (start claimed now) t).0 (begin (start claimed now) t).1
  unfolding start
  begin-Started n sent claimed now t h =
      elim (Option-cases (find? (may_start claimed now) t.deliveries)) [
        | inl lost ↦ ground arith
        | inr (row, found) ↦ elim (Option-cases row.claim_token) [
          | inl missing ↦ ground arith
          | inr (token, there) ↦ ground (arith, started-Covers n sent claimed row now t found h)
        ]
      ]

  -- Every call of the transport is counted.
  abbrev Counts : MailTables → Type 0
  Counts t = Covers k (count k t.sent) t.sent t

  Covers-Counts : (sent : List ℕ) (t : MailTables) → Covers k (count k sent) sent t → Counts t
  Covers-Counts sent t (all, absent, same) =
      subst (λ calls. Covers k (count k calls) calls t) (sym same) (all, absent, same)

  finish_with-Counts :
      (claimed : Delivery) (result : MailOutcome) (now : ℕ) (t : MailTables)
      → Counts t
      → Counts (finish_with claimed result now t).1
  unfolding finish_with
  finish_with-Counts claimed result now t h =
      Covers-Counts t.sent (begin (finish claimed.id claimed.claim_token result now) t).1 (
        begin-keeps (Covers k (count k t.sent) t.sent)
          (finish claimed.id claimed.claim_token result now) t
          (finish-Covers k (count k t.sent) t.sent claimed.id claimed.claim_token result now) h)

  interrupted-Counts :
      (claimed : Delivery) (now : ℕ) (t : MailTables)
      → Counts t
      → Counts (interrupted claimed now t).1
  unfolding interrupted
  interrupted-Counts claimed now t h = finish_with-Counts claimed _ now t h

  after_start-Counts :
      (env : Surroundings) (claimed : Delivery) (sent : List ℕ) (r : Result Bool) (t : MailTables)
      → Started (count k sent) sent claimed r t
      → Counts (after_start env claimed (r, t)).1
  after_start-Counts env claimed sent (err e) t h =
      interrupted-Counts claimed env.finish_now t (Covers-Counts sent t h)
  after_start-Counts env claimed sent (ok false) t h = Covers-Counts sent t h
  after_start-Counts env claimed sent (ok true) t (all, absent, same) = by_sent env.sent refl
    where
      after_send : Counts (send claimed t)
      after_send =
          Covers-Counts (claimed.id ∷ sent) (send claimed t)
            (all, absent, ap (λ calls. claimed.id ∷ calls) same)

      by_sent : (s : Sent) → env.sent ≡ s → Counts (after_start env claimed (ok true, t)).1
      by_sent raised e =
          ground (arith, interrupted-Counts claimed env.finish_now (send claimed t) after_send)
      by_sent (returned result) e =
          ground
            (arith, finish_with-Counts claimed result env.finish_now (send claimed t) after_send)

  deliver-Counts :
      (env : Surroundings) (claimed : Delivery) (t : MailTables)
      → Counts t
      → Counts (deliver env claimed t).1
  deliver-Counts env claimed t h =
      deliver_keeps Counts env claimed t
        (λ result. finish_with-Counts claimed result env.finish_now t h)
        (interrupted-Counts claimed env.finish_now t h)
        (after_start-Counts env claimed t.sent (begin (start claimed env.control_now) t).0
          (begin (start claimed env.control_now) t).1
          (begin-Started (count k t.sent) t.sent claimed env.control_now t h))

  after_claim-Counts :
      (env : Surroundings) (r : Result (Option Delivery)) (t : MailTables)
      → Counts t
      → Counts (after_claim env (r, t)).1
  after_claim-Counts env (err e) t h = h
  after_claim-Counts env (ok none) t h = h
  after_claim-Counts env (ok (some row)) t h = deliver-Counts env row t h

  run_once-Counts :
      (acquired available : Bool) (env : Surroundings) (now token : ℕ) (t : MailTables)
      → Counts t
      → Counts (run_once acquired available env now token t).1
  unfolding run_once
  run_once-Counts false available env now token t h = h
  run_once-Counts true false env now token t h = h
  run_once-Counts true true env now token t h =
      let (r, t') = begin (recover_and_claim now token) t in
      after_claim-Counts env r t' (
        Covers-Counts t.sent t' (
          begin-keeps (Covers k (count k t.sent) t.sent) (recover_and_claim now token) t
            (recover_and_claim-Covers k (count k t.sent) t.sent now token) h))

  happen-Counts : (event : MailEvent) (t : MailTables) → Counts t → Counts (happen event t)
  happen-Counts (enqueue available value identity notification_id now) t h =
      Covers-Counts t.sent
        (begin (enqueue_notification_email available value identity notification_id now) t).1
        (begin-keeps (Covers k (count k t.sent) t.sent)
          (enqueue_notification_email available value identity notification_id now) t
          (enqueue-Covers k (count k t.sent) t.sent available value identity notification_id now) h)
  happen-Counts (run acquired available env now token) t h =
      run_once-Counts acquired available env now token t h
  happen-Counts (resolves acquired identity version says reason evidence now) t h =
      Covers-Counts t.sent (begin (resolve acquired identity version says reason evidence now) t).1
        (begin-keeps (Covers k (count k t.sent) t.sent)
          (resolve acquired identity version says reason evidence now) t
          (resolve-Covers k (count k t.sent) t.sent acquired identity version says reason evidence
            now)
          h)

  happen_all-Counts :
      (events : List MailEvent) (t : MailTables) → Counts t → Counts (happen_all events t)
  happen_all-Counts [] t h = h
  happen_all-Counts (event ∷ events) t h =
      happen_all-Counts events (happen event t) (happen-Counts event t h)

-- The attempts that the row of a delivery counts, which are none without a row.
abbrev pub attempts_of : Option Delivery → ℕ
attempts_of none = 0
attempts_of (some d) = d.attempt_count

attempts_of-Covers :
    (k n : ℕ) (sent : List ℕ) (t : MailTables)
    → Covers k n sent t
    → n ≤ attempts_of (get k t.deliveries)
attempts_of-Covers k n sent t (all, absent, same) = elim (Option-cases (get k t.deliveries)) [
  | inl gone ↦ ground (arith, absent gone)
  | inr (d, found) ↦
      let (above, this) = All-find? (IsAbove k n) (λ r. r.id == k) t.deliveries d found all in
      ground (arith, above ((==_iff d.id k).0 this))
]

attempts_of-AllValid : (k : ℕ) (t : MailTables) → AllValid t → attempts_of (get k t.deliveries) ≤ 4
attempts_of-AllValid k t all = elim (Option-cases (get k t.deliveries)) [
  | inl gone ↦ ground arith
  | inr (d, found) ↦
      let (valid, _) = All-find? IsValid (λ r. r.id == k) t.deliveries d found all in
      ground (arith, IsValid-attempts d valid)
]

-- Over every history that begins with no delivery, the transport is called for a delivery at most
-- as often as its row counts attempts, which are at most four.
pub sends_le :
    (events : List MailEvent) (k : ℕ)
    → let t = happen_all events no_mail in
      (count k t.sent ≤ attempts_of (get k t.deliveries)) × (attempts_of (get k t.deliveries) ≤ 4)
sends_le events k =
    let t = happen_all events no_mail in
    (
      attempts_of-Covers k (count k t.sent) t.sent t
          (happen_all-Counts k events no_mail (tt, (λ e. refl), refl)),
      attempts_of-AllValid k t (AllValid-happen_all events no_mail tt),
    )
