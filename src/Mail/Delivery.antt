-- ===== src/Mail/Delivery.antt =====
-- The steps on one delivery: `enqueue_notification_email`, and `record`, `recover_and_claim` and
-- `finish` of `ApprovalMailWorker`.
use sync_nesto_backend.Base.{
  ℕ, zero, suc, ◌+◌, Bool, true, false, ◌&&◌, Option, none, some, List, [], ◌∷◌, ◌++◌, String, ◌==◌,
  opt_eq, ltb, leb, any, find?, filter, if◌then◌else◌,
}
use sync_nesto_backend.Errors.{integrity_error, index_error}
use sync_nesto_backend.Database.{Action, pure, raise, gets, modify, ◌>>=◌, ◌>>◌}
use sync_nesto_backend.Mail.Tables.{
  DeliveryState, pending, leased, sending, retry_wait, Delivery, RecordKind, completed, same_kind,
  Outcome, outcome_name, MailOutcome, Attempt, MailTables, seconds, hours, put, insert,
}

-- What `eligible_notification` and `render_email` give for a notification that may be mailed.
pub record Eligible : Type 0 where
  pub preference_version : ℕ
  pub email_digest : String
  pub content_digest : String
  pub created_at : ℕ

abbrev pub new_delivery : ℕ → ℕ → ℕ → Eligible → Delivery
new_delivery identity notification_id now e = record {
  id = identity;
  notification_id = notification_id;
  preference_version = e.preference_version;
  email_digest = e.email_digest;
  template_version = 1;
  content_digest = e.content_digest;
  state = pending;
  version = 1;
  attempt_count = 0;
  claim_token = none;
  lease_until = none;
  next_attempt_at = now;
  expires_at = e.created_at + hours 24;
}

-- The insertion of a row, unless its id is in use.
abbrev pub insert_delivery : Bool → Delivery → Action MailTables Unit
insert_delivery true row = raise integrity_error
insert_delivery false row = modify (λ t. record t { deliveries = insert row t.deliveries })

-- `available` is `approval_mail_available()`, `identity` the new UUID, and `now` the default of
-- `next_attempt_at`. A notification that has a delivery gets no other; a UUID that is in use violates
-- the primary key.
unfoldable pub enqueue_notification_email :
    Bool → Option Eligible → ℕ → ℕ → ℕ → Action MailTables Unit
enqueue_notification_email false value identity notification_id now = pure tt
enqueue_notification_email true none identity notification_id now = pure tt
enqueue_notification_email true (some e) identity notification_id now = do
  queued ← gets (λ t. any (λ d. d.notification_id == notification_id) t.deliveries)
  used ← gets (λ t. any (λ d. d.id == identity) t.deliveries)
  if queued then pure tt else insert_delivery used (new_delivery identity notification_id now e)

abbrev pub insert_attempt : Attempt → List Attempt → List Attempt
insert_attempt a attempts =
    if any (λ b. b.attempt_id == a.attempt_id && same_kind b.record_kind a.record_kind) attempts
    then attempts
    else attempts ++ a ∷ []

-- `record`; the column `attempt_id` is not nullable.
abbrev pub record_attempt :
    Delivery
    → RecordKind
    → Option String
    → Option String
    → Option String
    → String
    → Action MailTables Unit
record_attempt row kind outcome code message_id operator = elim row.claim_token [
  | none ↦ raise integrity_error
  | some token ↦ modify (λ t. record t {
    attempts =
        insert_attempt
          (record {
            delivery_id = row.id;
            attempt_id = token;
            record_kind = kind;
            outcome = outcome;
            safe_code = code;
            provider_message_id = message_id;
            operator_kind = operator;
          })
          t.attempts;
  })
]

abbrev pub write : Delivery → Action MailTables Unit
write row = modify (λ t. record t { deliveries = put row t.deliveries })

-- `state.in_(["leased", "sending"])`
abbrev pub is_running : DeliveryState → Bool
is_running leased = true
is_running sending = true
is_running _ = false

-- `state.in_(["pending", "retry_wait"])`
abbrev pub is_waiting : DeliveryState → Bool
is_waiting pending = true
is_waiting retry_wait = true
is_waiting _ = false

-- `lease_until <= now`, which is not true of a null
abbrev pub lease_over : Option ℕ → ℕ → Bool
lease_over none now = false
lease_over (some until) now = leb until now

abbrev pub take {ℓ} : {A : Type ℓ} → ℕ → List A → List A
take zero xs = []
take (suc n) [] = []
take (suc n) (x ∷ xs) = x ∷ take n xs

-- The body of the loop over `expired`.
abbrev pub recover_as : DeliveryState → Delivery → Action MailTables Unit
recover_as sending row = do
  let row' = record row { state = DeliveryState.unknown }
  record_attempt row' completed (some "unknown") (some "worker_interrupted") none "worker"
  write (record row' { version = row.version + 1 })
recover_as _ row = write (record row {
  state = pending;
  claim_token = none;
  lease_until = none;
  version = row.version + 1;
})

abbrev pub recover_all : List Delivery → Action MailTables Unit
recover_all [] = pure tt
recover_all (row ∷ rows) = recover_as row.state row >> recover_all rows

-- The due row with the least `next_attempt_at`, the first of these in the order of the ids.
abbrev pub earlier : Delivery → Option Delivery → Option Delivery
earlier row none = some row
earlier row (some other) =
    if ltb other.next_attempt_at row.next_attempt_at then some other else some row

abbrev pub first_due : ℕ → List Delivery → Option Delivery
first_due now [] = none
first_due now (row ∷ rows) =
    let rest = first_due now rows in
    if is_waiting row.state && leb row.next_attempt_at now then earlier row rest else rest

abbrev pub claimed_row : Delivery → ℕ → ℕ → Delivery
claimed_row row token now = record row {
  state = leased;
  claim_token = some token;
  lease_until = some (now + seconds 30);
  version = row.version + 1;
}

-- The rows that `recover_and_claim` recovers.
abbrev pub expired_rows : ℕ → List Delivery → List Delivery
expired_rows now rows =
    take 20 (filter (λ d. is_running d.state && lease_over d.lease_until now) rows)

abbrev pub claim : ℕ → ℕ → Action MailTables (Option Delivery)
claim now token = do
  due ← gets (λ t. first_due now t.deliveries)
  elim due [
    | none ↦ pure none
    | some row ↦ do write (claimed_row row token now); pure (some (claimed_row row token now))
  ]

-- `token` is the new `uuid4()`.
unfoldable pub recover_and_claim : ℕ → ℕ → Action MailTables (Option Delivery)
recover_and_claim now token = do
  expired ← gets (λ t. expired_rows now t.deliveries)
  recover_all expired
  claim now token

-- `[60, 300, 1800][attempt_count - 1]`, where index -1 is the last element
abbrev pub retry_delay : ℕ → Option ℕ
retry_delay zero = some 1800
retry_delay (suc zero) = some 60
retry_delay (suc (suc zero)) = some 300
retry_delay (suc (suc (suc zero))) = some 1800
retry_delay (suc (suc (suc (suc n)))) = none

abbrev pub state_of : Outcome → DeliveryState
state_of Outcome.accepted = DeliveryState.accepted
state_of Outcome.unknown = DeliveryState.unknown
state_of Outcome.failed = DeliveryState.failed
state_of Outcome.suppressed = DeliveryState.suppressed
state_of Outcome.temporary = DeliveryState.suppressed

-- The count after `if row.state == "leased": row.attempt_count += 1`
abbrev pub counted : Delivery → Delivery
counted row = elim row.state [
  | leased ↦ record row { attempt_count = row.attempt_count + 1 }
  | _ ↦ row
]

-- The row with its final state; `none` is an index out of range.
abbrev pub finished : Outcome → ℕ → Delivery → Option Delivery
finished Outcome.temporary now row =
    if leb row.expires_at now
    then some (record row { state = DeliveryState.suppressed; version = row.version + 1 })
    else if leb row.attempt_count 3
    then elim (retry_delay row.attempt_count) [
      | none ↦ none
      | some delay ↦ some (record row {
        state = retry_wait;
        next_attempt_at = now + seconds delay;
        version = row.version + 1;
      })
    ]
    else some (record row { state = DeliveryState.failed; version = row.version + 1 })
finished outcome now row = some (record row { state = state_of outcome; version = row.version + 1 })

-- `finish`; `now` is the clock read after the row has been found.
unfoldable pub finish : ℕ → Option ℕ → MailOutcome → ℕ → Action MailTables Unit
finish identity token result now = do
  found ← gets (λ t.
      find? (λ d. d.id == identity && opt_eq d.claim_token token && is_running d.state)
        t.deliveries)
  elim found [
    | none ↦ pure tt
    | some row ↦ elim (finished result.outcome now (counted row)) [
      | none ↦ raise index_error
      | some row' ↦ do
        write row'
        record_attempt row' completed (some (outcome_name result.outcome)) (some result.code)
            result.message_id "worker"
    ]
  ]
