-- ===== src/Mail/Worker.antt =====
-- The delivery of a claimed row and the operator's resolution: `deliver`, `run_once`, `status` and
-- `resolve` of `ApprovalMailWorker`.
use sync_nesto_backend.Base.{
  ℕ, ◌+◌, Bool, true, false, not, ◌&&◌, ◌||◌, Option, none, some, ◌∷◌, String, ◌==◌, opt_eq, ltb,
  leb, find?, if◌then◌else◌, str_eq, length,
}
use sync_nesto_backend.Base.Text.{Text, strip}
use sync_nesto_backend.Errors.{Result, ok, err, index_error, value_error}
use sync_nesto_backend.Database.{Action, pure, raise, raise_if, gets, begin, ◌>>=◌, ◌>>◌}
use sync_nesto_backend.Mail.Tables.{
  DeliveryState, leased, sending, retry_wait, Delivery, started, resolution, Outcome, MailOutcome,
  MailTables, seconds, get, state_name,
}
use sync_nesto_backend.Mail.Delivery.{
  Eligible, record_attempt, write, recover_and_claim, retry_delay, finish,
}

-- How the transport's `send` ends.
pub data Sent : Type 0 where
  returned : MailOutcome → Sent
  raised : Sent

-- What the calls of `deliver` that leave these tables alone answer: whether the database fails
-- before the start is recorded, the notification's project, its eligibility at the time of the
-- delivery, the transport, and the clocks.
pub record Surroundings : Type 0 where
  pub fails : Bool
  pub has_source : Bool
  pub eligible : Option Eligible
  pub guard_now : ℕ
  pub control_now : ℕ
  pub sent : Sent
  pub finish_now : ℕ

abbrev pub outcome_of : Outcome → String → MailOutcome
outcome_of outcome code = record { outcome = outcome; code = code; message_id = none }

-- The notification, the preference and the content are those that were queued.
abbrev pub is_unchanged : Delivery → Eligible → Bool
is_unchanged claimed e =
    e.preference_version == claimed.preference_version
    && str_eq e.email_digest claimed.email_digest
    && claimed.template_version == 1
    && str_eq e.content_digest claimed.content_digest

-- `lease_until > clock_timestamp()`, which is not true of a null
abbrev pub lease_runs : Option ℕ → ℕ → Bool
lease_runs none now = false
lease_runs (some until) now = ltb now until

abbrev pub is_leased : DeliveryState → Bool
is_leased leased = true
is_leased _ = false

-- The row that may be started: it is still claimed, and its lease runs.
abbrev pub may_start : Delivery → ℕ → Delivery → Bool
may_start claimed now d =
    d.id == claimed.id
    && opt_eq d.claim_token claimed.claim_token
    && is_leased d.state
    && lease_runs d.lease_until now

abbrev pub started_row : Delivery → Delivery
started_row row = record row {
  state = sending;
  version = row.version + 1;
  attempt_count = row.attempt_count + 1;
}

-- The transaction `control`: the start is recorded, and durable, before the mail is sent. The
-- answer is false if the claim is lost.
unfoldable pub start : Delivery → ℕ → Action MailTables Bool
start claimed now = do
  found ← gets (λ t. find? (may_start claimed now) t.deliveries)
  elim found [
    | none ↦ pure false
    | some row ↦ do
      write (started_row row)
      record_attempt (started_row row) started none none none "worker"
      pure true
  ]

-- The tables after `finish` in its own transaction, and the outcome that `deliver` returns.
unfoldable pub finish_with : Delivery → MailOutcome → ℕ → MailTables → MailOutcome × MailTables
finish_with claimed result now t =
    (result, (begin (finish claimed.id claimed.claim_token result now) t).1)

-- The handler of exceptions of `deliver`.
unfoldable pub interrupted : Delivery → ℕ → MailTables → MailOutcome × MailTables
interrupted claimed now t =
    let started_already : Bool = elim (get claimed.id t.deliveries) [
      | none ↦ true
      | some current ↦ not (is_leased current.state)
    ] in
    finish_with claimed
      (outcome_of (if started_already then Outcome.unknown else Outcome.temporary)
        "worker_or_database_unavailable")
      now t

-- The tables once the transport has been called.
abbrev pub send : Delivery → MailTables → MailTables
send claimed t = record t { sent = claimed.id ∷ t.sent }

-- After `control` has answered.
abbrev pub after_start :
    Surroundings → Delivery → Result Bool × MailTables → MailOutcome × MailTables
after_start env claimed (err e, t) = interrupted claimed env.finish_now t
after_start env claimed (ok false, t) = (outcome_of Outcome.suppressed "claim_lost", t)
after_start env claimed (ok true, t) = elim env.sent [
  | raised ↦ interrupted claimed env.finish_now (send claimed t)
  | returned result ↦ finish_with claimed result env.finish_now (send claimed t)
]

unfoldable pub deliver : Surroundings → Delivery → MailTables → MailOutcome × MailTables
deliver env claimed t =
    if env.fails
    then interrupted claimed env.finish_now t
    else if not env.has_source
    then finish_with claimed (outcome_of Outcome.suppressed "notification_unavailable")
        env.finish_now t
    else elim env.eligible [
      | none ↦
          finish_with claimed (outcome_of Outcome.suppressed "qualification_or_expiry")
            env.finish_now t
      | some e ↦
          if leb claimed.expires_at env.guard_now
          then finish_with claimed (outcome_of Outcome.suppressed "qualification_or_expiry")
              env.finish_now t
          else if is_unchanged claimed e
          then after_start env claimed (begin (start claimed env.control_now) t)
          else finish_with claimed (outcome_of Outcome.suppressed "identity_or_content_changed")
              env.finish_now t
    ]

-- The answer of `run_once`.
pub data Run : Type 0 where
  busy disabled idle failed_claim : Run
  delivered : Outcome → Run

abbrev pub after_claim : Surroundings → Result (Option Delivery) × MailTables → Run × MailTables
after_claim env (err e, t) = (failed_claim, t)
after_claim env (ok none, t) = (idle, t)
after_claim env (ok (some claimed), t) =
    let (result, t') = deliver env claimed t in (delivered result.outcome, t')

-- `acquired` is the advisory lock, `available` is `approval_mail_available()`.
unfoldable pub run_once : Bool → Bool → Surroundings → ℕ → ℕ → MailTables → Run × MailTables
run_once false available env now token t = (busy, t)
run_once true false env now token t = (disabled, t)
run_once true true env now token t = after_claim env (begin (recover_and_claim now token) t)

-- What an operator hands in, with the checks that read other systems as their answers.
pub record Evidence : Type 0 where
  pub attempt_id : Option ℕ
  pub message_id_matches : Bool
  pub receipt_verified : Bool
  pub smtp_rejection : Bool
  pub smtp_code : Option ℕ
  pub reply_received : Bool

abbrev pub is_unknown : DeliveryState → Bool
is_unknown DeliveryState.unknown = true
is_unknown _ = false

-- The row may be resolved: `row.lease_until is not None and row.lease_until <= now` and the rest.
abbrev pub is_resolvable : Delivery → ℕ → ℕ → Bool
is_resolvable row version now =
    is_unknown row.state
    && row.version == version
    && (elim row.lease_until [ none ↦ false | some until ↦ leb until now ])

-- The code that proves a rejection, if the evidence holds one.
abbrev pub rejection : Evidence → Option ℕ
rejection evidence = elim evidence.smtp_code [
  | none ↦ none
  | some code ↦
      if evidence.smtp_rejection && leb 400 code && ltb code 600 && evidence.reply_received
      then some code
      else none
]

-- The row after a proved rejection; `none` is an index out of range.
abbrev pub rejected_row : Delivery → ℕ → ℕ → Option Delivery
rejected_row row code now =
    if leb row.expires_at now
    then some (record row { state = DeliveryState.suppressed; next_attempt_at = now })
    else if leb 500 code || leb 4 row.attempt_count
    then some (record row { state = DeliveryState.failed; next_attempt_at = now })
    else elim (retry_delay row.attempt_count) [
      | none ↦ none
      | some delay ↦ some (record row { state = retry_wait; next_attempt_at = now + seconds delay })
    ]

abbrev pub settle : Delivery → Action MailTables Unit
settle row = do
  write (record row { version = row.version + 1 })
  record_attempt row resolution (some (state_name row.state)) (some "operator_confirmed") none
      "local_operator"

abbrev pub accept : Delivery → Evidence → Action MailTables Unit
accept row evidence =
    if evidence.receipt_verified
    then settle (record row { state = DeliveryState.accepted })
    else raise value_error

abbrev pub reject : Delivery → Evidence → ℕ → Action MailTables Unit
reject row evidence now = elim (rejection evidence) [
  | none ↦ raise value_error
  | some code ↦ elim (rejected_row row code now) [
    | none ↦ raise index_error
    | some row' ↦ settle row'
  ]
]

-- `resolve` on the row that it has loaded.
abbrev pub resolve_row : Delivery → ℕ → Bool → Evidence → ℕ → Action MailTables Unit
resolve_row row version accepted evidence now = do
  raise_if (not (is_resolvable row version now)) value_error
  raise_if (not (opt_eq evidence.attempt_id row.claim_token && evidence.message_id_matches))
      value_error
  if accepted then accept row evidence else reject row evidence now

-- `resolve`, with the lock of the worker in `acquired`.
unfoldable pub resolve : Bool → ℕ → ℕ → Bool → Text → Evidence → ℕ → Action MailTables Unit
resolve acquired identity version accepted reason evidence now = do
  raise_if (not (leb 1 (length (strip reason)) && leb (length (strip reason)) 400)) value_error
  raise_if (not acquired) value_error
  found ← gets (λ t. get identity t.deliveries)
  elim found [ none ↦ raise value_error | some row ↦ resolve_row row version accepted evidence now ]
