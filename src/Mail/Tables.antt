-- ===== src/Mail/Tables.antt =====
-- The tables of app/models/notification_email.py. UUIDs are numbers, times are microseconds.
use sync_nesto_backend.Base.{
  ℕ, ◌*◌, Bool, true, false, Option, List, [], ◌∷◌, String, ◌==◌, find?, if◌then◌else◌, ltb,
}

-- The values that `ck_email_delivery_state` allows.
pub data DeliveryState : Type 0 where
  pending leased sending retry_wait accepted unknown failed suppressed : DeliveryState

pub record Delivery : Type 0 where
  pub id : ℕ
  pub notification_id : ℕ
  pub preference_version : ℕ
  pub email_digest : String
  pub template_version : ℕ
  pub content_digest : String
  pub state : DeliveryState
  pub version : ℕ
  pub attempt_count : ℕ
  pub claim_token : Option ℕ
  pub lease_until : Option ℕ
  pub next_attempt_at : ℕ
  pub expires_at : ℕ

pub data RecordKind : Type 0 where
  started completed resolution : RecordKind

abbrev pub same_kind : RecordKind → RecordKind → Bool
same_kind started started = true
same_kind completed completed = true
same_kind resolution resolution = true
same_kind _ _ = false

-- The values of `MailOutcome.outcome`.
pub data Outcome : Type 0 where
  accepted temporary unknown failed suppressed : Outcome

abbrev pub outcome_name : Outcome → String
outcome_name accepted = "accepted"
outcome_name temporary = "temporary"
outcome_name unknown = "unknown"
outcome_name failed = "failed"
outcome_name suppressed = "suppressed"

abbrev pub state_name : DeliveryState → String
state_name pending = "pending"
state_name leased = "leased"
state_name sending = "sending"
state_name retry_wait = "retry_wait"
state_name accepted = "accepted"
state_name unknown = "unknown"
state_name failed = "failed"
state_name suppressed = "suppressed"

pub record MailOutcome : Type 0 where
  pub outcome : Outcome
  pub code : String
  pub message_id : Option String

pub record Attempt : Type 0 where
  pub delivery_id : ℕ
  pub attempt_id : ℕ
  pub record_kind : RecordKind
  pub outcome : Option String
  pub safe_code : Option String
  pub provider_message_id : Option String
  pub operator_kind : String

-- The deliveries stand in the order of their ids. `sent` is no table: it holds the id of a delivery for
-- each call of the transport's `send`, the last call first.
pub record MailTables : Type 0 where
  pub deliveries : List Delivery
  pub attempts : List Attempt
  pub sent : List ℕ

-- `timedelta(seconds=n)`
abbrev pub seconds : ℕ → ℕ
seconds n = n * 1000000

-- `timedelta(hours=n)`
abbrev pub hours : ℕ → ℕ
hours n = n * 3600000000

abbrev pub get : ℕ → List Delivery → Option Delivery
get id rows = find? (λ row. row.id == id) rows

-- The rows after the fields of a loaded row have been written.
abbrev pub put : Delivery → List Delivery → List Delivery
put row [] = []
put row (r ∷ rows) = (if r.id == row.id then row else r) ∷ put row rows

-- An inserted row takes its place in the order of the ids.
abbrev pub insert : Delivery → List Delivery → List Delivery
insert row [] = row ∷ []
insert row (r ∷ rows) = if ltb row.id r.id then row ∷ (r ∷ rows) else r ∷ insert row rows
