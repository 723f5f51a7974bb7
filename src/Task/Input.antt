-- ===== src/Task/Input.antt =====
-- The requests of app/schemas/task.py.
use sync_nesto_backend.Base.{ℕ, String, Bool, true, false, Option, none, some, List}
use sync_nesto_backend.Base.Text.{Text}
use sync_nesto_backend.Base.Int.{ℤ}

-- A field of a request: not sent, sent as null, or sent with a value.
pub data Field (A : Type 0) : Type 0 where
  unset null : Field A
  value : A → Field A

module _ {A : Type 0} where
  -- The field is in `model_fields_set`.
  abbrev pub is_sent : Field A → Bool
  is_sent unset = false
  is_sent _ = true

  abbrev pub is_null : Field A → Bool
  is_null null = true
  is_null _ = false

  -- `field if field is not None else old`
  abbrev pub or_else : Field A → A → A
  or_else (value a) old = a
  or_else _ old = old

  -- `field if it is sent else old`, for a column that can be null
  abbrev pub or_kept : Field A → Option A → Option A
  or_kept unset old = old
  or_kept null old = none
  or_kept (value a) old = some a

  -- The value of a field, null if it is not sent.
  abbrev pub given : Field A → Option A
  given (value a) = some a
  given _ = none

  -- A field that is sent with this value.
  abbrev pub sent : Option A → Field A
  sent none = null
  sent (some a) = value a

pub record PhaseAssignment : Type 0 where
  pub kind : String
  pub phase_id : Option ℕ

pub record TaskCreate : Type 0 where
  pub parent_task_id : Option ℕ
  pub task_code : Option Text
  pub title : String
  pub description : Option String
  pub task_type : String
  pub status : String
  pub priority : String
  pub assignee_id : Option ℕ
  pub reporter_id : Option ℕ
  pub start_date : Option ℕ
  pub due_date : Option ℕ
  pub actual_start_date : Option ℕ
  pub actual_end_date : Option ℕ
  pub progress_percent : ℕ
  pub estimated_minutes : Option ℕ
  pub actual_minutes : Option ℕ
  pub estimated_basis : String
  pub actual_basis : String
  pub sort_order : ℤ
  pub tags : List String
  pub phase_assignment : Option PhaseAssignment
  pub requirement_id : Option ℕ
  pub relation_type : String

-- The schema refuses a null for the two bases.
pub record TaskUpdate : Type 0 where
  pub version : ℕ
  pub phase_assignment : Field PhaseAssignment
  pub estimated_basis : Field String
  pub actual_basis : Field String
  pub parent_task_id : Field ℕ
  pub task_code : Field Text
  pub title : Field String
  pub description : Field String
  pub task_type : Field String
  pub status : Field String
  pub priority : Field String
  pub assignee_id : Field ℕ
  pub reporter_id : Field ℕ
  pub start_date : Field ℕ
  pub due_date : Field ℕ
  pub actual_start_date : Field ℕ
  pub actual_end_date : Field ℕ
  pub progress_percent : Field ℕ
  pub estimated_minutes : Field ℕ
  pub actual_minutes : Field ℕ
  pub sort_order : Field ℤ
  pub tags : Field (List String)
  pub change_reason : Field Text

pub record TaskPlanningUpdate : Type 0 where
  pub version : ℕ
  pub assignee_id : Field ℕ
  pub start_date : Field ℕ
  pub due_date : Field ℕ
  pub estimated_minutes : Field ℕ
  pub change_reason : Field Text

pub record TaskMoveRequest : Type 0 where
  pub version : ℕ
  pub status : String
  pub sort_order : ℤ
  pub change_reason : Option Text

-- `TaskUpdate(version=version)`: no other field is sent.
abbrev pub empty_update : ℕ → TaskUpdate
empty_update version = record {
  version = version;
  phase_assignment = unset;
  estimated_basis = unset;
  actual_basis = unset;
  parent_task_id = unset;
  task_code = unset;
  title = unset;
  description = unset;
  task_type = unset;
  status = unset;
  priority = unset;
  assignee_id = unset;
  reporter_id = unset;
  start_date = unset;
  due_date = unset;
  actual_start_date = unset;
  actual_end_date = unset;
  progress_percent = unset;
  estimated_minutes = unset;
  actual_minutes = unset;
  sort_order = unset;
  tags = unset;
  change_reason = unset;
}

-- `TaskUpdate.model_validate(task_in.model_dump(exclude_unset=True))`
abbrev pub as_update : TaskPlanningUpdate → TaskUpdate
as_update task_in = record (empty_update task_in.version) {
  assignee_id = task_in.assignee_id;
  start_date = task_in.start_date;
  due_date = task_in.due_date;
  estimated_minutes = task_in.estimated_minutes;
  change_reason = task_in.change_reason;
}
