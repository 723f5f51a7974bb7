-- ===== src/Task/Check.antt =====
-- The checks of the handlers of tasks, in their order, and the dates that a change of state sets.
-- They only read; the `select` of demo environments in `_update_task` is left out.
use sync_nesto_backend.Base.{
  ℕ, String, Bool, true, false, not, ◌&&◌, ◌||◌, Option, none, some, [], ◌∷◌, ◌==◌, ltb, is_some,
  contains, any, opt_eq, str_eq, if◌then◌else◌,
}
use sync_nesto_backend.Base.Text.{Text, text_eq, strip}
use sync_nesto_backend.Errors.{
  Result, ok, bad_request, not_found, duplicate, project_not_found, requirement_not_found,
  task_return_create_invalid, task_return_reason_required, task_done_progress_invalid,
  task_code_already_exists, task_type_unavailable, task_planning_dates_invalid,
  task_planning_assignee_invalid, task_bug_type_locked, task_phase_not_found, task_phase_archived,
  refuse_if, or_refuse, ◌>>=◌, ◌>>◌,
}
use sync_nesto_backend.Task.Model.{Task}
use sync_nesto_backend.Task.Tables.{
  ItemTables, ProjectTaskType, get_phase, get_type, is_legacy_key, code_taken, requirement_project,
}
use sync_nesto_backend.Task.Input.{
  Field, unset, value, is_sent, or_else, or_kept, given, sent, PhaseAssignment, TaskCreate,
  TaskUpdate,
}
use sync_nesto_backend.Task.Code.{normalize_task_code}
use sync_nesto_backend.Task.Parent.{validate_parent, validate_new_parent}

-- `_get_requirement_project_id`
abbrev pub get_requirement_project : ItemTables → ℕ → Result ℕ
get_requirement_project t requirement_id =
    or_refuse (requirement_project t requirement_id) (not_found requirement_not_found)

-- `_ensure_requirement_in_project`, when the request names a requirement
abbrev pub ensure_requirement : ItemTables → ℕ → Option ℕ → Result Unit
ensure_requirement t project_id none = ok tt
ensure_requirement t project_id (some requirement_id) = do
  found ← get_requirement_project t requirement_id
  refuse_if (not (found == project_id)) (not_found requirement_not_found)

-- `key in STANDARD_TASK_TYPES`
abbrev pub is_standard : String → Bool
is_standard key =
    any (λ name. str_eq name key)
      ("other" ∷ "bug" ∷ "frontend" ∷ "backend" ∷ "database" ∷ "infrastructure" ∷ "security"
        ∷ "test" ∷ "review" ∷ "investigation" ∷ "documentation" ∷ [])

abbrev pub is_usable : Option ProjectTaskType → Bool → Bool
is_usable none legacy = legacy
is_usable (some row) legacy = row.is_active

-- `TaskTypeService.validate`
abbrev pub validate_type : ItemTables → ℕ → String → Result Unit
validate_type t project_id key =
    refuse_if
      (not
        (is_standard key || is_usable (get_type t project_id key) (is_legacy_key t project_id key)))
      (bad_request task_type_unavailable)

-- `validate_assignment` of `TaskPhaseService` for the phase of an assignment
abbrev pub validate_phase : ItemTables → ℕ → ℕ → Option ℕ → Result Unit
validate_phase t project_id phase_id current_phase_id = do
  phase ← or_refuse (get_phase t project_id phase_id) (not_found task_phase_not_found)
  refuse_if (is_some phase.archived_at && not (opt_eq current_phase_id (some phase.id)))
      (bad_request task_phase_archived)

-- `validate_assignment` of `TaskPhaseService`
abbrev pub validate_assignment : ItemTables → ℕ → Option PhaseAssignment → Option ℕ → Result Unit
validate_assignment t project_id none current_phase_id = ok tt
validate_assignment t project_id (some assignment) current_phase_id = elim assignment.phase_id [
  | none ↦ ok tt
  | some phase_id ↦ validate_phase t project_id phase_id current_phase_id
]

-- `_validate_task_state`
abbrev pub validate_state : String → ℕ → Result Unit
validate_state status progress_percent =
    refuse_if (str_eq status "done" && not (progress_percent == 100))
      (bad_request task_done_progress_invalid)

-- What `_normalize_task_dates` returns.
pub record TaskDates : Type 0 where
  pub progress_percent : ℕ
  pub actual_start_date : Option ℕ
  pub actual_end_date : Option ℕ

-- `date if date is not None else today`
abbrev pub or_today : Option ℕ → ℕ → Option ℕ
or_today none today = some today
or_today (some date) today = some date

abbrev pub normalize_task_dates : ℕ → String → ℕ → Option ℕ → Option ℕ → TaskDates
normalize_task_dates today status progress_percent start end = record {
  progress_percent = if str_eq status "done" then 100 else progress_percent;
  actual_start_date = if str_eq status "in_progress" then or_today start today else start;
  actual_end_date = if str_eq status "done" then or_today end today else end;
}

-- `requested_task_code and get_by_project_code(...)`
abbrev pub refuse_code : ItemTables → ℕ → Option Text → Result Unit
refuse_code t project_id none = ok tt
refuse_code t project_id (some code) =
    refuse_if (code_taken t project_id code) (duplicate task_code_already_exists)

-- The checks of `create_task` before the first attempt to write.
unfoldable pub check_create : ItemTables → ℕ → TaskCreate → Result Unit
check_create t project_id task_in = do
  refuse_if (not (contains t.projects project_id)) (not_found project_not_found)
  validate_parent t.tasks project_id task_in.parent_task_id
  validate_state task_in.status task_in.progress_percent
  refuse_if (str_eq task_in.status "returned") (bad_request task_return_create_invalid)
  validate_type t project_id task_in.task_type
  ensure_requirement t project_id task_in.requirement_id
  refuse_code t project_id (normalize_task_code task_in.task_code)

-- Both dates are given and the first is after the second.
abbrev pub is_after : Option ℕ → Option ℕ → Bool
is_after (some start) (some due) = ltb due start
is_after _ _ = false

-- The new assignee is another one than before and no active member of the project.
abbrev pub is_outsider : ItemTables → Task → Field ℕ → Bool
is_outsider t task (value user_id) =
    not (opt_eq (some user_id) task.assignee_id)
    && not
        (any (λ (project_id, member). project_id == task.project_id && member == user_id) t.members)
is_outsider t task _ = false

-- `_validate_planning_update`
abbrev pub validate_planning : ItemTables → Task → TaskUpdate → Result Unit
validate_planning t task u = do
  refuse_if
      ((is_sent u.start_date || is_sent u.due_date)
        && is_after (or_kept u.start_date task.start_date) (or_kept u.due_date task.due_date))
      (bad_request task_planning_dates_invalid)
  refuse_if (is_outsider t task u.assignee_id) (bad_request task_planning_assignee_invalid)

-- The field is sent with a value other than this one.
abbrev pub is_other : Field String → String → Bool
is_other (value new) old = not (str_eq new old)
is_other _ old = false

abbrev pub or_code : Task → Option Text → Field Text
or_code task none = value task.task_code
or_code task (some code) = value code

-- The request with its task code stripped, or the code of the task where it is blank or null.
abbrev pub with_code : Task → TaskUpdate → TaskUpdate
with_code task u =
    if is_sent u.task_code
    then record u { task_code = or_code task (normalize_task_code (given u.task_code)) }
    else u

-- The check of a parent that is sent.
abbrev pub check_parent : ItemTables → Task → Field ℕ → Result Unit
check_parent t task unset = ok tt
check_parent t task parent = validate_new_parent t.tasks task.project_id (given parent) task.id

-- The check of a code that is sent and is not the task's.
abbrev pub check_code : ItemTables → Task → Field Text → Result Unit
check_code t task (value code) =
    refuse_if (not (text_eq code task.task_code) && code_taken t task.project_id code)
      (duplicate task_code_already_exists)
check_code t task _ = ok tt

-- `not (change_reason or "").strip()`
abbrev pub is_blank : Option Text → Bool
is_blank none = true
is_blank (some reason) = text_eq (strip reason) []

abbrev pub next_status : Task → TaskUpdate → String
next_status task u = or_else u.status task.status

abbrev pub next_progress : Task → TaskUpdate → ℕ
next_progress task u = or_else u.progress_percent task.progress_percent

abbrev pub is_returning : Task → TaskUpdate → Bool
is_returning task u = str_eq (next_status task u) "returned" && not (str_eq task.status "returned")

-- The check of a type that is sent and is not the task's.
abbrev pub check_type : ItemTables → Task → Field String → Result Unit
check_type t task (value key) =
    if str_eq key task.task_type then ok tt else validate_type t task.project_id key
check_type t task _ = ok tt

abbrev pub check_phase : ItemTables → Task → Field PhaseAssignment → Result Unit
check_phase t task unset = ok tt
check_phase t task assignment =
    validate_assignment t task.project_id (given assignment) task.phase_id

-- The checks of `_update_task` after that of the version, for a request with its code stripped.
unfoldable pub check_update : ItemTables → Task → TaskUpdate → Bool → Result Unit
check_update t task u planning_only = do
  if planning_only then validate_planning t task u else ok tt
  refuse_if
      (str_eq task.task_type "bug" && is_other u.task_type "bug" && contains t.bug_tasks task.id)
      (bad_request task_bug_type_locked)
  check_parent t task u.parent_task_id
  check_code t task u.task_code
  refuse_if (is_returning task u && is_blank (given u.change_reason))
      (bad_request task_return_reason_required)
  check_type t task u.task_type
  if planning_only then ok tt else validate_state (next_status task u) (next_progress task u)
  check_phase t task u.phase_assignment

-- A field whose change can set the dates is sent.
abbrev pub is_dated : TaskUpdate → Bool
is_dated u =
    is_sent u.status
    || is_sent u.progress_percent
    || is_sent u.actual_start_date
    || is_sent u.actual_end_date
    || is_sent u.actual_minutes

-- `_normalize_task_dates` for the task as the request leaves it
abbrev pub next_dates : ℕ → Task → TaskUpdate → TaskDates
next_dates today task u =
    normalize_task_dates today (next_status task u) (next_progress task u)
      (or_kept u.actual_start_date task.actual_start_date)
      (or_kept u.actual_end_date task.actual_end_date)

-- `model_copy(update=dates)`
abbrev pub with_dates : TaskDates → TaskUpdate → TaskUpdate
with_dates dates u = record u {
  progress_percent = value dates.progress_percent;
  actual_start_date = sent dates.actual_start_date;
  actual_end_date = sent dates.actual_end_date;
}

-- The request with the progress and the dates of `_normalize_task_dates`. (A request without these
-- fields is left as it is, so that the exception for requests on phase and bases changes nothing.)
abbrev pub normalized_update : ℕ → Bool → Task → TaskUpdate → TaskUpdate
normalized_update today planning_only task u =
    if not planning_only && is_dated u then with_dates (next_dates today task u) u else u
