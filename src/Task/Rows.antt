-- ===== src/Task/Rows.antt =====
-- The rows that the handlers of tasks write, and the constraints that a flush checks:
-- app/repositories/task_item.py and app/models/task.py.
use sync_nesto_backend.Base.{
  ℕ, ◌+◌, String, Bool, false, not, ◌&&◌, ◌||◌, Option, none, some, List, [], ◌∷◌, ◌==◌, contains,
  any, str_eq, if◌then◌else◌,
}
use sync_nesto_backend.Base.Text.{Text, text_eq}
use sync_nesto_backend.Database.{Snapshot, field, word, integer}
use sync_nesto_backend.Task.Model.{Task, TaskChangeLog}
use sync_nesto_backend.Task.Tables.{ItemTables}
use sync_nesto_backend.Task.Input.{
  Field, value, is_sent, is_null, or_else, or_kept, given, PhaseAssignment, TaskCreate, TaskUpdate,
  TaskMoveRequest, empty_update,
}
use sync_nesto_backend.Task.Check.{normalize_task_dates}

-- The entry that `_record_change` writes for a task or a relation.
abbrev pub change :
    ℕ → String → ℕ → String → Option Snapshot → Option Snapshot → Option ℕ → TaskChangeLog
change project_id target_type target_id action old_value new_value changed_by = record {
  project_id = project_id;
  target_type = target_type;
  target_id = target_id;
  action = action;
  field_name = none;
  old_value = old_value;
  new_value = new_value;
  reason = none;
  changed_by = changed_by;
}

abbrev pub is_no_user : List ℕ → Option ℕ → Bool
is_no_user users none = false
is_no_user users (some user_id) = not (contains users user_id)

-- The flush of a row violates `uq_tasks_project_task_code`, which counts deleted rows too, or the
-- foreign key of the assignee or of the reporter.
unfoldable pub violates : ItemTables → Task → Bool
violates t row =
    any
      (λ r.
        not (r.id == row.id) && r.project_id == row.project_id && text_eq r.task_code row.task_code)
      t.tasks
    || is_no_user t.users row.assignee_id
    || is_no_user t.users row.reporter_id

-- The scope and the phase of an assignment, `unclassified` without one
abbrev pub scope_of : Option PhaseAssignment → String
scope_of none = "unclassified"
scope_of (some assignment) = assignment.kind

abbrev pub phase_of : Option PhaseAssignment → Option ℕ
phase_of none = none
phase_of (some assignment) = assignment.phase_id

-- The row that `TaskRepository.create` adds, under the id that the database gives.
abbrev pub created_row : ℕ → ℕ → ℕ → TaskCreate → Text → Option ℕ → Task
created_row today id project_id task_in task_code actor_id =
    let dates =
      normalize_task_dates today task_in.status task_in.progress_percent task_in.actual_start_date
        task_in.actual_end_date in
    record {
      id = id;
      project_id = project_id;
      parent_task_id = task_in.parent_task_id;
      phase_scope = scope_of task_in.phase_assignment;
      phase_id = phase_of task_in.phase_assignment;
      task_code = task_code;
      title = task_in.title;
      description = task_in.description;
      task_type = task_in.task_type;
      status = task_in.status;
      priority = task_in.priority;
      assignee_id = task_in.assignee_id;
      reporter_id = task_in.reporter_id;
      start_date = task_in.start_date;
      due_date = task_in.due_date;
      actual_start_date = dates.actual_start_date;
      actual_end_date = dates.actual_end_date;
      progress_percent = dates.progress_percent;
      estimated_minutes = task_in.estimated_minutes;
      actual_minutes = task_in.actual_minutes;
      estimated_basis = task_in.estimated_basis;
      actual_basis = task_in.actual_basis;
      sort_order = task_in.sort_order;
      tags = some task_in.tags;
      created_by = actor_id;
      updated_by = actor_id;
      version = 1;
      deleted_at = none;
    }

-- The row that `TaskRepository.update` writes; where a null is sent for a column that cannot be
-- null, the flush fails.
abbrev pub updated_row : TaskUpdate → Option ℕ → Task → Task
updated_row u actor_id task = record task {
  parent_task_id = or_kept u.parent_task_id task.parent_task_id;
  task_code = or_else u.task_code task.task_code;
  title = or_else u.title task.title;
  description = or_kept u.description task.description;
  task_type = or_else u.task_type task.task_type;
  status = or_else u.status task.status;
  priority = or_else u.priority task.priority;
  assignee_id = or_kept u.assignee_id task.assignee_id;
  reporter_id = or_kept u.reporter_id task.reporter_id;
  start_date = or_kept u.start_date task.start_date;
  due_date = or_kept u.due_date task.due_date;
  actual_start_date = or_kept u.actual_start_date task.actual_start_date;
  actual_end_date = or_kept u.actual_end_date task.actual_end_date;
  progress_percent = or_else u.progress_percent task.progress_percent;
  estimated_minutes = or_kept u.estimated_minutes task.estimated_minutes;
  actual_minutes = or_kept u.actual_minutes task.actual_minutes;
  estimated_basis = or_else u.estimated_basis task.estimated_basis;
  actual_basis = or_else u.actual_basis task.actual_basis;
  sort_order = or_else u.sort_order task.sort_order;
  tags = or_kept u.tags task.tags;
  phase_scope =
      if is_sent u.phase_assignment then scope_of (given u.phase_assignment) else task.phase_scope;
  phase_id =
      if is_sent u.phase_assignment then phase_of (given u.phase_assignment) else task.phase_id;
  updated_by = actor_id;
  version = task.version + 1;
}

-- A null is sent for a column that cannot be null.
abbrev pub has_null : TaskUpdate → Bool
has_null u =
    is_null u.task_code
    || is_null u.title
    || is_null u.task_type
    || is_null u.status
    || is_null u.priority
    || is_null u.progress_percent
    || is_null u.estimated_basis
    || is_null u.actual_basis
    || is_null u.sort_order

-- The row that `TaskRepository.soft_delete` writes.
abbrev pub deleted_row : ℕ → Option ℕ → Task → Task
deleted_row now actor_id task = record task {
  deleted_at = some now;
  updated_by = actor_id;
  version = task.version + 1;
}

-- The request that `move_task` passes on to `update_task`.
abbrev pub return_update : TaskMoveRequest → TaskUpdate
return_update move_in = record (empty_update move_in.version) {
  status = value "returned";
  sort_order = value move_in.sort_order;
  change_reason = sent_reason move_in.change_reason;
}
  where
    sent_reason : Option Text → Field Text
    sent_reason none = Field.null
    sent_reason (some reason) = value reason

-- `date if date is not None else old`
abbrev pub or_old : Option ℕ → Option ℕ → Option ℕ
or_old none old = old
or_old (some date) old = some date

-- The row that `move_task` writes with `TaskRepository.move`.
abbrev pub moved_row : ℕ → TaskMoveRequest → Option ℕ → Task → Task
moved_row today move_in actor_id task =
    let progress = if str_eq move_in.status "done" then 100 else task.progress_percent in
    let dates =
      normalize_task_dates today move_in.status progress task.actual_start_date
        task.actual_end_date in
    record task {
      actual_start_date = or_old dates.actual_start_date task.actual_start_date;
      actual_end_date = or_old dates.actual_end_date task.actual_end_date;
      progress_percent = if dates.progress_percent == 100 then 100 else task.progress_percent;
      status = move_in.status;
      sort_order = move_in.sort_order;
      updated_by = actor_id;
      version = task.version + 1;
    }

-- The status and the place of a task, as `move_task` records them
abbrev pub place : Task → Snapshot
place task =
    ("status", field (word task.status)) ∷ ("sort_order", field (integer task.sort_order)) ∷ []
