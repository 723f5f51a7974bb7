-- ===== src/Task/Model.antt =====
-- The tables of app/models/task.py, and the queries of app/repositories/task_item.py that the
-- handlers use. `tags` is null where the JSON value is. Dates are day numbers, times are microseconds, identifiers are numbers.
use sync_nesto_backend.Base.{ℕ, String, ◌&&◌, Option, List, [], ◌∷◌, ◌++◌, ◌==◌, is_none, find?}
use sync_nesto_backend.Base.Text.{Text}
use sync_nesto_backend.Base.Int.{ℤ}
use sync_nesto_backend.Database.{Snapshot, Action, modify, commit, ◌>>◌}

pub record Task : Type 0 where
  pub id : ℕ
  pub project_id : ℕ
  pub parent_task_id : Option ℕ
  pub phase_scope : String
  pub phase_id : Option ℕ
  pub task_code : Text
  pub title : String
  pub description : Option String
  pub task_type : String
  pub status : String
  pub priority : String
  pub assignee_id : Option ℕ
  pub reporter_id : Option ℕ
  pub start_date : Option ℕ
  pub due_date : Option ℕ
  pub actual_start_date : Option ℕ
  pub actual_end_date : Option ℕ
  pub progress_percent : ℕ
  pub estimated_minutes : Option ℕ
  pub actual_minutes : Option ℕ
  pub estimated_basis : String
  pub actual_basis : String
  pub sort_order : ℤ
  pub tags : Option (List String)
  pub created_by : Option ℕ
  pub updated_by : Option ℕ
  pub version : ℕ
  pub deleted_at : Option ℕ

pub record TaskDependency : Type 0 where
  pub id : ℕ
  pub predecessor_task_id : ℕ
  pub successor_task_id : ℕ
  pub dependency_type : String
  pub lag_days : ℤ
  pub version : ℕ
  pub created_by : Option ℕ

pub record TaskChangeLog : Type 0 where
  pub project_id : ℕ
  pub target_type : String
  pub target_id : ℕ
  pub action : String
  pub field_name : Option String
  pub old_value : Option Snapshot
  pub new_value : Option Snapshot
  pub reason : Option Text
  pub changed_by : Option ℕ

-- The tables that task handlers read and write. `next_id` is the sequence of the identifiers.
pub record TaskTables : Type 0 where
  pub tasks : List Task
  pub dependencies : List TaskDependency
  pub change_logs : List TaskChangeLog
  pub next_id : ℕ

-- `TaskRepository.get_by_id`: the task with this id that is not deleted.
abbrev pub get_by_id : TaskTables → ℕ → Option Task
get_by_id t task_id = find? (λ task. task.id == task_id && is_none task.deleted_at) t.tasks

-- `TaskChangeLogRepository.create`, which commits.
abbrev pub create_change_log : TaskChangeLog → Action TaskTables Unit
create_change_log entry =
    modify (λ t. record t { change_logs = t.change_logs ++ entry ∷ [] }) >> commit
