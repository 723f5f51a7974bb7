-- ===== src/Task/Tables.antt =====
-- The tables that the handlers of tasks, boards and relations read and write.
use sync_nesto_backend.Base.{
  ℕ, String, Bool, ◌&&◌, Option, none, some, List, [], ◌∷◌, ◌++◌, ◌==◌, is_none, find?, any,
  if◌then◌else◌, str_eq,
}
use sync_nesto_backend.Base.Text.{Text, text_eq}
use sync_nesto_backend.Database.{Action, modify, commit, ◌>>◌}
use sync_nesto_backend.Task.Model.{Task, TaskChangeLog}

pub record ProjectPhase : Type 0 where
  pub id : ℕ
  pub project_id : ℕ
  pub name : Text
  pub sort_order : ℕ
  pub archived_at : Option ℕ
  pub created_by : ℕ
  pub updated_by : ℕ
  pub version : ℕ

pub record ProjectTaskType : Type 0 where
  pub project_id : ℕ
  pub key : String
  pub is_active : Bool

pub record Requirement : Type 0 where
  pub id : ℕ
  pub project_id : ℕ

pub record RequirementTaskRelation : Type 0 where
  pub id : ℕ
  pub requirement_id : ℕ
  pub task_id : ℕ
  pub relation_type : String
  pub created_by : Option ℕ

pub record Board : Type 0 where
  pub id : ℕ
  pub project_id : ℕ
  pub deleted_at : Option ℕ

-- An entry of the audit log.
pub record AuditLog : Type 0 where
  pub event_type : String
  pub actor_user_id : Option ℕ
  pub project_id : ℕ
  pub resource_id : ℕ

-- A call of `NotificationService.emit`, which chooses the recipients with access and writes the rows.
pub record Emission : Type 0 where
  pub kind : String
  pub recipient_id : ℕ
  pub actor_id : Option ℕ
  pub target_id : ℕ
  pub version : ℕ

-- `projects` holds the ids of the live projects, `users` those of all users, `members` the active members (project and
-- user), `requirements` the live requirements of live documents, and `bug_tasks` the tasks of test cases' issues.
pub record ItemTables : Type 0 where
  pub projects : List ℕ
  pub users : List ℕ
  pub members : List (ℕ × ℕ)
  pub requirements : List Requirement
  pub phases : List ProjectPhase
  pub task_types : List ProjectTaskType
  pub boards : List Board
  pub bug_tasks : List ℕ
  pub tasks : List Task
  pub relations : List RequirementTaskRelation
  pub change_logs : List TaskChangeLog
  pub audit_logs : List AuditLog
  pub emissions : List Emission
  pub next_id : ℕ

-- `TaskRepository.get_by_id`
abbrev pub live_task : List Task → ℕ → Option Task
live_task tasks id = find? (λ task. task.id == id && is_none task.deleted_at) tasks

-- `TaskBoardRepository.get_by_id`
abbrev pub live_board : List Board → ℕ → Option Board
live_board boards id = find? (λ board. board.id == id && is_none board.deleted_at) boards

-- The rows after the row with the id of `row` has been written.
abbrev pub put : Task → List Task → List Task
put row [] = []
put row (r ∷ rows) = (if r.id == row.id then row else r) ∷ put row rows

-- `TaskPhaseRepository.get`
abbrev pub get_phase : ItemTables → ℕ → ℕ → Option ProjectPhase
get_phase t project_id phase_id =
    find? (λ p. p.id == phase_id && p.project_id == project_id) t.phases

-- `TaskTypeRepository.get`
abbrev pub get_type : ItemTables → ℕ → String → Option ProjectTaskType
get_type t project_id key =
    find? (λ row. row.project_id == project_id && str_eq row.key key) t.task_types

-- `key in TaskTypeRepository.legacy_keys(...)`
abbrev pub is_legacy_key : ItemTables → ℕ → String → Bool
is_legacy_key t project_id key =
    any (λ r. r.project_id == project_id && is_none r.deleted_at && str_eq r.task_type key) t.tasks

-- `TaskRepository.get_by_project_code`, as a test
abbrev pub code_taken : ItemTables → ℕ → Text → Bool
code_taken t project_id code =
    any (λ r. r.project_id == project_id && text_eq r.task_code code && is_none r.deleted_at)
      t.tasks

-- `get_requirement_project_id`
unfoldable pub requirement_project : ItemTables → ℕ → Option ℕ
requirement_project t requirement_id =
    let found = find? (λ r. r.id == requirement_id) t.requirements in
    elim found [ none ↦ none | some r ↦ some r.project_id ]

-- `TaskChangeLogRepository.create`, which commits
abbrev pub create_change_log : TaskChangeLog → Action ItemTables Unit
create_change_log entry =
    modify (λ t. record t { change_logs = t.change_logs ++ entry ∷ [] }) >> commit

-- `AuditLogService.record`, which commits
abbrev pub record_audit : AuditLog → Action ItemTables Unit
record_audit entry = modify (λ t. record t { audit_logs = t.audit_logs ++ entry ∷ [] }) >> commit

abbrev pub emit : Emission → Action ItemTables Unit
emit e = modify (λ t. record t { emissions = t.emissions ++ e ∷ [] })
