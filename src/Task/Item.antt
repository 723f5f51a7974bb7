-- ===== src/Task/Item.antt =====
-- The handlers of tasks: app/services/task.py over app/repositories/task_item.py, and `move_task` of
-- app/services/task_board.py. `today` and `now` are read from the clock.
pub mod Relation
pub mod Step
pub mod Served
pub mod Fresh
pub mod Outcome
pub mod Reason
pub mod Planning
pub mod Dates
pub mod Progress
use sync_nesto_backend.Base.{
  ℕ, zero, suc, ◌+◌, ◌-◌, String, Bool, true, false, not, ◌&&◌, ◌||◌, Option, none, some, List, [],
  ◌∷◌, ◌++◌, ◌==◌, contains, any, opt_eq, str_eq, if◌then◌else◌,
}
use sync_nesto_backend.Base.Text.{Text, text_eq}
use sync_nesto_backend.Errors.{
  Result, ok, err, duplicate, version_conflict, not_found, data_error, task_not_found,
  board_not_found, task_code_already_exists,
}
use sync_nesto_backend.Database.{
  Action, pure, raise, gets, inspect, or_raise, raise_if, modify, commit, rollback, ◌>>=◌, ◌>>◌,
  Snapshot, field, Value, word, chars, integer,
}
use sync_nesto_backend.Task.Model.{Task, TaskChangeLog}
use sync_nesto_backend.Task.Tables.{
  ItemTables, Board, live_board, live_task, put, create_change_log, record_audit, emit,
}
use sync_nesto_backend.Task.Input.{
  Field, value, is_sent, is_null, or_else, or_kept, given, PhaseAssignment, TaskCreate, TaskUpdate,
  TaskPlanningUpdate, TaskMoveRequest, empty_update, as_update,
}
use sync_nesto_backend.Task.Code.{normalize_task_code, max_auto_task_number, auto_code}
use sync_nesto_backend.Task.Check.{
  validate_assignment, TaskDates, normalize_task_dates, check_create, with_code, is_returning,
  check_update, normalized_update,
}
use sync_nesto_backend.Task.Log.{
  Change, task_snapshot, candidate_fields, changed_fields, update_log,
}
use sync_nesto_backend.Task.Rows.{
  change, violates, created_row, updated_row, has_null, deleted_row, return_update, moved_row,
  place,
}

-- `get_task`
abbrev pub get_task : ℕ → Action ItemTables Task
get_task task_id = do
  task ← gets (λ t. live_task t.tasks task_id)
  or_raise task (not_found task_not_found)

-- `_record_audit`
abbrev pub audit : String → Option ℕ → Task → Action ItemTables Unit
audit event_type actor_id task = record_audit (record {
  event_type = event_type;
  actor_user_id = actor_id;
  project_id = task.project_id;
  resource_id = task.id;
})

-- `NotificationService.assignment_changed`
abbrev pub assignment_changed : Option ℕ → Task → Option ℕ → Option ℕ → Action ItemTables Unit
assignment_changed actor_id task previous_user_id none = pure tt
assignment_changed actor_id task previous_user_id (some recipient_id) =
    if opt_eq (some recipient_id) previous_user_id
    then pure tt
    else emit (record {
      kind = "assigned";
      recipient_id = recipient_id;
      actor_id = actor_id;
      target_id = task.id;
      version = task.version;
    })

-- `max + 1`, unless the maximum is out of range in the query
abbrev pub code_after : Option ℕ → Result Text
code_after none = err data_error
code_after (some n) = ok (auto_code (n + 1))

-- `requested_task_code or self._generate_task_code(db, project_id)`
abbrev pub choose_code : ItemTables → ℕ → Option Text → Result Text
choose_code t project_id (some code) = ok code
choose_code t project_id none = code_after (max_auto_task_number project_id t.tasks)

-- The row of `create_task` is added.
abbrev pub add_row : Task → Action ItemTables (Option Task)
add_row row = do
  modify (λ t. record t { tasks = t.tasks ++ row ∷ []; next_id = suc t.next_id })
  pure (some row)

-- The attempts of `create_task` to write the row; `none` is a violated constraint at the last one.
unfoldable pub try_create :
    ℕ → ℕ → ℕ → TaskCreate → Option Text → Option ℕ → Action ItemTables (Option Task)
try_create zero today project_id task_in requested actor_id = pure none
try_create (suc attempts) today project_id task_in requested actor_id = do
  inspect (λ t. validate_assignment t project_id task_in.phase_assignment none)
  code ← inspect (λ t. choose_code t project_id requested)
  row ← gets (λ t. created_row today t.next_id project_id task_in code actor_id)
  refused ← gets (λ t. violates t row)
  if refused
      then (rollback >> try_create attempts today project_id task_in requested actor_id)
      else add_row row

abbrev pub retry_limit : Option Text → ℕ
retry_limit none = 5
retry_limit (some code) = 1

-- The logs of `create_task` for the row that it has written
abbrev pub log_create : Task → Option ℕ → Action ItemTables Task
log_create task actor_id = do
  create_change_log (
      change task.project_id "task" task.id "created" none
        (some
          (("task_code", field (chars task.task_code)) ∷ ("title", field (word task.title)) ∷ []))
        actor_id)
  audit "task.created" actor_id task
  pure task

-- The notification and the logs of `create_task`
abbrev pub finish_create : Task → Option ℕ → Action ItemTables Task
finish_create task actor_id = do
  assignment_changed actor_id task none task.assignee_id
  log_create task actor_id

-- `create_task` up to the audit entry; the relation of the task is added by `Relation.create_task`.
abbrev pub create_row : ℕ → ℕ → TaskCreate → Option ℕ → Action ItemTables Task
create_row today project_id task_in actor_id = do
  inspect (λ t. check_create t project_id task_in)
  let requested = normalize_task_code task_in.task_code
  created ← try_create (retry_limit requested) today project_id task_in requested actor_id
  task ← or_raise created (duplicate task_code_already_exists)
  finish_create task actor_id

-- The notification of a task that is sent back to its assignee
abbrev pub notify_returned : Bool → Option ℕ → Task → Action ItemTables Unit
notify_returned returning actor_id task =
    if returning
    then elim task.assignee_id [
      | none ↦ pure tt
      | some recipient_id ↦ emit (record {
        kind = "task_returned";
        recipient_id = recipient_id;
        actor_id = actor_id;
        target_id = task.id;
        version = task.version;
      })
    ]
    else pure tt

-- `if updated_fields:`, with `_record_task_update_logs`
abbrev pub record_update : Task → List Change → Option Text → Option ℕ → Action ItemTables Unit
record_update task [] reason actor_id = pure tt
record_update task (c ∷ changes) reason actor_id = do
  create_change_log (update_log task (c ∷ changes) reason actor_id)
  audit "task.updated" actor_id task

-- The logs of `_update_task` for the row that it has written, and its commit.
abbrev pub finish_update :
    Task → List (String × Value) → TaskUpdate → Option ℕ → Action ItemTables Task
finish_update row before u actor_id = do
  after ← gets (λ t. task_snapshot t.phases row)
  record_update row (changed_fields (candidate_fields u) before after) (given u.change_reason)
      actor_id
  commit
  pure row

-- The notifications of `_update_task`
abbrev pub notify_update : Task → Task → TaskUpdate → Option ℕ → Action ItemTables Unit
notify_update task row u actor_id = do
  notify_returned (is_returning task u) actor_id row
  assignment_changed actor_id row task.assignee_id row.assignee_id

-- The row of `_update_task`, with the notifications and the logs
abbrev pub put_update :
    Task → Task → List (String × Value) → TaskUpdate → Option ℕ → Action ItemTables Task
put_update task row before u actor_id = do
  modify (λ t. record t { tasks = put row t.tasks })
  notify_update task row u actor_id
  finish_update row before u actor_id

-- The write of `_update_task` and what follows it, for a request that has passed the checks.
abbrev pub write_update : Task → TaskUpdate → TaskUpdate → Option ℕ → Action ItemTables Task
write_update task u normalized actor_id = do
  before ← gets (λ t. task_snapshot t.phases task)
  let row = updated_row normalized actor_id task
  refused ← gets (λ t. has_null normalized || violates t row)
  if refused
      then (rollback >> raise (duplicate task_code_already_exists))
      else put_update task row before u actor_id

-- The checks of `_update_task` and what follows them, for a request with its code stripped.
abbrev pub check_and_write : Bool → ℕ → Task → TaskUpdate → Option ℕ → Action ItemTables Task
check_and_write planning_only today task u actor_id = do
  inspect (λ t. check_update t task u planning_only)
  write_update task u (normalized_update today planning_only task u) actor_id

abbrev pub update_found : Bool → ℕ → Task → TaskUpdate → Option ℕ → Action ItemTables Task
update_found planning_only today task task_in actor_id = do
  raise_if (not (task.version == task_in.version)) version_conflict
  check_and_write planning_only today task (with_code task task_in) actor_id

-- `_update_task`
unfoldable pub update_with : Bool → ℕ → ℕ → TaskUpdate → Option ℕ → Action ItemTables Task
update_with planning_only today task_id task_in actor_id = do
  task ← get_task task_id
  update_found planning_only today task task_in actor_id

abbrev pub update_task : ℕ → ℕ → TaskUpdate → Option ℕ → Action ItemTables Task
update_task today task_id task_in actor_id = update_with false today task_id task_in actor_id

abbrev pub update_task_planning : ℕ → ℕ → TaskPlanningUpdate → Option ℕ → Action ItemTables Task
update_task_planning today task_id task_in actor_id =
    update_with true today task_id (as_update task_in) actor_id

abbrev pub delete_found : ℕ → Task → Option ℕ → Action ItemTables Unit
delete_found now task actor_id = do
  modify (λ t. record t { tasks = put (deleted_row now actor_id task) t.tasks })
  commit
  create_change_log (
      change task.project_id "task" task.id "deleted"
        (some (("task_code", field (chars task.task_code)) ∷ [])) none actor_id)
  audit "task.deleted" actor_id task

unfoldable pub delete_task : ℕ → ℕ → Option ℕ → Action ItemTables Unit
delete_task now task_id actor_id = do task ← get_task task_id; delete_found now task actor_id

-- `TaskBoardService.get_board`
abbrev pub get_board : ℕ → Action ItemTables Board
get_board board_id = do
  board ← gets (λ t. live_board t.boards board_id)
  or_raise board (not_found board_not_found)

-- `move_task` for a task that is not sent back
abbrev pub place_task : ℕ → Task → TaskMoveRequest → Option ℕ → Action ItemTables Task
place_task today task move_in actor_id = do
  let row = moved_row today move_in actor_id task
  modify (λ t. record t { tasks = put row t.tasks })
  commit
  create_change_log
      (change row.project_id "task" row.id "moved" (some (place task)) (some (place row)) actor_id)
  pure row

-- `move_task` after its checks
abbrev pub move_found : ℕ → Task → TaskMoveRequest → Option ℕ → Action ItemTables Task
move_found today task move_in actor_id =
    if str_eq move_in.status "returned" && not (str_eq task.status "returned")
    then update_task today task.id (return_update move_in) actor_id
    else place_task today task move_in actor_id

-- The checks of `move_task` on the task
abbrev pub move_checked : ℕ → Board → Task → TaskMoveRequest → Option ℕ → Action ItemTables Task
move_checked today board task move_in actor_id = do
  raise_if (not (task.project_id == board.project_id)) (not_found task_not_found)
  raise_if (not (task.version == move_in.version)) version_conflict
  move_found today task move_in actor_id

abbrev pub move_on : ℕ → Board → ℕ → TaskMoveRequest → Option ℕ → Action ItemTables Task
move_on today board task_id move_in actor_id = do
  task ← get_task task_id
  move_checked today board task move_in actor_id

-- `TaskBoardService.move_task`
unfoldable pub move_task : ℕ → ℕ → ℕ → TaskMoveRequest → Option ℕ → Action ItemTables Task
move_task today board_id task_id move_in actor_id = do
  board ← get_board board_id
  move_on today board task_id move_in actor_id
