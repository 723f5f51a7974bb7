-- ===== src/Task/Item/Progress.antt =====
-- `get_requirement_progress` of app/services/task.py.
pub mod Bounds
use sync_nesto_backend.Base.{
  ℕ, zero, suc, ◌+◌, ◌*◌, ◌/◌, ◌%◌, ◌≤◌, ◌<◌, ◌≡◌, ◌≢◌, refl, String, Bool, true, false, not, ◌&&◌,
  ◌||◌, Option, none, some, List, [], ◌∷◌, ◌++◌, ◌==◌, ltb, is_none, filter, any, arith, All,
  Bool-cases, length, str_eq, if◌then◌else◌,
}
use sync_nesto_backend.Database.{Action, pure, gets, inspect, ◌>>=◌, ◌>>◌}
use sync_nesto_backend.Task.Model.{Task}
use sync_nesto_backend.Task.Tables.{ItemTables}
use sync_nesto_backend.Task.Check.{get_requirement_project}

-- `list_tasks_by_requirement`: the live tasks with a relation to the requirement, each once. The
-- progress does not depend on their order.
abbrev pub list_requirement_tasks : ItemTables → ℕ → List Task
list_requirement_tasks t requirement_id =
    filter
      (λ task.
        is_none task.deleted_at
        && any (λ r. r.requirement_id == requirement_id && r.task_id == task.id) t.relations)
      t.tasks

-- `round(total / count)` rounds a half to the even number.
unfoldable pub round_div : ℕ → ℕ → ℕ
round_div total count =
    let q = total / count in
    let r = total % count in if ltb (2 * r) count || 2 * r == count && q % 2 == 0 then q else q + 1

unfoldable pub total_progress : List Task → ℕ
total_progress [] = 0
total_progress (task ∷ tasks) = task.progress_percent + total_progress tasks

-- `statuses <= names`
abbrev pub all_statuses : (String → Bool) → List Task → Bool
all_statuses p [] = true
all_statuses p (task ∷ tasks) = p task.status && all_statuses p tasks

-- One of the statuses of work that has begun.
abbrev pub is_begun : String → Bool
is_begun status =
    str_eq status "in_progress"
    || str_eq status "resolved"
    || str_eq status "in_review"
    || str_eq status "returned"
    || str_eq status "done"

abbrev pub requirement_status : List Task → String
requirement_status tasks =
    if all_statuses (λ s. str_eq s "cancelled") tasks
    then "cancelled"
    else if all_statuses (λ s. str_eq s "done") tasks
    then "implemented"
    else if any (λ task. is_begun task.status) tasks
    then "in_progress"
    else "not_started"

pub record RequirementTaskProgress : Type 0 where
  pub requirement_id : ℕ
  pub task_count : ℕ
  pub progress_percent : ℕ
  pub status : String

unfoldable pub progress_of : ℕ → List Task → RequirementTaskProgress
progress_of requirement_id [] = record {
  requirement_id = requirement_id;
  task_count = 0;
  progress_percent = 0;
  status = "not_started";
}
progress_of requirement_id (task ∷ tasks) = record {
  requirement_id = requirement_id;
  task_count = length (task ∷ tasks);
  progress_percent = round_div (total_progress (task ∷ tasks)) (length (task ∷ tasks));
  status = requirement_status (task ∷ tasks);
}

abbrev pub get_requirement_progress : ℕ → Action ItemTables RequirementTaskProgress
get_requirement_progress requirement_id = do
  inspect (λ t. get_requirement_project t requirement_id)
  gets (λ t. progress_of requirement_id (list_requirement_tasks t requirement_id))
