-- ===== src/Tests/Dependencies.antt =====
-- The dependency handlers of app/services/task_dependency.py on a project of three tasks.
use sync_nesto_backend.Base.{ℕ, ◌≡◌, refl, ◌⊎◌, ◌↔◌, true, none, some, List, [], ◌∷◌, ◌++◌}
use sync_nesto_backend.Base.Text.{codes}
use sync_nesto_backend.Base.Int.{pos}
use sync_nesto_backend.Errors.{ApiError, ok, err, bad_request, task_dependency_cycle}
use sync_nesto_backend.Database.{request}
use sync_nesto_backend.Task.Model.{Task, TaskDependency, TaskTables}
use sync_nesto_backend.Task.Dependency.{
  TaskDependencyCreate, new_row, search, creates_cycle, create_dependency, dependency_change,
  created_value,
}
use sync_nesto_backend.Task.Dependency.Graph.{Walk, IsAcyclic}
use sync_nesto_backend.Task.Dependency.Cycle.{creates_cycle_iff}
use sync_nesto_backend.Task.Dependency.Requests.{DependencyRequest, create, serve, serve-IsAcyclic}
use sync_nesto_backend.Task.Dependency.Accept.{
  IsAllowed, create_dependency_iff, create_dependency_atomic,
}

abbrev task : ℕ → Task
task n = record {
  id = n;
  project_id = 7;
  parent_task_id = none;
  phase_scope = "unclassified";
  phase_id = none;
  task_code = codes "TASK-001";
  title = "write";
  description = none;
  task_type = "task";
  status = "todo";
  priority = "medium";
  assignee_id = none;
  reporter_id = none;
  start_date = none;
  due_date = none;
  actual_start_date = none;
  actual_end_date = none;
  progress_percent = 0;
  estimated_minutes = none;
  actual_minutes = none;
  estimated_basis = "own";
  actual_basis = "own";
  sort_order = pos 0;
  tags = some [];
  created_by = none;
  updated_by = none;
  version = 1;
  deleted_at = none;
}

abbrev after : ℕ → ℕ → TaskDependencyCreate
after p s = record {
  predecessor_task_id = p;
  successor_task_id = s;
  dependency_type = "finish_to_start";
  lag_days = pos 0;
}

abbrev project : TaskTables
project = record {
  tasks = task 1 ∷ task 2 ∷ task 3 ∷ [];
  dependencies = [];
  change_logs = [];
  next_id = 10;
}

-- 1 before 2 and 2 before 3; the request for 3 before 1 is refused.
abbrev requests : List DependencyRequest
requests =
    create (after 1 2) (some 5) ∷ create (after 2 3) (some 5) ∷ create (after 3 1) (some 5) ∷ []

abbrev chain : List TaskDependency
chain = new_row 10 (after 1 2) (some 5) ∷ new_row 11 (after 2 3) (some 5) ∷ []

serve-requests : (serve requests project).dependencies ≡ chain
unfolding create_dependency creates_cycle search
serve-requests = refl

refused :
    (request
      (create_dependency (after 3 1) (some 5))
      (serve (create (after 1 2) none ∷ create (after 2 3) none ∷ []) project)).0
    ≡ err (bad_request task_dependency_cycle)
unfolding create_dependency creates_cycle search
refused = refl

serve-IsAcyclic_example : IsAcyclic (serve requests project).dependencies
serve-IsAcyclic_example = serve-IsAcyclic requests project (λ u w edge. absurd edge)

creates_cycle_iff_example : (creates_cycle chain 3 1 ≡ true) ↔ Walk chain 3 1
creates_cycle_iff_example = creates_cycle_iff chain 3 1

create_dependency_iff_example :
    ((request (create_dependency (after 1 2) (some 5)) project).0
      ≡ ok (new_row 10 (after 1 2) (some 5)))
    ↔ IsAllowed project (after 1 2) (task 1) (task 2)
create_dependency_iff_example =
    create_dependency_iff (after 1 2) (some 5) project (task 1) (task 2) refl refl

create_dependency_atomic_example :
    let (result, t') = request (create_dependency (after 1 2) (some 5)) project in
    ((e : ApiError) × (result ≡ err e) × (t' ≡ project))
    ⊎ (result ≡ ok (new_row 10 (after 1 2) (some 5)))
      × (t'.tasks ≡ project.tasks)
      × (t'.dependencies ≡ project.dependencies ++ new_row 10 (after 1 2) (some 5) ∷ [])
      × (t'.next_id ≡ 11)
      × ((project_id : ℕ) × (t'.change_logs
            ≡ project.change_logs
              ++ dependency_change project_id 10 "dependency.created"
                  (created_value 1 2 "finish_to_start")
                  (some 5)
                ∷ []))
create_dependency_atomic_example = create_dependency_atomic (after 1 2) (some 5) project
