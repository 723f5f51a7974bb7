-- ===== src/Tests/Tasks.antt =====
-- The handlers of app/services/task.py on a project whose tasks they create themselves.
use sync_nesto_backend.Base.{
  ℕ, ◌≡◌, refl, ◌⊎◌, ◌↔◌, false, Option, none, some, List, [], ◌∷◌, ◌&&◌, ◌==◌, any, All, String,
  map, ◌++◌, ◌+◌, leb, if◌then◌else◌,
}
use sync_nesto_backend.Base.Text.{Text, text_eq, is_space, strip_left, strip, codes}
use sync_nesto_backend.Base.Decimal.{digits, padded}
use sync_nesto_backend.Base.Int.{pos}
use sync_nesto_backend.Errors.{
  ApiError, ok, err, bad_request, task_parent_cycle, task_return_reason_required, data_error, ◌>>◌,
}
use sync_nesto_backend.Database.{request}
use sync_nesto_backend.Task.Model.{Task}
use sync_nesto_backend.Task.Tables.{ItemTables, put}
use sync_nesto_backend.Task.Input.{
  unset, TaskPlanningUpdate, value, given, TaskCreate, TaskUpdate, empty_update,
}
use sync_nesto_backend.Task.Code.{max_auto_task_number, auto_code, auto_number}
use sync_nesto_backend.Task.Parent.{climb, creates_parent_cycle, validate_new_parent}
use sync_nesto_backend.Task.Parent.Climb.{Chain, creates_parent_cycle_iff}
use sync_nesto_backend.Task.Parent.Rooted.{IsForest, top}
use sync_nesto_backend.Task.Check.{check_create, check_update, is_blank}
use sync_nesto_backend.Task.Rows.{violates, created_row}
use sync_nesto_backend.Task.Item.{
  update_task_planning, try_create, choose_code, update_with, update_task, move_task, delete_task,
}
use sync_nesto_backend.Task.Item.Relation.{create_task}
use sync_nesto_backend.Task.Item.Dates.{IsDated}
use sync_nesto_backend.Task.Item.Fresh.{choose_code-fresh, choose_code-next}
use sync_nesto_backend.Task.Item.Outcome.{Passed, update_with-outcome}
use sync_nesto_backend.Task.Item.Planning.{planned, IsPlanned, update_task_planning-IsPlanned}
use sync_nesto_backend.Task.Item.Reason.{update_with-reason}
use sync_nesto_backend.Task.Item.Served.{TaskRequest, create, update, move, delete, serve}
use sync_nesto_backend.Task.Item.Served.Dated.{serve-IsDated}
use sync_nesto_backend.Task.Item.Served.Forest.{serve-IsForest}

-- A project 7 with the user 5 and a board 1, and no tasks.
abbrev empty : ItemTables
empty = record {
  projects = 7 ∷ [];
  users = 5 ∷ [];
  members = (7, 5) ∷ [];
  requirements = [];
  phases = [];
  task_types = [];
  boards = record { id = 1; project_id = 7; deleted_at = none } ∷ [];
  bug_tasks = [];
  tasks = [];
  relations = [];
  change_logs = [];
  audit_logs = [];
  emissions = [];
  next_id = 10;
}

abbrev new_task : Option ℕ → TaskCreate
new_task parent = record {
  parent_task_id = parent;
  task_code = none;
  title = "write";
  description = none;
  task_type = "other";
  status = "todo";
  priority = "medium";
  assignee_id = some 5;
  reporter_id = none;
  start_date = none;
  due_date = none;
  actual_start_date = none;
  actual_end_date = none;
  progress_percent = 0;
  estimated_minutes = none;
  actual_minutes = none;
  estimated_basis = "own";
  actual_basis = "own";
  sort_order = pos 0;
  tags = [];
  phase_assignment = none;
  requirement_id = none;
  relation_type = "implements";
}

abbrev under : ℕ → ℕ → TaskUpdate
under version parent = record (empty_update version) { parent_task_id = value parent }

abbrev done : ℕ → TaskUpdate
done version = record (empty_update version) { status = value "done"; progress_percent = value 100 }

abbrev sent_back : ℕ → String → TaskUpdate
sent_back version reason = record (empty_update version) {
  status = value "returned";
  change_reason = value (codes reason);
}

-- Two tasks, the second under the first; the first cannot go under the second.
abbrev requests : List TaskRequest
requests =
    create 100 7 (new_task none) (some 5)
    ∷ create 101 7 (new_task (some 10)) (some 5)
    ∷ update 102 10 (under 1 11) (some 5)
    ∷ update 103 11 (done 1) (some 5)
    ∷ move 104 1 10
        (record { version = 1; status = "in_progress"; sort_order = pos 1; change_reason = none })
        (some 5)
    ∷ []

-- The tasks after the requests, by what changes
abbrev view : Task → Text × Option ℕ × String × ℕ × Option ℕ × Option ℕ × ℕ
view r = (
  r.task_code, r.parent_task_id, r.status, r.progress_percent, r.actual_start_date,
  r.actual_end_date, r.version,
)

served :
    map view (serve requests empty).tasks
    ≡ (codes "TASK-001", none, "in_progress", 0, some 104, none, 2)
      ∷ (codes "TASK-002", some 10, "done", 100, none, some 103, 2)
      ∷ []
unfolding create_task try_create update_with move_task check_create check_update violates ◌>>◌
    max_auto_task_number padded digits validate_new_parent creates_parent_cycle climb
served = refl

abbrev family : ItemTables
family =
    serve (create 100 7 (new_task none) (some 5) ∷ create 101 7 (new_task (some 10)) (some 5) ∷ [])
      empty

cycle_refused :
    (request (update_task 102 10 (under 1 11) (some 5)) family).0
    ≡ err (bad_request task_parent_cycle)
unfolding create_task try_create update_with check_create check_update violates ◌>>◌
    max_auto_task_number padded digits validate_new_parent creates_parent_cycle climb
cycle_refused = refl

-- The check of a parent stops at a deleted task: the stored parents of 10, 12 and the deleted 11
-- form a ring, in which the parent of 12 is not live.
ring_through_deleted :
    map {B = ℕ × Option ℕ}
      (λ r. (r.id, r.parent_task_id))
      (serve
        (create 102 7 (new_task (some 11)) (some 5)
          ∷ delete 103 11 (some 5)
          ∷ update 104 10 (under 1 12) (some 5)
          ∷ [])
        family).tasks
    ≡ (10, some 12) ∷ (11, some 10) ∷ (12, some 11) ∷ []
unfolding create_task try_create update_with delete_task check_create check_update violates ◌>>◌
    max_auto_task_number padded digits validate_new_parent creates_parent_cycle climb
ring_through_deleted = refl

blank_refused :
    (request (update_task 102 10 (sent_back 1 "  ") (some 5)) family).0
    ≡ err (bad_request task_return_reason_required)
unfolding create_task try_create update_with check_create check_update violates ◌>>◌
    max_auto_task_number padded digits strip strip_left is_space
blank_refused = refl

serve-IsDated_example : All IsDated (serve requests empty).tasks
serve-IsDated_example = serve-IsDated requests empty tt

serve-IsForest_example : IsForest (serve requests empty).tasks
serve-IsForest_example = serve-IsForest requests empty tt (λ c. top refl)

abbrev first : Task
first = created_row 100 10 7 (new_task none) (codes "TASK-001") (some 5)

abbrev second : Task
second = created_row 101 11 7 (new_task (some 10)) (codes "TASK-002") (some 5)

abbrev tables : ItemTables
tables = record empty { tasks = first ∷ second ∷ []; next_id = 12 }

creates_parent_cycle_iff_example :
    (creates_parent_cycle tables.tasks 10 11 ≡ false) ↔ (n : ℕ) × Chain tables.tasks 10 n 11
creates_parent_cycle_iff_example = creates_parent_cycle_iff tables.tasks 10 11

third_code : choose_code tables 7 none ≡ ok (codes "TASK-003")
unfolding max_auto_task_number padded digits
third_code = refl

choose_code-fresh_example :
    ((n : ℕ) × (auto_number (codes "TASK-003") ≡ some n))
    × (any (λ r. r.project_id == 7 && text_eq r.task_code (codes "TASK-003")) tables.tasks ≡ false)
choose_code-fresh_example = choose_code-fresh tables 7 (codes "TASK-003") third_code

choose_code-next_example :
    (n : ℕ) × (codes "TASK-003" ≡ auto_code n)
    × (choose_code
          (record tables {
            tasks =
                tables.tasks
                ++ created_row 102 12 7 (new_task none) (codes "TASK-003") (some 5) ∷ [];
          })
          7
          none
        ≡ (if leb 2147483648 n then err data_error else ok (auto_code (n + 1))))
choose_code-next_example =
    choose_code-next tables 7 (codes "TASK-003") 102 (new_task none) (some 5) third_code

-- The code TASK-2147483648 is generated, and then none is.
abbrev last_code : ItemTables
last_code = record tables { tasks = record first { task_code = codes "TASK-2147483647" } ∷ [] }

above_range : choose_code last_code 7 none ≡ ok (codes "TASK-2147483648")
unfolding max_auto_task_number padded digits
above_range = refl

no_code_left :
    choose_code
      (record last_code {
        tasks =
            last_code.tasks
            ++ created_row 102 12 7 (new_task none) (codes "TASK-2147483648") (some 5) ∷ [];
      })
      7
      none
    ≡ err data_error
unfolding max_auto_task_number padded digits
no_code_left = refl

update_with-outcome_example :
    let (result, t') = request (update_with false 102 11 (done 1) (some 5)) tables in
    ((e : ApiError) × (result ≡ err e) × (t' ≡ tables))
    ⊎ ((row : Task) × (result ≡ ok row)
        × (t'.tasks ≡ put row tables.tasks)
        × Passed false 102 11 (done 1) (some 5) tables row)
update_with-outcome_example = update_with-outcome false 102 11 (done 1) (some 5) tables

abbrev returned : Task
returned = record second { status = "returned"; updated_by = some 6; version = 2 }

sent_back_row :
    (request (update_with false 102 11 (sent_back 1 "rework") (some 6)) tables).0 ≡ ok returned
unfolding update_with check_update violates ◌>>◌ strip strip_left is_space
sent_back_row = refl

update_with-reason_example : is_blank (given (sent_back 1 "rework").change_reason) ≡ false
update_with-reason_example =
    update_with-reason false 102 11 (sent_back 1 "rework") (some 6) tables second returned refl refl
      sent_back_row refl

-- The plan of the second task gets a start on day 110, and a due date on day 112.
abbrev plan : TaskPlanningUpdate
plan = record {
  version = 1;
  assignee_id = unset;
  start_date = value 110;
  due_date = value 112;
  estimated_minutes = unset;
  change_reason = unset;
}

planned_row :
    (request (update_task_planning 102 11 plan (some 5)) tables).0
    ≡ ok (planned plan (some 5) second)
unfolding update_with check_update violates ◌>>◌
planned_row = refl

update_task_planning-IsPlanned_example :
    IsPlanned tables plan (some 5) (planned plan (some 5) second) second
update_task_planning-IsPlanned_example =
    update_task_planning-IsPlanned 102 11 plan (some 5) tables second (planned plan (some 5) second)
      refl planned_row
