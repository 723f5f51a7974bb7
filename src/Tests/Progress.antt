-- ===== src/Tests/Progress.antt =====
-- The progress of a requirement with one task, which an update completes.
use sync_nesto_backend.Base.{
  ℕ, ◌+◌, ◌*◌, ◌≤◌, ◌≡◌, refl, true, none, some, List, [], ◌∷◌, arith, str_eq,
}
use sync_nesto_backend.Base.Text.{codes}
use sync_nesto_backend.Base.Int.{pos}
use sync_nesto_backend.Errors.{◌>>◌}
use sync_nesto_backend.Task.Model.{Task}
use sync_nesto_backend.Task.Tables.{ItemTables}
use sync_nesto_backend.Task.Input.{value, empty_update}
use sync_nesto_backend.Task.Check.{check_update}
use sync_nesto_backend.Task.Rows.{violates}
use sync_nesto_backend.Task.Item.{update_with}
use sync_nesto_backend.Task.Item.Progress.{
  round_div, total_progress, progress_of, list_requirement_tasks,
}
use sync_nesto_backend.Task.Item.Progress.Bounds.{progress_of-nearest}
use sync_nesto_backend.Task.Item.Served.{TaskRequest, update, serve}
use sync_nesto_backend.Task.Item.Served.Dated.{serve-implemented}

abbrev task : ℕ → ℕ → Task
task id progress = record {
  id = id;
  project_id = 7;
  parent_task_id = none;
  phase_scope = "unclassified";
  phase_id = none;
  task_code = codes "T";
  title = "write";
  description = none;
  task_type = "other";
  status = "todo";
  priority = "medium";
  assignee_id = none;
  reporter_id = none;
  start_date = none;
  due_date = none;
  actual_start_date = none;
  actual_end_date = none;
  progress_percent = progress;
  estimated_minutes = none;
  actual_minutes = none;
  estimated_basis = "own";
  actual_basis = "own";
  sort_order = pos 0;
  tags = some [];
  created_by = none;
  updated_by = none;
  version = 1;
  deleted_at = none;
}

abbrev tables : ItemTables
tables = record {
  projects = 7 ∷ [];
  users = [];
  members = [];
  requirements = record { id = 3; project_id = 7 } ∷ [];
  phases = [];
  task_types = [];
  boards = [];
  bug_tasks = [];
  tasks = task 10 40 ∷ [];
  relations =
      record {
        id = 4;
        requirement_id = 3;
        task_id = 10;
        relation_type = "implements";
        created_by = none;
      }
      ∷ [];
  change_logs = [];
  audit_logs = [];
  emissions = [];
  next_id = 11;
}

abbrev completion : List TaskRequest
completion =
    update 102 10 (record (empty_update 1) { status = value "done"; progress_percent = value 100 })
      none
    ∷ []

-- 1 and 2 give 1.5, which is rounded to 2; 2 and 3 give 2.5, which is rounded to 2.
halves : (round_div 3 2 ≡ 2) × (round_div 5 2 ≡ 2)
unfolding round_div
halves = (refl, refl)

progress_of-nearest_example :
    let progress = (progress_of 3 (task 10 40 ∷ task 11 41 ∷ [])).progress_percent in
    let total = total_progress (task 10 40 ∷ task 11 41 ∷ []) in
    (2 * (progress * 2) ≤ 2 * total + 2) × (2 * total ≤ 2 * (progress * 2) + 2) × (progress ≤ 100)
progress_of-nearest_example =
    progress_of-nearest 3 (task 10 40) (task 11 41 ∷ []) (omega arith, (omega arith, tt))

implemented :
    str_eq (progress_of 3 (list_requirement_tasks (serve completion tables) 3)).status "implemented"
    ≡ true
unfolding update_with check_update violates ◌>>◌ progress_of
implemented = refl

serve-implemented_example :
    (progress_of 3 (list_requirement_tasks (serve completion tables) 3)).progress_percent ≡ 100
serve-implemented_example =
    serve-implemented completion tables 3 ((λ e. cc, λ e. cc), tt) implemented
