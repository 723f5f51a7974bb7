-- ===== src/Task/Item/Planning.antt =====
-- `update_task_planning` changes the plan of a task and nothing else.
use sync_nesto_backend.Base.{
  ℕ, ◌+◌, ◌≡◌, sym, ◌∙◌, inl, inr, true, false, ◌&&◌, ◌||◌, Option, some, some-injective,
}
use mathlib.Core.Path.{subst}
use sync_nesto_backend.Errors.{ApiError, ok, err}
use sync_nesto_backend.Database.{request}
use sync_nesto_backend.Task.Model.{Task}
use sync_nesto_backend.Task.Tables.{ItemTables, live_task}
use sync_nesto_backend.Task.Input.{is_sent, or_kept, TaskPlanningUpdate, as_update}
use sync_nesto_backend.Task.Check.{is_after, is_outsider}
use sync_nesto_backend.Task.Item.{update_task_planning}
use sync_nesto_backend.Task.Item.Step.Facts.{check_update-planning}
use sync_nesto_backend.Task.Item.Outcome.{Passed, update_with-outcome}

-- The task with the plan of the request.
abbrev pub planned : TaskPlanningUpdate → Option ℕ → Task → Task
planned task_in actor_id task = record task {
  assignee_id = or_kept task_in.assignee_id task.assignee_id;
  start_date = or_kept task_in.start_date task.start_date;
  due_date = or_kept task_in.due_date task.due_date;
  estimated_minutes = or_kept task_in.estimated_minutes task.estimated_minutes;
  updated_by = actor_id;
  version = task.version + 1;
}

-- A row is the task with the plan, whose dates, if one is sent, are in order, and whose assignee, if another one is
-- sent, is an active member of the project.
abbrev pub IsPlanned : ItemTables → TaskPlanningUpdate → Option ℕ → Task → Task → Type 0
IsPlanned t task_in actor_id row task =
    (row ≡ planned task_in actor_id task)
    × (((is_sent task_in.start_date || is_sent task_in.due_date)
          && is_after (planned task_in actor_id task).start_date
              (planned task_in actor_id task).due_date)
        ≡ false)
    × (is_outsider t task task_in.assignee_id ≡ false)

Passed-IsPlanned :
    (today task_id : ℕ) (task_in : TaskPlanningUpdate) (actor_id : Option ℕ) (t : ItemTables)
    (row : Task) (passed : Passed true today task_id (as_update task_in) actor_id t row)
    → IsPlanned t task_in actor_id row passed.task
Passed-IsPlanned today task_id task_in actor t row passed =
    let (dates, assignee) =
      check_update-planning t passed.task (as_update task_in) passed.checked in
    (passed.written, dates, assignee)

-- A planning update that returns has changed the assignee, the two planned dates, the estimate, the
-- last editor and the version of the task, and nothing else: its status, its progress, its actual
-- values and its bases are those of before. If a date is sent the planned dates are in order, and
-- if another assignee is sent it is an active member of the project.
pub update_task_planning-IsPlanned :
    (today task_id : ℕ) (task_in : TaskPlanningUpdate) (actor_id : Option ℕ) (t : ItemTables)
    (task row : Task)
    → live_task t.tasks task_id ≡ some task
    → (request (update_task_planning today task_id task_in actor_id) t).0 ≡ ok row
    → IsPlanned t task_in actor_id row task
update_task_planning-IsPlanned today task_id task_in actor t task row found success =
    elim (update_with-outcome true today task_id (as_update task_in) actor t) [
      | inl (e, failed, _) ↦ absurd (no_error e row (sym failed ∙ success))
      | inr (row', written, _, passed) ↦
          subst (IsPlanned t task_in actor row) (some-injective (sym passed.found ∙ found)) (
            subst (λ r. IsPlanned t task_in actor r passed.task)
              (ok-injective row' row (sym written ∙ success))
              (Passed-IsPlanned today task_id task_in actor t row' passed))
    ]
  where
    no_error : (e : ApiError) (row : Task) → err e ≡ ok row → ⊥
    no_error e row h = cc

    ok-injective : (a b : Task) → ok a ≡ ok b → a ≡ b
    ok-injective a b h = cc
