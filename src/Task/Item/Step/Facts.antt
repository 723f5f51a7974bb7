-- ===== src/Task/Item/Step/Facts.antt =====
-- What the checks of the handlers tell of the rows that are written.
use sync_nesto_backend.Base.{
  ◌||◌, ℕ, ◌≡◌, refl, sym, ◌⊎◌, inl, inr, Bool, true, false, Option, none, some, List, [], ◌∷◌,
  arith, not, ◌&&◌, if◌then◌else◌,
}
use mathlib.Core.Path.{subst}
use sync_nesto_backend.Errors.{
  task_planning_dates_invalid, task_planning_assignee_invalid, ApiError, bad_request,
  task_return_reason_required, refuse_if, Result, ok, err, ◌>>◌,
}
use sync_nesto_backend.Task.Model.{Task}
use sync_nesto_backend.Task.Tables.{ItemTables, live_task}
use sync_nesto_backend.Task.Input.{
  is_sent, Field, unset, null, value, given, or_kept, TaskCreate, TaskUpdate,
}
use sync_nesto_backend.Task.Parent.{validate_parent, validate_new_parent}
use sync_nesto_backend.Task.Check.{
  is_after, is_outsider, validate_planning, is_returning, is_blank, TaskDates, with_dates,
  next_dates, is_dated, check_create, check_parent, check_update, normalized_update,
}
use sync_nesto_backend.Task.Rows.{updated_row}

-- The parts of a check that has been passed.
seq-ok :
    {A B : Type 0} (m : Result A) (k : Result B) (b : B)
    → (m >> k) ≡ ok b
    → ((a : A) × (m ≡ ok a)) × (k ≡ ok b)
unfolding ◌>>◌
seq-ok (ok a) k b h = ((a, refl), h)
seq-ok (err e) k b h = cc

pub check_create-parent :
    (t : ItemTables) (project_id : ℕ) (task_in : TaskCreate)
    → check_create t project_id task_in ≡ ok tt
    → validate_parent t.tasks project_id task_in.parent_task_id ≡ ok tt
unfolding check_create
check_create-parent t project_id i h =
    let (first, rest) = seq-ok _ _ tt h in let ((a, e), rest') = seq-ok _ _ tt rest in e

check_update-parent :
    (t : ItemTables) (task : Task) (u : TaskUpdate) (planning_only : Bool)
    → check_update t task u planning_only ≡ ok tt
    → check_parent t task u.parent_task_id ≡ ok tt
unfolding check_update
check_update-parent t task u planning_only h =
    let (first, rest) = seq-ok _ _ tt h in
    let (second, rest') = seq-ok _ _ tt rest in let ((a, e), rest'') = seq-ok _ _ tt rest' in e

refuse_if-ok : (c : Bool) (e : ApiError) → refuse_if c e ≡ ok tt → c ≡ false
refuse_if-ok true e h = cc
refuse_if-ok false e h = refl

pub check_update-reason :
    (t : ItemTables) (task : Task) (u : TaskUpdate) (planning_only : Bool)
    → check_update t task u planning_only ≡ ok tt
    → (is_returning task u && is_blank (given u.change_reason)) ≡ false
unfolding check_update
check_update-reason t task u planning_only h =
    let (first, rest) = seq-ok _ _ tt h in
    let (second, rest') = seq-ok _ _ tt rest in
    let (third, rest'') = seq-ok _ _ tt rest' in
    let (fourth, rest4) = seq-ok _ _ tt rest'' in
    let ((a, e), rest5) = seq-ok _ _ tt rest4 in
    refuse_if-ok (is_returning task u && is_blank (given u.change_reason))
      (bad_request task_return_reason_required) e

-- What a planning update has passed.
pub check_update-planning :
    (t : ItemTables) (task : Task) (u : TaskUpdate)
    → check_update t task u true ≡ ok tt
    → (((is_sent u.start_date || is_sent u.due_date)
          && is_after (or_kept u.start_date task.start_date) (or_kept u.due_date task.due_date))
        ≡ false)
      × (is_outsider t task u.assignee_id ≡ false)
unfolding check_update
check_update-planning t task u h =
    let ((a, e), rest) = seq-ok (validate_planning t task u) _ tt h in
    let ((b, dates), assignee) = seq-ok _ _ tt e in
    (
      refuse_if-ok _ (bad_request task_planning_dates_invalid) dates,
      refuse_if-ok _ (bad_request task_planning_assignee_invalid) assignee,
    )

normalized-parent :
    (c : Bool) (dates : TaskDates) (u : TaskUpdate)
    → (if c then with_dates dates u else u).parent_task_id ≡ u.parent_task_id
normalized-parent true dates u = refl
normalized-parent false dates u = refl

-- A parent is the task's, or has passed the check.
abbrev IsAllowed : ItemTables → Task → Option ℕ → Type 0
IsAllowed t task parent =
    (parent ≡ task.parent_task_id)
    ⊎ (validate_new_parent t.tasks task.project_id parent task.id ≡ ok tt)

checked-IsAllowed :
    (t : ItemTables) (task : Task) (f : Field ℕ)
    → check_parent t task f ≡ ok tt
    → IsAllowed t task (or_kept f task.parent_task_id)
checked-IsAllowed t task unset h = inl refl
checked-IsAllowed t task null h = inr h
checked-IsAllowed t task (value p) h = inr h

-- The parent of the row that an update writes is the task's, or has passed the check.
pub updated_row-parent :
    (t : ItemTables) (today : ℕ) (planning_only : Bool) (task : Task) (u : TaskUpdate)
    (actor_id : Option ℕ)
    → check_update t task u planning_only ≡ ok tt
    → let row = updated_row (normalized_update today planning_only task u) actor_id task in
      (row.parent_task_id ≡ task.parent_task_id)
      ⊎ (validate_new_parent t.tasks row.project_id row.parent_task_id row.id ≡ ok tt)
updated_row-parent t today planning_only task u actor h =
    subst (λ f. IsAllowed t task (or_kept f task.parent_task_id))
      (sym (normalized-parent (not planning_only && is_dated u) (next_dates today task u) u))
      (checked-IsAllowed t task u.parent_task_id (check_update-parent t task u planning_only h))

pub live_task-id :
    (tasks : List Task) (id : ℕ) (task : Task) → live_task tasks id ≡ some task → task.id ≡ id
live_task-id [] id task h = cc
live_task-id (r ∷ rows) id task h = ground (arith, live_task-id rows id task)

pub live_task-live :
    (tasks : List Task) (id : ℕ) (task : Task)
    → live_task tasks id ≡ some task
    → task.deleted_at ≡ none
live_task-live [] id task h = cc
live_task-live (r ∷ rows) id task h = ground (arith, live_task-live rows id task)
