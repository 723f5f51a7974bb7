-- ===== src/Task/Item/Dates.antt =====
-- The rows that the handlers write have the progress and the dates that go with their status.
use sync_nesto_backend.Base.{
  ℕ, String, ◌≡◌, refl, ap, ◌∙◌, Bool, true, false, Option, none, some, arith, is_some, str_eq,
  if◌then◌else◌,
}
use sync_nesto_backend.Base.Text.{Text}
use sync_nesto_backend.Task.Model.{Task}
use sync_nesto_backend.Task.Input.{
  or_kept, sent, TaskCreate, TaskUpdate, TaskPlanningUpdate, TaskMoveRequest, as_update,
}
use sync_nesto_backend.Task.Check.{
  or_today, normalize_task_dates, next_status, next_progress, next_dates, with_dates, is_dated,
  normalized_update,
}
use sync_nesto_backend.Task.Rows.{created_row, updated_row, or_old, moved_row}

-- A done task is complete and has an end; a task in progress has a start.
abbrev pub IsDatedAs : String → ℕ → Option ℕ → Option ℕ → Type 0
IsDatedAs status progress start end =
    (str_eq status "done" ≡ true → (progress ≡ 100) × (is_some end ≡ true))
    × (str_eq status "in_progress" ≡ true → is_some start ≡ true)

abbrev pub IsDated : Task → Type 0
IsDated task =
    IsDatedAs task.status task.progress_percent task.actual_start_date task.actual_end_date

or_today-is_some : (date : Option ℕ) (today : ℕ) → is_some (or_today date today) ≡ true
or_today-is_some none today = refl
or_today-is_some (some date) today = refl

-- `_normalize_task_dates` gives every status its dates.
normalize_task_dates-IsDated :
    (today : ℕ) (status : String) (progress : ℕ) (start end : Option ℕ)
    → let dates = normalize_task_dates today status progress start end in
      IsDatedAs status dates.progress_percent dates.actual_start_date dates.actual_end_date
normalize_task_dates-IsDated today status progress start end = (
  λ h. (ground arith, ground (arith, or_today-is_some end today)),
  λ h. ground (arith, or_today-is_some start today),
)

pub created_row-IsDated :
    (today id project_id : ℕ) (task_in : TaskCreate) (task_code : Text) (actor_id : Option ℕ)
    → IsDated (created_row today id project_id task_in task_code actor_id)
created_row-IsDated today id project_id i code actor =
    normalize_task_dates-IsDated today i.status i.progress_percent i.actual_start_date
      i.actual_end_date

or_kept-sent : (o old : Option ℕ) → or_kept (sent o) old ≡ o
or_kept-sent none old = refl
or_kept-sent (some a) old = refl

-- The update of a task keeps its dates in order.
pub updated_row-IsDated :
    (today : ℕ) (task : Task) (u : TaskUpdate) (actor_id : Option ℕ)
    → IsDated task
    → IsDated (updated_row (normalized_update today false task u) actor_id task)
updated_row-IsDated today task u actor (done, begun) = by_cases (is_dated u) refl
  where
    by_cases :
        (c : Bool)
        → is_dated u ≡ c
        → IsDated (updated_row (if c then with_dates (next_dates today task u) u else u) actor task)
    by_cases true e =
        let dates = next_dates today task u in
        let (done', begun') =
          normalize_task_dates-IsDated today (next_status task u) (next_progress task u)
            (or_kept u.actual_start_date task.actual_start_date)
            (or_kept u.actual_end_date task.actual_end_date) in
        (
          λ h. (
            (done' h).0,
            ap is_some (or_kept-sent dates.actual_end_date task.actual_end_date) ∙ (done' h).1,
          ),
          λ h. ap is_some (or_kept-sent dates.actual_start_date task.actual_start_date) ∙ begun' h,
        )
    by_cases false e = ground (arith, done, begun)

-- An update of the plan leaves the status, the progress and the actual dates as they are.
pub planned_row-IsDated :
    (today : ℕ) (task : Task) (task_in : TaskPlanningUpdate) (actor_id : Option ℕ)
    → IsDated task
    → IsDated (updated_row (normalized_update today true task (as_update task_in)) actor_id task)
planned_row-IsDated today task i actor h = h

or_old-is_some : (date old : Option ℕ) → is_some date ≡ true → is_some (or_old date old) ≡ true
or_old-is_some none old h = ground arith
or_old-is_some (some date) old h = refl

pub moved_row-IsDated :
    (today : ℕ) (move_in : TaskMoveRequest) (actor_id : Option ℕ) (task : Task)
    → IsDated task
    → IsDated (moved_row today move_in actor_id task)
moved_row-IsDated today i actor task h =
    let progress = if str_eq i.status "done" then 100 else task.progress_percent in
    let dates =
      normalize_task_dates today i.status progress task.actual_start_date task.actual_end_date in
    let (done, begun) =
      normalize_task_dates-IsDated today i.status progress task.actual_start_date
        task.actual_end_date in
    (
      λ e. (
        ground (arith, done e),
        or_old-is_some dates.actual_end_date task.actual_end_date (done e).1,
      ),
      λ e. or_old-is_some dates.actual_start_date task.actual_start_date (begun e),
    )
