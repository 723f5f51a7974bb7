-- ===== src/Task/Item/Reason.antt =====
-- A task is sent back with a reason.
use sync_nesto_backend.Base.{
  ℕ, ◌≡◌, refl, sym, ap, ◌∙◌, inl, inr, Bool, true, false, not, ◌&&◌, Option, some, arith, str_eq,
  if◌then◌else◌, some-injective,
}
use mathlib.Core.Path.{subst}
use sync_nesto_backend.Base.Text.{Text}
use sync_nesto_backend.Errors.{ApiError, ok, err}
use sync_nesto_backend.Database.{request}
use sync_nesto_backend.Task.Model.{Task}
use sync_nesto_backend.Task.Tables.{ItemTables, live_task}
use sync_nesto_backend.Task.Input.{Field, is_sent, or_else, given, TaskUpdate}
use sync_nesto_backend.Task.Code.{normalize_task_code}
use sync_nesto_backend.Task.Check.{
  TaskDates, with_dates, next_dates, is_dated, or_code, with_code, next_status, is_blank,
}
use sync_nesto_backend.Task.Item.{update_with}
use sync_nesto_backend.Task.Item.Step.Facts.{check_update-reason}
use sync_nesto_backend.Task.Item.Outcome.{Passed, update_with-outcome}

-- A code or dates in the request leave its status and its reason.
status-with_dates :
    (c : Bool) (dates : TaskDates) (u : TaskUpdate)
    → (if c then with_dates dates u else u).status ≡ u.status
status-with_dates true dates u = refl
status-with_dates false dates u = refl

coded :
    (c : Bool) (code : Field Text) (u : TaskUpdate)
    → (if c then record u { task_code = code } else u).change_reason ≡ u.change_reason
coded true code u = refl
coded false code u = refl

blank_reason : (a b c : Bool) → a ≡ true → b ≡ false → (a && not b && c) ≡ false → c ≡ false
blank_reason a b c h k e = ground arith

Passed-reason :
    (planning_only : Bool) (today task_id : ℕ) (u : TaskUpdate) (actor_id : Option ℕ)
    (t : ItemTables) (row task : Task)
    → Passed planning_only today task_id u actor_id t row
    → live_task t.tasks task_id ≡ some task
    → str_eq row.status "returned" ≡ true
    → str_eq task.status "returned" ≡ false
    → is_blank (given u.change_reason) ≡ false
Passed-reason planning_only today task_id u actor t row task passed found back before =
    let u' = with_code passed.task u in
    let same : passed.task ≡ task = some-injective (sym passed.found ∙ found) in
    let reason = check_update-reason t passed.task u' planning_only passed.checked in
    let dates = next_dates today passed.task u' in
    let status : row.status ≡ next_status passed.task u' =
      ap (λ r. r.status) passed.written
      ∙ ap (λ f. or_else f passed.task.status)
          (status-with_dates (not planning_only && is_dated u') dates u') in
    let given_reason : u'.change_reason ≡ u.change_reason =
      coded (is_sent u.task_code) (or_code passed.task (normalize_task_code (given u.task_code)))
        u in
    subst (λ f. is_blank (given f) ≡ false) given_reason
      (blank_reason (str_eq (next_status passed.task u') "returned")
        (str_eq passed.task.status "returned") (is_blank (given u'.change_reason))
        (subst (λ x. str_eq x "returned" ≡ true) status back)
        (subst (λ x. str_eq x.status "returned" ≡ false) (sym same) before) reason)

-- An update that makes a task returned that was not has a reason that is not blank.
pub update_with-reason :
    (planning_only : Bool) (today task_id : ℕ) (u : TaskUpdate) (actor_id : Option ℕ)
    (t : ItemTables) (task row : Task)
    → live_task t.tasks task_id ≡ some task
    → str_eq task.status "returned" ≡ false
    → (request (update_with planning_only today task_id u actor_id) t).0 ≡ ok row
    → str_eq row.status "returned" ≡ true
    → is_blank (given u.change_reason) ≡ false
update_with-reason planning_only today task_id u actor t task row found before success back =
    elim (update_with-outcome planning_only today task_id u actor t) [
      | inl (e, failed, _) ↦ absurd (no_error e row (sym failed ∙ success))
      | inr (row', written, _, passed) ↦
          Passed-reason planning_only today task_id u actor t row' task passed found
            (subst (λ r. str_eq r.status "returned" ≡ true)
              (ok-injective row row' (sym success ∙ written)) back)
            before
    ]
  where
    no_error : (e : ApiError) (row : Task) → err e ≡ ok row → ⊥
    no_error e row h = cc

    ok-injective : (a b : Task) → ok a ≡ ok b → a ≡ b
    ok-injective a b h = cc
