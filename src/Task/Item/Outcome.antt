-- ===== src/Task/Item/Outcome.antt =====
-- How an update of a task ends: an error leaves the durable tables as they were, and a success has
-- passed the checks and written its row.
use sync_nesto_backend.Base.{
  ℕ, ◌≡◌, refl, sym, ◌∙◌, ◌⊎◌, inl, inr, Bool, true, false, not, ◌||◌, Option, none, some, List, [],
  ◌∷◌, String, arith, ◌==◌, opt_eq, Bool-cases, Option-cases,
}
use mathlib.Core.Path.{subst}
use sync_nesto_backend.Base.Text.{Text}
use sync_nesto_backend.Errors.{
  ApiError, Result, ok, err, version_conflict, duplicate, not_found, task_not_found,
  task_code_already_exists,
}
use sync_nesto_backend.Database.{
  Session, Action, Value, opened, pure, raise, commit, rollback, request, ◌>>◌,
}
use sync_nesto_backend.Database.Ends.{after, or_raise-ends, inspect-ends, raise_if-ends, if-ends}
use sync_nesto_backend.Task.Model.{Task}
use sync_nesto_backend.Task.Tables.{ItemTables, live_task, put}
use sync_nesto_backend.Task.Input.{TaskUpdate, given}
use sync_nesto_backend.Task.Log.{Change, task_snapshot, candidate_fields, changed_fields}
use sync_nesto_backend.Task.Check.{check_update, with_code, is_returning, normalized_update}
use sync_nesto_backend.Task.Rows.{violates, updated_row, has_null}
use sync_nesto_backend.Task.Item.{
  assignment_changed, notify_returned, notify_update, record_update, finish_update, put_update,
  write_update, check_and_write, update_found, update_with,
}

-- The action returns, and leaves the tasks that its transaction sees.
abbrev Quiet : Action ItemTables Unit → Type 0
Quiet m = (s : Session ItemTables) → ((m s).0 ≡ ok tt) × ((m s).1.pending.tasks ≡ s.pending.tasks)

Quiet->> : (m k : Action ItemTables Unit) → Quiet m → Quiet k → Quiet (m >> k)
Quiet->> m k qm qk s =
    let (e, f) = qm s in
    let (e', f') = qk (m s).1 in
    subst (λ x. (x.0 ≡ ok tt) × (x.1.pending.tasks ≡ s.pending.tasks)) (sym (after m k s e))
      (e', f' ∙ f)

assignment_changed-Quiet :
    (actor_id : Option ℕ) (task : Task) (previous recipient : Option ℕ)
    → Quiet (assignment_changed actor_id task previous recipient)
assignment_changed-Quiet actor task previous none s = (refl, refl)
assignment_changed-Quiet actor task previous (some user) s =
    elim (Bool-cases (opt_eq (some user) previous)) [
      | inl e ↦ rw e (refl, refl)
      | inr e ↦ rw e (refl, refl)
    ]

notify_returned-Quiet :
    (returning : Bool) (actor_id : Option ℕ) (task : Task)
    → Quiet (notify_returned returning actor_id task)
notify_returned-Quiet false actor task s = (refl, refl)
notify_returned-Quiet true actor task s = elim (Option-cases task.assignee_id) [
  | inl e ↦ rw e (refl, refl)
  | inr (user, e) ↦ rw e (refl, refl)
]

record_update-Quiet :
    (task : Task) (changes : List Change) (reason : Option Text) (actor_id : Option ℕ)
    → Quiet (record_update task changes reason actor_id)
record_update-Quiet task [] reason actor s = (refl, refl)
record_update-Quiet task (c ∷ changes) reason actor s = (refl, refl)

-- What the write of a row comes to.
unfoldable IsWritten : Task → List Task → Result Task × Session ItemTables → Type 0
IsWritten row tasks x = (x.0 ≡ ok row) × (x.1.committed.tasks ≡ tasks)

finish_update-IsWritten :
    (row : Task) (before : List (String × Value)) (u : TaskUpdate) (actor_id : Option ℕ)
    (s : Session ItemTables)
    → IsWritten row s.pending.tasks (finish_update row before u actor_id s)
unfolding IsWritten
finish_update-IsWritten row before u actor s =
    let changes = changed_fields (candidate_fields u) before (task_snapshot s.pending.phases row) in
    let record_it = record_update row changes (given u.change_reason) actor in
    let (e, f) = record_update-Quiet row changes (given u.change_reason) actor s in
    subst (IsWritten row s.pending.tasks) (sym (after record_it (commit >> pure row) s e)) (refl, f)

put_update-IsWritten :
    (task row : Task) (before : List (String × Value)) (u : TaskUpdate) (actor_id : Option ℕ)
    (s : Session ItemTables)
    → IsWritten row (put row s.pending.tasks) (put_update task row before u actor_id s)
put_update-IsWritten task row before u actor s =
    let s' : Session ItemTables = record s {
      pending = record s.pending { tasks = put row s.pending.tasks };
    } in
    let notify = notify_update task row u actor in
    let (e, f) =
      Quiet->> (notify_returned (is_returning task u) actor row)
        (assignment_changed actor row task.assignee_id row.assignee_id)
        (notify_returned-Quiet (is_returning task u) actor row)
        (assignment_changed-Quiet actor row task.assignee_id row.assignee_id) s' in
    subst (IsWritten row (put row s.pending.tasks))
      (sym (after notify (finish_update row before u actor) s' e))
      (subst (λ tasks. IsWritten row tasks (finish_update row before u actor (notify s').1)) f
        (finish_update-IsWritten row before u actor (notify s').1))

same_version : (a b : ℕ) → not (a == b) ≡ false → a ≡ b
same_version a b h = ground arith

first : (a b : Bool) → a || b ≡ false → a ≡ false
first a b h = ground arith

second : (a b : Bool) → a || b ≡ false → b ≡ false
second a b h = ground arith

-- The request has passed the version and the checks of the handler for this task, and the row is the task with the
-- request's fields.
pub record Passed (planning_only : Bool) (today task_id : ℕ) (u : TaskUpdate) (actor_id : Option ℕ)
    (t : ItemTables) (row : Task) : Type 0 where
  pub task : Task
  pub found : live_task t.tasks task_id ≡ some task
  pub current : task.version ≡ u.version
  pub checked : check_update t task (with_code task u) planning_only ≡ ok tt
  pub written :
      row
      ≡ updated_row (normalized_update today planning_only task (with_code task u)) actor_id task
  pub complete : has_null (normalized_update today planning_only task (with_code task u)) ≡ false
  pub valid : violates t row ≡ false

-- An update that raises leaves every durable table as it was. One that returns has found the live
-- task at the version that the request names, has passed the checks, gives no null to a
-- column that must have a value, violates none of the modelled
-- constraints, and the durable rows of the tasks are those of before with the new row in place.
pub update_with-outcome :
    (planning_only : Bool) (today task_id : ℕ) (u : TaskUpdate) (actor_id : Option ℕ)
    (t : ItemTables)
    → let (result, t') = request (update_with planning_only today task_id u actor_id) t in
      ((e : ApiError) × (result ≡ err e) × (t' ≡ t))
      ⊎ ((row : Task) × (result ≡ ok row)
          × (t'.tasks ≡ put row t.tasks)
          × Passed planning_only today task_id u actor_id t row)
unfolding update_with IsWritten
update_with-outcome planning_only today task_id task_in actor t =
    let s = opened t in
    or_raise-ends R (live_task t.tasks task_id) (not_found task_not_found)
      (λ task. update_found planning_only today task task_in actor) s
      (raised (not_found task_not_found))
      (λ task found.
        let u = with_code task task_in in
        let normalized = normalized_update today planning_only task u in
        let row = updated_row normalized actor task in
        let before = task_snapshot t.phases task in
        raise_if-ends R (not (task.version == task_in.version)) version_conflict
          (check_and_write planning_only today task u actor) s (raised version_conflict)
          (λ current.
            inspect-ends R (λ t. check_update t task u planning_only)
              (λ _. write_update task u normalized actor) s raised
              (λ _ checked.
                if-ends R (has_null normalized || violates t row)
                  (rollback >> raise (duplicate task_code_already_exists))
                  (put_update task row before u actor) s
                  (λ _. raised (duplicate task_code_already_exists))
                  (λ valid.
                    let (e, f) = put_update-IsWritten task row before u actor s in
                    inr (
                      row,
                      e,
                      f,
                      record {
                        task = task;
                        found = found;
                        current = same_version task.version task_in.version current;
                        checked = checked;
                        written = refl;
                        complete = first (has_null normalized) (violates t row) valid;
                        valid = second (has_null normalized) (violates t row) valid;
                      },
                    )))))
  where
    R : Result Task × Session ItemTables → Type 0
    R (result, s) =
        ((e : ApiError) × (result ≡ err e) × (s.committed ≡ t))
        ⊎ ((row : Task) × (result ≡ ok row)
            × (s.committed.tasks ≡ put row t.tasks)
            × Passed planning_only today task_id task_in actor t row)

    raised : (e : ApiError) → R (err e, opened t)
    raised e = inl (e, refl, refl)
