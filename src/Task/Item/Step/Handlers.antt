-- ===== src/Task/Item/Step/Handlers.antt =====
-- What every step keeps is kept by each handler of tasks, boards and relations, whether it returns
-- or raises.
use sync_nesto_backend.Base.{
  ℕ, String, ◌≡◌, sym, Bool, true, false, not, ◌||◌, Option, some, List, ◌==◌, any,
}
use mathlib.Core.Path.{subst}
use sync_nesto_backend.Errors.{
  duplicate, not_found, version_conflict, task_not_found, task_relation_not_found,
  task_code_already_exists, duplicate_resource,
}
use sync_nesto_backend.Database.{
  Session, Action, raise, gets, or_raise, raise_if, rollback, ◌>>=◌, ◌>>◌,
}
use sync_nesto_backend.Database.Rules.{KeepsBoth}
use sync_nesto_backend.Database.Kept.{Kept, inspect-Kept, or_raise-Kept, raise_if-Kept, if-Kept}
use sync_nesto_backend.Task.Model.{Task}
use sync_nesto_backend.Task.Tables.{ItemTables, RequirementTaskRelation, live_task, put}
use sync_nesto_backend.Task.Input.{TaskUpdate, TaskPlanningUpdate, as_update}
use sync_nesto_backend.Task.Log.{task_snapshot}
use sync_nesto_backend.Task.Check.{
  get_requirement_project, check_update, with_code, normalized_update,
}
use sync_nesto_backend.Task.Rows.{violates, updated_row, has_null}
use sync_nesto_backend.Task.Item.{
  get_task, put_update, write_update, check_and_write, update_found, update_with, update_task,
  update_task_planning, delete_found, delete_task,
}
use sync_nesto_backend.Task.Item.Relation.{
  same_relation, add_relation, write_relation, create_requirement_task_relation, find_relation,
  drop_relation, delete_requirement_task_relation,
}
use sync_nesto_backend.Task.Item.Dates.{IsDated, updated_row-IsDated, planned_row-IsDated}
use sync_nesto_backend.Task.Item.Step.{Step, skip, write, remove, IsClosed, On}
use sync_nesto_backend.Task.Item.Step.Facts.{updated_row-parent, live_task-id, live_task-live}
use sync_nesto_backend.Task.Item.Step.Tail.{notify_finish-keeps}

module _ (P : List Task → ℕ → Type 0) (closed : IsClosed P) where
  abbrev pub Q : ItemTables → Type 0
  Q = On P

  write_relation-keeps :
      (project_id requirement_id task_id : ℕ) (relation_type : String) (actor_id : Option ℕ)
      → KeepsBoth Q (write_relation project_id requirement_id task_id relation_type actor_id)
  write_relation-keeps project_id requirement_id task_id relation_type actor s =
      if-Kept Q (any (same_relation requirement_id task_id relation_type) s.pending.relations)
        (rollback >> raise (duplicate duplicate_resource))
        (add_relation project_id requirement_id task_id relation_type actor) s (λ _ (p, q). (p, p))
        (λ _ (p, q). let q' = closed s.pending.tasks s.pending.next_id _ _ q skip in (q', q'))

  module _ {B : Type 0} where
    pub get_task-Kept :
        (task_id : ℕ) (f : Task → Action ItemTables B) (s : Session ItemTables)
        → ((task : Task) → live_task s.pending.tasks task_id ≡ some task → Kept Q (f task) s)
        → Kept Q (get_task task_id >>= f) s
    get_task-Kept task_id f s k =
        or_raise-Kept Q (live_task s.pending.tasks task_id) (not_found task_not_found) f s k

  pub create_relation-keeps :
      (requirement_id task_id : ℕ) (relation_type : String) (actor_id : Option ℕ)
      → KeepsBoth Q (create_requirement_task_relation requirement_id task_id relation_type actor_id)
  unfolding create_requirement_task_relation
  create_relation-keeps requirement_id task_id relation_type actor s =
      let written =
        λ (project : ℕ). write_relation project requirement_id task_id relation_type actor in
      let checked = λ (project : ℕ) (task : Task).
        raise_if (not (task.project_id == project)) (not_found task_not_found) >> written project in
      inspect-Kept Q (λ t. get_requirement_project t requirement_id)
        (λ project. get_task task_id >>= checked project) s
        (λ project _. get_task-Kept task_id (checked project) s (λ task _.
          raise_if-Kept Q (not (task.project_id == project)) (not_found task_not_found)
            (written project) s
            (λ _. write_relation-keeps project requirement_id task_id relation_type actor s)))

  pub delete_relation-keeps :
      (requirement_id relation_id : ℕ) (actor_id : Option ℕ)
      → KeepsBoth Q (delete_requirement_task_relation requirement_id relation_id actor_id)
  unfolding delete_requirement_task_relation
  delete_relation-keeps requirement_id relation_id actor s =
      let dropped = λ (project : ℕ) (relation : RequirementTaskRelation).
        drop_relation project relation relation_id actor in
      inspect-Kept Q (λ t. get_requirement_project t requirement_id)
        (λ project.
          (gets (λ t. find_relation t requirement_id relation_id) >>= λ found.
          or_raise found (not_found task_relation_not_found))
          >>= dropped project)
        s
        (λ project _.
          or_raise-Kept Q (find_relation s.pending requirement_id relation_id)
            (not_found task_relation_not_found) (dropped project) s (λ relation _ (p, q). (q, q)))

  delete_found-keeps :
      (now : ℕ) (task : Task) (actor_id : Option ℕ) (s : Session ItemTables)
      → live_task s.pending.tasks task.id ≡ some task
      → Kept Q (delete_found now task actor_id) s
  delete_found-keeps now task actor s found (p, q) =
      let q' = closed s.pending.tasks s.pending.next_id _ _ q (remove now actor task found) in
      (q', q')

  -- A task that has been found is found by its own id.
  pub own_id :
      (tasks : List Task) (id : ℕ) (task : Task)
      → live_task tasks id ≡ some task
      → live_task tasks task.id ≡ some task
  own_id tasks id task found =
      subst (λ x. live_task tasks x ≡ some task) (sym (live_task-id tasks id task found)) found

  pub delete_task-keeps :
      (now task_id : ℕ) (actor_id : Option ℕ) → KeepsBoth Q (delete_task now task_id actor_id)
  unfolding delete_task
  delete_task-keeps now task_id actor s =
      get_task-Kept task_id (λ task. delete_found now task actor) s
        (λ task found.
          delete_found-keeps now task actor s (own_id s.pending.tasks task_id task found))

  -- An update whose row keeps the dates in order.
  put_update-keeps :
      (task row : Task) (u : TaskUpdate) (actor_id : Option ℕ) (s : Session ItemTables)
      → Step s.pending.tasks s.pending.next_id (put row s.pending.tasks) s.pending.next_id
      → Kept Q (put_update task row (task_snapshot s.pending.phases task) u actor_id) s
  put_update-keeps task row u actor s step (p, q) =
      notify_finish-keeps P task row (task_snapshot s.pending.phases task) u actor
        (record s { pending = record s.pending { tasks = put row s.pending.tasks } })
        (p, closed s.pending.tasks s.pending.next_id _ _ q step)

  update_with-keeps :
      (planning_only : Bool) (today task_id : ℕ) (task_in : TaskUpdate) (actor_id : Option ℕ)
      → ((task : Task)
          → IsDated task
          → IsDated (
              updated_row
                (normalized_update today planning_only task (with_code task task_in))
                actor_id
                task))
      → KeepsBoth Q (update_with planning_only today task_id task_in actor_id)
  unfolding update_with
  update_with-keeps planning_only today task_id task_in actor dated s =
      get_task-Kept task_id (λ task. update_found planning_only today task task_in actor) s
        (λ task found.
          let u = with_code task task_in in
          let normalized = normalized_update today planning_only task u in
          let row = updated_row normalized actor task in
          let before = task_snapshot s.pending.phases task in
          raise_if-Kept Q (not (task.version == task_in.version)) version_conflict
            (check_and_write planning_only today task u actor) s
            (λ _.
              inspect-Kept Q (λ t. check_update t task u planning_only)
                (λ _. write_update task u normalized actor) s
                (λ _ checked.
                  if-Kept Q (has_null normalized || violates s.pending row)
                    (rollback >> raise (duplicate task_code_already_exists))
                    (put_update task row before u actor) s (λ _ (p, q). (p, p))
                    (λ _. put_update-keeps task row u actor s (
                      write task row (own_id s.pending.tasks task_id task found)
                        (live_task-live s.pending.tasks task_id task found)
                        (updated_row-parent s.pending today planning_only task u actor checked)
                        (dated task))))))

  pub update_task-keeps :
      (today task_id : ℕ) (task_in : TaskUpdate) (actor_id : Option ℕ)
      → KeepsBoth Q (update_task today task_id task_in actor_id)
  update_task-keeps today task_id task_in actor =
      update_with-keeps false today task_id task_in actor
        (λ task h. updated_row-IsDated today task (with_code task task_in) actor h)

  pub update_task_planning-keeps :
      (today task_id : ℕ) (task_in : TaskPlanningUpdate) (actor_id : Option ℕ)
      → KeepsBoth Q (update_task_planning today task_id task_in actor_id)
  update_task_planning-keeps today task_id task_in actor =
      update_with-keeps true today task_id (as_update task_in) actor
        (λ task h. planned_row-IsDated today task task_in actor h)
