-- ===== src/Task/Dependency/Accept.antt =====
-- When a creation of a dependency succeeds, and what it leaves when it does not.
use sync_nesto_backend.Base.{
  ℕ, suc, ◌≡◌, ◌≢◌, ◌⊎◌, inl, inr, ◌↔◌, false, Option, some, [], ◌∷◌, ◌++◌, arith, str_eq_iff, any,
  if◌then◌else◌, Bool-cases, Option-cases,
}
use sync_nesto_backend.Errors.{
  ok, err, ApiError, bad_request, not_found, duplicate, task_not_found, task_dependency_invalid,
  task_dependency_cycle, duplicate_resource,
}
use sync_nesto_backend.Database.{request}
use sync_nesto_backend.Task.Model.{Task, TaskTables, get_by_id}
use sync_nesto_backend.Task.Dependency.{
  TaskDependencyCreate, is_invalid, same_key, new_row, creates_cycle, create_dependency,
  dependency_change, created_value,
}
use sync_nesto_backend.Task.Dependency.Graph.{Walk}
use sync_nesto_backend.Task.Dependency.Cycle.{creates_cycle_iff}
use sync_nesto_backend.Task.Dependency.Requests.{find-id}

-- What a creation asks of the two tasks and of the rows, stated without the search.
pub record IsAllowed (t : TaskTables) (i : TaskDependencyCreate) (p s : Task) : Type 0 where
  pub distinct : i.predecessor_task_id ≢ i.successor_task_id
  pub same_project : p.project_id ≡ s.project_id
  pub kind : i.dependency_type ≡ "finish_to_start"
  pub not_child : p.parent_task_id ≢ some i.successor_task_id
  pub not_parent : s.parent_task_id ≢ some i.predecessor_task_id
  pub no_way_back : ¬ Walk t.dependencies i.predecessor_task_id i.successor_task_id
  pub fresh :
      any (same_key i.predecessor_task_id i.successor_task_id i.dependency_type) t.dependencies
      ≡ false

create_dependency-outcome :
    (i : TaskDependencyCreate) (actor_id : Option ℕ) (t : TaskTables) (p s : Task)
    → get_by_id t i.predecessor_task_id ≡ some p
    → get_by_id t i.successor_task_id ≡ some s
    → let invalid = is_invalid p s i.dependency_type in
      let cycle = creates_cycle t.dependencies i.predecessor_task_id i.successor_task_id in
      let taken =
        any (same_key i.predecessor_task_id i.successor_task_id i.dependency_type) t.dependencies in
      (request (create_dependency i actor_id) t).0 ≡ (
        if invalid
        then err (bad_request task_dependency_invalid)
        else if cycle
        then err (bad_request task_dependency_cycle)
        else if taken
        then err (duplicate duplicate_resource)
        else ok (new_row t.next_id i actor_id))
unfolding create_dependency
create_dependency-outcome i a t p s ep es =
    ground (arith, find-id i.predecessor_task_id t.tasks p, find-id i.successor_task_id t.tasks s)

-- The checks on the two tasks, as conditions on the request.
is_invalid_iff :
    (t : TaskTables) (i : TaskDependencyCreate) (p s : Task)
    → p.id ≡ i.predecessor_task_id
    → s.id ≡ i.successor_task_id
    → (is_invalid p s i.dependency_type ≡ false) ↔ (
        (i.predecessor_task_id ≢ i.successor_task_id)
        × (p.project_id ≡ s.project_id)
        × (i.dependency_type ≡ "finish_to_start")
        × (p.parent_task_id ≢ some i.successor_task_id)
        × (s.parent_task_id ≢ some i.predecessor_task_id))
is_invalid_iff t i p s ep es = ground (arith, str_eq_iff i.dependency_type "finish_to_start")

-- A creation for two existing tasks succeeds exactly if the tasks are different and of one project,
-- the type is finish_to_start, neither is the other's parent, no walk of dependencies leads from
-- the successor back to the predecessor, and no row has the same key.
pub create_dependency_iff :
    (i : TaskDependencyCreate) (actor_id : Option ℕ) (t : TaskTables) (p s : Task)
    → get_by_id t i.predecessor_task_id ≡ some p
    → get_by_id t i.successor_task_id ≡ some s
    → ((request (create_dependency i actor_id) t).0 ≡ ok (new_row t.next_id i actor_id))
      ↔ IsAllowed t i p s
create_dependency_iff i a t p s ep es =
    let outcome = create_dependency-outcome i a t p s ep es in
    let cycle = creates_cycle_iff t.dependencies i.predecessor_task_id i.successor_task_id in
    let valid =
      is_invalid_iff t i p s (find-id i.predecessor_task_id t.tasks p ep)
        (find-id i.successor_task_id t.tasks s es) in
    (
      λ h.
          let (distinct, same_project, kind, not_child, not_parent) = valid.0 (ground arith) in
          record {
            distinct = distinct;
            same_project = same_project;
            kind = kind;
            not_child = not_child;
            not_parent = not_parent;
            no_way_back = λ walk. ground (arith, cycle.1 walk);
            fresh = ground arith;
          },
      λ allowed.
          elim (Bool-cases
            (creates_cycle t.dependencies i.predecessor_task_id i.successor_task_id)) [
              | inl found ↦ absurd (allowed.no_way_back (cycle.0 found))
              | inr none_found ↦
                  let good = valid.1 (
                    allowed.distinct, allowed.same_project, allowed.kind, allowed.not_child,
                    allowed.not_parent,
                  ) in
                  ground (arith, allowed.fresh)
            ],
    )

-- A creation that fails changes no table, and one that succeeds appends its row under the next
-- identifier and one entry of the change log with the two tasks and the type, and leaves the tasks
-- as they are.
pub create_dependency_atomic :
    (i : TaskDependencyCreate) (actor_id : Option ℕ) (t : TaskTables)
    → let (result, t') = request (create_dependency i actor_id) t in
      ((e : ApiError) × (result ≡ err e) × (t' ≡ t))
      ⊎ (result ≡ ok (new_row t.next_id i actor_id))
        × (t'.tasks ≡ t.tasks)
        × (t'.dependencies ≡ t.dependencies ++ new_row t.next_id i actor_id ∷ [])
        × (t'.next_id ≡ suc t.next_id)
        × ((project_id : ℕ) × (t'.change_logs
              ≡ t.change_logs
                ++ dependency_change project_id t.next_id "dependency.created"
                    (created_value i.predecessor_task_id i.successor_task_id i.dependency_type)
                    actor_id
                  ∷ []))
unfolding create_dependency
create_dependency_atomic i a t = elim (Option-cases (get_by_id t i.predecessor_task_id)) [
  | inl e ↦ inl (not_found task_not_found, ground arith, ground arith)
  | inr (p, ep) ↦ elim (Option-cases (get_by_id t i.successor_task_id)) [
    | inl e ↦ inl (not_found task_not_found, ground arith, ground arith)
    | inr (s, es) ↦ elim (Bool-cases (is_invalid p s i.dependency_type)) [
      | inl bad ↦ inl (bad_request task_dependency_invalid, ground arith, ground arith)
      | inr good ↦ elim (Bool-cases (creates_cycle t.dependencies p.id s.id)) [
        | inl bad ↦ inl (bad_request task_dependency_cycle, ground arith, ground arith)
        | inr open_end ↦
            elim (Bool-cases (
              any (same_key i.predecessor_task_id i.successor_task_id i.dependency_type)
                t.dependencies)) [
                  | inl taken ↦ inl (duplicate duplicate_resource, ground arith, ground arith)
                  | inr fresh ↦ inr (
                    ground arith,
                    ground arith,
                    ground arith,
                    ground arith,
                    (
                      s.project_id,
                      ground (
                        arith,
                        find-id i.predecessor_task_id t.tasks p ep,
                        find-id i.successor_task_id t.tasks s es,
                      ),
                    ),
                  )
                ]
      ]
    ]
  ]
]
