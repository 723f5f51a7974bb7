-- ===== src/Task/Dependency/Requests.antt =====
-- What the requests on dependencies do to the tables, on every branch.
use sync_nesto_backend.Base.{
  ℕ, ◌≡◌, sym, ◌⊎◌, inl, inr, false, not, ◌&&◌, Option, some, List, [], ◌∷◌, ◌++◌, arith, ◌==◌,
  is_none, find?, filter, Bool-cases, Option-cases,
}
use mathlib.Core.Path.{subst}
use sync_nesto_backend.Database.{request}
use sync_nesto_backend.Task.Model.{Task, TaskDependency, TaskTables, get_by_id}
use sync_nesto_backend.Task.Dependency.{
  TaskDependencyCreate, TaskDependencyUpdate, key_taken, new_row, updated_row, replace_row,
  creates_cycle, create_dependency, update_dependency, delete_dependency,
}
use sync_nesto_backend.Task.Dependency.Graph.{Edge, IsAcyclic}
use sync_nesto_backend.Task.Dependency.Cycle.{creates_cycle_iff}
use sync_nesto_backend.Task.Dependency.Acyclic.{
  IsAcyclic-add, IsAcyclic-sub, Edge-append, Edge-filter, Edge-replace_row,
}

pub find-id :
    (id : ℕ) (tasks : List Task) (task : Task)
    → find? (λ task. task.id == id && is_none task.deleted_at) tasks ≡ some task
    → task.id ≡ id
find-id id [] task h = cc
find-id id (x ∷ tasks) task h = ground (arith, find-id id tasks task)

-- A creation leaves the rows alone, or appends one row that closes no cycle.
create_dependency-rows :
    (dependency_in : TaskDependencyCreate) (actor_id : Option ℕ) (t : TaskTables)
    → let t' = (request (create_dependency dependency_in actor_id) t).1 in
      (t'.dependencies ≡ t.dependencies)
      ⊎ (t'.dependencies ≡ t.dependencies ++ new_row t.next_id dependency_in actor_id ∷ [])
        × (creates_cycle t.dependencies dependency_in.predecessor_task_id
              dependency_in.successor_task_id
            ≡ false)
unfolding create_dependency
create_dependency-rows i a t = elim (Option-cases (get_by_id t i.predecessor_task_id)) [
  | inl e ↦ inl (ground arith)
  | inr (p, ep) ↦ elim (Option-cases (get_by_id t i.successor_task_id)) [
    | inl e ↦ inl (ground arith)
    | inr (s, es) ↦
        ground
          (arith, find-id i.predecessor_task_id t.tasks p, find-id i.successor_task_id t.tasks s)
  ]
]

-- A creation keeps the graph of the dependencies acyclic, whether it succeeds or fails.
pub create_dependency-IsAcyclic :
    (dependency_in : TaskDependencyCreate) (actor_id : Option ℕ) (t : TaskTables)
    → IsAcyclic t.dependencies
    → IsAcyclic (request (create_dependency dependency_in actor_id) t).1.dependencies
create_dependency-IsAcyclic i a t h = elim (create_dependency-rows i a t) [
  | inl same ↦ subst IsAcyclic (sym same) h
  | inr (added, no_cycle) ↦
      let row = new_row t.next_id i a in
      subst IsAcyclic (sym added) (
        IsAcyclic-add t.dependencies row (t.dependencies ++ row ∷ [])
          (Edge-append t.dependencies row)
          (λ walk. cc (
            no_cycle,
            (creates_cycle_iff t.dependencies row.predecessor_task_id row.successor_task_id).1 walk,
          ))
          h)
]

find-Edge :
    (id : ℕ) (deps : List TaskDependency) (d : TaskDependency)
    → find? (λ d. d.id == id) deps ≡ some d
    → Edge deps d.predecessor_task_id d.successor_task_id
find-Edge id [] d h = cc
find-Edge id (x ∷ deps) d h = ground (arith, find-Edge id deps d)

update_dependency-rows :
    (dependency_id : ℕ) (dependency_in : TaskDependencyUpdate) (actor_id : Option ℕ)
    (t : TaskTables)
    → let t' = (request (update_dependency dependency_id dependency_in actor_id) t).1 in
      (t'.dependencies ≡ t.dependencies)
      ⊎ (d : TaskDependency) × (find? (λ d. d.id == dependency_id) t.dependencies ≡ some d)
        × (t'.dependencies ≡ replace_row (updated_row dependency_in d) t.dependencies)
unfolding update_dependency
update_dependency-rows id i a t = elim (Option-cases (find? (λ d. d.id == id) t.dependencies)) [
  | inl e ↦ inl (ground arith)
  | inr (d, e) ↦ elim (Option-cases (get_by_id t d.successor_task_id)) [
    | inl e' ↦ inl (ground arith)
    | inr (s, es) ↦ elim (Bool-cases (d.version == i.version)) [
      | inr stale ↦ inl (ground arith)
      | inl current ↦ elim (Bool-cases (key_taken (updated_row i d) t.dependencies)) [
        | inl taken ↦ inl (ground arith)
        | inr free ↦ inr (d, e, ground arith)
      ]
    ]
  ]
]

delete_dependency-rows :
    (dependency_id : ℕ) (actor_id : Option ℕ) (t : TaskTables)
    → let t' = (request (delete_dependency dependency_id actor_id) t).1 in
      (t'.dependencies ≡ t.dependencies)
      ⊎ (d : TaskDependency) × (find? (λ d. d.id == dependency_id) t.dependencies ≡ some d)
        × (t'.dependencies ≡ filter (λ d'. not (d'.id == d.id)) t.dependencies)
unfolding delete_dependency
delete_dependency-rows id a t = elim (Option-cases (find? (λ d. d.id == id) t.dependencies)) [
  | inl e ↦ inl (ground arith)
  | inr (d, e) ↦ elim (Option-cases (get_by_id t d.successor_task_id)) [
    | inl e' ↦ inl (ground arith)
    | inr (s, es) ↦ inr (d, e, ground arith)
  ]
]

update_dependency-IsAcyclic :
    (dependency_id : ℕ) (dependency_in : TaskDependencyUpdate) (actor_id : Option ℕ)
    (t : TaskTables)
    → IsAcyclic t.dependencies
    → IsAcyclic (request (update_dependency dependency_id dependency_in actor_id) t).1.dependencies
update_dependency-IsAcyclic id i a t h = elim (update_dependency-rows id i a t) [
  | inl same ↦ subst IsAcyclic (sym same) h
  | inr (d, found, replaced) ↦ subst IsAcyclic (sym replaced) (
      IsAcyclic-sub t.dependencies _
        (λ u w edge. kept d found u w (Edge-replace_row (updated_row i d) t.dependencies u w edge))
        h)
]
  where
    kept :
        (d : TaskDependency)
        → find? (λ d. d.id == id) t.dependencies ≡ some d
        → (u w : ℕ)
        → Edge t.dependencies u w ⊎ (d.predecessor_task_id ≡ u) × (d.successor_task_id ≡ w)
        → Edge t.dependencies u w
    kept d found u w (inl old) = old
    kept d found u w (inr (e, f)) =
        subst (λ x. Edge t.dependencies x w) e
          (subst (Edge t.dependencies d.predecessor_task_id) f
            (find-Edge id t.dependencies d found))

delete_dependency-IsAcyclic :
    (dependency_id : ℕ) (actor_id : Option ℕ) (t : TaskTables)
    → IsAcyclic t.dependencies
    → IsAcyclic (request (delete_dependency dependency_id actor_id) t).1.dependencies
delete_dependency-IsAcyclic id a t h = elim (delete_dependency-rows id a t) [
  | inl same ↦ subst IsAcyclic (sym same) h
  | inr (d, found, filtered) ↦
      subst IsAcyclic (sym filtered)
        (IsAcyclic-sub t.dependencies _ (Edge-filter (λ d'. not (d'.id == d.id)) t.dependencies) h)
]

-- A request on the dependencies.
pub data DependencyRequest : Type 0 where
  create : TaskDependencyCreate → Option ℕ → DependencyRequest
  update : ℕ → TaskDependencyUpdate → Option ℕ → DependencyRequest
  delete : ℕ → Option ℕ → DependencyRequest

abbrev pub serve_one : DependencyRequest → TaskTables → TaskTables
serve_one (create dependency_in actor_id) t =
    (request (create_dependency dependency_in actor_id) t).1
serve_one (update id dependency_in actor_id) t =
    (request (update_dependency id dependency_in actor_id) t).1
serve_one (delete id actor_id) t = (request (delete_dependency id actor_id) t).1

-- The requests that are served one after another.
abbrev pub serve : List DependencyRequest → TaskTables → TaskTables
serve [] t = t
serve (r ∷ rs) t = serve rs (serve_one r t)

-- After any sequence of creations, updates and deletions, successful or not, that begins with an
-- acyclic table, no task precedes itself, directly or through other tasks.
pub serve-IsAcyclic :
    (requests : List DependencyRequest) (t : TaskTables)
    → IsAcyclic t.dependencies
    → IsAcyclic (serve requests t).dependencies
serve-IsAcyclic [] t h = h
serve-IsAcyclic (create i a ∷ rs) t h = serve-IsAcyclic rs _ (create_dependency-IsAcyclic i a t h)
serve-IsAcyclic (update id i a ∷ rs) t h =
    serve-IsAcyclic rs _ (update_dependency-IsAcyclic id i a t h)
serve-IsAcyclic (delete id a ∷ rs) t h = serve-IsAcyclic rs _ (delete_dependency-IsAcyclic id a t h)
