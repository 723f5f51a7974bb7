-- ===== src/Task/Dependency.antt =====
-- Task dependencies: app/services/task_dependency.py over app/repositories/task_dependency.py.
pub mod Graph
pub mod Cycle
pub mod Acyclic
pub mod Requests
pub mod Accept
use sync_nesto_backend.Base.{
  ℕ, zero, suc, ◌+◌, String, Bool, true, false, not, ◌&&◌, ◌||◌, Option, none, some, List, [], ◌∷◌,
  ◌++◌, map, str_eq, if◌then◌else◌, ◌==◌, opt_eq, find?, filter, any, contains, length,
}
use sync_nesto_backend.Base.Int.{ℤ}
use sync_nesto_backend.Errors.{
  bad_request, not_found, duplicate, version_conflict, integrity_error, task_not_found,
  task_dependency_not_found, task_dependency_invalid, task_dependency_cycle, duplicate_resource,
}
use sync_nesto_backend.Database.{
  Action, pure, raise, gets, or_raise, raise_if, modify, commit, rollback, ◌>>=◌, ◌>>◌, Snapshot,
  number, text,
}
use sync_nesto_backend.Task.Model.{
  Task, TaskDependency, TaskChangeLog, TaskTables, get_by_id, create_change_log,
}

pub record TaskDependencyCreate : Type 0 where
  pub predecessor_task_id : ℕ
  pub successor_task_id : ℕ
  pub dependency_type : String
  pub lag_days : ℤ

pub record TaskDependencyUpdate : Type 0 where
  pub version : ℕ
  pub dependency_type : Option String
  pub lag_days : Option ℤ

-- `TaskDependencyService._get_task`
abbrev pub get_task : ℕ → Action TaskTables Task
get_task task_id = do
  task ← gets (λ t. get_by_id t task_id)
  or_raise task (not_found task_not_found)

-- `get_dependency`
abbrev pub get_dependency : ℕ → Action TaskTables TaskDependency
get_dependency dependency_id = do
  found ← gets (λ t. find? (λ d. d.id == dependency_id) t.dependencies)
  or_raise found (not_found task_dependency_not_found)

-- The disjunction of the tests of `_validate_dependency`: each raises the same error.
abbrev pub is_invalid : Task → Task → String → Bool
is_invalid predecessor successor dependency_type =
    predecessor.id == successor.id
    || not (predecessor.project_id == successor.project_id)
    || not (str_eq dependency_type "finish_to_start")
    || opt_eq predecessor.parent_task_id (some successor.id)
    || opt_eq successor.parent_task_id (some predecessor.id)

-- `_validate_dependency`
abbrev pub validate_dependency : Task → Task → String → Action TaskTables Unit
validate_dependency predecessor successor dependency_type =
    raise_if (is_invalid predecessor successor dependency_type)
      (bad_request task_dependency_invalid)

-- `list_successors`, mapped to the successors' ids
abbrev pub successors : List TaskDependency → ℕ → List ℕ
successors deps task_id =
    map (λ d. d.successor_task_id) (filter (λ d. d.predecessor_task_id == task_id) deps)

-- `stack.extend(ids)` on a stack whose top is the head of the list
abbrev pub extend : List ℕ → List ℕ → List ℕ
extend stack [] = stack
extend stack (x ∷ xs) = extend (x ∷ stack) xs

-- The `while stack` loop of `_creates_cycle`, one unit of fuel for each round.
unfoldable pub search : List TaskDependency → ℕ → ℕ → List ℕ → List ℕ → Bool
search deps target zero stack visited = false
search deps target (suc fuel) [] visited = false
search deps target (suc fuel) (current ∷ stack) visited =
    let skip = search deps target fuel stack visited in
    let expand =
      search deps target fuel (extend stack (successors deps current)) (current ∷ visited) in
    if current == target then true else if contains visited current then skip else expand

-- `_creates_cycle`; a round for each dependency and one for the start are enough.
unfoldable pub creates_cycle : List TaskDependency → ℕ → ℕ → Bool
unfolding search
creates_cycle deps predecessor_task_id successor_task_id =
    search deps predecessor_task_id (length deps + 2) (successor_task_id ∷ []) []

-- The columns of `uq_task_dependencies` agree.
abbrev pub same_key : ℕ → ℕ → String → TaskDependency → Bool
same_key p s k d =
    d.predecessor_task_id == p && d.successor_task_id == s && str_eq d.dependency_type k

-- The row that `TaskDependencyRepository.create` adds, under the id that the database gives.
abbrev pub new_row : ℕ → TaskDependencyCreate → Option ℕ → TaskDependency
new_row dependency_id dependency_in actor_id = record {
  id = dependency_id;
  predecessor_task_id = dependency_in.predecessor_task_id;
  successor_task_id = dependency_in.successor_task_id;
  dependency_type = dependency_in.dependency_type;
  lag_days = dependency_in.lag_days;
  version = 1;
  created_by = actor_id;
}

-- `TaskDependencyRepository.create`, with the handler of `IntegrityError`
abbrev pub create_row : TaskDependencyCreate → Option ℕ → Action TaskTables TaskDependency
create_row dependency_in actor_id = do
  taken ← gets (λ t.
      any
        (same_key dependency_in.predecessor_task_id dependency_in.successor_task_id
          dependency_in.dependency_type)
        t.dependencies)
  if taken then (rollback >> raise (duplicate duplicate_resource)) else do
    dependency ← gets (λ t. new_row t.next_id dependency_in actor_id)
    modify (λ t. record t {
      dependencies = t.dependencies ++ dependency ∷ [];
      next_id = suc t.next_id;
    })
    commit
    pure dependency

-- The entry that `_record_dependency_change` writes.
abbrev pub dependency_change : ℕ → ℕ → String → Option Snapshot → Option ℕ → TaskChangeLog
dependency_change project_id target_id action new_value changed_by = record {
  project_id = project_id;
  target_type = "dependency";
  target_id = target_id;
  action = action;
  field_name = none;
  old_value = none;
  new_value = new_value;
  reason = none;
  changed_by = changed_by;
}

-- `_record_dependency_change`
abbrev pub record_dependency_change :
    ℕ → ℕ → String → Option Snapshot → Option ℕ → Action TaskTables Unit
record_dependency_change project_id target_id action new_value changed_by =
    create_change_log (dependency_change project_id target_id action new_value changed_by)

-- `new_value` of the entry for a creation
abbrev pub created_value : ℕ → ℕ → String → Option Snapshot
created_value predecessor_id successor_id dependency_type = some (
    ("predecessor_task_id", number predecessor_id)
    ∷ ("successor_task_id", number successor_id)
    ∷ ("dependency_type", text dependency_type)
    ∷ [])

unfoldable pub create_dependency :
    TaskDependencyCreate → Option ℕ → Action TaskTables TaskDependency
create_dependency dependency_in actor_id = do
  predecessor ← get_task dependency_in.predecessor_task_id
  successor ← get_task dependency_in.successor_task_id
  validate_dependency predecessor successor dependency_in.dependency_type
  cycle ← gets (λ t. creates_cycle t.dependencies predecessor.id successor.id)
  raise_if cycle (bad_request task_dependency_cycle)
  dependency ← create_row dependency_in actor_id
  record_dependency_change successor.project_id dependency.id "dependency.created"
      (created_value predecessor.id successor.id dependency.dependency_type) actor_id
  pure dependency

-- `dependency.field = value` where the request gives a value
abbrev pub updated_row : TaskDependencyUpdate → TaskDependency → TaskDependency
updated_row dependency_in d = record d {
  dependency_type = elim dependency_in.dependency_type [ none ↦ d.dependency_type | some k ↦ k ];
  lag_days = elim dependency_in.lag_days [ none ↦ d.lag_days | some n ↦ n ];
  version = d.version + 1;
}

-- The rows after the row with the id of `row` has been replaced by it.
abbrev pub replace_row : TaskDependency → List TaskDependency → List TaskDependency
replace_row row [] = []
replace_row row (d ∷ deps) = (if d.id == row.id then row else d) ∷ replace_row row deps

-- Another row has the columns of the key of `row`.
abbrev pub key_taken : TaskDependency → List TaskDependency → Bool
key_taken row deps =
    any
      (λ d.
        not (d.id == row.id)
        && same_key row.predecessor_task_id row.successor_task_id row.dependency_type d)
      deps

-- `TaskDependencyRepository.update`; its commit fails if another row has the columns of the key.
abbrev pub update_row : TaskDependency → TaskDependencyUpdate → Action TaskTables TaskDependency
update_row dependency dependency_in = do
  let row = updated_row dependency_in dependency
  taken ← gets (λ t. key_taken row t.dependencies)
  raise_if taken integrity_error
  modify (λ t. record t { dependencies = replace_row row t.dependencies })
  commit
  pure row

pub update_dependency : ℕ → TaskDependencyUpdate → Option ℕ → Action TaskTables TaskDependency
update_dependency dependency_id dependency_in actor_id = do
  dependency ← get_dependency dependency_id
  successor ← get_task dependency.successor_task_id
  raise_if (not (dependency.version == dependency_in.version)) version_conflict
  row ← update_row dependency dependency_in
  record_dependency_change successor.project_id row.id "dependency.updated" none actor_id
  pure row

-- `TaskDependencyRepository.delete`
abbrev pub delete_row : TaskDependency → Action TaskTables Unit
delete_row dependency = do
  modify (λ t. record t { dependencies = filter (λ d. not (d.id == dependency.id)) t.dependencies })
  commit

pub delete_dependency : ℕ → Option ℕ → Action TaskTables Unit
delete_dependency dependency_id actor_id = do
  dependency ← get_dependency dependency_id
  successor ← get_task dependency.successor_task_id
  delete_row dependency
  record_dependency_change successor.project_id dependency_id "dependency.deleted" none actor_id

-- `list_dependencies`, in the order of the ids, which is the order of the rows
pub list_dependencies : ℕ → Action TaskTables (List TaskDependency)
list_dependencies task_id = do
  get_task task_id
  gets (λ t.
      filter (λ d. d.predecessor_task_id == task_id || d.successor_task_id == task_id)
        t.dependencies)
