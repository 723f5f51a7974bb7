-- ===== src/Task/Item/Relation.antt =====
-- The relations of tasks and requirements of app/services/task.py: `create_task` with its relation,
-- the two handlers of relations, and the progress of a requirement.
use sync_nesto_backend.Base.{
  ℕ, suc, String, Bool, not, ◌&&◌, Option, none, some, [], ◌∷◌, ◌++◌, ◌==◌, find?, filter, any,
  str_eq, if◌then◌else◌,
}
use sync_nesto_backend.Errors.{
  not_found, duplicate, task_not_found, task_relation_not_found, duplicate_resource,
}
use sync_nesto_backend.Database.{
  Action, pure, raise, gets, inspect, or_raise, raise_if, modify, commit, rollback, ◌>>=◌, ◌>>◌,
  Snapshot, number, text,
}
use sync_nesto_backend.Task.Model.{Task}
use sync_nesto_backend.Task.Tables.{ItemTables, RequirementTaskRelation, create_change_log}
use sync_nesto_backend.Task.Input.{TaskCreate}
use sync_nesto_backend.Task.Check.{get_requirement_project}
use sync_nesto_backend.Task.Rows.{change}
use sync_nesto_backend.Task.Item.{get_task, create_row}

-- The columns of `uq_requirement_task_relations` agree.
abbrev pub same_relation : ℕ → ℕ → String → RequirementTaskRelation → Bool
same_relation requirement_id task_id relation_type r =
    r.requirement_id == requirement_id
    && r.task_id == task_id
    && str_eq r.relation_type relation_type

abbrev pub new_relation : ℕ → ℕ → ℕ → String → Option ℕ → RequirementTaskRelation
new_relation id requirement_id task_id relation_type actor_id = record {
  id = id;
  requirement_id = requirement_id;
  task_id = task_id;
  relation_type = relation_type;
  created_by = actor_id;
}

-- `new_value` of the entry for a new relation
abbrev pub relation_value : RequirementTaskRelation → Snapshot
relation_value r =
    ("requirement_id", number r.requirement_id)
    ∷ ("task_id", number r.task_id)
    ∷ ("relation_type", text r.relation_type)
    ∷ []

-- `RequirementTaskRelationRepository.create` and the change log
abbrev pub add_relation : ℕ → ℕ → ℕ → String → Option ℕ → Action ItemTables RequirementTaskRelation
add_relation project_id requirement_id task_id relation_type actor_id = do
  relation ← gets (λ t. new_relation t.next_id requirement_id task_id relation_type actor_id)
  modify (λ t. record t { relations = t.relations ++ relation ∷ []; next_id = suc t.next_id })
  commit
  create_change_log (
      change project_id "relation" relation.id "relation.created" none
        (some (relation_value relation)) actor_id)
  pure relation

-- The write of a relation, with the handler of `IntegrityError`
abbrev pub write_relation :
    ℕ → ℕ → ℕ → String → Option ℕ → Action ItemTables RequirementTaskRelation
write_relation project_id requirement_id task_id relation_type actor_id = do
  taken ← gets (λ t. any (same_relation requirement_id task_id relation_type) t.relations)
  if taken
      then (rollback >> raise (duplicate duplicate_resource))
      else add_relation project_id requirement_id task_id relation_type actor_id

unfoldable pub create_requirement_task_relation :
    ℕ → ℕ → String → Option ℕ → Action ItemTables RequirementTaskRelation
create_requirement_task_relation requirement_id task_id relation_type actor_id = do
  project_id ← inspect (λ t. get_requirement_project t requirement_id)
  task ← get_task task_id
  raise_if (not (task.project_id == project_id)) (not_found task_not_found)
  write_relation project_id requirement_id task_id relation_type actor_id

-- `if task_in.requirement_id is not None:` at the end of `create_task`
abbrev pub relate : Task → Option ℕ → String → Option ℕ → Action ItemTables Unit
relate task none relation_type actor_id = pure tt
relate task (some requirement_id) relation_type actor_id =
    create_requirement_task_relation requirement_id task.id relation_type actor_id >> pure tt

unfoldable pub create_task : ℕ → ℕ → TaskCreate → Option ℕ → Action ItemTables Task
create_task today project_id task_in actor_id = do
  task ← create_row today project_id task_in actor_id
  relate task task_in.requirement_id task_in.relation_type actor_id
  pure task

-- `create_requirement_task`
abbrev pub create_requirement_task : ℕ → ℕ → TaskCreate → Option ℕ → Action ItemTables Task
create_requirement_task today requirement_id task_in actor_id = do
  project_id ← inspect (λ t. get_requirement_project t requirement_id)
  create_task today project_id (record task_in { requirement_id = some requirement_id }) actor_id

-- `relation is None or relation.requirement_id != requirement_id` refuses the others.
unfoldable pub find_relation : ItemTables → ℕ → ℕ → Option RequirementTaskRelation
find_relation t requirement_id relation_id =
    let relation = find? (λ r. r.id == relation_id) t.relations in
    elim relation [
      | none ↦ none
      | some r ↦ if r.requirement_id == requirement_id then some r else none
    ]

-- The deletion of a relation that has been found
abbrev pub drop_relation : ℕ → RequirementTaskRelation → ℕ → Option ℕ → Action ItemTables Unit
drop_relation project_id relation relation_id actor_id = do
  modify (λ t. record t { relations = filter (λ r. not (r.id == relation_id)) t.relations })
  commit
  create_change_log (
      change project_id "relation" relation_id "relation.deleted"
        (some (("task_id", number relation.task_id) ∷ [])) none actor_id)

unfoldable pub delete_requirement_task_relation : ℕ → ℕ → Option ℕ → Action ItemTables Unit
delete_requirement_task_relation requirement_id relation_id actor_id = do
  project_id ← inspect (λ t. get_requirement_project t requirement_id)
  found ← gets (λ t. find_relation t requirement_id relation_id)
  relation ← or_raise found (not_found task_relation_not_found)
  drop_relation project_id relation relation_id actor_id
