-- ===== src/Task/Parent.antt =====
-- The parents of tasks: `_creates_parent_cycle` and `_validate_parent_task` of app/services/task.py.
pub mod Climb
pub mod Rooted
use sync_nesto_backend.Base.{
  ℕ, zero, suc, ◌+◌, Bool, true, false, not, ◌||◌, Option, none, some, List, [], ◌∷◌, ◌==◌,
  contains, length, if◌then◌else◌,
}
use sync_nesto_backend.Errors.{
  Result, ok, err, bad_request, not_found, task_parent_not_found, task_parent_self_reference,
  task_parent_cycle,
}
use sync_nesto_backend.Task.Model.{Task}
use sync_nesto_backend.Task.Tables.{live_task}

-- `parent.parent_task_id if parent is not None else None`
abbrev pub next_parent : List Task → ℕ → Option ℕ
next_parent tasks id =
    let parent = live_task tasks id in elim parent [ none ↦ none | some task ↦ task.parent_task_id ]

-- The `while` loop of `_creates_parent_cycle`, one unit of fuel for each round.
unfoldable pub climb : List Task → ℕ → ℕ → List ℕ → Option ℕ → Bool
climb tasks task_id fuel visited none = false
climb tasks task_id zero visited (some current) = false
climb tasks task_id (suc fuel) visited (some current) =
    let rest = climb tasks task_id fuel (current ∷ visited) (next_parent tasks current) in
    if current == task_id || contains visited current then true else rest

-- `_creates_parent_cycle`; a round for each task and one for the first are enough.
unfoldable pub creates_parent_cycle : List Task → ℕ → ℕ → Bool
unfolding climb
creates_parent_cycle tasks task_id parent_task_id =
    climb tasks task_id (length tasks + 1) [] (some parent_task_id)

-- `parent is None or parent.project_id != project_id`
abbrev pub is_missing : Option Task → ℕ → Bool
is_missing none project_id = true
is_missing (some parent) project_id = not (parent.project_id == project_id)

-- `_validate_parent_task` with a `task_id`
unfoldable pub validate_new_parent : List Task → ℕ → Option ℕ → ℕ → Result Unit
validate_new_parent tasks project_id none task_id = ok tt
validate_new_parent tasks project_id (some parent_task_id) task_id =
    if parent_task_id == task_id
    then err (bad_request task_parent_self_reference)
    else if is_missing (live_task tasks parent_task_id) project_id
    then err (not_found task_parent_not_found)
    else if creates_parent_cycle tasks task_id parent_task_id
    then err (bad_request task_parent_cycle)
    else ok tt

-- `_validate_parent_task` without a `task_id`
abbrev pub validate_parent : List Task → ℕ → Option ℕ → Result Unit
validate_parent tasks project_id none = ok tt
validate_parent tasks project_id (some parent_task_id) =
    if is_missing (live_task tasks parent_task_id) project_id
    then err (not_found task_parent_not_found)
    else ok tt
