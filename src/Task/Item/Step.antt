-- ===== src/Task/Item/Step.antt =====
-- What one handler does to the rows of the tasks, as a step of a state machine, and the rule that
-- carries an invariant of the steps over to the handlers.
pub mod Facts
pub mod Tail
pub mod Handlers
pub mod Moves
use sync_nesto_backend.Base.{
  ℕ, suc, ◌≡◌, refl, ◌⊎◌, inl, inr, true, false, Option, none, some, List, [], ◌∷◌, ◌++◌, ◌==◌,
}
use sync_nesto_backend.Errors.{Result, ok, err, ◌>>◌}
use sync_nesto_backend.Database.{Action}
use sync_nesto_backend.Database.Rules.{KeepsBoth}
use sync_nesto_backend.Task.Model.{Task}
use sync_nesto_backend.Task.Tables.{ItemTables, live_task, put}
use sync_nesto_backend.Task.Parent.{validate_parent, validate_new_parent}
use sync_nesto_backend.Task.Rows.{violates, deleted_row}
use sync_nesto_backend.Task.Item.Dates.{IsDated}

-- From the rows and the next id to those after.
pub data Step (tasks : List Task) (next : ℕ) : List Task → ℕ → Type 0 where
  skip : Step tasks next tasks (suc next)
  add :
      (row : Task)
      → row.id ≡ next
      → row.deleted_at ≡ none
      → validate_parent tasks row.project_id row.parent_task_id ≡ ok tt
      → IsDated row
      → Step tasks next (tasks ++ row ∷ []) (suc next)
  write :
      (old row : Task)
      → live_task tasks row.id ≡ some old
      → row.deleted_at ≡ none
      → (row.parent_task_id ≡ old.parent_task_id)
        ⊎ (validate_new_parent tasks row.project_id row.parent_task_id row.id ≡ ok tt)
      → (IsDated old → IsDated row)
      → Step tasks next (put row tasks) next
  remove :
      (now : ℕ) (actor_id : Option ℕ) (old : Task)
      → live_task tasks old.id ≡ some old
      → Step tasks next (put (deleted_row now actor_id old) tasks) next

-- A property of the rows and the next id that every step keeps.
abbrev pub IsClosed : (List Task → ℕ → Type 0) → Type 0
IsClosed P =
    (tasks : List Task) (next : ℕ) (tasks' : List Task) (next' : ℕ)
    → P tasks next
    → Step tasks next tasks' next'
    → P tasks' next'

-- The property, of tables.
abbrev pub On : (List Task → ℕ → Type 0) → ItemTables → Type 0
On P t = P t.tasks t.next_id
