-- ===== src/Task/Item/Fresh.antt =====
-- The codes that `create_task` gives.
use sync_nesto_backend.Base.{
  ℕ, ◌+◌, ◌≡◌, refl, sym, ◌∙◌, ap, false, ◌&&◌, Option, none, some, [], ◌∷◌, ◌++◌, arith, ◌==◌, leb,
  any, if◌then◌else◌,
}
use mathlib.Core.Path.{subst}
use sync_nesto_backend.Base.Text.{Text, text_eq}
use sync_nesto_backend.Errors.{ok, err, data_error}
use sync_nesto_backend.Task.Tables.{ItemTables}
use sync_nesto_backend.Task.Code.{
  max_auto_task_number, auto_code, auto_number, auto_number-auto_code, auto_number_bound,
  cast_integer, max_auto_append,
}
use sync_nesto_backend.Task.Input.{TaskCreate}
use sync_nesto_backend.Task.Rows.{created_row}
use sync_nesto_backend.Task.Item.{code_after, choose_code}

code_after-ok :
    (o : Option ℕ) (code : Text)
    → code_after o ≡ ok code
    → (m : ℕ) × (o ≡ some m) × (auto_code (m + 1) ≡ code)
code_after-ok none code h = cc
code_after-ok (some m) code h = (m, refl, cc)

-- A code that is generated for a project is TASK- with a number, and no task of the project has it,
-- deleted ones included, so that the row does not violate the unique key.
pub choose_code-fresh :
    (t : ItemTables) (project_id : ℕ) (code : Text)
    → choose_code t project_id none ≡ ok code
    → ((n : ℕ) × (auto_number code ≡ some n))
      × (any (λ r. r.project_id == project_id && text_eq r.task_code code) t.tasks ≡ false)
choose_code-fresh t project_id code h =
    let (m, e, same) = code_after-ok (max_auto_task_number project_id t.tasks) code h in
    (
      (m + 1, ap auto_number (sym same) ∙ auto_number-auto_code (m + 1)),
      subst (λ c. any (λ r. r.project_id == project_id && text_eq r.task_code c) t.tasks ≡ false)
          same (auto_number_bound project_id t.tasks m (m + 1) e (omega arith)),
    )

code_after-cast :
    (n : ℕ)
    → code_after (cast_integer n)
      ≡ (if leb 2147483648 n then err data_error else ok (auto_code (n + 1)))
code_after-cast n = ground arith

-- Once a task has been written with a code that was generated, the code is read back as its number:
-- the next code that is generated for the project has the next number, unless the number is above
-- the range of a 32-bit integer; then no code can be generated, as the query fails.
pub choose_code-next :
    (t : ItemTables) (project_id : ℕ) (code : Text) (today : ℕ) (task_in : TaskCreate)
    (actor_id : Option ℕ)
    → choose_code t project_id none ≡ ok code
    → let row = created_row today t.next_id project_id task_in code actor_id in
      (n : ℕ) × (code ≡ auto_code n)
      × (choose_code (record t { tasks = t.tasks ++ row ∷ [] }) project_id none
          ≡ (if leb 2147483648 n then err data_error else ok (auto_code (n + 1))))
choose_code-next t project_id code today task_in actor h =
    let (m, e, same) = code_after-ok (max_auto_task_number project_id t.tasks) code h in
    let row = created_row today t.next_id project_id task_in code actor in
    let number = ap auto_number (sym same) ∙ auto_number-auto_code (m + 1) in
    (
      m + 1,
      sym same,
      ap code_after (max_auto_append project_id t.tasks row m (m + 1) e (omega arith) refl number)
          ∙ code_after-cast (m + 1),
    )
