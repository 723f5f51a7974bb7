-- ===== src/Task/Item/Served/Forest.antt =====
-- No live task becomes its own ancestor through live tasks, after any sequence of requests.
use sync_nesto_backend.Base.{
  ℕ, suc, ◌<◌, ◌≡◌, refl, sym, ◌∙◌, ◌⊎◌, inl, inr, false, none, some, List, [], ◌∷◌, ◌++◌, arith,
  ◌==◌, ==_iff, All, Bool-cases, Option-cases,
}
use mathlib.Core.Path.{subst}
use sync_nesto_backend.Errors.{ok}
use sync_nesto_backend.Task.Model.{Task}
use sync_nesto_backend.Task.Tables.{ItemTables, live_task, put}
use sync_nesto_backend.Task.Parent.{
  next_parent, creates_parent_cycle, validate_parent, validate_new_parent,
}
use sync_nesto_backend.Task.Parent.Climb.{creates_parent_cycle_iff}
use sync_nesto_backend.Task.Parent.Rooted.{
  Rooted, top, below, IsForest, IsForest-change, put-SameBut, next_parent-put_live,
  next_parent-put_deleted, IsNumbered, append-SameBut, next_parent-append, Rooted-below,
}
use sync_nesto_backend.Task.Rows.{deleted_row}
use sync_nesto_backend.Task.Item.Step.{skip, add, write, remove, IsClosed}
use sync_nesto_backend.Task.Item.Served.{TaskRequest, serve, serve-keeps}
use sync_nesto_backend.Task.Item.Served.Dated.{All-live_task, All-put, All-append}

-- The ids are given in order, and no live task is its own ancestor through live tasks.
abbrev pub IsOrdered : List Task → ℕ → Type 0
IsOrdered tasks next = All (IsNumbered next) tasks × IsForest tasks

IsNumbered-suc :
    (next : ℕ) (tasks : List Task) → All (IsNumbered next) tasks → All (IsNumbered (suc next)) tasks
IsNumbered-suc next [] all = tt
IsNumbered-suc next (r ∷ rows) ((lt, k), all) =
    ((omega arith, λ p e. omega (arith, k p e)), IsNumbered-suc next rows all)

live_lt :
    (next : ℕ) (tasks : List Task) (id : ℕ) (task : Task)
    → All (IsNumbered next) tasks
    → live_task tasks id ≡ some task
    → id < next
live_lt next [] id task all h = cc
live_lt next (r ∷ rows) id task ((lt, k), all) h = ground (arith, live_lt next rows id task all)

-- A parent that a check has let pass is a live task.
parent_live :
    (tasks : List Task) (project_id p : ℕ)
    → validate_parent tasks project_id (some p) ≡ ok tt
    → (task : Task) × (live_task tasks p ≡ some task)
parent_live tasks project_id p h = elim (Option-cases (live_task tasks p)) [
  | inl e ↦ ground arith
  | inr (task, e) ↦ (task, e)
]

new_parent-facts :
    (tasks : List Task) (project_id p task_id : ℕ)
    → validate_new_parent tasks project_id (some p) task_id ≡ ok tt
    → ((task : Task) × (live_task tasks p ≡ some task))
      × (creates_parent_cycle tasks task_id p ≡ false)
unfolding validate_new_parent
new_parent-facts tasks project_id p task_id h = elim (Option-cases (live_task tasks p)) [
  | inl e ↦ ground arith
  | inr (task, e) ↦ ((task, e), ground arith)
]

-- Every task keeps its parent: the chains stay as they are.
IsForest-same :
    (tasks tasks' : List Task)
    → ((c : ℕ) → next_parent tasks' c ≡ next_parent tasks c)
    → IsForest tasks
    → IsForest tasks'
IsForest-same tasks tasks' same forest c = go c (forest c)
  where
    go : (c : ℕ) → Rooted tasks c → Rooted tasks' c
    go c (top e) = top (same c ∙ e)
    go c (below {p} e rest) = below (same c ∙ e) (go p rest)

added-IsForest :
    (tasks : List Task) (row : Task)
    → row.deleted_at ≡ none
    → validate_parent tasks row.project_id row.parent_task_id ≡ ok tt
    → All (IsNumbered row.id) tasks
    → IsForest tasks
    → IsForest (tasks ++ row ∷ [])
added-IsForest tasks row live parent all forest =
    IsForest-change tasks (tasks ++ row ∷ []) row.id row.parent_task_id (append-SameBut row tasks)
      (next_parent-append row tasks live all)
      (λ p e.
        let (task, found) =
          parent_live tasks row.project_id p
            (subst (λ o. validate_parent tasks row.project_id o ≡ ok tt) e parent) in
        Rooted-below row.id tasks all p (live_lt row.id tasks p task all found) (forest p))
      forest

added-IsNumbered :
    (tasks : List Task) (row : Task)
    → validate_parent tasks row.project_id row.parent_task_id ≡ ok tt
    → All (IsNumbered row.id) tasks
    → All (IsNumbered (suc row.id)) (tasks ++ row ∷ [])
added-IsNumbered tasks row parent all =
    All-append (IsNumbered (suc row.id)) tasks row (IsNumbered-suc row.id tasks all) (
      omega arith,
      λ p e.
          let (task, found) =
            parent_live tasks row.project_id p
              (subst (λ o. validate_parent tasks row.project_id o ≡ ok tt) e parent) in
          omega (arith, live_lt row.id tasks p task all found),
    )

-- The parent of a row that an update writes.
abbrev IsFine : List Task → Task → Task → Type 0
IsFine tasks old row =
    (row.parent_task_id ≡ old.parent_task_id)
    ⊎ (validate_new_parent tasks row.project_id row.parent_task_id row.id ≡ ok tt)

found-parent :
    (tasks : List Task) (id : ℕ) (old : Task)
    → live_task tasks id ≡ some old
    → next_parent tasks id ≡ old.parent_task_id
found-parent tasks id old found = ground arith

written-IsForest :
    (tasks : List Task) (old row : Task)
    → live_task tasks row.id ≡ some old
    → row.deleted_at ≡ none
    → IsFine tasks old row
    → IsForest tasks
    → IsForest (put row tasks)
written-IsForest tasks old row found live (inl same) forest =
    IsForest-same tasks (put row tasks) kept forest
  where
    kept : (c : ℕ) → next_parent (put row tasks) c ≡ next_parent tasks c
    kept c = elim (Bool-cases (c == row.id)) [
      | inr other ↦ put-SameBut row tasks c (λ e. ground arith)
      | inl it ↦
          let e = (==_iff c row.id).0 it in
          subst (λ x. next_parent (put row tasks) x ≡ next_parent tasks x) (sym e)
            (next_parent-put_live row old tasks live found
              ∙ same
              ∙ sym (found-parent tasks row.id old found))
    ]
written-IsForest tasks old row found live (inr checked) forest =
    IsForest-change tasks (put row tasks) row.id row.parent_task_id (put-SameBut row tasks)
      (next_parent-put_live row old tasks live found)
      (λ p e.
        let (parent, no_cycle) =
          new_parent-facts tasks row.project_id p row.id
            (subst (λ o. validate_new_parent tasks row.project_id o row.id ≡ ok tt) e checked) in
        (creates_parent_cycle_iff tasks row.id p).0 no_cycle)
      forest

written-IsNumbered :
    (tasks : List Task) (next : ℕ) (old row : Task)
    → live_task tasks row.id ≡ some old
    → IsFine tasks old row
    → All (IsNumbered next) tasks
    → All (IsNumbered next) (put row tasks)
written-IsNumbered tasks next old row found fine all =
    All-put (IsNumbered next) row tasks (live_lt next tasks row.id old all found, parent_lt fine)
      all
  where
    parent_lt : IsFine tasks old row → (p : ℕ) → row.parent_task_id ≡ some p → p < next
    parent_lt (inl same) p e =
        (All-live_task (IsNumbered next) tasks row.id old all found).1 p (sym same ∙ e)
    parent_lt (inr checked) p e =
        let ((task, live), no_cycle) =
          new_parent-facts tasks row.project_id p row.id
            (subst (λ o. validate_new_parent tasks row.project_id o row.id ≡ ok tt) e checked) in
        live_lt next tasks p task all live

IsOrdered-closed : IsClosed IsOrdered
IsOrdered-closed tasks next tasks' next' (all, forest) skip =
    (IsNumbered-suc next tasks all, forest)
IsOrdered-closed tasks next tasks' next' (all, forest) (add row e live parent dated) =
    let all' = subst (λ n. All (IsNumbered n) tasks) (sym e) all in
    (
      subst (λ n. All (IsNumbered (suc n)) (tasks ++ row ∷ [])) e
          (added-IsNumbered tasks row parent all'),
      added-IsForest tasks row live parent all' forest,
    )
IsOrdered-closed tasks next tasks' next' (all, forest) (write old row found live fine dated) = (
  written-IsNumbered tasks next old row found fine all,
  written-IsForest tasks old row found live fine forest,
)
IsOrdered-closed tasks next tasks' next' (all, forest) (remove now actor old found) = (
  All-put (IsNumbered next) (deleted_row now actor old) tasks
      (All-live_task (IsNumbered next) tasks old.id old all found) all,
  IsForest-change tasks (put (deleted_row now actor old) tasks) old.id none
      (put-SameBut (deleted_row now actor old) tasks)
      (next_parent-put_deleted (deleted_row now actor old) now tasks refl) (λ p e. cc) forest,
)

-- After any sequence of requests on tasks, boards and relations, successful or not, that begins
-- with ids in order and all chains of live tasks finite (with no tasks, for one), no live task is
-- its own ancestor through live tasks: the chain of parents of every task, which ends at a task
-- that has no parent or is not live, is finite. Parents that are stored in deleted tasks are not
-- followed.
pub serve-IsForest :
    (requests : List TaskRequest) (t : ItemTables)
    → All (IsNumbered t.next_id) t.tasks
    → IsForest t.tasks
    → IsForest (serve requests t).tasks
serve-IsForest requests t all forest =
    (serve-keeps IsOrdered IsOrdered-closed requests t (all, forest)).1
