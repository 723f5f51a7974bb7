-- ===== src/Task/Item/Served.antt =====
-- Sequences of requests on tasks, boards and relations, and what holds of the rows after them.
pub mod Dated
pub mod Forest
use sync_nesto_backend.Base.{ℕ, String, Option, List, [], ◌∷◌}
use sync_nesto_backend.Database.{request, opened}
use sync_nesto_backend.Database.Rules.{request-KeepsBoth}
use sync_nesto_backend.Task.Model.{Task}
use sync_nesto_backend.Task.Tables.{ItemTables}
use sync_nesto_backend.Task.Input.{TaskCreate, TaskUpdate, TaskPlanningUpdate, TaskMoveRequest}
use sync_nesto_backend.Task.Item.{update_task, update_task_planning, delete_task, move_task}
use sync_nesto_backend.Task.Item.Relation.{
  create_task, create_requirement_task, create_requirement_task_relation,
  delete_requirement_task_relation,
}
use sync_nesto_backend.Task.Item.Step.{IsClosed, On}
use sync_nesto_backend.Task.Item.Step.Handlers.{
  update_task-keeps, update_task_planning-keeps, delete_task-keeps, create_relation-keeps,
  delete_relation-keeps,
}
use sync_nesto_backend.Task.Item.Step.Moves.{
  create_task-Kept, create_requirement_task-Kept, move_task-keeps,
}

-- A request, with the day or the time at which it is served.
pub data TaskRequest : Type 0 where
  create : ℕ → ℕ → TaskCreate → Option ℕ → TaskRequest
  create_for : ℕ → ℕ → TaskCreate → Option ℕ → TaskRequest
  update : ℕ → ℕ → TaskUpdate → Option ℕ → TaskRequest
  plan : ℕ → ℕ → TaskPlanningUpdate → Option ℕ → TaskRequest
  move : ℕ → ℕ → ℕ → TaskMoveRequest → Option ℕ → TaskRequest
  delete : ℕ → ℕ → Option ℕ → TaskRequest
  relate_to : ℕ → ℕ → String → Option ℕ → TaskRequest
  unrelate : ℕ → ℕ → Option ℕ → TaskRequest

-- What is durable after the request, whether it succeeds or fails.
abbrev pub serve_one : TaskRequest → ItemTables → ItemTables
serve_one (create today project_id i actor) t = (request (create_task today project_id i actor) t).1
serve_one (create_for today requirement_id i actor) t =
    (request (create_requirement_task today requirement_id i actor) t).1
serve_one (update today id i actor) t = (request (update_task today id i actor) t).1
serve_one (plan today id i actor) t = (request (update_task_planning today id i actor) t).1
serve_one (move today board_id id i actor) t = (request (move_task today board_id id i actor) t).1
serve_one (delete now id actor) t = (request (delete_task now id actor) t).1
serve_one (relate_to requirement_id id relation_type actor) t =
    (request (create_requirement_task_relation requirement_id id relation_type actor) t).1
serve_one (unrelate requirement_id id actor) t =
    (request (delete_requirement_task_relation requirement_id id actor) t).1

-- The requests that are served one after another.
abbrev pub serve : List TaskRequest → ItemTables → ItemTables
serve [] t = t
serve (r ∷ rs) t = serve rs (serve_one r t)

module _ (P : List Task → ℕ → Type 0) (closed : IsClosed P) where
  serve_one-keeps : (r : TaskRequest) (t : ItemTables) → On P t → On P (serve_one r t)
  serve_one-keeps (create today project_id i actor) t p =
      (create_task-Kept P closed today project_id i actor t (p, p)).0
  serve_one-keeps (create_for today requirement_id i actor) t p =
      (create_requirement_task-Kept P closed today requirement_id i actor t (p, p)).0
  serve_one-keeps (update today id i actor) t p =
      request-KeepsBoth (On P) (update_task today id i actor) t
        (update_task-keeps P closed today id i actor) p
  serve_one-keeps (plan today id i actor) t p =
      request-KeepsBoth (On P) (update_task_planning today id i actor) t
        (update_task_planning-keeps P closed today id i actor) p
  serve_one-keeps (move today board_id id i actor) t p =
      request-KeepsBoth (On P) (move_task today board_id id i actor) t
        (move_task-keeps P closed today board_id id i actor) p
  serve_one-keeps (delete now id actor) t p =
      request-KeepsBoth (On P) (delete_task now id actor) t
        (delete_task-keeps P closed now id actor) p
  serve_one-keeps (relate_to requirement_id id relation_type actor) t p =
      request-KeepsBoth (On P)
        (create_requirement_task_relation requirement_id id relation_type actor) t
        (create_relation-keeps P closed requirement_id id relation_type actor) p
  serve_one-keeps (unrelate requirement_id id actor) t p =
      request-KeepsBoth (On P) (delete_requirement_task_relation requirement_id id actor) t
        (delete_relation-keeps P closed requirement_id id actor) p

  -- What every step keeps holds after any sequence of requests.
  pub serve-keeps :
      (requests : List TaskRequest) (t : ItemTables) → On P t → On P (serve requests t)
  serve-keeps [] t p = p
  serve-keeps (r ∷ rs) t p = serve-keeps rs (serve_one r t) (serve_one-keeps r t p)
