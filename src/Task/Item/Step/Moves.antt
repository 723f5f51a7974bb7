-- ===== src/Task/Item/Step/Moves.antt =====
-- What every step keeps is kept by the creation of a task and by its moves on a board.
use sync_nesto_backend.Base.{
  ℕ, zero, suc, String, ◌≡◌, refl, inl, not, ◌&&◌, Option, none, some, List, ◌==◌, if◌then◌else◌,
  str_eq,
}
use sync_nesto_backend.Base.Text.{Text}
use sync_nesto_backend.Errors.{
  ok, duplicate, not_found, version_conflict, task_not_found, board_not_found,
  task_code_already_exists,
}
use sync_nesto_backend.Database.{
  Session, opened, pure, inspect, gets, or_raise, raise_if, rollback, ◌>>=◌, ◌>>◌,
}
use sync_nesto_backend.Database.Rules.{KeepsBoth, KeepsBoth->>=}
use sync_nesto_backend.Database.Kept.{
  Kept, inspect-Kept, or_raise-Kept, raise_if-Kept, if-Kept, bind-Kept,
}
use sync_nesto_backend.Task.Model.{Task}
use sync_nesto_backend.Task.Tables.{ItemTables, Board, live_board, live_task}
use sync_nesto_backend.Task.Input.{TaskCreate, TaskMoveRequest}
use sync_nesto_backend.Task.Code.{normalize_task_code}
use sync_nesto_backend.Task.Check.{get_requirement_project, validate_assignment, check_create}
use sync_nesto_backend.Task.Parent.{validate_parent}
use sync_nesto_backend.Task.Rows.{violates, created_row, moved_row, return_update}
use sync_nesto_backend.Task.Item.{
  choose_code, try_create, add_row, retry_limit, finish_create, create_row, update_task, place_task,
  move_found, move_checked, move_on, move_task,
}
use sync_nesto_backend.Task.Item.Relation.{
  create_requirement_task_relation, relate, create_task, create_requirement_task,
}
use sync_nesto_backend.Task.Item.Dates.{created_row-IsDated, moved_row-IsDated}
use sync_nesto_backend.Task.Item.Step.{add, write, IsClosed, On}
use sync_nesto_backend.Task.Item.Step.Facts.{check_create-parent, live_task-live}
use sync_nesto_backend.Task.Item.Step.Tail.{finish_create-keeps}
use sync_nesto_backend.Task.Item.Step.Handlers.{
  get_task-Kept, own_id, create_relation-keeps, update_task-keeps,
}

module _ (P : List Task → ℕ → Type 0) (closed : IsClosed P) where
  place_task-keeps :
      (today : ℕ) (task : Task) (move_in : TaskMoveRequest) (actor_id : Option ℕ)
      (s : Session ItemTables)
      → live_task s.pending.tasks task.id ≡ some task
      → Kept (On P) (place_task today task move_in actor_id) s
  place_task-keeps today task i actor s found (p, q) =
      let row = moved_row today i actor task in
      let q' = closed s.pending.tasks s.pending.next_id _ _ q (
        write task row found (live_task-live s.pending.tasks task.id task found) (inl refl)
          (moved_row-IsDated today i actor task)) in
      (q', q')

  move_on-keeps :
      (today : ℕ) (board : Board) (task_id : ℕ) (move_in : TaskMoveRequest) (actor_id : Option ℕ)
      → KeepsBoth (On P) (move_on today board task_id move_in actor_id)
  move_on-keeps today board task_id i actor s =
      get_task-Kept P closed task_id (λ task. move_checked today board task i actor) s
        (λ task found.
          raise_if-Kept (On P) (not (task.project_id == board.project_id))
            (not_found task_not_found)
            (raise_if (not (task.version == i.version)) version_conflict
              >> move_found today task i actor)
            s
            (λ _.
              raise_if-Kept (On P) (not (task.version == i.version)) version_conflict
                (move_found today task i actor) s
                (λ _.
                  if-Kept (On P) (str_eq i.status "returned" && not (str_eq task.status "returned"))
                    (update_task today task.id (return_update i) actor)
                    (place_task today task i actor) s
                    (λ _. update_task-keeps P closed today task.id (return_update i) actor s)
                    (λ _.
                      place_task-keeps today task i actor s
                        (own_id P closed s.pending.tasks task_id task found)))))

  pub move_task-keeps :
      (today board_id task_id : ℕ) (move_in : TaskMoveRequest) (actor_id : Option ℕ)
      → KeepsBoth (On P) (move_task today board_id task_id move_in actor_id)
  unfolding move_task
  move_task-keeps today board_id task_id i actor s =
      or_raise-Kept (On P) (live_board s.pending.boards board_id) (not_found board_not_found)
        (λ board. move_on today board task_id i actor) s
        (λ board _. move_on-keeps today board task_id i actor s)

  try_create-Kept :
      (attempts today project_id : ℕ) (task_in : TaskCreate) (requested : Option Text)
      (actor_id : Option ℕ) (t : ItemTables)
      → validate_parent t.tasks project_id task_in.parent_task_id ≡ ok tt
      → Kept (On P) (try_create attempts today project_id task_in requested actor_id) (opened t)
  unfolding try_create
  try_create-Kept zero today project_id i requested actor t parent p = p
  try_create-Kept (suc attempts) today project_id i requested actor t parent p =
      let again = try_create attempts today project_id i requested actor in
      let row_of = λ (code : Text). created_row today t.next_id project_id i code actor in
      let attempt = λ (code : Text).
        gets (λ t. created_row today t.next_id project_id i code actor) >>= λ row.
        gets (λ t. violates t row) >>= λ refused.
        if refused then (rollback >> again) else add_row row in
      inspect-Kept (On P) (λ t. validate_assignment t project_id i.phase_assignment none)
        (λ _. inspect (λ t. choose_code t project_id requested) >>= attempt) (opened t)
        (λ _ _.
          inspect-Kept (On P) (λ t. choose_code t project_id requested) attempt (opened t)
            (λ code _.
              if-Kept (On P) (violates t (row_of code)) (rollback >> again) (add_row (row_of code))
                (opened t)
                (λ _. try_create-Kept attempts today project_id i requested actor t parent)
                (λ _ (p, q). (
                  p,
                  closed t.tasks t.next_id _ _ q (
                      add (row_of code) refl refl parent
                        (created_row-IsDated today t.next_id project_id i code actor)),
                ))))
        p

  relate-keeps :
      (task : Task) (requirement_id : Option ℕ) (relation_type : String) (actor_id : Option ℕ)
      → KeepsBoth (On P) (relate task requirement_id relation_type actor_id)
  relate-keeps task none relation_type actor s p = p
  relate-keeps task (some requirement_id) relation_type actor s p =
      KeepsBoth->>= (On P)
        (create_requirement_task_relation requirement_id task.id relation_type actor) (λ _. pure tt)
        (create_relation-keeps P closed requirement_id task.id relation_type actor) (λ _ s' q. q) s
        p

  create_row-Kept :
      (today project_id : ℕ) (task_in : TaskCreate) (actor_id : Option ℕ) (t : ItemTables)
      → Kept (On P) (create_row today project_id task_in actor_id) (opened t)
  create_row-Kept today project_id i actor t =
      let requested = normalize_task_code i.task_code in
      let attempts = try_create (retry_limit requested) today project_id i requested actor in
      let finish = λ (created : Option Task).
        or_raise created (duplicate task_code_already_exists) >>= λ task.
        finish_create task actor in
      inspect-Kept (On P) (λ t. check_create t project_id i) (λ _. attempts >>= finish) (opened t)
        (λ _ checked.
          bind-Kept (On P) attempts finish (opened t)
            (try_create-Kept (retry_limit requested) today project_id i requested actor t
              (check_create-parent t project_id i checked))
            (λ created s.
              or_raise-Kept (On P) created (duplicate task_code_already_exists)
                (λ task. finish_create task actor) s
                (λ task _. finish_create-keeps P task actor s)))

  pub create_task-Kept :
      (today project_id : ℕ) (task_in : TaskCreate) (actor_id : Option ℕ) (t : ItemTables)
      → Kept (On P) (create_task today project_id task_in actor_id) (opened t)
  unfolding create_task
  create_task-Kept today project_id i actor t =
      let related = λ (task : Task). relate task i.requirement_id i.relation_type actor in
      bind-Kept (On P) (create_row today project_id i actor) (λ task. related task >> pure task)
        (opened t) (create_row-Kept today project_id i actor t)
        (λ task.
          KeepsBoth->>= (On P) (related task) (λ _. pure task)
            (relate-keeps task i.requirement_id i.relation_type actor) (λ _ s p. p))

  pub create_requirement_task-Kept :
      (today requirement_id : ℕ) (task_in : TaskCreate) (actor_id : Option ℕ) (t : ItemTables)
      → Kept (On P) (create_requirement_task today requirement_id task_in actor_id) (opened t)
  create_requirement_task-Kept today requirement_id i actor t =
      let i' = record i { requirement_id = some requirement_id } in
      inspect-Kept (On P) (λ t. get_requirement_project t requirement_id)
        (λ project. create_task today project i' actor) (opened t)
        (λ project _. create_task-Kept today project i' actor t)
