-- ===== src/Task/Item/Step/Tail.antt =====
-- The actions that write no task: logs, notifications and relations.
use sync_nesto_backend.Base.Text.{Text}
use sync_nesto_backend.Base.{
  inl, inr, Option-cases, ℕ, String, Bool, true, false, Option, none, some, List, [], ◌∷◌, opt_eq,
}
use sync_nesto_backend.Database.{Value, pure, commit, ◌>>◌}
use sync_nesto_backend.Database.Rules.{KeepsBoth, KeepsBoth->>=}
use sync_nesto_backend.Database.Kept.{if-Kept}
use sync_nesto_backend.Task.Model.{Task}
use sync_nesto_backend.Task.Input.{TaskUpdate, given}
use sync_nesto_backend.Task.Log.{Change, task_snapshot, candidate_fields, changed_fields}
use sync_nesto_backend.Task.Check.{is_returning}
use sync_nesto_backend.Task.Item.{
  assignment_changed, notify_returned, record_update, log_create, finish_create, notify_update,
  finish_update,
}
use sync_nesto_backend.Task.Item.Step.{On}

module _ (P : List Task → ℕ → Type 0) where
  pub assignment_changed-keeps :
      (actor_id : Option ℕ) (task : Task) (previous recipient : Option ℕ)
      → KeepsBoth (On P) (assignment_changed actor_id task previous recipient)
  assignment_changed-keeps actor task previous none s p = p
  assignment_changed-keeps actor task previous (some user) s p =
      if-Kept (On P) (opt_eq (some user) previous) (pure tt) _ s (λ _ q. q) (λ _ q. q) p

  pub notify_returned-keeps :
      (returning : Bool) (actor_id : Option ℕ) (task : Task)
      → KeepsBoth (On P) (notify_returned returning actor_id task)
  notify_returned-keeps false actor task s p = p
  notify_returned-keeps true actor task s p = elim (Option-cases task.assignee_id) [
    | inl e ↦ rw e p
    | inr (user, e) ↦ rw e p
  ]

  pub record_update-keeps :
      (task : Task) (changes : List Change) (reason : Option Text) (actor_id : Option ℕ)
      → KeepsBoth (On P) (record_update task changes reason actor_id)
  record_update-keeps task [] reason actor s p = p
  record_update-keeps task (c ∷ changes) reason actor s (p, q) = (q, q)

  finish_update-keeps :
      (row : Task) (before : List (String × Value)) (u : TaskUpdate) (actor_id : Option ℕ)
      → KeepsBoth (On P) (finish_update row before u actor_id)
  finish_update-keeps row before u actor s =
      let changes =
        changed_fields (candidate_fields u) before (task_snapshot s.pending.phases row) in
      KeepsBoth->>= (On P) (record_update row changes (given u.change_reason) actor)
        (λ _. commit >> pure row) (record_update-keeps row changes (given u.change_reason) actor)
        (λ _ s' (p, q). (q, q)) s

  notify_update-keeps :
      (task row : Task) (u : TaskUpdate) (actor_id : Option ℕ)
      → KeepsBoth (On P) (notify_update task row u actor_id)
  notify_update-keeps task row u actor =
      KeepsBoth->>= (On P) (notify_returned (is_returning task u) actor row)
        (λ _. assignment_changed actor row task.assignee_id row.assignee_id)
        (notify_returned-keeps (is_returning task u) actor row)
        (λ _. assignment_changed-keeps actor row task.assignee_id row.assignee_id)

  -- The notifications and the logs of an update write no task.
  pub notify_finish-keeps :
      (task row : Task) (before : List (String × Value)) (u : TaskUpdate) (actor_id : Option ℕ)
      → KeepsBoth (On P) (notify_update task row u actor_id >> finish_update row before u actor_id)
  notify_finish-keeps task row before u actor =
      KeepsBoth->>= (On P) (notify_update task row u actor) (λ _. finish_update row before u actor)
        (notify_update-keeps task row u actor) (λ _. finish_update-keeps row before u actor)

  pub finish_create-keeps :
      (task : Task) (actor_id : Option ℕ) → KeepsBoth (On P) (finish_create task actor_id)
  finish_create-keeps task actor =
      KeepsBoth->>= (On P) (assignment_changed actor task none task.assignee_id)
        (λ _. log_create task actor) (assignment_changed-keeps actor task none task.assignee_id)
        (λ _ s (p, q). (q, q))
