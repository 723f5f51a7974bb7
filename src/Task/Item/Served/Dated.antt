-- ===== src/Task/Item/Served/Dated.antt =====
-- The progress and the dates of every task go with its status, after any sequence of requests.
use sync_nesto_backend.Base.{
  ℕ, ◌≡◌, refl, true, false, some-injective, some, List, [], ◌∷◌, ◌++◌, ◌==◌, All, filter, str_eq,
  Bool, if◌then◌else◌, is_none, any, ◌&&◌,
}
use mathlib.Core.Path.{subst}
use sync_nesto_backend.Task.Model.{Task}
use sync_nesto_backend.Task.Tables.{ItemTables, live_task, put}
use sync_nesto_backend.Task.Rows.{deleted_row}
use sync_nesto_backend.Task.Item.Dates.{IsDated}
use sync_nesto_backend.Task.Item.Progress.{
  list_requirement_tasks, is_begun, progress_of, all_statuses,
}
use sync_nesto_backend.Task.Item.Progress.Bounds.{IsComplete, progress_of-done}
use sync_nesto_backend.Task.Item.Step.{skip, add, write, remove, IsClosed}
use sync_nesto_backend.Task.Item.Served.{TaskRequest, serve, serve-keeps}

module _ (P : Task → Type 0) where
  pub All-live_task :
      (tasks : List Task) (id : ℕ) (old : Task)
      → All P tasks
      → live_task tasks id ≡ some old
      → P old
  All-live_task [] id old all h = cc
  All-live_task (r ∷ rows) id old (p, all) h =
      by_test (r.id == id && is_none r.deleted_at) (All-live_task rows id old all) h
    where
      by_test :
          (c : Bool)
          → (live_task rows id ≡ some old → P old)
          → (if c then some r else live_task rows id) ≡ some old
          → P old
      by_test true rest e = subst P (some-injective e) p
      by_test false rest e = rest e

  pub All-put : (row : Task) (tasks : List Task) → P row → All P tasks → All P (put row tasks)
  All-put row [] p all = tt
  All-put row (r ∷ rows) p (q, all) = (by_id (r.id == row.id), All-put row rows p all)
    where
      by_id : (c : Bool) → P (if c then row else r)
      by_id true = p
      by_id false = q

  pub All-append :
      (tasks : List Task) (row : Task) → All P tasks → P row → All P (tasks ++ row ∷ [])
  All-append [] row all p = (p, tt)
  All-append (r ∷ rows) row (q, all) p = (q, All-append rows row all p)

IsDated-closed : IsClosed (λ tasks next. All IsDated tasks)
IsDated-closed tasks next tasks' next' all skip = all
IsDated-closed tasks next tasks' next' all (add row e live parent dated) =
    All-append IsDated tasks row all dated
IsDated-closed tasks next tasks' next' all (write old row found live parent dated) =
    All-put IsDated row tasks (dated (All-live_task IsDated tasks row.id old all found)) all
IsDated-closed tasks next tasks' next' all (remove now actor old found) =
    All-put IsDated (deleted_row now actor old) tasks
      (All-live_task IsDated tasks old.id old all found) all

-- After any sequence of requests on tasks, boards and relations, successful or not, that begins
-- with tasks of which this holds (none, for one), every done task is complete and has an actual end
-- date, and every task in progress has an actual start date.
pub serve-IsDated :
    (requests : List TaskRequest) (t : ItemTables)
    → All IsDated t.tasks
    → All IsDated (serve requests t).tasks
serve-IsDated requests t all =
    serve-keeps (λ tasks next. All IsDated tasks) IsDated-closed requests t all

All-filter :
    (P R : Task → Type 0) (keep : Task → Bool) (tasks : List Task)
    → ((r : Task) → P r → R r)
    → All P tasks
    → All R (filter keep tasks)
All-filter P R keep [] f all = tt
All-filter P R keep (r ∷ rows) f (p, all) = by_test (keep r) (All-filter P R keep rows f all)
  where
    by_test :
        (c : Bool)
        → All R (filter keep rows)
        → All R (if c then r ∷ filter keep rows else filter keep rows)
    by_test true rest = (f r p, rest)
    by_test false rest = rest

-- A requirement that is implemented has tasks that are all done.
implemented-done :
    (cancelled done begun : Bool)
    → str_eq
        (if cancelled
          then "cancelled"
          else if done
          then "implemented"
          else if begun
          then "in_progress"
          else "not_started")
        "implemented"
      ≡ true
    → done ≡ true
implemented-done true done begun h = cc
implemented-done false true begun h = refl
implemented-done false false true h = cc
implemented-done false false false h = cc

complete_progress :
    (requirement_id : ℕ) (tasks : List Task)
    → All IsComplete tasks
    → str_eq (progress_of requirement_id tasks).status "implemented" ≡ true
    → (progress_of requirement_id tasks).progress_percent ≡ 100
unfolding progress_of
complete_progress requirement_id [] all h = cc
complete_progress requirement_id (task ∷ tasks) all h =
    progress_of-done requirement_id task tasks all (
      implemented-done (all_statuses (λ s. str_eq s "cancelled") (task ∷ tasks))
        (all_statuses (λ s. str_eq s "done") (task ∷ tasks))
        (any (λ task. is_begun task.status) (task ∷ tasks)) h)

-- After any such sequence of requests, a requirement that is reported as implemented is reported
-- with the progress 100.
pub serve-implemented :
    (requests : List TaskRequest) (t : ItemTables) (requirement_id : ℕ)
    → All IsDated t.tasks
    → str_eq
        (progress_of requirement_id
          (list_requirement_tasks (serve requests t) requirement_id)).status
        "implemented"
      ≡ true
    → (progress_of requirement_id
        (list_requirement_tasks (serve requests t) requirement_id)).progress_percent
      ≡ 100
serve-implemented requests t requirement_id all h =
    complete_progress requirement_id (list_requirement_tasks (serve requests t) requirement_id)
      (All-filter IsDated IsComplete _ (serve requests t).tasks (λ r (done, begun) e. (done e).0)
        (serve-IsDated requests t all))
      h
