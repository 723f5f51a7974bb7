-- ===== src/Task/Parent/Rooted.antt =====
-- The chains of parents of the live tasks stay finite when one task is written, added or deleted.
use sync_nesto_backend.Base.{
  ℕ, suc, ◌<◌, ◌≡◌, ◌≢◌, refl, sym, ◌∙◌, inl, inr, Option, none, some, List, [], ◌∷◌, ◌++◌, arith,
  ◌==◌, ==_iff, All, Bool-cases,
}
use mathlib.Core.Path.{subst}
use sync_nesto_backend.Task.Model.{Task}
use sync_nesto_backend.Task.Tables.{live_task, put}
use sync_nesto_backend.Task.Parent.{next_parent}
use sync_nesto_backend.Task.Parent.Climb.{Chain, root, up}

-- The chain of the parents of a task comes to an end. It ends at a task that has no parent, and at one
-- that is not live, whose stored parent does not count.
pub data Rooted (tasks : List Task) : ℕ → Type 0 where
  top : {c : ℕ} → next_parent tasks c ≡ none → Rooted tasks c
  below : {c p : ℕ} → next_parent tasks c ≡ some p → Rooted tasks p → Rooted tasks c

-- No live task is its own ancestor through live tasks: every chain of live parents comes to an end.
abbrev pub IsForest : List Task → Type 0
IsForest tasks = (c : ℕ) → Rooted tasks c

-- The parents of all tasks but `x` are those of before.
abbrev SameBut : List Task → List Task → ℕ → Type 0
SameBut tasks tasks' x = (c : ℕ) → c ≢ x → next_parent tasks' c ≡ next_parent tasks c

module _ (tasks tasks' : List Task) (x : ℕ) (same : SameBut tasks tasks' x) where
  Rooted-change : Rooted tasks' x → (c : ℕ) → Rooted tasks c → Rooted tasks' c
  Rooted-change rx c (top e) = elim (Bool-cases (c == x)) [
    | inl it ↦ subst (Rooted tasks') (sym ((==_iff c x).0 it)) rx
    | inr other ↦ top (same c (λ e'. ground arith) ∙ e)
  ]
  Rooted-change rx c (below {p} e rest) = elim (Bool-cases (c == x)) [
    | inl it ↦ subst (Rooted tasks') (sym ((==_iff c x).0 it)) rx
    | inr other ↦ below (same c (λ e'. ground arith) ∙ e) (Rooted-change rx p rest)
  ]

  Rooted-Chain : (n c : ℕ) → Chain tasks x n c → Rooted tasks' c
  Rooted-Chain n c (root o e) = top (same c o ∙ e)
  Rooted-Chain n c (up {n = k} {p} o e chain) = below (same c o ∙ e) (Rooted-Chain k p chain)

-- The parent of `x` may be any task whose chain does not lead to `x`.
pub IsForest-change :
    (tasks tasks' : List Task) (x : ℕ) (parent : Option ℕ)
    → SameBut tasks tasks' x
    → next_parent tasks' x ≡ parent
    → ((p : ℕ) → parent ≡ some p → (n : ℕ) × Chain tasks x n p)
    → IsForest tasks
    → IsForest tasks'
IsForest-change tasks tasks' x none same e chains forest c =
    Rooted-change tasks tasks' x same (top e) c (forest c)
IsForest-change tasks tasks' x (some p) same e chains forest c =
    let (n, chain) = chains p refl in
    Rooted-change tasks tasks' x same (below e (Rooted-Chain tasks tasks' x same n p chain)) c
      (forest c)

pub put-SameBut : (row : Task) (tasks : List Task) → SameBut tasks (put row tasks) row.id
put-SameBut row [] c ne = refl
put-SameBut row (r ∷ rows) c ne = ground (arith, put-SameBut row rows c)

pub next_parent-put_live :
    (row old : Task) (tasks : List Task)
    → row.deleted_at ≡ none
    → live_task tasks row.id ≡ some old
    → next_parent (put row tasks) row.id ≡ row.parent_task_id
next_parent-put_live row old [] live h = cc
next_parent-put_live row old (r ∷ rows) live h = ground (arith, next_parent-put_live row old rows)

pub next_parent-put_deleted :
    (row : Task) (at : ℕ) (tasks : List Task)
    → row.deleted_at ≡ some at
    → next_parent (put row tasks) row.id ≡ none
next_parent-put_deleted row at [] dead = refl
next_parent-put_deleted row at (r ∷ rows) dead = ground (arith, next_parent-put_deleted row at rows)

-- The ids and the parents of the rows are below the next id.
abbrev pub IsNumbered : ℕ → Task → Type 0
IsNumbered next r = (r.id < next) × ((p : ℕ) → r.parent_task_id ≡ some p → p < next)

pub append-SameBut : (row : Task) (tasks : List Task) → SameBut tasks (tasks ++ row ∷ []) row.id
append-SameBut row [] c ne = ground arith
append-SameBut row (r ∷ rows) c ne = ground (arith, append-SameBut row rows c)

pub next_parent-append :
    (row : Task) (tasks : List Task)
    → row.deleted_at ≡ none
    → All (IsNumbered row.id) tasks
    → next_parent (tasks ++ row ∷ []) row.id ≡ row.parent_task_id
next_parent-append row [] live all = ground arith
next_parent-append row (r ∷ rows) live ((lt, k), all) =
    ground (arith, next_parent-append row rows live all)

next_parent_lt :
    (next c p : ℕ) (tasks : List Task)
    → All (IsNumbered next) tasks
    → next_parent tasks c ≡ some p
    → p < next
next_parent_lt next c p [] all e = cc
next_parent_lt next c p (r ∷ rows) ((lt, k), all) e =
    ground (arith, next_parent_lt next c p rows all, k p)

-- A chain that begins below the next id stays below it.
pub Rooted-below :
    (next : ℕ) (tasks : List Task)
    → All (IsNumbered next) tasks
    → (c : ℕ) → c < next
    → Rooted tasks c
    → (n : ℕ) × Chain tasks next n c
Rooted-below next tasks all c lt (top e) = (0, root (λ h. omega arith) e)
Rooted-below next tasks all c lt (below {p} e rest) =
    let (n, chain) = Rooted-below next tasks all p (next_parent_lt next c p tasks all e) rest in
    (suc n, up (λ h. omega arith) e chain)
