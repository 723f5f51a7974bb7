-- ===== src/Task/Parent/Climb.antt =====
-- The loop of `_creates_parent_cycle` lets a parent pass exactly when the chain of parents that
-- begins with it comes to an end without the task.
use sync_nesto_backend.Base.{
  ℕ, zero, suc, ◌+◌, ◌≤◌, ◌<◌, ◌≡◌, ◌≢◌, refl, sym, ap, ◌∙◌, inl, inr, ◌↔◌, false, none, some, List,
  [], ◌∷◌, arith, ◌==◌, ==_iff, contains, length, All, Bool-cases, Option-cases, some-injective,
  if◌then◌else◌,
}
use mathlib.Core.Path.{subst}
use sync_nesto_backend.Task.Model.{Task}
use sync_nesto_backend.Task.Tables.{live_task}
use sync_nesto_backend.Task.Parent.{next_parent, climb, creates_parent_cycle}

module _ (tasks : List Task) (task_id : ℕ) where
  -- The chain of parents from a task ends after `n` more tasks, and `task_id` is not on it.
  pub data Chain : ℕ → ℕ → Type 0 where
    root : {c : ℕ} → c ≢ task_id → next_parent tasks c ≡ none → Chain 0 c
    up : {n c p : ℕ} → c ≢ task_id → next_parent tasks c ≡ some p → Chain n p → Chain (suc n) c

  -- The tasks that have a parent and have not been visited.
  abbrev unvisited : List ℕ → List Task → ℕ
  unvisited visited [] = 0
  unvisited visited (r ∷ rows) = (if contains visited r.id then 0 else 1) + unvisited visited rows

  unvisited_le : (rows : List Task) → unvisited [] rows ≤ length rows
  unvisited_le [] = omega arith
  unvisited_le (r ∷ rows) = omega (arith, unvisited_le rows)

  unvisited_mono :
      (c : ℕ) (visited : List ℕ) (rows : List Task)
      → unvisited (c ∷ visited) rows ≤ unvisited visited rows
  unvisited_mono c visited [] = omega arith
  unvisited_mono c visited (r ∷ rows) = ground (arith, unvisited_mono c visited rows)

  unvisited-cons :
      (c : ℕ) (visited : List ℕ) (rows : List Task) (row : Task)
      → contains visited c ≡ false
      → live_task rows c ≡ some row
      → unvisited (c ∷ visited) rows < unvisited visited rows
  unvisited-cons c visited [] row new found = cc
  unvisited-cons c visited (r ∷ rows) row new found =
      ground (arith, unvisited-cons c visited rows row new, unvisited_mono c visited rows)

  -- With a round for each task that has not been visited, a loop that answers false has seen the end of the chain.
  climb_sound :
      (fuel : ℕ) (visited : List ℕ) (c : ℕ)
      → unvisited visited tasks < fuel
      → climb tasks task_id fuel visited (some c) ≡ false
      → (n : ℕ) × Chain n c
  unfolding climb
  climb_sound zero visited c enough h = absurd (omega arith)
  climb_sound (suc fuel) visited c enough h = elim (Option-cases (live_task tasks c)) [
    | inl none_live ↦ (0, root (λ e. ground arith) (ground arith))
    | inr (row, live) ↦ elim (Option-cases row.parent_task_id) [
      | inl top ↦ (0, root (λ e. ground arith) (ground arith))
      | inr (p, parent) ↦
          let (n, chain) =
            climb_sound fuel (c ∷ visited) p
              (ground (arith, unvisited-cons c visited tasks row (ground arith) live))
              (ground arith) in
          (suc n, up (λ e. ground arith) (ground arith) chain)
    ]
  ]

  -- The chain of a task is determined by the task, and so is its length.
  Chain-unique : (n m c : ℕ) → Chain n c → Chain m c → n ≡ m
  Chain-unique n m c (root o e) (root o' e') = refl
  Chain-unique n m c (root o e) (up o' e' chain) = cc
  Chain-unique n m c (up o e chain) (root o' e') = cc
  Chain-unique n m c (up {n = k} {p} o e chain) (up {n = l} {p = q} o' e' chain') =
      ap suc (Chain-unique k l p chain (subst (Chain l) (some-injective (sym e' ∙ e)) chain'))

  -- A visited task has a longer chain than the task that the loop looks at.
  abbrev Longer : ℕ → ℕ → Type 0
  Longer n v = (m : ℕ) × (n < m) × Chain m v

  Longer-new :
      (n c : ℕ) (visited : List ℕ) → Chain n c → All (Longer n) visited → contains visited c ≡ false
  Longer-new n c [] chain all = refl
  Longer-new n c (v ∷ visited) chain ((m, lt, chain'), all) = elim (Bool-cases (c == v)) [
    | inl same ↦ absurd (
        omega
          (arith, Chain-unique n m c chain (subst (Chain m) (sym ((==_iff c v).0 same)) chain')))
    | inr other ↦ ground (arith, Longer-new n c visited chain all)
  ]

  Longer-less : (n : ℕ) (visited : List ℕ) → All (Longer (suc n)) visited → All (Longer n) visited
  Longer-less n [] all = tt
  Longer-less n (v ∷ visited) ((m, lt, chain), all) =
      ((m, omega arith, chain), Longer-less n visited all)

  outside : (n c : ℕ) → Chain n c → (c == task_id) ≡ false
  outside n c (root o e) = ground arith
  outside n c (up o e chain) = ground arith

  climb_complete :
      (fuel n c : ℕ) (visited : List ℕ)
      → Chain n c
      → All (Longer n) visited
      → climb tasks task_id fuel visited (some c) ≡ false
  unfolding climb
  climb_complete zero n c visited chain all = refl
  climb_complete (suc fuel) n c visited (root o e) all =
      ground (arith, Longer-new 0 c visited (root o e) all, outside 0 c (root o e))
  climb_complete (suc fuel) n c visited (up {n = k} {p} o e chain) all =
      let rest =
        climb_complete fuel k p (c ∷ visited) chain
          ((suc k, omega arith, up o e chain), Longer-less k visited all) in
      ground (
        arith,
        rest,
        Longer-new (suc k) c visited (up o e chain) all,
        outside (suc k) c (up o e chain),
      )

-- A new parent of a task is let pass exactly when its chain of parents ends and the task is not on it: the rounds that
-- the loop is given are enough on every table.
pub creates_parent_cycle_iff :
    (tasks : List Task) (task_id parent_task_id : ℕ)
    → (creates_parent_cycle tasks task_id parent_task_id ≡ false)
      ↔ (n : ℕ) × Chain tasks task_id n parent_task_id
unfolding creates_parent_cycle
creates_parent_cycle_iff tasks task_id p = (
  climb_sound tasks task_id (length tasks + 1) [] p
      (omega (arith, unvisited_le tasks task_id tasks)),
  λ (n, chain). climb_complete tasks task_id (length tasks + 1) n p [] chain tt,
)
