-- ===== src/Task/Dependency/Graph.antt =====
-- The graph of the dependencies, stated without the search: edges, walks, and acyclicity.
use sync_nesto_backend.Base.{
  ℕ, ◌+◌, ◌≡◌, refl, ◌⊎◌, ◌↔◌, true, false, List, [], ◌∷◌, arith, contains, length, if◌then◌else◌,
}
use sync_nesto_backend.Task.Model.{TaskDependency}
use sync_nesto_backend.Task.Dependency.{successors, extend}

-- Some row says that `u` precedes `w`.
abbrev pub Edge : List TaskDependency → ℕ → ℕ → Type 0
Edge [] u w = ⊥
Edge (d ∷ deps) u w = (d.predecessor_task_id ≡ u) × (d.successor_task_id ≡ w) ⊎ Edge deps u w

-- The walks that end in `target`, by where they begin.
pub data Walk (deps : List TaskDependency) (target : ℕ) : ℕ → Type 0 where
  here : Walk deps target target
  step : {u w : ℕ} → Edge deps u w → Walk deps target w → Walk deps target u

-- No task precedes itself, directly or through others.
abbrev pub IsAcyclic : List TaskDependency → Type 0
IsAcyclic deps = (u w : ℕ) → Edge deps u w → ¬ Walk deps u w

pub contains-successors :
    (deps : List TaskDependency) (u w : ℕ) → (contains (successors deps u) w ≡ true) ↔ Edge deps u w
contains-successors [] u w = (λ h. cc, λ h. absurd h)
contains-successors (d ∷ deps) u w = ground (arith, contains-successors deps u w)

pub contains-extend :
    (stack xs : List ℕ) (a : ℕ)
    → (contains (extend stack xs) a ≡ true) ↔ ((contains xs a ≡ true) ⊎ (contains stack a ≡ true))
contains-extend stack [] a = ground arith
contains-extend stack (x ∷ xs) a = ground (arith, contains-extend (x ∷ stack) xs a)

pub length-extend : (stack xs : List ℕ) → length (extend stack xs) ≡ length stack + length xs
length-extend stack [] = omega arith
length-extend stack (x ∷ xs) = omega (arith, length-extend (x ∷ stack) xs)

-- The rows whose predecessor has not been visited.
abbrev pub unvisited : List ℕ → List TaskDependency → ℕ
unvisited visited [] = 0
unvisited visited (d ∷ deps) =
    (if contains visited d.predecessor_task_id then 0 else 1) + unvisited visited deps

pub unvisited_le : (visited : List ℕ) (deps : List TaskDependency) → unvisited [] deps ≡ length deps
unvisited_le visited [] = refl
unvisited_le visited (d ∷ deps) = omega (arith, unvisited_le visited deps)

-- A visit takes the rows of the task out of the count, and they are as many as its successors.
pub unvisited-cons :
    (current : ℕ) (visited : List ℕ) (deps : List TaskDependency)
    → contains visited current ≡ false
    → unvisited (current ∷ visited) deps + length (successors deps current) ≡ unvisited visited deps
unvisited-cons current visited [] h = omega arith
unvisited-cons current visited (d ∷ deps) h = ground (arith, unvisited-cons current visited deps h)
