-- ===== src/Task/Dependency/Acyclic.antt =====
-- The graph of the dependencies stays acyclic when a row is added that no walk closes to a cycle,
-- when rows are deleted, and when a row is replaced by one with the same ends.
use mathlib.Core.Path.{subst}
use sync_nesto_backend.Base.{ℕ, ◌≡◌, sym, ◌⊎◌, inl, inr, Bool, List, [], ◌∷◌, ◌++◌, arith, filter}
use sync_nesto_backend.Task.Model.{TaskDependency}
use sync_nesto_backend.Task.Dependency.{replace_row}
use sync_nesto_backend.Task.Dependency.Graph.{Edge, Walk, here, step, IsAcyclic}

module _ (deps : List TaskDependency) (row : TaskDependency) where
  abbrev p : ℕ
  p = row.predecessor_task_id

  abbrev s : ℕ
  s = row.successor_task_id

  -- A walk that may use one more edge avoids it, or reaches it and goes on from its end.
  Walk-add :
      (deps' : List TaskDependency)
      → ((u w : ℕ) → Edge deps' u w → Edge deps u w ⊎ (p ≡ u) × (s ≡ w))
      → {v u : ℕ} → Walk deps' v u
      → Walk deps v u ⊎ Walk deps p u × Walk deps v s
  Walk-add deps' split here = inl here
  Walk-add deps' split {v} {u} (step {u = x} {w} edge walk) =
      cases (split x w edge) (Walk-add deps' split walk)
    where
      cases :
          Edge deps x w ⊎ (p ≡ x) × (s ≡ w)
          → Walk deps v w ⊎ Walk deps p w × Walk deps v s
          → Walk deps v x ⊎ Walk deps p x × Walk deps v s
      cases (inl old) (inl rest) = inl (step old rest)
      cases (inl old) (inr (a, b)) = inr (step old a, b)
      cases (inr (e, f)) (inl rest) =
          inr (subst (Walk deps p) e here, subst (Walk deps v) (sym f) rest)
      cases (inr (e, f)) (inr (a, b)) = inr (subst (Walk deps p) e here, b)

  -- The edges grow by at most the row's, which closes no cycle: the graph stays acyclic.
  pub IsAcyclic-add :
      (deps' : List TaskDependency)
      → ((u w : ℕ) → Edge deps' u w → Edge deps u w ⊎ (p ≡ u) × (s ≡ w))
      → ¬ Walk deps p s
      → IsAcyclic deps
      → IsAcyclic deps'
  IsAcyclic-add deps' split no_way acyclic u w edge walk =
      cases (split u w edge) (Walk-add deps' split walk)
    where
      trans : {b c a : ℕ} → Walk deps b a → Walk deps c b → Walk deps c a
      trans here rest = rest
      trans (step edge walk) rest = step edge (trans walk rest)

      cases : Edge deps u w ⊎ (p ≡ u) × (s ≡ w) → Walk deps u w ⊎ Walk deps p w × Walk deps u s → ⊥
      cases (inl old) (inl cycle) = acyclic u w old cycle
      cases (inl old) (inr (a, b)) = no_way (trans b (step old a))
      cases (inr (e, f)) (inl cycle) =
          no_way (subst (Walk deps p) (sym f) (subst (λ x. Walk deps x w) (sym e) cycle))
      cases (inr (e, f)) (inr (a, b)) = no_way (subst (λ x. Walk deps x s) (sym e) b)

-- Fewer edges keep the graph acyclic.
pub IsAcyclic-sub :
    (deps deps' : List TaskDependency)
    → ((u w : ℕ) → Edge deps' u w → Edge deps u w)
    → IsAcyclic deps
    → IsAcyclic deps'
IsAcyclic-sub deps deps' sub acyclic u w edge walk = acyclic u w (sub u w edge) (lift walk)
  where
    lift : {b a : ℕ} → Walk deps' b a → Walk deps b a
    lift here = here
    lift (step edge walk) = step (sub _ _ edge) (lift walk)

pub Edge-append :
    (deps : List TaskDependency) (row : TaskDependency) (u w : ℕ)
    → Edge (deps ++ row ∷ []) u w
    → Edge deps u w ⊎ (row.predecessor_task_id ≡ u) × (row.successor_task_id ≡ w)
Edge-append [] row u w (inl new) = inr new
Edge-append [] row u w (inr rest) = elim rest [ ]
Edge-append (d ∷ deps) row u w (inl old) = inl (inl old)
Edge-append (d ∷ deps) row u w (inr rest) = elim (Edge-append deps row u w rest) [
  | inl old ↦ inl (inr old)
  | inr new ↦ inr new
]

pub Edge-filter :
    (keep : TaskDependency → Bool) (deps : List TaskDependency) (u w : ℕ)
    → Edge (filter keep deps) u w
    → Edge deps u w
Edge-filter keep [] u w edge = edge
Edge-filter keep (d ∷ deps) u w edge = ground (arith, Edge-filter keep deps u w)

pub Edge-replace_row :
    (row : TaskDependency) (deps : List TaskDependency) (u w : ℕ)
    → Edge (replace_row row deps) u w
    → Edge deps u w ⊎ (row.predecessor_task_id ≡ u) × (row.successor_task_id ≡ w)
Edge-replace_row row [] u w edge = inl edge
Edge-replace_row row (d ∷ deps) u w edge = ground (arith, Edge-replace_row row deps u w)
