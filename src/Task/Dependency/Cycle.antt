-- ===== src/Task/Dependency/Cycle.antt =====
-- `creates_cycle` decides whether a walk leads from the successor back to the predecessor, and a
-- new row that it lets pass keeps the graph acyclic.
use sync_nesto_backend.Base.{
  ℕ, zero, suc, ◌+◌, ◌<◌, ◌≡◌, refl, sym, ◌⊎◌, inl, inr, ◌↔◌, true, false, List, [], ◌∷◌, arith,
  ◌==◌, ==_iff, contains, length, Bool-cases,
}
use mathlib.Core.Path.{subst}
use sync_nesto_backend.Task.Model.{TaskDependency}
use sync_nesto_backend.Task.Dependency.{successors, extend, search, creates_cycle}
use sync_nesto_backend.Task.Dependency.Graph.{
  Edge, Walk, here, step, contains-successors, contains-extend, length-extend, unvisited,
  unvisited_le, unvisited-cons,
}

module _ (deps : List TaskDependency) (target : ℕ) where
  -- A search that answers true has found a walk from a task on the stack.
  search_sound :
      (fuel : ℕ) (stack visited : List ℕ)
      → search deps target fuel stack visited ≡ true
      → (x : ℕ) × (contains stack x ≡ true) × Walk deps target x
  unfolding search
  search_sound zero stack visited h = cc
  search_sound (suc fuel) [] visited h = cc
  search_sound (suc fuel) (current ∷ stack) visited h = elim (Bool-cases (current == target)) [
    | inl found ↦ (
      current,
      ground arith,
      subst (Walk deps target) (sym ((==_iff current target).0 found)) here,
    )
    | inr more ↦ elim (Bool-cases (contains visited current)) [
      | inl old ↦ skipped (search_sound fuel stack visited (ground arith))
      | inr new ↦ expanded (
          search_sound fuel (extend stack (successors deps current)) (current ∷ visited)
            (ground arith))
    ]
  ]
    where
      skipped :
          (x : ℕ) × (contains stack x ≡ true) × Walk deps target x
          → (x : ℕ) × (contains (current ∷ stack) x ≡ true) × Walk deps target x
      skipped (x, m, walk) = (x, ground arith, walk)

      expanded :
          (x : ℕ) × (contains (extend stack (successors deps current)) x ≡ true)
            × Walk deps target x
          → (x : ℕ) × (contains (current ∷ stack) x ≡ true) × Walk deps target x
      expanded (x, m, walk) = elim ((contains-extend stack (successors deps current) x).0 m) [
        | inl edge ↦
            (current, ground arith, step ((contains-successors deps current x).0 edge) walk)
        | inr waiting ↦ (x, ground arith, walk)
      ]

  -- Every edge out of a visited task leads to a task that is visited or waits on the stack.
  record Inv (stack visited : List ℕ) : Type 0 where
    outside : contains visited target ≡ false
    closed :
        (u w : ℕ)
        → contains visited u ≡ true
        → Edge deps u w
        → (contains visited w ≡ true) ⊎ (contains stack w ≡ true)

  -- A closed set without the target has no walk to it.
  no-Walk :
      {x : ℕ} (visited : List ℕ) → Inv [] visited → contains visited x ≡ true → ¬ Walk deps target x
  no-Walk visited inv m here = cc (inv.outside, m)
  no-Walk visited inv m (step {u} {w} edge walk) = elim (inv.closed u w m edge) [
    | inl old ↦ no-Walk visited inv old walk
    | inr never ↦ cc
  ]

  Inv-skip :
      (current : ℕ) (stack visited : List ℕ)
      → contains visited current ≡ true
      → Inv (current ∷ stack) visited
      → Inv stack visited
  Inv-skip current stack visited old inv = record {
    outside = inv.outside;
    closed = λ u w m edge. ground (arith, inv.closed u w m edge);
  }

  Inv-expand :
      (current : ℕ) (stack visited : List ℕ)
      → (current == target) ≡ false
      → Inv (current ∷ stack) visited
      → Inv (extend stack (successors deps current)) (current ∷ visited)
  Inv-expand current stack visited other inv = record {
    outside = ground (arith, inv.outside);
    closed = λ u w m edge. ground (
      arith,
      inv.closed u w,
      contains-extend stack (successors deps current) w,
      contains-successors deps current w,
    );
  }

  -- With enough fuel, a search that answers false has no walk from any task that it knows of.
  search_complete :
      (fuel : ℕ) (stack visited : List ℕ)
      → length stack + unvisited visited deps < fuel
      → Inv stack visited
      → search deps target fuel stack visited ≡ false
      → (x : ℕ) → (contains visited x ≡ true) ⊎ (contains stack x ≡ true)
      → ¬ Walk deps target x
  unfolding search
  search_complete zero stack visited enough inv h x m = absurd (omega arith)
  search_complete (suc fuel) [] visited enough inv h x m = no-Walk visited inv (ground arith)
  search_complete (suc fuel) (current ∷ stack) visited enough inv h x m =
      elim (Bool-cases (current == target)) [
        | inl found ↦ ground arith
        | inr more ↦ elim (Bool-cases (contains visited current)) [
          | inl old ↦
              search_complete fuel stack visited (omega arith)
                (Inv-skip current stack visited old inv) (ground arith) x (ground arith)
          | inr new ↦
              search_complete fuel (extend stack (successors deps current)) (current ∷ visited)
                (omega (
                  arith,
                  unvisited-cons current visited deps new,
                  length-extend stack (successors deps current),
                ))
                (Inv-expand current stack visited more inv) (ground arith) x
                (ground (arith, contains-extend stack (successors deps current) x))
        ]
      ]

Inv-start : (deps : List TaskDependency) (p s : ℕ) → Inv deps p (s ∷ []) []
Inv-start deps p s = record { outside = refl; closed = λ u w m edge. cc }

-- The loop finds a cycle exactly when a walk of existing dependencies leads from the successor to
-- the predecessor, on every table: the rounds that it is given are enough.
pub creates_cycle_iff :
    (deps : List TaskDependency) (p s : ℕ) → (creates_cycle deps p s ≡ true) ↔ Walk deps p s
unfolding creates_cycle
creates_cycle_iff deps p s = (
  λ h. start_of (search_sound deps p (length deps + 2) (s ∷ []) [] h),
  λ walk. elim (Bool-cases (creates_cycle deps p s)) [
    | inl found ↦ found
    | inr missed ↦ absurd (
        search_complete deps p (length deps + 2) (s ∷ []) [] (omega (arith, unvisited_le [] deps))
          (Inv-start deps p s) missed s (ground arith) walk)
  ],
)
  where
    start_of : (x : ℕ) × (contains (s ∷ []) x ≡ true) × Walk deps p x → Walk deps p s
    start_of (x, m, walk) = subst (Walk deps p) (ground arith) walk
