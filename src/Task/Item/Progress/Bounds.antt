-- ===== src/Task/Item/Progress/Bounds.antt =====
-- The progress of a requirement is the mean of its tasks, rounded to the nearest number.
use sync_nesto_backend.Base.{
  ℕ, suc, ◌+◌, ◌*◌, ◌/◌, ◌%◌, ◌≤◌, ◌<◌, ◌≡◌, refl, inl, inr, Bool, true, false, ◌&&◌, ◌||◌, List,
  [], ◌∷◌, arith, All, Bool-cases, length, ltb, ◌==◌, str_eq, if◌then◌else◌,
}
use native.Mathlib.Omega.{div_any}
use native.Mathlib.Nat.{mod-lt, mul-le-mul_right}
use sync_nesto_backend.Task.Model.{Task}
use sync_nesto_backend.Task.Item.Progress.{round_div, total_progress, all_statuses, progress_of}

-- At most a half is lost when the remainder decides.
nearest :
    (c : Bool) (q r count : ℕ)
    → r < count
    → (c ≡ true → 2 * r ≤ count)
    → (c ≡ false → count ≤ 2 * r)
    → let p = if c then q else q + 1 in
      (2 * (p * count) ≤ 2 * (q * count + r) + count)
      × (2 * (q * count + r) ≤ 2 * (p * count) + count)
nearest true q r count lt low high = (omega (arith, low refl), omega (arith, low refl))
nearest false q r count lt low high = (omega (arith, high refl), omega (arith, high refl))

-- The rounded quotient is within a half of the true one.
pub round_div-nearest :
    (total count : ℕ)
    → 0 < count
    → (2 * (round_div total count * count) ≤ 2 * total + count)
      × (2 * total ≤ 2 * (round_div total count * count) + count)
unfolding round_div
round_div-nearest total count positive =
    let q = total / count in
    let r = total % count in
    let c = ltb (2 * r) count || 2 * r == count && q % 2 == 0 in
    let (a, b) =
      nearest c q r count (mod-lt total positive) (λ h. ground arith) (λ h. ground arith) in
    (omega (arith, a, div_any total count), omega (arith, b, div_any total count))

-- A mean of numbers between two bounds is rounded to a number between them.
pub round_div-between :
    (total count low high : ℕ)
    → 0 < count
    → low * count ≤ total
    → total ≤ high * count
    → (low ≤ round_div total count) × (round_div total count ≤ high)
round_div-between total count low high positive from to =
    let p = round_div total count in
    let (a, b) = round_div-nearest total count positive in
    (
      elim (Bool-cases (ltb p low)) [
        | inl less ↦
            absurd (omega (arith, b, mul-le-mul_right {m = suc p} {n = low} count (ground arith)))
        | inr fine ↦ ground arith
      ],
      elim (Bool-cases (ltb high p)) [
        | inl more ↦
            absurd (omega (arith, a, mul-le-mul_right {m = suc high} {n = p} count (ground arith)))
        | inr fine ↦ ground arith
      ],
    )

total_progress_le :
    (tasks : List Task)
    → All (λ task. task.progress_percent ≤ 100) tasks
    → total_progress tasks ≤ 100 * length tasks
unfolding total_progress
total_progress_le [] all = omega arith
total_progress_le (task ∷ tasks) (le, all) = omega (arith, total_progress_le tasks all)

-- The progress of a requirement with tasks whose progress is a percentage is the mean of theirs,
-- rounded to the nearest number, and it is a percentage.
pub progress_of-nearest :
    (requirement_id : ℕ) (task : Task) (tasks : List Task)
    → All (λ r. r.progress_percent ≤ 100) (task ∷ tasks)
    → let progress = (progress_of requirement_id (task ∷ tasks)).progress_percent in
      let total = total_progress (task ∷ tasks) in
      let count = length (task ∷ tasks) in
      (2 * (progress * count) ≤ 2 * total + count)
      × (2 * total ≤ 2 * (progress * count) + count)
      × (progress ≤ 100)
unfolding progress_of
progress_of-nearest id task tasks all =
    let total = total_progress (task ∷ tasks) in
    let count = length (task ∷ tasks) in
    let (a, b) = round_div-nearest total count (omega arith) in
    let (low, high) =
      round_div-between total count 0 100 (omega arith) (omega arith)
        (total_progress_le (task ∷ tasks) all) in
    (a, b, high)

-- A done task is complete.
abbrev pub IsComplete : Task → Type 0
IsComplete task = str_eq task.status "done" ≡ true → task.progress_percent ≡ 100

total_progress-done :
    (tasks : List Task)
    → All IsComplete tasks
    → all_statuses (λ s. str_eq s "done") tasks ≡ true
    → total_progress tasks ≡ 100 * length tasks
unfolding total_progress
total_progress-done [] all done = omega arith
total_progress-done (task ∷ tasks) (h, all) done =
    omega (arith, total_progress-done tasks all (ground arith), h (ground arith))

-- Tasks that are all done and complete have the progress 100 together.
pub progress_of-done :
    (requirement_id : ℕ) (task : Task) (tasks : List Task)
    → All IsComplete (task ∷ tasks)
    → all_statuses (λ s. str_eq s "done") (task ∷ tasks) ≡ true
    → (progress_of requirement_id (task ∷ tasks)).progress_percent ≡ 100
unfolding progress_of
progress_of-done id task tasks all done =
    let total = total_progress (task ∷ tasks) in
    let count = length (task ∷ tasks) in
    let e = total_progress-done (task ∷ tasks) all done in
    let (a, b) = round_div-between total count 100 100 (omega arith) (omega arith) (omega arith) in
    omega (arith, a, b)
