-- ===== src/Task/Code.antt =====
-- Task codes: `_normalize_task_code` and `_generate_task_code` of app/services/task.py, and
-- `get_max_auto_task_number` of app/repositories/task_item.py.
use sync_nesto_backend.Base.{
  ℕ, ◌≤◌, ◌<◌, ◌≡◌, ◌≢◌, refl, sym, ap, ◌∙◌, inl, inr, true, false, ◌&&◌, Option, none, some, List,
  [], ◌∷◌, ◌++◌, ◌==◌, ltb, leb, if◌then◌else◌, arith, any, Bool-cases, Option-cases,
}
use sync_nesto_backend.Base.Text.{Text, text_eq, text_eq_iff, strip, codes}
use sync_nesto_backend.Base.Decimal.{padded, read_digits, read_digits-padded}
use sync_nesto_backend.Task.Model.{Task}

-- `stripped or None`
abbrev pub or_none : Text → Option Text
or_none [] = none
or_none (c ∷ cs) = some (c ∷ cs)

abbrev pub normalize_task_code : Option Text → Option Text
normalize_task_code none = none
normalize_task_code (some code) = or_none (strip code)

-- The text after a prefix.
abbrev pub after_prefix : Text → Text → Option Text
after_prefix [] text = some text
after_prefix (p ∷ ps) [] = none
after_prefix (p ∷ ps) (c ∷ cs) = if p == c then after_prefix ps cs else none

-- The number that the digits of a code of the form ^TASK-[0-9]+$ stand for, before it is cast
abbrev pub auto_number : Text → Option ℕ
auto_number code = elim (after_prefix (codes "TASK-") code) [
  | none ↦ none
  | some rest ↦ read_digits rest
]

-- `CAST(... AS INTEGER)`; `none` is a number that is out of the range of a 32-bit integer, which is
-- an error of the query.
abbrev pub cast_integer : ℕ → Option ℕ
cast_integer n = if leb 2147483648 n then none else some n

-- `MAX(...)` of two casts
abbrev pub max_of : Option ℕ → Option ℕ → Option ℕ
max_of none rest = none
max_of (some n) none = none
max_of (some n) (some m) = some (if ltb m n then n else m)

abbrev pub number_with : Option ℕ → Option ℕ → Option ℕ
number_with none rest = rest
number_with (some n) rest = max_of (cast_integer n) rest

unfoldable pub max_auto_task_number : ℕ → List Task → Option ℕ
max_auto_task_number project_id [] = some 0
max_auto_task_number project_id (task ∷ tasks) =
    let rest = max_auto_task_number project_id tasks in
    if task.project_id == project_id then number_with (auto_number task.task_code) rest else rest

-- f"TASK-{n:03d}"
abbrev pub auto_code : ℕ → Text
auto_code n = codes "TASK-" ++ padded 3 n

-- The digits of a generated code stand for its number.
pub auto_number-auto_code : (n : ℕ) → auto_number (auto_code n) ≡ some n
auto_number-auto_code n = read_digits-padded 3 n

-- A code with another number, or with none, is not the code of `n`.
other-auto_code :
    (code : Text) (n : ℕ) → auto_number code ≢ some n → text_eq code (auto_code n) ≡ false
other-auto_code code n ne = elim (Bool-cases (text_eq code (auto_code n))) [
  | inl same ↦
      absurd
        (ne (ap auto_number ((text_eq_iff code (auto_code n)).0 same) ∙ auto_number-auto_code n))
  | inr other ↦ other
]

max_of-some :
    (k m : ℕ) (rest : Option ℕ)
    → max_of (cast_integer k) rest ≡ some m
    → (m' : ℕ) × (rest ≡ some m') × (m' ≤ m) × (k ≤ m) × (k < 2147483648)
max_of-some k m none h = ground arith
max_of-some k m (some m') h = (m', refl, ground arith, ground arith, ground arith)

-- Every numbered code of the project has a number that is at most the maximum and in range.
pub auto_number_bound :
    (project_id : ℕ) (tasks : List Task) (m n : ℕ)
    → max_auto_task_number project_id tasks ≡ some m
    → m < n
    → any (λ r. r.project_id == project_id && text_eq r.task_code (auto_code n)) tasks ≡ false
unfolding max_auto_task_number
auto_number_bound project_id [] m n h lt = refl
auto_number_bound project_id (task ∷ tasks) m n h lt =
    elim (Bool-cases (task.project_id == project_id)) [
      | inr other ↦ ground (arith, auto_number_bound project_id tasks m n)
      | inl mine ↦ elim (Option-cases (auto_number task.task_code)) [
        | inl no_number ↦
            let differs = other-auto_code task.task_code n (λ e. cc (sym no_number ∙ e)) in
            let rest =
              auto_number_bound project_id tasks m n (max_unnumbered mine no_number h) lt in
            joined differs rest
        | inr (k, number) ↦
            let (m', e, le, lek, range) = max_of-some k m _ (max_numbered k mine number h) in
            let differs =
              other-auto_code task.task_code n (λ e'. different k lek (sym number ∙ e')) in
            let rest = auto_number_bound project_id tasks m' n e (omega arith) in
            joined differs rest
      ]
    ]
  where
    max_unnumbered :
        (task.project_id == project_id) ≡ true
        → auto_number task.task_code ≡ none
        → max_auto_task_number project_id (task ∷ tasks) ≡ some m
        → max_auto_task_number project_id tasks ≡ some m
    max_unnumbered mine no_number h = ground (arith, mine, no_number, h)

    max_numbered :
        (k : ℕ)
        → (task.project_id == project_id) ≡ true
        → auto_number task.task_code ≡ some k
        → max_auto_task_number project_id (task ∷ tasks) ≡ some m
        → max_of (cast_integer k) (max_auto_task_number project_id tasks) ≡ some m
    max_numbered k mine number h = ground (arith, mine, number, h)

    different : (k : ℕ) → k ≤ m → some k ≡ some n → ⊥
    different k le e = ground arith

    joined :
        text_eq task.task_code (auto_code n) ≡ false
        → any (λ r. r.project_id == project_id && text_eq r.task_code (auto_code n)) tasks ≡ false
        → any (λ r. r.project_id == project_id && text_eq r.task_code (auto_code n)) (task ∷ tasks)
          ≡ false
    joined differs rest = ground (arith, differs, rest)

-- A larger number at the end is the new maximum, if it is in range.
pub max_auto_append :
    (project_id : ℕ) (tasks : List Task) (row : Task) (m k : ℕ)
    → max_auto_task_number project_id tasks ≡ some m
    → m < k
    → row.project_id ≡ project_id
    → auto_number row.task_code ≡ some k
    → max_auto_task_number project_id (tasks ++ row ∷ []) ≡ cast_integer k
unfolding max_auto_task_number
max_auto_append project_id [] row m k h lt mine number = ground (arith, mine, number)
max_auto_append project_id (task ∷ tasks) row m k h lt mine number =
    elim (Bool-cases (task.project_id == project_id)) [
      | inr other ↦ ground (arith, max_auto_append project_id tasks row m k)
      | inl same ↦ elim (Option-cases (auto_number task.task_code)) [
        | inl no_number ↦
            let kept : max_auto_task_number project_id tasks ≡ some m =
              ground (arith, same, no_number, h) in
            let rest = max_auto_append project_id tasks row m k kept lt mine number in
            ground (arith, same, no_number, rest)
        | inr (j, numbered) ↦
            let joined : max_of (cast_integer j) (max_auto_task_number project_id tasks) ≡ some m =
              ground (arith, same, numbered, h) in
            let (m', e, le, lej, range) =
              max_of-some j m (max_auto_task_number project_id tasks) joined in
            let rest = max_auto_append project_id tasks row m' k e (omega arith) mine number in
            ground (arith, same, numbered, rest)
      ]
    ]
