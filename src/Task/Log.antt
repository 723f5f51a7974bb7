-- ===== src/Task/Log.antt =====
-- The change log of an update: `_task_snapshot` and `_record_task_update_logs` of
-- app/services/task.py, and the two functions of app/services/change_log_formatter.py.
use sync_nesto_backend.Base.{
  ℕ, String, Bool, true, false, not, ◌&&◌, Option, none, some, List, [], ◌∷◌, map, find?,
  if◌then◌else◌, ◌==◌, opt_eq, str_eq,
}
use sync_nesto_backend.Base.Text.{Text, text_eq}
use sync_nesto_backend.Base.Int.{ℤ, pos, negsuc}
use sync_nesto_backend.Database.{
  Snapshot, Value, absent, whole, word, day, integer, chars, texts, phase_value, field, fields,
}
use sync_nesto_backend.Task.Model.{Task, TaskChangeLog}
use sync_nesto_backend.Task.Tables.{ProjectPhase}
use sync_nesto_backend.Task.Input.{TaskUpdate, is_sent}

abbrev int_eq : ℤ → ℤ → Bool
int_eq (pos m) (pos n) = m == n
int_eq (pos m) (negsuc n) = false
int_eq (negsuc m) (pos n) = false
int_eq (negsuc m) (negsuc n) = m == n

abbrev strings_eq : List String → List String → Bool
strings_eq [] [] = true
strings_eq [] (t ∷ ts) = false
strings_eq (s ∷ ss) [] = false
strings_eq (s ∷ ss) (t ∷ ts) = str_eq s t && strings_eq ss ts

abbrev name_eq : Option Text → Option Text → Bool
name_eq none none = true
name_eq none (some b) = false
name_eq (some a) none = false
name_eq (some a) (some b) = text_eq a b

-- Equality of two values of the same field.
abbrev pub value_eq : Value → Value → Bool
value_eq absent absent = true
value_eq (whole a) (whole b) = a == b
value_eq (word a) (word b) = str_eq a b
value_eq (day a) (day b) = a == b
value_eq (integer a) (integer b) = int_eq a b
value_eq (chars a) (chars b) = text_eq a b
value_eq (texts a) (texts b) = strings_eq a b
value_eq (phase_value k i n) (phase_value k' i' n') = str_eq k k' && opt_eq i i' && name_eq n n'
value_eq _ _ = false

abbrev pub or_absent : {A : Type 0} → (A → Value) → Option A → Value
or_absent f none = absent
or_absent f (some a) = f a

-- `phase.name if phase is not None else None`
abbrev phase_name : List ProjectPhase → Option ℕ → Option Text
phase_name phases none = none
phase_name phases (some id) =
    let phase = find? (λ p. p.id == id) phases in elim phase [ none ↦ none | some p ↦ some p.name ]

-- A field of a task in a request or a snapshot, in the alphabetic order of the names.
abbrev pub task_snapshot : List ProjectPhase → Task → List (String × Value)
task_snapshot phases task =
    ("actual_basis", word task.actual_basis)
    ∷ ("actual_end_date", or_absent day task.actual_end_date)
    ∷ ("actual_minutes", or_absent whole task.actual_minutes)
    ∷ ("actual_start_date", or_absent day task.actual_start_date)
    ∷ ("assignee_id", or_absent whole task.assignee_id)
    ∷ ("description", or_absent word task.description)
    ∷ ("due_date", or_absent day task.due_date)
    ∷ ("estimated_basis", word task.estimated_basis)
    ∷ ("estimated_minutes", or_absent whole task.estimated_minutes)
    ∷ ("parent_task_id", or_absent whole task.parent_task_id)
    ∷ (
      "phase_assignment",
      phase_value task.phase_scope task.phase_id (phase_name phases task.phase_id),
    )
    ∷ ("priority", word task.priority)
    ∷ ("progress_percent", whole task.progress_percent)
    ∷ ("reporter_id", or_absent whole task.reporter_id)
    ∷ ("sort_order", integer task.sort_order)
    ∷ ("start_date", or_absent day task.start_date)
    ∷ ("status", word task.status)
    ∷ ("tags", or_absent texts task.tags)
    ∷ ("task_code", chars task.task_code)
    ∷ ("task_type", word task.task_type)
    ∷ ("title", word task.title)
    ∷ []

-- `(model_fields_set - {"version", "change_reason"}) & TASK_UPDATABLE_FIELDS`: whether each field of
-- the snapshot, in its order, is sent.
abbrev pub candidate_fields : TaskUpdate → List Bool
candidate_fields u =
    is_sent u.actual_basis
    ∷ is_sent u.actual_end_date
    ∷ is_sent u.actual_minutes
    ∷ is_sent u.actual_start_date
    ∷ is_sent u.assignee_id
    ∷ is_sent u.description
    ∷ is_sent u.due_date
    ∷ is_sent u.estimated_basis
    ∷ is_sent u.estimated_minutes
    ∷ is_sent u.parent_task_id
    ∷ is_sent u.phase_assignment
    ∷ is_sent u.priority
    ∷ is_sent u.progress_percent
    ∷ is_sent u.reporter_id
    ∷ is_sent u.sort_order
    ∷ is_sent u.start_date
    ∷ is_sent u.status
    ∷ is_sent u.tags
    ∷ is_sent u.task_code
    ∷ is_sent u.task_type
    ∷ is_sent u.title
    ∷ []

-- A changed field with its values before and after.
pub record Change : Type 0 where
  pub name : String
  pub before : Value
  pub after : Value

-- `build_changed_field_snapshots`, on two snapshots with the same fields
abbrev pub changed_fields : List Bool → List (String × Value) → List (String × Value) → List Change
changed_fields (c ∷ cs) ((name, before) ∷ befores) ((name', after) ∷ afters) =
    let rest = changed_fields cs befores afters in
    if c && not (value_eq before after)
    then record { name = name; before = before; after = after } ∷ rest
    else rest
changed_fields _ _ _ = []

-- `field_action_map` of `_record_task_update_logs`
abbrev pub field_action : String → Option String
field_action name =
    if str_eq name "status"
    then some "status.changed"
    else if str_eq name "assignee_id"
    then some "assignee.changed"
    else if str_eq name "start_date"
    then some "schedule.changed"
    else if str_eq name "due_date"
    then some "schedule.changed"
    else if str_eq name "actual_start_date"
    then some "schedule.changed"
    else if str_eq name "actual_end_date"
    then some "schedule.changed"
    else if str_eq name "progress_percent"
    then some "progress.changed"
    else none

pub record UpdateEntry : Type 0 where
  pub action : String
  pub field_name : Option String
  pub old_value : Snapshot
  pub new_value : Snapshot

-- The entry for one field with an action of its own.
abbrev pub single_entry : String → Change → UpdateEntry
single_entry action change = record {
  action = action;
  field_name = some change.name;
  old_value = (change.name, field change.before) ∷ [];
  new_value = (change.name, field change.after) ∷ [];
}

abbrev pub general_entry : List Change → UpdateEntry
general_entry changes = record {
  action = "updated";
  field_name = none;
  old_value = ("snapshot", fields (map (λ c. (c.name, c.before)) changes)) ∷ [];
  new_value =
      ("updated_fields", field (texts (map (λ c. c.name) changes)))
      ∷ ("snapshot", fields (map (λ c. (c.name, c.after)) changes))
      ∷ [];
}

-- `build_update_change_log_entry`, on one field or more
abbrev pub update_entry : List Change → UpdateEntry
update_entry (change ∷ []) =
    let action = field_action change.name in
    elim action [ none ↦ general_entry (change ∷ []) | some a ↦ single_entry a change ]
update_entry changes = general_entry changes

-- The row that `_record_task_update_logs` writes.
abbrev pub update_log : Task → List Change → Option Text → Option ℕ → TaskChangeLog
update_log task changes reason actor_id =
    let entry = update_entry changes in
    record {
      project_id = task.project_id;
      target_type = "task";
      target_id = task.id;
      action = entry.action;
      field_name = entry.field_name;
      old_value = some entry.old_value;
      new_value = some entry.new_value;
      reason = reason;
      changed_by = actor_id;
    }
