-- ===== src/Requirement/Approval.antt =====
-- Approvals of requirement documents and their parts: app/services/requirement_approval.py over
-- app/repositories/requirement_approval.py. Times are microseconds.
pub mod Once
pub mod Outcome
use sync_nesto_backend.Base.{
  ℕ, suc, String, Bool, true, false, not, ◌&&◌, Option, none, some, List, [], ◌∷◌, ◌++◌, str_eq,
  if◌then◌else◌, ◌==◌, is_none, find?, any, contains,
}
use sync_nesto_backend.Errors.{
  ApiError, bad_request, not_found, approval_migrated, integrity_error, approval_not_found,
  approval_target_not_found, approval_already_decided,
}
use sync_nesto_backend.Database.{
  Action, pure, raise, gets, or_raise, raise_if, modify, commit, rollback, ◌>>=◌, ◌>>◌, Snapshot,
  null, number, text, time, Cell,
}
use sync_nesto_backend.Requirement.Model.{
  RequirementDocument, Part, RequirementApproval, RequirementChangeLog, Switch, ApprovalTables,
  RequirementApprovalRequestCreate, get_document, get_part, get_approval,
}

abbrev pub part_document : ApprovalTables → Option Part → Option RequirementDocument
part_document t none = none
part_document t (some part) = get_document t part.document_id

-- The document of the target, before its project is compared; `none` for another kind of target.
abbrev pub target_document : ApprovalTables → String → ℕ → Option RequirementDocument
target_document t target_type target_id =
    if str_eq target_type "document"
    then get_document t target_id
    else if str_eq target_type "section"
    then part_document t (get_part t.sections target_id)
    else if str_eq target_type "requirement_item"
    then part_document t (get_part t.requirements target_id)
    else if str_eq target_type "open_issue"
    then part_document t (get_part t.open_issues target_id)
    else none

-- `if document is None or document.project_id != project_id: raise e`
abbrev pub in_project :
    Option RequirementDocument → ℕ → ApiError → Action ApprovalTables RequirementDocument
in_project none project_id e = raise e
in_project (some document) project_id e =
    if document.project_id == project_id then pure document else raise e

-- `_get_target_document`
abbrev pub get_target_document : ℕ → String → ℕ → Action ApprovalTables RequirementDocument
get_target_document project_id target_type target_id = do
  document ← gets (λ t. target_document t target_type target_id)
  in_project document project_id (not_found approval_target_not_found)

-- `_get_approval_in_project`
abbrev pub get_approval_in_project : ℕ → ℕ → Action ApprovalTables RequirementApproval
get_approval_in_project project_id approval_id = do
  found ← gets (λ t. get_approval t approval_id)
  approval ← or_raise found (not_found approval_not_found)
  document ← gets (λ t. get_document t approval.document_id)
  in_project document project_id (not_found approval_not_found)
  pure approval

abbrev optional_time : Option ℕ → Cell
optional_time none = null
optional_time (some at) = time at

abbrev optional_text : Option String → Cell
optional_text none = null
optional_text (some s) = text s

-- `_build_approval_snapshot`
abbrev pub approval_snapshot : RequirementApproval → Snapshot
approval_snapshot a =
    ("id", number a.id)
    ∷ ("document_id", number a.document_id)
    ∷ ("target_type", text a.target_type)
    ∷ ("target_id", number a.target_id)
    ∷ ("status", text a.status)
    ∷ ("approver_id", number a.approver_id)
    ∷ ("requested_by", number a.requested_by)
    ∷ ("approved_at", optional_time a.approved_at)
    ∷ ("rejected_at", optional_time a.rejected_at)
    ∷ ("comment", optional_text a.comment)
    ∷ []

abbrev pub approval_change :
    RequirementApproval → String → Option Snapshot → Option Snapshot → ℕ → RequirementChangeLog
approval_change a action old_value new_value changed_by = record {
  document_id = a.document_id;
  target_type = a.target_type;
  target_id = a.target_id;
  action = action;
  old_value = old_value;
  new_value = new_value;
  changed_by = changed_by;
}

-- `_record_change_log`, which commits
abbrev pub record_change_log :
    RequirementApproval
    → String
    → Option Snapshot
    → Option Snapshot
    → ℕ
    → Action ApprovalTables Unit
record_change_log a action old_value new_value changed_by = do
  let entry = approval_change a action old_value new_value changed_by
  modify (λ t. record t { change_logs = t.change_logs ++ entry ∷ [] })
  commit

-- The row that `RequirementApprovalRepository.create` adds, under the id that the database gives.
abbrev pub new_approval : ℕ → ℕ → RequirementApprovalRequestCreate → ℕ → RequirementApproval
new_approval id document_id approval_in requested_by = record {
  id = id;
  document_id = document_id;
  target_type = approval_in.target_type;
  target_id = approval_in.target_id;
  status = "requested";
  approver_id = approval_in.approver_id;
  requested_by = requested_by;
  approved_at = none;
  rejected_at = none;
  comment = approval_in.comment;
}

-- `RequirementApprovalRepository.create`; the foreign keys refer to users.
abbrev pub create_approval :
    ℕ → RequirementApprovalRequestCreate → ℕ → Action ApprovalTables RequirementApproval
create_approval document_id approval_in requested_by = do
  users ← gets (λ t. t.users)
  raise_if (not (contains users approval_in.approver_id && contains users requested_by))
      integrity_error
  approval ← gets (λ t. new_approval t.next_id document_id approval_in requested_by)
  modify (λ t. record t { approvals = t.approvals ++ approval ∷ []; next_id = suc t.next_id })
  commit
  pure approval

-- `request_approval`
unfoldable pub request_approval :
    ℕ → RequirementApprovalRequestCreate → ℕ → Action ApprovalTables RequirementApproval
request_approval project_id approval_in requested_by = do
  document ← get_target_document project_id approval_in.target_type approval_in.target_id
  approval ← create_approval document.id approval_in requested_by
  record_change_log approval "approval.requested" none (some (approval_snapshot approval))
      requested_by
  pure approval

-- The test of the trigger `guard_legacy_approval_migrated`, which fires before an update.
abbrev pub is_migrated : ApprovalTables → RequirementApproval → Bool
is_migrated t a =
    any
      (λ i.
        i.legacy_approval_id == a.id
        && any (λ d. d.id == a.document_id && d.project_id == i.project_id) t.documents)
      t.switches

-- The rows after the row with the id of `row` has been replaced by it.
abbrev pub put : RequirementApproval → List RequirementApproval → List RequirementApproval
put row [] = []
put row (a ∷ rows) = (if a.id == row.id then row else a) ∷ put row rows

-- `if comment is not None: approval.comment = comment`
abbrev pub new_comment : Option String → Option String → Option String
new_comment none old = old
new_comment (some s) old = some s

abbrev pub approved_row : RequirementApproval → Option String → ℕ → RequirementApproval
approved_row a comment now = record a {
  status = "approved";
  approved_at = some now;
  rejected_at = none;
  comment = new_comment comment a.comment;
}

abbrev pub rejected_row : RequirementApproval → Option String → ℕ → RequirementApproval
rejected_row a comment now = record a {
  status = "rejected";
  rejected_at = some now;
  approved_at = none;
  comment = new_comment comment a.comment;
}

-- The flush of a changed row and `RequirementApprovalRepository._commit`
abbrev pub update : RequirementApproval → Action ApprovalTables RequirementApproval
update row = do
  migrated ← gets (λ t. is_migrated t row)
  if migrated
      then (rollback >> raise approval_migrated)
      else do modify (λ t. record t { approvals = put row t.approvals }); commit; pure row

-- `mark_approved`
abbrev pub mark_approved :
    RequirementApproval → Option String → ℕ → Action ApprovalTables RequirementApproval
mark_approved a comment now = update (approved_row a comment now)

-- `mark_rejected`
abbrev pub mark_rejected :
    RequirementApproval → Option String → ℕ → Action ApprovalTables RequirementApproval
mark_rejected a comment now = update (rejected_row a comment now)

-- `_raise_if_decided`
abbrev pub raise_if_decided : RequirementApproval → Action ApprovalTables Unit
raise_if_decided a =
    raise_if (not (str_eq a.status "requested")) (bad_request approval_already_decided)

-- `approve`; `now` is the clock of `mark_approved`.
unfoldable pub approve : ℕ → ℕ → Option String → ℕ → ℕ → Action ApprovalTables RequirementApproval
approve project_id approval_id comment actor_id now = do
  approval ← get_approval_in_project project_id approval_id
  raise_if_decided approval
  updated ← mark_approved approval comment now
  record_change_log updated "approval.approved" (some (approval_snapshot approval))
      (some (approval_snapshot updated)) actor_id
  pure updated

-- `reject`; `now` is the clock of `mark_rejected`.
unfoldable pub reject : ℕ → ℕ → Option String → ℕ → ℕ → Action ApprovalTables RequirementApproval
reject project_id approval_id comment actor_id now = do
  approval ← get_approval_in_project project_id approval_id
  raise_if_decided approval
  updated ← mark_rejected approval comment now
  record_change_log updated "approval.rejected" (some (approval_snapshot approval))
      (some (approval_snapshot updated)) actor_id
  pure updated
