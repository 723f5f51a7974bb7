-- ===== src/Tests/Approvals.antt =====
-- The approvals of app/services/requirement_approval.py on a project with one document.
use sync_nesto_backend.Base.{◌≡◌, refl, inl, none, some, List, [], ◌∷◌, All}
use sync_nesto_backend.Errors.{ok, err, bad_request, approval_migrated, approval_already_decided}
use sync_nesto_backend.Database.{request}
use sync_nesto_backend.Requirement.Model.{RequirementApproval, ApprovalTables, get_approval}
use sync_nesto_backend.Requirement.Approval.{approved_row, approve, reject}
use sync_nesto_backend.Requirement.Approval.Outcome.{
  approves, rejects, decide, decided_row, decided_tables, IsOpen, decide_open, decide_atomic,
  decide-IsOpen,
}
use sync_nesto_backend.Requirement.Approval.Once.{
  ApprovalEvent, requests, decides, happen_all, decided-happen_all, IsDated, IsDated-happen_all,
}

abbrev approval : RequirementApproval
approval = record {
  id = 1;
  document_id = 5;
  target_type = "document";
  target_id = 5;
  status = "requested";
  approver_id = 8;
  requested_by = 9;
  approved_at = none;
  rejected_at = none;
  comment = none;
}

abbrev tables : ApprovalTables
tables = record {
  users = 8 ∷ 9 ∷ [];
  documents = record { id = 5; project_id = 7; deleted_at = none } ∷ [];
  sections = [];
  requirements = [];
  open_issues = [];
  switches = [];
  approvals = approval ∷ [];
  change_logs = [];
  next_id = 2;
}

-- The approval has been moved to the fixed approvals.
abbrev moved : ApprovalTables
moved = record tables { switches = record { project_id = 7; legacy_approval_id = 1 } ∷ [] }

approval-IsOpen : IsOpen tables 7 approval
approval-IsOpen = record {
  document = record { id = 5; project_id = 7; deleted_at = none };
  in_document = refl;
  same_project = refl;
  requested = refl;
  not_migrated = refl;
}

decide_open_example : request (decide approves 7 1 (some "fine") 8 60) tables ≡ (
  ok (decided_row approves approval (some "fine") 60),
  decided_tables approves approval (some "fine") 8 60 tables,
)
decide_open_example =
    decide_open 7 1 (some "fine") 8 60 tables approves approval refl approval-IsOpen

approves-tables :
    (request (decide approves 7 1 none 8 60) tables).0 ≡ ok (approved_row approval none 60)
unfolding approve
approves-tables = refl

decide-IsOpen_example :
    (a : RequirementApproval) × (get_approval tables 1 ≡ some a) × IsOpen tables 7 a
decide-IsOpen_example =
    decide-IsOpen 7 1 none 8 60 tables approves (approved_row approval none 60) approves-tables

moved-rejects : request (decide rejects 7 1 none 8 60) moved ≡ (err approval_migrated, moved)
unfolding reject
moved-rejects = refl

decide_atomic_example : moved ≡ moved
decide_atomic_example =
    decide_atomic 7 1 none 8 60 moved rejects approval_migrated moved moved-rejects

abbrev decided : ApprovalTables
decided = record tables { approvals = approved_row approval none 60 ∷ [] }

abbrev events : List ApprovalEvent
events =
    decides rejects 7 1 (some "no") 8 70
    ∷ requests 7
        (record { target_type = "document"; target_id = 5; approver_id = 8; comment = none }) 9
    ∷ []

second_decision :
    (request (decide rejects 7 1 (some "no") 8 70) decided).0
    ≡ err (bad_request approval_already_decided)
unfolding reject
second_decision = refl

decided-happen_all_example :
    get_approval (happen_all events decided) 1 ≡ some (approved_row approval none 60)
decided-happen_all_example =
    decided-happen_all events decided 1 (approved_row approval none 60) refl refl

tables-IsDated : All IsDated tables.approvals
tables-IsDated = (inl (refl, refl, refl), tt)

IsDated-happen_all_example : All IsDated (happen_all events tables).approvals
IsDated-happen_all_example = IsDated-happen_all events tables tables-IsDated
