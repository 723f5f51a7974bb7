-- ===== src/Requirement/Model.antt =====
-- The tables of app/models/requirement.py that approvals read and write, and the lookups of
-- app/repositories by id.
use sync_nesto_backend.Base.{ℕ, String, Option, List, ◌&&◌, ◌==◌, is_none, find?}
use sync_nesto_backend.Database.{Snapshot}

pub record RequirementDocument : Type 0 where
  pub id : ℕ
  pub project_id : ℕ
  pub deleted_at : Option ℕ

-- A section, a requirement or an open issue, with the columns that approvals read.
pub record Part : Type 0 where
  pub id : ℕ
  pub document_id : ℕ
  pub deleted_at : Option ℕ

pub record RequirementApproval : Type 0 where
  pub id : ℕ
  pub document_id : ℕ
  pub target_type : String
  pub target_id : ℕ
  pub status : String
  pub approver_id : ℕ
  pub requested_by : ℕ
  pub approved_at : Option ℕ
  pub rejected_at : Option ℕ
  pub comment : Option String

pub record RequirementChangeLog : Type 0 where
  pub document_id : ℕ
  pub target_type : String
  pub target_id : ℕ
  pub action : String
  pub old_value : Option Snapshot
  pub new_value : Option Snapshot
  pub changed_by : ℕ

-- A row of `legacy_approval_imports` whose mode is `switch`.
pub record Switch : Type 0 where
  pub project_id : ℕ
  pub legacy_approval_id : ℕ

-- The tables that the approvals read and write; `users` are the ids of the users.
pub record ApprovalTables : Type 0 where
  pub users : List ℕ
  pub documents : List RequirementDocument
  pub sections : List Part
  pub requirements : List Part
  pub open_issues : List Part
  pub switches : List Switch
  pub approvals : List RequirementApproval
  pub change_logs : List RequirementChangeLog
  pub next_id : ℕ

pub record RequirementApprovalRequestCreate : Type 0 where
  pub target_type : String
  pub target_id : ℕ
  pub approver_id : ℕ
  pub comment : Option String

-- `RequirementDocumentRepository.get_by_id`
abbrev pub get_document : ApprovalTables → ℕ → Option RequirementDocument
get_document t document_id = find? (λ d. d.id == document_id && is_none d.deleted_at) t.documents

-- `get_by_id` of the repositories of sections, requirements and open issues
abbrev pub get_part : List Part → ℕ → Option Part
get_part parts id = find? (λ p. p.id == id && is_none p.deleted_at) parts

-- `RequirementApprovalRepository.get_by_id`
abbrev pub get_approval : ApprovalTables → ℕ → Option RequirementApproval
get_approval t approval_id = find? (λ a. a.id == approval_id) t.approvals
