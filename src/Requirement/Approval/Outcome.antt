-- ===== src/Requirement/Approval/Outcome.antt =====
-- How a decision on an approval ends.
use sync_nesto_backend.Base.{
  ℕ, String, ◌≡◌, inl, inr, true, false, Option, some, arith, ◌++◌, [], ◌∷◌, str_eq, Option-cases,
}
use sync_nesto_backend.Errors.{ApiError, ok, err}
use sync_nesto_backend.Database.{Action, request}
use sync_nesto_backend.Requirement.Model.{
  RequirementDocument, RequirementApproval, ApprovalTables, get_document, get_approval,
}
use sync_nesto_backend.Requirement.Approval.{
  is_migrated, put, approved_row, rejected_row, approve, reject, approval_change, approval_snapshot,
}

-- The approval exists, its document is a live document of the project, nobody has decided it, and it
-- has not been moved to the fixed approvals.
pub record IsOpen (t : ApprovalTables) (project_id : ℕ) (a : RequirementApproval) : Type 0 where
  pub document : RequirementDocument
  pub in_document : get_document t a.document_id ≡ some document
  pub same_project : document.project_id ≡ project_id
  pub requested : str_eq a.status "requested" ≡ true
  pub not_migrated : is_migrated t a ≡ false

pub data Decision : Type 0 where
  approves rejects : Decision

-- The handler, the row that it writes and the action of the history entry of a decision.
abbrev pub decide :
    Decision → ℕ → ℕ → Option String → ℕ → ℕ → Action ApprovalTables RequirementApproval
decide approves = approve
decide rejects = reject

abbrev pub decided_row : Decision → RequirementApproval → Option String → ℕ → RequirementApproval
decided_row approves = approved_row
decided_row rejects = rejected_row

abbrev pub decided_action : Decision → String
decided_action approves = "approval.approved"
decided_action rejects = "approval.rejected"

-- The tables after the decision about `a`.
abbrev pub decided_tables :
    Decision → RequirementApproval → Option String → ℕ → ℕ → ApprovalTables → ApprovalTables
decided_tables decision a comment actor_id now t =
    let row = decided_row decision a comment now in
    record t {
      approvals = put row t.approvals;
      change_logs =
          t.change_logs
          ++ approval_change row (decided_action decision) (some (approval_snapshot a))
              (some (approval_snapshot row)) actor_id
            ∷ [];
    }

module _ (project_id approval_id : ℕ) (comment : Option String) (actor_id now : ℕ)
    (t : ApprovalTables) where
  -- `approve` and `reject` of an approval whose document is a live document of the project, that
  -- nobody has decided and that has not been moved to the fixed approvals return the decided row, and
  -- exactly this row and one history entry with both snapshots are durable.
  pub decide_open :
      (decision : Decision) (a : RequirementApproval)
      → get_approval t approval_id ≡ some a
      → IsOpen t project_id a
      → request (decide decision project_id approval_id comment actor_id now) t ≡ (
        ok (decided_row decision a comment now),
        decided_tables decision a comment actor_id now t,
      )
  unfolding approve reject
  decide_open approves a found h =
      ground (arith, h.in_document, h.same_project, h.requested, h.not_migrated)
  decide_open rejects a found h =
      ground (arith, h.in_document, h.same_project, h.requested, h.not_migrated)

  -- `approve` and `reject` that end in an error leave the durable tables as they were.
  pub decide_atomic :
      (decision : Decision) (e : ApiError) (t' : ApprovalTables)
      → request (decide decision project_id approval_id comment actor_id now) t ≡ (err e, t')
      → t' ≡ t
  unfolding approve reject
  decide_atomic decision e t' h = elim (Option-cases (get_approval t approval_id)) [
    | inl gone ↦ by_decision decision h
    | inr (a, found) ↦ elim (Option-cases (get_document t a.document_id)) [
      | inl gone ↦ by_decision decision h
      | inr (d, there) ↦ by_decision decision h
    ]
  ]
    where
      by_decision :
          (c : Decision)
          → request (decide c project_id approval_id comment actor_id now) t ≡ (err e, t')
          → t' ≡ t
      by_decision approves h' = ground arith
      by_decision rejects h' = ground arith

  IsOpen-intro :
      (a : RequirementApproval) (d : RequirementDocument)
      → get_approval t approval_id ≡ some a
      → get_document t a.document_id ≡ some d
      → d.project_id ≡ project_id
      → str_eq a.status "requested" ≡ true
      → is_migrated t a ≡ false
      → (a : RequirementApproval) × (get_approval t approval_id ≡ some a) × IsOpen t project_id a
  IsOpen-intro a d found there same requested free = (
    a,
    found,
    record {
      document = d;
      in_document = there;
      same_project = same;
      requested = requested;
      not_migrated = free;
    },
  )

  -- If `approve` or `reject` returns, the approval existed, its document was a live document of the
  -- project, nobody had decided it and it had not been moved to the fixed approvals.
  pub decide-IsOpen :
      (decision : Decision) (r : RequirementApproval)
      → (request (decide decision project_id approval_id comment actor_id now) t).0 ≡ ok r
      → (a : RequirementApproval) × (get_approval t approval_id ≡ some a) × IsOpen t project_id a
  unfolding approve reject
  decide-IsOpen approves r h = elim (Option-cases (get_approval t approval_id)) [
    | inl gone ↦ ground arith
    | inr (a, found) ↦ elim (Option-cases (get_document t a.document_id)) [
      | inl gone ↦ ground arith
      | inr (d, there) ↦ IsOpen-intro a d found there (ground arith) (ground arith) (ground arith)
    ]
  ]
  decide-IsOpen rejects r h = elim (Option-cases (get_approval t approval_id)) [
    | inl gone ↦ ground arith
    | inr (a, found) ↦ elim (Option-cases (get_document t a.document_id)) [
      | inl gone ↦ ground arith
      | inr (d, there) ↦ IsOpen-intro a d found there (ground arith) (ground arith) (ground arith)
    ]
  ]
