-- ===== src/Requirement/Approval/Once.antt =====
-- An approval is decided once: histories of requests, decisions and changes to the other tables.
use sync_nesto_backend.Base.{
  ℕ, String, ◌≡◌, ◌≢◌, refl, subst⁻¹, inl, inr, ◌⊎◌, true, false, Option, none, some, List, arith,
  ◌==◌, ◌++◌, [], ◌∷◌, str_eq, Bool-cases, Option-cases, All, find?, contains, ◌&&◌,
}
use sync_nesto_backend.Errors.{Result, ok, err}
use sync_nesto_backend.Database.{request}
use sync_nesto_backend.Requirement.Model.{
  RequirementApproval, RequirementApprovalRequestCreate, ApprovalTables, get_approval,
}
use sync_nesto_backend.Requirement.Approval.{target_document, put, new_approval, request_approval}
use sync_nesto_backend.Requirement.Approval.Outcome.{
  Decision, approves, rejects, decide, decided_row, decided_tables, IsOpen, decide_open,
  decide_atomic, decide-IsOpen,
}

-- A request, a decision, or the work of the other services, which may change all that approvals read
-- but not the approvals.
pub data ApprovalEvent : Type 0 where
  requests : ℕ → RequirementApprovalRequestCreate → ℕ → ApprovalEvent
  decides : Decision → ℕ → ℕ → Option String → ℕ → ℕ → ApprovalEvent
  elsewhere : ApprovalTables → ApprovalEvent

abbrev pub happen : ApprovalEvent → ApprovalTables → ApprovalTables
happen (requests project_id approval_in requested_by) t =
    (request (request_approval project_id approval_in requested_by) t).1
happen (decides decision project_id approval_id comment actor_id now) t =
    (request (decide decision project_id approval_id comment actor_id now) t).1
happen (elsewhere other) t = record other {
  approvals = t.approvals;
  change_logs = t.change_logs;
  next_id = t.next_id;
}

abbrev pub happen_all : List ApprovalEvent → ApprovalTables → ApprovalTables
happen_all [] t = t
happen_all (event ∷ events) t = happen_all events (happen event t)

-- A request adds one row for the approvals, or leaves them as they are.
request-approvals :
    (project_id : ℕ) (approval_in : RequirementApprovalRequestCreate) (requested_by : ℕ)
    (t : ApprovalTables)
    → let t' = (request (request_approval project_id approval_in requested_by) t).1 in
      (t'.approvals ≡ t.approvals)
      ⊎ ((document_id : ℕ) × (t'.approvals
            ≡ t.approvals ++ new_approval t.next_id document_id approval_in requested_by ∷ []))
unfolding request_approval
request-approvals project_id approval_in requested_by t =
    elim (Option-cases (target_document t approval_in.target_type approval_in.target_id)) [
      | inl gone ↦ inl (ground arith)
      | inr (d, there) ↦ elim (Bool-cases (d.project_id == project_id)) [
        | inr other ↦ inl (ground arith)
        | inl same ↦
            elim (Bool-cases
              (contains t.users approval_in.approver_id && contains t.users requested_by)) [
                | inr unknown ↦ inl (ground arith)
                | inl users ↦ inr (d.id, ground arith)
              ]
      ]
    ]

-- A decision replaces the row of an open approval, or leaves the tables as they are.
decide-tables :
    (decision : Decision) (project_id approval_id : ℕ) (comment : Option String) (actor_id now : ℕ)
    (t : ApprovalTables)
    → let t' = (request (decide decision project_id approval_id comment actor_id now) t).1 in
      (t' ≡ t)
      ⊎ ((a : RequirementApproval) × (get_approval t approval_id ≡ some a)
          × (IsOpen t project_id a)
          × (t' ≡ decided_tables decision a comment actor_id now t))
decide-tables decision project_id approval_id comment actor_id now t =
    by_result (request (decide decision project_id approval_id comment actor_id now) t) refl
  where
    by_result :
        (r : Result RequirementApproval × ApprovalTables)
        → request (decide decision project_id approval_id comment actor_id now) t ≡ r
        → (r.1 ≡ t)
          ⊎ ((a : RequirementApproval) × (get_approval t approval_id ≡ some a)
              × (IsOpen t project_id a)
              × (r.1 ≡ decided_tables decision a comment actor_id now t))
    by_result (err e, t') h =
        inl (decide_atomic project_id approval_id comment actor_id now t decision e t' h)
    by_result (ok r, t') h =
        let (a, found, is_open) =
          decide-IsOpen project_id approval_id comment actor_id now t decision r (ground arith) in
        inr (
          a,
          found,
          is_open,
          ground (
            arith,
            decide_open project_id approval_id comment actor_id now t decision a found is_open,
          ),
        )

find-append :
    (k : ℕ) (rows more : List RequirementApproval) (a : RequirementApproval)
    → find? (λ r. r.id == k) rows ≡ some a
    → find? (λ r. r.id == k) (rows ++ more) ≡ some a
find-append k [] more a h = cc
find-append k (r ∷ rows) more a h = ground (arith, find-append k rows more a)

find-put :
    (k : ℕ) (row : RequirementApproval) (rows : List RequirementApproval)
    → row.id ≢ k
    → find? (λ r. r.id == k) (put row rows) ≡ find? (λ r. r.id == k) rows
find-put k row [] ne = refl
find-put k row (r ∷ rows) ne = ground (arith, find-put k row rows ne)

find-id :
    (k : ℕ) (rows : List RequirementApproval) (a : RequirementApproval)
    → find? (λ r. r.id == k) rows ≡ some a
    → a.id ≡ k
find-id k [] a h = cc
find-id k (r ∷ rows) a h = ground (arith, find-id k rows a)

decided-happen :
    (event : ApprovalEvent) (t : ApprovalTables) (k : ℕ) (a : RequirementApproval)
    → str_eq a.status "requested" ≡ false
    → get_approval t k ≡ some a
    → get_approval (happen event t) k ≡ some a
decided-happen (elsewhere other) t k a decided h = h
decided-happen (requests project_id approval_in requested_by) t k a decided h =
    elim (request-approvals project_id approval_in requested_by t) [
      | inl same ↦ ground arith
      | inr (document_id, added) ↦
          let row = new_approval t.next_id document_id approval_in requested_by in
          ground (arith, find-append k t.approvals (row ∷ []) a h)
    ]
decided-happen (decides decision project_id approval_id comment actor_id now) t k a decided h =
    elim (decide-tables decision project_id approval_id comment actor_id now t) [
      | inl same ↦ ground arith
      | inr (b, found, is_open, e) ↦
          let row = decided_row decision b comment now in
          let requested = is_open.requested in
          let ids : b.id ≡ approval_id = find-id approval_id t.approvals b found in
          let ne : row.id ≢ k = by_decision decision b found requested in
          ground (arith, find-put k row t.approvals ne)
    ]
  where
    by_decision :
        (c : Decision) (b : RequirementApproval)
        → get_approval t approval_id ≡ some b
        → str_eq b.status "requested" ≡ true
        → (decided_row c b comment now).id ≢ k
    by_decision approves b found requested e =
        ground (arith, find-id approval_id t.approvals b found)
    by_decision rejects b found requested e =
        ground (arith, find-id approval_id t.approvals b found)

-- Once an approval has been decided, no history of requests, decisions and changes to the other
-- tables changes its row.
pub decided-happen_all :
    (events : List ApprovalEvent) (t : ApprovalTables) (k : ℕ) (a : RequirementApproval)
    → str_eq a.status "requested" ≡ false
    → get_approval t k ≡ some a
    → get_approval (happen_all events t) k ≡ some a
decided-happen_all [] t k a decided h = h
decided-happen_all (event ∷ events) t k a decided h =
    decided-happen_all events (happen event t) k a decided (decided-happen event t k a decided h)

-- The times of an approval are those of its status.
abbrev pub IsDated : RequirementApproval → Type 0
IsDated a =
    ((a.status ≡ "requested") × (a.approved_at ≡ none) × (a.rejected_at ≡ none))
    ⊎ ((a.status ≡ "approved") × (a.approved_at ≢ none) × (a.rejected_at ≡ none))
    ⊎ ((a.status ≡ "rejected") × (a.approved_at ≡ none) × (a.rejected_at ≢ none))

decided_row-IsDated :
    (decision : Decision) (a : RequirementApproval) (comment : Option String) (now : ℕ)
    → IsDated (decided_row decision a comment now)
decided_row-IsDated approves a comment now = inr (inl (refl, ground arith, refl))
decided_row-IsDated rejects a comment now = inr (inr (refl, refl, ground arith))

module _ (P : RequirementApproval → Type 0) where
  All-append :
      (rows : List RequirementApproval) (row : RequirementApproval)
      → P row
      → All P rows
      → All P (rows ++ row ∷ [])
  All-append [] row p h = (p, tt)
  All-append (r ∷ rows) row p h = (h.0, All-append rows row p h.1)

  All-put :
      (rows : List RequirementApproval) (row : RequirementApproval)
      → P row
      → All P rows
      → All P (put row rows)
  All-put [] row p h = tt
  All-put (r ∷ rows) row p h = ground (arith, All-put rows row p h.1)

IsDated-happen :
    (event : ApprovalEvent) (t : ApprovalTables)
    → All IsDated t.approvals
    → All IsDated (happen event t).approvals
IsDated-happen (elsewhere other) t h = h
IsDated-happen (requests project_id approval_in requested_by) t h =
    elim (request-approvals project_id approval_in requested_by t) [
      | inl same ↦ subst⁻¹ (All IsDated) same h
      | inr (document_id, added) ↦
          let row = new_approval t.next_id document_id approval_in requested_by in
          let dated : IsDated row = inl (refl, refl, refl) in
          subst⁻¹ (All IsDated) added (All-append IsDated t.approvals row dated h)
    ]
IsDated-happen (decides decision project_id approval_id comment actor_id now) t h =
    elim (decide-tables decision project_id approval_id comment actor_id now t) [
      | inl same ↦ subst⁻¹ (λ t'. All IsDated t'.approvals) same h
      | inr (b, found, is_open, e) ↦
          let row = decided_row decision b comment now in
          subst⁻¹ (λ t'. All IsDated t'.approvals) e
            (All-put IsDated t.approvals row (decided_row-IsDated decision b comment now) h)
    ]

-- If the status of every approval agrees with its times (requested: neither time; approved or
-- rejected: the time of this decision alone), this holds after every history of requests, decisions
-- and changes to the other tables.
pub IsDated-happen_all :
    (events : List ApprovalEvent) (t : ApprovalTables)
    → All IsDated t.approvals
    → All IsDated (happen_all events t).approvals
IsDated-happen_all [] t h = h
IsDated-happen_all (event ∷ events) t h =
    IsDated-happen_all events (happen event t) (IsDated-happen event t h)
