-- ===== src/Errors.antt =====
-- The exceptions of app/core/exceptions.py that the modelled services raise, with the messages of
-- app/core/error_messages.py that the services pass to them. `current` of a version conflict is
-- the response body of the error and is left out.
use sync_nesto_backend.Base.{Bool, Option, none, some, if◌then◌else◌}

pub data Message : Type 0 where
  task_not_found task_dependency_not_found task_dependency_invalid task_dependency_cycle : Message
  duplicate_resource approval_not_found approval_target_not_found approval_already_decided : Message
  project_not_found task_parent_not_found task_parent_self_reference task_parent_cycle : Message
  requirement_not_found task_relation_not_found task_return_create_invalid : Message
  task_return_reason_required task_done_progress_invalid task_code_already_exists : Message
  task_type_unavailable task_planning_dates_invalid task_planning_assignee_invalid : Message
  task_bug_type_locked task_phase_not_found task_phase_archived board_not_found : Message

-- `index_error`, `value_error` and `assertion_error` are the built-in exceptions; `integrity_error` is a violated
-- constraint of the database that no handler catches, and `data_error` a value out of range in it.
pub data ApiError : Type 0 where
  bad_request not_found duplicate : Message → ApiError
  version_conflict approval_migrated rate_limited mfa_invalid mfa_unavailable invalid_token
        token_expired :
      ApiError
  integrity_error data_error index_error value_error assertion_error : ApiError

pub data Result (A : Type 0) : Type 0 where
  ok : A → Result A
  err : ApiError → Result A

-- `raise error` under a condition, in a check that reads only.
abbrev pub refuse_if : Bool → ApiError → Result Unit
refuse_if c e = if c then err e else ok tt

abbrev pub or_refuse : {A : Type 0} → Option A → ApiError → Result A
or_refuse none e = err e
or_refuse (some a) e = ok a

infixl 5 ◌>>=◌ ◌>>◌
abbrev pub ◌>>=◌ : {A B : Type 0} → Result A → (A → Result B) → Result B
ok a >>= f = f a
err e >>= f = err e

unfoldable pub ◌>>◌ : {A B : Type 0} → Result A → Result B → Result B
ok a >> m = m
err e >> m = err e
