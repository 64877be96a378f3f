-- ===== src/Publication/Types.antt =====
-- publication.types.ts, and the two entities under entities/.
-- A nullable column is an `Option`, and a `Date` is its milliseconds.
use work_copilot.Base.{ℕ, String, Bool, true, false, Option, none, some, not, ◌==◌}

pub data PublicationStatus : Type 0 where
  pending publishing confluence_published jira_published : PublicationStatus
  published partially_published needs_review : PublicationStatus

pub data PublicationPhase : Type 0 where
  confluence jira child_tasks : PublicationPhase

pub data PublicationStepStatus : Type 0 where
  pending running succeeded failed needs_review : PublicationStepStatus

pub data PublicationExecutionMode : Type 0 where
  mock real : PublicationExecutionMode

pub data PublicationErrorCode : Type 0 where
  confluence_version_conflict confluence_write_failed : PublicationErrorCode
  publication_reconciliation_indeterminate : PublicationErrorCode
  jira_remote_link_failed jira_summary_comment_failed jira_child_task_failed : PublicationErrorCode

-- entities/publication-step.entity.ts
pub record PublicationStep : Type 0 where
  pub id : String
  pub publication_id : String
  pub step_key : String
  pub phase : PublicationPhase
  pub status : PublicationStepStatus
  pub attempts : ℕ
  pub error_code : Option PublicationErrorCode
  pub provider_object_id : Option String
  pub provider_object_version : Option String
  pub provider_url : Option String
  pub content_hash : Option String
  pub idempotency_key_hash : Option String
  pub execution_lease_expires_at : Option ℕ
  pub execution_token : Option String
  pub review_revision : ℕ
  pub approved_revision : Option ℕ
  pub created_at : ℕ
  pub updated_at : ℕ

-- entities/brief-publication.entity.ts
pub record BriefPublication : Type 0 where
  pub id : String
  pub draft_id : String
  pub operation_id : String
  pub idempotency_key_hash : String
  pub draft_version : ℕ
  pub status : PublicationStatus
  pub approval_revision : ℕ
  pub confluence_content_id : Option String
  pub jira_remote_link_id : Option String
  pub jira_summary_comment_id : Option String
  pub confluence_page_version : Option String
  pub confluence_page_url : Option String
  pub confluence_content_hash : Option String
  pub requested_by_user_id : Option ℕ
  pub requested_at : Option ℕ
  pub approved_by_user_id : Option ℕ
  pub approved_at : Option ℕ
  pub jira_idempotency_key_hash : Option String
  pub child_tasks_idempotency_key_hash : Option String
  pub confluence_preview_hash : Option String
  pub jira_preview_hash : Option String
  pub child_tasks_preview_hash : Option String
  pub jira_approved_by_user_id : Option ℕ
  pub jira_approved_at : Option ℕ
  pub child_tasks_approved_by_user_id : Option ℕ
  pub child_tasks_approved_at : Option ℕ
  pub execution_mode : PublicationExecutionMode
  pub review_required_at : Option ℕ
  pub created_at : ℕ
  pub updated_at : ℕ

-- The tests `=== '…'` of the source on these types.
abbrev pub is_pending : PublicationStepStatus → Bool
is_pending PublicationStepStatus.pending = true
is_pending _ = false

abbrev pub is_running : PublicationStepStatus → Bool
is_running PublicationStepStatus.running = true
is_running _ = false

abbrev pub is_succeeded : PublicationStepStatus → Bool
is_succeeded PublicationStepStatus.succeeded = true
is_succeeded _ = false

abbrev pub is_failed : PublicationStepStatus → Bool
is_failed PublicationStepStatus.failed = true
is_failed _ = false

abbrev pub is_needs_review : PublicationStepStatus → Bool
is_needs_review PublicationStepStatus.needs_review = true
is_needs_review _ = false

abbrev pub is_real : PublicationExecutionMode → Bool
is_real PublicationExecutionMode.real = true
is_real _ = false

abbrev pub is_phase : PublicationPhase → PublicationPhase → Bool
is_phase PublicationPhase.confluence PublicationPhase.confluence = true
is_phase PublicationPhase.jira PublicationPhase.jira = true
is_phase PublicationPhase.child_tasks PublicationPhase.child_tasks = true
is_phase _ _ = false

abbrev pub is_indeterminate : Option PublicationErrorCode → Bool
is_indeterminate (some PublicationErrorCode.publication_reconciliation_indeterminate) = true
is_indeterminate _ = false

-- `Boolean(value)` of a nullable text: null and the empty text are false.
abbrev pub truthy : Option String → Bool
truthy none = false
truthy (some s) = not (s == "")
