-- ===== src/Publication/World.antt =====
-- What the publication service reads and changes: the tables, the clock, the random identifiers,
-- the provider writes that were sent, and the counters of the metrics.
-- The services that it calls are the fields of `Outside`.
pub mod Program
use work_copilot.Base.{ℕ, String, Bool, Option, List}
use work_copilot.Failure.{Failure, Result}
use work_copilot.Publication.Types.{
  PublicationExecutionMode, PublicationErrorCode, PublicationStep, BriefPublication,
}
use work_copilot.Publication.Claimer.{PublicationStepResult}
use work_copilot.Publication.Claimer.Machine.{Call}
use work_copilot.Brief.Types.{BriefChildTask, BriefContent, StoredBriefEvidence, WorkBriefDraft}

-- integrations/profiles/entities/integration-profile.entity.ts, as far as publication reads it.
pub record ChildTaskTemplate : Type 0 where
  pub issue_type_id : String
  pub fields : List (String × String)

pub record IntegrationProfile : Type 0 where
  pub id : String
  pub is_active : Bool
  pub brief_parent_page_id : Option String
  pub child_task_template : Option ChildTaskTemplate

-- publication-write-gateway.ts
pub record PublicationGatewayContext : Type 0 where
  pub user_id : ℕ
  pub correlation_id : String
  pub profile : IntegrationProfile
  pub operation_id : String

pub data WriteRequest : Type 0 where
  -- parent page, existing content, draft, issue key, content, evidence
  upsert_confluence_brief :
      PublicationGatewayContext
      → String
      → Option String
      → String
      → String
      → BriefContent
      → List StoredBriefEvidence
      → WriteRequest
  -- issue, page, its URL and its title
  upsert_jira_remote_link :
      PublicationGatewayContext → String → String → String → String → WriteRequest
  -- issue, summary, page and its URL
  create_jira_summary_comment :
      PublicationGatewayContext → String → String → String → String → WriteRequest
  -- issue, issue key, task, template, the object that reconciliation found
  create_jira_child_task :
      PublicationGatewayContext
      → String
      → String
      → BriefChildTask
      → Option ChildTaskTemplate
      → Option String
      → WriteRequest

-- How an awaited write ends: with a result, with another value, or by an exception.
pub data Attempt : Type 0 where
  wrote : PublicationStepResult → Attempt
  malformed : Attempt
  gateway_error : PublicationErrorCode → Bool → Attempt
  other_error : Attempt

pub record ChildTaskReconciliationEntry : Type 0 where
  pub issue_id : String
  pub operation_id : String

pub data ReconciliationResult : Type 0 where
  found : List (String × ChildTaskReconciliationEntry) → ReconciliationResult
  absent : ReconciliationResult
  indeterminate : ReconciliationResult

-- publication-preview.service.ts, as far as the service reads the previews.
pub record ConfluencePublicationPreview : Type 0 where
  pub preview_hash : String
  pub content_hash : String

pub record JiraPublicationPreview : Type 0 where
  pub preview_hash : String
  pub page_id : String
  pub page_url : String
  pub page_title : String

pub record ChildTasksPublicationPreview : Type 0 where
  pub preview_hash : String
  pub child_tasks : List String

-- work-briefs/entities/transient-evidence-fragment.entity.ts: an encrypted excerpt of a source.
pub record TransientEvidenceFragment : Type 0 where
  pub id : String
  pub draft_id : String
  pub evidence_id : String
  pub ciphertext : String
  pub iv : String
  pub authentication_tag : String
  pub encryption_key_version : ℕ
  pub expires_at : ℕ

-- operations/safe-audit.service.ts
pub record SafeAuditInput : Type 0 where
  pub actor_user_id : Option ℕ
  pub action : String
  pub profile_id : Option String
  pub target_id : Option String
  pub correlation_id : String
  pub result_code : String

pub record World : Type 0 where
  pub drafts : List WorkBriefDraft
  pub profiles : List IntegrationProfile
  pub publications : List BriefPublication
  pub steps : List PublicationStep
  pub clock : ℕ
  pub drawn : ℕ
  -- newest first
  pub writes : List WriteRequest
  -- stage and whether it succeeded, newest first
  pub metrics : List (String × Bool)
  pub fragments : List TransientEvidenceFragment
  -- the audit events, newest first
  pub events : List SafeAuditInput

-- What happens to the steps while a write is awaited: a call of another worker, or a heartbeat of
-- this one, which the database may fail to take.
pub data Interlude : Type 0 where
  another : Call → Interlude
  beat : Bool → Interlude

pub record Outside : Type 0 where
  pub tick : ℕ → ℕ
  pub uuid : ℕ → String
  pub sha256 : String → String
  -- ReadinessService.assertDraftPublishAllowed: user, draft, correlation
  pub assert_draft_publish_allowed : World → ℕ → String → String → Result (Unit {0})
  -- WorkBriefContentGuard.assertSafeModelOutput
  pub assert_safe_model_output : List String → Result (Unit {0})
  -- PublicationPreviewService
  pub preview_confluence :
      World → ℕ → WorkBriefDraft → IntegrationProfile → String → Result ConfluencePublicationPreview
  pub preview_jira : WorkBriefDraft → BriefPublication → Result JiraPublicationPreview
  pub preview_child_tasks :
      WorkBriefDraft → BriefPublication → IntegrationProfile → Result ChildTasksPublicationPreview
  -- PublicationWriteGateway, which sees the writes before
  pub mode : PublicationExecutionMode
  pub respond : List WriteRequest → WriteRequest → Attempt
  pub reconcile_jira_child_tasks :
      List WriteRequest
      → PublicationGatewayContext
      → String
      → List String
      → Option ReconciliationResult
  pub meanwhile : List WriteRequest → WriteRequest → List Interlude
