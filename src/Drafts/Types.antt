-- ===== src/Drafts/Types.antt =====
-- What the drafts' service is given and what it answers: brief-draft.types.ts, the inputs of
-- dto/brief-draft.dto.ts, the output of work-brief-ai-client.service.ts, and the sources that
-- ../work-items reads.
use work_copilot.Base.{ℕ, String, Option, List, Bool}
use work_copilot.Failure.{Result}
use work_copilot.Publication.Types.{PublicationStatus}
use work_copilot.Publication.World.{Outside, World, SafeAuditInput}
use work_copilot.Brief.Types.{
  BriefContent, DraftFreshnessStatus, DraftStatus, EvidenceProvider, StoredBriefEvidence,
}
use work_copilot.Brief.Citations.{Json}

-- work-items/evidence/evidence-normalizer.ts
pub data EvidenceAccessStatus : Type 0 where
  accessible access_limited not_found : EvidenceAccessStatus

-- `accessStatus` and `dlpStatus` have one value each, and are left out.
pub record NormalizedEvidence : Type 0 where
  pub id : String
  pub provider : EvidenceProvider
  pub source_id : String
  pub url : String
  pub title : String
  pub version : String
  pub excerpt_length : ℕ

-- An evidence beside the text of its source, which is never stored: `TransientJiraDraftEvidence` and
-- `TransientConfluenceDraftEvidence`.
pub record TransientEvidence : Type 0 where
  pub evidence : NormalizedEvidence
  pub content : String

pub record JiraDraftContext : Type 0 where
  pub access_status : EvidenceAccessStatus
  pub profile_id : Option String
  pub source_jira_id : Option String
  pub source_jira_key : String
  pub source_jira_version : Option String
  pub evidence : List TransientEvidence

pub record ConfluenceDraftContext : Type 0 where
  pub access_status : EvidenceAccessStatus
  pub profile_id : Option String
  pub evidence : List TransientEvidence

pub record ConfluenceEvidenceContext : Type 0 where
  pub access_status : EvidenceAccessStatus
  pub profile_id : Option String
  pub evidence : List NormalizedEvidence

-- work-brief-ai-client.service.ts
pub record WorkBriefCitation : Type 0 where
  pub text : String
  pub evidence_ids : List String

pub record WorkBriefChildTaskOutput : Type 0 where
  pub text : String
  pub evidence_ids : List String
  pub summary : String

pub record WorkBriefExcludedEvidence : Type 0 where
  pub evidence_id : String
  pub reason : String

pub record WorkBriefOutput : Type 0 where
  pub schema_version : ℕ
  pub title : WorkBriefCitation
  pub summary : WorkBriefCitation
  pub key_points : List WorkBriefCitation
  pub acceptance_criteria : List WorkBriefCitation
  pub risks : List WorkBriefCitation
  pub next_steps : List WorkBriefCitation
  pub child_tasks : List WorkBriefChildTaskOutput
  pub excluded_evidence : List WorkBriefExcludedEvidence

-- work-brief-content-guard.service.ts
pub record WorkBriefEvidenceInput : Type 0 where
  pub evidence_id : String
  pub content : String

-- dto/brief-draft.dto.ts
pub record CreateBriefDraft : Type 0 where
  pub source_jira_key : String
  pub selected_evidence_ids : List String
  pub instruction : String

pub record UpdateBriefDraft : Type 0 where
  pub optimistic_version : ℕ
  pub content : Json

pub record RegenerateBriefDraft : Type 0 where
  pub optimistic_version : ℕ
  pub instruction : String
  pub selected_evidence_ids : Option (List String)

-- brief-draft.types.ts
pub data DraftBlocker : Type 0 where
  source_review_required access_changed : DraftBlocker

pub record BriefDraftView : Type 0 where
  pub id : String
  pub source_jira_key : String
  pub source_jira_version : String
  pub content : Option BriefContent
  pub evidence : List StoredBriefEvidence
  pub status : DraftStatus
  pub freshness_status : DraftFreshnessStatus
  pub optimistic_version : ℕ
  pub blockers : List DraftBlocker
  pub updated_at : ℕ

pub record BriefDraftPublicationSummary : Type 0 where
  pub id : String
  pub status : PublicationStatus
  pub external_write_performed : Bool

pub record BriefDraftSummary : Type 0 where
  pub id : String
  pub source_jira_key : String
  pub title : Option String
  pub evidence_count : Option ℕ
  pub status : DraftStatus
  pub freshness_status : DraftFreshnessStatus
  pub optimistic_version : ℕ
  pub blockers : List DraftBlocker
  pub publication : Option BriefDraftPublicationSummary
  pub created_at : ℕ
  pub updated_at : ℕ

-- Who calls, for which draft.
pub record Caller : Type 0 where
  pub user_id : ℕ
  pub draft_id : String
  pub correlation_id : String

-- What a request waits for: other requests may run meanwhile.
pub data Wait : Type 0 where
  for_sources for_generation for_masking for_database : Wait

-- The services that the drafts' service calls, and what other requests do while it waits.
pub record Sources : Type 0 where
  pub outside : Outside
  -- JiraWorkItemService.collectIssueDraftContext: user, issue key, correlation
  pub collect_issue_draft_context : World → ℕ → String → String → Result JiraDraftContext
  -- ConfluenceWorkItemService.collectDraftEvidence and .collectEvidenceMetadata
  pub collect_draft_evidence : World → ℕ → List String → String → Result ConfluenceDraftContext
  pub collect_evidence_metadata :
      World → ℕ → List String → String → Result ConfluenceEvidenceContext
  -- WorkBriefAiClientService
  pub generate : String → List WorkBriefEvidenceInput → Result WorkBriefOutput
  pub sanitize : List String → Result (List String)
  -- SafeAuditService: whether the event is safe and its row is saved
  pub is_recorded : SafeAuditInput → Bool
  -- the microseconds of the database's clock beyond a millisecond
  pub database_micros : ℕ → ℕ
  pub meanwhile : Wait → World → World
