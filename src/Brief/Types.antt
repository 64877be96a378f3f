-- ===== src/Brief/Types.antt =====
-- brief-draft.types.ts, entities/work-brief-draft.entity.ts and the evidence of
-- ../work-items/evidence/evidence-normalizer.ts.
use work_copilot.Base.{ℕ, String, Bool, Option, List}

pub record EvidenceCitation : Type 0 where
  pub text : String
  pub evidence_ids : List String
  pub user_authored : Option Bool

pub record BriefChildTask : Type 0 where
  pub text : String
  pub evidence_ids : List String
  pub user_authored : Option Bool
  pub client_task_id : String
  pub summary : String
  pub selected : Bool

pub record BriefContent : Type 0 where
  pub title : EvidenceCitation
  pub summary : EvidenceCitation
  pub requirements : List EvidenceCitation
  pub acceptance_criteria : List EvidenceCitation
  pub risks : List EvidenceCitation
  pub next_steps : List EvidenceCitation
  pub child_tasks : List BriefChildTask

pub data EvidenceProvider : Type 0 where
  jira confluence : EvidenceProvider

pub data AiStatus : Type 0 where
  included excluded : AiStatus

-- `accessStatus` and `dlpStatus` have one value each, and are left out.
pub record StoredBriefEvidence : Type 0 where
  pub id : String
  pub provider : EvidenceProvider
  pub source_id : String
  pub url : String
  pub title : String
  pub version : String
  pub excerpt_length : ℕ
  pub ai_status : AiStatus
  pub ai_exclusion_reason : Option String

pub data DraftStatus : Type 0 where
  draft review_required : DraftStatus

pub data DraftFreshnessStatus : Type 0 where
  current review_required access_changed : DraftFreshnessStatus

-- `updatedAt` is a `timestamptz`: the milliseconds that a `Date` holds, and the microseconds beyond.
pub record WorkBriefDraft : Type 0 where
  pub id : String
  pub profile_id : String
  pub created_by_user_id : ℕ
  pub source_jira_id : String
  pub source_jira_key : String
  pub source_jira_version : String
  pub masked_brief : BriefContent
  pub evidence : List StoredBriefEvidence
  pub status : DraftStatus
  pub optimistic_version : ℕ
  pub freshness_status : DraftFreshnessStatus
  pub policy_version : ℕ
  pub created_at : ℕ
  pub updated_at : ℕ
  pub updated_micros : ℕ
  pub deleted_at : Option ℕ
