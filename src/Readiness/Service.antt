-- ===== src/Readiness/Service.antt =====
-- readiness.service.ts: the assessment of a draft, and the gate before its publication. What the
-- providers answer and the time are parameters.
pub mod Found
pub mod Ready
use work_copilot.Base.{
  ℕ, String, Bool, true, false, Option, none, some, List, [], ◌∷◌, ◌++◌, ◌==◌, ◌&&◌, ◌||◌, eqb, not,
  any, all, map, filter, if◌then◌else◌, is_empty,
}
use work_copilot.Failure.{Result, ok, err, conflict, not_found, ◌>>=◌}
use work_copilot.Publication.Types.{truthy}
use work_copilot.Publication.World.{World, ChildTaskTemplate}
use work_copilot.Publication.Service.Store.{owned_draft}
use work_copilot.Brief.Types.{
  BriefChildTask, DraftFreshnessStatus, EvidenceProvider, StoredBriefEvidence, WorkBriefDraft,
}
use work_copilot.Brief.Citations.{includes}
use work_copilot.Drafts.Types.{ConfluenceEvidenceContext, EvidenceAccessStatus, NormalizedEvidence}
use work_copilot.Drafts.Selection.{is_accessible, same_text}
use work_copilot.Drafts.Refresh.{pages_inaccessible, pages_of, stored_ids}
use work_copilot.Readiness.Coverage.{
  ReadinessFinding, ReadinessFindingCode, ReadinessFindingSeverity, MissingCoverage, evaluate,
}
use work_copilot.Readiness.Findings.{
  ReadinessStatus, ReadinessBlocker, JiraCreateMetadata, JiraReadinessEvidenceVersion,
  JiraReadinessContext, finding, blocking_finding, code_index, is_blocking, same_flag, same_index,
  is_task_missing, same_missing, same_texts, same_finding, unique_findings, freshness_findings,
  version_in, version_of, current_versions, is_unread, is_other_version, pages_limited,
  evidence_findings, dependency_finding, field_name, supplied_fields, missing_field,
  create_metadata_findings, issue_unread, source_findings, findings_for, limits_access, blocks,
  status_for_findings, is_ready, ready, needs_attention, blocked, access_limited, visible_blocker,
  limited, not_requested, metadata_limited, metadata_not_found, available,
}

-- entities/readiness-assessment.entity.ts, without the drawn key and the time of creation.
pub record ReadinessAssessment : Type 0 where
  pub draft_id : String
  pub source_jira_id : String
  pub assessment_version : ℕ
  pub status : ReadinessStatus
  pub findings : List ReadinessFinding
  pub updated_at : ℕ

pub record ReadinessAssessmentView : Type 0 where
  pub draft_id : String
  pub assessment_version : ℕ
  pub status : ReadinessStatus
  pub publish_allowed : Bool
  pub findings : List ReadinessFinding
  pub blockers : List ReadinessBlocker
  pub evaluated_at : ℕ

-- The row of a draft at its version is replaced, or added.
unfoldable pub store_assessment :
    ReadinessAssessment → List ReadinessAssessment → List ReadinessAssessment
store_assessment a [] = a ∷ []
store_assessment a (b ∷ bs) =
    let rest = store_assessment a bs in
    if (b.draft_id == a.draft_id) && eqb b.assessment_version a.assessment_version
    then a ∷ bs
    else b ∷ rest

-- What the providers answer: user, issue or pages, correlation, and whether the fields of new tasks
-- are wanted.
pub record ReadinessSources : Type 0 where
  pub collect_readiness_context : ℕ → String → String → Bool → Result JiraReadinessContext
  pub collect_evidence_metadata : ℕ → List String → String → Result ConfluenceEvidenceContext

abbrev pub task_selected : BriefChildTask → Bool
task_selected t = t.selected

abbrev pub found_draft : Option WorkBriefDraft → Result WorkBriefDraft
found_draft none = err (not_found "Brief draft was not found.")
found_draft (some d) = ok d

abbrev pub assessment_row :
    WorkBriefDraft → ReadinessStatus → List ReadinessFinding → ℕ → ReadinessAssessment
assessment_row d status findings now = record {
  draft_id = d.id;
  source_jira_id = d.source_jira_id;
  assessment_version = d.optimistic_version;
  status = status;
  findings = findings;
  updated_at = now;
}

abbrev pub assessment_view :
    WorkBriefDraft
    → ReadinessStatus
    → List ReadinessFinding
    → JiraReadinessContext
    → ℕ
    → ReadinessAssessmentView
assessment_view d status findings context now = record {
  draft_id = d.id;
  assessment_version = d.optimistic_version;
  status = status;
  publish_allowed = is_ready status;
  findings = findings;
  blockers = if is_accessible context.access_status then context.dependencies else [];
  evaluated_at = now;
}

module _ (s : ReadinessSources) where
  abbrev pub collect_readiness_pages :
      ℕ → WorkBriefDraft → JiraReadinessContext → String → Result (Option ConfluenceEvidenceContext)
  collect_readiness_pages user d context correlation =
      let is = stored_ids EvidenceProvider.confluence d in
      if is_accessible context.access_status && not (is_empty is)
      then (do pages ← s.collect_evidence_metadata user is correlation; ok (some pages))
      else ok none

  -- The view, and the table with the assessment.
  unfoldable pub assess_draft :
      ℕ
      → String
      → String
      → ℕ
      → List ReadinessAssessment
      → World
      → Result (ReadinessAssessmentView × List ReadinessAssessment)
  assess_draft user i correlation now table w = do
    d ← found_draft (owned_draft user i w)
    let selected = any task_selected d.masked_brief.child_tasks
    context ← s.collect_readiness_context user d.source_jira_key correlation selected
    pages ← collect_readiness_pages user d context correlation
    let findings = findings_for d context pages selected
    let status = status_for_findings findings
    ok (
      assessment_view d status findings context now,
      store_assessment (assessment_row d status findings now) table,
    )

  unfoldable pub assert_draft_publish_allowed :
      ℕ → String → String → ℕ → List ReadinessAssessment → World → Result (List ReadinessAssessment)
  assert_draft_publish_allowed user i correlation now table w = do
    assessed ← assess_draft user i correlation now table w
    (if assessed.0.publish_allowed
        then ok assessed.1
        else err (conflict "DRAFT_NOT_READY_FOR_PUBLISH"))
