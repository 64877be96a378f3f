-- ===== src/Readiness/Tests.antt =====
-- readiness-coverage-evaluator.service.ts: a brief with one covered requirement; and
-- readiness.service.ts: a draft that is ready.
use work_copilot.Base.{
  refl, String, true, false, none, some, List, Option, any, [], ◌∷◌, ◌≡◌, ◌↔◌, Memᴰ,
}
use work_copilot.Brief.Types.{EvidenceCitation, BriefContent, WorkBriefDraft}
use work_copilot.Readiness.Coverage.{evaluate, evaluate_from}
use work_copilot.Readiness.Coverage.Complete.{Covered, evaluate-Covered}
use work_copilot.Failure.{ok, err, not_found}
use work_copilot.Publication.Tests.Execution.{world_1}
use work_copilot.Publication.Tests.Recovered.{draft_1}
use work_copilot.Publication.Service.Store.{owned_draft}
use work_copilot.Drafts.Types.{EvidenceAccessStatus, ConfluenceEvidenceContext}
use work_copilot.Readiness.Findings.{
  JiraReadinessContext, not_requested, ready, findings_for, unique_findings, source_findings,
  evidence_findings, status_for_findings,
}
use work_copilot.Readiness.Service.{
  ReadinessSources, ReadinessAssessment, assessment_row, assert_draft_publish_allowed, assess_draft,
  store_assessment, collect_readiness_pages, task_selected,
}
use work_copilot.Readiness.Service.Found.{IsReady}
use work_copilot.Readiness.Service.Ready.{assert_draft_publish_allowed-IsReady}

abbrev about_e1 : String → EvidenceCitation
about_e1 t = record { text = t; evidence_ids = "e1" ∷ []; user_authored = none }

abbrev covered_brief : BriefContent
covered_brief = record {
  title = about_e1 "T";
  summary = about_e1 "S";
  requirements = about_e1 "R" ∷ [];
  acceptance_criteria = about_e1 "A" ∷ [];
  risks = [];
  next_steps = [];
  child_tasks =
      record {
        text = "C";
        evidence_ids = "e1" ∷ [];
        user_authored = none;
        client_task_id = "c1";
        summary = "C";
        selected = true;
      }
      ∷ [];
}

evaluate-Covered_example :
    (evaluate covered_brief ≡ [])
    ↔ ((r : EvidenceCitation) → Memᴰ r covered_brief.requirements → Covered covered_brief r)
evaluate-Covered_example = evaluate-Covered covered_brief

-- The draft of a publication, with what its providers answer.
abbrev jira_1 : JiraReadinessContext
jira_1 = record {
  access_status = EvidenceAccessStatus.accessible;
  profile_id = some "f1";
  source_jira_id = some "100";
  source_jira_key = "WC-1";
  source_jira_version = some "1";
  evidence_versions = [];
  has_access_limited_evidence = false;
  dependencies = [];
  child_task_template = none;
  create_metadata = not_requested;
}

abbrev sources_1 : ReadinessSources
sources_1 = record {
  collect_readiness_context = λ user key correlation selected. ok jira_1;
  collect_evidence_metadata = λ user is correlation. err (not_found "Page");
}

abbrev stored_1 : List ReadinessAssessment
stored_1 = assessment_row draft_1 ready [] 200 ∷ []

opens : assert_draft_publish_allowed sources_1 7 "d1" "x" 200 [] world_1 ≡ ok stored_1
unfolding assert_draft_publish_allowed assess_draft findings_for unique_findings source_findings
    evidence_findings evaluate evaluate_from status_for_findings store_assessment
opens = refl

assert_draft_publish_allowed-IsReady_example :
    (d : WorkBriefDraft) × (owned_draft 7 "d1" world_1 ≡ some d)
    × (context : JiraReadinessContext) × (sources_1.collect_readiness_context 7 d.source_jira_key
          "x"
          (any task_selected d.masked_brief.child_tasks)
        ≡ ok context)
    × (pages : Option ConfluenceEvidenceContext) × (collect_readiness_pages sources_1 7 d context
          "x"
        ≡ ok pages)
    × IsReady d context pages
assert_draft_publish_allowed-IsReady_example =
    assert_draft_publish_allowed-IsReady sources_1 7 "d1" "x" 200 [] world_1 opens
