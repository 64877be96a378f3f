-- ===== src/Publication/Tests/Recovered.antt =====
-- publication.service.ts: recovery of a publication whose page was written.
use work_copilot.Base.{String, true, false, none, some, List, [], ◌∷◌, ◌≡◌, refl, Unique}
use work_copilot.Brief.Types.{EvidenceCitation, WorkBriefDraft, DraftStatus, DraftFreshnessStatus}
use work_copilot.Publication.Phases.Status.{
  recovered_status, all_succeeded, is_published, published-all_succeeded, all_delivered,
  published-all_delivered,
}
use work_copilot.Publication.Recovery.{recover_publication}
use work_copilot.Publication.Phases.{
  status_for, latest_phase, has_invalid_phase_order, phase_succeeded, selected_child_tasks,
}
use work_copilot.Publication.Types.{
  BriefPublication, PublicationStep, PublicationStatus, PublicationPhase, PublicationExecutionMode,
}
use work_copilot.Publication.Recovery.Idempotent.{recover-idempotent, recover-status, step_key_of}
use work_copilot.Publication.Tests.{done_step, differ}

abbrev cited : String → EvidenceCitation
cited t = record { text = t; evidence_ids = []; user_authored = none }

abbrev pub draft_1 : WorkBriefDraft
draft_1 = record {
  id = "d1";
  profile_id = "f1";
  created_by_user_id = 7;
  source_jira_id = "100";
  source_jira_key = "WC-1";
  source_jira_version = "1";
  masked_brief = record {
    title = cited "T";
    summary = cited "S";
    requirements = [];
    acceptance_criteria = [];
    risks = [];
    next_steps = [];
    child_tasks = [];
  };
  evidence = [];
  status = DraftStatus.draft;
  optimistic_version = 1;
  freshness_status = DraftFreshnessStatus.current;
  policy_version = 1;
  created_at = 1;
  updated_at = 1;
  updated_micros = 0;
  deleted_at = none;
}

abbrev pub publication_1 : BriefPublication
publication_1 = record {
  id = "p1";
  draft_id = "d1";
  operation_id = "o1";
  idempotency_key_hash = "h1";
  draft_version = 1;
  status = PublicationStatus.publishing;
  approval_revision = 1;
  confluence_content_id = none;
  jira_remote_link_id = none;
  jira_summary_comment_id = none;
  confluence_page_version = none;
  confluence_page_url = none;
  confluence_content_hash = none;
  requested_by_user_id = some 7;
  requested_at = some 1;
  approved_by_user_id = some 7;
  approved_at = some 1;
  jira_idempotency_key_hash = none;
  child_tasks_idempotency_key_hash = none;
  confluence_preview_hash = some "c";
  jira_preview_hash = none;
  child_tasks_preview_hash = none;
  jira_approved_by_user_id = none;
  jira_approved_at = none;
  child_tasks_approved_by_user_id = none;
  child_tasks_approved_at = none;
  execution_mode = PublicationExecutionMode.mock;
  review_required_at = none;
  created_at = 1;
  updated_at = 1;
}

abbrev pub delivered : List PublicationStep
delivered =
    done_step
    ∷ record done_step { id = "s2"; step_key = "jira_remote_link"; phase = PublicationPhase.jira }
    ∷ record done_step {
      id = "s3";
      step_key = "jira_summary_comment";
      phase = PublicationPhase.jira;
    }
    ∷ []

published-all_delivered_example :
    is_published (recovered_status delivered draft_1) ≡ all_delivered delivered draft_1
published-all_delivered_example = published-all_delivered delivered draft_1

delivered-published : is_published (recovered_status delivered draft_1) ≡ true
unfolding status_for latest_phase has_invalid_phase_order phase_succeeded selected_child_tasks
delivered-published = refl

published-all_succeeded_example : all_succeeded delivered ≡ true
published-all_succeeded_example = published-all_succeeded delivered draft_1 delivered-published

delivered-Unique : Unique step_key_of delivered
delivered-Unique = ((differ _ _ refl, (differ _ _ refl, tt)), ((differ _ _ refl, tt), (tt, tt)))

recover-idempotent_example :
    recover_publication delivered draft_1 99
      (recover_publication delivered draft_1 50 publication_1).1
    ≡ (false, (recover_publication delivered draft_1 50 publication_1).1)
recover-idempotent_example =
    recover-idempotent delivered draft_1 50 99 publication_1 delivered-Unique

recover-status_example :
    (recover_publication delivered draft_1 50 publication_1).1.status
    ≡ recovered_status delivered draft_1
recover-status_example = recover-status delivered draft_1 50 publication_1
