-- ===== src/Webhooks/Tests.antt =====
-- webhooks/freshness-review.service.ts: a change of the issue of the only draft.
use work_copilot.Brief.Types.{EvidenceProvider, WorkBriefDraft}
use work_copilot.Base.{true, some, ◌≡◌, refl, row, Memᴰ, List}
use work_copilot.Webhooks.Freshness.{
  draft_id_of, mark_review_required, is_affected, references_source,
}
use work_copilot.Publication.Tests.Execution.{world_1, outside_1}
use work_copilot.Publication.Tests.Recovered.{draft_1}
use work_copilot.Publication.Service.Commands.{
  Target, publish_jira, publish_child_tasks, retry_confluence,
}
use work_copilot.Publication.Service.Sending.{Quiet}
use work_copilot.Publication.Service.Guards.{PhaseInput}
use work_copilot.Publication.Service.Publish.{publish}
use work_copilot.Webhooks.Freshness.Stale.{mark_review_required-Quiet}
use work_copilot.Webhooks.Freshness.Reviewed.{Affected, SentBack, mark_review_required-SentBack}

abbrev changed_drafts : List WorkBriefDraft
changed_drafts = (mark_review_required "f1" EvidenceProvider.jira "100" 200 world_1).1.drafts

mark_review_required-SentBack_example :
    (Affected "f1" EvidenceProvider.jira "100" draft_1
      → (e : WorkBriefDraft) × (row draft_id_of "d1" changed_drafts ≡ some e)
        × SentBack 200 draft_1 e)
    × (¬ (Affected "f1" EvidenceProvider.jira "100" draft_1)
        → row draft_id_of "d1" changed_drafts ≡ some draft_1)
mark_review_required-SentBack_example =
    mark_review_required-SentBack "f1" EvidenceProvider.jira "100" 200 world_1 draft_1 (tt, tt)
      (Memᴰ.head refl)

abbrev target_2 : Target
target_2 = record { user_id = 7; draft_id = "d1"; publication_id = "p1"; correlation_id = "x" }

abbrev input_2 : PhaseInput
input_2 = record {
  draft_version = 1;
  preview_hash = "j";
  approved = true;
  approval_revision = some 1;
  idempotency_key = some "key";
}

issue-cited : is_affected "f1" EvidenceProvider.jira "100" draft_1 ≡ true
unfolding references_source
issue-cited = refl

mark_review_required-Quiet_example :
    Quiet
      (publish outside_1 target_2 input_2)
      (mark_review_required "f1" EvidenceProvider.jira "100" 200 world_1).1
    × Quiet
        (publish_jira outside_1 target_2 input_2)
        (mark_review_required "f1" EvidenceProvider.jira "100" 200 world_1).1
    × Quiet
        (publish_child_tasks outside_1 target_2 input_2)
        (mark_review_required "f1" EvidenceProvider.jira "100" 200 world_1).1
    × Quiet
        (retry_confluence outside_1 target_2 input_2)
        (mark_review_required "f1" EvidenceProvider.jira "100" 200 world_1).1
mark_review_required-Quiet_example =
    mark_review_required-Quiet "f1" EvidenceProvider.jira "100" 200 world_1 draft_1 outside_1
      target_2 input_2 (tt, tt) (Memᴰ.head refl) issue-cited refl refl
