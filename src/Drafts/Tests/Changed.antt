-- ===== src/Drafts/Tests/Changed.antt =====
-- work-briefs.service.ts: a regeneration of a draft whose issue has a new version.
use work_copilot.Base.{◌≡◌, ◌↔◌, none, some, [], ◌∷◌, refl, starts_with}
use work_copilot.Drafts.Tests.{caller_1, free_world, jira_1, sources_1}
use work_copilot.Drafts.Selection.{selected_evidence_ids, split_ids}
use work_copilot.Drafts.Types.{RegenerateBriefDraft, JiraDraftContext, Sources}
use work_copilot.Drafts.Regeneration.{
  collect_regeneration_jira_context, collect_regeneration_confluence_metadata,
  regeneration_freshness_status, locked_regeneration_draft, assert_regeneration_draft_state,
  regenerate_draft,
}
use work_copilot.Brief.Types.{DraftFreshnessStatus}
use work_copilot.Publication.Tests.Recovered.{draft_1}
use work_copilot.Failure.{ok}
use work_copilot.Drafts.Refused.{RefusedWith, regenerate_draft-RefusedWith}
use work_copilot.Drafts.Commands.{assert_publication_safety, collect_jira}
use work_copilot.Publication.Tests.{differ}
use work_copilot.Publication.Service.Store.{find_owned_draft}
use work_copilot.Publication.Service.Queries.{assess_draft_deletion}
use work_copilot.Drafts.Refresh.{collect_pages}
use work_copilot.Drafts.Sourced.{IsFresh, IsReadable}
use work_copilot.Drafts.Sourced.Status.{regeneration_freshness_status-IsFresh}

abbrev changed_issue : JiraDraftContext
changed_issue = record jira_1 { source_jira_version = some "2" }

abbrev changed_sources : Sources
changed_sources = record sources_1 {
  collect_issue_draft_context = λ w user key correlation. ok changed_issue;
}

abbrev again : RegenerateBriefDraft
again = record {
  optimistic_version = 1;
  instruction = "";
  selected_evidence_ids = some ("jira:WC-1" ∷ []);
}

starts : locked_regeneration_draft caller_1 1 free_world ≡ (ok draft_1, free_world)
unfolding locked_regeneration_draft assert_regeneration_draft_state assert_publication_safety
    find_owned_draft assess_draft_deletion
starts = refl

selects :
    selected_evidence_ids ("jira:WC-1" ∷ []) free_world
    ≡ (ok (record { jira = "jira:WC-1" ∷ []; confluence = [] }), free_world)
unfolding selected_evidence_ids split_ids starts_with
selects = refl

reads :
    collect_regeneration_jira_context changed_sources caller_1 draft_1 1 free_world
    ≡ (ok changed_issue, free_world)
unfolding collect_regeneration_jira_context collect_jira
reads = refl

has_no_pages :
    collect_regeneration_confluence_metadata changed_sources caller_1 draft_1 1 changed_issue
      free_world
    ≡ (ok none, free_world)
unfolding collect_regeneration_confluence_metadata collect_pages
has_no_pages = refl

issue-moved : ¬ (IsFresh draft_1 changed_issue none)
issue-moved f = differ "2" "1" refl (cc f.same_version)

regenerate_draft-RefusedWith_example :
    (f : DraftFreshnessStatus) × RefusedWith caller_1 draft_1 f
      (regenerate_draft changed_sources caller_1 again free_world)
    × (¬ (IsReadable draft_1 changed_issue none) → f ≡ DraftFreshnessStatus.access_changed)
    × (IsReadable draft_1 changed_issue none → f ≡ DraftFreshnessStatus.review_required)
regenerate_draft-RefusedWith_example =
    regenerate_draft-RefusedWith changed_sources caller_1 again draft_1 changed_issue none
      (record { jira = "jira:WC-1" ∷ []; confluence = [] }) free_world free_world free_world starts
      selects reads has_no_pages (tt, tt) (tt, tt) refl issue-moved

regeneration_freshness_status-IsFresh_example :
    ((regeneration_freshness_status draft_1 changed_issue none ≡ none)
      ↔ IsFresh draft_1 changed_issue none)
    × ((regeneration_freshness_status draft_1 changed_issue none
          ≡ some DraftFreshnessStatus.access_changed)
        ↔ (¬ (IsReadable draft_1 changed_issue none)))
    × ((regeneration_freshness_status draft_1 changed_issue none
          ≡ some DraftFreshnessStatus.review_required)
        ↔ (IsReadable draft_1 changed_issue none × (¬ (IsFresh draft_1 changed_issue none))))
regeneration_freshness_status-IsFresh_example =
    regeneration_freshness_status-IsFresh draft_1 changed_issue none (tt, tt)
