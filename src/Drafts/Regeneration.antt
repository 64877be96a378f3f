-- ===== src/Drafts/Regeneration.antt =====
-- work-briefs.service.ts: a brief is generated again over its sources, and replaced in place.
-- Every exception of a transaction here is thrown before its first write, so none is taken back.
use work_copilot.Base.{
  ℕ, ◌+◌, String, Bool, true, false, Option, none, some, List, [], ◌++◌, ◌==◌, ◌&&◌, ◌||◌, eqb, any,
  if◌then◌else◌, map, get_or, not,
}
use work_copilot.Failure.{Failure, Result, ok, err, version_conflict, conflict, freshness_conflict}
use work_copilot.Publication.Types.{truthy}
use work_copilot.Publication.World.{World}
use work_copilot.Publication.World.Program.{Program, ◌>>=◌, ◌>>◌, pure, throw, require, new_date}
use work_copilot.Publication.Service.Store.{find_owned_draft}
use work_copilot.Brief.Types.{
  DraftFreshnessStatus, DraftStatus, WorkBriefDraft, StoredBriefEvidence, EvidenceProvider,
  BriefContent,
}
use work_copilot.Webhooks.Freshness.{same_provider}
use work_copilot.Drafts.Types.{
  BriefDraftView, Caller, JiraDraftContext, ConfluenceEvidenceContext, NormalizedEvidence, Sources,
  RegenerateBriefDraft, TransientEvidence, for_database,
}
use work_copilot.Drafts.Content.{elsewhere, content_from_ai, evidence_from_ai, mask_content}
use work_copilot.Drafts.Selection.{
  SelectedEvidenceIds, is_accessible, same_text, selected_evidence_ids, selected_jira_evidence,
  selected_confluence_evidence,
}
use work_copilot.Drafts.Present.{
  update_at, conflicting_version, find_draft, assert_update_succeeded,
}
use work_copilot.Drafts.Commands.{
  collect_jira, collect_confluence, generate_from, evidence_id_of, assert_publication_safety,
}
use work_copilot.Drafts.Refresh.{
  apply_refresh, stored_ids, pages_inaccessible, pages_of, current_evidence, evidence_of,
  up_to_date, collect_pages,
}

abbrev pub refusal_code : DraftFreshnessStatus → String
refusal_code DraftFreshnessStatus.access_changed = "ACCESS_CHANGED"
refusal_code _ = "SOURCE_REVIEW_REQUIRED"

unfoldable pub assert_regeneration_draft_state : WorkBriefDraft → ℕ → Program (Unit {0})
unfolding conflicting_version
assert_regeneration_draft_state d version = do
  (if eqb d.optimistic_version version
      then pure tt
      else conflicting_version d.optimistic_version version)
  require (up_to_date d.freshness_status) (conflict (refusal_code d.freshness_status))

unfoldable pub locked_regeneration_draft : Caller → ℕ → Program WorkBriefDraft
locked_regeneration_draft c version = do
  d ← find_owned_draft c.user_id c.draft_id
  assert_regeneration_draft_state d version
  assert_publication_safety c.draft_id
  pure d

-- `error instanceof ConflictException`.
abbrev pub is_conflict : Failure → Bool
is_conflict (conflict code) = true
is_conflict (version_conflict current expected) = true
is_conflict (freshness_conflict code current) = true
is_conflict _ = false

-- A selected evidence of the draft is gone, or comes from another provider.
abbrev pub is_missing : List NormalizedEvidence → StoredBriefEvidence → Bool
is_missing current stored = elim (current_evidence stored.id current) [
  | none ↦ true
  | some e ↦ not (e.id == stored.id) || not (same_provider e.provider stored.provider)
]

abbrev pub version_differs : List NormalizedEvidence → StoredBriefEvidence → Bool
version_differs current stored = elim (current_evidence stored.id current) [
  | none ↦ true
  | some e ↦ not (e.version == stored.version)
]

-- The issue and the pages cannot be read, or are no longer those of the draft.
abbrev pub sources_lost :
    WorkBriefDraft → JiraDraftContext → Option ConfluenceEvidenceContext → Bool
sources_lost d context pages =
    not (is_accessible context.access_status)
    || not (truthy context.profile_id)
    || not (truthy context.source_jira_id)
    || not (truthy context.source_jira_version)
    || not (same_text context.profile_id (some d.profile_id))
    || not (same_text context.source_jira_id (some d.source_jira_id))
    || pages_inaccessible d pages

unfoldable pub regeneration_freshness_status :
    WorkBriefDraft
    → JiraDraftContext
    → Option ConfluenceEvidenceContext
    → Option DraftFreshnessStatus
regeneration_freshness_status d context pages =
    let current = map evidence_of context.evidence ++ pages_of pages in
    if sources_lost d context pages
    then some DraftFreshnessStatus.access_changed
    else if any (is_missing current) d.evidence
    then some DraftFreshnessStatus.access_changed
    else if not (same_text context.source_jira_version (some d.source_jira_version))
        || any (version_differs current) d.evidence
    then some DraftFreshnessStatus.review_required
    else none

abbrev pub kept_evidence :
    DraftFreshnessStatus → List StoredBriefEvidence → List StoredBriefEvidence
kept_evidence DraftFreshnessStatus.access_changed evidence = []
kept_evidence _ evidence = evidence

-- What `persistRegeneration` sets.
abbrev pub set_regenerated :
    BriefContent → List StoredBriefEvidence → ℕ → ℕ → WorkBriefDraft → WorkBriefDraft
set_regenerated content evidence version now d = record d {
  masked_brief = content;
  evidence = evidence;
  optimistic_version = version + 1;
  updated_at = now;
  updated_micros = 0;
}

abbrev pub selection_of : RegenerateBriefDraft → WorkBriefDraft → List String
selection_of dto d = get_or dto.selected_evidence_ids (map evidence_id_of d.evidence)

module _ (s : Sources) where
  -- The mark is stored, and then the request is refused.
  unfoldable pub reject_regeneration_for_freshness :
      {A : Type 0} → WorkBriefDraft → ℕ → DraftFreshnessStatus → Program A
  reject_regeneration_for_freshness d version freshness = do
    marked ← apply_refresh s d version (record {
      evidence = kept_evidence freshness d.evidence;
      freshness_status = freshness;
      status = DraftStatus.review_required;
      source_jira_version = none;
    })
    throw (freshness_conflict (refusal_code freshness) marked.optimistic_version)

  -- A source that answers with a conflict has to be authorised again.
  abbrev pub rejected_on_conflict :
      {A : Type 0} → WorkBriefDraft → ℕ → Result A × World → Result A × World
  rejected_on_conflict d version (ok a, w) = (ok a, w)
  rejected_on_conflict d version (err e, w) =
      if is_conflict e
      then reject_regeneration_for_freshness d version DraftFreshnessStatus.access_changed w
      else (err e, w)

  unfoldable pub collect_regeneration_jira_context :
      Caller → WorkBriefDraft → ℕ → Program JiraDraftContext
  collect_regeneration_jira_context c d version w =
      rejected_on_conflict d version (collect_jira s c.user_id d.source_jira_key c.correlation_id w)

  unfoldable pub collect_regeneration_confluence_metadata :
      Caller → WorkBriefDraft → ℕ → JiraDraftContext → Program (Option ConfluenceEvidenceContext)
  collect_regeneration_confluence_metadata c d version context =
      if is_accessible context.access_status && same_text context.profile_id (some d.profile_id)
      then (λ w.
          rejected_on_conflict d version (
            collect_pages s c.user_id (stored_ids EvidenceProvider.confluence d) c.correlation_id
              w))
      else pure none

  unfoldable pub assert_regeneration_freshness :
      WorkBriefDraft → ℕ → Option DraftFreshnessStatus → Program (Unit {0})
  assert_regeneration_freshness d version none = pure tt
  assert_regeneration_freshness d version (some freshness) =
      reject_regeneration_for_freshness d version freshness

  -- The row is written at the version that was read.
  unfoldable pub store_regeneration :
      Caller → ℕ → BriefContent → List StoredBriefEvidence → Program (Unit {0})
  store_regeneration c version content evidence = do
    elsewhere s for_database
    now ← new_date s.outside
    affected ← update_at c.user_id c.draft_id version (set_regenerated content evidence version now)
    assert_update_succeeded c.user_id c.draft_id version affected

  -- The checks are made again, because a publisher can reserve the draft meanwhile.
  unfoldable pub persist_regeneration :
      Caller → ℕ → BriefContent → List StoredBriefEvidence → Program (Unit {0})
  persist_regeneration c version content evidence = do
    d ← locked_regeneration_draft c version
    store_regeneration c version content evidence

  -- The sources are fresh: the brief is generated over them, and stored.
  unfoldable pub regenerate_over :
      Caller
      → RegenerateBriefDraft
      → JiraDraftContext
      → List TransientEvidence
      → Program BriefDraftView
  regenerate_over c dto context selected = do
    output ← generate_from s dto.instruction selected
    content ← content_from_ai s.outside output
    masked ← mask_content s content
    persist_regeneration c dto.optimistic_version masked (evidence_from_ai selected output content)
    find_draft c.user_id c.draft_id

  unfoldable pub regenerate_fresh :
      Caller
      → RegenerateBriefDraft
      → SelectedEvidenceIds
      → JiraDraftContext
      → Program BriefDraftView
  regenerate_fresh c dto ids context = do
    jira ← selected_jira_evidence context ids.jira
    pages ← collect_confluence s c.user_id ids.confluence c.correlation_id
    confluence ← selected_confluence_evidence context pages ids.confluence
    regenerate_over c dto context (jira ++ confluence)

  unfoldable pub regenerate_draft : Caller → RegenerateBriefDraft → Program BriefDraftView
  regenerate_draft c dto = do
    d ← locked_regeneration_draft c dto.optimistic_version
    ids ← selected_evidence_ids (selection_of dto d)
    context ← collect_regeneration_jira_context c d dto.optimistic_version
    metadata ← collect_regeneration_confluence_metadata c d dto.optimistic_version context
    assert_regeneration_freshness d dto.optimistic_version
        (regeneration_freshness_status d context metadata)
    regenerate_fresh c dto ids context
