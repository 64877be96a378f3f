-- ===== src/Drafts/Refresh.antt =====
-- work-briefs.service.ts: a draft is compared with its sources, and what changed is recorded.
use work_copilot.Base.{
  ℕ, ◌+◌, String, Bool, true, false, Option, none, some, List, [], ◌∷◌, ◌++◌, ◌==◌, ◌&&◌, ◌||◌, eqb,
  any, if◌then◌else◌, length, is_empty, map, filter, get_or, not, find,
}
use work_copilot.Failure.{version_conflict}
use work_copilot.Publication.World.Program.{Program, ◌>>=◌, ◌>>◌, pure, ask, require, new_date}
use work_copilot.Publication.Service.Store.{find_owned_draft}
use work_copilot.Brief.Types.{
  DraftFreshnessStatus, DraftStatus, WorkBriefDraft, StoredBriefEvidence, EvidenceProvider,
}
use work_copilot.Brief.Citations.{includes}
use work_copilot.Webhooks.Freshness.{same_provider}
use work_copilot.Drafts.Types.{
  BriefDraftView, Caller, JiraDraftContext, ConfluenceEvidenceContext, NormalizedEvidence,
  TransientEvidence, Sources, for_sources,
}
use work_copilot.Drafts.Content.{elsewhere, stored_evidence}
use work_copilot.Drafts.Selection.{is_accessible, same_text}
use work_copilot.Drafts.Present.{present_draft, commit}
use work_copilot.Drafts.Commands.{collect_jira, evidence_id_of}

-- The values that a refresh sets; `source_jira_version` is left alone if it is none, which no
-- accessible issue has.
pub record RefreshValues : Type 0 where
  pub evidence : List StoredBriefEvidence
  pub freshness_status : DraftFreshnessStatus
  pub status : DraftStatus
  pub source_jira_version : Option String

abbrev pub set_refreshed : RefreshValues → ℕ → ℕ → WorkBriefDraft → WorkBriefDraft
set_refreshed v version now d = record d {
  evidence = v.evidence;
  freshness_status = v.freshness_status;
  status = v.status;
  source_jira_version = get_or v.source_jira_version d.source_jira_version;
  optimistic_version = version + 1;
  updated_at = now;
  updated_micros = 0;
}

abbrev pub of_provider : EvidenceProvider → StoredBriefEvidence → Bool
of_provider provider e = same_provider e.provider provider

abbrev pub stored_ids : EvidenceProvider → WorkBriefDraft → List String
stored_ids provider d = map evidence_id_of (filter (of_provider provider) d.evidence)

abbrev pub evidence_of : TransientEvidence → NormalizedEvidence
evidence_of item = item.evidence

-- `new Map(…).get(id)`: the last one with the identifier.
abbrev pub current_evidence : String → List NormalizedEvidence → Option NormalizedEvidence
current_evidence i [] = none
current_evidence i (e ∷ es) = elim (current_evidence i es) [
  | some later ↦ some later
  | none ↦ if e.id == i then some e else none
]

abbrev pub pages_of : Option ConfluenceEvidenceContext → List NormalizedEvidence
pages_of none = []
pages_of (some context) = context.evidence

-- The pages were read, from another profile or not at all.
abbrev pub pages_inaccessible : WorkBriefDraft → Option ConfluenceEvidenceContext → Bool
pages_inaccessible d none = false
pages_inaccessible d (some context) =
    not (is_accessible context.access_status)
    || not (same_text context.profile_id (some d.profile_id))

-- The Jira evidence of the draft among what is there now.
abbrev pub current_jira : WorkBriefDraft → JiraDraftContext → List NormalizedEvidence
current_jira d context =
    filter (λ e. includes (stored_ids EvidenceProvider.jira d) e.id)
      (map evidence_of context.evidence)

unfoldable pub is_inaccessible :
    WorkBriefDraft → JiraDraftContext → Option ConfluenceEvidenceContext → Bool
is_inaccessible d context pages =
    not (is_accessible context.access_status)
    || not (same_text context.profile_id (some d.profile_id))
    || pages_inaccessible d pages
    || not (eqb (length (current_jira d context) + length (pages_of pages)) (length d.evidence))

-- A page that was not read again keeps its length.
abbrev pub refreshed : StoredBriefEvidence → Option NormalizedEvidence → StoredBriefEvidence
refreshed stored none = stored
refreshed stored (some current) =
    record (stored_evidence current stored.ai_status stored.ai_exclusion_reason) {
      excerpt_length =
          if same_provider current.provider EvidenceProvider.confluence
          then stored.excerpt_length
          else current.excerpt_length;
    }

unfoldable pub refreshed_evidence :
    List NormalizedEvidence → List StoredBriefEvidence → List StoredBriefEvidence
refreshed_evidence current stored = map (λ e. refreshed e (current_evidence e.id current)) stored

abbrev pub stored_version : List StoredBriefEvidence → String → Option String
stored_version stored i = elim (find (λ e. e.id == i) stored) [
  | none ↦ none
  | some e ↦ some e.version
]

unfoldable pub has_changed : WorkBriefDraft → JiraDraftContext → List StoredBriefEvidence → Bool
has_changed d context evidence =
    not (same_text context.source_jira_version (some d.source_jira_version))
    || any (λ e. not (same_text (stored_version d.evidence e.id) (some e.version))) evidence

abbrev pub in_draft : DraftStatus → Bool
in_draft DraftStatus.draft = true
in_draft DraftStatus.review_required = false

abbrev pub up_to_date : DraftFreshnessStatus → Bool
up_to_date DraftFreshnessStatus.current = true
up_to_date _ = false

abbrev pub is_current : WorkBriefDraft → Bool
is_current d = in_draft d.status && up_to_date d.freshness_status

module _ (s : Sources) where
  unfoldable pub apply_refresh : WorkBriefDraft → ℕ → RefreshValues → Program BriefDraftView
  apply_refresh d version values = do
    now ← new_date s.outside
    commit d.created_by_user_id d.id version (set_refreshed values version now)

  unfoldable pub collect_pages :
      ℕ → List String → String → Program (Option ConfluenceEvidenceContext)
  collect_pages user is correlation = if is_empty is then pure none else (do
    elsewhere s for_sources
    context ← ask (λ w. s.collect_evidence_metadata w user is correlation)
    pure (some context))

  -- What the comparison with the sources decides.
  unfoldable pub refresh_with :
      WorkBriefDraft
      → ℕ
      → JiraDraftContext
      → Option ConfluenceEvidenceContext
      → Program BriefDraftView
  refresh_with d version context pages =
      let evidence = refreshed_evidence (current_jira d context ++ pages_of pages) d.evidence in
      if is_inaccessible d context pages
      then apply_refresh d version (record {
        evidence = [];
        freshness_status = DraftFreshnessStatus.access_changed;
        status = DraftStatus.review_required;
        source_jira_version = none;
      })
      else if has_changed d context evidence
      then apply_refresh d version (record {
        evidence = evidence;
        freshness_status = DraftFreshnessStatus.review_required;
        status = DraftStatus.review_required;
        source_jira_version = context.source_jira_version;
      })
      else if is_current d
      then pure (present_draft d)
      else apply_refresh d version (record {
        evidence = evidence;
        freshness_status = DraftFreshnessStatus.current;
        status = DraftStatus.draft;
        source_jira_version = none;
      })

  unfoldable pub refresh_draft : Caller → ℕ → Program BriefDraftView
  refresh_draft c version = do
    d ← find_owned_draft c.user_id c.draft_id
    require (eqb d.optimistic_version version) (version_conflict d.optimistic_version none)
    context ← collect_jira s c.user_id d.source_jira_key c.correlation_id
    pages ← collect_pages c.user_id (stored_ids EvidenceProvider.confluence d) c.correlation_id
    refresh_with d version context pages
