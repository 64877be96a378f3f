-- ===== src/Drafts/Selection.antt =====
-- work-briefs.service.ts: the evidence that a request selects, among what its sources give.
pub mod Sets
use work_copilot.Base.{
  String, Bool, true, false, Option, none, some, List, [], ◌∷◌, ◌==◌, if◌then◌else◌, filter, length,
  is_empty, eqb, starts_with, ◌&&◌, not,
}
use work_copilot.Failure.{bad_request, conflict}
use work_copilot.Publication.Types.{truthy}
use work_copilot.Publication.World.Program.{Program, ◌>>=◌, ◌>>◌, pure, throw, require}
use work_copilot.Brief.Citations.{includes, is_distinct}
use work_copilot.Drafts.Types.{
  EvidenceAccessStatus, TransientEvidence, JiraDraftContext, ConfluenceDraftContext,
}

pub record SelectedEvidenceIds : Type 0 where
  pub jira : List String
  pub confluence : List String

abbrev pub invalid_selection : {A : Type 0} → Program A
invalid_selection = throw (bad_request "Selected evidence is invalid.")

-- By provider, in the order of the request.
unfoldable pub split_ids : List String → Program SelectedEvidenceIds
split_ids [] = pure (record { jira = []; confluence = [] })
split_ids (i ∷ is) =
    if starts_with "jira:" i
    then (do rest ← split_ids is; pure (record rest { jira = i ∷ rest.jira }))
    else if starts_with "confluence:" i
    then (do rest ← split_ids is; pure (record rest { confluence = i ∷ rest.confluence }))
    else invalid_selection

unfoldable pub selected_evidence_ids : List String → Program SelectedEvidenceIds
unfolding split_ids
selected_evidence_ids is = if is_distinct is then split_ids is else invalid_selection

abbrev pub is_accessible : EvidenceAccessStatus → Bool
is_accessible EvidenceAccessStatus.accessible = true
is_accessible _ = false

-- `new Set(ids)`, in the order of the first occurrences.
abbrev pub set_of : List String → List String
set_of [] = []
set_of (i ∷ is) = i ∷ filter (λ j. not (j == i)) (set_of is)

-- The items with an identifier of the selection, if there is one for each.
unfoldable pub chosen : List String → List TransientEvidence → Program (List TransientEvidence)
chosen is items =
    let selected = filter (λ item. includes is item.evidence.id) items in
    if eqb (length selected) (length (set_of is)) then pure selected else invalid_selection

unfoldable pub selected_jira_evidence :
    JiraDraftContext → List String → Program (List TransientEvidence)
unfolding chosen
selected_jira_evidence context is = do
  require
      (is_accessible context.access_status
        && truthy context.profile_id
        && truthy context.source_jira_id
        && truthy context.source_jira_version)
      (conflict "Selected Jira evidence is no longer accessible.")
  chosen is context.evidence

-- `confluenceContext.profileId !== jiraContext.profileId`.
abbrev pub same_text : Option String → Option String → Bool
same_text (some a) (some b) = a == b
same_text none none = true
same_text _ _ = false

unfoldable pub selected_confluence_evidence :
    JiraDraftContext
    → Option ConfluenceDraftContext
    → List String
    → Program (List TransientEvidence)
unfolding chosen
selected_confluence_evidence jira none is =
    if is_empty is
    then pure []
    else throw (conflict "Selected Confluence evidence is no longer accessible.")
selected_confluence_evidence jira (some context) is = if is_empty is then pure [] else (do
  require
      (is_accessible context.access_status
        && truthy context.profile_id
        && same_text context.profile_id jira.profile_id)
      (conflict "Selected Confluence evidence is no longer accessible.")
  chosen is context.evidence)
