-- ===== src/Publication/Service/Queries.antt =====
-- publication.service.ts: the previews, and the queries on stored publications.
use work_copilot.Base.{
  ℕ, String, Bool, false, Option, none, some, List, [], ◌∷◌, ◌++◌, ◌==◌, if◌then◌else◌, map, eqb,
  get_or, is_empty,
}
use work_copilot.Failure.{not_found}
use work_copilot.Publication.Types.{
  PublicationStatus, confluence, jira, child_tasks, BriefPublication, PublicationStepStatus,
  PublicationErrorCode,
}
use work_copilot.Publication.World.{
  Outside, JiraPublicationPreview, ChildTasksPublicationPreview, ConfluencePublicationPreview,
}
use work_copilot.Publication.World.Program.{Program, ◌>>=◌, ◌>>◌, pure, gets, or_throw, lift}
use work_copilot.Brief.Types.{WorkBriefDraft}
use work_copilot.Publication.Service.Commands.{Target}
use work_copilot.Publication.Service.Publish.{Previewed, preview_confluence_now}
use work_copilot.Publication.Service.Steps.{advance_approval_revision}
use work_copilot.Publication.Safety.{
  assess_publication_deletion_safety, DraftDeletionAssessment, stored_publication, stored_step,
  StoredPublicationForDeletion, StoredPublicationStepForDeletion,
}
use work_copilot.Publication.Service.Present.{
  BriefPublicationView, recover_publication_from_steps, present_recovered,
}
use work_copilot.Publication.Service.Initial.{publications_of, steps_of_all}
use work_copilot.Publication.Service.Store.{
  find_owned_draft, latest_publication_for_draft, find_publication, find_active_publish_profile,
}
use work_copilot.Publication.Service.Guards.{
  assert_safe_draft_content, assert_publication_draft_version, assert_confluence_succeeded,
  assert_jira_succeeded, assert_ready_for_publication,
}
use work_copilot.Publication.Service.Run.{looked_up}

pub record StoredPublicationSummary : Type 0 where
  pub draft_id : String
  pub id : String
  pub status : PublicationStatus
  pub external_write_performed : Bool

-- A row of the query: a publication beside one of its steps, or beside none.
pub record StoredPublicationRow : Type 0 where
  pub publication : StoredPublicationForDeletion
  pub step_publication_id : Option String
  pub step_status : Option PublicationStepStatus
  pub step_provider_object_id : Option String
  pub step_error_code : Option PublicationErrorCode

pub record StoredSummaryGroup : Type 0 where
  pub latest : StoredPublicationForDeletion
  pub publications : List (String × StoredPublicationForDeletion)
  pub steps : List StoredPublicationStepForDeletion

-- `Map.set`: a key keeps its place.
abbrev pub map_set {ℓ} : {A : Type ℓ} → String → A → List (String × A) → List (String × A)
map_set k a [] = (k, a) ∷ []
map_set k a ((j, b) ∷ m) = if j == k then (j, a) ∷ m else (j, b) ∷ map_set k a m

abbrev pub step_of_row :
    Option String
    → Option PublicationStepStatus
    → StoredPublicationRow
    → List StoredPublicationStepForDeletion
step_of_row (some i) (some status) row =
    if i == ""
    then []
    else record {
      publication_id = i;
      status = status;
      provider_object_id = row.step_provider_object_id;
      error_code = row.step_error_code;
    }
      ∷ []
step_of_row _ _ row = []

abbrev pub group_row :
    StoredPublicationRow → List (String × StoredSummaryGroup) → List (String × StoredSummaryGroup)
group_row row grouped =
    let p = row.publication in
    let current =
      get_or (looked_up p.draft_id grouped)
        (record { latest = p; publications = []; steps = [] }) in
    map_set p.draft_id
      (record current {
        publications = map_set p.id p current.publications;
        steps = current.steps ++ step_of_row row.step_publication_id row.step_status row;
      })
      grouped

unfoldable pub group_rows :
    List (String × StoredSummaryGroup)
    → List StoredPublicationRow
    → List (String × StoredSummaryGroup)
group_rows grouped [] = grouped
group_rows grouped (row ∷ rows) = group_rows (group_row row grouped) rows

abbrev pub entry_value {ℓ} : {A : Type ℓ} → String × A → A
entry_value (k, a) = a

abbrev pub summarise : String × StoredSummaryGroup → String × StoredPublicationSummary
summarise (i, g) = (
  i,
  record {
    draft_id = i;
    id = g.latest.id;
    status = g.latest.status;
    external_write_performed =
        (assess_publication_deletion_safety (map entry_value g.publications)
          g.steps).external_write_performed;
  },
)

-- The summaries of the rows that the query returned, the latest publication of a draft first.
unfoldable pub find_latest_stored_summaries :
    List StoredPublicationRow → List (String × StoredPublicationSummary)
unfolding group_rows
find_latest_stored_summaries rows = map summarise (group_rows [] rows)

-- `assessDraftDeletion`: every publication of the draft counts, not the latest one alone.
unfoldable pub assess_draft_deletion : String → Program DraftDeletionAssessment
assess_draft_deletion i = do
  ps ← gets (publications_of i)
  steps ← gets (steps_of_all ps)
  pure (
      if is_empty ps
      then record { publishing = false; external_write_performed = false }
      else assess_publication_deletion_safety (map stored_publication ps) (map stored_step steps))

module _ (o : Outside) where
  -- A first preview is at revision one, and a later one gets a revision of its own.
  unfoldable pub preview_revision : WorkBriefDraft → Option BriefPublication → Program ℕ
  preview_revision d none = pure 1
  preview_revision d (some p) =
      if eqb p.draft_version d.optimistic_version
      then advance_approval_revision o p confluence
      else pure 1

  unfoldable pub preview_confluence : Target → Program (Previewed ConfluencePublicationPreview)
  preview_confluence t = do
    d ← find_owned_draft t.user_id t.draft_id
    profile ← find_active_publish_profile d
    assert_safe_draft_content o d.masked_brief
    latest ← latest_publication_for_draft d.id
    revision ← preview_revision d latest
    preview ← preview_confluence_now o t d profile
    pure (record { preview = preview; approval_revision = revision })

  unfoldable pub preview_jira : Target → Program (Previewed JiraPublicationPreview)
  preview_jira t = do
    d ← find_owned_draft t.user_id t.draft_id
    p ← find_publication d t.publication_id
    r ← recover_publication_from_steps o p d
    assert_publication_draft_version r.publication d
    assert_confluence_succeeded r.steps
    revision ← advance_approval_revision o r.publication jira
    preview ← lift (o.preview_jira d (record (r.publication) { approval_revision = revision }))
    pure (record { preview = preview; approval_revision = revision })

  unfoldable pub preview_child_tasks : Target → Program (Previewed ChildTasksPublicationPreview)
  preview_child_tasks t = do
    d ← find_owned_draft t.user_id t.draft_id
    p ← find_publication d t.publication_id
    r ← recover_publication_from_steps o p d
    assert_publication_draft_version r.publication d
    assert_jira_succeeded r.steps
    assert_ready_for_publication o t.user_id d t.correlation_id
    profile ← find_active_publish_profile d
    revision ← advance_approval_revision o r.publication child_tasks
    preview ←
        lift (
          o.preview_child_tasks d (record (r.publication) { approval_revision = revision }) profile)
    pure (record { preview = preview; approval_revision = revision })

  unfoldable pub find_latest : Target → Program BriefPublicationView
  find_latest t = do
    d ← find_owned_draft t.user_id t.draft_id
    latest ← latest_publication_for_draft t.draft_id
    p ← or_throw latest (not_found "Brief publication was not found.")
    r ← recover_publication_from_steps o p d
    pure (present_recovered r)
