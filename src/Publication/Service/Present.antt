-- ===== src/Publication/Service/Present.antt =====
-- publication.service.ts: recovery with its save, and the view of a publication.
use work_copilot.Base.{
  ℕ, String, Bool, Option, none, some, List, [], ◌∷◌, ◌==◌, if◌then◌else◌, ◌&&◌, ◌||◌, not, any,
  find, is_some, map,
}
use work_copilot.Failure.{not_found}
use work_copilot.Publication.Types.{
  PublicationStatus, PublicationPhase, PublicationStepStatus, PublicationExecutionMode,
  PublicationErrorCode, PublicationStep, BriefPublication, is_needs_review, is_failed,
}
use work_copilot.Publication.World.{Outside}
use work_copilot.Publication.World.Program.{Program, ◌>>=◌, pure, gets, new_date, or_throw}
use work_copilot.Brief.Types.{WorkBriefDraft}
use work_copilot.Publication.Service.Store.{steps_for, draft_for_publication, touch_publication}
use work_copilot.Publication.Recovery.{recover_publication, same_status}
use work_copilot.Publication.Safety.{
  DraftDeletionAssessment, assess_publication_deletion_safety, stored_publication, stored_step,
}
use work_copilot.Publication.Phases.{has_invalid_phase_order}

pub record PublicationStepView : Type 0 where
  pub key : String
  pub phase : PublicationPhase
  pub status : PublicationStepStatus
  pub attempts : ℕ
  pub error_code : Option PublicationErrorCode
  pub retryable : Bool

pub record ConfluencePageView : Type 0 where
  pub id : String
  pub version : Option String
  pub url : Option String
  pub content_hash : Option String

pub record BriefPublicationView : Type 0 where
  pub id : String
  pub draft_id : String
  pub draft_version : ℕ
  pub status : PublicationStatus
  pub execution_mode : PublicationExecutionMode
  pub external_write_performed : Bool
  pub confluence_page : Option ConfluencePageView
  pub can_retry : Bool
  pub requires_review : Bool
  pub steps : List PublicationStepView
  pub updated_at : ℕ

abbrev pub step_view : PublicationStep → PublicationStepView
step_view s = record {
  key = s.step_key;
  phase = s.phase;
  status = s.status;
  attempts = s.attempts;
  error_code = s.error_code;
  retryable = is_failed s.status;
}

-- No page is shown for an identifier that is missing or empty.
abbrev pub page_view : BriefPublication → Option String → Option ConfluencePageView
page_view p none = none
page_view p (some i) =
    if i == ""
    then none
    else some (record {
      id = i;
      version = p.confluence_page_version;
      url = p.confluence_page_url;
      content_hash = p.confluence_content_hash;
    })

-- The guard of deletion on this publication alone.
abbrev pub assessment_of : BriefPublication → List PublicationStep → DraftDeletionAssessment
assessment_of p steps =
    assess_publication_deletion_safety (stored_publication p ∷ []) (map stored_step steps)

unfoldable pub present_with : BriefPublication → List PublicationStep → BriefPublicationView
present_with p steps = record {
  id = p.id;
  draft_id = p.draft_id;
  draft_version = p.draft_version;
  status = p.status;
  execution_mode = p.execution_mode;
  external_write_performed = (assessment_of p steps).external_write_performed;
  confluence_page = page_view p p.confluence_content_id;
  can_retry = not (same_status p.status PublicationStatus.published);
  requires_review =
      is_some p.review_required_at
      || same_status p.status PublicationStatus.needs_review
      || any (λ s. is_needs_review s.status) steps;
  steps = map step_view steps;
  updated_at = p.updated_at;
}

-- `present(publication)` without loaded steps reads them.
unfoldable pub present : BriefPublication → Program BriefPublicationView
present p = do steps ← steps_for p.id; pure (present_with p steps)

pub record Recovered : Type 0 where
  pub publication : BriefPublication
  pub steps : List PublicationStep

-- The clock is read only if a review is opened.
abbrev pub review_time : Outside → List PublicationStep → BriefPublication → Program ℕ
review_time o steps p =
    if has_invalid_phase_order steps && not (is_some p.review_required_at)
    then new_date o
    else gets λ w. w.clock

unfoldable pub recover_with :
    Outside → BriefPublication → WorkBriefDraft → List PublicationStep → Program Recovered
recover_with o p d steps = do
  now ← review_time o steps p
  let (changed, q) = recover_publication steps d now p
  if changed
      then (do saved ← touch_publication o q; pure (record { publication = saved; steps = steps }))
      else pure (record { publication = q; steps = steps })

unfoldable pub recover_publication_from_steps :
    Outside → BriefPublication → WorkBriefDraft → Program Recovered
recover_publication_from_steps o p d = do steps ← steps_for p.id; recover_with o p d steps

unfoldable pub present_recovered : Recovered → BriefPublicationView
present_recovered r = present_with r.publication r.steps

unfoldable pub present_latest_publication : Outside → String → Program BriefPublicationView
present_latest_publication o i = do
  found ← gets (λ w. find (λ p. p.id == i) w.publications)
  p ← or_throw found (not_found "Brief publication was not found.")
  steps ← steps_for p.id
  d ← draft_for_publication p
  recovered ← recover_with o p d steps
  pure (present_recovered recovered)
