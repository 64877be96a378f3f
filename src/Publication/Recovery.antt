-- ===== src/Publication/Recovery.antt =====
-- publication.service.ts: the aggregate rehydrated from the durable results of its steps.
pub mod Settled
pub mod Idempotent
use work_copilot.Base.{
  ℕ, String, Bool, true, false, Option, none, some, List, [], ◌∷◌, ◌==◌, ◌&&◌, ◌||◌, if◌then◌else◌,
  any, not, is_some,
}
use work_copilot.Publication.Types.{
  PublicationStatus, PublicationStep, BriefPublication, is_succeeded, is_needs_review, truthy,
}
use work_copilot.Brief.Types.{WorkBriefDraft}
use work_copilot.Publication.Phases.{
  confluence_step, remote_link_step, summary_comment_step, status_for, latest_phase,
  has_invalid_phase_order,
}
use work_copilot.Publication.Claimer.{PublicationStepResult}

-- `===` on two nullable texts.
abbrev pub same_text : Option String → Option String → Bool
same_text none none = true
same_text (some a) (some b) = a == b
same_text _ _ = false

-- `if (field !== value) { field = value; changed = true; }`, and the same with
-- `value !== null &&` in front.
abbrev pub differs : Option String → Option String → Bool
differs field value = not (same_text field value)

abbrev pub overrides : Option String → Option String → Bool
overrides field value = is_some value && not (same_text field value)

abbrev pub take_over : Option String → Option String → Option String
take_over field none = field
take_over field (some v) = some v

-- The page: each field that the step knows replaces the one of the aggregate.
abbrev pub apply_page : BriefPublication → PublicationStep → Bool × BriefPublication
apply_page p s = (
  differs p.confluence_content_id s.provider_object_id
      || overrides p.confluence_page_version s.provider_object_version
      || overrides p.confluence_page_url s.provider_url
      || overrides p.confluence_content_hash s.content_hash,
  record p {
    confluence_content_id = s.provider_object_id;
    confluence_page_version = take_over p.confluence_page_version s.provider_object_version;
    confluence_page_url = take_over p.confluence_page_url s.provider_url;
    confluence_content_hash = take_over p.confluence_content_hash s.content_hash;
  },
)

unfoldable pub apply_step_result : BriefPublication → PublicationStep → Bool × BriefPublication
apply_step_result p s =
    if not (is_succeeded s.status) || not (truthy s.provider_object_id)
    then (false, p)
    else if s.step_key == confluence_step
    then apply_page p s
    else if (s.step_key == remote_link_step) && differs p.jira_remote_link_id s.provider_object_id
    then (true, record p { jira_remote_link_id = s.provider_object_id })
    else if (s.step_key == summary_comment_step)
        && differs p.jira_summary_comment_id s.provider_object_id
    then (true, record p { jira_summary_comment_id = s.provider_object_id })
    else (false, p)

unfoldable pub apply_step_results :
    Bool → BriefPublication → List PublicationStep → Bool × BriefPublication
apply_step_results changed p [] = (changed, p)
apply_step_results changed p (s ∷ steps) =
    let (c, p') = apply_step_result p s in apply_step_results (c || changed) p' steps

abbrev pub same_status : PublicationStatus → PublicationStatus → Bool
same_status PublicationStatus.pending PublicationStatus.pending = true
same_status PublicationStatus.publishing PublicationStatus.publishing = true
same_status PublicationStatus.confluence_published PublicationStatus.confluence_published = true
same_status PublicationStatus.jira_published PublicationStatus.jira_published = true
same_status PublicationStatus.published PublicationStatus.published = true
same_status PublicationStatus.partially_published PublicationStatus.partially_published = true
same_status PublicationStatus.needs_review PublicationStatus.needs_review = true
same_status _ _ = false

abbrev pub is_review_status : PublicationStatus → Bool
is_review_status PublicationStatus.needs_review = true
is_review_status _ = false

-- The recovered status, and when the review of the publication became required.
unfoldable pub settle_status :
    List PublicationStep → WorkBriefDraft → ℕ → Bool × BriefPublication → Bool × BriefPublication
settle_status steps draft now (changed, p) =
    let invalid = has_invalid_phase_order steps in
    let status =
      if invalid
      then PublicationStatus.needs_review
      else status_for steps (latest_phase steps) draft in
    let moved = not (same_status p.status status) in
    let opens = invalid && not (is_some p.review_required_at) in
    let closes =
      not invalid
      && not (is_review_status status)
      && not (any (λ s. is_needs_review s.status) steps)
      && is_some p.review_required_at in
    (
      moved || opens || closes || changed,
      record p {
        status = status;
        review_required_at =
            if opens then some now else if closes then none else p.review_required_at;
      },
    )

-- `recoverPublicationFromSteps` up to its save: whether anything changed, and the aggregate.
unfoldable pub recover_publication :
    List PublicationStep → WorkBriefDraft → ℕ → BriefPublication → Bool × BriefPublication
recover_publication steps draft now p =
    settle_status steps draft now (apply_step_results false p steps)

-- `writeResultFromStep`: a text that is empty is left out.
abbrev pub kept_text : Option String → Option String
kept_text none = none
kept_text (some t) = if t == "" then none else some t

abbrev pub result_of : PublicationStep → Option String → Option PublicationStepResult
result_of s none = none
result_of s (some object) =
    if not (is_succeeded s.status) || (object == "")
    then none
    else some (record {
      provider_object_id = object;
      provider_object_version = kept_text s.provider_object_version;
      provider_url = kept_text s.provider_url;
      content_hash = kept_text s.content_hash;
    })

unfoldable pub write_result_from_step : PublicationStep → Option PublicationStepResult
write_result_from_step s = result_of s s.provider_object_id
