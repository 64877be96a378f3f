-- ===== src/Publication/Phases.antt =====
-- publication.service.ts: the phases of a publication, read off its steps.
pub mod Status
use work_copilot.Base.{
  String, Bool, true, false, Option, none, some, List, [], ◌∷◌, ◌==◌, ◌&&◌, ◌||◌, if◌then◌else◌,
  any, all, filter, map, not, is_empty, append,
}
use work_copilot.Publication.Types.{
  PublicationStatus, PublicationPhase, confluence, jira, child_tasks, PublicationStep,
  BriefPublication, is_phase, is_needs_review, is_running, is_succeeded, truthy,
}
use work_copilot.Brief.Types.{BriefChildTask, WorkBriefDraft}

abbrev pub confluence_step : String
confluence_step = "confluence_page"

abbrev pub remote_link_step : String
remote_link_step = "jira_remote_link"

abbrev pub summary_comment_step : String
summary_comment_step = "jira_summary_comment"

abbrev pub child_task_step_prefix : String
child_task_step_prefix = "jira_child_task:"

unfoldable pub child_task_step_key : BriefChildTask → String
child_task_step_key task = append child_task_step_prefix task.client_task_id

unfoldable pub step_keys : PublicationPhase → List BriefChildTask → List String
step_keys confluence tasks = confluence_step ∷ []
step_keys jira tasks = remote_link_step ∷ summary_comment_step ∷ []
step_keys child_tasks tasks = map child_task_step_key tasks

unfoldable pub selected_child_tasks : WorkBriefDraft → List BriefChildTask
selected_child_tasks draft = filter (λ task. task.selected) draft.masked_brief.child_tasks

abbrev pub in_phase : PublicationPhase → List PublicationStep → List PublicationStep
in_phase phase = filter (λ s. is_phase s.phase phase)

abbrev pub has_phase : PublicationPhase → List PublicationStep → Bool
has_phase phase = any (λ s. is_phase s.phase phase)

unfoldable pub phase_succeeded : List PublicationStep → PublicationPhase → Bool
phase_succeeded steps phase =
    let phase_steps = in_phase phase steps in
    not (is_empty phase_steps) && all (λ s. is_succeeded s.status) phase_steps

-- `laterPhaseExists` of `statusFor`.
abbrev pub later_phase_exists : PublicationPhase → List PublicationStep → Bool
later_phase_exists confluence steps = any (λ s. not (is_phase s.phase confluence)) steps
later_phase_exists jira steps = has_phase child_tasks steps
later_phase_exists child_tasks steps = false

-- The phases before this one have not all succeeded.
abbrev pub out_of_order : PublicationPhase → List PublicationStep → Bool
out_of_order confluence steps = false
out_of_order jira steps = not (phase_succeeded steps confluence)
out_of_order child_tasks steps =
    not (phase_succeeded steps confluence) || not (phase_succeeded steps jira)

-- The status of a phase all of whose steps succeeded.
abbrev pub completed : PublicationPhase → WorkBriefDraft → PublicationStatus
completed confluence draft = PublicationStatus.confluence_published
completed jira draft =
    if is_empty (selected_child_tasks draft)
    then PublicationStatus.published
    else PublicationStatus.jira_published
completed child_tasks draft = PublicationStatus.published

unfoldable pub status_for :
    List PublicationStep → PublicationPhase → WorkBriefDraft → PublicationStatus
status_for steps phase draft =
    let phase_steps = in_phase phase steps in
    if is_empty phase_steps
    then (if later_phase_exists phase steps
        then PublicationStatus.needs_review
        else PublicationStatus.pending)
    else if out_of_order phase steps
    then PublicationStatus.needs_review
    else if any (λ s. is_needs_review s.status) phase_steps
    then PublicationStatus.needs_review
    else if any (λ s. is_running s.status) phase_steps
    then PublicationStatus.publishing
    else if any (λ s. not (is_succeeded s.status)) phase_steps
    then PublicationStatus.partially_published
    else completed phase draft

unfoldable pub latest_phase : List PublicationStep → PublicationPhase
latest_phase steps =
    if has_phase child_tasks steps
    then child_tasks
    else if has_phase jira steps
    then jira
    else confluence

unfoldable pub has_invalid_phase_order : List PublicationStep → Bool
has_invalid_phase_order steps =
    (has_phase jira steps && not (phase_succeeded steps confluence))
    || (has_phase child_tasks steps
        && (not (phase_succeeded steps confluence) || not (phase_succeeded steps jira)))
