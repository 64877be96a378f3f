-- ===== src/Publication/Phases/Status.antt =====
-- publication.service.ts: what the status of a publication says of its steps.
use work_copilot.Base.{
  Bool, true, false, List, [], ◌∷◌, ◌&&◌, if◌then◌else◌, ◌≡◌, refl, arith, any, all, not, is_empty,
  empty-filter, any-excluded, any-not,
}
use work_copilot.Publication.Types.{
  PublicationStatus, PublicationPhase, confluence, jira, child_tasks, PublicationStep, is_succeeded,
  is_phase, is_needs_review, is_running,
}
use work_copilot.Brief.Types.{WorkBriefDraft}
use work_copilot.Publication.Phases.{
  status_for, latest_phase, has_invalid_phase_order, phase_succeeded, in_phase, has_phase,
  selected_child_tasks,
}

-- The status that recovery computes.
abbrev pub recovered_status : List PublicationStep → WorkBriefDraft → PublicationStatus
recovered_status steps draft =
    if has_invalid_phase_order steps
    then PublicationStatus.needs_review
    else status_for steps (latest_phase steps) draft

-- An invalid order of phases needs no case of its own: the latest phase reports it.
pub recovered_status-status_for :
    (steps : List PublicationStep) (draft : WorkBriefDraft)
    → recovered_status steps draft ≡ status_for steps (latest_phase steps) draft
unfolding status_for latest_phase has_invalid_phase_order
recovered_status-status_for steps draft = ground (
  arith,
  empty-filter (λ s. is_phase s.phase jira) steps,
  empty-filter (λ s. is_phase s.phase child_tasks) steps,
)

abbrev pub all_succeeded : List PublicationStep → Bool
all_succeeded = all (λ s. is_succeeded s.status)

-- What the tests of `statusFor` on the steps of one phase say of their success.
record PhaseFacts (phase : PublicationPhase) (steps : List PublicationStep) : Type 0 where
  present : is_empty (in_phase phase steps) ≡ not (has_phase phase steps)
  succeeded :
      phase_succeeded steps phase ≡ (has_phase phase steps && all_succeeded (in_phase phase steps))
  reviewed :
      all_succeeded (in_phase phase steps) ≡ true
      → any (λ s. is_needs_review s.status) (in_phase phase steps) ≡ false
  idle :
      all_succeeded (in_phase phase steps) ≡ true
      → any (λ s. is_running s.status) (in_phase phase steps) ≡ false
  done :
      any (λ s. not (is_succeeded s.status)) (in_phase phase steps)
      ≡ not (all_succeeded (in_phase phase steps))

phase_facts : (phase : PublicationPhase) (steps : List PublicationStep) → PhaseFacts phase steps
unfolding phase_succeeded
phase_facts phase steps = record {
  present = empty-filter (λ s. is_phase s.phase phase) steps;
  succeeded = ground (arith, empty-filter (λ s. is_phase s.phase phase) steps);
  reviewed = any-excluded _ _ (in_phase phase steps) (λ s e. ground arith);
  idle = any-excluded _ _ (in_phase phase steps) (λ s e. ground arith);
  done = any-not (λ s. is_succeeded s.status) (in_phase phase steps);
}

-- Every phase that the publication owes has succeeded.
abbrev pub all_delivered : List PublicationStep → WorkBriefDraft → Bool
all_delivered steps draft =
    phase_succeeded steps confluence
    && phase_succeeded steps jira
    && (if has_phase child_tasks steps
        then phase_succeeded steps child_tasks
        else is_empty (selected_child_tasks draft))

abbrev pub is_published : PublicationStatus → Bool
is_published PublicationStatus.published = true
is_published _ = false

-- Recovery calls a publication published exactly when the steps of the page, those of the issue
-- and those of the child tasks have all succeeded, or no child task is selected and none was begun.
pub published-all_delivered :
    (steps : List PublicationStep) (draft : WorkBriefDraft)
    → is_published (recovered_status steps draft) ≡ all_delivered steps draft
unfolding status_for latest_phase has_invalid_phase_order
published-all_delivered steps draft =
    ground
      (arith, phase_facts confluence steps, phase_facts jira steps, phase_facts child_tasks steps)

all-phases :
    (steps : List PublicationStep)
    → all_succeeded steps ≡ (
        all_succeeded (in_phase confluence steps)
        && all_succeeded (in_phase jira steps)
        && all_succeeded (in_phase child_tasks steps))
all-phases [] = refl
all-phases (s ∷ steps) = ground (arith, all-phases steps)

all_of_absent :
    (phase : PublicationPhase) (steps : List PublicationStep)
    → has_phase phase steps ≡ false
    → all_succeeded (in_phase phase steps) ≡ true
all_of_absent phase [] h = refl
all_of_absent phase (s ∷ steps) h = ground (arith, all_of_absent phase steps)

-- If recovery calls a publication published, every one of its steps has succeeded.
pub published-all_succeeded :
    (steps : List PublicationStep) (draft : WorkBriefDraft)
    → is_published (recovered_status steps draft) ≡ true
    → all_succeeded steps ≡ true
published-all_succeeded steps draft h = ground (
  arith,
  published-all_delivered steps draft,
  all-phases steps,
  phase_facts confluence steps,
  phase_facts jira steps,
  phase_facts child_tasks steps,
  all_of_absent child_tasks steps,
)
