-- ===== src/Publication/Service/Guards.antt =====
-- publication.service.ts: the checks of a command's input.
use work_copilot.Base.{
  ℕ, String, Bool, false, Option, none, some, List, [], ◌∷◌, ◌++◌, ◌==◌, if◌then◌else◌, ◌&&◌, ◌||◌,
  not, any, find, get_or, eqb, ltb, trim, map, text_length, decimal, max, append,
}
use work_copilot.Failure.{conflict, version_conflict, bad_request}
use work_copilot.Publication.Types.{
  PublicationStep, BriefPublication, PublicationPhase, is_phase, is_needs_review, is_succeeded,
}
use work_copilot.Publication.World.{Outside}
use work_copilot.Publication.World.Program.{Program, ◌>>◌, pure, throw, require, lift, or_throw}
use work_copilot.Brief.Types.{WorkBriefDraft, BriefContent, EvidenceCitation, BriefChildTask}
use work_copilot.Publication.Phases.{remote_link_step, confluence_step, summary_comment_step}

-- `PhaseInput`: what the user approved.
pub record PhaseInput : Type 0 where
  pub draft_version : ℕ
  pub preview_hash : String
  pub approved : Bool
  pub approval_revision : Option ℕ
  pub idempotency_key : Option String

abbrev pub max_idempotency_key_length : ℕ
max_idempotency_key_length = 256

unfoldable pub assert_approval : Bool → Program (Unit {0})
assert_approval approved = require approved (conflict "DRAFT_APPROVAL_REQUIRED")

unfoldable pub assert_draft_version : WorkBriefDraft → ℕ → Program (Unit {0})
assert_draft_version d expected =
    require (eqb d.optimistic_version expected)
      (version_conflict d.optimistic_version (some expected))

unfoldable pub assert_publication_draft_version :
    BriefPublication → WorkBriefDraft → Program (Unit {0})
assert_publication_draft_version p d =
    require (eqb p.draft_version d.optimistic_version)
      (version_conflict d.optimistic_version (some p.draft_version))

unfoldable pub assert_preview : String → String → Program (Unit {0})
assert_preview provided expected =
    require (not (provided == "") && (provided == expected)) (conflict "PUBLICATION_PREVIEW_STALE")

-- `idempotencyKey`: the trimmed key, if it is neither empty nor too long.
unfoldable pub idempotency_key : Option String → Program String
idempotency_key value =
    let key = trim (get_or value "") in
    if (key == "") || ltb max_idempotency_key_length (text_length key)
    then throw (bad_request "Idempotency-Key is required.")
    else pure key

unfoldable pub idempotency_key_hash : Outside → ℕ → String → String
idempotency_key_hash o user key = o.sha256 (append (decimal user) (append ":" key))

unfoldable pub child_task_idempotency_hash : Outside → String → String → String
child_task_idempotency_hash o base key = o.sha256 (append base (append ":" key))

abbrev pub cited_texts : List EvidenceCitation → List String
cited_texts = map λ c. c.text

abbrev pub task_texts : List BriefChildTask → List String
task_texts [] = []
task_texts (t ∷ ts) = t.text ∷ t.summary ∷ task_texts ts

unfoldable pub assert_safe_draft_content : Outside → BriefContent → Program (Unit {0})
assert_safe_draft_content o c = lift (
    o.assert_safe_model_output (
      c.title.text
      ∷ c.summary.text
      ∷ (cited_texts c.requirements
          ++ (cited_texts c.acceptance_criteria
              ++ (cited_texts c.risks ++ (cited_texts c.next_steps ++ task_texts c.child_tasks))))))

unfoldable pub assert_ready_for_publication :
    Outside → ℕ → WorkBriefDraft → String → Program (Unit {0})
assert_ready_for_publication o user d correlation w =
    (o.assert_draft_publish_allowed w user d.id correlation, w)

abbrev pub succeeded_key : List PublicationStep → String → Bool
succeeded_key steps key = any_succeeded (find (λ s. s.step_key == key) steps)
  where
    any_succeeded : Option PublicationStep → Bool
    any_succeeded none = false
    any_succeeded (some s) = is_succeeded s.status

unfoldable pub assert_confluence_succeeded : List PublicationStep → Program (Unit {0})
assert_confluence_succeeded steps =
    require (succeeded_key steps confluence_step) (conflict "CONFLUENCE_PUBLICATION_REQUIRED")

unfoldable pub assert_jira_succeeded : List PublicationStep → Program (Unit {0})
assert_jira_succeeded steps =
    require (succeeded_key steps remote_link_step && succeeded_key steps summary_comment_step)
      (conflict "JIRA_PUBLICATION_REQUIRED")

-- The revision that an input approves: the current one, and no other.
unfoldable pub approval_revision_for_input : PhaseInput → BriefPublication → Program ℕ
approval_revision_for_input input p =
    let current = max p.approval_revision 1 in
    do
      require (eqb (get_or input.approval_revision current) current)
          (conflict "PUBLICATION_PREVIEW_STALE")
      pure (get_or input.approval_revision current)

unfoldable pub phase_needs_review : List PublicationStep → PublicationPhase → Bool
phase_needs_review steps phase = any (λ s. is_phase s.phase phase && is_needs_review s.status) steps

unfoldable pub required_step : List PublicationStep → String → Program PublicationStep
required_step steps key =
    or_throw (find (λ s. s.step_key == key) steps) (conflict "PUBLICATION_STEPS_INVALID")
