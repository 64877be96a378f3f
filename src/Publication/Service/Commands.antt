-- ===== src/Publication/Service/Commands.antt =====
-- publication.service.ts: the commands on a publication that is there.
use work_copilot.Base.{
  ℕ, String, Bool, none, some, List, [], if◌then◌else◌, ◌&&◌, ◌||◌, not, is_some,
}
use work_copilot.Failure.{conflict}
use work_copilot.Publication.Types.{
  PublicationPhase, confluence, jira, child_tasks, PublicationStep, BriefPublication,
}
use work_copilot.Publication.World.{
  Outside, JiraPublicationPreview, ChildTasksPublicationPreview, IntegrationProfile,
}
use work_copilot.Publication.World.Program.{Program, ◌>>=◌, ◌>>◌, pure, new_date, require, lift}
use work_copilot.Brief.Types.{WorkBriefDraft}
use work_copilot.Publication.Service.Guards.{
  PhaseInput, idempotency_key, idempotency_key_hash, assert_approval, assert_ready_for_publication,
  assert_draft_version, phase_needs_review, assert_publication_draft_version,
  assert_safe_draft_content, assert_confluence_succeeded, assert_jira_succeeded, assert_preview,
  approval_revision_for_input,
}
use work_copilot.Publication.Service.Present.{
  Recovered, BriefPublicationView, present_latest_publication, recover_publication_from_steps,
  present_recovered,
}
use work_copilot.Publication.Service.Run.{RunInput, run_confluence, run_jira, run_child_tasks}
use work_copilot.Publication.Service.Store.{
  save_phase_approval, find_owned_draft, find_active_publish_profile, find_publication,
}
use work_copilot.Publication.Service.Steps.{reopen_review_steps_if_required, ensure_steps}
use work_copilot.Publication.Phases.{selected_child_tasks, phase_succeeded}

-- Who asks for what: user, draft, publication and correlation.
pub record Target : Type 0 where
  pub user_id : ℕ
  pub draft_id : String
  pub publication_id : String
  pub correlation_id : String

-- What a command has when its checks have passed.
pub record Approved (Preview : Type 0) : Type 0 where
  pub run : RunInput
  pub preview : Preview
  pub approval_revision : ℕ

module _ (o : Outside) where
  -- The checks that every phase shares: the version, the readiness, the profile, the content, the
  -- preview that the user saw, and the revision.
  unfoldable pub approve :
      {Preview : Type 0}
      → Target
      → PhaseInput
      → WorkBriefDraft
      → BriefPublication
      → (IntegrationProfile → Program Preview)
      → (Preview → String)
      → Program (Approved Preview)
  approve t input d p preview_of hash_of = do
    assert_ready_for_publication o t.user_id d t.correlation_id
    profile ← find_active_publish_profile d
    assert_safe_draft_content o d.masked_brief
    preview ← preview_of profile
    assert_preview input.preview_hash (hash_of preview)
    revision ← approval_revision_for_input input p
    pure (record {
      run = record {
        user_id = t.user_id;
        correlation_id = t.correlation_id;
        profile = profile;
        draft = d;
      };
      preview = preview;
      approval_revision = revision;
    })

  -- A reviewed phase is reopened only by an input that names its revision.
  unfoldable pub reopen_reviewed :
      PhaseInput
      → BriefPublication
      → List PublicationStep
      → PublicationPhase
      → ℕ
      → Program (Bool × List PublicationStep)
  reopen_reviewed input p steps phase revision = do
    require (not (phase_needs_review steps phase) || is_some input.approval_revision)
        (conflict "PUBLICATION_REVIEW_APPROVAL_REQUIRED")
    reopen_review_steps_if_required o p steps phase revision

  -- The record of the user's approval of the Jira phase.
  unfoldable pub approve_jira :
      Target
      → String
      → BriefPublication
      → Approved JiraPublicationPreview
      → Program BriefPublication
  approve_jira t key p a = do
    approved_at ← new_date o
    updated_at ← new_date o
    save_phase_approval (record p {
      approval_revision = a.approval_revision;
      jira_idempotency_key_hash = some key;
      jira_preview_hash = some a.preview.preview_hash;
      jira_approved_by_user_id = some t.user_id;
      jira_approved_at = some approved_at;
      updated_at = updated_at;
    })

  unfoldable pub approve_child_tasks :
      Target
      → String
      → BriefPublication
      → Approved ChildTasksPublicationPreview
      → Program BriefPublication
  approve_child_tasks t key p a = do
    approved_at ← new_date o
    updated_at ← new_date o
    save_phase_approval (record p {
      approval_revision = a.approval_revision;
      child_tasks_idempotency_key_hash = some key;
      child_tasks_preview_hash = some a.preview.preview_hash;
      child_tasks_approved_by_user_id = some t.user_id;
      child_tasks_approved_at = some approved_at;
      updated_at = updated_at;
    })

  unfoldable pub publish_jira_open :
      Target → PhaseInput → WorkBriefDraft → String → Recovered → Program BriefPublicationView
  publish_jira_open t input d key r = do
    assert_draft_version d input.draft_version
    assert_publication_draft_version r.publication d
    assert_confluence_succeeded r.steps
    a ←
        approve t input d r.publication (λ _. lift (o.preview_jira d r.publication))
          (λ v. v.preview_hash)
    (reopened, steps) ← reopen_reviewed input r.publication r.steps jira a.approval_revision
    if phase_needs_review r.steps jira && not reopened
        then present_latest_publication o r.publication.id
        else (do
          saved ← approve_jira t key r.publication a
          phase_steps ← ensure_steps o saved jira steps [] none a.approval_revision
          run_jira o saved a.run phase_steps a.preview)

  unfoldable pub publish_jira : Target → PhaseInput → Program BriefPublicationView
  publish_jira t input = do
    assert_approval input.approved
    d ← find_owned_draft t.user_id t.draft_id
    p ← find_publication d t.publication_id
    key ← idempotency_key input.idempotency_key
    r ← recover_publication_from_steps o p d
    if phase_succeeded r.steps jira
        then pure (present_recovered r)
        else publish_jira_open t input d (idempotency_key_hash o t.user_id key) r

  unfoldable pub publish_child_tasks_open :
      Target → PhaseInput → WorkBriefDraft → String → Recovered → Program BriefPublicationView
  publish_child_tasks_open t input d key r = do
    assert_draft_version d input.draft_version
    assert_publication_draft_version r.publication d
    assert_jira_succeeded r.steps
    a ←
        approve t input d r.publication
          (λ profile. lift (o.preview_child_tasks d r.publication profile)) (λ v. v.preview_hash)
    (reopened, steps) ← reopen_reviewed input r.publication r.steps child_tasks a.approval_revision
    if phase_needs_review r.steps child_tasks && not reopened
        then present_latest_publication o r.publication.id
        else (do
          saved ← approve_child_tasks t key r.publication a
          phase_steps ←
              ensure_steps o saved child_tasks steps (selected_child_tasks d) (some key)
                a.approval_revision
          run_child_tasks o saved a.run phase_steps a.preview)

  unfoldable pub publish_child_tasks : Target → PhaseInput → Program BriefPublicationView
  publish_child_tasks t input = do
    assert_approval input.approved
    d ← find_owned_draft t.user_id t.draft_id
    p ← find_publication d t.publication_id
    key ← idempotency_key input.idempotency_key
    r ← recover_publication_from_steps o p d
    if phase_succeeded r.steps child_tasks
        then pure (present_recovered r)
        else publish_child_tasks_open t input d (idempotency_key_hash o t.user_id key) r

  unfoldable pub retry_confluence_open :
      Target → PhaseInput → WorkBriefDraft → Recovered → Program BriefPublicationView
  retry_confluence_open t input d r = do
    assert_draft_version d input.draft_version
    assert_publication_draft_version r.publication d
    a ←
        approve t input d r.publication
          (λ profile w. (o.preview_confluence w t.user_id d profile t.correlation_id, w))
          (λ v. v.preview_hash)
    (reopened, steps) ← reopen_reviewed input r.publication r.steps confluence a.approval_revision
    if phase_needs_review r.steps confluence && not reopened
        then present_latest_publication o r.publication.id
        else (do
          let p = record r.publication { approval_revision = a.approval_revision }
          phase_steps ← ensure_steps o p confluence steps [] none a.approval_revision
          run_confluence o p a.run phase_steps a.preview.content_hash)

  unfoldable pub retry_confluence : Target → PhaseInput → Program BriefPublicationView
  retry_confluence t input = do
    assert_approval input.approved
    d ← find_owned_draft t.user_id t.draft_id
    p ← find_publication d t.publication_id
    key ← idempotency_key input.idempotency_key
    r ← recover_publication_from_steps o p d
    if phase_succeeded r.steps confluence
        then pure (present_recovered r)
        else retry_confluence_open t input d r

  unfoldable pub retry : PublicationPhase → Target → PhaseInput → Program BriefPublicationView
  retry jira = publish_jira
  retry child_tasks = publish_child_tasks
  retry confluence = retry_confluence
