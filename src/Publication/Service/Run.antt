-- ===== src/Publication/Service/Run.antt =====
-- publication.service.ts: the steps of a phase executed in order, and the status that they leave.
use work_copilot.Base.{
  ℕ, String, Bool, true, Option, none, some, List, [], ◌∷◌, ◌==◌, if◌then◌else◌, ◌&&◌, ◌||◌, not,
  any, find, is_some, map, get_or, is_empty, map_some,
}
use work_copilot.Failure.{conflict}
use work_copilot.Publication.Types.{
  PublicationStatus, PublicationPhase, confluence, jira, child_tasks, PublicationStep,
  BriefPublication, PublicationErrorCode, is_needs_review, is_succeeded, is_phase,
}
use work_copilot.Publication.World.{
  Outside, upsert_confluence_brief, upsert_jira_remote_link, create_jira_summary_comment,
  create_jira_child_task, found, absent, indeterminate, PublicationGatewayContext,
  ChildTaskReconciliationEntry, ChildTasksPublicationPreview, IntegrationProfile,
  ReconciliationResult, JiraPublicationPreview,
}
use work_copilot.Publication.World.Program.{Program, ◌>>=◌, ◌>>◌, pure, gets, require}
use work_copilot.Brief.Types.{BriefChildTask, WorkBriefDraft}
use work_copilot.Publication.Execute.{
  succeeded, failed, in_progress, stale, sends, rejects, execute_step,
}
use work_copilot.Publication.Service.Present.{
  BriefPublicationView, present_latest_publication, present_with, present,
}
use work_copilot.Publication.Service.Store.{steps_for, touch_publication}
use work_copilot.Publication.Recovery.{apply_step_result, is_review_status}
use work_copilot.Publication.Service.Guards.{required_step}
use work_copilot.Publication.Phases.{
  remote_link_step, child_task_step_key, status_for, selected_child_tasks, summary_comment_step,
  confluence_step,
}
use work_copilot.Publication.Service.Steps.{put_step}

-- What every run is given.
pub record RunInput : Type 0 where
  pub user_id : ℕ
  pub correlation_id : String
  pub profile : IntegrationProfile
  pub draft : WorkBriefDraft

abbrev pub context_of : RunInput → BriefPublication → PublicationGatewayContext
context_of r p = record {
  user_id = r.user_id;
  correlation_id = r.correlation_id;
  profile = r.profile;
  operation_id = p.operation_id;
}

abbrev pub looked_up {ℓ} : {A : Type ℓ} → String → List (String × A) → Option A
looked_up k [] = none
looked_up k ((j, a) ∷ m) = if j == k then some a else looked_up k m

abbrev pub is_child_task_open : PublicationStep → Bool
is_child_task_open s = is_phase s.phase child_tasks && not (is_succeeded s.status)

module _ (o : Outside) where
  unfoldable pub finalize :
      BriefPublication → PublicationPhase → WorkBriefDraft → Program BriefPublicationView
  finalize p phase d = do
    current ← steps_for p.id
    let status = status_for current phase d
    let review =
        if not (is_review_status status) && not (any (λ s. is_needs_review s.status) current)
        then none
        else p.review_required_at
    saved ← touch_publication o (record p { status = status; review_required_at = review })
    pure (present_with saved current)

  -- The result of a step goes to the aggregate, which is saved if it changes.
  unfoldable pub save_step_result : BriefPublication → PublicationStep → Program BriefPublication
  save_step_result p s =
      let (changed, q) = apply_step_result p s in if changed then touch_publication o q else pure q

  unfoldable pub begin_publishing : BriefPublication → Program BriefPublication
  begin_publishing p = touch_publication o (record p { status = PublicationStatus.publishing })

  unfoldable pub run_confluence :
      BriefPublication → RunInput → List PublicationStep → String → Program BriefPublicationView
  run_confluence p r steps content_hash = do
    p ← begin_publishing p
    step ← required_step steps confluence_step
    (execution, step') ←
        execute_step o step
          (sends (
            upsert_confluence_brief (context_of r p) (get_or r.profile.brief_parent_page_id "")
              p.confluence_content_id r.draft.id r.draft.source_jira_key r.draft.masked_brief
              r.draft.evidence))
          (some content_hash)
    elim execution [
      | in_progress ↦ present p
      | stale ↦ present_latest_publication o p.id
      | failed ↦ finalize p confluence r.draft
      | succeeded result ↦ do saved ← save_step_result p step'; finalize saved confluence r.draft
    ]

  -- The comment on the issue follows the link.
  unfoldable pub run_summary_comment :
      BriefPublication
      → RunInput
      → List PublicationStep
      → JiraPublicationPreview
      → Program BriefPublicationView
  run_summary_comment p r steps preview = do
    comment ← required_step steps summary_comment_step
    (execution, comment') ←
        execute_step o comment
          (sends (
            create_jira_summary_comment (context_of r p) r.draft.source_jira_id
              r.draft.masked_brief.summary.text preview.page_id preview.page_url))
          none
    elim execution [
      | in_progress ↦ present p
      | stale ↦ present_latest_publication o p.id
      | failed ↦ finalize p jira r.draft
      | succeeded result ↦ do saved ← save_step_result p comment'; finalize saved jira r.draft
    ]

  unfoldable pub run_jira :
      BriefPublication
      → RunInput
      → List PublicationStep
      → JiraPublicationPreview
      → Program BriefPublicationView
  run_jira p r steps preview = do
    p ← begin_publishing p
    link ← required_step steps remote_link_step
    (execution, link') ←
        execute_step o link
          (sends (
            upsert_jira_remote_link (context_of r p) r.draft.source_jira_id preview.page_id
              preview.page_url preview.page_title))
          none
    elim execution [
      | in_progress ↦ present p
      | stale ↦ present_latest_publication o p.id
      | failed ↦ finalize p jira r.draft
      | succeeded result ↦ do
        saved ← save_step_result p link'
        run_summary_comment saved r steps preview
    ]

  -- The loop over the selected tasks, with the objects that are known to exist.
  unfoldable pub run_tasks :
      BriefPublication
      → RunInput
      → List PublicationStep
      → List (String × ChildTaskReconciliationEntry)
      → List BriefChildTask
      → Program BriefPublicationView
  run_tasks p r steps existing [] = finalize p child_tasks r.draft
  run_tasks p r steps existing (task ∷ tasks) = do
    step ← required_step steps (child_task_step_key task)
    (execution, step') ←
        execute_step o step
          (sends (
            create_jira_child_task (context_of r p) r.draft.source_jira_id r.draft.source_jira_key
              task r.profile.child_task_template
              (map_some (λ e. e.issue_id) (looked_up task.client_task_id existing))))
          none
    elim execution [
      | in_progress ↦ present p
      | stale ↦ present_latest_publication o p.id
      | failed ↦ run_tasks p r (put_step step' steps) existing tasks
      | succeeded result ↦
          run_tasks p r (put_step step' steps)
            ((
              task.client_task_id,
              record { issue_id = result.provider_object_id; operation_id = p.operation_id },
            )
              ∷ existing)
            tasks
    ]

  -- Where reconciliation cannot tell what exists, the first open step is parked and nothing is sent.
  unfoldable pub park_child_tasks :
      BriefPublication → RunInput → Option PublicationStep → Program BriefPublicationView
  park_child_tasks p r none = finalize p child_tasks r.draft
  park_child_tasks p r (some step) = do
    (execution, step') ←
        execute_step o step
          (rejects PublicationErrorCode.publication_reconciliation_indeterminate true) none
    elim execution [
      | stale ↦ present_latest_publication o p.id
      | _ ↦ finalize p child_tasks r.draft
    ]

  unfoldable pub after_reconciliation :
      BriefPublication
      → RunInput
      → List PublicationStep
      → ReconciliationResult
      → Program BriefPublicationView
  after_reconciliation p r steps indeterminate =
      park_child_tasks p r (find is_child_task_open steps)
  after_reconciliation p r steps absent = run_tasks p r steps [] (selected_child_tasks r.draft)
  after_reconciliation p r steps (found existing) =
      run_tasks p r steps existing (selected_child_tasks r.draft)

  unfoldable pub run_child_tasks :
      BriefPublication
      → RunInput
      → List PublicationStep
      → ChildTasksPublicationPreview
      → Program BriefPublicationView
  run_child_tasks p r steps preview = do
    p ← begin_publishing p
    require (is_some r.profile.child_task_template || is_empty preview.child_tasks)
        (conflict "CHILD_TASK_TEMPLATE_REQUIRED")
    before ← gets (λ w. w.writes)
    after_reconciliation p r steps (
        get_or
          (o.reconcile_jira_child_tasks before (context_of r p) r.draft.source_jira_key
            (map (λ t. t.client_task_id) (selected_child_tasks r.draft)))
          indeterminate)
