-- ===== src/Publication/Service/Phased.antt =====
-- publication.service.ts: a phase writes to a provider only after all of its checks.
use work_copilot.Base.{eqb-eq, String, Bool, true, List, ◌≡◌, refl, inr, ◌&&◌, max}
use work_copilot.Publication.Types.{
  confluence, jira, child_tasks, PublicationStep, BriefPublication, PublicationPhase,
}
use work_copilot.Publication.World.{
  Outside, IntegrationProfile, World, ConfluencePublicationPreview, ChildTasksPublicationPreview,
  JiraPublicationPreview,
}
use work_copilot.Publication.Service.Commands.{
  Target, publish_jira, Approved, publish_jira_open, approve, publish_child_tasks, retry_confluence,
  retry_confluence_open, publish_child_tasks_open,
}
use work_copilot.Publication.Service.Guards.{
  succeeded_key, PhaseInput, assert_confluence_succeeded, assert_draft_version,
  assert_publication_draft_version, assert_jira_succeeded,
}
use work_copilot.Brief.Types.{WorkBriefDraft}
use work_copilot.Publication.Phases.{remote_link_step, confluence_step, summary_comment_step}
use work_copilot.Publication.Service.Present.{Recovered, BriefPublicationView}
use work_copilot.Failure.{Failure, conflict}
use work_copilot.Publication.Service.Checked.{Consent, approve-idle, approve-Consent}
use work_copilot.Publication.World.Program.{◌>>=◌, ◌>>◌, Program, lift, require}
use work_copilot.Publication.Service.Begun.{Begun, begin_phase-OnlyIf, recovered_world, idle-OnlyIf}
use work_copilot.Publication.Service.Sending.{OnlyIf, require-idle, require-true}

-- All that a command on a known publication checks: what it began with, the versions, the earlier
-- phases, and the consent to the preview, in the world that recovery left.
pub record PhaseChecked {Preview : Type 0} (o : Outside) (t : Target) (input : PhaseInput)
    (phase : PublicationPhase) (earlier : List PublicationStep → Bool)
    (preview_of : WorkBriefDraft → BriefPublication → IntegrationProfile → Program Preview)
    (hash_of : Preview → String) (w : World) : Type 0 where
  pub begun : Begun o t input phase w
  pub current : begun.draft.optimistic_version ≡ input.draft_version
  pub same_version : begun.recovered.publication.draft_version ≡ begun.draft.optimistic_version
  pub ordered : earlier begun.recovered.steps ≡ true
  pub consent :
      Consent o t input begun.draft
        (max begun.recovered.publication.approval_revision 1)
        (preview_of begun.draft begun.recovered.publication)
        hash_of
        (recovered_world begun)

abbrev pub confluence_first : List PublicationStep → Bool
confluence_first steps = succeeded_key steps confluence_step

abbrev pub jira_first : List PublicationStep → Bool
jira_first steps = succeeded_key steps remote_link_step && succeeded_key steps summary_comment_step

abbrev pub nothing_first : List PublicationStep → Bool
nothing_first steps = true

abbrev pub jira_preview :
    Outside
    → WorkBriefDraft
    → BriefPublication
    → IntegrationProfile
    → Program JiraPublicationPreview
jira_preview o d p f = lift (o.preview_jira d p)

abbrev pub tasks_preview :
    Outside
    → WorkBriefDraft
    → BriefPublication
    → IntegrationProfile
    → Program ChildTasksPublicationPreview
tasks_preview o d p f = lift (o.preview_child_tasks d p f)

abbrev pub page_preview :
    Outside
    → Target
    → WorkBriefDraft
    → BriefPublication
    → IntegrationProfile
    → Program ConfluencePublicationPreview
page_preview o t d p f w = (o.preview_confluence w t.user_id d f t.correlation_id, w)

-- The checks in the order of the code, before what the approval of the phase is for.
abbrev pub open_phase :
    {Preview : Type 0}
    → Outside
    → Target
    → PhaseInput
    → WorkBriefDraft
    → Recovered
    → (List PublicationStep → Program (Unit {0}))
    → (IntegrationProfile → Program Preview)
    → (Preview → String)
    → (Approved Preview → Program BriefPublicationView)
    → Program BriefPublicationView
open_phase o t input d r earlier preview_of hash_of k = do
  assert_draft_version d input.draft_version
  assert_publication_draft_version r.publication d
  earlier r.steps
  a ← approve o t input d r.publication preview_of hash_of
  k a

module _ {Preview : Type 0} (o : Outside) (t : Target) (input : PhaseInput) (d : WorkBriefDraft)
    (r : Recovered) (earlier : List PublicationStep → Bool) (refusal : Failure)
    (preview_of : IntegrationProfile → Program Preview) (hash_of : Preview → String)
    (quiet : (f : IntegrationProfile) (w : World) → (preview_of f w).1 ≡ w)
    (k : Approved Preview → Program BriefPublicationView) (Q : Type 0) (w : World) where
  open_phase-OnlyIf :
      (d.optimistic_version ≡ input.draft_version
        → r.publication.draft_version ≡ d.optimistic_version
        → earlier r.steps ≡ true
        → Consent o t input d (max r.publication.approval_revision 1) preview_of hash_of w
        → Q)
      → OnlyIf Q
          (open_phase o t input d r (λ steps. require (earlier steps) refusal) preview_of hash_of k)
          w
  unfolding assert_draft_version assert_publication_draft_version
  open_phase-OnlyIf enough =
      idle-OnlyIf Q (assert_draft_version d input.draft_version) _ w (require-idle _ _ w)
        λ u1 current.
          idle-OnlyIf Q (assert_publication_draft_version r.publication d) _ w (require-idle _ _ w)
            λ u2 same.
              idle-OnlyIf Q (require (earlier r.steps) refusal) _ w (require-idle _ _ w)
                λ u3 ordered.
                  idle-OnlyIf Q (approve o t input d r.publication preview_of hash_of) k w
                    (approve-idle o t input d r.publication preview_of hash_of quiet w)
                    λ a approved. inr (
                      enough (eqb-eq _ _ (require-true _ _ w {u = u1} current))
                        (eqb-eq _ _ (require-true _ _ w {u = u2} same))
                        (require-true _ refusal w {u = u3} ordered)
                        (approve-Consent o t input d r.publication preview_of hash_of quiet w
                          {a = a} approved))

module _ (o : Outside) (t : Target) (input : PhaseInput) (w : World) where
  -- Publishing to Jira writes to a provider only if the user approved a draft and a publication of
  -- his own at their common version, the page was published, the phase has not succeeded, and
  -- readiness, profile, content, preview hash and revision all pass.
  pub publish_jira-OnlyIf :
      OnlyIf
        (PhaseChecked o t input jira confluence_first (jira_preview o) (λ v. v.preview_hash) w)
        (publish_jira o t input)
        w
  unfolding publish_jira publish_jira_open assert_confluence_succeeded
  publish_jira-OnlyIf = begin_phase-OnlyIf o t input jira _ _ w λ b.
      open_phase-OnlyIf o t input b.draft b.recovered confluence_first
        (conflict "CONFLUENCE_PUBLICATION_REQUIRED")
        (jira_preview o b.draft b.recovered.publication) (λ v. v.preview_hash) (λ f v. refl) _ _
        (recovered_world b)
        λ current same ordered consent. record {
          begun = b;
          current = current;
          same_version = same;
          ordered = ordered;
          consent = consent;
        }

  -- Publishing child tasks writes to a provider only if the user approved a draft and a publication
  -- of his own at their common version, the link and the comment were published, the phase has not
  -- succeeded, and readiness, profile, content, preview hash and revision all pass.
  pub publish_child_tasks-OnlyIf :
      OnlyIf
        (PhaseChecked o t input child_tasks jira_first (tasks_preview o) (λ v. v.preview_hash) w)
        (publish_child_tasks o t input)
        w
  unfolding publish_child_tasks publish_child_tasks_open assert_jira_succeeded
  publish_child_tasks-OnlyIf = begin_phase-OnlyIf o t input child_tasks _ _ w λ b.
      open_phase-OnlyIf o t input b.draft b.recovered jira_first
        (conflict "JIRA_PUBLICATION_REQUIRED") (tasks_preview o b.draft b.recovered.publication)
        (λ v. v.preview_hash) (λ f v. refl) _ _ (recovered_world b)
        λ current same ordered consent. record {
          begun = b;
          current = current;
          same_version = same;
          ordered = ordered;
          consent = consent;
        }

  -- Retrying the page writes to a provider only if the user approved a draft and a publication of
  -- his own at their common version, the phase has not succeeded, and readiness, profile, content,
  -- preview hash and revision all pass.
  pub retry_confluence-OnlyIf :
      OnlyIf
        (PhaseChecked o t input confluence nothing_first (page_preview o t) (λ v. v.preview_hash) w)
        (retry_confluence o t input)
        w
  unfolding retry_confluence retry_confluence_open
  retry_confluence-OnlyIf = begin_phase-OnlyIf o t input confluence _ _ w λ b.
      open_phase-OnlyIf o t input b.draft b.recovered nothing_first (conflict "")
        (page_preview o t b.draft b.recovered.publication) (λ v. v.preview_hash) (λ f v. refl) _ _
        (recovered_world b)
        λ current same ordered consent. record {
          begun = b;
          current = current;
          same_version = same;
          ordered = ordered;
          consent = consent;
        }
