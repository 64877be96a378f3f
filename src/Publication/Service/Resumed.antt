-- ===== src/Publication/Service/Resumed.antt =====
-- publication.service.ts: what publish checks of a publication that is there already.
use work_copilot.Base.{eqb-eq, true, ◌≡◌, refl, inl, inr, max, Bool-cases}
use work_copilot.Publication.Service.Checked.{Consent, approve-idle, approve-Consent}
use work_copilot.Publication.Service.Guards.{
  assert_draft_version, PhaseInput, assert_publication_draft_version,
}
use work_copilot.Publication.Service.Publish.{
  preview_confluence_now, publish_known, resume_empty_confluence_publication, replay,
  is_empty_pending,
}
use work_copilot.Publication.World.{Outside, World, IntegrationProfile}
use work_copilot.Publication.Service.Commands.{Target, approve}
use work_copilot.Brief.Types.{WorkBriefDraft}
use work_copilot.Publication.Types.{BriefPublication}
use work_copilot.Publication.Service.Present.{Recovered, recover_publication_from_steps}
use work_copilot.Failure.{ok}
use work_copilot.Publication.Service.Sending.{
  OnlyIf, require-idle, bind-OnlyIf, recover-Quiet, require-true,
}
use work_copilot.Publication.Service.Begun.{idle-OnlyIf}

pub preview_confluence_now-idle :
    (o : Outside) (t : Target) (d : WorkBriefDraft) (f : IntegrationProfile) (w : World)
    → (preview_confluence_now o t d f w).1 ≡ w
unfolding preview_confluence_now
preview_confluence_now-idle o t d f w = refl

module _ (o : Outside) (t : Target) (input : PhaseInput) (d : WorkBriefDraft) (Q : Type 0) where
  resume-OnlyIf :
      (p : BriefPublication) (w : World)
      → (d.optimistic_version ≡ input.draft_version
          → p.draft_version ≡ d.optimistic_version
          → Consent o t input d
              (max p.approval_revision 1)
              (preview_confluence_now o t d)
              (λ v. v.preview_hash)
              w
          → Q)
      → OnlyIf Q (resume_empty_confluence_publication o t d p input) w
  unfolding resume_empty_confluence_publication assert_draft_version
      assert_publication_draft_version
  resume-OnlyIf p w enough =
      idle-OnlyIf Q (assert_draft_version d input.draft_version) _ w (require-idle _ _ w)
        λ u1 current.
          idle-OnlyIf Q (assert_publication_draft_version p d) _ w (require-idle _ _ w) λ u2 same.
            idle-OnlyIf Q
              (approve o t input d p (preview_confluence_now o t d) (λ v. v.preview_hash)) _ w
              (approve-idle o t input d p (preview_confluence_now o t d) (λ v. v.preview_hash)
                (preview_confluence_now-idle o t d) w)
              λ a approved. inr (
                enough (eqb-eq _ _ (require-true _ _ w {u = u1} current))
                  (eqb-eq _ _ (require-true _ _ w {u = u2} same))
                  (approve-Consent o t input d p (preview_confluence_now o t d)
                    (λ v. v.preview_hash) (preview_confluence_now-idle o t d) w {a = a} approved))

  pub publish_known-OnlyIf :
      (p : BriefPublication) (w : World)
      → ((r : Recovered)
          → (recover_publication_from_steps o p d w).0 ≡ ok r
          → is_empty_pending r ≡ true
          → d.optimistic_version ≡ input.draft_version
          → r.publication.draft_version ≡ d.optimistic_version
          → Consent o t input d
              (max r.publication.approval_revision 1)
              (preview_confluence_now o t d)
              (λ v. v.preview_hash)
              (recover_publication_from_steps o p d w).1
          → Q)
      → OnlyIf Q (publish_known o t input d p) w
  unfolding publish_known replay
  publish_known-OnlyIf p w enough =
      bind-OnlyIf Q (recover_publication_from_steps o p d) _ w (recover-Quiet o p d w) λ r recovery.
        elim (Bool-cases (is_empty_pending r)) [
          | inl stranded ↦ rw stranded (resume-OnlyIf r.publication _ (enough r recovery stranded))
          | inr other ↦ rw other (inl refl)
        ]
