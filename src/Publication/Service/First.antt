-- ===== src/Publication/Service/First.antt =====
-- publication.service.ts: what publish checks of a first publication.
use work_copilot.Base.{eqb-eq, String, ◌≡◌, refl, inr, eqb, get_or}
use work_copilot.Publication.Service.Checked.{
  Consent, find_active_publish_profile-facts, find_active_publish_profile-idle, assert_safe-idle,
  assert_preview-idle, assert_preview-facts,
}
use work_copilot.Publication.Service.Guards.{
  assert_preview, assert_draft_version, assert_ready_for_publication, assert_safe_draft_content,
  PhaseInput,
}
use work_copilot.Publication.World.Program.{require}
use work_copilot.Publication.Service.Publish.{preview_confluence_now, publish_new, approve_first}
use work_copilot.Publication.World.{Outside, World, ConfluencePublicationPreview}
use work_copilot.Publication.Service.Commands.{Target, Approved}
use work_copilot.Brief.Types.{WorkBriefDraft}
use work_copilot.Publication.Service.Store.{find_active_publish_profile}
use work_copilot.Failure.{ok, conflict}
use work_copilot.Publication.Service.Sending.{
  bind-idle, OnlyIf, require-idle, bind-ok, require-true,
}
use work_copilot.Publication.Service.Begun.{idle-OnlyIf}
use work_copilot.Publication.Service.Resumed.{preview_confluence_now-idle}

module _ (o : Outside) (t : Target) (input : PhaseInput) (d : WorkBriefDraft) (Q : Type 0) where
  -- The checks of a first publication, in the order of the code.
  approve_first-idle : (w : World) → (approve_first o t input d w).1 ≡ w
  unfolding approve_first assert_draft_version assert_ready_for_publication
  approve_first-idle w =
      bind-idle (assert_draft_version d input.draft_version) _ w (require-idle _ _ w) λ _.
        bind-idle (assert_ready_for_publication o t.user_id d t.correlation_id) _ w refl λ _.
          bind-idle (find_active_publish_profile d) _ w (find_active_publish_profile-idle d w) λ f.
            bind-idle (assert_safe_draft_content o d.masked_brief) _ w
              (assert_safe-idle o d.masked_brief w)
              λ _.
                bind-idle (preview_confluence_now o t d f) _ w
                  (preview_confluence_now-idle o t d f w)
                  λ v.
                    bind-idle (assert_preview input.preview_hash v.preview_hash) _ w
                      (assert_preview-idle input.preview_hash v.preview_hash w)
                      λ _.
                        bind-idle
                          (require (eqb (get_or input.approval_revision 1) 1)
                            (conflict "PUBLICATION_PREVIEW_STALE"))
                          _ w (require-idle _ _ w) λ _. refl

  approve_first-facts :
      (w : World) {a : Approved ConfluencePublicationPreview}
      → (approve_first o t input d w).0 ≡ ok a
      → (d.optimistic_version ≡ input.draft_version)
        × Consent o t input d 1 (preview_confluence_now o t d) (λ v. v.preview_hash) w
  unfolding approve_first assert_draft_version assert_ready_for_publication
  approve_first-facts w h =
      let (u0, current, h0) =
        bind-ok (assert_draft_version d input.draft_version) _ w (require-idle _ _ w) h in
      let (u1, ready, h1) =
        bind-ok (assert_ready_for_publication o t.user_id d t.correlation_id) _ w refl h0 in
      let (f, found, h2) =
        bind-ok (find_active_publish_profile d) _ w (find_active_publish_profile-idle d w) h1 in
      let (u2, safe, h3) =
        bind-ok (assert_safe_draft_content o d.masked_brief) _ w
          (assert_safe-idle o d.masked_brief w) h2 in
      let (v, seen, h4) =
        bind-ok (preview_confluence_now o t d f) _ w (preview_confluence_now-idle o t d f w) h3 in
      let (u3, shown, h5) =
        bind-ok (assert_preview input.preview_hash v.preview_hash) _ w
          (assert_preview-idle input.preview_hash v.preview_hash w) h4 in
      let (u4, first, h6) =
        bind-ok
          (require (eqb (get_or input.approval_revision 1) 1)
            (conflict "PUBLICATION_PREVIEW_STALE"))
          _ w (require-idle _ _ w) h5 in
      (
        eqb-eq _ _ (require-true _ _ w {u = u0} current),
        record {
          profile = f;
          preview = v;
          ready = ready;
          active = (find_active_publish_profile-facts d w found).0;
          parented = (find_active_publish_profile-facts d w found).1;
          safe = safe;
          previewed = seen;
          shown = assert_preview-facts input.preview_hash v.preview_hash w {u = u3} shown;
          revised = eqb-eq _ _ (require-true _ _ w {u = u4} first);
        },
      )

  pub publish_new-OnlyIf :
      (key : String) (w : World)
      → (d.optimistic_version ≡ input.draft_version
          → Consent o t input d 1 (preview_confluence_now o t d) (λ v. v.preview_hash) w
          → Q)
      → OnlyIf Q (publish_new o t input d key) w
  unfolding publish_new
  publish_new-OnlyIf key w enough =
      idle-OnlyIf Q (approve_first o t input d) _ w (approve_first-idle w) λ a approved. inr (
        enough (approve_first-facts w {a = a} approved).0
          (approve_first-facts w {a = a} approved).1)
