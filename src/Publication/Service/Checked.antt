-- ===== src/Publication/Service/Checked.antt =====
-- publication.service.ts: what the checks of a phase establish before anything is approved.
use work_copilot.Base.{
  eqb-eq, ℕ, String, true, some, ◌≡◌, refl, inl, inr, ◌∙◌, get_or, max, arith, and_true, eq_iff,
  sym, Option-cases, if◌then◌else◌, Bool-cases, ap, subst,
}
use work_copilot.Publication.Service.Store.{
  find_active_publish_profile, publish_profile, has_parent_page,
}
use work_copilot.Publication.World.{Outside, World, IntegrationProfile}
use work_copilot.Publication.Service.Guards.{
  approval_revision_for_input, assert_preview, PhaseInput, assert_safe_draft_content,
  assert_ready_for_publication,
}
use work_copilot.Publication.Service.Commands.{Target, approve, Approved}
use work_copilot.Brief.Types.{WorkBriefDraft, BriefContent}
use work_copilot.Failure.{ok, Result, err, conflict}
use work_copilot.Publication.Types.{BriefPublication}
use work_copilot.Publication.World.Program.{Program, bind_ok, require, pure, throw}
use work_copilot.Publication.Service.Sending.{require-true, require-idle, bind-ok, bind-idle}

-- The services and the user agree to the phase in the world `w`: the draft is ready, its profile
-- has a parent page, its texts are safe, and the preview that the user saw is the current one at
-- the revision.
pub record Consent {Preview : Type 0} (o : Outside) (t : Target) (input : PhaseInput)
    (d : WorkBriefDraft) (revision : ℕ) (preview_of : IntegrationProfile → Program Preview)
    (hash_of : Preview → String) (w : World) : Type 0 where
  pub profile : IntegrationProfile
  pub preview : Preview
  pub ready : o.assert_draft_publish_allowed w t.user_id d.id t.correlation_id ≡ ok tt
  pub active : publish_profile d w ≡ some profile
  pub parented : has_parent_page profile ≡ true
  pub safe : (assert_safe_draft_content o d.masked_brief w).0 ≡ ok tt
  pub previewed : (preview_of profile w).0 ≡ ok preview
  pub shown : hash_of preview ≡ input.preview_hash
  pub revised : get_or input.approval_revision revision ≡ revision

pub find_active_publish_profile-facts :
    (d : WorkBriefDraft) (w : World) {f : IntegrationProfile}
    → (find_active_publish_profile d w).0 ≡ ok f
    → (publish_profile d w ≡ some f) × (has_parent_page f ≡ true)
unfolding find_active_publish_profile
find_active_publish_profile-facts d w {f} h = elim (Option-cases (publish_profile d w)) [
  | inl e ↦
      let none_there : ◌≡◌ {A = Result IntegrationProfile}
          (err (conflict "PUBLISH_PARENT_PAGE_REQUIRED")) (ok f) =
        rw e at h in
      cc none_there
  | inr (g, e) ↦
      let found : ((if has_parent_page g
              then pure g
              else throw (conflict "PUBLISH_PARENT_PAGE_REQUIRED"))
            w).0
          ≡ ok f =
        rw e at h in
      elim (Bool-cases (has_parent_page g)) [
        | inl has ↦
            let same : ◌≡◌ {A = Result IntegrationProfile} (ok g) (ok f) = rw has at found in
            let g_f : g ≡ f = cc same in
            (e ∙ ap some g_f, subst (λ x. has_parent_page x ≡ true) g_f has)
        | inr bare ↦
            let bad : ◌≡◌ {A = Result IntegrationProfile}
                (err (conflict "PUBLISH_PARENT_PAGE_REQUIRED")) (ok f) =
              rw bare at found in
            cc bad
      ]
]

pub approval_revision-facts :
    (input : PhaseInput) (p : BriefPublication) (w : World) {r : ℕ}
    → (approval_revision_for_input input p w).0 ≡ ok r
    → get_or input.approval_revision (max p.approval_revision 1) ≡ max p.approval_revision 1
unfolding approval_revision_for_input
approval_revision-facts input p w h =
    let (u, e, _, _) = bind_ok (require _ _ w) _ h in eqb-eq _ _ (require-true _ _ w {u = u} e)

pub assert_preview-facts :
    (provided expected : String) (w : World) {u : Unit {0}}
    → (assert_preview provided expected w).0 ≡ ok u
    → expected ≡ provided
unfolding assert_preview
assert_preview-facts provided expected w {u} h =
    let both = and_true _ _ (require-true _ _ w {u = u} h) in
    sym ((eq_iff provided expected).0 both.1)

pub find_active_publish_profile-idle :
    (d : WorkBriefDraft) (w : World) → (find_active_publish_profile d w).1 ≡ w
unfolding find_active_publish_profile
find_active_publish_profile-idle d w = ground arith

pub assert_preview-idle :
    (provided expected : String) (w : World) → (assert_preview provided expected w).1 ≡ w
unfolding assert_preview
assert_preview-idle provided expected w = require-idle _ _ w

approval_revision-idle :
    (input : PhaseInput) (p : BriefPublication) (w : World)
    → (approval_revision_for_input input p w).1 ≡ w
unfolding approval_revision_for_input
approval_revision-idle input p w = ground arith

pub assert_safe-idle :
    (o : Outside) (c : BriefContent) (w : World) → (assert_safe_draft_content o c w).1 ≡ w
unfolding assert_safe_draft_content
assert_safe-idle o c w = refl

module _ {Preview : Type 0} (o : Outside) (t : Target) (input : PhaseInput) (d : WorkBriefDraft)
    (p : BriefPublication) (preview_of : IntegrationProfile → Program Preview)
    (hash_of : Preview → String)
    (quiet : (f : IntegrationProfile) (w : World) → (preview_of f w).1 ≡ w) where
  pub approve-idle : (w : World) → (approve o t input d p preview_of hash_of w).1 ≡ w
  unfolding approve assert_ready_for_publication
  approve-idle w =
      bind-idle (assert_ready_for_publication o t.user_id d t.correlation_id) _ w refl λ _.
        bind-idle (find_active_publish_profile d) _ w (find_active_publish_profile-idle d w) λ f.
          bind-idle (assert_safe_draft_content o d.masked_brief) _ w
            (assert_safe-idle o d.masked_brief w)
            λ _. bind-idle (preview_of f) _ w (quiet f w) λ v.
              bind-idle (assert_preview input.preview_hash (hash_of v)) _ w
                (assert_preview-idle input.preview_hash (hash_of v) w)
                λ _.
                  bind-idle (approval_revision_for_input input p) _ w
                    (approval_revision-idle input p w) λ _. refl

  pub approve-Consent :
      (w : World) {a : Approved Preview}
      → (approve o t input d p preview_of hash_of w).0 ≡ ok a
      → Consent o t input d (max p.approval_revision 1) preview_of hash_of w
  unfolding approve assert_ready_for_publication
  approve-Consent w h =
      let (u1, ready, h1) =
        bind-ok (assert_ready_for_publication o t.user_id d t.correlation_id) _ w refl h in
      let (f, found, h2) =
        bind-ok (find_active_publish_profile d) _ w (find_active_publish_profile-idle d w) h1 in
      let (u2, safe, h3) =
        bind-ok (assert_safe_draft_content o d.masked_brief) _ w
          (assert_safe-idle o d.masked_brief w) h2 in
      let (v, seen, h4) = bind-ok (preview_of f) _ w (quiet f w) h3 in
      let (u3, shown, h5) =
        bind-ok (assert_preview input.preview_hash (hash_of v)) _ w
          (assert_preview-idle input.preview_hash (hash_of v) w) h4 in
      let (r, revised, h6) =
        bind-ok (approval_revision_for_input input p) _ w (approval_revision-idle input p w) h5 in
      record {
        profile = f;
        preview = v;
        ready = ready;
        active = (find_active_publish_profile-facts d w found).0;
        parented = (find_active_publish_profile-facts d w found).1;
        safe = safe;
        previewed = seen;
        shown = assert_preview-facts input.preview_hash (hash_of v) w {u = u3} shown;
        revised = approval_revision-facts input p w {r = r} revised;
      }
