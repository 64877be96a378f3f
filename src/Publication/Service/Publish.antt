-- ===== src/Publication/Service/Publish.antt =====
-- publication.service.ts: the publication of a page for the first time, and the previews.
use work_copilot.Base.{
  ℕ, String, Bool, Option, none, some, [], ◌==◌, if◌then◌else◌, ◌&&◌, find, eqb, get_or, is_empty,
  or_else, inl, inr,
}
use work_copilot.Failure.{Result, err, conflict, duplicate_key}
use work_copilot.Publication.Types.{PublicationStatus, confluence, BriefPublication}
use work_copilot.Publication.World.{
  World, Outside, IntegrationProfile, ConfluencePublicationPreview,
}
use work_copilot.Publication.World.Program.{
  Program, ◌>>=◌, ◌>>◌, pure, gets, new_date, or_throw, random_uuid, require,
}
use work_copilot.Brief.Types.{WorkBriefDraft}
use work_copilot.Publication.Service.Guards.{
  PhaseInput, idempotency_key, idempotency_key_hash, assert_draft_version, assert_approval,
  assert_publication_draft_version, assert_ready_for_publication, assert_safe_draft_content,
  assert_preview,
}
use work_copilot.Publication.Service.Commands.{Target, Approved, approve}
use work_copilot.Publication.Service.Present.{
  Recovered, BriefPublicationView, present_recovered, recover_publication_from_steps, recover_with,
}
use work_copilot.Publication.Recovery.{same_status}
use work_copilot.Publication.Service.Store.{
  save_publication, find_owned_draft, find_active_publish_profile,
}
use work_copilot.Publication.Service.Initial.{InitialPublication, create_initial_publication}
use work_copilot.Publication.Service.Run.{run_confluence}
use work_copilot.Publication.Service.Steps.{ensure_steps}

-- `{ ...preview, approvalRevision }`.
pub record Previewed (Preview : Type 0) : Type 0 where
  pub preview : Preview
  pub approval_revision : ℕ

-- The row that `publish` is about to insert. Its key is drawn by the database.
abbrev pub initial_row :
    Outside → Target → WorkBriefDraft → String → String → String → ℕ → BriefPublication
initial_row o t d operation key preview_hash now = record {
  id = "";
  draft_id = d.id;
  operation_id = operation;
  idempotency_key_hash = key;
  draft_version = d.optimistic_version;
  status = PublicationStatus.pending;
  approval_revision = 1;
  confluence_content_id = none;
  jira_remote_link_id = none;
  jira_summary_comment_id = none;
  confluence_page_version = none;
  confluence_page_url = none;
  confluence_content_hash = none;
  requested_by_user_id = some t.user_id;
  requested_at = some now;
  approved_by_user_id = some t.user_id;
  approved_at = some now;
  jira_idempotency_key_hash = none;
  child_tasks_idempotency_key_hash = none;
  confluence_preview_hash = some preview_hash;
  jira_preview_hash = none;
  child_tasks_preview_hash = none;
  jira_approved_by_user_id = none;
  jira_approved_at = none;
  child_tasks_approved_by_user_id = none;
  child_tasks_approved_at = none;
  execution_mode = o.mode;
  review_required_at = none;
  created_at = now;
  updated_at = now;
}

-- `catch (error)` of a duplicate key alone.
abbrev pub or_on_duplicate : {A : Type 0} → Result A × World → Program A → Result A × World
or_on_duplicate (err duplicate_key, w) handler = handler w
or_on_duplicate (r, w) handler = (r, w)

abbrev pub is_empty_pending : Recovered → Bool
is_empty_pending r = same_status r.publication.status PublicationStatus.pending && is_empty r.steps

abbrev pub by_key : String → World → Option BriefPublication
by_key key w = find (λ p. p.idempotency_key_hash == key) w.publications

abbrev pub by_version : WorkBriefDraft → World → Option BriefPublication
by_version d w =
    find (λ p. (p.draft_id == d.id) && eqb p.draft_version d.optimistic_version) w.publications

module _ (o : Outside) where
  unfoldable pub preview_confluence_now :
      Target → WorkBriefDraft → IntegrationProfile → Program ConfluencePublicationPreview
  preview_confluence_now t d profile w =
      (o.preview_confluence w t.user_id d profile t.correlation_id, w)

  unfoldable pub approve_confluence :
      Target → BriefPublication → Approved ConfluencePublicationPreview → Program BriefPublication
  approve_confluence t p a = do
    approved_at ← new_date o
    updated_at ← new_date o
    save_publication (record p {
      approval_revision = a.approval_revision;
      confluence_preview_hash = some a.preview.preview_hash;
      approved_by_user_id = some t.user_id;
      approved_at = some approved_at;
      updated_at = updated_at;
    })

  -- A publication that was reserved and lost its step is approved and run again.
  unfoldable pub resume_empty_confluence_publication :
      Target → WorkBriefDraft → BriefPublication → PhaseInput → Program BriefPublicationView
  resume_empty_confluence_publication t d p input = do
    assert_draft_version d input.draft_version
    assert_publication_draft_version p d
    a ← approve o t input d p (preview_confluence_now t d) (λ v. v.preview_hash)
    saved ← approve_confluence t p a
    steps ← ensure_steps o saved confluence [] [] none a.approval_revision
    run_confluence o saved a.run steps a.preview.content_hash

  -- What `publish` does with a publication that is there already.
  unfoldable pub replay :
      Target → WorkBriefDraft → PhaseInput → Recovered → Program BriefPublicationView
  replay t d input r =
      if is_empty_pending r
      then resume_empty_confluence_publication t d r.publication input
      else pure (present_recovered r)

  -- Another request reserved the key or the version first.
  unfoldable pub find_concurrent : WorkBriefDraft → String → Program BriefPublication
  find_concurrent d key = do
    same_key ← gets (by_key key)
    same_version ← gets (by_version d)
    p ← or_throw (or_else same_key same_version) (conflict "IDEMPOTENCY_KEY_REUSED")
    require (p.draft_id == d.id) (conflict "IDEMPOTENCY_KEY_REUSED")
    pure p

  unfoldable pub answer_concurrent : WorkBriefDraft → String → Program BriefPublicationView
  answer_concurrent d key = do
    p ← find_concurrent d key
    r ← recover_publication_from_steps o p d
    pure (present_recovered r)

  -- The reserved publication is run, or the one that another request reserved is answered.
  unfoldable pub after_reservation :
      Target
      → PhaseInput
      → Approved ConfluencePublicationPreview
      → InitialPublication
      → Program BriefPublicationView
  after_reservation t input a i =
      if i.created
      then run_confluence o i.publication (record (a.run) { draft = i.draft }) i.steps
          a.preview.content_hash
      else (do r ← recover_with o i.publication i.draft i.steps; replay t i.draft input r)

  -- The reservation, whose duplicate key alone means that another request was first.
  unfoldable pub reserve_and_run :
      Target
      → PhaseInput
      → WorkBriefDraft
      → String
      → Approved ConfluencePublicationPreview
      → Program BriefPublicationView
  reserve_and_run t input d key a = do
    now ← new_date o
    operation ← random_uuid o
    reserved ← (λ w.
        or_on_duplicate
          ((do
            i ←
                create_initial_publication o
                  (initial_row o t d operation key a.preview.preview_hash now) 1 t.user_id
            pure (inl i))
            w)
          (pure (inr tt)))
    elim reserved [ inl i ↦ after_reservation t input a i | inr _ ↦ answer_concurrent d key ]

  -- The checks of a first publication: the revision can only be the first one.
  unfoldable pub approve_first :
      Target → PhaseInput → WorkBriefDraft → Program (Approved ConfluencePublicationPreview)
  approve_first t input d = do
    assert_draft_version d input.draft_version
    assert_ready_for_publication o t.user_id d t.correlation_id
    profile ← find_active_publish_profile d
    assert_safe_draft_content o d.masked_brief
    preview ← preview_confluence_now t d profile
    assert_preview input.preview_hash preview.preview_hash
    require (eqb (get_or input.approval_revision 1) 1) (conflict "PUBLICATION_PREVIEW_STALE")
    pure (record {
      run = record {
        user_id = t.user_id;
        correlation_id = t.correlation_id;
        profile = profile;
        draft = d;
      };
      preview = preview;
      approval_revision = 1;
    })

  unfoldable pub publish_new :
      Target → PhaseInput → WorkBriefDraft → String → Program BriefPublicationView
  publish_new t input d key = do a ← approve_first t input d; reserve_and_run t input d key a

  unfoldable pub publish_known :
      Target → PhaseInput → WorkBriefDraft → BriefPublication → Program BriefPublicationView
  publish_known t input d p = do r ← recover_publication_from_steps o p d; replay t d input r

  unfoldable pub publish : Target → PhaseInput → Program BriefPublicationView
  publish t input = do
    assert_approval input.approved
    d ← find_owned_draft t.user_id t.draft_id
    text ← idempotency_key input.idempotency_key
    let key = idempotency_key_hash o t.user_id text
    same_key ← gets (by_key key)
    same_version ← gets (by_version d)
    elim same_key [
      | some p ↦ do
        require (p.draft_id == d.id) (conflict "IDEMPOTENCY_KEY_REUSED")
        publish_known t input d p
      | none ↦ elim same_version [
        | some p ↦ publish_known t input d p
        | none ↦ publish_new t input d key
      ]
    ]
