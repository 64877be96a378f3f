-- ===== src/Publication/Service/Opened.antt =====
-- publication.service.ts: publish writes to a provider only after all of its checks.
use work_copilot.Base.{String, true, none, some, ◌≡◌, ◌⊎◌, inl, inr, max, Option-cases, ◌==◌}
use work_copilot.Publication.Service.Checked.{Consent}
use work_copilot.Publication.Service.Guards.{
  idempotency_key_hash, assert_approval, PhaseInput, idempotency_key,
}
use work_copilot.Publication.World.Program.{require}
use work_copilot.Publication.Service.Publish.{
  preview_confluence_now, by_key, by_version, is_empty_pending, publish,
}
use work_copilot.Publication.World.{Outside, World}
use work_copilot.Publication.Service.Commands.{Target}
use work_copilot.Brief.Types.{WorkBriefDraft}
use work_copilot.Publication.Service.Store.{owned_draft, find_owned_draft}
use work_copilot.Publication.Types.{BriefPublication}
use work_copilot.Publication.Service.Present.{Recovered, recover_publication_from_steps}
use work_copilot.Failure.{ok, conflict}
use work_copilot.Publication.Service.Sending.{OnlyIf, require-idle}
use work_copilot.Publication.Service.Begun.{
  idle-OnlyIf, assert_approval-idle, find_owned_draft-idle, idempotency_key-idle,
  assert_approval-true, find_owned_draft-some,
}
use work_copilot.Publication.Service.Resumed.{publish_known-OnlyIf}
use work_copilot.Publication.Service.First.{publish_new-OnlyIf}

-- The user approved a draft of his own, with a key.
pub record PublishBegun (o : Outside) (t : Target) (input : PhaseInput) (w : World) : Type 0 where
  pub draft : WorkBriefDraft
  pub key : String
  pub approved : input.approved ≡ true
  pub owned : owned_draft t.user_id t.draft_id w ≡ some draft
  pub keyed : (idempotency_key input.idempotency_key w).0 ≡ ok key
  pub current : draft.optimistic_version ≡ input.draft_version

abbrev pub key_of :
    {o : Outside} {t : Target} {input : PhaseInput} {w : World} → PublishBegun o t input w → String
key_of {o} {t} b = idempotency_key_hash o t.user_id b.key

-- No publication has the key or the version: the first one is opened.
pub record FirstChecked (o : Outside) (t : Target) (input : PhaseInput) (w : World) : Type 0 where
  pub begun : PublishBegun o t input w
  pub no_key : by_key (key_of begun) w ≡ none
  pub no_version : by_version begun.draft w ≡ none
  pub consent :
      Consent o t input begun.draft 1
        (preview_confluence_now o t begun.draft)
        (λ v. v.preview_hash)
        w

-- The publication with the key or the version is pending without any step: it is resumed.
pub record ResumeChecked (o : Outside) (t : Target) (input : PhaseInput) (w : World) : Type 0 where
  pub begun : PublishBegun o t input w
  pub publication : BriefPublication
  pub recovered : Recovered
  pub found :
      (by_key (key_of begun) w ≡ some publication) ⊎ (by_version begun.draft w ≡ some publication)
  pub recovery : (recover_publication_from_steps o publication begun.draft w).0 ≡ ok recovered
  pub stranded : is_empty_pending recovered ≡ true
  pub same_version : recovered.publication.draft_version ≡ begun.draft.optimistic_version
  pub consent :
      Consent o t input begun.draft
        (max recovered.publication.approval_revision 1)
        (preview_confluence_now o t begun.draft)
        (λ v. v.preview_hash)
        (recover_publication_from_steps o publication begun.draft w).1

module _ (o : Outside) (t : Target) (input : PhaseInput) (w : World) where
  -- Publishing the page writes to a provider only if the user approved a draft of his own, with a
  -- key, at its current version, and readiness, profile, content, preview hash and revision all
  -- pass; and only if no publication has the key or the version, or the one that has it is pending
  -- without any step.
  pub publish-OnlyIf :
      OnlyIf (FirstChecked o t input w ⊎ ResumeChecked o t input w) (publish o t input) w
  unfolding publish
  publish-OnlyIf =
      idle-OnlyIf Q (assert_approval input.approved) _ w (assert_approval-idle input.approved w)
        λ u approved.
          idle-OnlyIf Q (find_owned_draft t.user_id t.draft_id) _ w
            (find_owned_draft-idle t.user_id t.draft_id w)
            λ d owned.
              idle-OnlyIf Q (idempotency_key input.idempotency_key) _ w
                (idempotency_key-idle input.idempotency_key w)
                λ key keyed.
                  let begin : d.optimistic_version ≡ input.draft_version
                      → PublishBegun o t input w =
                    λ current. record {
                      draft = d;
                      key = key;
                      approved = assert_approval-true input.approved w {u = u} approved;
                      owned = find_owned_draft-some t.user_id t.draft_id w owned;
                      keyed = keyed;
                      current = current;
                    } in
                  elim (Option-cases (by_key (idempotency_key_hash o t.user_id key) w)) [
                    | inr (p, e) ↦ rw e (
                        idle-OnlyIf Q
                          (require (p.draft_id == d.id) (conflict "IDEMPOTENCY_KEY_REUSED")) _ w
                          (require-idle _ _ w)
                          λ _ _.
                            publish_known-OnlyIf o t input d Q p w
                              λ r recovery stranded current same consent. inr (record {
                                begun = begin current;
                                publication = p;
                                recovered = r;
                                found = inl e;
                                recovery = recovery;
                                stranded = stranded;
                                same_version = same;
                                consent = consent;
                              }))
                    | inl no_key ↦ elim (Option-cases (by_version d w)) [
                      | inr (p, e) ↦
                          rw (no_key, e)
                            (publish_known-OnlyIf o t input d Q p w
                              λ r recovery stranded current same consent. inr (record {
                                begun = begin current;
                                publication = p;
                                recovered = r;
                                found = inr e;
                                recovery = recovery;
                                stranded = stranded;
                                same_version = same;
                                consent = consent;
                              }))
                      | inl no_version ↦
                          rw (no_key, no_version)
                            (publish_new-OnlyIf o t input d Q (idempotency_key_hash o t.user_id key)
                              w
                              λ current consent. inl (record {
                                begun = begin current;
                                no_key = no_key;
                                no_version = no_version;
                                consent = consent;
                              }))
                    ]
                  ]
    where
      Q : Type 0
      Q = FirstChecked o t input w ⊎ ResumeChecked o t input w
