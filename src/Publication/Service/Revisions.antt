-- ===== src/Publication/Service/Revisions.antt =====
-- publication.service.ts: the revisions that a preview and a review use.
use work_copilot.Base.{
  ℕ, ◌+◌, ◌<◌, String, Bool, true, some, ◌≡◌, refl, ◌∙◌, arith, row, Unique, ◌==◌, ◌&&◌,
  update_where, eqb, row-update_where, update-Unique,
}
use work_copilot.Publication.Types.{
  PublicationPhase, PublicationStep, is_phase, BriefPublication, is_needs_review,
}
use work_copilot.Publication.Service.Steps.{advance_approval_revision, allocate_revision}
use work_copilot.Publication.World.{World, Outside}
use work_copilot.Failure.{ok}
use work_copilot.Publication.Claimer.{
  reopen_for_review, step_id, approved_before, is_reopenable, reopen,
}
use work_copilot.Publication.Claimer.Laws.{update_one-swap}

abbrev pub of_phase : String → PublicationPhase → PublicationStep → Bool
of_phase publication phase s = (s.publication_id == publication) && is_phase s.phase phase

abbrev pub reviewed_at : ℕ → ℕ → PublicationStep → PublicationStep
reviewed_at revision now s = record s { review_revision = revision; updated_at = now }

-- A preview's revision is above the publication's, and every step of its phase is put at it.
advance_approval_revision-raises :
    (o : Outside) (p : BriefPublication) (phase : PublicationPhase) (w : World)
    → (revision : ℕ) × ((advance_approval_revision o p phase w).0 ≡ ok revision)
      × (p.approval_revision < revision)
      × ((advance_approval_revision o p phase w).1.steps
          ≡ update_where (of_phase p.id phase) (reviewed_at revision w.clock) w.steps)
unfolding advance_approval_revision allocate_revision
advance_approval_revision-raises o p phase w = (_, refl, omega arith, refl)

-- Where no two rows share a key: a preview returns a revision above the publication's, and a step
-- of its phase that waits for review and was approved at the publication's revision at most can
-- then be reopened at this revision and at no other.
pub advance_approval_revision-reopens :
    (o : Outside) (p : BriefPublication) (phase : PublicationPhase) (w : World)
    (s : PublicationStep)
    → Unique step_id w.steps
    → row step_id s.id w.steps ≡ some s
    → of_phase p.id phase s ≡ true
    → is_needs_review s.status ≡ true
    → approved_before s.approved_revision (p.approval_revision + 1) ≡ true
    → (revision : ℕ) × ((advance_approval_revision o p phase w).0 ≡ ok revision)
      × (p.approval_revision < revision)
      × ((approved now : ℕ)
          → (reopen_for_review s.id approved now (advance_approval_revision o p phase w).1.steps).0
            ≡ eqb revision approved)
unfolding reopen_for_review
advance_approval_revision-reopens o p phase w s u e mine parked before =
    let (revision, returned, above, steps) = advance_approval_revision-raises o p phase w in
    let there : row step_id s.id (advance_approval_revision o p phase w).1.steps
        ≡ some (reviewed_at revision w.clock s) =
      rw
        (
          steps,
          row-update_where step_id (reviewed_at revision w.clock) (λ x. refl) (of_phase p.id phase)
              s.id w.steps,
          e,
        )
        (rw mine refl) in
    let unique : Unique step_id (advance_approval_revision o p phase w).1.steps = rw steps (
      update-Unique step_id (reviewed_at revision w.clock) (λ x. refl) (of_phase p.id phase) w.steps
        u) in
    (
      revision,
      returned,
      above,
      λ approved now.
          (update_one-swap s.id (is_reopenable approved) (reopen approved now) (λ x. refl) _
            unique).0
          ∙ rw there (ground arith),
    )
