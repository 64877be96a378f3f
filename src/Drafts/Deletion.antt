-- ===== src/Drafts/Deletion.antt =====
-- work-briefs.service.ts: a draft is deleted where no publication holds it, and nothing else is.
use work_copilot.Base.{
  [], String, true, false, some, List, ◌≡◌, ◌≢◌, refl, sym, ◌∙◌, ap, inl, inr, ◌∷◌, arith, eqb,
  Unique, row, length, filter, not, row-update, map_some, Bool-cases, All, ◌==◌, eq_iff,
  if◌then◌else◌, eq_refl, subst, one-row,
}
use work_copilot.Failure.{Result, ok, err, not_found}
use work_copilot.Publication.Safety.{DraftDeletionAssessment}
use work_copilot.Publication.Safety.FailClosed.{refuses}
use work_copilot.Publication.World.{World, TransientEvidenceFragment, SafeAuditInput}
use work_copilot.Publication.World.Program.{new_date, require, bind-ok_at}
use work_copilot.Publication.Service.Store.{find_owned_draft}
use work_copilot.Publication.Service.Queries.{assess_draft_deletion}
use work_copilot.Brief.Types.{WorkBriefDraft}
use work_copilot.Webhooks.Freshness.{draft_id_of}
use work_copilot.Drafts.Types.{Caller, Sources, for_database}
use work_copilot.Drafts.Commands.{
  delete_draft, soft_delete, mark_deleted, is_owned, assert_publication_safety, purge_draft,
  record_event, remove_draft, deleted_event,
}
use work_copilot.Drafts.Edits.{owned_by}
use work_copilot.Drafts.Versions.{draft_row}
use work_copilot.Publication.Service.Sending.{bind-ok, bind-idle, require-idle, require-true}
use work_copilot.Publication.Service.Begun.{find_owned_draft-idle}

-- The guard of the publications lets the draft go.
pub record Released (i : String) (w : World) : Type 0 where
  pub assessment : DraftDeletionAssessment
  pub assessed : (assess_draft_deletion i w).0 ≡ ok assessment
  pub quiet : refuses assessment ≡ false

assess-idle : (i : String) (w : World) → (assess_draft_deletion i w).1 ≡ w
unfolding assess_draft_deletion
assess-idle i w = refl

pub assert_publication_safety-idle :
    (i : String) (w : World) → (assert_publication_safety i w).1 ≡ w
unfolding assert_publication_safety
assert_publication_safety-idle i w = bind-idle (assess_draft_deletion i) _ w (assess-idle i w) λ a.
    bind-idle (require (not a.publishing) _) _ w (require-idle _ _ w) λ done. require-idle _ _ w

pub assert_publication_safety-Released :
    (i : String) (w : World) → (assert_publication_safety i w).0 ≡ ok tt → Released i w
unfolding assert_publication_safety
assert_publication_safety-Released i w h =
    let (a, read, h1) = bind-ok (assess_draft_deletion i) _ w (assess-idle i w) h in
    let (done, first, h2) = bind-ok (require (not a.publishing) _) _ w (require-idle _ _ w) h1 in
    let calm = require-true (not a.publishing) _ w first in
    let unwritten = require-true (not a.external_write_performed) _ w h2 in
    record { assessment = a; assessed = read; quiet = ground arith }

record_event-drafts :
    (s : Sources) (e : SafeAuditInput) (w : World)
    → ((record_event s e w).1.drafts ≡ w.drafts) × ((record_event s e w).1.fragments ≡ w.fragments)
unfolding record_event
record_event-drafts s e w = elim (Bool-cases (s.is_recorded e)) [
  | inl h ↦ rw h (refl, refl)
  | inr h ↦ rw h (refl, refl)
]

none_left :
    (i : String) (fs : List TransientEvidenceFragment)
    → All (λ f. f.draft_id ≢ i) (filter (λ f. not (f.draft_id == i)) fs)
none_left i [] = tt
none_left i (f ∷ fs) = elim (Bool-cases (f.draft_id == i)) [
  | inl e ↦ rw e (none_left i fs)
  | inr e ↦ rw e ((λ same. cc (sym e ∙ (eq_iff f.draft_id i).1 same)), none_left i fs)
]

module _ (s : Sources) (c : Caller) (w : World) where
  -- What other requests have left when the draft is deleted.
  abbrev pub at_delete : World
  at_delete = s.meanwhile for_database w

  abbrev marked : WorkBriefDraft → WorkBriefDraft
  marked = mark_deleted at_delete.clock (s.database_micros at_delete.clock)

  abbrev soft_deleted : World
  soft_deleted =
      (soft_delete c.user_id c.draft_id at_delete.clock (s.database_micros at_delete.clock)
        (new_date s.outside at_delete).1).1

  row-soft_delete :
      (j : String)
      → row draft_id_of j soft_deleted.drafts ≡ (
          if c.draft_id == j
          then map_some (λ d. if owned_by c.user_id d then marked d else d) (draft_row j at_delete)
          else draft_row j at_delete)
  unfolding soft_delete
  row-soft_delete j =
      row-update draft_id_of marked (λ d. refl) c.draft_id j (owned_by c.user_id) at_delete.drafts

  differs : {j : String} → j ≢ c.draft_id → (c.draft_id == j) ≡ false
  differs {j} other = elim (Bool-cases (c.draft_id == j)) [
    | inl e ↦ absurd (other (sym ((eq_iff c.draft_id j).0 e)))
    | inr e ↦ e
  ]

  -- A removal that returns has marked one row.
  removed :
      (d : WorkBriefDraft)
      → (remove_draft s c d w).0 ≡ ok tt
      → (eqb (length (filter (is_owned c.user_id c.draft_id) at_delete.drafts)) 1 ≡ true)
        × ((remove_draft s c d w).1.drafts ≡ soft_deleted.drafts)
        × All (λ f. f.draft_id ≢ c.draft_id) (remove_draft s c d w).1.fragments
  unfolding remove_draft soft_delete purge_draft
  removed d h =
      elim (Bool-cases (eqb (length (filter (is_owned c.user_id c.draft_id) at_delete.drafts)) 1)) [
        | inl e ↦
            let (same, kept) = record_event-drafts s (deleted_event c d) _ in
            rw e (
              refl,
              same,
              subst (All λ f. f.draft_id ≢ c.draft_id) (sym kept) (none_left c.draft_id _),
            )
        | inr e ↦
            let failed : ◌≡◌ {A = Result (Unit {0})} (err (not_found "Brief draft was not found."))
                (ok tt) =
              rw e at h in
            cc
      ]

  -- A deletion that returns is of a draft that no publication holds: none is in progress, and none
  -- has written to a provider. It marks the caller's draft as deleted, leaves the row of every
  -- other draft as it was, and removes all stored excerpts of the deleted one. The identifiers of
  -- the drafts are unique.
  pub delete_draft-Released :
      Unique draft_id_of at_delete.drafts
      → (delete_draft s c w).0 ≡ ok tt
      → Released c.draft_id w
        × ((d : WorkBriefDraft) × (draft_row c.draft_id at_delete ≡ some d)
            × (owned_by c.user_id d ≡ true)
            × (draft_row c.draft_id (delete_draft s c w).1
                ≡ some (record d {
                  deleted_at = some at_delete.clock;
                  updated_at = at_delete.clock;
                  updated_micros = s.database_micros at_delete.clock;
                })))
        × ((j : String)
            → j ≢ c.draft_id
            → draft_row j (delete_draft s c w).1 ≡ draft_row j at_delete)
        × All (λ f. f.draft_id ≢ c.draft_id) (delete_draft s c w).1.fragments
  unfolding delete_draft
  delete_draft-Released u h =
      let (d, found, h1) =
        bind-ok (find_owned_draft c.user_id c.draft_id) _ w
          (find_owned_draft-idle c.user_id c.draft_id w) h in
      let (done, calm, h2) =
        bind-ok (assert_publication_safety c.draft_id) _ w
          (assert_publication_safety-idle c.draft_id w) h1 in
      let (one, same, none_kept) = removed d h2 in
      let (e, met, owned) =
        one-row draft_id_of c.draft_id (owned_by c.user_id) at_delete.drafts u one in
      let whole : delete_draft s c w ≡ remove_draft s c d w =
        bind-ok_at (find_owned_draft c.user_id c.draft_id w) _ found
        ∙ rw (find_owned_draft-idle c.user_id c.draft_id w) (
            bind-ok_at (assert_publication_safety c.draft_id w) _ calm
            ∙ rw (assert_publication_safety-idle c.draft_id w) refl) in
      let rows : (delete_draft s c w).1.drafts ≡ soft_deleted.drafts =
        ap (λ (r : Result (Unit {0}) × World). r.1.drafts) whole ∙ same in
      (
        assert_publication_safety-Released c.draft_id w calm,
        (
          e,
          met,
          owned,
          ap (row draft_id_of c.draft_id) rows
              ∙ row-soft_delete c.draft_id
              ∙ rw (eq_refl c.draft_id) (rw met (rw owned refl)),
        ),
        (λ j other. ap (row draft_id_of j) rows ∙ row-soft_delete j ∙ rw (differs other) refl),
        subst (λ (r : Result (Unit {0}) × World). All (λ f. f.draft_id ≢ c.draft_id) r.1.fragments)
            (sym whole) none_kept,
      )
