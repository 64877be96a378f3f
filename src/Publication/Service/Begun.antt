-- ===== src/Publication/Service/Begun.antt =====
-- publication.service.ts: what publishJira, publishChildTasks and retryConfluence share before the
-- approval of a phase is stored.
use work_copilot.Base.{
  ℕ, String, Bool, true, false, Option, some, ◌≡◌, refl, inl, inr, arith, ap, Bool-cases,
  if◌then◌else◌,
}
use work_copilot.Publication.Service.Guards.{idempotency_key, PhaseInput, assert_approval}
use work_copilot.Publication.Service.Store.{
  find_publication, find_owned_draft, owned_draft, publication_of,
}
use work_copilot.Publication.World.{Outside, World}
use work_copilot.Publication.World.Program.{◌>>=◌, ◌>>◌, Program, pure}
use work_copilot.Brief.Types.{WorkBriefDraft}
use work_copilot.Publication.Service.Commands.{Target}
use work_copilot.Publication.Types.{BriefPublication, PublicationPhase}
use work_copilot.Publication.Service.Sending.{
  or_throw-idle, OnlyIf, or_throw-some, bind-OnlyIf, recover-Quiet, require-idle, require-true,
}
use work_copilot.Failure.{ok, not_found}
use work_copilot.Publication.Service.Present.{
  recover_publication_from_steps, Recovered, BriefPublicationView, present_recovered,
}
use work_copilot.Publication.Phases.{phase_succeeded}

-- The opening of the three commands. A phase that has succeeded is answered, and is not run again.
abbrev pub begin_phase :
    Outside
    → Target
    → PhaseInput
    → PublicationPhase
    → (WorkBriefDraft → String → Recovered → Program BriefPublicationView)
    → Program BriefPublicationView
begin_phase o t input phase k = do
  assert_approval input.approved
  d ← find_owned_draft t.user_id t.draft_id
  p ← find_publication d t.publication_id
  key ← idempotency_key input.idempotency_key
  r ← recover_publication_from_steps o p d
  if phase_succeeded r.steps phase then pure (present_recovered r) else k d key r

-- The user approved; the draft is the user's and has the publication; the command has a key; and
-- the phase has not succeeded by the steps that recovery read.
pub record Begun (o : Outside) (t : Target) (input : PhaseInput) (phase : PublicationPhase)
    (w : World) : Type 0 where
  pub draft : WorkBriefDraft
  pub publication : BriefPublication
  pub key : String
  pub recovered : Recovered
  pub approved : input.approved ≡ true
  pub owned : owned_draft t.user_id t.draft_id w ≡ some draft
  pub known : publication_of draft t.publication_id w ≡ some publication
  pub keyed : (idempotency_key input.idempotency_key w).0 ≡ ok key
  pub recovery : (recover_publication_from_steps o publication draft w).0 ≡ ok recovered
  pub unfinished : phase_succeeded recovered.steps phase ≡ false

-- The world after recovery.
abbrev pub recovered_world :
    {o : Outside} {t : Target} {input : PhaseInput} {phase : PublicationPhase} {w : World}
    → Begun o t input phase w
    → World
recovered_world {o} {w = w} b = (recover_publication_from_steps o b.publication b.draft w).1

pub assert_approval-idle : (b : Bool) (w : World) → (assert_approval b w).1 ≡ w
unfolding assert_approval
assert_approval-idle b w = require-idle b _ w

pub assert_approval-true :
    (b : Bool) (w : World) {u : Unit {0}} → (assert_approval b w).0 ≡ ok u → b ≡ true
unfolding assert_approval
assert_approval-true b w {u} h = require-true b _ w {u = u} h

pub idempotency_key-idle : (k : Option String) (w : World) → (idempotency_key k w).1 ≡ w
unfolding idempotency_key
idempotency_key-idle k w = ground arith

pub find_owned_draft-idle : (u : ℕ) (i : String) (w : World) → (find_owned_draft u i w).1 ≡ w
unfolding find_owned_draft
find_owned_draft-idle u i w = or_throw-idle _ _ w

pub find_owned_draft-some :
    (u : ℕ) (i : String) (w : World) {d : WorkBriefDraft}
    → (find_owned_draft u i w).0 ≡ ok d
    → owned_draft u i w ≡ some d
unfolding find_owned_draft
find_owned_draft-some u i w {d} h =
    or_throw-some _ (not_found "Brief draft was not found.") w {a = d} h

find_publication-idle :
    (d : WorkBriefDraft) (i : String) (w : World) → (find_publication d i w).1 ≡ w
unfolding find_publication
find_publication-idle d i w = or_throw-idle _ _ w

find_publication-some :
    (d : WorkBriefDraft) (i : String) (w : World) {p : BriefPublication}
    → (find_publication d i w).0 ≡ ok p
    → publication_of d i w ≡ some p
unfolding find_publication
find_publication-some d i w {p} h =
    or_throw-some _ (not_found "Brief publication was not found.") w {a = p} h

-- After a program that leaves the world as it is, the rest decides.
pub idle-OnlyIf :
    {A B : Type 0} (Q : Type 0) (m : Program A) (f : A → Program B) (w : World)
    → (m w).1 ≡ w
    → ((a : A) → (m w).0 ≡ ok a → OnlyIf Q (f a) w)
    → OnlyIf Q (m >>= f) w
idle-OnlyIf Q m f w e rest = bind-OnlyIf Q m f w (ap (λ v. v.writes) e) λ a r. rw e (rest a r)

module _ (o : Outside) (t : Target) (input : PhaseInput) (phase : PublicationPhase)
    (k : WorkBriefDraft → String → Recovered → Program BriefPublicationView) (Q : Type 0)
    (w : World) where
  pub begin_phase-OnlyIf :
      ((b : Begun o t input phase w) → OnlyIf Q (k b.draft b.key b.recovered) (recovered_world b))
      → OnlyIf Q (begin_phase o t input phase k) w
  begin_phase-OnlyIf rest =
      idle-OnlyIf Q (assert_approval input.approved) _ w (assert_approval-idle input.approved w)
        λ u approved.
          idle-OnlyIf Q (find_owned_draft t.user_id t.draft_id) _ w
            (find_owned_draft-idle t.user_id t.draft_id w)
            λ d owned.
              idle-OnlyIf Q (find_publication d t.publication_id) _ w
                (find_publication-idle d t.publication_id w)
                λ p known.
                  idle-OnlyIf Q (idempotency_key input.idempotency_key) _ w
                    (idempotency_key-idle input.idempotency_key w)
                    λ key keyed.
                      bind-OnlyIf Q (recover_publication_from_steps o p d) _ w
                        (recover-Quiet o p d w)
                        λ r recovery. elim (Bool-cases (phase_succeeded r.steps phase)) [
                          | inl done ↦ rw done (inl refl)
                          | inr unfinished ↦ rw unfinished (
                              rest (record {
                                draft = d;
                                publication = p;
                                key = key;
                                recovered = r;
                                approved = assert_approval-true input.approved w {u = u} approved;
                                owned = find_owned_draft-some t.user_id t.draft_id w owned;
                                known = find_publication-some d t.publication_id w known;
                                keyed = keyed;
                                recovery = recovery;
                                unfinished = unfinished;
                              }))
                        ]
