-- ===== src/Publication/Service/Initial.antt =====
-- publication.service.ts: the first publication of a draft's version.
use work_copilot.Base.{
  ℕ, String, Bool, true, false, Option, none, some, List, [], ◌∷◌, ◌++◌, ◌==◌, if◌then◌else◌, ◌||◌,
  any, filter, find, map, eqb,
}
use work_copilot.Failure.{conflict}
use work_copilot.Publication.Types.{confluence, PublicationStep, BriefPublication}
use work_copilot.Publication.World.{World, Outside}
use work_copilot.Publication.World.Program.{
  Program, ◌>>=◌, ◌>>◌, pure, throw, gets, modify, random_uuid,
}
use work_copilot.Brief.Types.{WorkBriefDraft}
use work_copilot.Publication.Safety.{
  assess_publication_deletion_safety, stored_publication, stored_step,
}
use work_copilot.Publication.Service.Store.{
  transaction, save_publication, find_owned_draft, steps_for,
}
use work_copilot.Publication.Service.Steps.{new_step}
use work_copilot.Publication.Service.Guards.{assert_draft_version}
use work_copilot.Publication.Phases.{confluence_step}

pub record InitialPublication : Type 0 where
  pub publication : BriefPublication
  pub steps : List PublicationStep
  pub draft : WorkBriefDraft
  pub created : Bool

-- The publications of a draft, and the steps of these publications.
abbrev pub publications_of : String → World → List BriefPublication
publications_of i w = filter (λ p. p.draft_id == i) w.publications

abbrev pub steps_of_all : List BriefPublication → World → List PublicationStep
steps_of_all ps w = filter (λ s. any (λ p. p.id == s.publication_id) ps) w.steps

abbrev pub same_publication : BriefPublication → BriefPublication → Bool
same_publication p q =
    (q.idempotency_key_hash == p.idempotency_key_hash) || eqb q.draft_version p.draft_version

abbrev pub is_publishing : List BriefPublication → List PublicationStep → Bool
is_publishing ps ss =
    (assess_publication_deletion_safety (map stored_publication ps) (map stored_step ss)).publishing

module _ (o : Outside) where
  -- The new row, with the keys that the database draws, and its Confluence step.
  unfoldable pub insert_publication :
      BriefPublication → ℕ → WorkBriefDraft → Program InitialPublication
  insert_publication p revision d = do
    i ← random_uuid o
    stored ← save_publication (record p { id = i })
    key ← random_uuid o
    modify λ w. record w {
      steps =
          w.steps ++ new_step stored.id confluence_step confluence revision none key w.clock ∷ [];
    }
    steps ← steps_for stored.id
    pure (record { publication = stored; steps = steps; draft = d; created = true })

  -- What is there already decides: the same publication is answered, another one that is under way
  -- is refused.
  unfoldable pub reserve_publication :
      BriefPublication
      → ℕ
      → WorkBriefDraft
      → Option BriefPublication
      → List BriefPublication
      → List PublicationStep
      → Program InitialPublication
  reserve_publication p revision d (some q) existing existing_steps = pure (record {
    publication = q;
    steps = filter (λ s. s.publication_id == q.id) existing_steps;
    draft = d;
    created = false;
  })
  reserve_publication p revision d none existing existing_steps =
      if is_publishing existing existing_steps
      then throw (conflict "PUBLICATION_IN_PROGRESS")
      else insert_publication p revision d

  -- Under the lock of the draft.
  unfoldable pub create_initial_publication : BriefPublication → ℕ → ℕ → Program InitialPublication
  create_initial_publication p revision user = transaction (do
    d ← find_owned_draft user p.draft_id
    assert_draft_version d p.draft_version
    existing ← gets (publications_of d.id)
    existing_steps ← gets (steps_of_all existing)
    reserve_publication p revision d (find (same_publication p) existing) existing existing_steps)
