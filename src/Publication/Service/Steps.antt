-- ===== src/Publication/Service/Steps.antt =====
-- publication.service.ts: the step rows of a phase, the revisions of its approval, and the reopening
-- of a reviewed phase.
use work_copilot.Base.{
  ℕ, ◌+◌, String, Bool, true, false, Option, none, some, List, [], ◌∷◌, ◌++◌, ◌==◌, if◌then◌else◌,
  ◌&&◌, ◌||◌, not, any, filter, find, eqb, max, get_or, is_empty, update_where, map_some,
}
use work_copilot.Failure.{conflict}
use work_copilot.Publication.Types.{
  PublicationPhase, child_tasks, PublicationStepStatus, PublicationStep, BriefPublication,
  is_needs_review, is_phase,
}
use work_copilot.Publication.World.{Outside}
use work_copilot.Publication.World.Program.{
  Program, ◌>>=◌, ◌>>◌, pure, throw, gets, modify, new_date, on_steps, random_uuid,
}
use work_copilot.Brief.Types.{BriefChildTask}
use work_copilot.Publication.Service.Guards.{child_task_idempotency_hash}
use work_copilot.Publication.Phases.{step_keys}
use work_copilot.Publication.Claimer.{reopen_for_review, reopen}
use work_copilot.Publication.Service.Store.{steps_for}

-- A row that the database creates: pending, with the revision that the user approved.
abbrev pub new_step :
    String → String → PublicationPhase → ℕ → Option String → String → ℕ → PublicationStep
new_step publication key phase revision hash i now = record {
  id = i;
  publication_id = publication;
  step_key = key;
  phase = phase;
  status = PublicationStepStatus.pending;
  attempts = 0;
  error_code = none;
  provider_object_id = none;
  provider_object_version = none;
  provider_url = none;
  content_hash = none;
  idempotency_key_hash = hash;
  execution_lease_expires_at = none;
  execution_token = none;
  review_revision = revision;
  approved_revision = some revision;
  created_at = now;
  updated_at = now;
}

-- `UNIQUE ("publicationId", "stepKey")`.
abbrev pub same_step_key : String → String → PublicationStep → Bool
same_step_key publication key s = (s.publication_id == publication) && (s.step_key == key)

-- The key that protects a child task against a second creation.
abbrev pub step_hash : Outside → PublicationPhase → Option String → String → Option String
step_hash o child_tasks (some base) key =
    if base == "" then none else some (child_task_idempotency_hash o base key)
step_hash o _ _ key = none

-- An update of rows sets their `updatedAt` to the time of the database.
abbrev pub review_at :
    PublicationPhase → String → ℕ → ℕ → List PublicationStep → List PublicationStep
review_at phase publication revision now =
    update_where (λ s. (s.publication_id == publication) && is_phase s.phase phase)
      (λ s. record s { review_revision = revision; updated_at = now })

abbrev pub put_step : PublicationStep → List PublicationStep → List PublicationStep
put_step s = update_where (λ t. t.id == s.id) (λ t. s)

abbrev pub to_reopen : PublicationPhase → PublicationStep → Bool
to_reopen phase s = is_phase s.phase phase && is_needs_review s.status

module _ (o : Outside) where
  -- `INSERT … ON CONFLICT DO NOTHING`, a row at a time.
  unfoldable pub insert_steps :
      String → PublicationPhase → ℕ → Option String → List String → Program (Unit {0})
  insert_steps publication phase revision hash [] = pure tt
  insert_steps publication phase revision hash (key ∷ keys) = do
    i ← random_uuid o
    modify λ w. record w {
      steps =
          if any (same_step_key publication key) w.steps
          then w.steps
          else w.steps
            ++ new_step publication key phase revision (step_hash o phase hash key) i w.clock ∷ [];
    }
    insert_steps publication phase revision hash keys

  -- The missing steps of the phase are created, and the rows read again.
  unfoldable pub ensure_steps :
      BriefPublication
      → PublicationPhase
      → List PublicationStep
      → List BriefChildTask
      → Option String
      → ℕ
      → Program (List PublicationStep)
  ensure_steps p phase existing tasks hash revision =
      let missing =
        filter (λ key. not (any (λ s. s.step_key == key) existing)) (step_keys phase tasks) in
      if is_empty missing
      then pure existing
      else (do insert_steps p.id phase revision hash missing; steps_for p.id)

  -- `UPDATE … SET "approvalRevision" = "approvalRevision" + 1 … RETURNING "approvalRevision"`, which
  -- sets `updatedAt` too.
  unfoldable pub allocate_revision : String → Program (Option ℕ)
  allocate_revision i = do
    modify λ w. record w {
      publications =
          update_where (λ p. p.id == i)
            (λ p. record p { approval_revision = p.approval_revision + 1; updated_at = w.clock })
            w.publications;
    }
    gets λ w. map_some (λ p. p.approval_revision) (find (λ p. p.id == i) w.publications)

  -- A preview gets a revision of its own, which the steps of its phase are to be reviewed at.
  unfoldable pub advance_approval_revision : BriefPublication → PublicationPhase → Program ℕ
  advance_approval_revision p phase = do
    allocated ← allocate_revision p.id
    let revision = max (get_or allocated 0) (p.approval_revision + 1)
    modify λ w. record w { steps = review_at phase p.id revision w.clock w.steps }
    pure revision

  -- The loop over the candidates: whether any was reopened, and the steps in memory.
  unfoldable pub reopen_steps :
      ℕ → List PublicationStep → Bool → List PublicationStep → Program (Bool × List PublicationStep)
  reopen_steps revision [] reopened steps = pure (reopened, steps)
  reopen_steps revision (s ∷ rest) reopened steps = do
    now ← new_date o
    changed ← on_steps (reopen_for_review s.id revision now)
    if changed
        then (do
          later ← new_date o
          reopen_steps revision rest true (put_step (reopen revision later s) steps))
        else reopen_steps revision rest reopened steps

  unfoldable pub reopen_review_steps_if_required :
      BriefPublication
      → List PublicationStep
      → PublicationPhase
      → ℕ
      → Program (Bool × List PublicationStep)
  reopen_review_steps_if_required p steps phase revision =
      let candidates = filter (to_reopen phase) steps in
      if is_empty candidates
      then pure (true, steps)
      else if not (eqb p.approval_revision revision)
          || any (λ s. not (eqb s.review_revision revision)) candidates
      then throw (conflict "PUBLICATION_REVIEW_APPROVAL_REQUIRED")
      else reopen_steps revision candidates false steps
