-- ===== src/Publication/Tests.antt =====
-- Runs of the publication's operations at concrete rows, where the hypotheses of the theorems hold.
pub mod Claims
pub mod Guard
pub mod Recovered
pub mod Execution
pub mod Commanded
use work_copilot.Base.{
  ℕ, ◌+◌, ◌≤◌, String, Bool, true, false, Option, none, some, List, [], ◌∷◌, ◌≡◌, ◌≢◌, refl, arith,
  All, Unique, row, inl, inr, ◌==◌, false≢true, sym, ◌∙◌, eq_iff,
}
use work_copilot.Publication.Types.{
  PublicationStep, PublicationStepStatus, PublicationPhase, PublicationErrorCode, PublicationStatus,
  PublicationExecutionMode, is_needs_review,
}
use work_copilot.Publication.Claimer.{step_id}
use work_copilot.Publication.Claimer.Traces.{IsSound}

abbrev pub step_1 : PublicationStep
step_1 = record {
  id = "s1";
  publication_id = "p1";
  step_key = "confluence_page";
  phase = PublicationPhase.confluence;
  status = PublicationStepStatus.pending;
  attempts = 0;
  error_code = none;
  provider_object_id = none;
  provider_object_version = none;
  provider_url = none;
  content_hash = none;
  idempotency_key_hash = none;
  execution_lease_expires_at = none;
  execution_token = none;
  review_revision = 1;
  approved_revision = some 1;
  created_at = 10;
  updated_at = 10;
}

-- Running for the worker with the token "w1".
abbrev pub step_2 : PublicationStep
step_2 = record step_1 {
  id = "s2";
  step_key = "jira_remote_link";
  phase = PublicationPhase.jira;
  status = PublicationStepStatus.running;
  attempts = 1;
  execution_lease_expires_at = some 31000;
  execution_token = some "w1";
}

abbrev pub done_step : PublicationStep
done_step = record step_1 {
  status = PublicationStepStatus.succeeded;
  provider_object_id = some "page";
}

-- Waiting for review, at a revision that was approved before.
abbrev pub parked_step : PublicationStep
parked_step = record step_1 {
  status = PublicationStepStatus.needs_review;
  error_code = some PublicationErrorCode.publication_reconciliation_indeterminate;
}

abbrev pub rows : List PublicationStep
rows = step_1 ∷ step_2 ∷ []

pub differ : (a b : String) → (a == b) ≡ false → a ≢ b
differ a b n e = false≢true (sym n ∙ (eq_iff a b).1 e)

pub rows-Unique : Unique step_id rows
rows-Unique = ((differ "s2" "s1" refl, tt), (tt, tt))

pub step_1-IsSound : IsSound step_1
step_1-IsSound = record { held = refl; leased = refl; finished = λ e. cc e }

pub done_step-IsSound : IsSound done_step
done_step-IsSound = record { held = refl; leased = refl; finished = λ e. refl }

pub parked_step-IsSound : IsSound parked_step
parked_step-IsSound = record { held = refl; leased = refl; finished = λ e. cc e }
