-- ===== src/Publication/Claimer.antt =====
-- publication-step-claimer.service.ts: the conditional updates by which workers claim, keep,
-- finish and reopen a row of `publication_steps`. Each reading of the clock and each random
-- execution token is an argument.
pub mod Laws
pub mod Machine
pub mod Traces
pub mod Review
pub mod Exclusive
use work_copilot.Base.{
  ℕ, ◌+◌, String, Bool, true, false, not, ◌&&◌, ◌||◌, Option, none, some, List, ◌==◌, or_else,
  if◌then◌else◌, get_or, length, eqb, ltb, filter, map, head?, update_where, at, map_some,
}
use work_copilot.Publication.Types.{
  PublicationStep, PublicationStepStatus, PublicationErrorCode, is_pending, is_failed, is_running,
  is_needs_review, truthy,
}

abbrev pub publication_step_lease_duration_ms : ℕ
publication_step_lease_duration_ms = 30000

abbrev pub publication_step_heartbeat_interval_ms : ℕ
publication_step_heartbeat_interval_ms = 10000

-- `claimed` has the execution token, the end of the lease, and `reclaimedInterrupted`.
pub data StepClaim : Type 0 where
  claimed : String → ℕ → Bool → StepClaim
  unclaimed : StepClaim

pub record PublicationStepResult : Type 0 where
  pub provider_object_id : String
  pub provider_object_version : Option String
  pub provider_url : Option String
  pub content_hash : Option String

-- What one conditional update draws: `new Date()` and `randomUUID()`.
pub record Draw : Type 0 where
  pub now : ℕ
  pub token : String

abbrev pub step_id : PublicationStep → String
step_id s = s.id

abbrev pub lease_end : ℕ → ℕ
lease_end now = now + publication_step_lease_duration_ms

-- The SET clause of a claim.
abbrev pub start : Draw → PublicationStep → PublicationStep
start d s = record s {
  status = PublicationStepStatus.running;
  error_code = none;
  execution_token = some d.token;
  execution_lease_expires_at = some (lease_end d.now);
  updated_at = d.now;
  attempts = s.attempts + 1;
}

-- `stringValue`: a text that is not empty.
abbrev pub string_value : Option String → Option String
string_value none = none
string_value (some s) = if s == "" then none else some s

-- The answer of `claimWhere`, from the first row that the update returned.
abbrev pub answer_from : Draw → Bool → Option PublicationStep → StepClaim
answer_from d interrupted none = claimed d.token (lease_end d.now) interrupted
answer_from d interrupted (some r) =
    claimed (get_or (string_value r.execution_token) d.token)
      (get_or r.execution_lease_expires_at (lease_end d.now)) interrupted

unfoldable pub claim_where :
    String
    → (PublicationStep → Bool)
    → Bool
    → Draw
    → List PublicationStep
    → StepClaim × List PublicationStep
claim_where i condition interrupted d rows =
    let hit = at step_id i condition in
    let returned = map (start d) (filter hit rows) in
    let rows' = update_where hit (start d) rows in
    (
      if eqb (length returned) 1 then answer_from d interrupted (head? returned) else unclaimed,
      rows',
    )

-- `"status" IN ('PENDING', 'FAILED')`
abbrev pub is_claimable : PublicationStep → Bool
is_claimable s = is_pending s.status || is_failed s.status

abbrev pub expired : ℕ → Option ℕ → Bool
expired now none = true
expired now (some t) = ltb t now

-- `"status" = 'RUNNING' AND (lease IS NULL OR lease < now)`
abbrev pub is_interrupted : ℕ → PublicationStep → Bool
is_interrupted now s = is_running s.status && expired now s.execution_lease_expires_at

-- The second update is made only if the first one claims nothing.
abbrev pub or_reclaim :
    StepClaim × List PublicationStep
    → (List PublicationStep → StepClaim × List PublicationStep)
    → StepClaim × List PublicationStep
or_reclaim (claimed t l b, rows) next = (claimed t l b, rows)
or_reclaim (unclaimed, rows) next = next rows

unfoldable pub claim :
    String → Draw → ℕ → Draw → List PublicationStep → StepClaim × List PublicationStep
claim i first now second rows =
    or_reclaim (claim_where i is_claimable false first rows)
      (claim_where i (is_interrupted now) true second)

abbrev pub holds_token : String → PublicationStep → Bool
holds_token token s = get_or (map_some (λ t. t == token) s.execution_token) false

-- The affected count is compared with one.
abbrev pub update_one :
    String
    → (PublicationStep → Bool)
    → (PublicationStep → PublicationStep)
    → List PublicationStep
    → Bool × List PublicationStep
update_one i condition set rows =
    let hit = at step_id i condition in
    (eqb (length (filter hit rows)) 1, update_where hit set rows)

abbrev pub extend_lease : ℕ → PublicationStep → PublicationStep
extend_lease now s = record s {
  execution_lease_expires_at = some (lease_end now);
  updated_at = now;
}

unfoldable pub heartbeat : String → String → ℕ → List PublicationStep → Bool × List PublicationStep
heartbeat i token now =
    update_one i (λ s. holds_token token s && is_running s.status) (extend_lease now)

abbrev pub approved_before : Option ℕ → ℕ → Bool
approved_before none revision = true
approved_before (some a) revision = ltb a revision

abbrev pub is_reopenable : ℕ → PublicationStep → Bool
is_reopenable revision s =
    is_needs_review s.status
    && eqb s.review_revision revision
    && approved_before s.approved_revision s.review_revision

abbrev pub reopen : ℕ → ℕ → PublicationStep → PublicationStep
reopen revision now s = record s {
  status = PublicationStepStatus.pending;
  error_code = none;
  execution_token = none;
  execution_lease_expires_at = none;
  approved_revision = some revision;
  updated_at = now;
}

unfoldable pub reopen_for_review :
    String → ℕ → ℕ → List PublicationStep → Bool × List PublicationStep
reopen_for_review i revision now = update_one i (is_reopenable revision) (reopen revision now)

abbrev pub succeed : PublicationStepResult → ℕ → PublicationStep → PublicationStep
succeed result now s = record s {
  status = PublicationStepStatus.succeeded;
  provider_object_id = some result.provider_object_id;
  provider_object_version = result.provider_object_version;
  provider_url = result.provider_url;
  content_hash = result.content_hash;
  error_code = none;
  execution_token = none;
  execution_lease_expires_at = none;
  updated_at = now;
}

unfoldable pub mark_succeeded :
    String → String → PublicationStepResult → ℕ → List PublicationStep → Bool × List PublicationStep
mark_succeeded i token result now = update_one i (holds_token token) (succeed result now)

-- The two statuses that `markFailed` may be given.
pub data FailureStatus : Type 0 where
  failed needs_review : FailureStatus

abbrev pub to_step_status : FailureStatus → PublicationStepStatus
to_step_status failed = PublicationStepStatus.failed
to_step_status needs_review = PublicationStepStatus.needs_review

abbrev pub fail : FailureStatus → PublicationErrorCode → ℕ → PublicationStep → PublicationStep
fail status code now s = record s {
  status = to_step_status status;
  error_code = some code;
  execution_token = none;
  execution_lease_expires_at = none;
  updated_at = now;
}

unfoldable pub mark_failed :
    String
    → String
    → FailureStatus
    → PublicationErrorCode
    → ℕ
    → List PublicationStep
    → Bool × List PublicationStep
mark_failed i token status code now = update_one i (holds_token token) (fail status code now)
