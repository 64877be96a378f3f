-- ===== src/Publication/Execute.antt =====
-- publication.service.ts: one step of a publication, executed under a claim of its row.
pub mod Writes
pub mod Dispatch
pub mod Delivers
pub mod Parks
use work_copilot.Base.{
  ℕ, suc, ◌+◌, String, Bool, true, false, Option, none, some, List, [], ◌∷◌, ◌==◌, if◌then◌else◌,
  ◌&&◌, ◌||◌, not, map_some,
}
use work_copilot.Publication.Types.{
  PublicationStep, PublicationStepStatus, PublicationErrorCode, truthy,
}
use work_copilot.Publication.Claimer.{
  StepClaim, claimed, unclaimed, Draw, PublicationStepResult, FailureStatus, mark_failed,
  claim_where, mark_succeeded, is_claimable, heartbeat, succeed, fail, is_interrupted,
}
use work_copilot.Publication.World.{
  World, Outside, WriteRequest, Attempt, wrote, malformed, gateway_error, other_error, Interlude,
  another, beat,
}
use work_copilot.Publication.World.Program.{
  Program, ◌>>=◌, ◌>>◌, draw, pure, new_date, modify, on_steps, gets,
}
use work_copilot.Publication.Phases.{confluence_step, remote_link_step, summary_comment_step}
use work_copilot.Publication.Recovery.{write_result_from_step}
use work_copilot.Publication.Claimer.Machine.{perform}

pub data StepExecution : Type 0 where
  succeeded : PublicationStepResult → StepExecution
  failed in_progress stale : StepExecution

-- The operation that is awaited: a write of the gateway, or a rejected promise.
pub data Operation : Type 0 where
  sends : WriteRequest → Operation
  rejects : PublicationErrorCode → Bool → Operation

pub record StepFailure : Type 0 where
  pub code : PublicationErrorCode
  pub retryable : Bool

-- The code of a failure that the gateway did not name.
abbrev pub default_code : String → PublicationErrorCode
default_code key =
    if key == confluence_step
    then PublicationErrorCode.confluence_write_failed
    else if key == remote_link_step
    then PublicationErrorCode.jira_remote_link_failed
    else if key == summary_comment_step
    then PublicationErrorCode.jira_summary_comment_failed
    else PublicationErrorCode.jira_child_task_failed

unfoldable pub failure_for : String → Attempt → StepFailure
failure_for key (gateway_error code retryable) = record { code = code; retryable = retryable }
failure_for key _ = record { code = default_code key; retryable = true }

abbrev pub metric_stage : String → String
metric_stage key =
    if key == confluence_step
    then "confluence_page"
    else if key == remote_link_step
    then "jira_remote_link"
    else if key == summary_comment_step
    then "jira_summary_comment"
    else "jira_child_task"

-- `isWriteResult`, and the content hash that stands in for one that the provider left out.
abbrev pub with_fallback : Option String → PublicationStepResult → PublicationStepResult
with_fallback fallback r =
    if truthy r.content_hash || not (truthy fallback)
    then r
    else record r { content_hash = fallback }

unfoldable pub write_result : Option String → Attempt → Option PublicationStepResult
write_result fallback (wrote r) =
    if r.provider_object_id == "" then none else some (with_fallback fallback r)
write_result fallback _ = none

abbrev pub count_stage : String → Bool → Program (Unit {0})
count_stage key success = modify λ w. record w { metrics = (metric_stage key, success) ∷ w.metrics }

-- The row in memory after a claim, a success and a failure.
abbrev pub started : PublicationStep → String → ℕ → ℕ → PublicationStep
started s token lease now = record s {
  status = PublicationStepStatus.running;
  error_code = none;
  attempts = s.attempts + 1;
  execution_token = some token;
  execution_lease_expires_at = some lease;
  updated_at = now;
}

-- The status that a failure leaves.
abbrev pub failure_status : StepFailure → FailureStatus
failure_status f = if f.retryable then FailureStatus.failed else FailureStatus.needs_review

module _ (o : Outside) where
  -- `stepClaimer.claim`, its second update only if the first one takes nothing.
  unfoldable pub claim_step : String → Program StepClaim
  claim_step i = do
    first ← draw o
    clean ← on_steps (claim_where i is_claimable false first)
    elim clean [
      | claimed token lease interrupted ↦ pure (claimed token lease interrupted)
      | unclaimed ↦ do
        now ← new_date o
        second ← draw o
        on_steps (claim_where i (is_interrupted now) true second)
    ]

  -- The heartbeat timer beside the awaited write: whether a heartbeat was lost.
  unfoldable pub await_interludes : String → String → Bool → List Interlude → Program Bool
  await_interludes i token lost [] = pure lost
  await_interludes i token lost (another c ∷ rest) = do
    on_steps (λ rows. (tt, perform c rows))
    await_interludes i token lost rest
  await_interludes i token lost (beat false ∷ rest) = await_interludes i token true rest
  await_interludes i token lost (beat true ∷ rest) = do
    now ← new_date o
    alive ← on_steps (heartbeat i token now)
    await_interludes i token (lost || not alive) rest

  unfoldable pub run_operation : String → String → Operation → Program (Attempt × Bool)
  run_operation i token (rejects code retryable) = pure (gateway_error code retryable, false)
  run_operation i token (sends request) = do
    before ← gets (λ w. w.writes)
    modify (λ w. record w { writes = request ∷ w.writes })
    lost ← await_interludes i token false (o.meanwhile before request)
    pure (o.respond before request, lost)

  -- The `catch` branch.
  unfoldable pub record_failure :
      PublicationStep → String → StepFailure → Bool → Program (StepExecution × PublicationStep)
  record_failure s token failure lost = do
    now ← new_date o
    fenced ← on_steps (mark_failed s.id token (failure_status failure) failure.code now)
    if not fenced || lost then pure (stale, s) else (do
      later ← new_date o
      count_stage s.step_key false
      pure (failed, fail (failure_status failure) failure.code later s))

  unfoldable pub record_success :
      PublicationStep
      → String
      → PublicationStepResult
      → Bool
      → Program (StepExecution × PublicationStep)
  record_success s token result lost = do
    now ← new_date o
    fenced ← on_steps (mark_succeeded s.id token result now)
    if not fenced || lost then pure (stale, s) else (do
      later ← new_date o
      count_stage s.step_key true
      pure (succeeded result, succeed result later s))

  unfoldable pub park_interrupted_execution :
      PublicationStep → String → Program (StepExecution × PublicationStep)
  unfolding record_failure
  park_interrupted_execution s token =
      record_failure s token
        (record {
          code = PublicationErrorCode.publication_reconciliation_indeterminate;
          retryable = false;
        })
        false

  unfoldable pub execute_claimed :
      PublicationStep
      → String
      → Operation
      → Option String
      → Program (StepExecution × PublicationStep)
  execute_claimed s token operation fallback = do
    (attempt, lost) ← run_operation s.id token operation
    elim (write_result fallback attempt) [
      | some result ↦ record_success s token result lost
      | none ↦ record_failure s token (failure_for s.step_key attempt) lost
    ]

  -- What an execution does with the answer of its claim.
  unfoldable pub after_claim :
      PublicationStep
      → Operation
      → Option String
      → StepClaim
      → Program (StepExecution × PublicationStep)
  after_claim s operation fallback unclaimed = pure (in_progress, s)
  after_claim s operation fallback (claimed token lease interrupted) = do
    now ← new_date o
    let s' = started s token lease now
    if interrupted
        then park_interrupted_execution s' token
        else execute_claimed s' token operation fallback

  -- A finished step is answered from its row, and any other one is executed by who claims it.
  unfoldable pub execute_step :
      PublicationStep → Operation → Option String → Program (StepExecution × PublicationStep)
  execute_step s operation fallback = elim (write_result_from_step s) [
    | some result ↦ pure (succeeded result, s)
    | none ↦ do claim ← claim_step s.id; after_claim s operation fallback claim
  ]
