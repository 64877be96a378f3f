-- ===== src/Publication/Execute/Parks.antt =====
-- publication.service.ts: an interrupted execution is parked for review and is not sent again.
use work_copilot.Base.{
  suc, String, true, false, Option, none, some, List, ◌≡◌, refl, ◌∙◌, arith, row, Unique, eq_refl,
  ap,
}
use work_copilot.Publication.World.{Outside, World, WriteRequest}
use work_copilot.Publication.Execute.{
  claim_step, park_interrupted_execution, record_failure, execute_step, after_claim, Operation,
  StepFailure, StepExecution, failure_status, started,
}
use work_copilot.Publication.Types.{
  PublicationStep, PublicationErrorCode, is_needs_review, is_indeterminate,
}
use work_copilot.Publication.Claimer.{
  step_id, mark_failed, Draw, holds_token, is_claimable, is_interrupted, claimed, fail, lease_end,
  start, claim_where,
}
use work_copilot.Failure.{Result, ok}
use work_copilot.Publication.Execute.Writes.{record_failure-writes, claim_step-writes}
use work_copilot.Publication.Recovery.{write_result_from_step}
use work_copilot.Publication.Claimer.Traces.{Holds}
use work_copilot.Publication.World.Program.{bind-ok_at}
use work_copilot.Publication.Claimer.Laws.{update_one-swap, swap, claim_where_miss, claim_where_hit}

module _ (o : Outside) where
  -- The draw of the second update, after the one that took nothing and the clock of `claim`.
  abbrev late_draw : World → Draw
  late_draw w = record { now = o.tick (o.tick w.clock); token = o.uuid (suc w.drawn) }

  claim_step-late_hit :
      (s t : PublicationStep) (w : World)
      → Unique step_id w.steps
      → row step_id s.id w.steps ≡ some t
      → is_claimable t ≡ false
      → is_interrupted (o.tick w.clock) t ≡ true
      → let d = late_draw w in
        ((claim_step o s.id w).0 ≡ ok (claimed d.token (lease_end d.now) true))
        × (row step_id s.id (claim_step o s.id w).1.steps ≡ some (start d t))
        × Unique step_id (claim_step o s.id w).1.steps
  unfolding claim_step
  claim_step-late_hit s t w u e busy late =
      let first : Draw = record { now = w.clock; token = o.uuid w.drawn } in
      let miss = claim_where_miss s.id is_claimable false first w.steps u (some t) e (rw busy) in
      let hit =
        claim_where_hit s.id (is_interrupted (o.tick w.clock)) true (late_draw w)
          (claim_where s.id is_claimable false first w.steps).1 miss.1.unique t miss.1.here late in
      rw miss.0 (ap ok hit.0, hit.1.here, hit.1.unique)

  record_failure-hit :
      (s t : PublicationStep) (token : String) (f : StepFailure) (w : World)
      → Unique step_id w.steps
      → row step_id s.id w.steps ≡ some t
      → holds_token token t ≡ true
      → ((record_failure o s token f false w).0
          ≡ ok (StepExecution.failed, fail (failure_status f) f.code (o.tick w.clock) s))
        × (row step_id s.id (record_failure o s token f false w).1.steps
            ≡ some (fail (failure_status f) f.code w.clock t))
  unfolding record_failure mark_failed
  record_failure-hit s t token f w u e h =
      let r =
        update_one-swap s.id (holds_token token) (fail (failure_status f) f.code w.clock)
          (λ x. refl) w.steps u in
      let swapped : swap (holds_token token) (fail (failure_status f) f.code w.clock)
            (row step_id s.id w.steps)
          ≡ (true, some (fail (failure_status f) f.code w.clock t)) =
        rw (e, h) in
      rw (r.0, swapped) (refl, rw swapped at r.1.here)

  -- The execution failed, its row waits for review as indeterminate, and nothing was sent.
  abbrev pub Parked :
      PublicationStep
      → List WriteRequest
      → Result (StepExecution × PublicationStep) × World
      → Type 0
  Parked s before done =
      ((s' : PublicationStep) × (done.0 ≡ ok (StepExecution.failed, s')))
      × (done.1.writes ≡ before)
      × Holds (λ r. (is_needs_review r.status ≡ true) × (is_indeterminate r.error_code ≡ true))
          (row step_id s.id done.1.steps)

  park-Parked :
      (s t : PublicationStep) (token : String) (before : List WriteRequest) (w : World)
      → Unique step_id w.steps
      → row step_id s.id w.steps ≡ some t
      → holds_token token t ≡ true
      → w.writes ≡ before
      → Parked s before (park_interrupted_execution o s token w)
  unfolding park_interrupted_execution
  park-Parked s t token before w u e h same =
      let f : StepFailure = record {
        code = PublicationErrorCode.publication_reconciliation_indeterminate;
        retryable = false;
      } in
      let hit = record_failure-hit s t token f w u e h in
      ((_, hit.0), record_failure-writes o s token f false w ∙ same, rw hit.1 (refl, refl))

  -- Where no two rows share a key and the step in memory has no result, an execution whose row
  -- is still running, with a lease that ran out, sends nothing: it fails, and the row waits for
  -- review as indeterminate.
  pub execute_step-Parked :
      (s t : PublicationStep) (op : Operation) (fallback : Option String) (w : World)
      → Unique step_id w.steps
      → row step_id s.id w.steps ≡ some t
      → is_interrupted (o.tick w.clock) t ≡ true
      → write_result_from_step s ≡ none
      → Parked s w.writes (execute_step o s op fallback w)
  unfolding execute_step after_claim
  execute_step-Parked s t op fallback w u e late no_result =
      let busy : is_claimable t ≡ false = ground arith in
      let (hit, here, unique) = claim_step-late_hit s t w u e busy late in
      let v = (claim_step o s.id w).1 in
      let d = late_draw w in
      rw (no_result, execute_step)
        (rw (bind-ok_at (claim_step o s.id w) (after_claim o s op fallback) hit) (
          park-Parked (started s d.token (lease_end d.now) v.clock) (start d t) d.token w.writes
            (record v { clock = o.tick v.clock }) unique here (eq_refl d.token)
            (claim_step-writes o s.id w)))
