-- ===== src/Publication/Execute/Delivers.antt =====
-- publication.service.ts: what an undisturbed execution of a step leaves in its row.
use work_copilot.Base.{
  ℕ, String, Bool, true, false, Option, none, some, List, ◌≡◌, refl, ◌∙◌, row, Unique, [], ◌∷◌, ◌+◌,
  subst, eq_refl, ap,
}
use work_copilot.Publication.World.{Outside, World, WriteRequest, Attempt}
use work_copilot.Publication.Execute.{
  StepExecution, claim_step, record_success, run_operation, execute_step, await_interludes,
  after_claim, execute_claimed, sends, write_result, started, record_failure, failure_for,
}
use work_copilot.Publication.Types.{PublicationStep, is_succeeded}
use work_copilot.Publication.Claimer.{
  mark_succeeded, Draw, step_id, PublicationStepResult, start, is_claimable, holds_token, claimed,
  succeed, lease_end,
}
use work_copilot.Failure.{ok, Result}
use work_copilot.Publication.Claimer.Laws.{update_one-swap, claim_where_hit, swap}
use work_copilot.Publication.Recovery.{write_result_from_step}
use work_copilot.Publication.Claimer.Traces.{Holds}
use work_copilot.Publication.World.Program.{bind-ok_at, Program, bind_result}
use work_copilot.Publication.Execute.Writes.{record_success-writes}

module _ (o : Outside) where
  claim_step-clean_hit :
      (s t : PublicationStep) (w : World)
      → Unique step_id w.steps
      → row step_id s.id w.steps ≡ some t
      → is_claimable t ≡ true
      → let d : Draw = record { now = w.clock; token = o.uuid w.drawn } in
        ((claim_step o s.id w).0 ≡ ok (claimed d.token (lease_end d.now) false))
        × ((claim_step o s.id w).1.writes ≡ w.writes)
        × (row step_id s.id (claim_step o s.id w).1.steps ≡ some (start d t))
        × Unique step_id (claim_step o s.id w).1.steps
  unfolding claim_step
  claim_step-clean_hit s t w u e h =
      let d : Draw = record { now = w.clock; token = o.uuid w.drawn } in
      let hit = claim_where_hit s.id is_claimable false d w.steps u t e h in
      rw hit.0 (refl, refl, hit.1.here, hit.1.unique)

  record_success-hit :
      (s t : PublicationStep) (token : String) (result : PublicationStepResult) (w : World)
      → Unique step_id w.steps
      → row step_id s.id w.steps ≡ some t
      → holds_token token t ≡ true
      → ((record_success o s token result false w).0
          ≡ ok (StepExecution.succeeded result, succeed result (o.tick w.clock) s))
        × (row step_id s.id (record_success o s token result false w).1.steps
            ≡ some (succeed result w.clock t))
  unfolding record_success mark_succeeded
  record_success-hit s t token result w u e h =
      let r =
        update_one-swap s.id (holds_token token) (succeed result w.clock) (λ x. refl) w.steps u in
      let swapped : swap (holds_token token) (succeed result w.clock) (row step_id s.id w.steps)
          ≡ (true, some (succeed result w.clock t)) =
        rw (e, h) in
      rw (r.0, swapped) (refl, rw swapped at r.1.here)

  -- While a write is awaited nothing happens to the steps.
  run_operation-alone :
      (i token : String) (request : WriteRequest) (w : World)
      → o.meanwhile w.writes request ≡ []
      → run_operation o i token (sends request) w
        ≡ (ok (o.respond w.writes request, false), record w { writes = request ∷ w.writes })
  unfolding run_operation await_interludes
  run_operation-alone i token request w alone = rw alone refl

  -- What an execution that delivered leaves.
  abbrev pub Delivered :
      PublicationStep
      → WriteRequest
      → PublicationStepResult
      → ℕ
      → List WriteRequest
      → Result (StepExecution × PublicationStep) × World
      → Type 0
  Delivered s request result attempts before done =
      ((s' : PublicationStep) × (done.0 ≡ ok (StepExecution.succeeded result, s')))
      × (done.1.writes ≡ request ∷ before)
      × Holds
          (λ r.
            (is_succeeded r.status ≡ true)
            × (r.provider_object_id ≡ some result.provider_object_id)
            × (r.attempts ≡ attempts))
          (row step_id s.id done.1.steps)

  record_success-Delivered :
      (s t : PublicationStep) (token : String) (request : WriteRequest) (before : List WriteRequest)
      (result : PublicationStepResult) (w : World)
      → Unique step_id w.steps
      → row step_id s.id w.steps ≡ some t
      → holds_token token t ≡ true
      → w.writes ≡ request ∷ before
      → Delivered s request result t.attempts before (record_success o s token result false w)
  record_success-Delivered s t token request before result w u e h sent_it =
      let hit = record_success-hit s t token result w u e h in
      (
        (_, hit.0),
        record_success-writes o s token result false w ∙ sent_it,
        rw hit.1 (refl, refl, refl),
      )

  -- What follows the awaited operation.
  abbrev settle :
      PublicationStep
      → String
      → Option String
      → Attempt × Bool
      → Program (StepExecution × PublicationStep)
  settle s token fallback x = elim (write_result fallback x.0) [
    | some result ↦ record_success o s token result x.1
    | none ↦ record_failure o s token (failure_for s.step_key x.0) x.1
  ]

  settle-success :
      (s : PublicationStep) (token : String) (fallback : Option String) (x : Attempt × Bool)
      (result : PublicationStepResult) (v : World)
      → write_result fallback x.0 ≡ some result
      → settle s token fallback x v ≡ record_success o s token result x.1 v
  settle-success s token fallback x result v answer = rw (answer, settle) refl

  execute_claimed-success :
      (s : PublicationStep) (token : String) (request : WriteRequest) (fallback : Option String)
      (result : PublicationStepResult) (w : World)
      → o.meanwhile w.writes request ≡ []
      → write_result fallback (o.respond w.writes request) ≡ some result
      → execute_claimed o s token (sends request) fallback w
        ≡ record_success o s token result false (record w { writes = request ∷ w.writes })
  unfolding execute_claimed
  execute_claimed-success s token request fallback result w alone answer =
      ap (λ p. bind_result p (settle s token fallback))
        (run_operation-alone s.id token request w alone)
      ∙ settle-success s token fallback (o.respond w.writes request, false) result _ answer

  execute_claimed-Delivered :
      (s t : PublicationStep) (token : String) (request : WriteRequest) (fallback : Option String)
      (result : PublicationStepResult) (w : World)
      → Unique step_id w.steps
      → row step_id s.id w.steps ≡ some t
      → holds_token token t ≡ true
      → o.meanwhile w.writes request ≡ []
      → write_result fallback (o.respond w.writes request) ≡ some result
      → Delivered s request result t.attempts w.writes
          (execute_claimed o s token (sends request) fallback w)
  execute_claimed-Delivered s t token request fallback result w u e h alone answer =
      rw (execute_claimed-success s token request fallback result w alone answer) (
        record_success-Delivered s t token request w.writes result
          (record w { writes = request ∷ w.writes }) u e h refl)

  -- Where no two rows share a key, the row is pending or failed, the step in memory has no
  -- result, nothing happens to the steps while the write is awaited, and the provider answers
  -- it with an object, an execution succeeds with this object: the result is returned, the
  -- write was sent once, and the row has finished with the object and one more attempt.
  pub execute_step-delivers :
      (s t : PublicationStep) (request : WriteRequest) (fallback : Option String) (w : World)
      (result : PublicationStepResult)
      → Unique step_id w.steps
      → row step_id s.id w.steps ≡ some t
      → is_claimable t ≡ true
      → write_result_from_step s ≡ none
      → o.meanwhile w.writes request ≡ []
      → write_result fallback (o.respond w.writes request) ≡ some result
      → Delivered s request result
          (t.attempts + 1)
          w.writes
          (execute_step o s (sends request) fallback w)
  unfolding execute_step after_claim
  execute_step-delivers s t request fallback w result u e h no_result alone answer =
      let (hit, same, here, unique) = claim_step-clean_hit s t w u e h in
      let v = (claim_step o s.id w).1 in
      let token = o.uuid w.drawn in
      rw (no_result, execute_step)
        (rw (bind-ok_at (claim_step o s.id w) (after_claim o s (sends request) fallback) hit) (
          subst
            (λ ws. Delivered s request result (t.attempts + 1) ws (
              execute_claimed o (started s token (lease_end w.clock) v.clock) token (sends request)
                fallback (record v { clock = o.tick v.clock })))
            same
            (execute_claimed-Delivered (started s token (lease_end w.clock) v.clock)
              (start (record { now = w.clock; token = token }) t) token request fallback result
              (record v { clock = o.tick v.clock }) unique here (eq_refl token) (rw same alone)
              (rw same answer))))
