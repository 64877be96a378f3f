-- ===== src/Publication/Execute/Writes.antt =====
-- publication.service.ts: which executions send a write to the provider.
use work_copilot.Base.{
  String, Bool, true, false, Option, none, some, List, [], ◌∷◌, ◌≡◌, inl, inr, refl, arith,
  Option-cases, ◌∙◌,
}
use work_copilot.Publication.Types.{PublicationStep}
use work_copilot.Publication.Claimer.{PublicationStepResult}
use work_copilot.Publication.World.{World, Outside, WriteRequest, Interlude, another, beat, Attempt}
use work_copilot.Publication.World.Program.{Program, bind_holds}
use work_copilot.Publication.Execute.{
  StepExecution, Operation, sends, rejects, StepFailure, record_success, claim_step,
  await_interludes, record_failure, park_interrupted_execution, run_operation, execute_claimed,
  write_result, failure_for,
}

-- The writes of a world after an operation.
abbrev pub sent : Operation → List WriteRequest → List WriteRequest
sent (sends request) ws = request ∷ ws
sent (rejects code retryable) ws = ws

module _ (o : Outside) where
  pub claim_step-writes : (i : String) (w : World) → (claim_step o i w).1.writes ≡ w.writes
  unfolding claim_step
  claim_step-writes i w = ground arith

  pub await_interludes-writes :
      (i token : String) (lost : Bool) (l : List Interlude) (w : World)
      → (await_interludes o i token lost l w).1.writes ≡ w.writes
  unfolding await_interludes
  await_interludes-writes i token lost [] w = refl
  await_interludes-writes i token lost (another c ∷ rest) w =
      await_interludes-writes i token lost rest _
  await_interludes-writes i token lost (beat false ∷ rest) w =
      await_interludes-writes i token true rest w
  await_interludes-writes i token lost (beat true ∷ rest) w =
      await_interludes-writes i token _ rest _

  pub record_failure-writes :
      (s : PublicationStep) (token : String) (f : StepFailure) (lost : Bool) (w : World)
      → (record_failure o s token f lost w).1.writes ≡ w.writes
  unfolding record_failure
  record_failure-writes s token f lost w = ground arith

  pub record_success-writes :
      (s : PublicationStep) (token : String) (r : PublicationStepResult) (lost : Bool) (w : World)
      → (record_success o s token r lost w).1.writes ≡ w.writes
  unfolding record_success
  record_success-writes s token r lost w = ground arith

  pub run_operation-writes :
      (i token : String) (op : Operation) (w : World)
      → (run_operation o i token op w).1.writes ≡ sent op w.writes
  unfolding run_operation
  run_operation-writes i token (sends request) w = ground (
    arith,
    await_interludes-writes i token false (o.meanwhile w.writes request)
        (record w { writes = request ∷ w.writes }),
  )
  run_operation-writes i token (rejects code retryable) w = refl

  pub execute_claimed-writes :
      (s : PublicationStep) (token : String) (op : Operation) (fallback : Option String) (w : World)
      → (execute_claimed o s token op fallback w).1.writes ≡ sent op w.writes
  unfolding execute_claimed
  execute_claimed-writes s token op fallback w =
      bind_holds (λ w'. w'.writes ≡ sent op w.writes) (run_operation o s.id token op w) _
        (run_operation-writes s.id token op w)
        λ a _. finish a (run_operation o s.id token op w).1 (run_operation-writes s.id token op w)
    where
      finish :
          (a : Attempt × Bool) (v : World)
          → v.writes ≡ sent op w.writes
          → ((elim (write_result fallback a.0) as (λ _. Program (StepExecution × PublicationStep)) [
            | some result ↦ record_success o s token result a.1
            | none ↦ record_failure o s token (failure_for s.step_key a.0) a.1
          ])
              v).1.writes
            ≡ sent op w.writes
      finish a v h = elim (Option-cases (write_result fallback a.0)) [
        | inl e ↦ rw e (record_failure-writes s token (failure_for s.step_key a.0) a.1 v ∙ h)
        | inr (r, e) ↦ rw e (record_success-writes s token r a.1 v ∙ h)
      ]

  pub park-writes :
      (s : PublicationStep) (token : String) (w : World)
      → (park_interrupted_execution o s token w).1.writes ≡ w.writes
  unfolding park_interrupted_execution
  park-writes s token w = ground arith
