-- ===== src/Publication/Tests/Claims.antt =====
-- publication-step-claimer.service.ts: runs of the workers' calls on two rows.
use work_copilot.Base.{false, none, some, List, [], ◌∷◌, ◌≡◌, refl, row, inl, arith}
use work_copilot.Publication.Claimer.{
  mark_succeeded, step_id, PublicationStepResult, Draw, claim, mark_failed, FailureStatus,
  StepClaim, heartbeat,
}
use work_copilot.Publication.Claimer.Traces.{Holds, IsSound, run-IsSound, fenced}
use work_copilot.Publication.Claimer.Machine.{Call, run, run_row, run-row}
use work_copilot.Publication.Claimer.Exclusive.{HeldBy, exclusive}
use work_copilot.Publication.Claimer.Review.{run_finished, run_parked}
use work_copilot.Publication.Tests.{
  step_2, rows, parked_step, done_step, done_step-IsSound, parked_step-IsSound, rows-Unique,
  step_1-IsSound, differ,
}
use work_copilot.Publication.Types.{PublicationErrorCode}

abbrev draw_2 : Draw
draw_2 = record { now = 50; token = "w2" }

abbrev draw_3 : Draw
draw_3 = record { now = 60; token = "w3" }

abbrev outcome : PublicationStepResult
outcome = record {
  provider_object_id = "link";
  provider_object_version = none;
  provider_url = none;
  content_hash = none;
}

-- The second worker takes the row and another one tries to, before the first one reports.
abbrev calls : List Call
calls =
    Call.claims "s1" draw_2 55 draw_3
    ∷ Call.claims "s2" draw_2 55 draw_3
    ∷ Call.succeeds "s1" "w2" outcome 70
    ∷ []

run-row_example : row step_id "s1" (run calls rows) ≡ run_row "s1" calls (row step_id "s1" rows)
run-row_example = run-row "s1" calls rows rows-Unique

run-IsSound_example : Holds IsSound (row step_id "s1" (run calls rows))
run-IsSound_example = run-IsSound "s1" calls rows rows-Unique step_1-IsSound

fenced_example :
    (mark_succeeded "s1" "w1" outcome 80 (run calls rows) ≡ (false, run calls rows))
    × (mark_failed "s1" "w1" FailureStatus.failed PublicationErrorCode.confluence_write_failed 80
          (run calls rows)
        ≡ (false, run calls rows))
    × (heartbeat "s1" "w1" 80 (run calls rows) ≡ (false, run calls rows))
fenced_example =
    fenced "s1" "w1" calls rows rows-Unique
      (
        (differ "w2" "w1" refl, differ "w3" "w1" refl),
        ((differ "w2" "w1" refl, differ "w3" "w1" refl), (tt, tt)),
      )
      refl outcome FailureStatus.failed PublicationErrorCode.confluence_write_failed 80

run_finished_example : row step_id "s1" (run calls (done_step ∷ [])) ≡ some done_step
run_finished_example =
    run_finished "s1" calls (done_step ∷ []) done_step (tt, tt) refl done_step-IsSound refl

-- Revision one was approved before: reopening at it does nothing.
abbrev reopening : List Call
reopening = Call.reopens "s1" 1 90 ∷ calls

run_parked_example : row step_id "s1" (run reopening (parked_step ∷ [])) ≡ some parked_step
run_parked_example =
    run_parked "s1" reopening (parked_step ∷ []) parked_step (tt, tt) refl parked_step-IsSound refl
      refl

held_2 : HeldBy "w1" 31000 step_2
held_2 = record { busy = refl; owner = refl; lease = omega arith }

-- Two workers claim the row within the lease of the first one.
abbrev rivals : List Call
rivals = Call.claims "s2" draw_2 55 draw_3 ∷ Call.beats "s2" "w2" 56 ∷ []

exclusive_example :
    Holds (HeldBy "w1" 31000) (row step_id "s2" (run rivals rows))
    × ((claim "s2" draw_3 31000 draw_2 (run rivals rows)).0 ≡ StepClaim.unclaimed)
    × (row step_id "s2" (claim "s2" draw_3 31000 draw_2 (run rivals rows)).1
        ≡ row step_id "s2" (run rivals rows))
exclusive_example =
    exclusive "w1" 31000 "s2" rivals rows step_2 rows-Unique refl held_2
      (omega arith, (inl (differ "w2" "w1" refl), tt)) draw_3 draw_2 31000 (omega arith)
