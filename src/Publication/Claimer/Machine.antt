-- ===== src/Publication/Claimer/Machine.antt =====
-- publication-step-claimer.service.ts as a machine: the workers' calls in any order, on the table
-- and on the row of one key.
use work_copilot.Base.{
  ℕ, String, Option, List, [], ◌∷◌, ◌==◌, ◌≡◌, refl, sym, ◌∙◌, inl, inr, if◌then◌else◌, row, Unique,
  eq_iff, Bool-cases, subst, ◌&&◌, false≢true,
}
use work_copilot.Publication.Types.{PublicationStep, PublicationErrorCode, is_running}
use work_copilot.Publication.Claimer.{
  Draw, PublicationStepResult, FailureStatus, step_id, claim, heartbeat, reopen_for_review,
  mark_succeeded, mark_failed, holds_token, extend_lease, is_reopenable, reopen, succeed, fail,
}
use work_copilot.Publication.Claimer.Laws.{swap, Sets, update_one-swap, claim_row, claim-row}

-- A call of the service, with what it draws.
pub data Call : Type 0 where
  claims : String → Draw → ℕ → Draw → Call
  beats : String → String → ℕ → Call
  reopens : String → ℕ → ℕ → Call
  succeeds : String → String → PublicationStepResult → ℕ → Call
  fails : String → String → FailureStatus → PublicationErrorCode → ℕ → Call

abbrev pub target : Call → String
target (claims i first now second) = i
target (beats i token now) = i
target (reopens i revision now) = i
target (succeeds i token result now) = i
target (fails i token status code now) = i

abbrev pub perform : Call → List PublicationStep → List PublicationStep
perform (claims i first now second) rows = (claim i first now second rows).1
perform (beats i token now) rows = (heartbeat i token now rows).1
perform (reopens i revision now) rows = (reopen_for_review i revision now rows).1
perform (succeeds i token result now) rows = (mark_succeeded i token result now rows).1
perform (fails i token status code now) rows = (mark_failed i token status code now rows).1

abbrev pub run : List Call → List PublicationStep → List PublicationStep
run [] rows = rows
run (c ∷ cs) rows = run cs (perform c rows)

-- The same calls on the row of their key alone.
abbrev pub perform_row : Call → Option PublicationStep → Option PublicationStep
perform_row (claims i first now second) o = (claim_row first now second o).1
perform_row (beats i token now) o =
    (swap (λ s. holds_token token s && is_running s.status) (extend_lease now) o).1
perform_row (reopens i revision now) o = (swap (is_reopenable revision) (reopen revision now) o).1
perform_row (succeeds i token result now) o = (swap (holds_token token) (succeed result now) o).1
perform_row (fails i token status code now) o =
    (swap (holds_token token) (fail status code now) o).1

-- A call for another key is skipped.
abbrev pub perform_at : String → Call → Option PublicationStep → Option PublicationStep
perform_at j c o = if target c == j then perform_row c o else o

abbrev pub run_row : String → List Call → Option PublicationStep → Option PublicationStep
run_row j [] o = o
run_row j (c ∷ cs) o = run_row j cs (perform_at j c o)

perform-Sets :
    (c : Call) (rows : List PublicationStep)
    → Unique step_id rows
    → Sets (target c) (perform_row c (row step_id (target c) rows)) rows (perform c rows)
unfolding heartbeat reopen_for_review mark_succeeded mark_failed
perform-Sets (claims i first now second) rows u = (claim-row i first now second rows u).1
perform-Sets (beats i token now) rows u =
    (update_one-swap i _ (extend_lease now) (λ s. refl) rows u).1
perform-Sets (reopens i revision now) rows u =
    (update_one-swap i _ (reopen revision now) (λ s. refl) rows u).1
perform-Sets (succeeds i token result now) rows u =
    (update_one-swap i _ (succeed result now) (λ s. refl) rows u).1
perform-Sets (fails i token status code now) rows u =
    (update_one-swap i _ (fail status code now) (λ s. refl) rows u).1

pub perform-Unique :
    (c : Call) (rows : List PublicationStep) → Unique step_id rows → Unique step_id (perform c rows)
perform-Unique c rows u = (perform-Sets c rows u).unique

pub run-Unique :
    (cs : List Call) (rows : List PublicationStep)
    → Unique step_id rows
    → Unique step_id (run cs rows)
run-Unique [] rows u = u
run-Unique (c ∷ cs) rows u = run-Unique cs (perform c rows) (perform-Unique c rows u)

perform-row :
    (j : String) (c : Call) (rows : List PublicationStep)
    → Unique step_id rows
    → row step_id j (perform c rows) ≡ perform_at j c (row step_id j rows)
perform-row j c rows u = elim (Bool-cases (target c == j)) [
  | inl e ↦
      let same : target c ≡ j = (eq_iff (target c) j).0 e in
      rw e (
        subst (λ k. row step_id k (perform c rows) ≡ perform_row c (row step_id k rows)) same
          (perform-Sets c rows u).here)
  | inr n ↦ rw n (
      (perform-Sets c rows u).elsewhere j
        (λ same. false≢true (sym n ∙ (eq_iff (target c) j).1 same)))
]

-- Where no two rows share a key, the table is, under any calls of any workers, for each key the
-- machine of one row.
pub run-row :
    (j : String) (cs : List Call) (rows : List PublicationStep)
    → Unique step_id rows
    → row step_id j (run cs rows) ≡ run_row j cs (row step_id j rows)
run-row j [] rows u = refl
run-row j (c ∷ cs) rows u =
    rw (run-row j cs (perform c rows) (perform-Unique c rows u), perform-row j c rows u) refl
