-- ===== src/Publication/Claimer/Review.antt =====
-- publication-step-claimer.service.ts: which rows the calls leave alone, and for how long.
use work_copilot.Base.{
  ℕ, ◌+◌, String, Bool, true, false, Option, none, some, List, [], ◌∷◌, ◌≡◌, refl, arith,
  if◌then◌else◌, ◌&&◌, ◌==◌, Unique, eqb, Option-cases, any, row,
}
use work_copilot.Publication.Claimer.{StepClaim, claimed, unclaimed, step_id, approved_before}
use work_copilot.Publication.Claimer.Machine.{
  Call, claims, beats, reopens, succeeds, fails, perform_at, run_row, run, run-row,
}
use work_copilot.Publication.Claimer.Traces.{IsSound}
use work_copilot.Publication.Types.{PublicationStep, is_succeeded, is_needs_review}
use work_copilot.Publication.Claimer.Laws.{claim_row}

perform_at_finished :
    (j : String) (c : Call) (s : PublicationStep)
    → IsSound s
    → is_succeeded s.status ≡ true
    → perform_at j c (some s) ≡ some s
perform_at_finished j (claims i first now second) s h d = ground arith
perform_at_finished j (beats i token now) s h d = ground arith
perform_at_finished j (reopens i revision now) s h d = ground arith
perform_at_finished j (succeeds i token result now) s h d = ground arith
perform_at_finished j (fails i token status code now) s h d = ground arith

run_row_finished :
    (j : String) (cs : List Call) (s : PublicationStep)
    → IsSound s
    → is_succeeded s.status ≡ true
    → run_row j cs (some s) ≡ some s
run_row_finished j [] s h d = refl
run_row_finished j (c ∷ cs) s h d = rw (perform_at_finished j c s h d) (run_row_finished j cs s h d)

-- Where no two rows share a key, a finished step whose row is sound is final: no calls of any
-- workers change it.
pub run_finished :
    (j : String) (cs : List Call) (rows : List PublicationStep) (s : PublicationStep)
    → Unique step_id rows
    → row step_id j rows ≡ some s
    → IsSound s
    → is_succeeded s.status ≡ true
    → row step_id j (run cs rows) ≡ some s
run_finished j cs rows s u e h d = rw (run-row j cs rows u, e) (run_row_finished j cs s h d)

-- The call reopens the key at the revision.
abbrev pub is_reopening : String → ℕ → Call → Bool
is_reopening j r (reopens i revision now) = (i == j) && eqb r revision
is_reopening j r _ = false

-- A revision that was previewed later than the last one that was approved.
abbrev pub is_fresh : PublicationStep → Bool
is_fresh s = approved_before s.approved_revision s.review_revision

perform_at_parked :
    (j : String) (c : Call) (s : PublicationStep)
    → IsSound s
    → is_needs_review s.status ≡ true
    → (is_reopening j s.review_revision c && is_fresh s) ≡ false
    → perform_at j c (some s) ≡ some s
perform_at_parked j (claims i first now second) s h d n = ground arith
perform_at_parked j (beats i token now) s h d n = ground arith
perform_at_parked j (reopens i revision now) s h d n = ground arith
perform_at_parked j (succeeds i token result now) s h d n = ground arith
perform_at_parked j (fails i token status code now) s h d n = ground arith

run_row_parked :
    (j : String) (cs : List Call) (s : PublicationStep)
    → IsSound s
    → is_needs_review s.status ≡ true
    → (any (is_reopening j s.review_revision) cs && is_fresh s) ≡ false
    → run_row j cs (some s) ≡ some s
run_row_parked j [] s h d n = refl
run_row_parked j (c ∷ cs) s h d n =
    rw (perform_at_parked j c s h d (ground arith)) (run_row_parked j cs s h d (ground arith))

-- Where no two rows share a key, a step that waits for review, and whose row is sound, stays as
-- it is under calls of which none reopens it at its review revision, or under any calls if that
-- revision was approved before.
pub run_parked :
    (j : String) (cs : List Call) (rows : List PublicationStep) (s : PublicationStep)
    → Unique step_id rows
    → row step_id j rows ≡ some s
    → IsSound s
    → is_needs_review s.status ≡ true
    → (any (is_reopening j s.review_revision) cs && is_fresh s) ≡ false
    → row step_id j (run cs rows) ≡ some s
run_parked j cs rows s u e h d n = rw (run-row j cs rows u, e) (run_row_parked j cs s h d n)

-- How often the calls start an execution of the row.
abbrev pub is_claimed : StepClaim → Bool
is_claimed (claimed t l b) = true
is_claimed unclaimed = false

abbrev pub starts_now : String → Call → Option PublicationStep → ℕ
starts_now j (claims i first now second) o =
    if (i == j) && is_claimed (claim_row first now second o).0 then 1 else 0
starts_now j _ o = 0

abbrev pub starts : String → List Call → Option PublicationStep → ℕ
starts j [] o = 0
starts j (c ∷ cs) o = starts_now j c o + starts j cs (perform_at j c o)

abbrev pub attempts_of : Option PublicationStep → ℕ
attempts_of none = 0
attempts_of (some s) = s.attempts

attempts-perform_at :
    (j : String) (c : Call) (o : Option PublicationStep)
    → attempts_of (perform_at j c o) ≡ attempts_of o + starts_now j c o
attempts-perform_at j (claims i first now second) o = ground (arith, Option-cases o)
attempts-perform_at j (beats i token now) o = ground (arith, Option-cases o)
attempts-perform_at j (reopens i revision now) o = ground (arith, Option-cases o)
attempts-perform_at j (succeeds i token result now) o = ground (arith, Option-cases o)
attempts-perform_at j (fails i token status code now) o = ground (arith, Option-cases o)

attempts-run_row :
    (j : String) (cs : List Call) (o : Option PublicationStep)
    → attempts_of (run_row j cs o) ≡ attempts_of o + starts j cs o
attempts-run_row j [] o = omega arith
attempts-run_row j (c ∷ cs) o =
    omega (arith, attempts-perform_at j c o, attempts-run_row j cs (perform_at j c o))

-- Where no two rows share a key, the attempts of a row grow by the number of the claims that
-- succeed, and by nothing else.
pub attempts-run :
    (j : String) (cs : List Call) (rows : List PublicationStep)
    → Unique step_id rows
    → attempts_of (row step_id j (run cs rows))
      ≡ attempts_of (row step_id j rows) + starts j cs (row step_id j rows)
attempts-run j cs rows u = rw (run-row j cs rows u) (attempts-run_row j cs _)
