-- ===== src/Publication/Claimer/Traces.antt =====
-- publication-step-claimer.service.ts: what holds of a row under any calls of any workers.
use work_copilot.Base.{
  ℕ, String, Bool, true, false, Option, none, some, List, [], ◌∷◌, ◌≡◌, arith, Unique, is_some, row,
  All, eq_iff, ◌≢◌, count_some,
}
use work_copilot.Publication.Claimer.Machine.{
  Call, claims, beats, reopens, succeeds, fails, run_row, perform_at, run, run-row, run-Unique,
}
use work_copilot.Publication.Types.{PublicationStep, is_running, is_succeeded, PublicationErrorCode}
use work_copilot.Publication.Claimer.{
  step_id, holds_token, mark_succeeded, mark_failed, heartbeat, PublicationStepResult,
  FailureStatus, succeed, fail, extend_lease,
}
use work_copilot.Publication.Claimer.Laws.{update_one-idle}

-- A row is running exactly while a worker holds it, and a finished row names its object.
pub record IsSound (s : PublicationStep) : Type 0 where
  pub held : is_running s.status ≡ is_some s.execution_token
  pub leased : is_some s.execution_lease_expires_at ≡ is_some s.execution_token
  pub finished : is_succeeded s.status ≡ true → is_some s.provider_object_id ≡ true

-- The row is there and has the property.
abbrev pub Holds : (PublicationStep → Type 0) → Option PublicationStep → Type 0
Holds P none = ⊥
Holds P (some s) = P s

-- What every call keeps of a row that is there, every sequence of calls keeps.
module _ (P : PublicationStep → Type 0) (Q : Call → Type 0)
    (keeps : (j : String) (c : Call) (s : PublicationStep)
      → Q c
      → P s
      → Holds P (perform_at j c (some s)))
    (j : String) where
  keep_one : (c : Call) (o : Option PublicationStep) → Q c → Holds P o → Holds P (perform_at j c o)
  keep_one c none q h = absurd h
  keep_one c (some s) q h = keeps j c s q h

  run_row-Holds :
      (cs : List Call) (o : Option PublicationStep)
      → All Q cs
      → Holds P o
      → Holds P (run_row j cs o)
  run_row-Holds [] o q h = h
  run_row-Holds (c ∷ cs) o (q, qs) h = run_row-Holds cs (perform_at j c o) qs (keep_one c o q h)

  pub run-Holds :
      (cs : List Call) (rows : List PublicationStep)
      → Unique step_id rows
      → All Q cs
      → Holds P (row step_id j rows)
      → Holds P (row step_id j (run cs rows))
  run-Holds cs rows u q h = rw (run-row j cs rows u) (run_row-Holds cs _ q h)

abbrev Any : Call → Type 0
Any c = Unit

All-Any : (cs : List Call) → All Any cs
All-Any [] = tt
All-Any (c ∷ cs) = (tt, All-Any cs)

perform_at-IsSound :
    (j : String) (c : Call) (s : PublicationStep)
    → Any c
    → IsSound s
    → Holds IsSound (perform_at j c (some s))
perform_at-IsSound j (claims i first now second) s _ h = ground arith
perform_at-IsSound j (beats i token now) s _ h = ground arith
perform_at-IsSound j (reopens i revision now) s _ h = ground arith
perform_at-IsSound j (succeeds i token result now) s _ h = ground arith
perform_at-IsSound j (fails i token status code now) s _ h = ground arith

-- Where no two rows share a key, a row that is sound, with a token and a lease exactly while it
-- runs and an object if it has succeeded, is sound after any calls of any workers.
pub run-IsSound :
    (j : String) (cs : List Call) (rows : List PublicationStep)
    → Unique step_id rows
    → Holds IsSound (row step_id j rows)
    → Holds IsSound (row step_id j (run cs rows))
run-IsSound j cs rows u h = run-Holds IsSound Any perform_at-IsSound j cs rows u (All-Any cs) h

-- A call that hands no worker the token.
abbrev pub LeavesToken : String → Call → Type 0
LeavesToken token (claims i first now second) = (first.token ≢ token) × (second.token ≢ token)
LeavesToken token _ = Unit

abbrev pub Lost : String → PublicationStep → Type 0
Lost token s = holds_token token s ≡ false

perform_at-Lost :
    (token : String) (j : String) (c : Call) (s : PublicationStep)
    → LeavesToken token c
    → Lost token s
    → Holds (Lost token) (perform_at j c (some s))
perform_at-Lost token j (claims i first now second) s q h =
    ground (arith, eq_iff first.token token, eq_iff second.token token)
perform_at-Lost token j (beats i token' now) s q h = ground arith
perform_at-Lost token j (reopens i revision now) s q h = ground arith
perform_at-Lost token j (succeeds i token' result now) s q h = ground arith
perform_at-Lost token j (fails i token' status code now) s q h = ground arith

Lost-count :
    (token : String) (c : PublicationStep → Bool) (o : Option PublicationStep)
    → ((s : PublicationStep) → holds_token token s ≡ false → c s ≡ false)
    → Holds (Lost token) o
    → count_some c o ≡ 0
Lost-count token c none f h = absurd h
Lost-count token c (some s) f h = rw (f s h)

module _ (j token : String) (cs : List Call) (rows : List PublicationStep) (u : Unique step_id rows)
    (q : All (LeavesToken token) cs) (h : Holds (Lost token) (row step_id j rows)) where
  Lost-later : Holds (Lost token) (row step_id j (run cs rows))
  Lost-later = run-Holds (Lost token) (LeavesToken token) (perform_at-Lost token) j cs rows u q h

  -- Where no two rows share a key, and no later claim draws the token again, a worker whose
  -- token the row no longer has can write nothing any more, whatever the others do: its
  -- success, its failure and its heartbeat are refused and leave the table as it is.
  pub fenced :
      (result : PublicationStepResult) (status : FailureStatus) (code : PublicationErrorCode)
      (now : ℕ)
      → let later = run cs rows in
        (mark_succeeded j token result now later ≡ (false, later))
        × (mark_failed j token status code now later ≡ (false, later))
        × (heartbeat j token now later ≡ (false, later))
  unfolding mark_succeeded mark_failed heartbeat
  fenced result status code now = (
    update_one-idle j (holds_token token) (succeed result now) (run cs rows) (run-Unique cs rows u)
        (Lost-count token _ _ (λ s e. e) Lost-later),
    update_one-idle j (holds_token token) (fail status code now) (run cs rows)
        (run-Unique cs rows u) (Lost-count token _ _ (λ s e. e) Lost-later),
    update_one-idle j _ (extend_lease now) (run cs rows) (run-Unique cs rows u)
        (Lost-count token _ _ (λ s e. rw e) Lost-later),
  )
