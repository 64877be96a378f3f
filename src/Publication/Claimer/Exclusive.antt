-- ===== src/Publication/Claimer/Exclusive.antt =====
-- publication-step-claimer.service.ts: while its lease runs, a worker holds its row alone.
use work_copilot.Base.{
  ℕ, ◌≤◌, String, true, Option, none, some, List, ◌≡◌, ◌≢◌, arith, All, Unique, ◌⊎◌, eq_iff, row,
  ◌∙◌, ap,
}
use work_copilot.Publication.Claimer.{unclaimed, lease_end, step_id, Draw, claim}
use work_copilot.Publication.Claimer.Machine.{
  Call, claims, beats, reopens, succeeds, fails, perform_at, run, run-Unique,
}
use work_copilot.Publication.Claimer.Traces.{Holds, run-Holds}
use work_copilot.Publication.Types.{PublicationStep, is_running}
use work_copilot.Publication.Claimer.Laws.{claim_row, claim-row}

abbrev pub Covers : ℕ → Option ℕ → Type 0
Covers until none = ⊥
Covers until (some l) = until ≤ l

-- The row is running for the worker with the token, with a lease that ends at `until` or later.
pub record HeldBy (token : String) (until : ℕ) (s : PublicationStep) : Type 0 where
  pub busy : is_running s.status ≡ true
  pub owner : s.execution_token ≡ some token
  pub lease : Covers until s.execution_lease_expires_at

-- The worker with the token does not end its execution by the call, its heartbeats do not shorten
-- the lease, and whoever claims reads a clock that is not past `until`.
abbrev pub WithinLease : String → ℕ → Call → Type 0
WithinLease token until (claims i first now second) = now ≤ until
WithinLease token until (beats i token' now) = (token' ≢ token) ⊎ (until ≤ lease_end now)
WithinLease token until (reopens i revision now) = Unit
WithinLease token until (succeeds i token' result now) = token' ≢ token
WithinLease token until (fails i token' status code now) = token' ≢ token

module _ (token : String) (until : ℕ) where
  perform_at-HeldBy :
      (j : String) (c : Call) (s : PublicationStep)
      → WithinLease token until c
      → HeldBy token until s
      → Holds (HeldBy token until) (perform_at j c (some s))
  perform_at-HeldBy j (claims i first now second) s q h = ground arith
  perform_at-HeldBy j (beats i token' now) s q h =
      ground (arith, eq_iff token' token, eq_iff token token')
  perform_at-HeldBy j (reopens i revision now) s q h = ground arith
  perform_at-HeldBy j (succeeds i token' result now) s q h = ground (arith, eq_iff token token')
  perform_at-HeldBy j (fails i token' status code now) s q h = ground (arith, eq_iff token token')

  refused :
      (first second : Draw) (now : ℕ) (o : Option PublicationStep)
      → now ≤ until
      → Holds (HeldBy token until) o
      → claim_row first now second o ≡ (unclaimed, o)
  refused first second now none late h = absurd h
  refused first second now (some s) late h = ground (arith, h.busy)

  -- Where no two rows share a key: from a row that a worker holds with a lease to some time,
  -- any calls that do not end the execution or shorten the lease with the worker's token, and
  -- whose claims read a clock that is not past that time, leave the worker the row, and a claim
  -- made by that time is refused and leaves the row as it is.
  pub exclusive :
      (j : String) (cs : List Call) (rows : List PublicationStep) (s : PublicationStep)
      → Unique step_id rows
      → row step_id j rows ≡ some s
      → HeldBy token until s
      → All (WithinLease token until) cs
      → (first second : Draw) (now : ℕ) → now ≤ until
      → let later = run cs rows in
        Holds (HeldBy token until) (row step_id j later)
        × ((claim j first now second later).0 ≡ unclaimed)
        × (row step_id j (claim j first now second later).1 ≡ row step_id j later)
  exclusive j cs rows s u e h q first second now late =
      let later = run cs rows in
      let still : Holds (HeldBy token until) (row step_id j later) =
        run-Holds (HeldBy token until) (WithinLease token until) perform_at-HeldBy j cs rows u q
          (rw e h) in
      let no_claim = refused first second now (row step_id j later) late still in
      let r = claim-row j first now second later (run-Unique cs rows u) in
      (still, r.0 ∙ ap (λ p. p.0) no_claim, r.1.here ∙ ap (λ p. p.1) no_claim)
