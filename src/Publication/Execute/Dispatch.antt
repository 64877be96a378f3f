-- ===== src/Publication/Execute/Dispatch.antt =====
-- publication.service.ts: a write is sent only for a step that this worker has just claimed cleanly.
use work_copilot.Base.{
  ℕ, String, Bool, true, false, Option, none, some, ◌≡◌, ◌⊎◌, inl, inr, refl, arith, Option-cases,
  Unique, row, count_some, suc, ◌∙◌, ap,
}
use work_copilot.Failure.{ok}
use work_copilot.Publication.Types.{PublicationStep}
use work_copilot.Publication.Claimer.{
  StepClaim, claimed, unclaimed, PublicationStepResult, is_claimable, step_id, Draw, is_interrupted,
  claim_where,
}
use work_copilot.Publication.World.{World, Outside}
use work_copilot.Publication.World.Program.{bind_holds}
use work_copilot.Publication.Execute.{Operation, claim_step, execute_step, started, after_claim}
use work_copilot.Publication.Execute.Writes.{
  sent, park-writes, execute_claimed-writes, claim_step-writes,
}
use work_copilot.Publication.Claimer.Laws.{claim_where_miss, claim_where-swap}
use work_copilot.Publication.Recovery.{write_result_from_step}

-- The row of the key in the database is pending or failed.
abbrev pub IsClaimable : String → World → Type 0
IsClaimable i w = count_some is_claimable (row step_id i w.steps) ≡ 1

-- From the world `w` to the world `v` nothing was sent, or the operation's write for a row that was
-- claimable and a step without a result.
abbrev pub Dispatches : Option PublicationStepResult → String → Operation → World → World → Type 0
Dispatches result i op w v =
    (v.writes ≡ w.writes) ⊎ ((result ≡ none) × IsClaimable i w × (v.writes ≡ sent op w.writes))

one_or_none :
    (c : PublicationStep → Bool) (o : Option PublicationStep)
    → (count_some c o ≡ 1) ⊎ (count_some c o ≡ 0)
one_or_none c none = inr refl
one_or_none c (some s) = ground arith

module _ (o : Outside) where
  -- A claim that is not of an interrupted execution took a pending or failed row.
  claim_step-clean :
      (i : String) (w : World) {t : String} {l : ℕ}
      → Unique step_id w.steps
      → (claim_step o i w).0 ≡ ok (claimed t l false)
      → IsClaimable i w
  unfolding claim_step
  claim_step-clean i w u h = elim (one_or_none is_claimable (row step_id i w.steps)) [
    | inl one ↦ one
    | inr none_there ↦
        let d : Draw = record { now = w.clock; token = o.uuid w.drawn } in
        let miss =
          claim_where_miss i is_claimable false d w.steps u (row step_id i w.steps) refl
            none_there in
        ground (
          arith,
          miss.0,
          claim_where-swap i (is_interrupted (o.tick w.clock)) true
              (record { now = o.tick (o.tick w.clock); token = o.uuid (suc w.drawn) })
              (claim_where i is_claimable false d w.steps).1 miss.1.unique,
        )
  ]

  after_claim-Dispatches :
      (s : PublicationStep) (op : Operation) (fallback : Option String) (answer : StepClaim)
      (w v : World)
      → v.writes ≡ w.writes
      → ((t : String) (l : ℕ) → answer ≡ claimed t l false → IsClaimable s.id w)
      → Dispatches none s.id op w (after_claim o s op fallback answer v).1
  unfolding after_claim
  after_claim-Dispatches s op fallback unclaimed w v same clean = inl same
  after_claim-Dispatches s op fallback (claimed t l true) w v same clean =
      inl (park-writes o (started s t l v.clock) t _ ∙ same)
  after_claim-Dispatches s op fallback (claimed t l false) w v same clean = inr (
    refl,
    clean t l refl,
    execute_claimed-writes o (started s t l v.clock) t op fallback _ ∙ ap (sent op) same,
  )

  -- Where no two rows share a key, executing a step sends nothing, or sends exactly the
  -- operation's write; and it sends only if the row in the database was pending or failed when
  -- this worker claimed it, and the step in memory had no result yet. So an interrupted, a
  -- finished or a parked step is never written again.
  pub execute_step-Dispatches :
      (s : PublicationStep) (op : Operation) (fallback : Option String) (w : World)
      → Unique step_id w.steps
      → Dispatches (write_result_from_step s) s.id op w (execute_step o s op fallback w).1
  unfolding execute_step
  execute_step-Dispatches s op fallback w u = elim (Option-cases (write_result_from_step s)) [
    | inr (r, e) ↦ inl (rw (e, execute_step))
    | inl e ↦
        rw (e, execute_step)
          (bind_holds (Dispatches none s.id op w) (claim_step o s.id w)
            (after_claim o s op fallback) (inl (claim_step-writes o s.id w))
            λ answer h.
              after_claim-Dispatches s op fallback answer w _ (claim_step-writes o s.id w)
                λ t l clean. claim_step-clean s.id w {t = t} {l = l} u (h ∙ ap ok clean))
  ]
