-- ===== src/Publication/Safety/FailClosed.antt =====
-- publication-deletion-safety.ts: whatever the service's guard refuses, the retention job leaves.
use work_copilot.Base.{
  Bool, true, some, List, ◌==◌, ◌&&◌, ◌||◌, if◌then◌else◌, ◌≡◌, ◌≢◌, inl, inr, arith, any, is_some,
  Memᴰ, All, Option-cases, false≢true, All-mem, any_of_mem, ◌∙◌, Bool-cases, any-witness, any-or,
}
use work_copilot.Publication.Safety.{
  StoredPublicationForDeletion, StoredPublicationStepForDeletion, DraftDeletionAssessment,
  assess_publication_deletion_safety, deletion_blocked, publication_by_id, step_wrote, is_active,
  publication_wrote,
}
use work_copilot.Publication.Types.{is_running, is_indeterminate, is_real, is_succeeded, truthy}
use work_copilot.Publication.Safety.Agreement.{by_id-mem, blocks_with, blocks_alone, any-left_join}

-- Every step belongs to a publication of the draft: the foreign key of `publication_steps`.
abbrev pub BelongTo :
    List StoredPublicationForDeletion → List StoredPublicationStepForDeletion → Type 0
BelongTo ps ss = All (λ s. is_some (publication_by_id ps s.publication_id) ≡ true) ss

-- No identifier that a provider gave is the empty text.
abbrev pub NamesObjects :
    List StoredPublicationForDeletion → List StoredPublicationStepForDeletion → Type 0
NamesObjects ps ss =
    All (λ p. p.confluence_content_id ≢ some "") ps × All (λ s. s.provider_object_id ≢ some "") ss

-- The service refuses the deletion.
abbrev pub refuses : DraftDeletionAssessment → Bool
refuses a = a.publishing || a.external_write_performed

module _ (ps : List StoredPublicationForDeletion) (ss : List StoredPublicationStepForDeletion) where
  blocked_alone :
      {p : StoredPublicationForDeletion}
      → Memᴰ p ps
      → blocks_alone p ≡ true
      → deletion_blocked ps ss ≡ true
  unfolding deletion_blocked
  blocked_alone {p} m h = any_of_mem _ ps m (rw (any-left_join p ss, h))

  blocked_with :
      {p : StoredPublicationForDeletion} {s : StoredPublicationStepForDeletion}
      → Memᴰ p ps
      → Memᴰ s ss
      → (s.publication_id == p.id) ≡ true
      → blocks_with p s ≡ true
      → deletion_blocked ps ss ≡ true
  unfolding deletion_blocked
  blocked_with {p} {s} m n same h = any_of_mem _ ps m (
      any-left_join p ss
      ∙ ground (
        arith,
        any_of_mem (λ s. (s.publication_id == p.id) && blocks_with p s) ss n (rw (same, h)),
      ))

  -- What the service reads of a step, the SQL reads of it beside its publication.
  wrote_with :
      (p : StoredPublicationForDeletion) (s : StoredPublicationStepForDeletion)
      → publication_by_id ps s.publication_id ≡ some p
      → (is_running s.status || step_wrote ps s) ≡ true
      → blocks_with p s ≡ true
  wrote_with p s found h =
      let read : (is_running s.status
            || (if is_indeterminate s.error_code
                then true
                else is_real p.execution_mode
                  && is_succeeded s.status
                  && truthy s.provider_object_id))
          ≡ true =
        rw found at h in
      ground arith

  blocked_step :
      {s : StoredPublicationStepForDeletion}
      → BelongTo ps ss
      → Memᴰ s ss
      → (is_running s.status || step_wrote ps s) ≡ true
      → deletion_blocked ps ss ≡ true
  blocked_step {s} owned n h = elim (Option-cases (publication_by_id ps s.publication_id)) [
    | inl missing ↦ absurd (false≢true (rw missing at (All-mem _ ss owned n)))
    | inr (p, found) ↦
        let (m, same) = by_id-mem ps s.publication_id found in
        blocked_with m n same (wrote_with p s found h)
  ]

  -- Where every step belongs to one of the publications, the retention job's SQL blocks the
  -- deletion of whatever the service would refuse to delete.
  pub fail_closed :
      BelongTo ps ss
      → refuses (assess_publication_deletion_safety ps ss) ≡ true
      → deletion_blocked ps ss ≡ true
  unfolding assess_publication_deletion_safety
  fail_closed owned h =
      elim (Bool-cases (any (λ p. is_active p.status || publication_wrote p) ps)) [
        | inl found ↦ let (p, m, e) = any-witness _ ps found in blocked_alone m (ground arith)
        | inr idle ↦ elim (Bool-cases (any (λ s. is_running s.status || step_wrote ps s) ss)) [
          | inl found ↦ let (s, n, e) = any-witness _ ss found in blocked_step owned n e
          | inr quiet ↦ ground (
            arith,
            any-or (λ p. is_active p.status) publication_wrote ps,
            any-or (λ s. is_running s.status) (step_wrote ps) ss,
          )
        ]
      ]
