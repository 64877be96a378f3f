-- ===== src/Readiness/Coverage.antt =====
-- readiness-coverage-evaluator.service.ts and the findings of readiness.types.ts: every requirement
-- needs a selected child task and an acceptance criterion that cite some of its evidence.
pub mod Complete
use work_copilot.Base.{
  ℕ, suc, String, Bool, true, false, Option, none, some, List, [], ◌∷◌, ◌++◌, ◌==◌, if◌then◌else◌,
  any, filter, not,
}
use work_copilot.Brief.Types.{BriefContent, EvidenceCitation}

pub data ReadinessFindingCode : Type 0 where
  coverage_missing create_field_missing create_metadata_access_limited : ReadinessFindingCode
  create_metadata_unavailable unresolved_blocker access_limited_dependency : ReadinessFindingCode
  freshness_review_required access_changed profile_changed : ReadinessFindingCode

pub data ReadinessFindingSeverity : Type 0 where
  blocking warning : ReadinessFindingSeverity

pub data MissingCoverage : Type 0 where
  child_task verification_evidence : MissingCoverage

pub record ReadinessFinding : Type 0 where
  pub code : ReadinessFindingCode
  pub severity : ReadinessFindingSeverity
  pub requirement_index : Option ℕ
  pub missing : List MissingCoverage
  pub field_id : Option String
  pub evidence_ids : List String

-- `rightIds.has(evidenceId)` for some evidence of the left.
abbrev pub has_id : List String → String → Bool
has_id ids i = any (λ j. j == i) ids

unfoldable pub shares_evidence : List String → List String → Bool
shares_evidence left right = any (has_id right) left

abbrev pub has_task : BriefContent → EvidenceCitation → Bool
has_task content requirement =
    any (λ task. shares_evidence requirement.evidence_ids task.evidence_ids)
      (filter (λ task. task.selected) content.child_tasks)

abbrev pub has_criterion : BriefContent → EvidenceCitation → Bool
has_criterion content requirement =
    any (λ criterion. shares_evidence requirement.evidence_ids criterion.evidence_ids)
      content.acceptance_criteria

abbrev pub missing_of : BriefContent → EvidenceCitation → List MissingCoverage
missing_of content requirement =
    (if has_task content requirement then [] else child_task ∷ [])
    ++ (if has_criterion content requirement then [] else verification_evidence ∷ [])

abbrev pub finding_of : EvidenceCitation → ℕ → List MissingCoverage → List ReadinessFinding
finding_of requirement index [] = []
finding_of requirement index (m ∷ ms) =
    record {
      code = coverage_missing;
      severity = blocking;
      requirement_index = some index;
      missing = m ∷ ms;
      field_id = none;
      evidence_ids = requirement.evidence_ids;
    }
    ∷ []

-- `flatMap` with the index of the requirement.
unfoldable pub evaluate_from : BriefContent → ℕ → List EvidenceCitation → List ReadinessFinding
evaluate_from content index [] = []
evaluate_from content index (requirement ∷ rest) =
    finding_of requirement index (missing_of content requirement)
    ++ evaluate_from content (suc index) rest

unfoldable pub evaluate : BriefContent → List ReadinessFinding
evaluate content = evaluate_from content 0 content.requirements
