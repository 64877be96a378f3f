-- ===== src/Publication/Safety.antt =====
-- publication-deletion-safety.ts: the guard of a draft's deletion, as the function that the
-- service calls and as the SQL condition of the retention job.
pub mod Agreement
pub mod FailClosed
pub mod Retention
use work_copilot.Base.{
  String, Bool, true, false, Option, none, some, List, [], ◌∷◌, ◌==◌, ◌&&◌, ◌||◌, if◌then◌else◌,
  any, filter, map, or_else, is_some, not,
}
use work_copilot.Publication.Types.{
  PublicationStatus, PublicationStepStatus, PublicationExecutionMode, PublicationErrorCode,
  BriefPublication, PublicationStep, is_real, is_running, is_succeeded, is_indeterminate, truthy,
}

pub record StoredPublicationForDeletion : Type 0 where
  pub id : String
  pub draft_id : String
  pub status : PublicationStatus
  pub execution_mode : PublicationExecutionMode
  pub confluence_content_id : Option String

pub record StoredPublicationStepForDeletion : Type 0 where
  pub publication_id : String
  pub status : PublicationStepStatus
  pub provider_object_id : Option String
  pub error_code : Option PublicationErrorCode

pub record DraftDeletionAssessment : Type 0 where
  pub publishing : Bool
  pub external_write_performed : Bool

-- The columns that the guard reads.
abbrev pub stored_publication : BriefPublication → StoredPublicationForDeletion
stored_publication p = record {
  id = p.id;
  draft_id = p.draft_id;
  status = p.status;
  execution_mode = p.execution_mode;
  confluence_content_id = p.confluence_content_id;
}

abbrev pub stored_step : PublicationStep → StoredPublicationStepForDeletion
stored_step s = record {
  publication_id = s.publication_id;
  status = s.status;
  provider_object_id = s.provider_object_id;
  error_code = s.error_code;
}

-- `publicationById.get`: of two entries with one key, a `Map` keeps the later one.
abbrev pub publication_by_id :
    List StoredPublicationForDeletion → String → Option StoredPublicationForDeletion
publication_by_id [] i = none
publication_by_id (p ∷ ps) i = or_else (publication_by_id ps i) (if p.id == i then some p else none)

abbrev pub is_active : PublicationStatus → Bool
is_active PublicationStatus.pending = true
is_active PublicationStatus.publishing = true
is_active _ = false

abbrev pub is_real_publication : Option StoredPublicationForDeletion → Bool
is_real_publication none = false
is_real_publication (some p) = is_real p.execution_mode

abbrev pub publication_wrote : StoredPublicationForDeletion → Bool
publication_wrote p = is_real p.execution_mode && truthy p.confluence_content_id

abbrev pub step_wrote : List StoredPublicationForDeletion → StoredPublicationStepForDeletion → Bool
step_wrote ps s =
    if is_indeterminate s.error_code
    then true
    else is_real_publication (publication_by_id ps s.publication_id)
      && is_succeeded s.status
      && truthy s.provider_object_id

unfoldable pub assess_publication_deletion_safety :
    List StoredPublicationForDeletion
    → List StoredPublicationStepForDeletion
    → DraftDeletionAssessment
assess_publication_deletion_safety publications steps = record {
  publishing = any (λ p. is_active p.status) publications || any (λ s. is_running s.status) steps;
  external_write_performed =
      any publication_wrote publications || any (step_wrote publications) steps;
}

-- A truth value of SQL: `none` is NULL.
abbrev pub Sql : Type 0
Sql = Option Bool

infixr 30 ◌or◌
infixr 35 ◌and◌
abbrev pub ◌or◌ : Sql → Sql → Sql
some true or b = some true
some false or b = b
none or some true = some true
none or _ = none

abbrev pub ◌and◌ : Sql → Sql → Sql
some false and b = some false
some true and b = b
none and some false = some false
none and _ = none

-- A comparison with a column of the LEFT JOIN, which is NULL where no step joins.
abbrev pub of_step :
    (StoredPublicationStepForDeletion → Sql) → Option StoredPublicationStepForDeletion → Sql
of_step test none = none
of_step test (some s) = test s

-- `= 'PUBLICATION_RECONCILIATION_INDETERMINATE'` of a nullable column.
abbrev pub sql_indeterminate : Option PublicationErrorCode → Sql
sql_indeterminate none = none
sql_indeterminate (some e) = some (is_indeterminate (some e))

-- `IS NOT NULL` is never NULL itself.
abbrev pub step_object : Option StoredPublicationStepForDeletion → Option String
step_object none = none
step_object (some s) = s.provider_object_id

unfoldable pub publication_blocks_draft_deletion_sql :
    StoredPublicationForDeletion → Option StoredPublicationStepForDeletion → Sql
publication_blocks_draft_deletion_sql p joined =
    some (is_active p.status)
    or of_step (λ s. some (is_running s.status)) joined
    or of_step (λ s. sql_indeterminate s.error_code) joined
    or (some (is_real p.execution_mode) and some (is_some p.confluence_content_id))
    or (some (is_real p.execution_mode)
        and of_step (λ s. some (is_succeeded s.status)) joined
        and some (is_some (step_object joined)))

-- `LEFT JOIN "publication_steps" step ON step."publicationId" = publication."id"`.
abbrev pub or_null :
    List StoredPublicationStepForDeletion → List (Option StoredPublicationStepForDeletion)
or_null [] = none ∷ []
or_null (s ∷ ss) = some s ∷ map some ss

unfoldable pub left_join :
    StoredPublicationForDeletion
    → List StoredPublicationStepForDeletion
    → List (Option StoredPublicationStepForDeletion)
left_join p steps = or_null (filter (λ s. s.publication_id == p.id) steps)

abbrev pub is_true : Sql → Bool
is_true (some b) = b
is_true none = false

-- `EXISTS (SELECT 1 FROM … WHERE …)` over the publications of one draft.
unfoldable pub deletion_blocked :
    List StoredPublicationForDeletion → List StoredPublicationStepForDeletion → Bool
unfolding left_join publication_blocks_draft_deletion_sql
deletion_blocked publications steps =
    any (λ p. any (λ j. is_true (publication_blocks_draft_deletion_sql p j)) (left_join p steps))
      publications
