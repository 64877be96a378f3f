-- ===== src/Readiness/Findings.antt =====
-- readiness.service.ts: what an assessment finds in a draft and its sources, and the status that
-- follows.
use work_copilot.Base.{
  ℕ, String, Bool, true, false, Option, none, some, List, [], ◌∷◌, ◌++◌, ◌==◌, ◌&&◌, ◌||◌, eqb, not,
  any, map, filter, if◌then◌else◌, is_empty,
}
use work_copilot.Publication.Types.{truthy}
use work_copilot.Publication.World.{ChildTaskTemplate}
use work_copilot.Brief.Types.{DraftFreshnessStatus, StoredBriefEvidence, WorkBriefDraft}
use work_copilot.Brief.Citations.{includes}
use work_copilot.Drafts.Types.{ConfluenceEvidenceContext, EvidenceAccessStatus, NormalizedEvidence}
use work_copilot.Drafts.Selection.{is_accessible, same_text}
use work_copilot.Drafts.Refresh.{pages_inaccessible, pages_of}
use work_copilot.Readiness.Coverage.{
  ReadinessFinding, ReadinessFindingCode, ReadinessFindingSeverity, MissingCoverage, evaluate,
}

-- readiness.types.ts
pub data ReadinessStatus : Type 0 where
  ready needs_attention blocked access_limited : ReadinessStatus

pub data ReadinessBlocker : Type 0 where
  -- issue, url, and whether it is in another project
  visible_blocker : String → String → Bool → ReadinessBlocker
  limited : ReadinessBlocker

-- The status of `JiraCreateMetadata`; only the available has fields.
pub data JiraCreateMetadata : Type 0 where
  not_requested metadata_limited metadata_not_found : JiraCreateMetadata
  available : List String → JiraCreateMetadata

pub record JiraReadinessEvidenceVersion : Type 0 where
  pub id : String
  pub version : String

pub record JiraReadinessContext : Type 0 where
  pub access_status : EvidenceAccessStatus
  pub profile_id : Option String
  pub source_jira_id : Option String
  pub source_jira_key : String
  pub source_jira_version : Option String
  pub evidence_versions : List JiraReadinessEvidenceVersion
  pub has_access_limited_evidence : Bool
  pub dependencies : List ReadinessBlocker
  pub child_task_template : Option ChildTaskTemplate
  pub create_metadata : JiraCreateMetadata

abbrev pub finding :
    ReadinessFindingCode → ReadinessFindingSeverity → Option String → ReadinessFinding
finding code severity field_id = record {
  code = code;
  severity = severity;
  requirement_index = none;
  missing = [];
  field_id = if truthy field_id then field_id else none;
  evidence_ids = [];
}

abbrev pub blocking_finding : ReadinessFindingCode → ReadinessFinding
blocking_finding code = finding code ReadinessFindingSeverity.blocking none

-- `JSON.stringify(a) === JSON.stringify(b)`, property by property.
abbrev pub code_index : ReadinessFindingCode → ℕ
code_index ReadinessFindingCode.coverage_missing = 0
code_index ReadinessFindingCode.create_field_missing = 1
code_index ReadinessFindingCode.create_metadata_access_limited = 2
code_index ReadinessFindingCode.create_metadata_unavailable = 3
code_index ReadinessFindingCode.unresolved_blocker = 4
code_index ReadinessFindingCode.access_limited_dependency = 5
code_index ReadinessFindingCode.freshness_review_required = 6
code_index ReadinessFindingCode.access_changed = 7
code_index ReadinessFindingCode.profile_changed = 8

abbrev pub is_blocking : ReadinessFindingSeverity → Bool
is_blocking ReadinessFindingSeverity.blocking = true
is_blocking ReadinessFindingSeverity.warning = false

abbrev pub same_flag : Bool → Bool → Bool
same_flag true b = b
same_flag false b = not b

abbrev pub same_index : Option ℕ → Option ℕ → Bool
same_index none none = true
same_index (some m) (some n) = eqb m n
same_index _ _ = false

abbrev pub is_task_missing : MissingCoverage → Bool
is_task_missing MissingCoverage.child_task = true
is_task_missing MissingCoverage.verification_evidence = false

abbrev pub same_missing : List MissingCoverage → List MissingCoverage → Bool
same_missing [] [] = true
same_missing (m ∷ ms) (n ∷ ns) =
    same_flag (is_task_missing m) (is_task_missing n) && same_missing ms ns
same_missing _ _ = false

abbrev pub same_texts : List String → List String → Bool
same_texts [] [] = true
same_texts (s ∷ ss) (t ∷ ts) = (s == t) && same_texts ss ts
same_texts _ _ = false

abbrev pub same_finding : ReadinessFinding → ReadinessFinding → Bool
same_finding a b =
    eqb (code_index a.code) (code_index b.code)
    && same_flag (is_blocking a.severity) (is_blocking b.severity)
    && same_index a.requirement_index b.requirement_index
    && same_missing a.missing b.missing
    && same_text a.field_id b.field_id
    && same_texts a.evidence_ids b.evidence_ids

unfoldable pub unique_findings : List ReadinessFinding → List ReadinessFinding
unique_findings [] = []
unique_findings (f ∷ fs) = f ∷ filter (λ g. not (same_finding f g)) (unique_findings fs)

abbrev pub freshness_findings : DraftFreshnessStatus → List ReadinessFinding
freshness_findings DraftFreshnessStatus.access_changed =
    blocking_finding ReadinessFindingCode.access_changed ∷ []
freshness_findings DraftFreshnessStatus.current = []
freshness_findings DraftFreshnessStatus.review_required =
    blocking_finding ReadinessFindingCode.freshness_review_required ∷ []

-- `new Map(…).get(id)`: the last version of an identifier.
abbrev pub version_in : String → List JiraReadinessEvidenceVersion → Option String
version_in i [] = none
version_in i (v ∷ vs) = elim (version_in i vs) [
  | some later ↦ some later
  | none ↦ if v.id == i then some v.version else none
]

abbrev pub version_of : NormalizedEvidence → JiraReadinessEvidenceVersion
version_of e = record { id = e.id; version = e.version }

abbrev pub current_versions :
    JiraReadinessContext → Option ConfluenceEvidenceContext → List JiraReadinessEvidenceVersion
current_versions context pages = context.evidence_versions ++ map version_of (pages_of pages)

abbrev pub is_unread : List JiraReadinessEvidenceVersion → StoredBriefEvidence → Bool
is_unread versions e = elim (version_in e.id versions) [ none ↦ true | some v ↦ false ]

abbrev pub is_other_version : List JiraReadinessEvidenceVersion → StoredBriefEvidence → Bool
is_other_version versions e = not (same_text (version_in e.id versions) (some e.version))

abbrev pub pages_limited : Option ConfluenceEvidenceContext → Bool
pages_limited none = false
pages_limited (some pages) = elim pages.access_status [
  | EvidenceAccessStatus.access_limited ↦ true
  | EvidenceAccessStatus.accessible ↦ false
  | EvidenceAccessStatus.not_found ↦ false
]

unfoldable pub evidence_findings :
    WorkBriefDraft → JiraReadinessContext → Option ConfluenceEvidenceContext → List ReadinessFinding
evidence_findings d context pages =
    let versions = current_versions context pages in
    let missing = any (is_unread versions) d.evidence in
    if missing && (context.has_access_limited_evidence || pages_limited pages)
    then blocking_finding ReadinessFindingCode.access_changed ∷ []
    else if missing
        || any (is_other_version versions) d.evidence
        || not (same_text context.source_jira_version (some d.source_jira_version))
    then blocking_finding ReadinessFindingCode.freshness_review_required ∷ []
    else []

abbrev pub dependency_finding : ReadinessBlocker → ReadinessFinding
dependency_finding limited = blocking_finding ReadinessFindingCode.access_limited_dependency
dependency_finding (visible_blocker key url crosses) =
    finding ReadinessFindingCode.unresolved_blocker ReadinessFindingSeverity.warning none

abbrev pub field_name : String × String → String
field_name f = f.0

abbrev pub supplied_fields : ChildTaskTemplate → List String
supplied_fields template =
    "project" ∷ "issuetype" ∷ "parent" ∷ "summary" ∷ map field_name template.fields

abbrev pub missing_field : String → ReadinessFinding
missing_field i =
    finding ReadinessFindingCode.create_field_missing ReadinessFindingSeverity.blocking (some i)

unfoldable pub create_metadata_findings :
    Option ChildTaskTemplate → JiraCreateMetadata → List ReadinessFinding
create_metadata_findings none metadata = missing_field "issuetype" ∷ []
create_metadata_findings (some template) metadata_limited =
    blocking_finding ReadinessFindingCode.create_metadata_access_limited ∷ []
create_metadata_findings (some template) (available required) =
    map missing_field (filter (λ i. not (includes (supplied_fields template) i)) required)
create_metadata_findings (some template) metadata =
    blocking_finding ReadinessFindingCode.create_metadata_unavailable ∷ []

abbrev pub issue_unread : JiraReadinessContext → Bool
issue_unread context =
    not (is_accessible context.access_status)
    || not (truthy context.profile_id)
    || not (truthy context.source_jira_id)
    || not (truthy context.source_jira_version)

-- What the comparison with the sources finds.
unfoldable pub source_findings :
    WorkBriefDraft
    → JiraReadinessContext
    → Option ConfluenceEvidenceContext
    → Bool
    → List ReadinessFinding
source_findings d context pages selected =
    if issue_unread context
    then blocking_finding ReadinessFindingCode.access_changed ∷ []
    else if not (same_text context.profile_id (some d.profile_id))
    then blocking_finding ReadinessFindingCode.profile_changed ∷ []
    else if not (same_text context.source_jira_id (some d.source_jira_id))
    then blocking_finding ReadinessFindingCode.access_changed ∷ []
    else if pages_inaccessible d pages
    then blocking_finding ReadinessFindingCode.access_changed ∷ []
    else evidence_findings d context pages
      ++ (map dependency_finding context.dependencies
          ++ (if selected
              then create_metadata_findings context.child_task_template context.create_metadata
              else []))

unfoldable pub findings_for :
    WorkBriefDraft
    → JiraReadinessContext
    → Option ConfluenceEvidenceContext
    → Bool
    → List ReadinessFinding
unfolding unique_findings
findings_for d context pages selected = unique_findings (
    evaluate d.masked_brief
    ++ (freshness_findings d.freshness_status ++ source_findings d context pages selected))

abbrev pub limits_access : ReadinessFinding → Bool
limits_access f =
    eqb (code_index f.code) 7 || eqb (code_index f.code) 5 || eqb (code_index f.code) 2

abbrev pub blocks : ReadinessFinding → Bool
blocks f = is_blocking f.severity

unfoldable pub status_for_findings : List ReadinessFinding → ReadinessStatus
status_for_findings findings =
    if any limits_access findings
    then ReadinessStatus.access_limited
    else if any blocks findings
    then ReadinessStatus.blocked
    else if not (is_empty findings)
    then ReadinessStatus.needs_attention
    else ReadinessStatus.ready

abbrev pub is_ready : ReadinessStatus → Bool
is_ready ReadinessStatus.ready = true
is_ready _ = false
