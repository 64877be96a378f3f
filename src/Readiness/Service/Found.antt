-- ===== src/Readiness/Service/Found.antt =====
-- readiness.service.ts: what it means that nothing is found.
use work_copilot.Readiness.Service.{task_selected}
use work_copilot.Base.{
  String, Bool, true, false, Option, none, some, List, [], ◌∷◌, ◌++◌, ◌&&◌, ◌||◌, ◌≡◌, refl, sym,
  ap, ◌∙◌, inl, inr, arith, not, any, map, filter, if◌then◌else◌, All, Memᴰ, Bool-cases, eq_iff,
}
use work_copilot.Publication.World.{ChildTaskTemplate}
use work_copilot.Brief.Types.{
  DraftFreshnessStatus, EvidenceCitation, StoredBriefEvidence, WorkBriefDraft,
}
use work_copilot.Brief.Citations.{includes}
use work_copilot.Drafts.Types.{ConfluenceEvidenceContext, EvidenceAccessStatus}
use work_copilot.Drafts.Selection.{is_accessible, same_text}
use work_copilot.Drafts.Refresh.{pages_inaccessible}
use work_copilot.Readiness.Coverage.{ReadinessFinding, ReadinessFindingCode}
use work_copilot.Readiness.Coverage.Complete.{Covered}
use work_copilot.Drafts.Client.Requested.{includes-mem}
use work_copilot.Readiness.Findings.{
  JiraReadinessContext, JiraCreateMetadata, available, not_requested, metadata_limited,
  metadata_not_found, JiraReadinessEvidenceVersion, status_for_findings, unique_findings,
  freshness_findings, evidence_findings, create_metadata_findings, is_ready, version_in,
  current_versions, is_unread, is_other_version, supplied_fields, missing_field, pages_limited,
  limits_access, blocks, blocking_finding,
}

-- The new tasks have every field that the provider wants.
abbrev pub HasFields : JiraReadinessContext → Type 0
HasFields context =
    (template : ChildTaskTemplate) × (required : List String) × (context.child_task_template
      ≡ some template)
    × (context.create_metadata ≡ available required)
    × All (λ i. Memᴰ i (supplied_fields template)) required

-- A draft that stands on what its owner can read now.
pub record IsReady (d : WorkBriefDraft) (context : JiraReadinessContext)
    (pages : Option ConfluenceEvidenceContext) : Type 0 where
  pub covered :
      (r : EvidenceCitation) → Memᴰ r d.masked_brief.requirements → Covered d.masked_brief r
  pub fresh : d.freshness_status ≡ DraftFreshnessStatus.current
  pub readable : context.access_status ≡ EvidenceAccessStatus.accessible
  pub same_profile : context.profile_id ≡ some d.profile_id
  pub same_issue : context.source_jira_id ≡ some d.source_jira_id
  pub same_version : context.source_jira_version ≡ some d.source_jira_version
  pub pages_readable :
      (p : ConfluenceEvidenceContext)
      → pages ≡ some p
      → (p.access_status ≡ EvidenceAccessStatus.accessible) × (p.profile_id ≡ some d.profile_id)
  pub evidence_current :
      All
        (λ (e : StoredBriefEvidence).
          version_in e.id (current_versions context pages) ≡ some e.version)
        d.evidence
  pub unblocked : context.dependencies ≡ []
  pub creatable : any task_selected d.masked_brief.child_tasks ≡ true → HasFields context

pub append-empty : {A : Type 0} (xs ys : List A) → xs ++ ys ≡ [] → (xs ≡ []) × (ys ≡ [])
append-empty [] ys h = (refl, h)
append-empty (x ∷ xs) ys h = cc

pub map-empty : {A B : Type 0} (f : A → B) (xs : List A) → map f xs ≡ [] → xs ≡ []
map-empty f [] h = refl
map-empty f (x ∷ xs) h = cc

pub status_for_findings-empty :
    (fs : List ReadinessFinding) → is_ready (status_for_findings fs) ≡ true → fs ≡ []
unfolding status_for_findings
status_for_findings-empty [] h = refl
status_for_findings-empty (f ∷ fs) h = elim (Bool-cases (any limits_access (f ∷ fs))) [
  | inl e ↦ absurd (ground (arith, rw e at h))
  | inr e ↦ elim (Bool-cases (any blocks (f ∷ fs))) [
    | inl b ↦ absurd (ground (arith, rw (e, b) at h))
    | inr b ↦ absurd (ground (arith, rw (e, b) at h))
  ]
]

pub unique_findings-empty : (fs : List ReadinessFinding) → unique_findings fs ≡ [] → fs ≡ []
unfolding unique_findings
unique_findings-empty [] h = refl
unique_findings-empty (f ∷ fs) h = cc

pub same_text-some : (a : Option String) (b : String) → same_text a (some b) ≡ true → a ≡ some b
same_text-some none b h = cc
same_text-some (some a) b h = ap some ((eq_iff a b).0 h)

pub accessible_of :
    (a : EvidenceAccessStatus) → is_accessible a ≡ true → a ≡ EvidenceAccessStatus.accessible
accessible_of EvidenceAccessStatus.accessible h = refl
accessible_of EvidenceAccessStatus.access_limited h = cc
accessible_of EvidenceAccessStatus.not_found h = cc

pub fresh_of :
    (f : DraftFreshnessStatus) → freshness_findings f ≡ [] → f ≡ DraftFreshnessStatus.current
fresh_of DraftFreshnessStatus.current h = refl
fresh_of DraftFreshnessStatus.access_changed h = cc
fresh_of DraftFreshnessStatus.review_required h = cc

-- A test that has to fail, for nothing to be found.
pub none_found :
    {A : Type 0} (b : Bool) (x : A) (ys : List A)
    → (if b then x ∷ [] else ys) ≡ []
    → (b ≡ false) × (ys ≡ [])
none_found true x ys h = cc
none_found false x ys h = (refl, h)

pub versions_current :
    (versions : List JiraReadinessEvidenceVersion) (es : List StoredBriefEvidence)
    → any (is_other_version versions) es ≡ false
    → All (λ (e : StoredBriefEvidence). version_in e.id versions ≡ some e.version) es
versions_current versions [] h = tt
versions_current versions (e ∷ es) h = (
  same_text-some (version_in e.id versions) e.version (ground arith),
  versions_current versions es (ground arith),
)

pub quiet : (a b c : Bool) → (a || b || c) ≡ false → (b ≡ false) × (c ≡ false)
quiet a b c h = (ground arith, ground arith)

pub not-false : {b : Bool} → not b ≡ false → b ≡ true
not-false {b} h = ground arith

pub evidence_findings-empty :
    (d : WorkBriefDraft) (context : JiraReadinessContext) (pages : Option ConfluenceEvidenceContext)
    → evidence_findings d context pages ≡ []
    → (context.source_jira_version ≡ some d.source_jira_version)
      × All
          (λ (e : StoredBriefEvidence).
            version_in e.id (current_versions context pages) ≡ some e.version)
          d.evidence
unfolding evidence_findings
evidence_findings-empty d context pages h =
    let versions = current_versions context pages in
    let missing = any (is_unread versions) d.evidence in
    let limits = missing && (context.has_access_limited_evidence || pages_limited pages) in
    let other = any (is_other_version versions) d.evidence in
    let moved = not (same_text context.source_jira_version (some d.source_jira_version)) in
    let lost = blocking_finding ReadinessFindingCode.access_changed in
    let stale = blocking_finding ReadinessFindingCode.freshness_review_required in
    let (_, rest) =
      none_found limits lost (if missing || other || moved then stale ∷ [] else []) h in
    let (calm, _) = none_found (missing || other || moved) stale [] rest in
    let (kept, unmoved) = quiet missing other moved calm in
    (
      same_text-some context.source_jira_version d.source_jira_version (not-false unmoved),
      versions_current versions d.evidence kept,
    )

pub supplied :
    (fields required : List String)
    → map missing_field (filter (λ i. not (includes fields i)) required) ≡ []
    → All (λ i. Memᴰ i fields) required
supplied fields [] h = tt
supplied fields (i ∷ is) h = elim (Bool-cases (includes fields i)) [
  | inl e ↦ (includes-mem fields i e, supplied fields is (rw e at h))
  | inr e ↦ let found = rw e at h in absurd (cc found)
]

pub metadata-HasFields :
    (template : Option ChildTaskTemplate) (metadata : JiraCreateMetadata)
    → create_metadata_findings template metadata ≡ []
    → (t : ChildTaskTemplate) × (required : List String) × (template ≡ some t)
      × (metadata ≡ available required)
      × All (λ i. Memᴰ i (supplied_fields t)) required
unfolding create_metadata_findings
metadata-HasFields none metadata h = cc
metadata-HasFields (some t) not_requested h = cc
metadata-HasFields (some t) metadata_limited h = cc
metadata-HasFields (some t) metadata_not_found h = cc
metadata-HasFields (some t) (available required) h =
    (t, required, refl, refl, supplied (supplied_fields t) required h)

pub both_false : (a b : Bool) → (a || b) ≡ false → (a ≡ false) × (b ≡ false)
both_false a b h = (ground arith, ground arith)

pub pages-readable :
    (d : WorkBriefDraft) (pages : Option ConfluenceEvidenceContext)
    → pages_inaccessible d pages ≡ false
    → (p : ConfluenceEvidenceContext) → pages ≡ some p
    → (p.access_status ≡ EvidenceAccessStatus.accessible) × (p.profile_id ≡ some d.profile_id)
pages-readable d pages h p e =
    let here : (not (is_accessible p.access_status)
          || not (same_text p.profile_id (some d.profile_id)))
        ≡ false =
      ap (pages_inaccessible d) (sym e) ∙ h in
    let (seen, same) = both_false _ _ here in
    (
      accessible_of p.access_status (not-false seen),
      same_text-some p.profile_id d.profile_id (not-false same),
    )
