-- ===== src/Drafts/Sourced.antt =====
-- work-briefs.service.ts: what it means that a draft still stands on the sources that it is made
-- from, and what a regeneration finds if it does not.
pub mod Status
use work_copilot.Base.{
  String, Bool, true, false, Option, none, some, List, [], ◌∷◌, ◌++◌, ◌≡◌, ◌∙◌, refl, sym, ap, inl,
  inr, arith, any, not, map, All, Memᴰ, Bool-cases, Option-cases, eq_iff, if◌then◌else◌, ◌||◌, ◌==◌,
  ◌⊎◌, eq_refl, ◌≢◌, Unique, subst, ◌↔◌,
}
use work_copilot.Brief.Types.{WorkBriefDraft, StoredBriefEvidence, DraftFreshnessStatus}
use work_copilot.Webhooks.Freshness.{same_provider}
use work_copilot.Webhooks.Freshness.Reviewed.{same_provider-eq, same_provider_refl}
use work_copilot.Drafts.Types.{
  JiraDraftContext, ConfluenceEvidenceContext, NormalizedEvidence, EvidenceAccessStatus,
}
use work_copilot.Drafts.Selection.{is_accessible, same_text}
use work_copilot.Drafts.Refresh.{current_evidence, evidence_of, pages_of, pages_inaccessible}
use work_copilot.Drafts.Regeneration.{
  is_missing, version_differs, regeneration_freshness_status, sources_lost,
}
use work_copilot.Readiness.Service.Found.{
  same_text-some, accessible_of, both_false, not-false, pages-readable,
}
use work_copilot.Publication.Types.{truthy}

-- The evidence is among what its owner reads now.
abbrev pub IsFound : List NormalizedEvidence → StoredBriefEvidence → Type 0
IsFound read e = (n : NormalizedEvidence) × Memᴰ n read × (n.id ≡ e.id) × (n.provider ≡ e.provider)

-- And it is what it was.
abbrev pub IsSame : List NormalizedEvidence → StoredBriefEvidence → Type 0
IsSame read e =
    (n : NormalizedEvidence) × Memᴰ n read
    × (n.id ≡ e.id)
    × (n.provider ≡ e.provider)
    × (n.version ≡ e.version)

-- The issue and the pages can be read, have their names, are of the draft's profile, and hold all of its evidence.
pub record IsReadable (d : WorkBriefDraft) (context : JiraDraftContext)
    (pages : Option ConfluenceEvidenceContext) : Type 0 where
  pub accessible : context.access_status ≡ EvidenceAccessStatus.accessible
  pub same_profile : context.profile_id ≡ some d.profile_id
  pub profile_named : d.profile_id ≢ ""
  pub same_issue : context.source_jira_id ≡ some d.source_jira_id
  pub issue_named : d.source_jira_id ≢ ""
  pub versioned : (v : String) × (context.source_jira_version ≡ some v) × (v ≢ "")
  pub pages_read :
      (p : ConfluenceEvidenceContext)
      → pages ≡ some p
      → (p.access_status ≡ EvidenceAccessStatus.accessible) × (p.profile_id ≡ some d.profile_id)
  pub evidence_found : All (IsFound (map evidence_of context.evidence ++ pages_of pages)) d.evidence

-- The issue and the evidence stand at the versions that the draft was made from, too.
pub record IsFresh (d : WorkBriefDraft) (context : JiraDraftContext)
    (pages : Option ConfluenceEvidenceContext) : Type 0 where
  pub readable : IsReadable d context pages
  pub same_version : context.source_jira_version ≡ some d.source_jira_version
  pub evidence_same : All (IsSame (map evidence_of context.evidence ++ pages_of pages)) d.evidence

pub source_known : (o : Option String) → truthy o ≡ true → (s : String) × (o ≡ some s) × (s ≢ "")
source_known none h = cc
source_known (some s) h = (s, refl, λ e. ground (arith, (eq_iff s "").1 e))

pub named_at : (o : Option String) (s : String) → truthy o ≡ true → o ≡ some s → s ≢ ""
named_at o s h e = let (t, met, n) = source_known o h in λ empty. n (cc (sym met ∙ e) ∙ empty)

pub named-truthy : (o : Option String) (s : String) → o ≡ some s → s ≢ "" → truthy o ≡ true
named-truthy o s e n = rw e (ground (arith, eq_iff s ""))

pub some-same_text : (a : Option String) (b : String) → a ≡ some b → same_text a (some b) ≡ true
some-same_text a b e = rw e (eq_refl b)

current_evidence-mem :
    (i : String) (es : List NormalizedEvidence) {n : NormalizedEvidence}
    → current_evidence i es ≡ some n
    → Memᴰ n es
current_evidence-mem i [] h = cc
current_evidence-mem i (e ∷ es) {n} h = elim (Option-cases (current_evidence i es)) [
  | inr (later, found) ↦
      let one : ◌≡◌ {A = Option NormalizedEvidence} (some later) (some n) = rw found at h in
      Memᴰ.tail (current_evidence-mem i es (found ∙ one))
  | inl none_later ↦ elim (Bool-cases (e.id == i)) [
    | inl here ↦
        let one : ◌≡◌ {A = Option NormalizedEvidence} (some e) (some n) =
          rw (none_later, here) at h in
        Memᴰ.head (cc one)
    | inr away ↦
        let no : ◌≡◌ {A = Option NormalizedEvidence} none (some n) = rw (none_later, away) at h in
        cc
  ]
]

abbrev pub evidence_key : NormalizedEvidence → String
evidence_key e = e.id

current_evidence-none :
    (i : String) (es : List NormalizedEvidence)
    → All (λ e. evidence_key e ≢ i) es
    → current_evidence i es ≡ none
current_evidence-none i [] h = refl
current_evidence-none i (e ∷ es) (n, h) = elim (Bool-cases (e.id == i)) [
  | inl same ↦ absurd (n ((eq_iff e.id i).0 same))
  | inr away ↦ rw (current_evidence-none i es h, away) refl
]

-- What is read under a key that nothing else has is what stands there.
current_evidence-at :
    (es : List NormalizedEvidence) {n : NormalizedEvidence}
    → Unique evidence_key es
    → Memᴰ n es
    → current_evidence n.id es ≡ some n
current_evidence-at [] u m = elim m [ ]
current_evidence-at (e ∷ es) {n} (others, u) (Memᴰ.head q) =
    let alone : All (λ x. evidence_key x ≢ n.id) es =
      subst (λ x. All (λ y. evidence_key y ≢ evidence_key x) es) (sym q) others in
    let here : (e.id == n.id) ≡ true = (eq_iff e.id n.id).1 (ap evidence_key (sym q)) in
    rw (current_evidence-none n.id es alone, here) (ap some (sym q))
current_evidence-at (e ∷ es) (others, u) (Memᴰ.tail m) = rw (current_evidence-at es u m) refl

pub found-passes :
    (read : List NormalizedEvidence) (e : StoredBriefEvidence)
    → Unique evidence_key read
    → IsFound read e
    → is_missing read e ≡ false
found-passes read e u (n, m, p, q) =
    let met : current_evidence e.id read ≡ some n =
      subst (λ i. current_evidence i read ≡ some n) p (current_evidence-at read u m) in
    let id : (n.id == e.id) ≡ true = (eq_iff n.id e.id).1 p in
    let kind : same_provider n.provider e.provider ≡ true = rw q (same_provider_refl e.provider) in
    rw (is_missing, met) (rw (id, kind) refl)

pub same-passes :
    (read : List NormalizedEvidence) (e : StoredBriefEvidence)
    → Unique evidence_key read
    → IsSame read e
    → version_differs read e ≡ false
same-passes read e u (n, m, p, _, q) =
    let met : current_evidence e.id read ≡ some n =
      subst (λ i. current_evidence i read ≡ some n) p (current_evidence-at read u m) in
    let same : (n.version == e.version) ≡ true = (eq_iff n.version e.version).1 q in
    rw (version_differs, met) (rw same refl)

pub none_meets :
    (P : StoredBriefEvidence → Type 0) (p : StoredBriefEvidence → Bool)
    (es : List StoredBriefEvidence)
    → ((e : StoredBriefEvidence) → P e → p e ≡ false)
    → All P es
    → any p es ≡ false
none_meets P p [] h a = refl
none_meets P p (e ∷ es) h (one, a) = rw (h e one) (none_meets P p es h a)

pub pages-accessible :
    (d : WorkBriefDraft) (pages : Option ConfluenceEvidenceContext)
    → ((p : ConfluenceEvidenceContext)
        → pages ≡ some p
        → (p.access_status ≡ EvidenceAccessStatus.accessible) × (p.profile_id ≡ some d.profile_id))
    → pages_inaccessible d pages ≡ false
pages-accessible d none h = refl
pages-accessible d (some p) h =
    let (seen, same) = h p refl in rw (seen, some-same_text p.profile_id d.profile_id same) refl

-- One evidence that the test lets pass.
found_one :
    (read : List NormalizedEvidence) (e : StoredBriefEvidence)
    → is_missing read e ≡ false
    → (n : NormalizedEvidence) × (current_evidence e.id read ≡ some n)
      × Memᴰ n read
      × (n.id ≡ e.id)
      × (n.provider ≡ e.provider)
found_one read e h = elim (Option-cases (current_evidence e.id read)) [
  | inl absent ↦ let no : ◌≡◌ {A = Bool} true false = rw (is_missing, absent) at h in cc
  | inr (n, met) ↦
      let tests : (not (n.id == e.id) || not (same_provider n.provider e.provider)) ≡ false =
        rw (is_missing, met) at h in
      let (same, kind) = both_false _ _ tests in
      (
        n,
        met,
        current_evidence-mem e.id read met,
        (eq_iff n.id e.id).0 (not-false same),
        same_provider-eq n.provider e.provider (not-false kind),
      )
]

one-IsSame :
    (read : List NormalizedEvidence) (e : StoredBriefEvidence)
    → is_missing read e ≡ false
    → version_differs read e ≡ false
    → IsSame read e
one-IsSame read e h k =
    let (n, met, m, p, q) = found_one read e h in
    let tests : not (n.version == e.version) ≡ false = rw (version_differs, met) at k in
    (n, m, p, q, (eq_iff n.version e.version).0 (not-false tests))

pub all-IsFound :
    (read : List NormalizedEvidence) (es : List StoredBriefEvidence)
    → any (is_missing read) es ≡ false
    → All (IsFound read) es
all-IsFound read [] h = tt
all-IsFound read (e ∷ es) h =
    let (one, rest) = both_false (is_missing read e) (any (is_missing read) es) h in
    let (n, _, m, p, q) = found_one read e one in ((n, m, p, q), all-IsFound read es rest)

pub all-IsSame :
    (read : List NormalizedEvidence) (es : List StoredBriefEvidence)
    → any (is_missing read) es ≡ false
    → any (version_differs read) es ≡ false
    → All (IsSame read) es
all-IsSame read [] h k = tt
all-IsSame read (e ∷ es) h k =
    let (one, rest) = both_false (is_missing read e) (any (is_missing read) es) h in
    let (kept, others) = both_false (version_differs read e) (any (version_differs read) es) k in
    (one-IsSame read e one kept, all-IsSame read es rest others)
