-- ===== src/Webhooks/Freshness/Reviewed.antt =====
-- webhooks/freshness-review.service.ts: which drafts a change sends back to review, and how.
use work_copilot.Base.{
  ℕ, ◌+◌, String, Bool, true, Option, none, some, ◌≡◌, ◌≢◌, ◌∙◌, ◌↔◌, refl, inl, inr, arith, Memᴰ,
  any-witness, any_of_mem, eq_iff, row, Unique, Bool-cases, ◌==◌, ◌&&◌, ap, not, is_some,
}
use work_copilot.Brief.Types.{
  WorkBriefDraft, EvidenceProvider, DraftStatus, DraftFreshnessStatus, StoredBriefEvidence,
}
use work_copilot.Publication.World.{World}
use work_copilot.Publication.Service.Store.{is_live}
use work_copilot.Webhooks.Freshness.{
  mark_review_required, draft_id_of, is_affected, references_source, same_provider,
  reviewed_freshness, send_to_review,
}
use work_copilot.Webhooks.Freshness.Marked.{mark_review_required-row}

-- A draft stands on a source as its issue, or through an evidence.
pub data StandsOn (provider : EvidenceProvider) (source : String) (d : WorkBriefDraft)
    : Type 0 where
  by_issue :
      provider ≡ EvidenceProvider.jira → d.source_jira_id ≡ source → StandsOn provider source d
  by_evidence :
      (e : StoredBriefEvidence)
      → Memᴰ e d.evidence
      → e.provider ≡ provider
      → e.source_id ≡ source
      → StandsOn provider source d

-- A draft of the profile that is not deleted and stands on the source.
pub record Affected (profile : String) (provider : EvidenceProvider) (source : String)
    (d : WorkBriefDraft) : Type 0 where
  pub in_profile : d.profile_id ≡ profile
  pub live : d.deleted_at ≡ none
  pub stands_on : StandsOn provider source d

-- The next version of a draft, which waits for a review: lost access stays lost, and nothing that
-- the draft says is changed.
pub record SentBack (now : ℕ) (before after : WorkBriefDraft) : Type 0 where
  pub set_apart : after ≡ record before {
    status = DraftStatus.review_required;
    freshness_status = after.freshness_status;
    optimistic_version = before.optimistic_version + 1;
    updated_at = now;
    updated_micros = 0;
  }
  pub lost :
      before.freshness_status ≡ DraftFreshnessStatus.access_changed
      → after.freshness_status ≡ DraftFreshnessStatus.access_changed
  pub readable :
      before.freshness_status ≢ DraftFreshnessStatus.access_changed
      → after.freshness_status ≡ DraftFreshnessStatus.review_required

pub same_provider-eq : (p q : EvidenceProvider) → same_provider p q ≡ true → p ≡ q
same_provider-eq EvidenceProvider.jira EvidenceProvider.jira h = refl
same_provider-eq EvidenceProvider.jira EvidenceProvider.confluence h = cc
same_provider-eq EvidenceProvider.confluence EvidenceProvider.jira h = cc
same_provider-eq EvidenceProvider.confluence EvidenceProvider.confluence h = refl

pub same_provider_refl : (p : EvidenceProvider) → same_provider p p ≡ true
same_provider_refl EvidenceProvider.jira = refl
same_provider_refl EvidenceProvider.confluence = refl

both : (a b : Bool) → (a && b) ≡ true → (a ≡ true) × (b ≡ true)
both a b h = (ground arith, ground arith)

references-StandsOn :
    (d : WorkBriefDraft) (provider : EvidenceProvider) (source : String)
    → references_source d provider source ≡ true
    → StandsOn provider source d
unfolding references_source
references-StandsOn d provider source h =
    let issue = same_provider provider EvidenceProvider.jira && (d.source_jira_id == source) in
    elim (Bool-cases issue) [
      | inl e ↦
          let (p, q) = both _ _ e in
          by_issue (same_provider-eq provider EvidenceProvider.jira p)
            ((eq_iff d.source_jira_id source).0 q)
      | inr e ↦
          let (x, m, t) =
            any-witness (λ x. same_provider x.provider provider && (x.source_id == source))
              d.evidence (ground arith) in
          let (p, q) = both _ _ t in
          by_evidence x m (same_provider-eq x.provider provider p) ((eq_iff x.source_id source).0 q)
    ]

StandsOn-references :
    (d : WorkBriefDraft) (provider : EvidenceProvider) (source : String)
    → StandsOn provider source d
    → references_source d provider source ≡ true
unfolding references_source
StandsOn-references d provider source (by_issue p q) =
    let one : (d.source_jira_id == source) ≡ true = (eq_iff d.source_jira_id source).1 q in
    rw (p, one) refl
StandsOn-references d provider source (by_evidence x m p q) =
    let hit : (same_provider x.provider provider && (x.source_id == source)) ≡ true =
      rw (p, (eq_iff x.source_id source).1 q, same_provider_refl provider) refl in
    let found =
      any_of_mem (λ y. same_provider y.provider provider && (y.source_id == source)) d.evidence m
        hit in
    ground arith

unset : (t : Option ℕ) → not (is_some t) ≡ true → t ≡ none
unset none h = refl
unset (some t) h = cc

all_three : {a b c : Bool} → a ≡ true → b ≡ true → c ≡ true → ((a && b) && c) ≡ true
all_three p q r = rw (p, q, r) refl

is_affected-Affected :
    (profile : String) (provider : EvidenceProvider) (source : String) (d : WorkBriefDraft)
    → (is_affected profile provider source d ≡ true) ↔ Affected profile provider source d
is_affected-Affected profile provider source d = (
  λ h.
      let (rest, c) =
        both ((d.profile_id == profile) && is_live d) (references_source d provider source) h in
      let (p, l) = both (d.profile_id == profile) (is_live d) rest in
      record {
        in_profile = (eq_iff d.profile_id profile).0 p;
        live = unset d.deleted_at l;
        stands_on = references-StandsOn d provider source c;
      },
  λ a.
      all_three ((eq_iff d.profile_id profile).1 a.in_profile) (ap (λ t. not (is_some t)) a.live)
        (StandsOn-references d provider source a.stands_on),
)

freshness_of :
    (f : DraftFreshnessStatus)
    → f ≢ DraftFreshnessStatus.access_changed
    → reviewed_freshness f ≡ DraftFreshnessStatus.review_required
freshness_of DraftFreshnessStatus.current n = refl
freshness_of DraftFreshnessStatus.review_required n = refl
freshness_of DraftFreshnessStatus.access_changed n = absurd (n refl)

send_to_review-SentBack :
    (now : ℕ) (d : WorkBriefDraft) → SentBack now d (send_to_review d.freshness_status now d)
send_to_review-SentBack now d = record {
  set_apart = refl;
  lost = λ h. ap reviewed_freshness h;
  readable = freshness_of d.freshness_status;
}

-- Where no two drafts share a key: a change of a source sends every draft of the profile that is
-- not deleted and has the source as its issue or through an evidence back to review, at its next
-- version, with lost access kept as such and its brief and evidence as they were; and it leaves
-- every other draft as it was.
pub mark_review_required-SentBack :
    (profile : String) (provider : EvidenceProvider) (source : String) (now : ℕ) (w : World)
    (d : WorkBriefDraft)
    → Unique draft_id_of w.drafts
    → Memᴰ d w.drafts
    → let v = (mark_review_required profile provider source now w).1 in
      (Affected profile provider source d
        → (e : WorkBriefDraft) × (row draft_id_of d.id v.drafts ≡ some e) × SentBack now d e)
      × (¬ (Affected profile provider source d) → row draft_id_of d.id v.drafts ≡ some d)
mark_review_required-SentBack profile provider source now w d u m =
    let known = is_affected-Affected profile provider source d in
    let left = mark_review_required-row profile provider source now w d u m in
    (
      λ a. (
        send_to_review d.freshness_status now d,
        left ∙ rw (known.1 a) refl,
        send_to_review-SentBack now d,
      ),
      λ n. elim (Bool-cases (is_affected profile provider source d)) [
        | inl e ↦ absurd (n (known.0 e))
        | inr e ↦ left ∙ rw e refl
      ],
    )
