-- ===== src/Drafts/Sourced/Status.antt =====
-- work-briefs.service.ts: what a regeneration finds about its sources.
use work_copilot.Base.{
  Bool, true, false, Option, none, some, List, ◌++◌, ◌≡◌, ◌∙◌, refl, sym, ap, inl, inr, any, not,
  map, Option-cases, if◌then◌else◌, ◌||◌, ◌⊎◌, ◌≢◌, Unique, ◌↔◌,
}
use work_copilot.Brief.Types.{WorkBriefDraft, DraftFreshnessStatus}
use work_copilot.Drafts.Types.{JiraDraftContext, ConfluenceEvidenceContext, NormalizedEvidence}
use work_copilot.Drafts.Selection.{is_accessible, same_text}
use work_copilot.Drafts.Refresh.{evidence_of, pages_of, pages_inaccessible}
use work_copilot.Drafts.Regeneration.{
  is_missing, version_differs, regeneration_freshness_status, sources_lost,
}
use work_copilot.Readiness.Service.Found.{
  same_text-some, accessible_of, both_false, not-false, pages-readable,
}
use work_copilot.Publication.Types.{truthy}
use work_copilot.Drafts.Sourced.{
  IsFresh, IsReadable, evidence_key, all-IsSame, named_at, named-truthy, none_meets, some-same_text,
  found-passes, same-passes, pages-accessible, all-IsFound, source_known,
}

-- The tests one after another.
decided :
    (lost gone moved : Bool) {f : Option DraftFreshnessStatus}
    → (if lost
        then some DraftFreshnessStatus.access_changed
        else if gone
        then some DraftFreshnessStatus.access_changed
        else if moved
        then some DraftFreshnessStatus.review_required
        else none)
      ≡ f
    → (f ≡ some DraftFreshnessStatus.access_changed)
      ⊎ ((lost ≡ false)
          × (gone ≡ false)
          × (((moved ≡ true) × (f ≡ some DraftFreshnessStatus.review_required))
              ⊎ ((moved ≡ false) × (f ≡ none))))
decided true gone moved h = inl (sym h)
decided false true moved h = inl (sym h)
decided false false true h = inr (refl, refl, inl (refl, sym h))
decided false false false h = inr (refl, refl, inr (refl, sym h))

not_access :
    (b : Bool)
    → (if b then some DraftFreshnessStatus.review_required else none)
      ≢ some DraftFreshnessStatus.access_changed
not_access true h = cc
not_access false h = cc

module _ (d : WorkBriefDraft) (context : JiraDraftContext)
    (pages : Option ConfluenceEvidenceContext) where
  abbrev now : List NormalizedEvidence
  now = map evidence_of context.evidence ++ pages_of pages

  abbrev lost : Bool
  lost = sources_lost d context pages

  abbrev gone : Bool
  gone = any (is_missing now) d.evidence

  abbrev version : Bool
  version = not (same_text context.source_jira_version (some d.source_jira_version))

  abbrev moved : Bool
  moved = version || any (version_differs now) d.evidence

  readable :
      sources_lost d context pages ≡ false
      → any (is_missing (map evidence_of context.evidence ++ pages_of pages)) d.evidence ≡ false
      → IsReadable d context pages
  readable h k =
      let (h, read) = both_false _ (pages_inaccessible d pages) h in
      let (h, issue) =
        both_false _ (not (same_text context.source_jira_id (some d.source_jira_id))) h in
      let (h, profile) = both_false _ (not (same_text context.profile_id (some d.profile_id))) h in
      let (h, version_known) = both_false _ (not (truthy context.source_jira_version)) h in
      let (h, issue_known) = both_false _ (not (truthy context.source_jira_id)) h in
      let (seen, profile_known) =
        both_false (not (is_accessible context.access_status)) (not (truthy context.profile_id))
          h in
      let same_profile = same_text-some context.profile_id d.profile_id (not-false profile) in
      let same_issue = same_text-some context.source_jira_id d.source_jira_id (not-false issue) in
      record {
        accessible = accessible_of context.access_status (not-false seen);
        same_profile = same_profile;
        profile_named =
            named_at context.profile_id d.profile_id (not-false profile_known) same_profile;
        same_issue = same_issue;
        issue_named =
            named_at context.source_jira_id d.source_jira_id (not-false issue_known) same_issue;
        versioned = source_known context.source_jira_version (not-false version_known);
        pages_read = pages-readable d pages read;
        evidence_found = all-IsFound _ d.evidence k;
      }

  not_lost : IsReadable d context pages → sources_lost d context pages ≡ false
  not_lost r =
      let (v, version, named) = r.versioned in
      let profile = named-truthy context.profile_id d.profile_id r.same_profile r.profile_named in
      let issue = named-truthy context.source_jira_id d.source_jira_id r.same_issue r.issue_named in
      rw
        (
          r.accessible,
          profile,
          issue,
          named-truthy context.source_jira_version v version named,
          some-same_text context.profile_id d.profile_id r.same_profile,
          some-same_text context.source_jira_id d.source_jira_id r.same_issue,
          pages-accessible d pages r.pages_read,
        )
        refl

  -- Where no two of what is read now share an identifier, a regeneration over sources that can be
  -- read finds at most that they need a review, and nothing if they are as they were.
  pub IsFresh-status :
      Unique evidence_key (map evidence_of context.evidence ++ pages_of pages)
      → (IsReadable d context pages
          → regeneration_freshness_status d context pages
            ≢ some DraftFreshnessStatus.access_changed)
        × (IsFresh d context pages → regeneration_freshness_status d context pages ≡ none)
  unfolding regeneration_freshness_status
  IsFresh-status u =
      let here = λ (r : IsReadable d context pages).
        none_meets _ (is_missing now) d.evidence (λ e. found-passes now e u) r.evidence_found in
      (
        λ r h.
            let at_most : regeneration_freshness_status d context pages
                ≡ (if moved then some DraftFreshnessStatus.review_required else none) =
              rw (not_lost r) (rw (here r) refl) in
            not_access moved (sym at_most ∙ h),
        λ f.
            let issue =
              some-same_text context.source_jira_version d.source_jira_version f.same_version in
            let evidence =
              none_meets _ (version_differs now) d.evidence (λ e. same-passes now e u)
                f.evidence_same in
            rw (not_lost f.readable) (rw (here f.readable) (rw (issue, evidence) refl)),
      )

  -- A regeneration goes on only over sources that are as they were, and what it finds otherwise is
  -- lost access wherever not all of them can be read.
  pub status-IsFresh :
      ((regeneration_freshness_status d context pages ≡ none) → IsFresh d context pages)
      × ((f : DraftFreshnessStatus)
          → regeneration_freshness_status d context pages ≡ some f
          → (f ≡ DraftFreshnessStatus.access_changed)
            ⊎ ((f ≡ DraftFreshnessStatus.review_required) × IsReadable d context pages))
  unfolding regeneration_freshness_status
  status-IsFresh = (
    λ h. elim (decided lost gone moved h) [
      | inl changed ↦ cc
      | inr (read, here, inl (_, changed)) ↦ cc
      | inr (read, here, inr (same, _)) ↦
          let (issue, evidence) = both_false version (any (version_differs now) d.evidence) same in
          record {
            readable = readable read here;
            same_version =
                same_text-some context.source_jira_version d.source_jira_version (not-false issue);
            evidence_same = all-IsSame now d.evidence here evidence;
          }
    ],
    λ f h. elim (decided lost gone moved h) [
      | inl changed ↦ inl (cc changed)
      | inr (read, here, inl (_, changed)) ↦ inr (cc changed, readable read here)
      | inr (read, here, inr (_, changed)) ↦ cc
    ],
  )

  -- Where no two of what is read now share an identifier: a regeneration finds nothing exactly if the
  -- issue and all of the stored evidence can be read in the draft's profile, and stand at the
  -- versions that the draft was made from; it finds lost access exactly if they cannot all be read,
  -- and the need of a review exactly if they can and are not what they were.
  pub regeneration_freshness_status-IsFresh :
      Unique evidence_key (map evidence_of context.evidence ++ pages_of pages)
      → ((regeneration_freshness_status d context pages ≡ none) ↔ IsFresh d context pages)
        × ((regeneration_freshness_status d context pages
              ≡ some DraftFreshnessStatus.access_changed)
            ↔ (¬ (IsReadable d context pages)))
        × ((regeneration_freshness_status d context pages
              ≡ some DraftFreshnessStatus.review_required)
            ↔ (IsReadable d context pages × (¬ (IsFresh d context pages))))
  regeneration_freshness_status-IsFresh u = (
    (status-IsFresh.0, (IsFresh-status u).1),
    (
      (λ h r. (IsFresh-status u).0 r h),
      λ unread. elim (Option-cases (regeneration_freshness_status d context pages)) [
        | inl same ↦ absurd (unread (status-IsFresh.0 same).readable)
        | inr (f, found) ↦ elim (status-IsFresh.1 f found) [
          | inl lost ↦ found ∙ ap some lost
          | inr (_, r) ↦ absurd (unread r)
        ]
      ],
    ),
    (
      (λ h. (
        elim (status-IsFresh.1 DraftFreshnessStatus.review_required h) [
          | inl lost ↦ cc
          | inr (_, r) ↦ r
        ],
        λ f. let none_found = (IsFresh-status u).1 f in cc (sym none_found ∙ h),
      )),
      λ (r, moved). elim (Option-cases (regeneration_freshness_status d context pages)) [
        | inl same ↦ absurd (moved (status-IsFresh.0 same))
        | inr (f, found) ↦ elim (status-IsFresh.1 f found) [
          | inl lost ↦ absurd ((IsFresh-status u).0 r (found ∙ ap some lost))
          | inr (review, _) ↦ found ∙ ap some review
        ]
      ],
    ),
  )
