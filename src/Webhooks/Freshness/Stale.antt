-- ===== src/Webhooks/Freshness/Stale.antt =====
-- webhooks/freshness-review.service.ts and publication.service.ts: a change of a source withdraws
-- the approvals of the drafts that cite it.
use work_copilot.Base.{
  ℕ, ◌+◌, String, Bool, true, some, List, [], ◌∷◌, ◌≡◌, refl, sym, ap, ◌∙◌, filter, Unique, row,
  arith, Memᴰ, eq_iff, Bool-cases, inl, inr, update-Unique, find, subst,
}
use work_copilot.Webhooks.Freshness.{
  update_drafts, mark_review_required, draft_id_of, update_draft, is_affected, send_to_review,
}
use work_copilot.Brief.Types.{WorkBriefDraft, EvidenceProvider}
use work_copilot.Publication.World.{World, Outside}
use work_copilot.Publication.Service.Store.{owned_draft}
use work_copilot.Publication.Service.Commands.{
  Target, publish_jira, publish_child_tasks, retry_confluence,
}
use work_copilot.Webhooks.Freshness.Marked.{row-mem, mark_review_required-row}
use work_copilot.Publication.Service.Guards.{PhaseInput}
use work_copilot.Publication.World.Program.{Program}
use work_copilot.Publication.Service.Sending.{Quiet, OnlyIf}
use work_copilot.Publication.Service.Publish.{publish}
use work_copilot.Publication.Service.Present.{BriefPublicationView}
use work_copilot.Publication.Service.Opened.{publish-OnlyIf}
use work_copilot.Publication.Service.Phased.{
  retry_confluence-OnlyIf, publish_jira-OnlyIf, publish_child_tasks-OnlyIf,
}

pub find-some :
    (p : WorkBriefDraft → Bool) (ds : List WorkBriefDraft) {d : WorkBriefDraft}
    → find p ds ≡ some d
    → Memᴰ d ds × (p d ≡ true)
find-some p [] h = cc
find-some p (c ∷ ds) {d} h = elim (Bool-cases (p c)) [
  | inl e ↦
      let here : some c ≡ some d = rw e at h in
      let one : c ≡ d = cc here in (Memᴰ.head (sym one), subst (λ x. p x ≡ true) one e)
  | inr e ↦
      let later : find p ds ≡ some d = rw e at h in
      let (m, q) = find-some p ds {d = d} later in (Memᴰ.tail m, q)
]

update_drafts-Unique :
    (profile : String) (now : ℕ) (ds rows : List WorkBriefDraft)
    → Unique draft_id_of rows
    → Unique draft_id_of (update_drafts profile now ds rows)
unfolding update_drafts
update_drafts-Unique profile now [] rows u = u
update_drafts-Unique profile now (d ∷ ds) rows u =
    update_drafts-Unique profile now ds (update_draft profile now d rows)
      (update-Unique draft_id_of (send_to_review d.freshness_status now) (λ x. refl) _ rows u)

mark-Unique :
    (profile : String) (provider : EvidenceProvider) (source : String) (now : ℕ) (w : World)
    → Unique draft_id_of w.drafts
    → Unique draft_id_of (mark_review_required profile provider source now w).1.drafts
unfolding mark_review_required
mark-Unique profile provider source now w u =
    update_drafts-Unique profile now (filter (is_affected profile provider source) w.drafts)
      w.drafts u

module _ (profile : String) (provider : EvidenceProvider) (source : String) (now : ℕ) (w : World)
    (d : WorkBriefDraft) (u : Unique draft_id_of w.drafts) (m : Memᴰ d w.drafts)
    (hit : is_affected profile provider source d ≡ true) where
  after : World
  after = (mark_review_required profile provider source now w).1

  -- Who finds the draft later finds its next version.
  owned-next :
      (user : ℕ) (x : WorkBriefDraft)
      → owned_draft user d.id after ≡ some x
      → x.optimistic_version ≡ d.optimistic_version + 1
  unfolding after
  owned-next user x found =
      let (k, tests) = find-some _ after.drafts {d = x} found in
      let same : x.id ≡ d.id = (eq_iff x.id d.id).0 (ground arith) in
      let read = row-mem after.drafts {d = x} (mark-Unique profile provider source now w u) k in
      let next : row draft_id_of d.id after.drafts
          ≡ some (send_to_review d.freshness_status now d) =
        rw hit at (mark_review_required-row profile provider source now w d u m) in
      let both : some x ≡ some (send_to_review d.freshness_status now d) =
        sym read ∙ rw same next in
      let one : x ≡ send_to_review d.freshness_status now d = cc both in
      ap (λ y. y.optimistic_version) one

  withdrawn :
      {A : Type 0} (Q : Type 0) (t : Target) (input : PhaseInput) (p : Program A)
      → t.draft_id ≡ d.id
      → input.draft_version ≡ d.optimistic_version
      → (Q
          → (x : WorkBriefDraft) × (owned_draft t.user_id t.draft_id after ≡ some x)
            × (x.optimistic_version ≡ input.draft_version))
      → OnlyIf Q p after
      → Quiet p after
  withdrawn Q t input p same old checked (inl quiet) = quiet
  withdrawn Q t input p same old checked (inr q) =
      let (x, owned, current) = checked q in
      let next =
        owned-next t.user_id x (subst (λ i. owned_draft t.user_id i after ≡ some x) same owned) in
      absurd (omega (arith, next, current, old))

-- Where no two drafts share a key: after a change of a source that a draft cites, no command that
-- approves the version that the draft had before writes to a provider.
pub mark_review_required-Quiet :
    (profile : String) (provider : EvidenceProvider) (source : String) (now : ℕ) (w : World)
    (d : WorkBriefDraft) (o : Outside) (t : Target) (input : PhaseInput)
    → Unique draft_id_of w.drafts
    → Memᴰ d w.drafts
    → is_affected profile provider source d ≡ true
    → t.draft_id ≡ d.id
    → input.draft_version ≡ d.optimistic_version
    → let v = (mark_review_required profile provider source now w).1 in
      Quiet (publish o t input) v
      × Quiet (publish_jira o t input) v
      × Quiet (publish_child_tasks o t input) v
      × Quiet (retry_confluence o t input) v
unfolding after
mark_review_required-Quiet profile provider source now w d o t input u m hit same old =
    let v = (mark_review_required profile provider source now w).1 in
    let refuse = λ (Q : Type 0) (p : Program BriefPublicationView).
      withdrawn profile provider source now w d u m hit Q t input p same old in
    (
      refuse _ (publish o t input)
          (λ q. elim q [
            | inl f ↦ (f.begun.draft, f.begun.owned, f.begun.current)
            | inr r ↦ (r.begun.draft, r.begun.owned, r.begun.current)
          ])
          (publish-OnlyIf o t input v),
      refuse _ (publish_jira o t input) (λ q. (q.begun.draft, q.begun.owned, q.current))
          (publish_jira-OnlyIf o t input v),
      refuse _ (publish_child_tasks o t input) (λ q. (q.begun.draft, q.begun.owned, q.current))
          (publish_child_tasks-OnlyIf o t input v),
      refuse _ (retry_confluence o t input) (λ q. (q.begun.draft, q.begun.owned, q.current))
          (retry_confluence-OnlyIf o t input v),
    )
