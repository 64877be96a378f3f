-- ===== src/Webhooks/Freshness/Marked.antt =====
-- webhooks/freshness-review.service.ts: what becomes of each draft.
use work_copilot.Base.{
  ℕ, String, Bool, true, some, List, [], ◌∷◌, ◌≡◌, ◌≢◌, refl, sym, ap, ◌∙◌, ◌==◌, if◌then◌else◌,
  filter, ◌&&◌, Unique, row, row-update, arith, All, Memᴰ, eq_iff, eq_refl, All-mem, Bool-cases,
  inl, inr, filter-mem, mem-All, mem-filter, Unique-mem, false≢true,
}
use work_copilot.Webhooks.Freshness.{
  update_drafts, mark_review_required, draft_id_of, update_draft, send_to_review, is_affected,
}
use work_copilot.Brief.Types.{WorkBriefDraft, EvidenceProvider}
use work_copilot.Publication.World.{World}
use work_copilot.Publication.Service.Store.{is_live}

module _ (profile : String) (now : ℕ) where
  row-update_draft_other :
      (d : WorkBriefDraft) (j : String) (rows : List WorkBriefDraft)
      → d.id ≢ j
      → row draft_id_of j (update_draft profile now d rows) ≡ row draft_id_of j rows
  row-update_draft_other d j rows n = ground (
    arith,
    row-update draft_id_of (send_to_review d.freshness_status now) (λ x. refl) d.id j
        (λ e. (e.profile_id == profile) && is_live e) rows,
    eq_iff d.id j,
  )

  row-update_drafts_other :
      (ds : List WorkBriefDraft) (j : String) (rows : List WorkBriefDraft)
      → All (λ d. draft_id_of d ≢ j) ds
      → row draft_id_of j (update_drafts profile now ds rows) ≡ row draft_id_of j rows
  unfolding update_drafts
  row-update_drafts_other [] j rows h = refl
  row-update_drafts_other (d ∷ ds) j rows (n, h) =
      row-update_drafts_other ds j (update_draft profile now d rows) h
      ∙ row-update_draft_other d j rows n

  row-update_draft :
      (d : WorkBriefDraft) (rows : List WorkBriefDraft)
      → row draft_id_of d.id rows ≡ some d
      → ((d.profile_id == profile) && is_live d) ≡ true
      → row draft_id_of d.id (update_draft profile now d rows)
        ≡ some (send_to_review d.freshness_status now d)
  row-update_draft d rows e h =
      row-update draft_id_of (send_to_review d.freshness_status now) (λ x. refl) d.id d.id
        (λ e. (e.profile_id == profile) && is_live e) rows
      ∙ rw (eq_refl d.id, e, h) refl

  row-update_drafts :
      (ds : List WorkBriefDraft) (d : WorkBriefDraft) (rows : List WorkBriefDraft)
      → Unique draft_id_of ds
      → Memᴰ d ds
      → row draft_id_of d.id rows ≡ some d
      → ((d.profile_id == profile) && is_live d) ≡ true
      → row draft_id_of d.id (update_drafts profile now ds rows)
        ≡ some (send_to_review d.freshness_status now d)
  unfolding update_drafts
  row-update_drafts [] d rows u m e h = elim m [ ]
  row-update_drafts (c ∷ ds) d rows (n, u) (Memᴰ.head q) e h = rw (← q) (
      row-update_drafts_other ds d.id (update_draft profile now d rows) (rw (← q) at n)
      ∙ row-update_draft d rows e h)
  row-update_drafts (c ∷ ds) d rows (n, u) (Memᴰ.tail m) e h =
      row-update_drafts ds d (update_draft profile now c rows) u m
        (row-update_draft_other c d.id rows
            (λ same. All-mem (λ y. draft_id_of y ≢ draft_id_of c) ds n m (sym same))
          ∙ e)
        h

pub row-mem :
    (rows : List WorkBriefDraft) {d : WorkBriefDraft}
    → Unique draft_id_of rows
    → Memᴰ d rows
    → row draft_id_of d.id rows ≡ some d
row-mem [] u m = elim m [ ]
row-mem (c ∷ rows) {d} u (Memᴰ.head q) = rw q (rw (eq_refl (draft_id_of c)) refl)
row-mem (c ∷ rows) {d} (n, u) (Memᴰ.tail m) = elim (Bool-cases (draft_id_of c == d.id)) [
  | inl e ↦ absurd (
      All-mem (λ y. draft_id_of y ≢ draft_id_of c) rows n m
        (sym ((eq_iff (draft_id_of c) d.id).0 e)))
  | inr e ↦ rw e (row-mem rows u m)
]

pub filter-Unique :
    (p : WorkBriefDraft → Bool) (rows : List WorkBriefDraft)
    → Unique draft_id_of rows
    → Unique draft_id_of (filter p rows)
filter-Unique p [] u = tt
filter-Unique p (c ∷ rows) (n, u) =
    let others : All (λ y. draft_id_of y ≢ draft_id_of c) (filter p rows) =
      mem-All _ (filter p rows)
        λ x k. All-mem (λ y. draft_id_of y ≢ draft_id_of c) rows n (mem-filter p rows k).0 in
    elim (Bool-cases (p c)) [
      | inl e ↦ rw e (others, filter-Unique p rows u)
      | inr e ↦ rw e (filter-Unique p rows u)
    ]

-- Where no two drafts share a key: after a change of a source, a draft that cites it has its next
-- version and waits for review, with lost access kept as such, and every other draft is as it
-- was.
pub mark_review_required-row :
    (profile : String) (provider : EvidenceProvider) (source : String) (now : ℕ) (w : World)
    (d : WorkBriefDraft)
    → Unique draft_id_of w.drafts
    → Memᴰ d w.drafts
    → row draft_id_of d.id (mark_review_required profile provider source now w).1.drafts
      ≡ some (
          if is_affected profile provider source d
          then send_to_review d.freshness_status now d
          else d)
unfolding mark_review_required
mark_review_required-row profile provider source now w d u m =
    let hits = is_affected profile provider source in
    let affected = filter hits w.drafts in
    elim (Bool-cases (hits d)) [
      | inl e ↦ rw e (
          row-update_drafts profile now affected d w.drafts (filter-Unique hits w.drafts u)
            (filter-mem hits w.drafts m e) (row-mem w.drafts u m) (ground arith))
      | inr e ↦
          let others : All (λ c. draft_id_of c ≢ d.id) affected = mem-All _ affected λ c k same.
            let (l, hit) = mem-filter hits w.drafts k in
            let one : c ≡ d = Unique-mem draft_id_of w.drafts u l m same in
            false≢true (sym e ∙ ap hits (sym one) ∙ hit) in
          rw e (
            row-update_drafts_other profile now affected d.id w.drafts others
            ∙ row-mem w.drafts u m)
    ]
