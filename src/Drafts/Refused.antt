-- ===== src/Drafts/Refused.antt =====
-- work-briefs.service.ts: a regeneration over sources that have changed.
use work_copilot.Base.{
  ℕ, ◌+◌, String, true, Option, some, ◌≡◌, ◌∙◌, refl, sym, ap, inl, inr, arith, eqb, Unique,
  Option-cases, eq_iff, subst, ◌==◌, ◌&&◌, [], map, ◌++◌,
}
use work_copilot.Failure.{Failure, Result, ok, err, freshness_conflict}
use work_copilot.Publication.World.{World}
use work_copilot.Publication.World.Program.{Program, bind_result}
use work_copilot.Publication.Service.Store.{find_owned_draft, owned_draft, is_live}
use work_copilot.Publication.Service.Sending.{bind-ok}
use work_copilot.Publication.Service.Begun.{find_owned_draft-idle}
use work_copilot.Brief.Types.{WorkBriefDraft, DraftFreshnessStatus, DraftStatus}
use work_copilot.Webhooks.Freshness.{draft_id_of}
use work_copilot.Webhooks.Freshness.Stale.{find-some}
use work_copilot.Drafts.Types.{
  Caller, Sources, RegenerateBriefDraft, JiraDraftContext, ConfluenceEvidenceContext,
  BriefDraftView,
}
use work_copilot.Drafts.Commands.{assert_publication_safety}
use work_copilot.Drafts.Deletion.{assert_publication_safety-idle}
use work_copilot.Drafts.Edits.{owned_by}
use work_copilot.Drafts.Versions.{draft_row}
use work_copilot.Drafts.Selection.{SelectedEvidenceIds, selected_evidence_ids}
use work_copilot.Drafts.Regeneration.{
  locked_regeneration_draft, assert_regeneration_draft_state, selection_of, regenerate_draft,
  collect_regeneration_jira_context, collect_regeneration_confluence_metadata, refusal_code,
  kept_evidence, assert_regeneration_freshness, reject_regeneration_for_freshness,
  regeneration_freshness_status, regenerate_fresh,
}
use work_copilot.Drafts.Guarded.{
  found_owned, assert_state-idle, assert_state-ok, reject_regeneration_for_freshness-marks,
}
use work_copilot.Drafts.Refresh.{evidence_of, pages_of}
use work_copilot.Drafts.Sourced.{evidence_key, IsFresh, IsReadable}
use work_copilot.Drafts.Sourced.Status.{status-IsFresh, IsFresh-status}

-- The draft that a regeneration starts from is its owner's, at the version that was seen.
locked-owned :
    (c : Caller) (version : ℕ) (w : World) {d : WorkBriefDraft}
    → (locked_regeneration_draft c version w).0 ≡ ok d
    → (owned_draft c.user_id c.draft_id w ≡ some d) × (d.optimistic_version ≡ version)
unfolding locked_regeneration_draft
locked-owned c version w {d} h =
    let (e, found, h1) =
      bind-ok (find_owned_draft c.user_id c.draft_id) _ w
        (find_owned_draft-idle c.user_id c.draft_id w) h in
    let (done, checked, h2) =
      bind-ok (assert_regeneration_draft_state e version) _ w (assert_state-idle e version w) h1 in
    let (safe, _, h3) =
      bind-ok (assert_publication_safety c.draft_id) _ w
        (assert_publication_safety-idle c.draft_id w) h2 in
    let one : e ≡ d = cc h3 in
    (
      found_owned c.user_id c.draft_id w found ∙ ap some one,
      ap (λ x. x.optimistic_version) (sym one) ∙ (assert_state-ok e version w checked).0,
    )

owned_tests :
    (user : ℕ) (i : String) (w : World) {d : WorkBriefDraft}
    → owned_draft user i w ≡ some d
    → (d.id ≡ i) × (owned_by d.created_by_user_id d ≡ true)
owned_tests user i w {d} h =
    let (_, tests) =
      find-some (λ x. (x.id == i) && (eqb x.created_by_user_id user && is_live x)) w.drafts {d = d}
        h in
    ((eq_iff d.id i).0 (ground arith), ground arith)

bind_err :
    {A B : Type 0} (p : Result A × World) (f : A → Program B) {e : Failure}
    → p.0 ≡ err e
    → ((bind_result p f).0 ≡ err e) × ((bind_result p f).1 ≡ p.1)
bind_err (ok a, w) f h = cc
bind_err (err e, w) f h = (cc h, refl)

bind_at :
    {A B : Type 0} {p : Result A × World} {a : A} {w : World}
    → p ≡ (ok a, w)
    → (f : A → Program B) → bind_result p f ≡ f a w
bind_at h f = ap (λ r. bind_result r f) h

-- What a refused regeneration leaves of the draft.
pub record Refused (f : DraftFreshnessStatus) (before after : WorkBriefDraft) : Type 0 where
  pub marked : after.freshness_status ≡ f
  pub waits : after.status ≡ DraftStatus.review_required
  pub same_brief : after.masked_brief ≡ before.masked_brief
  pub next_version : after.optimistic_version ≡ before.optimistic_version + 1
  pub dropped : f ≡ DraftFreshnessStatus.access_changed → after.evidence ≡ []
  pub kept : f ≡ DraftFreshnessStatus.review_required → after.evidence ≡ before.evidence

-- The outcome of a regeneration that is refused with a freshness.
abbrev pub RefusedWith :
    Caller → WorkBriefDraft → DraftFreshnessStatus → Result BriefDraftView × World → Type 0
RefusedWith c d f r =
    (r.0 ≡ err (freshness_conflict (refusal_code f) (d.optimistic_version + 1)))
    × ((e : WorkBriefDraft) × (draft_row c.draft_id r.1 ≡ some e) × Refused f d e)

module _ (s : Sources) (c : Caller) (dto : RegenerateBriefDraft) (d : WorkBriefDraft)
    (context : JiraDraftContext) (pages : Option ConfluenceEvidenceContext) where
  -- A change that the comparison finds is marked, and nothing that follows is done.
  changed-Refused :
      (f : DraftFreshnessStatus) (rest : Unit {0} → Program BriefDraftView) (y : World)
      → Unique draft_id_of y.drafts
      → draft_row c.draft_id y ≡ some d
      → d.id ≡ c.draft_id
      → owned_by d.created_by_user_id d ≡ true
      → d.optimistic_version ≡ dto.optimistic_version
      → RefusedWith c d f
          (bind_result (assert_regeneration_freshness s d dto.optimistic_version (some f) y) rest)
  unfolding assert_regeneration_freshness
  changed-Refused f rest y u read mine owned at =
      let own : draft_row d.id y ≡ some d = subst (λ i. draft_row i y ≡ some d) (sym mine) read in
      let (thrown, (e, left, fresh, waits, evidence, brief, next)) =
        reject_regeneration_for_freshness-marks s d f y u own owned in
      let run = reject_regeneration_for_freshness s {A = Unit {0}} d d.optimistic_version f y in
      let (answer, same) = bind_err run rest thrown in
      let row_left : draft_row c.draft_id (bind_result run rest).1 ≡ some e =
        subst (λ i. draft_row i (bind_result run rest).1 ≡ some e) mine
          (ap (draft_row d.id) same ∙ left) in
      let refused : Refused f d e = record {
        marked = fresh;
        waits = waits;
        same_brief = brief;
        next_version = next;
        dropped = λ h. evidence ∙ ap (λ g. kept_evidence g d.evidence) h;
        kept = λ h. evidence ∙ ap (λ g. kept_evidence g d.evidence) h;
      } in
      let settled : RefusedWith c d f (bind_result run rest) = (answer, (e, row_left, refused)) in
      subst
        (λ v.
          RefusedWith c d f
            (bind_result (reject_regeneration_for_freshness s {A = Unit {0}} d v f y) rest))
        at settled

  -- Where the draft and the selection pass the checks, the issue and the pages answer, no two of
  -- what is read share an identifier, no two drafts share a key, and no other request has changed the
  -- draft meanwhile: a regeneration over sources that are not as they were is refused with the next
  -- version of the draft, and leaves the draft waiting for a review with its brief as it was. If
  -- the sources cannot all be read, it is refused and marked as lost access, and the stored evidence
  -- is gone; if they can, it is a review that they need, and the evidence stays.
  pub regenerate_draft-RefusedWith :
      (ids : SelectedEvidenceIds) (w v y : World)
      → (locked_regeneration_draft c dto.optimistic_version w ≡ (ok d, w))
      → (selected_evidence_ids (selection_of dto d) w ≡ (ok ids, w))
      → (collect_regeneration_jira_context s c d dto.optimistic_version w ≡ (ok context, v))
      → (collect_regeneration_confluence_metadata s c d dto.optimistic_version context v
          ≡ (ok pages, y))
      → Unique evidence_key (map evidence_of context.evidence ++ pages_of pages)
      → Unique draft_id_of y.drafts
      → draft_row c.draft_id y ≡ some d
      → ¬ (IsFresh d context pages)
      → (f : DraftFreshnessStatus) × RefusedWith c d f (regenerate_draft s c dto w)
        × (¬ (IsReadable d context pages) → f ≡ DraftFreshnessStatus.access_changed)
        × (IsReadable d context pages → f ≡ DraftFreshnessStatus.review_required)
  unfolding regenerate_draft
  regenerate_draft-RefusedWith ids w v y locked selected issue metadata apart u read stale =
      let rest = λ (done : Unit {0}). regenerate_fresh s c dto ids context in
      let outcome = λ (found : Option DraftFreshnessStatus).
        bind_result (assert_regeneration_freshness s d dto.optimistic_version found y) rest in
      let whole : regenerate_draft s c dto w
          ≡ outcome (regeneration_freshness_status d context pages) =
        bind_at locked _ ∙ bind_at selected _ ∙ bind_at issue _ ∙ bind_at metadata _ in
      let (owned, at) = locked-owned c dto.optimistic_version w (ap (λ r. r.0) locked) in
      let (mine, live) = owned_tests c.user_id c.draft_id w owned in
      let (fresh, changed) = status-IsFresh d context pages in
      elim (Option-cases (regeneration_freshness_status d context pages)) [
        | inl none_found ↦ absurd (stale (fresh none_found))
        | inr (f, found) ↦ (
          f,
          subst (RefusedWith c d f) (sym (whole ∙ ap outcome found))
              (changed-Refused f rest y u read mine live at),
          λ unread. elim (changed f found) [
            | inl lost ↦ lost
            | inr (_, readable) ↦ absurd (unread readable)
          ],
          λ readable. elim (changed f found) [
            | inl lost ↦
                absurd ((IsFresh-status d context pages apart).0 readable (found ∙ ap some lost))
            | inr (review, _) ↦ review
          ],
        )
      ]
