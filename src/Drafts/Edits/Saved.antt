-- ===== src/Drafts/Edits/Saved.antt =====
-- work-briefs.service.ts: of two saves at one version, one at most is kept.
use work_copilot.Base.{
  ℕ, ◌+◌, String, true, some, ◌≡◌, ◌≢◌, refl, sym, ◌∙◌, ap, inl, inr, arith, Unique, map, List,
  subst,
}
use work_copilot.Failure.{Result, ok}
use work_copilot.Publication.World.{World}
use work_copilot.Publication.World.Program.{bind_ok, new_date, lift, or_throw}
use work_copilot.Publication.Service.Store.{find_owned_draft, owned_draft}
use work_copilot.Brief.Types.{WorkBriefDraft, BriefContent}
use work_copilot.Brief.Citations.{validate}
use work_copilot.Webhooks.Freshness.{draft_id_of}
use work_copilot.Drafts.Types.{BriefDraftView, Caller, UpdateBriefDraft, Sources, for_masking}
use work_copilot.Drafts.Content.{mask_content, replace_values, texts_of}
use work_copilot.Drafts.Commands.{update_draft, set_brief, evidence_id_of}
use work_copilot.Drafts.Present.{commit}
use work_copilot.Drafts.Edits.{seen_by, commit_result, commit-result, commit-ok, commit-Unique}
use work_copilot.Drafts.Versions.{draft_row, Later}
use work_copilot.Drafts.Versions.Called.{Rely}
use work_copilot.Publication.Service.Sending.{or_throw-some}

module _ (s : Sources) (c : Caller) (dto : UpdateBriefDraft) (w : World) where
  -- What other requests have left when the save is written.
  abbrev pub at_save : World
  at_save = s.meanwhile for_masking w

  -- A save that passes the checks is a write at its version.
  update_draft-commit :
      (d : WorkBriefDraft) (content : BriefContent) (values : List String)
      → owned_draft c.user_id c.draft_id w ≡ some d
      → validate (map evidence_id_of d.evidence) dto.content ≡ ok content
      → s.sanitize (texts_of content) ≡ ok values
      → update_draft s c dto w
        ≡ commit c.user_id c.draft_id dto.optimistic_version
            (set_brief (replace_values content values) dto.optimistic_version at_save.clock)
            (new_date s.outside at_save).1
  unfolding update_draft find_owned_draft mask_content
  update_draft-commit d content values found valid masked =
      rw (found, or_throw) (rw valid (rw masked refl))

  -- A save that passes the checks is answered by the row of its draft at the time of the write:
  -- it returns where that row is the caller's, is not deleted and stands at the version of the
  -- save, and then shows the masked content at the next version; it is a conflict where the row
  -- stands at another version, and not found otherwise. It is so whatever the freshness of the
  -- draft is: a save does not ask whether the sources have changed. The identifiers of the drafts
  -- are unique.
  pub update_draft-result :
      (d : WorkBriefDraft) (content : BriefContent) (values : List String)
      → owned_draft c.user_id c.draft_id w ≡ some d
      → validate (map evidence_id_of d.evidence) dto.content ≡ ok content
      → s.sanitize (texts_of content) ≡ ok values
      → Unique draft_id_of at_save.drafts
      → (update_draft s c dto w).0
        ≡ commit_result c.user_id dto.optimistic_version
            (set_brief (replace_values content values) dto.optimistic_version at_save.clock)
            (draft_row c.draft_id at_save)
  update_draft-result d content values found valid masked u =
      ap (λ (r : Result BriefDraftView × World). r.0)
        (update_draft-commit d content values found valid masked)
      ∙ commit-result c.user_id c.draft_id dto.optimistic_version
          (set_brief (replace_values content values) dto.optimistic_version at_save.clock)
          (λ e. refl) (λ e. refl) (new_date s.outside at_save).1 u

  -- What passed before a save returned.
  checked :
      {view : BriefDraftView}
      → (update_draft s c dto w).0 ≡ ok view
      → (d : WorkBriefDraft) × (content : BriefContent) × (values : List String) × (owned_draft
            c.user_id c.draft_id w
          ≡ some d)
        × (validate (map evidence_id_of d.evidence) dto.content ≡ ok content)
        × (s.sanitize (texts_of content) ≡ ok values)
  unfolding update_draft find_owned_draft mask_content
  checked h =
      let (d, found, h1, _) = bind_ok (find_owned_draft c.user_id c.draft_id w) _ h in
      let w1 = (find_owned_draft c.user_id c.draft_id w).1 in
      let (content, valid, h2, _) =
        bind_ok (lift (validate (map evidence_id_of d.evidence) dto.content) w1) _ h1 in
      let (masked, kept, _, _) = bind_ok (mask_content s content w1) _ h2 in
      let (values, sanitised, _, _) =
        bind_ok (lift (s.sanitize (texts_of content)) (s.meanwhile for_masking w1)) _ kept in
      (d, content, values, or_throw-some _ _ w found, valid, sanitised)

  -- A save that returns has met the row at its version, and leaves it at the next one.
  saved :
      {view : BriefDraftView}
      → Unique draft_id_of at_save.drafts
      → (update_draft s c dto w).0 ≡ ok view
      → (d : WorkBriefDraft) × (draft_row c.draft_id at_save ≡ some d)
        × (seen_by c.user_id dto.optimistic_version d ≡ true)
        × (e : WorkBriefDraft) × (draft_row c.draft_id (update_draft s c dto w).1 ≡ some e)
        × (e.optimistic_version ≡ dto.optimistic_version + 1)
        × Unique draft_id_of (update_draft s c dto w).1.drafts
  saved {view} u h =
      let (d, content, values, found, valid, masked) = checked h in
      let whole = update_draft-commit d content values found valid masked in
      let set = set_brief (replace_values content values) dto.optimistic_version at_save.clock in
      let v = (new_date s.outside at_save).1 in
      let answer = sym (ap (λ (r : Result BriefDraftView × World). r.0) whole) ∙ h in
      let (e, met, seen, _, left) =
        commit-ok c.user_id c.draft_id dto.optimistic_version set (λ e. refl) (λ e. refl) v u
          answer in
      (
        e,
        met,
        seen,
        set e,
        ap (λ (r : Result BriefDraftView × World). draft_row c.draft_id r.1) whole ∙ left,
        refl,
        subst (λ (r : Result BriefDraftView × World). Unique draft_id_of r.1.drafts) (sym whole)
            (commit-Unique c.user_id c.draft_id dto.optimistic_version set (λ e. refl) (λ e. refl) v
              u),
      )

-- A draft that stands past a version is never at it again.
past :
    (e d : WorkBriefDraft) (version : ℕ)
    → e.optimistic_version ≡ version + 1
    → Later e d
    → d.optimistic_version ≢ version
past e d version next (inl more) at_it = omega arith
past e d version next (inr same) at_it = omega (arith, same.0)

-- Of two saves of one draft at one version, whoever makes them and whatever other requests do
-- meanwhile, the second does not return once the first has returned: no edit is lost under a later
-- one that has not seen it. The identifiers of the drafts are unique, and other requests make each
-- draft later.
pub update_draft-once :
    (s : Sources) (first second : Caller) (a b : UpdateBriefDraft) (w : World)
    {one two : BriefDraftView}
    → Rely s
    → ((v : World)
        → Unique draft_id_of v.drafts
        → Unique draft_id_of (s.meanwhile for_masking v).drafts)
    → Unique draft_id_of w.drafts
    → second.draft_id ≡ first.draft_id
    → b.optimistic_version ≡ a.optimistic_version
    → (update_draft s first a w).0 ≡ ok one
    → (update_draft s second b (update_draft s first a w).1).0 ≢ ok two
update_draft-once s first second a b w rely unique u same_draft same_version h k =
    let w1 = (update_draft s first a w).1 in
    let (c, _, _, e, left, next, u1) = saved s first a w (unique w u) h in
    let (d, met, seen, _, _, _, _) = saved s second b w1 (unique w1 u1) k in
    let (f, read, later) =
      (rely for_masking w1).later second.draft_id e (ap (λ i. draft_row i w1) same_draft ∙ left) in
    let same : some f ≡ some d = sym read ∙ met in
    let one : f ≡ d = cc same in
    let grown : Later e d = subst (Later e) one later in
    past e d a.optimistic_version next grown (ground (arith, seen, same_version))
