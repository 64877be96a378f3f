-- ===== src/Drafts/Guarded.antt =====
-- work-briefs.service.ts: when a regenerated brief is stored, and what a refusal leaves.
use work_copilot.Base.{
  ℕ, String, true, none, some, List, ◌≡◌, refl, sym, ◌∙◌, ap, inl, inr, ◌+◌, arith, eqb, eqb-eq,
  Unique, Bool-cases,
}
use work_copilot.Failure.{Result, ok, err, freshness_conflict}
use work_copilot.Publication.World.{World}
use work_copilot.Publication.World.Program.{new_date, bind-ok_at, throw}
use work_copilot.Publication.Service.Store.{find_owned_draft, owned_draft}
use work_copilot.Brief.Types.{
  WorkBriefDraft, BriefContent, StoredBriefEvidence, DraftFreshnessStatus, DraftStatus,
}
use work_copilot.Webhooks.Freshness.{draft_id_of}
use work_copilot.Drafts.Types.{Caller, Sources, for_database, BriefDraftView}
use work_copilot.Drafts.Edits.{seen_by, owned_by, commit-ok, write-ok, commit-result}
use work_copilot.Drafts.Versions.{draft_row}
use work_copilot.Drafts.Deletion.{
  Released, assert_publication_safety-Released, assert_publication_safety-idle,
}
use work_copilot.Drafts.Regeneration.{
  assert_regeneration_draft_state, reject_regeneration_for_freshness, locked_regeneration_draft,
  persist_regeneration, set_regenerated, refusal_code, kept_evidence, store_regeneration,
}
use work_copilot.Drafts.Refresh.{up_to_date, apply_refresh, RefreshValues, set_refreshed}
use work_copilot.Drafts.Present.{conflicting_version, commit, present_draft}
use work_copilot.Publication.Service.Sending.{
  require-idle, require-true, bind-idle, bind-ok, or_throw-some,
}
use work_copilot.Publication.Service.Begun.{find_owned_draft-idle}
use work_copilot.Drafts.Commands.{assert_publication_safety}

-- A draft that may be regenerated: its owner's, at the version that the owner has seen, with
-- sources that have not changed, and held by no publication.
pub record Guarded (c : Caller) (version : ℕ) (w : World) : Type 0 where
  pub draft : WorkBriefDraft
  pub owned : owned_draft c.user_id c.draft_id w ≡ some draft
  pub at_version : draft.optimistic_version ≡ version
  pub fresh : up_to_date draft.freshness_status ≡ true
  pub released : Released c.draft_id w

eqb_self : (n : ℕ) → eqb n n ≡ true
eqb_self n = ground arith

pub found_owned :
    (user : ℕ) (i : String) (w : World) {d : WorkBriefDraft}
    → (find_owned_draft user i w).0 ≡ ok d
    → owned_draft user i w ≡ some d
unfolding find_owned_draft
found_owned user i w h = or_throw-some _ _ w h

pub assert_state-idle :
    (d : WorkBriefDraft) (version : ℕ) (w : World)
    → (assert_regeneration_draft_state d version w).1 ≡ w
unfolding assert_regeneration_draft_state conflicting_version
assert_state-idle d version w = elim (Bool-cases (eqb d.optimistic_version version)) [
  | inl e ↦ rw e (require-idle _ _ w)
  | inr e ↦ rw e refl
]

pub assert_state-ok :
    (d : WorkBriefDraft) (version : ℕ) (w : World)
    → (assert_regeneration_draft_state d version w).0 ≡ ok tt
    → (d.optimistic_version ≡ version) × (up_to_date d.freshness_status ≡ true)
unfolding assert_regeneration_draft_state conflicting_version
assert_state-ok d version w h = elim (Bool-cases (eqb d.optimistic_version version)) [
  | inl e ↦ (eqb-eq _ _ e, require-true (up_to_date d.freshness_status) _ w (rw e at h))
  | inr e ↦ absurd (ground (arith, rw e at h))
]

locked_regeneration_draft-idle :
    (c : Caller) (version : ℕ) (w : World) → (locked_regeneration_draft c version w).1 ≡ w
unfolding locked_regeneration_draft
locked_regeneration_draft-idle c version w =
    bind-idle (find_owned_draft c.user_id c.draft_id) _ w
      (find_owned_draft-idle c.user_id c.draft_id w)
      λ d.
        bind-idle (assert_regeneration_draft_state d version) _ w (assert_state-idle d version w)
          λ done.
            bind-idle (assert_publication_safety c.draft_id) _ w
              (assert_publication_safety-idle c.draft_id w) λ safe. refl

locked_regeneration_draft-Guarded :
    (c : Caller) (version : ℕ) (w : World) {d : WorkBriefDraft}
    → (locked_regeneration_draft c version w).0 ≡ ok d
    → Guarded c version w
unfolding locked_regeneration_draft
locked_regeneration_draft-Guarded c version w h =
    let (d, found, h1) =
      bind-ok (find_owned_draft c.user_id c.draft_id) _ w
        (find_owned_draft-idle c.user_id c.draft_id w) h in
    let (done, checked, h2) =
      bind-ok (assert_regeneration_draft_state d version) _ w (assert_state-idle d version w) h1 in
    let (safe, passed, _) =
      bind-ok (assert_publication_safety c.draft_id) _ w
        (assert_publication_safety-idle c.draft_id w) h2 in
    let (same, current) = assert_state-ok d version w checked in
    record {
      draft = d;
      owned = found_owned c.user_id c.draft_id w found;
      at_version = same;
      fresh = current;
      released = assert_publication_safety-Released c.draft_id w passed;
    }

-- A regenerated brief is stored only where its draft is still its owner's, stands at the version
-- that was regenerated, is not waiting for a review of its sources, and is held by no publication,
-- all when the brief is about to be stored; and what is stored then is the row at that version.
pub persist_regeneration-Guarded :
    (s : Sources) (c : Caller) (version : ℕ) (content : BriefContent)
    (evidence : List StoredBriefEvidence) (w : World)
    → Unique draft_id_of (s.meanwhile for_database w).drafts
    → (persist_regeneration s c version content evidence w).0 ≡ ok tt
    → Guarded c version w
      × ((d : WorkBriefDraft) × (draft_row c.draft_id (s.meanwhile for_database w) ≡ some d)
          × (seen_by c.user_id version d ≡ true)
          × (draft_row c.draft_id (persist_regeneration s c version content evidence w).1
              ≡ some
                  (set_regenerated content evidence version (s.meanwhile for_database w).clock d)))
unfolding persist_regeneration store_regeneration
persist_regeneration-Guarded s c version content evidence w u h =
    let (d, locked, h1) =
      bind-ok (locked_regeneration_draft c version) _ w (locked_regeneration_draft-idle c version w)
        h in
    let y = s.meanwhile for_database w in
    let set = set_regenerated content evidence version y.clock in
    let (e, read, seen, left) =
      write-ok c.user_id c.draft_id version set (λ f. refl) (λ f. refl) (new_date s.outside y).1 u
        h1 in
    let whole : persist_regeneration s c version content evidence w
        ≡ store_regeneration s c version content evidence w =
      bind-ok_at (locked_regeneration_draft c version w) _ locked
      ∙ rw (locked_regeneration_draft-idle c version w) refl in
    (
      locked_regeneration_draft-Guarded c version w locked,
      (
        e,
        read,
        seen,
        ap (λ (r : Result (Unit {0}) × World). draft_row c.draft_id r.1) whole ∙ left,
      ),
    )

-- The refusal with a freshness leaves it in the draft, where the draft is still at the version that
-- was read: it waits for a review at its next version, and if access was lost its evidence is gone.
pub reject_regeneration_for_freshness-marks :
    (s : Sources) (d : WorkBriefDraft) (freshness : DraftFreshnessStatus) (w : World)
    → Unique draft_id_of w.drafts
    → draft_row d.id w ≡ some d
    → owned_by d.created_by_user_id d ≡ true
    → ((reject_regeneration_for_freshness s {A = Unit {0}} d d.optimistic_version freshness w).0
        ≡ err (freshness_conflict (refusal_code freshness) (d.optimistic_version + 1)))
      × ((e : WorkBriefDraft) × (draft_row d.id
              (reject_regeneration_for_freshness s {A = Unit {0}} d d.optimistic_version freshness
                w).1
            ≡ some e)
          × (e.freshness_status ≡ freshness)
          × (e.status ≡ DraftStatus.review_required)
          × (e.evidence ≡ kept_evidence freshness d.evidence)
          × (e.masked_brief ≡ d.masked_brief)
          × (e.optimistic_version ≡ d.optimistic_version + 1))
unfolding reject_regeneration_for_freshness apply_refresh present_draft
reject_regeneration_for_freshness-marks s d freshness w u read owned =
    let values : RefreshValues = record {
      evidence = kept_evidence freshness d.evidence;
      freshness_status = freshness;
      status = DraftStatus.review_required;
      source_jira_version = none;
    } in
    let set = set_refreshed values d.optimistic_version w.clock in
    let v = (new_date s.outside w).1 in
    let answer : (commit d.created_by_user_id d.id d.optimistic_version set v).0
        ≡ ok (present_draft (set d)) =
      commit-result d.created_by_user_id d.id d.optimistic_version set (λ e. refl) (λ e. refl) v u
      ∙ rw read (rw owned (rw (eqb_self d.optimistic_version) refl)) in
    let (e, met, _, _, left) =
      commit-ok d.created_by_user_id d.id d.optimistic_version set (λ e. refl) (λ e. refl) v u
        answer in
    let refusal = λ (marked : BriefDraftView).
      throw {A = Unit {0}}
        (freshness_conflict (refusal_code freshness) marked.optimistic_version) in
    let thrown =
      bind-ok_at (commit d.created_by_user_id d.id d.optimistic_version set v) refusal answer in
    let same : some e ≡ some d = sym met ∙ read in
    let one : e ≡ d = cc same in
    (
      ap (λ (r : Result (Unit {0}) × World). r.0) thrown,
      (
        set d,
        ap (λ (r : Result (Unit {0}) × World). draft_row d.id r.1) thrown
            ∙ left
            ∙ ap (λ (x : WorkBriefDraft). some (set x)) one,
        refl,
        refl,
        refl,
        refl,
        refl,
      ),
    )
