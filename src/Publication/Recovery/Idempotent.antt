-- ===== src/Publication/Recovery/Idempotent.antt =====
-- publication.service.ts: recovering a publication twice is recovering it once.
use work_copilot.Base.{
  ℕ, String, Bool, true, false, Option, none, some, List, [], ◌∷◌, ◌||◌, ◌≡◌, ◌≢◌, refl, arith, All,
  Unique, sym, ◌∙◌, ap,
}
use work_copilot.Publication.Types.{PublicationStep, BriefPublication, PublicationStatus}
use work_copilot.Brief.Types.{WorkBriefDraft}
use work_copilot.Publication.Recovery.Settled.{
  Settled, page, link, comment, nothing, ResultField, apply_if, apply-target, apply-Settled,
  has_result, same_text-eq, same_link, apply_other-Settled, same_comment, target_of,
}
use work_copilot.Publication.Recovery.{
  overrides, apply_page, apply_step_results, apply_step_result, take_over, settle_status,
  same_status, recover_publication,
}
use work_copilot.Publication.Phases.Status.{recovered_status}

same_take_over : (f v : Option String) → overrides f v ≡ false → take_over f v ≡ f
same_take_over f none h = refl
same_take_over f (some v) h = sym (same_text-eq f (some v) (ground arith))

same_page :
    (p : BriefPublication) (s : PublicationStep)
    → (apply_page p s).0 ≡ false
    → (apply_page p s).1 ≡ p
same_page p s h =
    let content : s.provider_object_id ≡ p.confluence_content_id =
      sym (same_text-eq p.confluence_content_id s.provider_object_id (ground arith)) in
    let version =
      same_take_over p.confluence_page_version s.provider_object_version (ground arith) in
    let url = same_take_over p.confluence_page_url s.provider_url (ground arith) in
    let hash = same_take_over p.confluence_content_hash s.content_hash (ground arith) in
    λ i. record p {
      confluence_content_id = content i;
      confluence_page_version = version i;
      confluence_page_url = url i;
      confluence_content_hash = hash i;
    }

same_target :
    (b : Bool) (a : ResultField) (p : BriefPublication) (s : PublicationStep)
    → (apply_if b a p s).0 ≡ false
    → (apply_if b a p s).1 ≡ p
same_target false a p s h = refl
same_target true page p s h = same_page p s h
same_target true link p s h = sym (same_link p s.provider_object_id h)
same_target true comment p s h = sym (same_comment p s.provider_object_id h)
same_target true nothing p s h = refl

-- A step that tells nothing new leaves the aggregate as it is.
Settled-same :
    (p : BriefPublication) (s : PublicationStep) → Settled p s → (apply_step_result p s).1 ≡ p
Settled-same p s h =
    rw (apply-target p s)
      (same_target (has_result s) (target_of s.step_key) p s (rw (apply-target p s) at h))

abbrev pub step_key_of : PublicationStep → String
step_key_of s = s.step_key

abbrev AllSettled : BriefPublication → List PublicationStep → Type 0
AllSettled p = All (Settled p)

keep-Settled :
    (c : Bool) (p : BriefPublication) (s : PublicationStep) (steps : List PublicationStep)
    → All (λ t. t.step_key ≢ s.step_key) steps
    → Settled p s
    → Settled (apply_step_results c p steps).1 s
unfolding apply_step_results
keep-Settled c p s [] n h = h
keep-Settled c p s (t ∷ steps) (n, ns) h =
    keep-Settled ((apply_step_result p t).0 || c) (apply_step_result p t).1 s steps ns
      (apply_other-Settled p t s n ∙ h)

all_settled :
    (c : Bool) (p : BriefPublication) (steps : List PublicationStep)
    → Unique step_key_of steps
    → AllSettled (apply_step_results c p steps).1 steps
unfolding apply_step_results
all_settled c p [] u = tt
all_settled c p (s ∷ steps) (n, u) =
    let q = (apply_step_result p s).1 in
    let d = (apply_step_result p s).0 || c in
    (keep-Settled d q s steps n (apply-Settled p s), all_settled d q steps u)

settled_results :
    (c : Bool) (p : BriefPublication) (steps : List PublicationStep)
    → AllSettled p steps
    → apply_step_results c p steps ≡ (c, p)
unfolding apply_step_results
settled_results c p [] h = refl
settled_results c p (s ∷ steps) (h, hs) = rw (h, Settled-same p s h) (settled_results c p steps hs)

-- The result fields are all that `applyStepResult` reads of the aggregate.
reads_results :
    (b : Bool) (a : ResultField) (p : BriefPublication) (st : PublicationStatus) (o : Option ℕ)
    (s : PublicationStep)
    → (apply_if b a (record p { status = st; review_required_at = o }) s).0 ≡ (apply_if b a p s).0
reads_results false a p st o s = refl
reads_results true page p st o s = refl
reads_results true link p st o s = refl
reads_results true comment p st o s = refl
reads_results true nothing p st o s = refl

settled_status :
    (p : BriefPublication) (st : PublicationStatus) (o : Option ℕ) (steps : List PublicationStep)
    → AllSettled p steps
    → AllSettled (record p { status = st; review_required_at = o }) steps
settled_status p st o [] h = tt
settled_status p st o (s ∷ steps) (h, hs) = (
  apply-flag ∙ reads_results (has_result s) (target_of s.step_key) p st o s ∙ sym plain ∙ h,
  settled_status p st o steps hs,
)
  where
    apply-flag :
        (apply_step_result (record p { status = st; review_required_at = o }) s).0
        ≡ (apply_if
            (has_result s)
            (target_of s.step_key)
            (record p { status = st; review_required_at = o })
            s).0
    apply-flag = ap (λ r. r.0) (apply-target (record p { status = st; review_required_at = o }) s)

    plain : (apply_step_result p s).0 ≡ (apply_if (has_result s) (target_of s.step_key) p s).0
    plain = ap (λ r. r.0) (apply-target p s)

same_status_refl : (st : PublicationStatus) → same_status st st ≡ true
same_status_refl st = ground arith

-- Of a settled status only the save remains to be undone.
settle_again :
    (steps : List PublicationStep) (draft : WorkBriefDraft) (now later : ℕ) (changed : Bool)
    (p : BriefPublication)
    → settle_status steps draft later (false, (settle_status steps draft now (changed, p)).1)
      ≡ (false, (settle_status steps draft now (changed, p)).1)
unfolding settle_status
settle_again steps draft now later changed p = ground arith

-- Recovery is idempotent: where no two steps share a key, a second recovery from the same steps
-- finds nothing to save, whenever it runs.
pub recover-idempotent :
    (steps : List PublicationStep) (draft : WorkBriefDraft) (now later : ℕ) (p : BriefPublication)
    → Unique step_key_of steps
    → let recovered = (recover_publication steps draft now p).1 in
      recover_publication steps draft later recovered ≡ (false, recovered)
unfolding recover_publication settle_status
recover-idempotent steps draft now later p u =
    let applied = apply_step_results false p steps in
    let q = (settle_status steps draft now applied).1 in
    let settled =
      settled_status applied.1 q.status q.review_required_at steps (all_settled false p steps u) in
    rw (settled_results false q steps settled)
      (settle_again steps draft now later applied.0 applied.1)

-- The recovered aggregate has the status that its steps spell.
pub recover-status :
    (steps : List PublicationStep) (draft : WorkBriefDraft) (now : ℕ) (p : BriefPublication)
    → (recover_publication steps draft now p).1.status ≡ recovered_status steps draft
unfolding recover_publication settle_status
recover-status steps draft now p = refl
