-- ===== src/Publication/Recovery/Settled.antt =====
-- publication.service.ts: recovery is idempotent.
use work_copilot.Base.{
  String, Bool, true, false, Option, none, some, ◌==◌, ◌&&◌, ◌||◌, if◌then◌else◌, ◌≡◌, ◌≢◌, inl,
  inr, refl, arith, not, Bool-cases, eq_iff, ap, eq_refl,
}
use work_copilot.Publication.Types.{PublicationStep, BriefPublication, is_succeeded, truthy}
use work_copilot.Publication.Recovery.{
  same_text, apply_step_result, differs, apply_page, overrides, take_over,
}
use work_copilot.Publication.Phases.{confluence_step, remote_link_step, summary_comment_step}

same_text_refl : (o : Option String) → same_text o o ≡ true
same_text_refl none = refl
same_text_refl (some t) = eq_refl t

pub same_text-eq : (a b : Option String) → same_text a b ≡ true → a ≡ b
same_text-eq none none h = refl
same_text-eq (some a) (some b) h = ap some ((eq_iff a b).0 h)
same_text-eq none (some b) h = cc
same_text-eq (some a) none h = cc

-- The fields of the aggregate that a step writes.
pub data ResultField : Type 0 where
  page link comment nothing : ResultField

abbrev pub target_of : String → ResultField
target_of key =
    if key == confluence_step
    then page
    else if key == remote_link_step
    then link
    else if key == summary_comment_step
    then comment
    else nothing

abbrev pub apply_to : ResultField → BriefPublication → PublicationStep → Bool × BriefPublication
apply_to page p s = apply_page p s
apply_to link p s = (
  differs p.jira_remote_link_id s.provider_object_id,
  record p { jira_remote_link_id = s.provider_object_id },
)
apply_to comment p s = (
  differs p.jira_summary_comment_id s.provider_object_id,
  record p { jira_summary_comment_id = s.provider_object_id },
)
apply_to nothing p s = (false, p)

abbrev pub has_result : PublicationStep → Bool
has_result s = is_succeeded s.status && truthy s.provider_object_id

abbrev pub apply_if :
    Bool → ResultField → BriefPublication → PublicationStep → Bool × BriefPublication
apply_if true a p s = apply_to a p s
apply_if false a p s = (false, p)

-- A field that does not differ may be written again.
pub same_link :
    (p : BriefPublication) (o : Option String)
    → differs p.jira_remote_link_id o ≡ false
    → p ≡ record p { jira_remote_link_id = o }
same_link p o h =
    let e : p.jira_remote_link_id ≡ o = same_text-eq p.jira_remote_link_id o (ground arith) in
    λ i. record p { jira_remote_link_id = e i }

pub same_comment :
    (p : BriefPublication) (o : Option String)
    → differs p.jira_summary_comment_id o ≡ false
    → p ≡ record p { jira_summary_comment_id = o }
same_comment p o h =
    let e : p.jira_summary_comment_id ≡ o =
      same_text-eq p.jira_summary_comment_id o (ground arith) in
    λ i. record p { jira_summary_comment_id = e i }

apply_link :
    (p : BriefPublication) (s : PublicationStep)
    → (if differs p.jira_remote_link_id s.provider_object_id
        then (true, record p { jira_remote_link_id = s.provider_object_id })
        else (false, p))
      ≡ apply_to link p s
apply_link p s = elim (Bool-cases (differs p.jira_remote_link_id s.provider_object_id)) [
  | inl e ↦ rw e
  | inr e ↦ rw e (ap (λ (q : BriefPublication). (false, q)) (same_link p s.provider_object_id e))
]

apply_comment :
    (p : BriefPublication) (s : PublicationStep)
    → (if differs p.jira_summary_comment_id s.provider_object_id
        then (true, record p { jira_summary_comment_id = s.provider_object_id })
        else (false, p))
      ≡ apply_to comment p s
apply_comment p s = elim (Bool-cases (differs p.jira_summary_comment_id s.provider_object_id)) [
  | inl e ↦ rw e
  | inr e ↦ rw e (ap (λ (q : BriefPublication). (false, q)) (same_comment p s.provider_object_id e))
]

not_both : (a b : Bool) → (not a || not b) ≡ not (a && b)
not_both a b = ground arith

pub apply-target :
    (p : BriefPublication) (s : PublicationStep)
    → apply_step_result p s ≡ apply_if (has_result s) (target_of s.step_key) p s
unfolding apply_step_result
apply-target p s = elim (Bool-cases (has_result s)) [
  | inl ready ↦
      rw (not_both (is_succeeded s.status) (truthy s.provider_object_id), ready)
        (elim (Bool-cases (s.step_key == confluence_step)) [
          | inl a ↦ rw a
          | inr a ↦ elim (Bool-cases (s.step_key == remote_link_step)) [
            | inl b ↦
                let other : (s.step_key == summary_comment_step) ≡ false =
                  rw ((eq_iff _ _).0 b) refl in
                rw (a, b, other) (apply_link p s)
            | inr b ↦ elim (Bool-cases (s.step_key == summary_comment_step)) [
              | inl c ↦ rw (a, b, c) (apply_comment p s)
              | inr c ↦ rw (a, b, c)
            ]
          ]
        ])
  | inr bare ↦ rw (not_both (is_succeeded s.status) (truthy s.provider_object_id), bare)
]

-- The step tells the aggregate nothing new.
abbrev pub Settled : BriefPublication → PublicationStep → Type 0
Settled p s = (apply_step_result p s).0 ≡ false

overrides_self : (f v : Option String) → overrides (take_over f v) v ≡ false
overrides_self f none = refl
overrides_self f (some v) = rw (eq_refl v)

-- What a target's step finds new after a step of the same target, and of another.
apply_to_again :
    (a : ResultField) (p : BriefPublication) (s : PublicationStep)
    → (apply_to a (apply_to a p s).1 s).0 ≡ false
apply_to_again page p s = rw (
  same_text_refl s.provider_object_id,
  overrides_self p.confluence_page_version s.provider_object_version,
  overrides_self p.confluence_page_url s.provider_url,
  overrides_self p.confluence_content_hash s.content_hash,
)
apply_to_again link p s = rw (same_text_refl s.provider_object_id)
apply_to_again comment p s = rw (same_text_refl s.provider_object_id)
apply_to_again nothing p s = refl

apply_to_other :
    (a b : ResultField) (p : BriefPublication) (s t : PublicationStep)
    → (a ≡ b → a ≡ nothing)
    → (apply_to b (apply_to a p s).1 t).0 ≡ (apply_to b p t).0
apply_to_other page link p s t n = refl
apply_to_other page comment p s t n = refl
apply_to_other page nothing p s t n = refl
apply_to_other link page p s t n = refl
apply_to_other link comment p s t n = refl
apply_to_other link nothing p s t n = refl
apply_to_other comment page p s t n = refl
apply_to_other comment link p s t n = refl
apply_to_other comment nothing p s t n = refl
apply_to_other nothing b p s t n = refl
apply_to_other page page p s t n = cc (n refl)
apply_to_other link link p s t n = cc (n refl)
apply_to_other comment comment p s t n = cc (n refl)

target-injective : (k l : String) → k ≢ l → target_of k ≡ target_of l → target_of k ≡ nothing
target-injective k l n e = ground (
  arith,
  eq_iff k confluence_step,
  eq_iff l confluence_step,
  eq_iff k remote_link_step,
  eq_iff l remote_link_step,
  eq_iff k summary_comment_step,
  eq_iff l summary_comment_step,
)

pub apply-Settled :
    (p : BriefPublication) (s : PublicationStep) → Settled (apply_step_result p s).1 s
apply-Settled p s =
    rw (apply-target p s, apply-target (apply_if (has_result s) (target_of s.step_key) p s).1 s)
      (again (has_result s))
  where
    again :
        (b : Bool)
        → (apply_if b (target_of s.step_key) (apply_if b (target_of s.step_key) p s).1 s).0 ≡ false
    again true = apply_to_again (target_of s.step_key) p s
    again false = refl

pub apply_other-Settled :
    (p : BriefPublication) (s t : PublicationStep)
    → s.step_key ≢ t.step_key
    → (apply_step_result (apply_step_result p s).1 t).0 ≡ (apply_step_result p t).0
apply_other-Settled p s t n =
    rw
      (
        apply-target p s,
        apply-target (apply_if (has_result s) (target_of s.step_key) p s).1 t,
        apply-target p t,
      )
      (other (has_result s) (has_result t))
  where
    other :
        (a b : Bool)
        → (apply_if b (target_of t.step_key) (apply_if a (target_of s.step_key) p s).1 t).0
          ≡ (apply_if b (target_of t.step_key) p t).0
    other true true =
        apply_to_other (target_of s.step_key) (target_of t.step_key) p s t
          (target-injective s.step_key t.step_key n)
    other false b = refl
    other true false = refl
