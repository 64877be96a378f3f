-- ===== src/Drafts/Versions.antt =====
-- work-briefs.service.ts: the optimistic version of a draft stands for what the draft says.
pub mod Parts
pub mod Called
pub mod Regenerated
use work_copilot.Base.{
  ℕ, suc, ◌+◌, ◌<◌, ◌≤◌, String, Bool, true, false, Option, none, some, List, [], ◌∷◌, ◌++◌, ◌==◌,
  ◌&&◌, eqb, if◌then◌else◌, ◌≡◌, refl, sym, ◌∙◌, ap, ◌⊎◌, inl, inr, arith, row, Unique,
  update_where, at, row-update, map_some, keep_if, find-at, find, Bool-cases, eqb-eq, eq_iff,
  Option-cases, ◌≢◌, not,
}
use work_copilot.Failure.{Failure, Result, ok, err, not_found, version_conflict}
use work_copilot.Publication.World.{World}
use work_copilot.Publication.World.Program.{
  Program, ◌>>=◌, ◌>>◌, bind_result, or_throw, require, gets, bind_holds,
}
use work_copilot.Publication.Service.Store.{find_owned_draft, is_live, owned_draft}
use work_copilot.Brief.Types.{WorkBriefDraft}
use work_copilot.Webhooks.Freshness.{draft_id_of}
use work_copilot.Drafts.Types.{BriefDraftView}
use work_copilot.Drafts.Present.{
  is_at, update_at, assert_update_succeeded, conflicting_version, find_draft, commit, present_draft,
}

abbrev pub draft_row : String → World → Option WorkBriefDraft
draft_row i w = row draft_id_of i w.drafts

-- A draft that a version stands for: the version has grown, or nothing that it stands for changed.
abbrev pub Later : WorkBriefDraft → WorkBriefDraft → Type 0
Later d e =
    (d.optimistic_version < e.optimistic_version)
    ⊎ ((e.optimistic_version ≡ d.optimistic_version)
        × (e.masked_brief ≡ d.masked_brief)
        × (e.evidence ≡ d.evidence)
        × (e.source_jira_version ≡ d.source_jira_version)
        × (e.freshness_status ≡ d.freshness_status)
        × (e.status ≡ d.status))

-- No draft is lost, and each is later than it was.
pub record Advances (before after : World) : Type 0 where
  pub later :
      (i : String) (d : WorkBriefDraft)
      → draft_row i before ≡ some d
      → (e : WorkBriefDraft) × (draft_row i after ≡ some e) × Later d e

pub Later-refl : (d : WorkBriefDraft) → Later d d
Later-refl d = inr (refl, refl, refl, refl, refl, refl)

Later-trans : (a b c : WorkBriefDraft) → Later a b → Later b c → Later a c
Later-trans a b c (inl p) (inl q) = inl (omega arith)
Later-trans a b c (inl p) (inr q) = inl (omega (arith, q.0))
Later-trans a b c (inr p) (inl q) = inl (omega (arith, p.0))
Later-trans a b c (inr (p0, p1, p2, p3, p4, p5)) (inr (q0, q1, q2, q3, q4, q5)) =
    inr (q0 ∙ p0, q1 ∙ p1, q2 ∙ p2, q3 ∙ p3, q4 ∙ p4, q5 ∙ p5)

-- The same rows.
pub Advances-same : (u w : World) → w.drafts ≡ u.drafts → Advances u w
Advances-same u w e = record { later = λ i d h. (d, ap (row draft_id_of i) e ∙ h, Later-refl d) }

pub Advances-refl : (w : World) → Advances w w
Advances-refl w = Advances-same w w refl

pub Advances-trans : (u v w : World) → Advances u v → Advances v w → Advances u w
Advances-trans u v w f g = record {
  later = λ i d h.
      let (e, p, q) = f.later i d h in
      let (k, r, t) = g.later i e p in (k, r, Later-trans d e k q t);
}

pub Advances-from : (u v w : World) → v.drafts ≡ u.drafts → Advances v w → Advances u w
Advances-from u v w e = Advances-trans u v w (Advances-same u v e)

-- An update of one row, by a change that keeps the identifier and makes the draft later.
module _ (i : String) (c : WorkBriefDraft → Bool) (set : WorkBriefDraft → WorkBriefDraft)
    (same_id : (d : WorkBriefDraft) → draft_id_of (set d) ≡ draft_id_of d)
    (later : (d : WorkBriefDraft) → c d ≡ true → Later d (set d)) where
  Later-some : (d : WorkBriefDraft) → Later d (if c d then set d else d)
  Later-some d = elim (Bool-cases (c d)) [ inl e ↦ rw e (later d e) | inr e ↦ rw e (Later-refl d) ]

  pub update-Advances :
      (u w : World) → w.drafts ≡ update_where (at draft_id_of i c) set u.drafts → Advances u w
  update-Advances u w e = record {
    later = λ j d h.
        let read = ap (row draft_id_of j) e ∙ row-update draft_id_of set same_id i j c u.drafts in
        elim (Bool-cases (i == j)) [
          | inl k ↦ (if c d then set d else d, read ∙ rw k (rw h refl), Later-some d)
          | inr k ↦ (d, read ∙ rw k h, Later-refl d)
        ];
  }

-- A program under which every draft gets later.
abbrev pub AdvancesAll : {A : Type 0} → Program A → Type 0
AdvancesAll m = (w : World) → Advances w (m w).1

pub bind-Advances :
    {A B : Type 0} (m : Program A) (f : A → Program B) (w : World)
    → Advances w (m w).1
    → ((a : A) → AdvancesAll (f a))
    → Advances w (bind_result (m w) f).1
bind-Advances m f w p q =
    bind_holds (Advances w) (m w) f p
      λ a e. Advances-trans w (m w).1 (f a (m w).1).1 p (q a (m w).1)

-- Programs that leave the drafts alone.
pub or_throw-Advances :
    {A : Type 0} (o : Option A) (e : Failure) (w : World) → Advances w (or_throw o e w).1
or_throw-Advances none e w = Advances-refl w
or_throw-Advances (some a) e w = Advances-refl w

pub require-Advances : (b : Bool) (e : Failure) (w : World) → Advances w (require b e w).1
require-Advances true e w = Advances-refl w
require-Advances false e w = Advances-refl w

pub if-Advances :
    {A : Type 0} (b : Bool) (m k : Program A) (w : World)
    → Advances w (m w).1
    → Advances w (k w).1
    → Advances w ((if b then m else k) w).1
if-Advances true m k w p q = p
if-Advances false m k w p q = q

pub find_owned_draft-Advances :
    (user : ℕ) (i : String) (w : World) → Advances w (find_owned_draft user i w).1
unfolding find_owned_draft
find_owned_draft-Advances user i w = or_throw-Advances _ _ w

pub find_draft-Advances : (user : ℕ) (i : String) (w : World) → Advances w (find_draft user i w).1
unfolding find_draft
find_draft-Advances user i w =
    bind-Advances (find_owned_draft user i) _ w (find_owned_draft-Advances user i w)
      λ d. Advances-refl

pub assert_update_succeeded-Advances :
    (user : ℕ) (i : String) (version affected : ℕ) (w : World)
    → Advances w (assert_update_succeeded user i version affected w).1
unfolding assert_update_succeeded conflicting_version
assert_update_succeeded-Advances user i version affected w =
    if-Advances (eqb affected 1) _ _ w (Advances-refl w) (
      bind-Advances (find_owned_draft user i) _ w (find_owned_draft-Advances user i w)
        λ d. Advances-refl)

-- A write at a version, by a change that sets the next one.
module _ (user : ℕ) (i : String) (version : ℕ) (set : WorkBriefDraft → WorkBriefDraft)
    (same_id : (d : WorkBriefDraft) → draft_id_of (set d) ≡ draft_id_of d)
    (next : (d : WorkBriefDraft) → (set d).optimistic_version ≡ version + 1) (w : World) where
  pub update_at-Advances : Advances w (update_at user i version set w).1
  unfolding update_at
  update_at-Advances =
      update-Advances i
        (λ d. eqb d.created_by_user_id user && (eqb d.optimistic_version version && is_live d)) set
        same_id (λ d h. inl (ground (arith, next d))) w (update_at user i version set w).1 refl

  pub commit-Advances : Advances w (commit user i version set w).1
  unfolding commit
  commit-Advances =
      bind-Advances (update_at user i version set) _ w update_at-Advances λ affected v.
        bind-Advances (assert_update_succeeded user i version affected) _ v
          (assert_update_succeeded-Advances user i version affected v)
          λ done. find_draft-Advances user i
