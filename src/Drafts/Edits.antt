-- ===== src/Drafts/Edits.antt =====
-- work-briefs.service.ts: a draft is written at the version that its owner has seen, or not at all.
pub mod Saved
use work_copilot.Base.{
  ℕ, ◌+◌, String, Bool, true, false, Option, none, some, List, ◌==◌, ◌&&◌, eqb, if◌then◌else◌, ◌≡◌,
  refl, sym, ◌∙◌, ap, inl, inr, arith, row, Unique, update_where, at, row-update, update-Unique,
  filter-at, count_some, map_some, keep_if, find-at, Bool-cases, Option-cases, eq_refl, filter,
  length, find, subst, one-row,
}
use work_copilot.Failure.{Result, ok, err, not_found, version_conflict}
use work_copilot.Publication.World.{World}
use work_copilot.Publication.Service.Store.{find_owned_draft, is_live, owned_draft}
use work_copilot.Brief.Types.{WorkBriefDraft}
use work_copilot.Webhooks.Freshness.{draft_id_of}
use work_copilot.Drafts.Types.{BriefDraftView}
use work_copilot.Drafts.Present.{
  is_at, update_at, assert_update_succeeded, conflicting_version, find_draft, commit, present_draft,
}
use work_copilot.Drafts.Versions.{draft_row}
use work_copilot.Publication.World.Program.{bind_result, or_throw}
use work_copilot.Publication.Service.Sending.{bind-idle, bind-ok}
use work_copilot.Publication.Service.Begun.{find_owned_draft-idle}

abbrev pub owned_by : ℕ → WorkBriefDraft → Bool
owned_by user d = eqb d.created_by_user_id user && is_live d

abbrev pub seen_by : ℕ → ℕ → WorkBriefDraft → Bool
seen_by user version d =
    eqb d.created_by_user_id user && (eqb d.optimistic_version version && is_live d)

abbrev pub missing : Result BriefDraftView
missing = err (not_found "Brief draft was not found.")

-- What a write at a version answers, by the row of the draft alone.
abbrev pub commit_result :
    ℕ → ℕ → (WorkBriefDraft → WorkBriefDraft) → Option WorkBriefDraft → Result BriefDraftView
commit_result user version set none = missing
commit_result user version set (some d) =
    if owned_by user d
    then (if eqb d.optimistic_version version
        then ok (present_draft (set d))
        else err
            (version_conflict d.optimistic_version (if eqb version 0 then none else some version)))
    else missing

-- The search for an owner's draft is a look at its row.
pub owned_draft-row :
    (user : ℕ) (i : String) (w : World)
    → Unique draft_id_of w.drafts
    → owned_draft user i w ≡ keep_if (owned_by user) (draft_row i w)
owned_draft-row user i w u = find-at draft_id_of i (owned_by user) w.drafts u

-- What a read shows, and what a write that met no row is answered.
abbrev shown : Option WorkBriefDraft → Result BriefDraftView
shown none = missing
shown (some d) = ok (present_draft d)

abbrev refused : ℕ → Option WorkBriefDraft → Result BriefDraftView
refused version none = missing
refused version (some d) =
    err (version_conflict d.optimistic_version (if eqb version 0 then none else some version))

pub find_draft-shown :
    (user : ℕ) (i : String) (v : World) (o : Option WorkBriefDraft)
    → owned_draft user i v ≡ o
    → (find_draft user i v).0 ≡ shown o
unfolding find_draft find_owned_draft
find_draft-shown user i v none h = rw (h, or_throw) refl
find_draft-shown user i v (some d) h = rw (h, or_throw) refl

met_no_row :
    (user : ℕ) (i : String) (version : ℕ) (v : World) (o : Option WorkBriefDraft)
    → owned_draft user i v ≡ o
    → (bind_result
        (bind_result
          (find_owned_draft user i v)
          (λ latest. conflicting_version {A = Unit {0}} latest.optimistic_version version))
        (λ done. find_draft user i)).0
      ≡ refused version o
unfolding find_owned_draft conflicting_version
met_no_row user i version v none h = rw (h, or_throw) refl
met_no_row user i version v (some d) h = rw (h, or_throw) refl

answered :
    (user : ℕ) (i : String) (version n : ℕ) (v : World) (o : Option WorkBriefDraft)
    → owned_draft user i v ≡ o
    → (bind_result (assert_update_succeeded user i version n v) (λ done. find_draft user i)).0
      ≡ (if eqb n 1 then shown o else refused version o)
unfolding assert_update_succeeded
answered user i version n v o h = elim (Bool-cases (eqb n 1)) [
  | inl e ↦ rw e (find_draft-shown user i v o h)
  | inr e ↦ rw e (met_no_row user i version v o h)
]

find_draft-idle : (user : ℕ) (i : String) (w : World) → (find_draft user i w).1 ≡ w
unfolding find_draft
find_draft-idle user i w =
    bind-idle (find_owned_draft user i) _ w (find_owned_draft-idle user i w) λ d. refl

pub assert_update_succeeded-idle :
    (user : ℕ) (i : String) (version n : ℕ) (w : World)
    → (assert_update_succeeded user i version n w).1 ≡ w
unfolding assert_update_succeeded conflicting_version
assert_update_succeeded-idle user i version n w = elim (Bool-cases (eqb n 1)) [
  | inl e ↦ rw e refl
  | inr e ↦
      rw e (bind-idle (find_owned_draft user i) _ w (find_owned_draft-idle user i w) λ d. refl)
]

-- The check of a write passes where it affected one row.
pub assert_update_succeeded-one :
    (user : ℕ) (i : String) (version n : ℕ) (w : World)
    → (assert_update_succeeded user i version n w).0 ≡ ok tt
    → eqb n 1 ≡ true
unfolding assert_update_succeeded conflicting_version
assert_update_succeeded-one user i version n w h = elim (Bool-cases (eqb n 1)) [
  | inl e ↦ e
  | inr e ↦
      let (latest, _, thrown) =
        bind-ok (find_owned_draft user i) _ w (find_owned_draft-idle user i w) (rw e at h) in
      cc thrown
]

module _ (user : ℕ) (i : String) (version : ℕ) (set : WorkBriefDraft → WorkBriefDraft)
    (same_id : (d : WorkBriefDraft) → draft_id_of (set d) ≡ draft_id_of d)
    (same_owner : (d : WorkBriefDraft) → owned_by user (set d) ≡ owned_by user d) (w : World)
    (u : Unique draft_id_of w.drafts) where
  abbrev written : World
  written = (update_at user i version set w).1

  abbrev set_if : WorkBriefDraft → WorkBriefDraft
  set_if d = if seen_by user version d then set d else d

  row-written : draft_row i written ≡ map_some set_if (draft_row i w)
  unfolding update_at
  row-written =
      row-update draft_id_of set same_id i i (seen_by user version) w.drafts ∙ rw (eq_refl i) refl

  owned-written :
      owned_draft user i written ≡ keep_if (owned_by user) (map_some set_if (draft_row i w))
  unfolding update_at
  owned-written =
      owned_draft-row user i written
        (update-Unique draft_id_of set same_id (is_at user i version) w.drafts u)
      ∙ ap (keep_if (owned_by user)) row-written

  by_row :
      (o : Option WorkBriefDraft)
      → (if eqb (count_some (seen_by user version) o) 1
          then shown (keep_if (owned_by user) (map_some set_if o))
          else refused version (keep_if (owned_by user) (map_some set_if o)))
        ≡ commit_result user version set o
  by_row none = refl
  by_row (some d) = ground (arith, same_owner d)

  written-Unique : Unique draft_id_of written.drafts
  unfolding update_at
  written-Unique = update-Unique draft_id_of set same_id (is_at user i version) w.drafts u

  -- A write at a version answers by the row of its draft.
  pub commit-result :
      (commit user i version set w).0 ≡ commit_result user version set (draft_row i w)
  unfolding commit update_at
  commit-result =
      answered user i version _ written _ owned-written
      ∙ ap
          (λ (n : ℕ).
            if eqb n 1
            then shown (keep_if (owned_by user) (map_some set_if (draft_row i w)))
            else refused version (keep_if (owned_by user) (map_some set_if (draft_row i w))))
          (filter-at draft_id_of i (seen_by user version) w.drafts u)
      ∙ by_row (draft_row i w)

  commit-written : (commit user i version set w).1 ≡ written
  unfolding commit update_at
  commit-written =
      bind-idle (assert_update_succeeded user i version _) _ written
        (assert_update_succeeded-idle user i version _ written)
        λ done. find_draft-idle user i written

  result_ok :
      (o : Option WorkBriefDraft) {view : BriefDraftView}
      → commit_result user version set o ≡ ok view
      → (d : WorkBriefDraft) × (o ≡ some d)
        × (seen_by user version d ≡ true)
        × (view ≡ present_draft (set d))
  result_ok none h = cc
  result_ok (some d) {view} h =
      let seen : seen_by user version d ≡ true = ground arith in
      let owned : owned_by user d ≡ true = ground arith in
      let same : eqb d.optimistic_version version ≡ true = ground arith in
      let answer : commit_result user version set (some d) ≡ ok (present_draft (set d)) =
        rw owned (rw same refl) in
      let one : ok (present_draft (set d)) ≡ ok view = sym answer ∙ h in
      (d, refl, seen, sym (cc one))

  -- A write that returns has met the row at its version, and shows what it has left there.
  pub commit-ok :
      {view : BriefDraftView}
      → (commit user i version set w).0 ≡ ok view
      → (d : WorkBriefDraft) × (draft_row i w ≡ some d)
        × (seen_by user version d ≡ true)
        × (view ≡ present_draft (set d))
        × (draft_row i (commit user i version set w).1 ≡ some (set d))
  commit-ok h =
      let (d, found, seen, same) = result_ok (draft_row i w) (sym commit-result ∙ h) in
      (
        d,
        found,
        seen,
        same,
        ap (draft_row i) commit-written ∙ row-written ∙ rw found (rw seen refl),
      )

  pub commit-Unique : Unique draft_id_of (commit user i version set w).1.drafts
  commit-Unique =
      subst (λ (v : World). Unique draft_id_of v.drafts) (sym commit-written) written-Unique

  -- The same of the write and its check alone.
  pub write-ok :
      (bind_result (update_at user i version set w) (assert_update_succeeded user i version)).0
        ≡ ok tt
      → (d : WorkBriefDraft) × (draft_row i w ≡ some d)
        × (seen_by user version d ≡ true)
        × (draft_row i
              (bind_result
                (update_at user i version set w)
                (assert_update_succeeded user i version)).1
            ≡ some (set d))
  unfolding update_at
  write-ok h =
      let one = assert_update_succeeded-one user i version _ written h in
      let (d, read, seen) = one-row draft_id_of i (seen_by user version) w.drafts u one in
      (
        d,
        read,
        seen,
        ap (draft_row i) (assert_update_succeeded-idle user i version _ written)
            ∙ row-written
            ∙ rw read (rw seen refl),
      )
