-- ===== src/Operations/Cleanup.antt =====
-- operations/deleted-brief-draft-cleanup.ts: the retention job, which deletes for good what users
-- deleted long ago, in one transaction under an advisory lock.
pub mod Chosen
pub mod Retained
pub mod Bounded
pub mod Whole
use Prim.Native.String.{compare}
use Prim.Native.Nat.{Ordering}
use work_copilot.Base.{
  zero, ℕ, ◌*◌, ◌-◌, suc, String, Bool, true, false, Option, none, some, List, [], ◌∷◌, ◌==◌,
  if◌then◌else◌, any, filter, not, leb, ltb, eqb, length, map, ◌&&◌, ◌||◌, is_empty,
}
use work_copilot.Publication.World.{World}
use work_copilot.Brief.Types.{WorkBriefDraft}
use work_copilot.Publication.Safety.{deletion_blocked, stored_publication, stored_step}
use work_copilot.Publication.Service.Initial.{publications_of}

abbrev pub max_drafts_per_run : ℕ
max_drafts_per_run = 200

pub record DeletedBriefDraftPurgeResult : Type 0 where
  pub deleted_count : ℕ
  pub skipped_count : ℕ

-- `draft."deletedAt" <= $1`, which is not true of a draft that is not deleted.
abbrev pub deleted_by : ℕ → WorkBriefDraft → Bool
deleted_by cutoff d = elim d.deleted_at [ none ↦ false | some t ↦ leb t cutoff ]

-- The rows of the subquery: the publications of the draft, each beside its steps.
unfoldable pub is_blocked : World → String → Bool
is_blocked w i =
    deletion_blocked (map stored_publication (publications_of i w)) (map stored_step w.steps)

abbrev pub is_removable : World → ℕ → WorkBriefDraft → Bool
is_removable w cutoff d = deleted_by cutoff d && not (is_blocked w d.id)

abbrev pub deletion_time : WorkBriefDraft → ℕ
deletion_time d = elim d.deleted_at [ none ↦ 0 | some t ↦ t ]

abbrev pub text_before : String → String → Bool
text_before a b = elim (compare a b) [ Ordering.gt ↦ false | _ ↦ true ]

-- `ORDER BY draft."deletedAt" ASC, draft."id" ASC`.
abbrev pub comes_first : WorkBriefDraft → WorkBriefDraft → Bool
comes_first a b =
    ltb (deletion_time a) (deletion_time b)
    || (eqb (deletion_time a) (deletion_time b) && text_before a.id b.id)

abbrev pub put_in_order : WorkBriefDraft → List WorkBriefDraft → List WorkBriefDraft
put_in_order d [] = d ∷ []
put_in_order d (e ∷ ds) = if comes_first d e then d ∷ e ∷ ds else e ∷ put_in_order d ds

abbrev pub in_order : List WorkBriefDraft → List WorkBriefDraft
in_order [] = []
in_order (d ∷ ds) = put_in_order d (in_order ds)

-- `LIMIT $2`.
abbrev pub limit {ℓ} : {A : Type ℓ} → ℕ → List A → List A
limit n [] = []
limit zero (x ∷ xs) = []
limit (suc n) (x ∷ xs) = x ∷ limit n xs

unfoldable pub removable : World → ℕ → List WorkBriefDraft
removable w cutoff = limit max_drafts_per_run (in_order (filter (is_removable w cutoff) w.drafts))

abbrev pub is_among : List WorkBriefDraft → String → Bool
is_among ds i = any (λ d. d.id == i) ds

-- The publications of the chosen drafts with their steps, and then the drafts with their fragments,
-- which the foreign keys delete.
unfoldable pub delete_drafts : List WorkBriefDraft → World → World
delete_drafts ds w =
    let gone = filter (λ p. is_among ds p.draft_id) w.publications in
    record w {
      publications = filter (λ p. not (is_among ds p.draft_id)) w.publications;
      steps = filter (λ s. not (any (λ p. p.id == s.publication_id) gone)) w.steps;
      drafts = filter (λ d. not (is_among ds d.id)) w.drafts;
      fragments = filter (λ f. not (is_among ds f.draft_id)) w.fragments;
    }

-- The lock is another run's, or this run deletes what it may.
unfoldable pub purge_deleted_brief_drafts : Bool → ℕ → World → DeletedBriefDraftPurgeResult × World
purge_deleted_brief_drafts false cutoff w = (record { deleted_count = 0; skipped_count = 0 }, w)
purge_deleted_brief_drafts true cutoff w =
    let ds = removable w cutoff in
    let skipped = length (filter (λ d. deleted_by cutoff d && is_blocked w d.id) w.drafts) in
    if is_empty ds then (record { deleted_count = 0; skipped_count = skipped }, w) else (
      record {
        deleted_count = length (filter (λ d. is_among ds d.id) w.drafts);
        skipped_count = skipped;
      },
      delete_drafts ds w,
    )

abbrev pub brief_draft_retention_cutoff : ℕ → ℕ → ℕ
brief_draft_retention_cutoff days now = now - days * 24 * 60 * 60 * 1000
