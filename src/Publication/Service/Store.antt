-- ===== src/Publication/Service/Store.antt =====
-- publication.service.ts: the reads and writes of the tables.
-- A table lists its rows in the order of their creation.
use work_copilot.Base.{
  ℕ, String, Bool, false, Option, none, some, List, [], ◌∷◌, ◌++◌, ◌==◌, if◌then◌else◌, ◌&&◌, ◌||◌,
  not, any, filter, find, get_or, eqb, is_some, trim, update_where,
}
use work_copilot.Failure.{Result, ok, err, not_found, conflict, duplicate_key}
use work_copilot.Publication.Types.{PublicationStep, BriefPublication, truthy}
use work_copilot.Publication.World.{World, Outside, IntegrationProfile}
use work_copilot.Publication.World.Program.{
  Program, ◌>>=◌, ◌>>◌, pure, throw, gets, modify, or_throw, new_date,
}
use work_copilot.Brief.Types.{WorkBriefDraft}

-- The repositories of drafts leave soft-deleted rows out.
abbrev pub is_live : WorkBriefDraft → Bool
is_live d = not (is_some d.deleted_at)

abbrev pub owned_draft : ℕ → String → World → Option WorkBriefDraft
owned_draft user i w =
    find (λ d. (d.id == i) && (eqb d.created_by_user_id user && is_live d)) w.drafts

unfoldable pub find_owned_draft : ℕ → String → Program WorkBriefDraft
find_owned_draft user i = do
  draft ← gets (owned_draft user i)
  or_throw draft (not_found "Brief draft was not found.")

unfoldable pub draft_for_publication : BriefPublication → Program WorkBriefDraft
draft_for_publication p = do
  draft ← gets (λ w. find (λ d. (d.id == p.draft_id) && is_live d) w.drafts)
  or_throw draft (not_found "Brief draft was not found.")

abbrev pub publication_of : WorkBriefDraft → String → World → Option BriefPublication
publication_of d i w = find (λ p. (p.id == i) && (p.draft_id == d.id)) w.publications

unfoldable pub find_publication : WorkBriefDraft → String → Program BriefPublication
find_publication d i = do
  publication ← gets (publication_of d i)
  or_throw publication (not_found "Brief publication was not found.")

abbrev pub last? {ℓ} : {A : Type ℓ} → List A → Option A
last? [] = none
last? (x ∷ []) = some x
last? (x ∷ y ∷ xs) = last? (y ∷ xs)

unfoldable pub latest_publication_for_draft : String → Program (Option BriefPublication)
latest_publication_for_draft i = gets λ w. last? (filter (λ p. p.draft_id == i) w.publications)

abbrev pub steps_of : String → World → List PublicationStep
steps_of i w = filter (λ s. s.publication_id == i) w.steps

unfoldable pub steps_for : String → Program (List PublicationStep)
steps_for i = gets (steps_of i)

-- An active profile with a parent page.
abbrev pub has_parent_page : IntegrationProfile → Bool
has_parent_page p = truthy (some (trim (get_or p.brief_parent_page_id "")))

abbrev pub publish_profile : WorkBriefDraft → World → Option IntegrationProfile
publish_profile d w = find (λ p. (p.id == d.profile_id) && p.is_active) w.profiles

unfoldable pub find_active_publish_profile : WorkBriefDraft → Program IntegrationProfile
find_active_publish_profile d = do
  found ← gets (publish_profile d)
  profile ← or_throw found (conflict "PUBLISH_PARENT_PAGE_REQUIRED")
  if has_parent_page profile then pure profile else throw (conflict "PUBLISH_PARENT_PAGE_REQUIRED")

-- The unique indexes of `brief_publications`: two keys collide if both are there and equal.
abbrev pub collides : Option String → Option String → Bool
collides (some a) (some b) = a == b
collides _ _ = false

abbrev pub violates_unique : BriefPublication → BriefPublication → Bool
violates_unique p q =
    not (q.id == p.id)
    && ((q.operation_id == p.operation_id)
        || (q.idempotency_key_hash == p.idempotency_key_hash)
        || ((q.draft_id == p.draft_id) && eqb q.draft_version p.draft_version)
        || collides q.jira_idempotency_key_hash p.jira_idempotency_key_hash
        || collides q.child_tasks_idempotency_key_hash p.child_tasks_idempotency_key_hash)

-- `repository.save` of a row that is there, and of a new one.
abbrev pub put_publication : BriefPublication → List BriefPublication → List BriefPublication
put_publication p rows =
    if any (λ q. q.id == p.id) rows
    then update_where (λ q. q.id == p.id) (λ q. p) rows
    else rows ++ p ∷ []

unfoldable pub save_publication : BriefPublication → Program BriefPublication
save_publication p = do
  taken ← gets (λ w. any (violates_unique p) w.publications)
  if taken
      then throw duplicate_key
      else (do modify (λ w. record w { publications = put_publication p w.publications }); pure p)

abbrev pub reused_key : {A : Type 0} → Result A × World → Result A × World
reused_key (err duplicate_key, w) = (err (conflict "IDEMPOTENCY_KEY_REUSED"), w)
reused_key (r, w) = (r, w)

-- `savePhaseApproval`: a unique violation is a reused key.
unfoldable pub save_phase_approval : BriefPublication → Program BriefPublication
save_phase_approval p w = reused_key (save_publication p w)

-- `publication.updatedAt = new Date()` and the save.
unfoldable pub touch_publication : Outside → BriefPublication → Program BriefPublication
touch_publication o p = do now ← new_date o; save_publication (record p { updated_at = now })

-- `dataSource.transaction`: an exception takes the rows back.
abbrev pub roll_back : {A : Type 0} → World → Result A × World → Result A × World
roll_back before (ok a, w) = (ok a, w)
roll_back before (err e, w) = (
  err e,
  record w {
    drafts = before.drafts;
    profiles = before.profiles;
    publications = before.publications;
    steps = before.steps;
    fragments = before.fragments;
  },
)

abbrev pub transaction : {A : Type 0} → Program A → Program A
transaction m w = roll_back w (m w)
