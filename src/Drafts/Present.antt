-- ===== src/Drafts/Present.antt =====
-- work-briefs.service.ts: what a caller is shown of a draft, and the reads and conditional writes of
-- the drafts' table.
use work_copilot.Base.{
  ℕ, String, Bool, true, false, Option, none, some, List, [], ◌∷◌, ◌==◌, ◌&&◌, eqb, filter,
  if◌then◌else◌, length, update_where,
}
use work_copilot.Failure.{ok, version_conflict}
use work_copilot.Publication.World.Program.{Program, ◌>>=◌, ◌>>◌, pure, throw}
use work_copilot.Publication.Service.Store.{find_owned_draft, is_live}
use work_copilot.Brief.Types.{DraftFreshnessStatus, WorkBriefDraft}
use work_copilot.Drafts.Types.{
  DraftBlocker, BriefDraftView, BriefDraftPublicationSummary, BriefDraftSummary,
}

abbrev pub is_access_changed : DraftFreshnessStatus → Bool
is_access_changed DraftFreshnessStatus.access_changed = true
is_access_changed _ = false

abbrev pub blockers_of : DraftFreshnessStatus → List DraftBlocker
blockers_of DraftFreshnessStatus.access_changed = DraftBlocker.access_changed ∷ []
blockers_of DraftFreshnessStatus.review_required = DraftBlocker.source_review_required ∷ []
blockers_of DraftFreshnessStatus.current = []

pub record Visibility : Type 0 where
  pub access_changed : Bool
  pub blockers : List DraftBlocker

unfoldable pub visibility : WorkBriefDraft → Visibility
visibility d = record {
  access_changed = is_access_changed d.freshness_status;
  blockers = blockers_of d.freshness_status;
}

unfoldable pub present_summary :
    WorkBriefDraft → Option BriefDraftPublicationSummary → BriefDraftSummary
unfolding visibility
present_summary d publication =
    let v = visibility d in
    record {
      id = d.id;
      source_jira_key = d.source_jira_key;
      title = if v.access_changed then none else some d.masked_brief.title.text;
      evidence_count = if v.access_changed then none else some (length d.evidence);
      status = d.status;
      freshness_status = d.freshness_status;
      optimistic_version = d.optimistic_version;
      blockers = v.blockers;
      publication = publication;
      created_at = d.created_at;
      updated_at = d.updated_at;
    }

unfoldable pub present_draft : WorkBriefDraft → BriefDraftView
unfolding visibility
present_draft d =
    let v = visibility d in
    record {
      id = d.id;
      source_jira_key = d.source_jira_key;
      source_jira_version = d.source_jira_version;
      content = if v.access_changed then none else some d.masked_brief;
      evidence = if v.access_changed then [] else d.evidence;
      status = d.status;
      freshness_status = d.freshness_status;
      optimistic_version = d.optimistic_version;
      blockers = v.blockers;
      updated_at = d.updated_at;
    }

-- The expected version is left out if it is zero.
unfoldable pub conflicting_version : {A : Type 0} → ℕ → ℕ → Program A
conflicting_version current expected =
    throw (version_conflict current (if eqb expected 0 then none else some expected))

-- The row that an owner writes: the draft at the version that the owner has seen, if it is not
-- deleted.
abbrev pub is_at : ℕ → String → ℕ → WorkBriefDraft → Bool
is_at user i version d =
    (d.id == i)
    && (eqb d.created_by_user_id user && (eqb d.optimistic_version version && is_live d))

-- `drafts.update({id, createdByUserId, optimisticVersion, deletedAt: IsNull()}, …)`, which answers
-- how many rows it affected.
unfoldable pub update_at : ℕ → String → ℕ → (WorkBriefDraft → WorkBriefDraft) → Program ℕ
update_at user i version set w = (
  ok (length (filter (is_at user i version) w.drafts)),
  record w { drafts = update_where (is_at user i version) set w.drafts },
)

unfoldable pub assert_update_succeeded : ℕ → String → ℕ → ℕ → Program (Unit {0})
unfolding conflicting_version
assert_update_succeeded user i version affected = if eqb affected 1 then pure tt else (do
  latest ← find_owned_draft user i
  conflicting_version latest.optimistic_version version)

unfoldable pub find_draft : ℕ → String → Program BriefDraftView
find_draft user i = do d ← find_owned_draft user i; pure (present_draft d)

-- The conditional update, its check, and the answer.
unfoldable pub commit : ℕ → String → ℕ → (WorkBriefDraft → WorkBriefDraft) → Program BriefDraftView
commit user i version set = do
  affected ← update_at user i version set
  assert_update_succeeded user i version affected
  find_draft user i
