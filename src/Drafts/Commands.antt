-- ===== src/Drafts/Commands.antt =====
-- work-briefs.service.ts: a draft is created, read, updated and deleted.
-- Every exception of a transaction here is thrown before its first write, so none is taken back.
use work_copilot.Base.{
  ℕ, ◌+◌, String, Bool, false, Option, none, some, List, [], ◌∷◌, ◌++◌, ◌==◌, ◌&&◌, eqb, any,
  if◌then◌else◌, length, update_where, is_empty, map, filter, get_or, not, append,
}
use work_copilot.Failure.{not_found, conflict, duplicate_key, Result, ok, err}
use work_copilot.Publication.World.{World, SafeAuditInput}
use work_copilot.Publication.World.Program.{
  Program, ◌>>=◌, ◌>>◌, pure, ask, throw, gets, modify, new_date, require, random_uuid, lift,
}
use work_copilot.Publication.Types.{truthy}
use work_copilot.Publication.Service.Store.{find_owned_draft, is_live}
use work_copilot.Publication.Service.Queries.{assess_draft_deletion}
use work_copilot.Brief.Types.{
  BriefContent, DraftFreshnessStatus, DraftStatus, WorkBriefDraft, StoredBriefEvidence,
}
use work_copilot.Brief.Citations.{validate}
use work_copilot.Drafts.Types.{
  BriefDraftView, Caller, CreateBriefDraft, UpdateBriefDraft, JiraDraftContext,
  ConfluenceDraftContext, TransientEvidence, WorkBriefEvidenceInput, WorkBriefOutput, Sources,
  for_sources, for_generation, for_database,
}
use work_copilot.Drafts.Content.{content_from_ai, evidence_from_ai, mask_content, elsewhere}
use work_copilot.Drafts.Selection.{
  selected_evidence_ids, selected_jira_evidence, selected_confluence_evidence,
}
use work_copilot.Drafts.Present.{present_draft, commit}

abbrev pub evidence_input : TransientEvidence → WorkBriefEvidenceInput
evidence_input item = record { evidence_id = item.evidence.id; content = item.content }

-- The unique index of the live drafts on profile and issue.
abbrev pub is_draft_of : String → String → WorkBriefDraft → Bool
is_draft_of profile issue d = (d.profile_id == profile) && (d.source_jira_id == issue) && is_live d

abbrev pub draft_already_exists : {A : Type 0} → Program A
draft_already_exists = throw (conflict "DRAFT_ALREADY_EXISTS")

unfoldable pub assert_no_existing_draft : Option String → Option String → Program (Unit {0})
assert_no_existing_draft profile issue = do
  require (truthy profile && truthy issue)
      (conflict "Selected Jira evidence is no longer accessible.")
  taken ← gets (λ w. any (is_draft_of (get_or profile "") (get_or issue "")) w.drafts)
  if taken then draft_already_exists else pure tt

-- `draftsRepository.save` of a new row.
unfoldable pub insert_draft : WorkBriefDraft → Program WorkBriefDraft
insert_draft d = do
  taken ← gets (λ w. any (is_draft_of d.profile_id d.source_jira_id) w.drafts)
  if taken
      then throw duplicate_key
      else (do modify (λ w. record w { drafts = w.drafts ++ d ∷ [] }); pure d)

abbrev pub existing_on_duplicate : {A : Type 0} → Result A × World → Result A × World
existing_on_duplicate (err duplicate_key, w) = (err (conflict "DRAFT_ALREADY_EXISTS"), w)
existing_on_duplicate (r, w) = (r, w)

abbrev pub save_new : WorkBriefDraft → Program WorkBriefDraft
save_new d w = existing_on_duplicate (insert_draft d w)

-- The row that `create` fills in, with what the database adds.
abbrev pub new_draft :
    String → ℕ → ℕ → ℕ → JiraDraftContext → BriefContent → List StoredBriefEvidence → WorkBriefDraft
new_draft i now micros user context content evidence = record {
  id = i;
  profile_id = get_or context.profile_id "";
  created_by_user_id = user;
  source_jira_id = get_or context.source_jira_id "";
  source_jira_key = context.source_jira_key;
  source_jira_version = get_or context.source_jira_version "";
  masked_brief = content;
  evidence = evidence;
  status = DraftStatus.draft;
  optimistic_version = 1;
  freshness_status = DraftFreshnessStatus.current;
  policy_version = 1;
  created_at = now;
  updated_at = now;
  updated_micros = micros;
  deleted_at = none;
}

abbrev pub evidence_id_of : StoredBriefEvidence → String
evidence_id_of e = e.id

-- The SET clause of an edit.
abbrev pub set_brief : BriefContent → ℕ → ℕ → WorkBriefDraft → WorkBriefDraft
set_brief content version now d = record d {
  masked_brief = content;
  optimistic_version = version + 1;
  updated_at = now;
  updated_micros = 0;
}

-- `assessDraftDeletion`, and the refusals that deletion and regeneration share.
unfoldable pub assert_publication_safety : String → Program (Unit {0})
assert_publication_safety i = do
  publication ← assess_draft_deletion i
  require (not publication.publishing) (conflict "PUBLICATION_IN_PROGRESS")
  require (not publication.external_write_performed) (conflict "DRAFT_HAS_PUBLICATION")

-- `drafts.update({id, createdByUserId, deletedAt: IsNull()}, {deletedAt: new Date()})`, which sets
-- `updatedAt` to the time of the database, as every update does that does not name it.
abbrev pub is_owned : ℕ → String → WorkBriefDraft → Bool
is_owned user i d = (d.id == i) && (eqb d.created_by_user_id user && is_live d)

abbrev pub mark_deleted : ℕ → ℕ → WorkBriefDraft → WorkBriefDraft
mark_deleted now micros d = record d {
  deleted_at = some now;
  updated_at = now;
  updated_micros = micros;
}

unfoldable pub soft_delete : ℕ → String → ℕ → ℕ → Program ℕ
soft_delete user i now micros w = (
  ok (length (filter (is_owned user i) w.drafts)),
  record w { drafts = update_where (is_owned user i) (mark_deleted now micros) w.drafts },
)

-- `fragments.purgeDraft`.
unfoldable pub purge_draft : String → Program (Unit {0})
purge_draft i = modify λ w. record w { fragments = filter (λ f. not (f.draft_id == i)) w.fragments }

abbrev pub deleted_event : Caller → WorkBriefDraft → SafeAuditInput
deleted_event c d = record {
  actor_user_id = some c.user_id;
  action = "BRIEF_DRAFT_DELETED";
  profile_id = some d.profile_id;
  target_id = some (append "draft:" (append d.id (append ":issue:" d.source_jira_key)));
  correlation_id = c.correlation_id;
  result_code = "SOFT_DELETED";
}

module _ (s : Sources) where
  -- The pages of the selection, read with the token of the user.
  unfoldable pub collect_confluence :
      ℕ → List String → String → Program (Option ConfluenceDraftContext)
  collect_confluence user is correlation = if is_empty is then pure none else (do
    elsewhere s for_sources
    context ← ask (λ w. s.collect_draft_evidence w user is correlation)
    pure (some context))

  unfoldable pub collect_jira : ℕ → String → String → Program JiraDraftContext
  collect_jira user key correlation = do
    elsewhere s for_sources
    ask (λ w. s.collect_issue_draft_context w user key correlation)

  -- `aiClient.generate` over the selected evidence.
  unfoldable pub generate_from : String → List TransientEvidence → Program WorkBriefOutput
  generate_from instruction selected = do
    elsewhere s for_generation
    lift (s.generate instruction (map evidence_input selected))

  -- The brief is generated and stored.
  unfoldable pub create_over :
      ℕ → CreateBriefDraft → JiraDraftContext → List TransientEvidence → Program BriefDraftView
  create_over user dto context selected = do
    output ← generate_from dto.instruction selected
    content ← content_from_ai s.outside output
    i ← random_uuid s.outside
    now ← new_date s.outside
    stored ← save_new (
        new_draft i now (s.database_micros now) user context content
          (evidence_from_ai selected output content))
    pure (present_draft stored)

  unfoldable pub create_draft : ℕ → CreateBriefDraft → String → Program BriefDraftView
  create_draft user dto correlation = do
    ids ← selected_evidence_ids dto.selected_evidence_ids
    context ← collect_jira user dto.source_jira_key correlation
    jira ← selected_jira_evidence context ids.jira
    pages ← collect_confluence user ids.confluence correlation
    confluence ← selected_confluence_evidence context pages ids.confluence
    assert_no_existing_draft context.profile_id context.source_jira_id
    create_over user dto context (jira ++ confluence)

  unfoldable pub update_draft : Caller → UpdateBriefDraft → Program BriefDraftView
  update_draft c dto = do
    d ← find_owned_draft c.user_id c.draft_id
    content ← lift (validate (map evidence_id_of d.evidence) dto.content)
    masked ← mask_content s content
    now ← new_date s.outside
    commit c.user_id c.draft_id dto.optimistic_version (set_brief masked dto.optimistic_version now)

  -- `SafeAuditService.record`, which never throws.
  unfoldable pub record_event : SafeAuditInput → Program (Unit {0})
  record_event e = modify λ w.
      if s.is_recorded e
      then record w { events = e ∷ w.events }
      else record w { metrics = ("audit_write_failure_total", false) ∷ w.metrics }

  -- The draft is marked as deleted, and its excerpts are removed.
  unfoldable pub remove_draft : Caller → WorkBriefDraft → Program (Unit {0})
  remove_draft c d = do
    elsewhere s for_database
    now ← new_date s.outside
    affected ← soft_delete c.user_id c.draft_id now (s.database_micros now)
    require (eqb affected 1) (not_found "Brief draft was not found.")
    purge_draft c.draft_id
    record_event (deleted_event c d)

  unfoldable pub delete_draft : Caller → Program (Unit {0})
  delete_draft c = do
    d ← find_owned_draft c.user_id c.draft_id
    assert_publication_safety c.draft_id
    remove_draft c d
