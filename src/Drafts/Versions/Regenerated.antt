-- ===== src/Drafts/Versions/Regenerated.antt =====
-- work-briefs.service.ts: a regeneration, and every sequence of calls, makes each draft later.
use work_copilot.Base.{
  ℕ, String, Option, none, some, List, [], ◌∷◌, ◌++◌, ◌≡◌, refl, inl, inr, arith, eqb, ◌&&◌,
  if◌then◌else◌, Bool-cases, ◌==◌, filter,
}
use work_copilot.Failure.{Result, ok, err}
use work_copilot.Publication.World.{World}
use work_copilot.Publication.World.Program.{new_date, pure}
use work_copilot.Drafts.Types.{
  Caller, RegenerateBriefDraft, Sources, JiraDraftContext, for_database, TransientEvidence,
}
use work_copilot.Drafts.Versions.{
  Advances, bind-Advances, Advances-refl, Advances-from, require-Advances, if-Advances,
  find_owned_draft-Advances, find_draft-Advances, Advances-same, Advances-trans, update_at-Advances,
  assert_update_succeeded-Advances, update-Advances,
}
use work_copilot.Drafts.Versions.Called.{
  Rely, collect_jira-Advances, apply_refresh-Advances, collect_pages-Advances,
  generate_from-Advances, collect_confluence-Advances, mask_content-Advances, create_draft-Advances,
  update_draft-Advances, refresh_draft-Advances, delete_draft-Advances,
}
use work_copilot.Drafts.Regeneration.{
  persist_regeneration, regenerate_draft, collect_regeneration_jira_context,
  reject_regeneration_for_freshness, assert_regeneration_freshness, locked_regeneration_draft,
  assert_regeneration_draft_state, collect_regeneration_confluence_metadata, rejected_on_conflict,
  is_conflict, set_regenerated, regenerate_over, regenerate_fresh, selection_of,
  regeneration_freshness_status, store_regeneration,
}
use work_copilot.Brief.Types.{
  WorkBriefDraft, DraftFreshnessStatus, BriefContent, StoredBriefEvidence,
}
use work_copilot.Publication.Service.Store.{find_owned_draft, is_live}
use work_copilot.Drafts.Present.{conflicting_version, update_at}
use work_copilot.Drafts.Commands.{assert_publication_safety, generate_from, collect_confluence}
use work_copilot.Drafts.Refresh.{apply_refresh}
use work_copilot.Drafts.Selection.{
  is_accessible, same_text, selected_evidence_ids, SelectedEvidenceIds, selected_jira_evidence,
  selected_confluence_evidence,
}
use work_copilot.Drafts.Versions.Parts.{
  assert_publication_safety-Advances, selected_evidence_ids-Advances,
  selected_jira_evidence-Advances, content_from_ai-Advances, selected_confluence_evidence-Advances,
}
use work_copilot.Drafts.Calls.{
  create, update, regenerate, refresh, delete, source_changed, answer_all, answer, DraftCall,
}
use work_copilot.Webhooks.Freshness.{
  update_drafts, update_draft, send_to_review, is_affected, mark_review_required,
}
use work_copilot.Drafts.Content.{content_from_ai, mask_content, evidence_from_ai}

assert_regeneration_draft_state-Advances :
    (d : WorkBriefDraft) (version : ℕ) (w : World)
    → Advances w (assert_regeneration_draft_state d version w).1
unfolding assert_regeneration_draft_state conflicting_version
assert_regeneration_draft_state-Advances d version w =
    bind-Advances
      (if eqb d.optimistic_version version
        then pure tt
        else conflicting_version d.optimistic_version version)
      _ w (if-Advances (eqb d.optimistic_version version) _ _ w (Advances-refl w) (Advances-refl w))
      λ done. require-Advances _ _

locked_regeneration_draft-Advances :
    (c : Caller) (version : ℕ) (w : World) → Advances w (locked_regeneration_draft c version w).1
unfolding locked_regeneration_draft
locked_regeneration_draft-Advances c version w =
    bind-Advances (find_owned_draft c.user_id c.draft_id) _ w
      (find_owned_draft-Advances c.user_id c.draft_id w)
      λ d v.
        bind-Advances (assert_regeneration_draft_state d version) _ v
          (assert_regeneration_draft_state-Advances d version v)
          λ done u.
            bind-Advances (assert_publication_safety c.draft_id) _ u
              (assert_publication_safety-Advances c.draft_id u) λ safe. Advances-refl

module _ (s : Sources) (rely : Rely s) where
  reject-Advances :
      (A : Type 0) (d : WorkBriefDraft) (version : ℕ) (freshness : DraftFreshnessStatus) (w : World)
      → Advances w (reject_regeneration_for_freshness s {A = A} d version freshness w).1
  unfolding reject_regeneration_for_freshness
  reject-Advances A d version freshness w =
      bind-Advances (apply_refresh s d version _) _ w (apply_refresh-Advances s rely d version _ w)
        λ marked. Advances-refl

  on_conflict-Advances :
      {A : Type 0} (d : WorkBriefDraft) (version : ℕ) (w : World) (r : Result A × World)
      → Advances w r.1
      → Advances w (rejected_on_conflict s d version r).1
  on_conflict-Advances d version w (ok a, v) p = p
  on_conflict-Advances {A} d version w (err e, v) p = elim (Bool-cases (is_conflict e)) [
    | inl h ↦
        rw h (
          Advances-trans w v _ p
            (reject-Advances A d version DraftFreshnessStatus.access_changed v))
    | inr h ↦ rw h p
  ]

  collect_jira_context-Advances :
      (c : Caller) (d : WorkBriefDraft) (version : ℕ) (w : World)
      → Advances w (collect_regeneration_jira_context s c d version w).1
  unfolding collect_regeneration_jira_context
  collect_jira_context-Advances c d version w =
      on_conflict-Advances d version w _
        (collect_jira-Advances s rely c.user_id d.source_jira_key c.correlation_id w)

  collect_metadata-Advances :
      (c : Caller) (d : WorkBriefDraft) (version : ℕ) (context : JiraDraftContext) (w : World)
      → Advances w (collect_regeneration_confluence_metadata s c d version context w).1
  unfolding collect_regeneration_confluence_metadata
  collect_metadata-Advances c d version context w =
      if-Advances
        (is_accessible context.access_status && same_text context.profile_id (some d.profile_id)) _
        _ w
        (on_conflict-Advances d version w _
          (collect_pages-Advances s rely c.user_id _ c.correlation_id w))
        (Advances-refl w)

  assert_freshness-Advances :
      (d : WorkBriefDraft) (version : ℕ) (freshness : Option DraftFreshnessStatus) (w : World)
      → Advances w (assert_regeneration_freshness s d version freshness w).1
  unfolding assert_regeneration_freshness
  assert_freshness-Advances d version none w = Advances-refl w
  assert_freshness-Advances d version (some freshness) w = reject-Advances _ d version freshness w

  store-Advances :
      (c : Caller) (version : ℕ) (content : BriefContent) (evidence : List StoredBriefEvidence)
      (w : World)
      → Advances w (store_regeneration s c version content evidence w).1
  unfolding store_regeneration
  store-Advances c version content evidence w =
      let y = s.meanwhile for_database w in
      let z = (new_date s.outside y).1 in
      let set = set_regenerated content evidence version y.clock in
      Advances-trans w y _ (rely for_database w) (
        Advances-from y z _ refl (
          bind-Advances (update_at c.user_id c.draft_id version set) _ z
            (update_at-Advances c.user_id c.draft_id version set (λ e. refl) (λ e. refl) z)
            λ affected. assert_update_succeeded-Advances c.user_id c.draft_id version affected))

  persist-Advances :
      (c : Caller) (version : ℕ) (content : BriefContent) (evidence : List StoredBriefEvidence)
      (w : World)
      → Advances w (persist_regeneration s c version content evidence w).1
  unfolding persist_regeneration
  persist-Advances c version content evidence w =
      bind-Advances (locked_regeneration_draft c version) _ w
        (locked_regeneration_draft-Advances c version w)
        λ d. store-Advances c version content evidence

  regenerate_over-Advances :
      (c : Caller) (dto : RegenerateBriefDraft) (context : JiraDraftContext)
      (selected : List TransientEvidence) (w : World)
      → Advances w (regenerate_over s c dto context selected w).1
  unfolding regenerate_over
  regenerate_over-Advances c dto context selected w =
      bind-Advances (generate_from s dto.instruction selected) _ w
        (generate_from-Advances s rely _ selected w)
        λ output v.
          bind-Advances (content_from_ai s.outside output) _ v
            (content_from_ai-Advances s.outside output v)
            λ content u.
              bind-Advances (mask_content s content) _ u (mask_content-Advances s rely content u)
                λ masked x.
                  bind-Advances
                    (persist_regeneration s c dto.optimistic_version masked
                      (evidence_from_ai selected output content))
                    _ x (persist-Advances c _ masked _ x)
                    λ done. find_draft-Advances c.user_id c.draft_id

  regenerate_fresh-Advances :
      (c : Caller) (dto : RegenerateBriefDraft) (ids : SelectedEvidenceIds)
      (context : JiraDraftContext) (w : World)
      → Advances w (regenerate_fresh s c dto ids context w).1
  unfolding regenerate_fresh
  regenerate_fresh-Advances c dto ids context w =
      bind-Advances (selected_jira_evidence context ids.jira) _ w
        (selected_jira_evidence-Advances context _ w)
        λ jira v.
          bind-Advances (collect_confluence s c.user_id ids.confluence c.correlation_id) _ v
            (collect_confluence-Advances s rely c.user_id _ _ v)
            λ pages u.
              bind-Advances (selected_confluence_evidence context pages ids.confluence) _ u
                (selected_confluence_evidence-Advances context pages _ u)
                λ confluence. regenerate_over-Advances c dto context (jira ++ confluence)

  pub regenerate_draft-Advances :
      (c : Caller) (dto : RegenerateBriefDraft) (w : World)
      → Advances w (regenerate_draft s c dto w).1
  unfolding regenerate_draft
  regenerate_draft-Advances c dto w =
      bind-Advances (locked_regeneration_draft c dto.optimistic_version) _ w
        (locked_regeneration_draft-Advances c _ w)
        λ d v.
          bind-Advances (selected_evidence_ids (selection_of dto d)) _ v
            (selected_evidence_ids-Advances _ v)
            λ ids u.
              bind-Advances (collect_regeneration_jira_context s c d dto.optimistic_version) _ u
                (collect_jira_context-Advances c d _ u)
                λ context x.
                  bind-Advances
                    (collect_regeneration_confluence_metadata s c d dto.optimistic_version context)
                    _ x (collect_metadata-Advances c d _ context x)
                    λ metadata y.
                      bind-Advances
                        (assert_regeneration_freshness s d dto.optimistic_version
                          (regeneration_freshness_status d context metadata))
                        _ y (assert_freshness-Advances d _ _ y)
                        λ fresh. regenerate_fresh-Advances c dto ids context

-- The change of a source: a version grows with every row that it touches.
update_drafts-Advances :
    (profile : String) (now : ℕ) (ds : List WorkBriefDraft) (u w : World)
    → w.drafts ≡ update_drafts profile now ds u.drafts
    → Advances u w
unfolding update_drafts
update_drafts-Advances profile now [] u w e = Advances-same u w e
update_drafts-Advances profile now (d ∷ ds) u w e =
    let v = record u { drafts = update_draft profile now d u.drafts } in
    Advances-trans u v w
      (update-Advances d.id (λ c. (c.profile_id == profile) && is_live c)
        (send_to_review d.freshness_status now) (λ c. refl) (λ c h. inl (omega arith)) u v refl)
      (update_drafts-Advances profile now ds v w e)

answer-Advances :
    (s : Sources) → Rely s → (call : DraftCall) (w : World) → Advances w (answer s call w)
unfolding answer mark_review_required
answer-Advances s rely (create user dto correlation) w =
    create_draft-Advances s rely user dto correlation w
answer-Advances s rely (update c dto) w = update_draft-Advances s rely c dto w
answer-Advances s rely (regenerate c dto) w = regenerate_draft-Advances s rely c dto w
answer-Advances s rely (refresh c version) w = refresh_draft-Advances s rely c version w
answer-Advances s rely (delete c) w = delete_draft-Advances s rely c w
answer-Advances s rely (source_changed profile provider source now) w =
    update_drafts-Advances profile now (filter (is_affected profile provider source) w.drafts) w _
      refl

-- A version stands for one state of its draft: however calls follow one another, returning or
-- throwing, no draft's row is lost, and where its content, evidence, freshness, status or the
-- version of its issue changes, its optimistic version has grown. This is so if it is so under the
-- requests that run while a call waits.
pub answer_all-Advances :
    (s : Sources)
    → Rely s
    → (calls : List DraftCall) (w : World) → Advances w (answer_all s calls w)
unfolding answer_all
answer_all-Advances s rely [] w = Advances-refl w
answer_all-Advances s rely (call ∷ calls) w =
    Advances-trans w (answer s call w) _ (answer-Advances s rely call w)
      (answer_all-Advances s rely calls (answer s call w))
