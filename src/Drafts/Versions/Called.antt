-- ===== src/Drafts/Versions/Called.antt =====
-- work-briefs.service.ts: under every call, each draft gets later, if it does so under the requests
-- that run meanwhile.
use work_copilot.Base.{
  ℕ, String, Option, none, some, List, [], ◌∷◌, ◌++◌, ◌≡◌, refl, inl, arith, inr, eqb, is_empty,
  map, ◌&&◌, row, Bool-cases, any,
}
use work_copilot.Failure.{version_conflict}
use work_copilot.Publication.World.{World, SafeAuditInput}
use work_copilot.Publication.World.Program.{new_date, random_uuid, ask, pure, require, lift}
use work_copilot.Brief.Types.{WorkBriefDraft, BriefContent, EvidenceProvider}
use work_copilot.Drafts.Types.{
  Caller, CreateBriefDraft, UpdateBriefDraft, Sources, Wait, for_sources, TransientEvidence,
  for_masking, for_generation, JiraDraftContext, ConfluenceEvidenceContext, for_database,
}
use work_copilot.Drafts.Versions.{
  Advances, bind-Advances, Advances-refl, Advances-from, require-Advances, if-Advances,
  find_owned_draft-Advances, commit-Advances, Advances-same, Advances-trans, update-Advances,
  Later-refl,
}
use work_copilot.Drafts.Refresh.{
  apply_refresh, collect_pages, RefreshValues, set_refreshed, refresh_draft, refresh_with,
  stored_ids, is_inaccessible, is_current, has_changed, refreshed_evidence, current_jira, pages_of,
}
use work_copilot.Drafts.Commands.{
  update_draft, generate_from, collect_confluence, collect_jira, evidence_id_of, set_brief,
  delete_draft, create_draft, assert_publication_safety, record_event, purge_draft, create_over,
  soft_delete, mark_deleted, insert_draft, assert_no_existing_draft, deleted_event, save_new,
  draft_already_exists, is_draft_of, remove_draft,
}
use work_copilot.Drafts.Content.{mask_content, texts_of, content_from_ai}
use work_copilot.Publication.Service.Store.{find_owned_draft, is_live}
use work_copilot.Brief.Citations.{validate}
use work_copilot.Drafts.Versions.Parts.{
  assert_publication_safety-Advances, selected_evidence_ids-Advances, content_from_ai-Advances,
  selected_jira_evidence-Advances, selected_confluence_evidence-Advances,
}
use work_copilot.Drafts.Selection.{
  selected_evidence_ids, selected_jira_evidence, selected_confluence_evidence,
}
use work_copilot.Webhooks.Freshness.{draft_id_of}
use work_copilot.Publication.Types.{truthy}

-- The requests that run while one waits make every draft later.
abbrev pub Rely : Sources → Type 0
Rely s = (wait : Wait) (w : World) → Advances w (s.meanwhile wait w)

soft_delete-Advances :
    (user : ℕ) (i : String) (now micros : ℕ) (w : World)
    → Advances w (soft_delete user i now micros w).1
unfolding soft_delete
soft_delete-Advances user i now micros w =
    update-Advances i (λ d. eqb d.created_by_user_id user && is_live d) (mark_deleted now micros)
      (λ d. refl) (λ d h. inr (refl, refl, refl, refl, refl, refl)) w
      (soft_delete user i now micros w).1 refl

purge_draft-Advances : (i : String) (w : World) → Advances w (purge_draft i w).1
unfolding purge_draft
purge_draft-Advances i w = Advances-same w _ refl

assert_no_existing_draft-Advances :
    (profile issue : Option String) (w : World)
    → Advances w (assert_no_existing_draft profile issue w).1
unfolding assert_no_existing_draft
assert_no_existing_draft-Advances profile issue w =
    bind-Advances (require (truthy profile && truthy issue) _) _ w (require-Advances _ _ w)
      λ done v. if-Advances _ draft_already_exists (pure tt) v (Advances-refl v) (Advances-refl v)

-- A row at the end leaves the rows before it where they were.
row-append :
    (i : String) (d e : WorkBriefDraft) (ds : List WorkBriefDraft)
    → row draft_id_of i ds ≡ some d
    → row draft_id_of i (ds ++ e ∷ []) ≡ some d
row-append i d e [] h = cc
row-append i d e (c ∷ ds) h = ground (arith, row-append i d e ds)

save_new-Advances : (d : WorkBriefDraft) (w : World) → Advances w (save_new d w).1
unfolding insert_draft
save_new-Advances d w =
    elim (Bool-cases (any (is_draft_of d.profile_id d.source_jira_id) w.drafts)) [
      | inl e ↦ rw e (Advances-refl w)
      | inr e ↦ rw e (record { later = λ i c h. (c, row-append i c d w.drafts h, Later-refl c) })
    ]

module _ (s : Sources) (rely : Rely s) where
  record_event-Advances : (e : SafeAuditInput) (w : World) → Advances w (record_event s e w).1
  unfolding record_event
  record_event-Advances e w = elim (Bool-cases (s.is_recorded e)) [
    | inl h ↦ rw h (Advances-same w _ refl)
    | inr h ↦ rw h (Advances-same w _ refl)
  ]

  pub mask_content-Advances : (c : BriefContent) (w : World) → Advances w (mask_content s c w).1
  unfolding mask_content
  mask_content-Advances c w =
      let v = s.meanwhile for_masking w in
      Advances-trans w v _ (rely for_masking w)
        (bind-Advances (lift (s.sanitize (texts_of c))) _ v (Advances-refl v) λ vs. Advances-refl)

  pub collect_jira-Advances :
      (user : ℕ) (key correlation : String) (w : World)
      → Advances w (collect_jira s user key correlation w).1
  unfolding collect_jira
  collect_jira-Advances user key correlation w = rely for_sources w

  pub collect_confluence-Advances :
      (user : ℕ) (is : List String) (correlation : String) (w : World)
      → Advances w (collect_confluence s user is correlation w).1
  unfolding collect_confluence
  collect_confluence-Advances user is correlation w =
      let v = s.meanwhile for_sources w in
      if-Advances (is_empty is) _ _ w (Advances-refl w) (
        Advances-trans w v _ (rely for_sources w) (
          bind-Advances (ask λ u. s.collect_draft_evidence u user is correlation) _ v
            (Advances-refl v) λ context. Advances-refl))

  pub collect_pages-Advances :
      (user : ℕ) (is : List String) (correlation : String) (w : World)
      → Advances w (collect_pages s user is correlation w).1
  unfolding collect_pages
  collect_pages-Advances user is correlation w =
      let v = s.meanwhile for_sources w in
      if-Advances (is_empty is) _ _ w (Advances-refl w) (
        Advances-trans w v _ (rely for_sources w) (
          bind-Advances (ask λ u. s.collect_evidence_metadata u user is correlation) _ v
            (Advances-refl v) λ context. Advances-refl))

  pub generate_from-Advances :
      (instruction : String) (selected : List TransientEvidence) (w : World)
      → Advances w (generate_from s instruction selected w).1
  unfolding generate_from
  generate_from-Advances instruction selected w = rely for_generation w

  pub update_draft-Advances :
      (c : Caller) (dto : UpdateBriefDraft) (w : World) → Advances w (update_draft s c dto w).1
  unfolding update_draft
  update_draft-Advances c dto w =
      bind-Advances (find_owned_draft c.user_id c.draft_id) _ w
        (find_owned_draft-Advances c.user_id c.draft_id w)
        λ d v.
          bind-Advances (lift (validate (map evidence_id_of d.evidence) dto.content)) _ v
            (Advances-refl v)
            λ content u.
              bind-Advances (mask_content s content) _ u (mask_content-Advances content u)
                λ masked x. Advances-from x (new_date s.outside x).1 _ refl (
                  commit-Advances c.user_id c.draft_id dto.optimistic_version
                    (set_brief masked dto.optimistic_version x.clock) (λ e. refl) (λ e. refl) _)

  pub apply_refresh-Advances :
      (d : WorkBriefDraft) (version : ℕ) (values : RefreshValues) (w : World)
      → Advances w (apply_refresh s d version values w).1
  unfolding apply_refresh
  apply_refresh-Advances d version values w = Advances-from w (new_date s.outside w).1 _ refl (
      commit-Advances d.created_by_user_id d.id version (set_refreshed values version w.clock)
        (λ e. refl) (λ e. refl) _)

  refresh_with-Advances :
      (d : WorkBriefDraft) (version : ℕ) (context : JiraDraftContext)
      (pages : Option ConfluenceEvidenceContext) (w : World)
      → Advances w (refresh_with s d version context pages w).1
  unfolding refresh_with
  refresh_with-Advances d version context pages w =
      if-Advances (is_inaccessible d context pages) _ _ w (apply_refresh-Advances d version _ w) (
        if-Advances
          (has_changed d context
            (refreshed_evidence (current_jira d context ++ pages_of pages) d.evidence))
          _ _ w (apply_refresh-Advances d version _ w)
          (if-Advances (is_current d) _ _ w (Advances-refl w)
            (apply_refresh-Advances d version _ w)))

  pub refresh_draft-Advances :
      (c : Caller) (version : ℕ) (w : World) → Advances w (refresh_draft s c version w).1
  unfolding refresh_draft
  refresh_draft-Advances c version w =
      bind-Advances (find_owned_draft c.user_id c.draft_id) _ w
        (find_owned_draft-Advances c.user_id c.draft_id w)
        λ d v.
          bind-Advances
            (require (eqb d.optimistic_version version)
              (version_conflict d.optimistic_version none))
            _ v (require-Advances _ _ v)
            λ done u.
              bind-Advances (collect_jira s c.user_id d.source_jira_key c.correlation_id) _ u
                (collect_jira-Advances c.user_id d.source_jira_key c.correlation_id u)
                λ context x.
                  bind-Advances
                    (collect_pages s c.user_id (stored_ids EvidenceProvider.confluence d)
                      c.correlation_id)
                    _ x (collect_pages-Advances c.user_id _ c.correlation_id x)
                    λ pages. refresh_with-Advances d version context pages

  remove_draft-Advances :
      (c : Caller) (d : WorkBriefDraft) (w : World) → Advances w (remove_draft s c d w).1
  unfolding remove_draft
  remove_draft-Advances c d w =
      let x = s.meanwhile for_database w in
      let y = (new_date s.outside x).1 in
      Advances-trans w x _ (rely for_database w) (
        Advances-from x y _ refl (
          bind-Advances (soft_delete c.user_id c.draft_id x.clock (s.database_micros x.clock)) _ y
            (soft_delete-Advances c.user_id c.draft_id x.clock (s.database_micros x.clock) y)
            λ affected z.
              bind-Advances (require (eqb affected 1) _) _ z (require-Advances _ _ z) λ done q.
                bind-Advances (purge_draft c.draft_id) _ q (purge_draft-Advances c.draft_id q)
                  λ purged. record_event-Advances (deleted_event c d)))

  pub delete_draft-Advances : (c : Caller) (w : World) → Advances w (delete_draft s c w).1
  unfolding delete_draft
  delete_draft-Advances c w =
      bind-Advances (find_owned_draft c.user_id c.draft_id) _ w
        (find_owned_draft-Advances c.user_id c.draft_id w)
        λ d v.
          bind-Advances (assert_publication_safety c.draft_id) _ v
            (assert_publication_safety-Advances c.draft_id v) λ safe. remove_draft-Advances c d

  create_over-Advances :
      (user : ℕ) (dto : CreateBriefDraft) (context : JiraDraftContext)
      (selected : List TransientEvidence) (w : World)
      → Advances w (create_over s user dto context selected w).1
  unfolding create_over
  create_over-Advances user dto context selected w =
      bind-Advances (generate_from s dto.instruction selected) _ w
        (generate_from-Advances _ selected w)
        λ output v.
          bind-Advances (content_from_ai s.outside output) _ v
            (content_from_ai-Advances s.outside output v)
            λ content u.
              let x = (new_date s.outside (random_uuid s.outside u).1).1 in
              Advances-from u x _ refl
                (bind-Advances (save_new _) _ x (save_new-Advances _ x) λ stored. Advances-refl)

  pub create_draft-Advances :
      (user : ℕ) (dto : CreateBriefDraft) (correlation : String) (w : World)
      → Advances w (create_draft s user dto correlation w).1
  unfolding create_draft
  create_draft-Advances user dto correlation w =
      bind-Advances (selected_evidence_ids dto.selected_evidence_ids) _ w
        (selected_evidence_ids-Advances _ w)
        λ ids v.
          bind-Advances (collect_jira s user dto.source_jira_key correlation) _ v
            (collect_jira-Advances user _ correlation v)
            λ context u.
              bind-Advances (selected_jira_evidence context ids.jira) _ u
                (selected_jira_evidence-Advances context _ u)
                λ jira x.
                  bind-Advances (collect_confluence s user ids.confluence correlation) _ x
                    (collect_confluence-Advances user _ correlation x)
                    λ pages y.
                      bind-Advances (selected_confluence_evidence context pages ids.confluence) _ y
                        (selected_confluence_evidence-Advances context pages _ y)
                        λ confluence z.
                          bind-Advances
                            (assert_no_existing_draft context.profile_id context.source_jira_id) _ z
                            (assert_no_existing_draft-Advances _ _ z)
                            λ absent q. create_over-Advances user dto context (jira ++ confluence) q
