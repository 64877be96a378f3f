-- ===== src/Drafts/Tests.antt =====
-- Runs of the drafts' operations at one draft, where the hypotheses of the theorems hold.
pub mod Client
mod Changed
use work_copilot.Base.{
  refl, true, none, some, [], ◌∷◌, ◌≡◌, ◌≢◌, Unique, String, List, map, length, ◌<◌, All, Memᴰ, ◌↔◌,
  any, arith, text_lt, ◌⊎◌, inl, All-mem, inr, ap, ◌∙◌, sym,
}
use work_copilot.Publication.Tests.Execution.{world_1, outside_1}
use work_copilot.Publication.Tests.Recovered.{draft_1}
use work_copilot.Drafts.Versions.{Advances, Advances-refl, draft_row}
use work_copilot.Drafts.Types.{
  JiraDraftContext, WorkBriefCitation, Caller, NormalizedEvidence, Sources, UpdateBriefDraft,
  WorkBriefOutput, BriefDraftView, EvidenceAccessStatus, TransientEvidence,
}
use work_copilot.Publication.World.{World}
use work_copilot.Brief.Types.{
  BriefContent, WorkBriefDraft, StoredBriefEvidence, DraftFreshnessStatus, EvidenceProvider,
  AiStatus, DraftStatus,
}
use work_copilot.Failure.{Result, ok, err, freshness_conflict, not_found}
use work_copilot.Drafts.Listing.Walked.{pages, pages-all}
use work_copilot.Drafts.Present.{present_draft, present_summary, update_at, assert_update_succeeded}
use work_copilot.Drafts.Deletion.{Released, delete_draft-Released}
use work_copilot.Drafts.Listing.{listed_after, id_of, newest_first}
use work_copilot.Drafts.Calls.{DraftCall, refresh, answer_all, source_changed, delete}
use work_copilot.Webhooks.Freshness.{draft_id_of}
use work_copilot.Drafts.Versions.Called.{Rely}
use work_copilot.Drafts.Regeneration.{
  persist_regeneration, reject_regeneration_for_freshness, store_regeneration,
  locked_regeneration_draft, assert_regeneration_draft_state, set_regenerated, refusal_code,
  kept_evidence,
}
use work_copilot.Drafts.Commands.{
  delete_draft, update_draft, assert_publication_safety, set_brief, remove_draft, soft_delete,
  purge_draft, record_event,
}
use work_copilot.Drafts.Guarded.{Guarded, persist_regeneration-Guarded}
use work_copilot.Drafts.Content.{texts_of, replace_values, evidence_from_ai, cites, all_citations}
use work_copilot.Drafts.Edits.Saved.{update_draft-result, update_draft-once}
use work_copilot.Publication.Tests.{differ}
use work_copilot.Brief.Tests.{brief_json, brief, brief-validated}
use work_copilot.Drafts.Versions.Regenerated.{answer_all-Advances}
use work_copilot.Drafts.Edits.{commit_result, owned_by, seen_by}
use work_copilot.Drafts.Disclosure.{present-undisclosed, evidence_from_ai-included}
use work_copilot.Drafts.Content.Masked.{replace_values-texts}
use work_copilot.Publication.Service.Store.{find_owned_draft}
use work_copilot.Publication.Service.Queries.{assess_draft_deletion}
use work_copilot.Drafts.Listing.Paged.{ToldApart, WithinMillisecond}
use work_copilot.Drafts.Cited.{CitedIn}

abbrev pub evidence_1 : NormalizedEvidence
evidence_1 = record {
  id = "jira:WC-1";
  provider = EvidenceProvider.jira;
  source_id = "100";
  url = "u";
  title = "Issue";
  version = "1";
  excerpt_length = 4;
}

abbrev pub jira_1 : JiraDraftContext
jira_1 = record {
  access_status = EvidenceAccessStatus.accessible;
  profile_id = some "f1";
  source_jira_id = some "100";
  source_jira_key = "WC-1";
  source_jira_version = some "1";
  evidence = record { evidence = evidence_1; content = "text" } ∷ [];
}

abbrev citation_1 : WorkBriefCitation
citation_1 = record { text = "T"; evidence_ids = "jira:WC-1" ∷ [] }

abbrev pub output_1 : WorkBriefOutput
output_1 = record {
  schema_version = 2;
  title = citation_1;
  summary = citation_1;
  key_points = [];
  acceptance_criteria = citation_1 ∷ [];
  risks = [];
  next_steps = [];
  child_tasks = [];
  excluded_evidence = [];
}

-- Services that let everything through, and nobody else at work.
abbrev pub sources_1 : Sources
sources_1 = record {
  outside = outside_1;
  collect_issue_draft_context = λ w user key correlation. ok jira_1;
  collect_draft_evidence = λ w user is correlation. err (not_found "Page");
  collect_evidence_metadata = λ w user is correlation. err (not_found "Page");
  generate = λ instruction evidence. ok output_1;
  sanitize = λ values. ok values;
  is_recorded = λ e. true;
  database_micros = λ now. 250;
  meanwhile = λ wait w. w;
}

abbrev pub caller_1 : Caller
caller_1 = record { user_id = 7; draft_id = "d1"; correlation_id = "x" }

sources_1-Rely : Rely sources_1
sources_1-Rely wait w = Advances-refl w

abbrev calls_1 : List DraftCall
calls_1 =
    refresh caller_1 1 ∷ source_changed "f1" EvidenceProvider.jira "100" 200 ∷ delete caller_1 ∷ []

answer_all-Advances_example : Advances world_1 (answer_all sources_1 calls_1 world_1)
answer_all-Advances_example = answer_all-Advances sources_1 sources_1-Rely calls_1 world_1

abbrev lost_draft : WorkBriefDraft
lost_draft = record draft_1 { freshness_status = DraftFreshnessStatus.access_changed }

abbrev other_brief : BriefContent
other_brief = record draft_1.masked_brief { title = draft_1.masked_brief.summary }

present-undisclosed_example :
    (present_draft (record lost_draft { masked_brief = other_brief; evidence = [] })
      ≡ present_draft lost_draft)
    × (present_summary (record lost_draft { masked_brief = other_brief; evidence = [] }) none
        ≡ present_summary lost_draft none)
present-undisclosed_example = present-undisclosed lost_draft other_brief [] none refl

abbrev pub free_world : World
free_world = record world_1 {
  publications = [];
  steps = [];
  fragments =
      record {
        id = "e1";
        draft_id = "d1";
        evidence_id = "jira:WC-1";
        ciphertext = "c";
        iv = "i";
        authentication_tag = "a";
        encryption_key_version = 1;
        expires_at = 500;
      }
      ∷ [];
}

deletes : (delete_draft sources_1 caller_1 free_world).0 ≡ ok tt
unfolding delete_draft assert_publication_safety remove_draft soft_delete purge_draft record_event
    find_owned_draft assess_draft_deletion
deletes = refl

delete_draft-Released_example :
    Released "d1" free_world
    × ((d : WorkBriefDraft) × (draft_row "d1" free_world ≡ some d)
        × (owned_by 7 d ≡ true)
        × (draft_row "d1" (delete_draft sources_1 caller_1 free_world).1
            ≡ some (record d { deleted_at = some 100; updated_at = 100; updated_micros = 250 })))
    × ((j : String)
        → j ≢ "d1"
        → draft_row j (delete_draft sources_1 caller_1 free_world).1 ≡ draft_row j free_world)
    × All (λ f. f.draft_id ≢ "d1") (delete_draft sources_1 caller_1 free_world).1.fragments
delete_draft-Released_example = delete_draft-Released sources_1 caller_1 free_world (tt, tt) deletes

persists : (persist_regeneration sources_1 caller_1 1 other_brief [] free_world).0 ≡ ok tt
unfolding persist_regeneration store_regeneration locked_regeneration_draft
    assert_regeneration_draft_state assert_publication_safety find_owned_draft assess_draft_deletion
    update_at assert_update_succeeded
persists = refl

persist_regeneration-Guarded_example :
    Guarded caller_1 1 free_world
    × ((d : WorkBriefDraft) × (draft_row "d1" free_world ≡ some d)
        × (seen_by 7 1 d ≡ true)
        × (draft_row "d1" (persist_regeneration sources_1 caller_1 1 other_brief [] free_world).1
            ≡ some (set_regenerated other_brief [] 1 100 d)))
persist_regeneration-Guarded_example =
    persist_regeneration-Guarded sources_1 caller_1 1 other_brief [] free_world (tt, tt) persists

-- A draft with the evidence that its next brief cites.
abbrev stored_1 : StoredBriefEvidence
stored_1 = record {
  id = "e1";
  provider = EvidenceProvider.jira;
  source_id = "100";
  url = "u";
  title = "Issue";
  version = "1";
  excerpt_length = 4;
  ai_status = AiStatus.included;
  ai_exclusion_reason = none;
}

abbrev cited_draft : WorkBriefDraft
cited_draft = record draft_1 { evidence = stored_1 ∷ [] }

abbrev cited_world : World
cited_world = record world_1 { drafts = cited_draft ∷ [] }

abbrev save_1 : UpdateBriefDraft
save_1 = record { optimistic_version = 1; content = brief_json }

abbrev saved_view : Result BriefDraftView
saved_view =
    commit_result 7 1 (set_brief (replace_values brief (texts_of brief)) 1 100)
      (draft_row "d1" cited_world)

update_draft-result_example : (update_draft sources_1 caller_1 save_1 cited_world).0 ≡ saved_view
update_draft-result_example =
    update_draft-result sources_1 caller_1 save_1 cited_world cited_draft brief (texts_of brief)
      refl brief-validated refl (tt, tt)

saves :
    (update_draft sources_1 caller_1 save_1 cited_world).0
    ≡ ok (present_draft (set_brief (replace_values brief (texts_of brief)) 1 100 cited_draft))
saves = update_draft-result_example

update_draft-once_example :
    (update_draft sources_1 caller_1 save_1
      (update_draft sources_1 caller_1 save_1 cited_world).1).0
    ≢ ok (present_draft cited_draft)
update_draft-once_example =
    update_draft-once sources_1 caller_1 caller_1 save_1 save_1 cited_world sources_1-Rely
      (λ v u. u) (tt, tt) refl refl saves

evidence_from_ai-included_example :
    (map (λ (e : StoredBriefEvidence). e.id) (evidence_from_ai jira_1.evidence output_1 brief)
      ≡ map (λ (t : TransientEvidence). t.evidence.id) jira_1.evidence)
    × ((e : StoredBriefEvidence)
        → Memᴰ e (evidence_from_ai jira_1.evidence output_1 brief)
        → ((e.ai_status ≡ AiStatus.included) ↔ CitedIn e.id brief)
          × (e.ai_status ≡ AiStatus.included → e.ai_exclusion_reason ≡ none))
evidence_from_ai-included_example = evidence_from_ai-included jira_1.evidence output_1 brief

-- Three drafts in two pages, two of them updated at the same time.
abbrev created_draft : WorkBriefDraft
created_draft = record draft_1 { updated_micros = 250 }

abbrev three_drafts : World
three_drafts = record world_1 {
  drafts =
      created_draft
      ∷ record draft_1 { id = "d2"; updated_at = 5 }
      ∷ record draft_1 { id = "d3"; updated_at = 5 }
      ∷ [];
}

three_listed : length (listed_after 7 none none three_drafts) < 4
unfolding listed_after newest_first text_lt
three_listed = omega arith

three_drafts-Unique : Unique draft_id_of three_drafts.drafts
three_drafts-Unique =
    ((differ "d2" "d1" refl, (differ "d3" "d1" refl, tt)), ((differ "d3" "d2" refl, tt), (tt, tt)))

abbrev ListedTime : WorkBriefDraft → Type 0
ListedTime d = ((d.updated_at ≡ 5) × (d.updated_micros ≡ 0)) ⊎ (d ≡ created_draft)

three_listed-Times : All ListedTime (listed_after 7 none none three_drafts)
unfolding listed_after newest_first text_lt
three_listed-Times = (inl (refl, refl), (inl (refl, refl), (inr refl, tt)))

three_listed-Within : WithinMillisecond (listed_after 7 none none three_drafts)
unfolding listed_after newest_first text_lt
three_listed-Within = (omega arith, (omega arith, (omega arith, tt)))

three_listed-Apart : ToldApart (listed_after 7 none none three_drafts)
three_listed-Apart d e m k same =
    elim (All-mem ListedTime (listed_after 7 none none three_drafts) three_listed-Times m) [
      | inl whole ↦ inr whole.1
      | inr late ↦
          elim (All-mem ListedTime (listed_after 7 none none three_drafts) three_listed-Times k) [
            | inl whole ↦
                let early : d.updated_at ≡ 1 = ap (λ x. x.updated_at) late in
                absurd (omega (arith, early, whole.0, same))
            | inr also ↦ inl (late ∙ sym also)
          ]
    ]

pages-all_example :
    pages 4 2 7 none none three_drafts ≡ some (map id_of (listed_after 7 none none three_drafts))
pages-all_example =
    pages-all 2 7 none three_drafts 4 (omega arith) three_drafts-Unique three_listed-Within
      three_listed-Apart three_listed
