-- ===== src/Drafts/Tests/Client.antt =====
-- work-brief-ai-client.service.ts: an answer of the model and one of the masking.
use work_copilot.Base.{decimal, refl, some, [], ◌∷◌, ◌≡◌, List, All, ◌==◌, text_length}
use work_copilot.Drafts.Client.Requested.{IsRequested, requested_ids, generate_brief-IsRequested}
use work_copilot.Drafts.Types.{WorkBriefOutput, WorkBriefCitation, WorkBriefEvidenceInput}
use work_copilot.Drafts.Client.{
  AiService, generate_brief, answered, sanitize_values, every_item, work_brief_output,
  work_brief_citation, served_by, work_brief_child_task, model_text, has_only_requested_evidence,
  excludes_once,
}
use work_copilot.Brief.Types.{BriefContent}
use work_copilot.Drafts.Client.Masking.{IsSafe, mask_content-IsSafe}
use work_copilot.Readiness.Coverage.{evaluate}
use work_copilot.Brief.Citations.{Json, object, array, text, number, field, cons, nil, end}
use work_copilot.Drafts.Content.{
  content_from_ai, mask_content, brief_from, texts_of, tasks_from_ai, task_from_ai, replace_values,
}
use work_copilot.Failure.{Result, ok}
use work_copilot.Drafts.Client.Backed.{select_all, content_from_ai-Covered}
use work_copilot.Publication.Tests.Execution.{outside_1, world_1}
use work_copilot.Drafts.Guard.{assert_safe_request, count_evidence, assert_safe_model_output}
use work_copilot.Publication.Tests.Recovered.{draft_1}
use work_copilot.Drafts.Tests.{sources_1}

abbrev cited_json : Json
cited_json =
    object (field "text" (text "T") (field "evidenceIds" (array (cons (text "jira:WC-1") nil)) end))

abbrev task_json : Json
task_json = object (
    field "text" (text "T")
      (field "evidenceIds" (array (cons (text "jira:WC-1") nil)) (field "summary" (text "S") end)))

abbrev answer_json : Json
answer_json = object (
    field "schemaVersion" (number 2) (
      field "title" cited_json (
        field "summary" cited_json (
          field "keyPoints" (array (cons cited_json nil)) (
            field "acceptanceCriteria" (array (cons cited_json nil)) (
              field "risks" (array nil) (
                field "nextSteps" (array nil) (
                  field "childTasks" (array (cons task_json nil))
                    (field "excludedEvidence" (array nil) end)))))))))

abbrev masked_json : Json
masked_json = object (field "values" (array (cons (text "A") (cons (text "B") nil))) end)

abbrev service_1 : AiService
service_1 = record {
  api_key = some "k";
  answer_generate = λ instruction evidence. answered answer_json;
  answer_sanitize = λ values. answered masked_json;
  is_secret = λ value. value == "secret";
}

abbrev sent : List WorkBriefEvidenceInput
sent = record { evidence_id = "jira:WC-1"; content = "text" } ∷ []

abbrev cited_item : WorkBriefCitation
cited_item = record { text = "T"; evidence_ids = "jira:WC-1" ∷ [] }

abbrev answer_output : WorkBriefOutput
answer_output = record {
  schema_version = 2;
  title = cited_item;
  summary = cited_item;
  key_points = cited_item ∷ [];
  acceptance_criteria = cited_item ∷ [];
  risks = [];
  next_steps = [];
  child_tasks = record { text = "T"; evidence_ids = "jira:WC-1" ∷ []; summary = "S" } ∷ [];
  excluded_evidence = [];
}

generates : generate_brief service_1 "Write." sent ≡ ok answer_output
unfolding generate_brief assert_safe_request count_evidence work_brief_output work_brief_citation
    work_brief_child_task every_item assert_safe_model_output model_text has_only_requested_evidence
    excludes_once text_length
generates = refl

generate_brief-IsRequested_example : IsRequested (requested_ids sent) answer_output
generate_brief-IsRequested_example = generate_brief-IsRequested service_1 "Write." sent generates

abbrev answer_content : BriefContent
answer_content = brief_from answer_output (
    task_from_ai (decimal 0) (record { text = "T"; evidence_ids = "jira:WC-1" ∷ []; summary = "S" })
    ∷ [])

abbrev drawn_content : Result BriefContent
drawn_content = (content_from_ai outside_1 answer_output world_1).0

draws : drawn_content ≡ ok answer_content
unfolding content_from_ai tasks_from_ai
draws = refl

content_from_ai-Covered_example : evaluate (select_all answer_content) ≡ []
content_from_ai-Covered_example =
    content_from_ai-Covered service_1 "Write." sent outside_1 world_1 generates draws

masks :
    (mask_content (served_by service_1 sources_1) draft_1.masked_brief world_1).0
    ≡ ok (replace_values draft_1.masked_brief ("A" ∷ "B" ∷ []))
unfolding mask_content sanitize_values every_item assert_safe_model_output texts_of text_length
masks = refl

mask_content-IsSafe_example :
    All
      (IsSafe service_1.is_secret)
      (texts_of (replace_values draft_1.masked_brief ("A" ∷ "B" ∷ [])))
    × (replace_values
          (replace_values draft_1.masked_brief ("A" ∷ "B" ∷ []))
          (texts_of draft_1.masked_brief)
        ≡ draft_1.masked_brief)
mask_content-IsSafe_example =
    mask_content-IsSafe service_1 sources_1 draft_1.masked_brief world_1 masks
