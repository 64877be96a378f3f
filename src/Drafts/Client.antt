-- ===== src/Drafts/Client.antt =====
-- work-brief-ai-client.service.ts: what the drafts' service gets from the model's service. The
-- durations that it records are left out.
pub mod Requested
pub mod Masking
pub mod Backed
use work_copilot.Base.{
  ℕ, ◌+◌, String, Bool, true, false, Option, none, some, List, [], ◌∷◌, ◌++◌, ◌&&◌, ◌||◌, not,
  if◌then◌else◌, ltb, eqb, length, map, all, any, is_empty,
}
use work_copilot.Failure.{Result, ok, err, service_unavailable, other, ◌>>=◌, ◌>>◌}
use work_copilot.Publication.Types.{truthy}
use work_copilot.Brief.Citations.{
  Json, Fields, text, number, array, object, items, property, includes, is_distinct,
}
use work_copilot.Drafts.Types.{
  WorkBriefCitation, WorkBriefChildTaskOutput, WorkBriefExcludedEvidence, WorkBriefOutput,
  WorkBriefEvidenceInput, Sources,
}
use work_copilot.Drafts.Selection.{set_of}
use work_copilot.Drafts.Guard.{assert_safe_request, assert_safe_model_output}

abbrev pub work_brief_schema_version : ℕ
work_brief_schema_version = 2

-- `fetch` throws, or the status is not ok, or the body is no JSON.
pub data Reply : Type 0 where
  unreachable refused garbled : Reply
  answered : Json → Reply

-- The service with its key, and the patterns of sensitive texts.
pub record AiService : Type 0 where
  pub api_key : Option String
  pub answer_generate : String → List WorkBriefEvidenceInput → Reply
  pub answer_sanitize : List String → Reply
  pub is_secret : String → Bool

-- A payload that is not of the type.
abbrev pub invalid_response : {A : Type 0} → Result A
invalid_response = err (other "invalid work brief response")

abbrev pub text_value : Option Json → Result String
text_value (some (text t)) = ok t
text_value _ = invalid_response

-- `Array.isArray(value) && value.every(…)`, with the value of each item.
unfoldable pub every_item : {A : Type 0} → (Json → Result A) → List Json → Result (List A)
every_item f [] = ok []
every_item f (j ∷ js) = do a ← f j; rest ← every_item f js; ok (a ∷ rest)

abbrev pub array_value : {A : Type 0} → (Json → Result A) → Option Json → Result (List A)
array_value f (some (array js)) = every_item f (items js)
array_value f _ = invalid_response

abbrev pub string_item : Json → Result String
string_item j = text_value (some j)

-- `isCitation`
unfoldable pub work_brief_citation : Json → Result WorkBriefCitation
unfolding every_item
work_brief_citation (object fs) = do
  t ← text_value (property "text" fs)
  is ← array_value string_item (property "evidenceIds" fs)
  ok (record { text = t; evidence_ids = is })
work_brief_citation _ = invalid_response

unfoldable pub work_brief_child_task : Json → Result WorkBriefChildTaskOutput
unfolding every_item
work_brief_child_task (object fs) = do
  t ← text_value (property "text" fs)
  is ← array_value string_item (property "evidenceIds" fs)
  summary ← text_value (property "summary" fs)
  ok (record { text = t; evidence_ids = is; summary = summary })
work_brief_child_task _ = invalid_response

-- `isExcludedEvidence`
unfoldable pub excluded_evidence : Json → Result WorkBriefExcludedEvidence
excluded_evidence (object fs) = do
  i ← text_value (property "evidenceId" fs)
  reason ← text_value (property "reason" fs)
  ok (record { evidence_id = i; reason = reason })
excluded_evidence _ = invalid_response

abbrev pub is_current_schema : Option Json → Bool
is_current_schema (some (number n)) = eqb n work_brief_schema_version
is_current_schema _ = false

abbrev pub citation_value : Option Json → Result WorkBriefCitation
citation_value (some j) = work_brief_citation j
citation_value none = invalid_response

-- `isWorkBriefOutput`
unfoldable pub work_brief_output : Json → Result WorkBriefOutput
unfolding every_item
work_brief_output (object fs) = do
  (if is_current_schema (property "schemaVersion" fs) then ok tt else invalid_response)
  title ← citation_value (property "title" fs)
  summary ← citation_value (property "summary" fs)
  key_points ← array_value work_brief_citation (property "keyPoints" fs)
  acceptance_criteria ← array_value work_brief_citation (property "acceptanceCriteria" fs)
  risks ← array_value work_brief_citation (property "risks" fs)
  next_steps ← array_value work_brief_citation (property "nextSteps" fs)
  child_tasks ← array_value work_brief_child_task (property "childTasks" fs)
  excluded ← array_value excluded_evidence (property "excludedEvidence" fs)
  ok (record {
    schema_version = work_brief_schema_version;
    title = title;
    summary = summary;
    key_points = key_points;
    acceptance_criteria = acceptance_criteria;
    risks = risks;
    next_steps = next_steps;
    child_tasks = child_tasks;
    excluded_evidence = excluded;
  })
work_brief_output _ = invalid_response

abbrev pub output_text : WorkBriefCitation → String
output_text c = c.text

abbrev pub task_output_texts : List WorkBriefChildTaskOutput → List String
task_output_texts [] = []
task_output_texts (t ∷ ts) = t.summary ∷ t.text ∷ task_output_texts ts

abbrev pub reason_of : WorkBriefExcludedEvidence → String
reason_of e = e.reason

unfoldable pub model_text : WorkBriefOutput → List String
model_text o =
    o.title.text
    ∷ o.summary.text
    ∷ (map output_text (o.key_points ++ (o.acceptance_criteria ++ (o.risks ++ o.next_steps)))
        ++ (task_output_texts o.child_tasks ++ map reason_of o.excluded_evidence))

abbrev pub task_output_citation : WorkBriefChildTaskOutput → WorkBriefCitation
task_output_citation t = record { text = t.text; evidence_ids = t.evidence_ids }

abbrev pub output_citations : WorkBriefOutput → List WorkBriefCitation
output_citations o =
    o.title
    ∷ o.summary
    ∷ (o.key_points
        ++ (o.acceptance_criteria
            ++ (o.risks ++ (o.next_steps ++ map task_output_citation o.child_tasks))))

abbrev pub requested_id : WorkBriefEvidenceInput → String
requested_id e = e.evidence_id

abbrev pub cites_requested : List String → WorkBriefCitation → Bool
cites_requested requested c =
    not (is_empty c.evidence_ids)
    && is_distinct c.evidence_ids
    && all (includes requested) c.evidence_ids

abbrev pub cited_ids : List WorkBriefCitation → List String
cited_ids [] = []
cited_ids (c ∷ cs) = c.evidence_ids ++ cited_ids cs

-- An evidence is not excluded twice, nor cited and excluded.
unfoldable pub excludes_once :
    List String → List String → List String → List WorkBriefExcludedEvidence → Bool
excludes_once requested cited seen [] = true
excludes_once requested cited seen (e ∷ es) =
    let rest = excludes_once requested cited (e.evidence_id ∷ seen) es in
    includes requested e.evidence_id
    && not (includes cited e.evidence_id)
    && not (includes seen e.evidence_id)
    && rest

abbrev pub excluded_id : WorkBriefExcludedEvidence → String
excluded_id e = e.evidence_id

abbrev pub cites_all : List String → WorkBriefCitation → Bool
cites_all requested c =
    eqb (length (set_of c.evidence_ids)) (length requested)
    && all (includes c.evidence_ids) requested

abbrev pub shares : List String → List String → Bool
shares requirement is = any (includes requirement) is

abbrev pub is_backed : WorkBriefOutput → WorkBriefCitation → Bool
is_backed o requirement =
    any (λ c. shares requirement.evidence_ids c.evidence_ids) o.acceptance_criteria
    && any (λ t. shares requirement.evidence_ids t.evidence_ids) o.child_tasks

unfoldable pub has_only_requested_evidence : WorkBriefOutput → List WorkBriefEvidenceInput → Bool
unfolding excludes_once
has_only_requested_evidence o evidence =
    let requested = set_of (map requested_id evidence) in
    let cited = cited_ids (output_citations o) in
    let excluded = map excluded_id o.excluded_evidence in
    all (cites_requested requested) (output_citations o)
    && (not (is_empty cited)
        && (excludes_once requested cited [] o.excluded_evidence
            && (all (λ i. includes cited i || includes excluded i) requested
                && (not (ltb 1 (length requested) && all (cites_all requested) (output_citations o))
                    && all (is_backed o) o.key_points))))

abbrev pub unavailable : {A : Type 0} → String → Result A
unavailable message = err (service_unavailable message)

-- The answer's JSON. Without a key there is no request.
abbrev pub received : String → Option String → Reply → Result Json
received message key (answered j) = if truthy key then ok j else unavailable message
received message key _ = unavailable message

-- `catch { … throw new ServiceUnavailableException(message) }`
abbrev pub or_unavailable : {A : Type 0} → String → Result A → Result A
or_unavailable message (ok a) = ok a
or_unavailable message (err e) = unavailable message

-- `isSanitizedValues`
abbrev pub sanitized_values : ℕ → Json → Result (List String)
sanitized_values expected (object fs) = do
  values ← array_value string_item (property "values" fs)
  (if eqb (length values) expected then ok values else invalid_response)
sanitized_values expected _ = invalid_response

module _ (a : AiService) where
  abbrev pub accept_output : Json → List WorkBriefEvidenceInput → Result WorkBriefOutput
  accept_output payload evidence = do
    output ← work_brief_output payload
    assert_safe_model_output a.is_secret (model_text output)
    (if has_only_requested_evidence output evidence
        then ok output
        else err (other "invalid work brief evidence"))

  unfoldable pub generate_brief : String → List WorkBriefEvidenceInput → Result WorkBriefOutput
  generate_brief instruction evidence = do
    assert_safe_request a.is_secret instruction evidence
    payload ←
        received "Work brief AI service is unavailable." a.api_key
          (a.answer_generate instruction evidence)
    or_unavailable "Work brief AI service is unavailable." (accept_output payload evidence)

  abbrev pub accept_values : ℕ → Json → Result (List String)
  accept_values expected payload = do
    values ← sanitized_values expected payload
    assert_safe_model_output a.is_secret values
    ok values

  unfoldable pub sanitize_values : List String → Result (List String)
  unfolding every_item
  sanitize_values values = do
    assert_safe_model_output a.is_secret values
    payload ← received "Work brief DLP service is unavailable." a.api_key (a.answer_sanitize values)
    or_unavailable "Work brief DLP service is unavailable." (accept_values (length values) payload)

-- The drafts' service with this client.
abbrev pub served_by : AiService → Sources → Sources
served_by a s = record s { generate = generate_brief a; sanitize = sanitize_values a }
