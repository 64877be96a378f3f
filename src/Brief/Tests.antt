-- ===== src/Brief/Tests.antt =====
-- brief-citation-validator.service.ts: a brief with one task.
use work_copilot.Base.{
  trim_start, trim_end, text_length, String, true, none, some, [], ◌∷◌, ◌≡◌, refl, trim,
}
use work_copilot.Brief.Citations.{
  text, array, boolean, field, cons, nil, end, object, Json, validate, citation, citation_of,
  child_task, section, evidence_ids_of, allowed_ids, has_only_keys, is_uuid, uuid_from,
}
use work_copilot.Brief.Citations.Sound.{IsBrief}
use work_copilot.Brief.Types.{EvidenceCitation, BriefContent}
use work_copilot.Brief.Citations.Validated.{validate-IsBrief}
use work_copilot.Failure.{ok}

abbrev cited_json : String → Json
cited_json t =
    object (field "text" (text t) (field "evidenceIds" (array (cons (text "e1") nil)) end))

abbrev task_json : Json
task_json = object (
    field "clientTaskId" (text "12345678-9abc-1def-8123-456789abcdef") (
      field "summary" (text " Do it ") (
        field "selected" (boolean true) (
          field "text" (text "C") (
            field "evidenceIds" (array (cons (text "e1") nil))
              (field "userAuthored" (boolean true) end))))))

abbrev pub brief_json : Json
brief_json = object (
    field "title" (cited_json " T ") (
      field "summary" (cited_json "S") (
        field "requirements" (array (cons (cited_json "R") nil)) (
          field "acceptanceCriteria" (array nil) (
            field "risks" (array nil) (
              field "nextSteps" (array nil)
                (field "childTasks" (array (cons task_json nil)) end)))))))

abbrev about_e1 : String → EvidenceCitation
about_e1 t = record { text = t; evidence_ids = "e1" ∷ []; user_authored = none }

abbrev pub brief : BriefContent
brief = record {
  title = about_e1 "T";
  summary = about_e1 "S";
  requirements = about_e1 "R" ∷ [];
  acceptance_criteria = [];
  risks = [];
  next_steps = [];
  child_tasks =
      record {
        text = "C";
        evidence_ids = "e1" ∷ [];
        user_authored = some true;
        client_task_id = "12345678-9abc-1def-8123-456789abcdef";
        summary = "Do it";
        selected = true;
      }
      ∷ [];
}

pub brief-validated : validate ("e1" ∷ []) brief_json ≡ ok brief
unfolding validate citation citation_of child_task section evidence_ids_of allowed_ids has_only_keys
    is_uuid uuid_from trim trim_start trim_end text_length
brief-validated = refl

validate-IsBrief_example : IsBrief ("e1" ∷ []) brief
validate-IsBrief_example = validate-IsBrief ("e1" ∷ []) brief_json brief brief-validated
