-- ===== src/Drafts/Content.antt =====
-- work-briefs.service.ts: the content of a brief, as the model returns it and as it is masked.
pub mod Masked
use work_copilot.Base.{
  ℕ, zero, suc, ◌+◌, String, Bool, true, false, Option, none, some, List, [], ◌∷◌, ◌++◌, ◌==◌, map,
  any, if◌then◌else◌, get_or, length,
}
use work_copilot.Publication.World.{Outside}
use work_copilot.Publication.World.Program.{Program, ◌>>=◌, ◌>>◌, pure, random_uuid, modify, lift}
use work_copilot.Brief.Types.{
  EvidenceCitation, BriefChildTask, BriefContent, StoredBriefEvidence, AiStatus,
}
use work_copilot.Brief.Citations.{includes}
use work_copilot.Drafts.Types.{
  NormalizedEvidence, TransientEvidence, WorkBriefCitation, WorkBriefChildTaskOutput,
  WorkBriefExcludedEvidence, WorkBriefOutput, Sources, Wait, for_masking,
}

-- A child task is a citation with more properties.
abbrev pub task_citation : BriefChildTask → EvidenceCitation
task_citation t = record {
  text = t.text;
  evidence_ids = t.evidence_ids;
  user_authored = t.user_authored;
}

abbrev pub all_citations : BriefContent → List EvidenceCitation
all_citations c =
    c.title
    ∷ c.summary
    ∷ (c.requirements
        ++ (c.acceptance_criteria
            ++ (c.risks ++ (c.next_steps ++ map task_citation c.child_tasks))))

abbrev pub citation_from_ai : WorkBriefCitation → EvidenceCitation
citation_from_ai item = record {
  text = item.text;
  evidence_ids = item.evidence_ids;
  user_authored = none;
}

-- The server draws the identifier, and no task is selected.
abbrev pub task_from_ai : String → WorkBriefChildTaskOutput → BriefChildTask
task_from_ai i item = record {
  text = item.text;
  evidence_ids = item.evidence_ids;
  user_authored = none;
  client_task_id = i;
  summary = item.summary;
  selected = false;
}

unfoldable pub tasks_from_ai :
    Outside → List WorkBriefChildTaskOutput → Program (List BriefChildTask)
tasks_from_ai o [] = pure []
tasks_from_ai o (item ∷ items) = do
  i ← random_uuid o
  tasks ← tasks_from_ai o items
  pure (task_from_ai i item ∷ tasks)

abbrev pub brief_from : WorkBriefOutput → List BriefChildTask → BriefContent
brief_from output tasks = record {
  title = citation_from_ai output.title;
  summary = citation_from_ai output.summary;
  requirements = map citation_from_ai output.key_points;
  acceptance_criteria = map citation_from_ai output.acceptance_criteria;
  risks = map citation_from_ai output.risks;
  next_steps = map citation_from_ai output.next_steps;
  child_tasks = tasks;
}

unfoldable pub content_from_ai : Outside → WorkBriefOutput → Program BriefContent
unfolding tasks_from_ai
content_from_ai o output = do
  tasks ← tasks_from_ai o output.child_tasks
  pure (brief_from output tasks)

abbrev pub cites : String → EvidenceCitation → Bool
cites i c = includes c.evidence_ids i

-- `new Map(…).get(…)`: the last reason of an identifier counts.
abbrev pub exclusion_reason : String → List WorkBriefExcludedEvidence → Option String
exclusion_reason i [] = none
exclusion_reason i (item ∷ items) = elim (exclusion_reason i items) [
  | some reason ↦ some reason
  | none ↦ if item.evidence_id == i then some item.reason else none
]

abbrev pub stored_evidence : NormalizedEvidence → AiStatus → Option String → StoredBriefEvidence
stored_evidence e status reason = record {
  id = e.id;
  provider = e.provider;
  source_id = e.source_id;
  url = e.url;
  title = e.title;
  version = e.version;
  excerpt_length = e.excerpt_length;
  ai_status = status;
  ai_exclusion_reason = reason;
}

abbrev pub evidence_status :
    WorkBriefOutput → BriefContent → TransientEvidence → StoredBriefEvidence
evidence_status output content item =
    if any (cites item.evidence.id) (all_citations content)
    then stored_evidence item.evidence AiStatus.included none
    else stored_evidence item.evidence AiStatus.excluded
        (exclusion_reason item.evidence.id output.excluded_evidence)

unfoldable pub evidence_from_ai :
    List TransientEvidence → WorkBriefOutput → BriefContent → List StoredBriefEvidence
evidence_from_ai selected output content = map (evidence_status output content) selected

-- `maskedValues[index++]`; past the end the value is undefined, which no list that the client
-- returns reaches.
abbrev pub value_at : ℕ → List String → String
value_at n [] = ""
value_at zero (v ∷ vs) = v
value_at (suc n) (v ∷ vs) = value_at n vs

abbrev pub replace_citation : List String → ℕ → EvidenceCitation → EvidenceCitation
replace_citation values index c = record c { text = value_at index values }

unfoldable pub replace_from : List String → ℕ → List EvidenceCitation → List EvidenceCitation
replace_from values index [] = []
replace_from values index (c ∷ cs) =
    replace_citation values index c ∷ replace_from values (suc index) cs

-- The text of a task stands at the running index, and its summary at the offset.
unfoldable pub replace_tasks : List String → ℕ → ℕ → List BriefChildTask → List BriefChildTask
replace_tasks values index offset [] = []
replace_tasks values index offset (t ∷ ts) =
    record t { text = value_at index values; summary = value_at offset values }
    ∷ replace_tasks values (suc index) (suc offset) ts

unfoldable pub replace_values : BriefContent → List String → BriefContent
unfolding replace_from replace_tasks
replace_values c values =
    let requirements : ℕ = 2 in
    let criteria = requirements + length c.requirements in
    let risks = criteria + length c.acceptance_criteria in
    let steps = risks + length c.risks in
    let tasks = steps + length c.next_steps in
    record {
      title = replace_citation values 0 c.title;
      summary = replace_citation values 1 c.summary;
      requirements = replace_from values requirements c.requirements;
      acceptance_criteria = replace_from values criteria c.acceptance_criteria;
      risks = replace_from values risks c.risks;
      next_steps = replace_from values steps c.next_steps;
      child_tasks = replace_tasks values tasks (length (all_citations c)) c.child_tasks;
    }

abbrev pub citation_text : EvidenceCitation → String
citation_text c = c.text

abbrev pub task_summary : BriefChildTask → String
task_summary t = t.summary

-- The values that are masked: the text of every citation, and then the summaries of the tasks.
unfoldable pub texts_of : BriefContent → List String
texts_of c = map citation_text (all_citations c) ++ map task_summary c.child_tasks

-- Other requests run while this one waits.
abbrev pub elsewhere : Sources → Wait → Program (Unit {0})
elsewhere s wait = modify (s.meanwhile wait)

unfoldable pub mask_content : Sources → BriefContent → Program BriefContent
mask_content s c = do
  elsewhere s for_masking
  values ← lift (s.sanitize (texts_of c))
  pure (replace_values c values)
