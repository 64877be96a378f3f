-- ===== src/Drafts/Client/Backed.antt =====
-- work-brief-ai-client.service.ts, work-briefs.service.ts and
-- ../readiness/readiness-coverage-evaluator.service.ts: a generated brief can be made ready.
use work_copilot.Base.{
  String, true, List, [], ◌∷◌, ◌≡◌, refl, sym, ap, ◌∙◌, Memᴰ, map, map-mem, mem-map, subst,
}
use work_copilot.Failure.{ok}
use work_copilot.Publication.World.{World, Outside}
use work_copilot.Publication.World.Program.{bind_ok, random_uuid, pure}
use work_copilot.Brief.Types.{BriefContent, BriefChildTask, EvidenceCitation}
use work_copilot.Readiness.Coverage.{evaluate}
use work_copilot.Readiness.Coverage.Complete.{evaluate-Covered}
use work_copilot.Drafts.Types.{WorkBriefChildTaskOutput, WorkBriefOutput, WorkBriefEvidenceInput}
use work_copilot.Drafts.Content.{
  brief_from, citation_from_ai, task_from_ai, tasks_from_ai, content_from_ai,
}
use work_copilot.Drafts.Client.{AiService, generate_brief}
use work_copilot.Drafts.Client.Requested.{generate_brief-IsRequested}

-- The owner has selected every child task.
abbrev pub select : BriefChildTask → BriefChildTask
select t = record t { selected = true }

abbrev pub select_all : BriefContent → BriefContent
select_all c = record c { child_tasks = map select c.child_tasks }

-- Every task of the output has its task in the brief, with the same evidence.
tasks_from_ai-mem :
    (o : Outside) (items : List WorkBriefChildTaskOutput) (w : World) {tasks : List BriefChildTask}
    → (tasks_from_ai o items w).0 ≡ ok tasks
    → (t : WorkBriefChildTaskOutput) → Memᴰ t items
    → (task : BriefChildTask) × Memᴰ task tasks × (task.evidence_ids ≡ t.evidence_ids)
unfolding tasks_from_ai
tasks_from_ai-mem o [] w h t m = elim m [ ]
tasks_from_ai-mem o (item ∷ items) w {tasks} h t m =
    let i = o.uuid w.drawn in
    let v = (random_uuid o w).1 in
    let (rest, read, h1, _) =
      bind_ok (tasks_from_ai o items v) (λ ts. pure (task_from_ai i item ∷ ts)) h in
    let whole : task_from_ai i item ∷ rest ≡ tasks = cc h1 in
    let found : (task : BriefChildTask) × Memᴰ task (task_from_ai i item ∷ rest)
        × (task.evidence_ids ≡ t.evidence_ids) =
      elim m [
        | Memᴰ.head e ↦ (
          task_from_ai i item,
          Memᴰ.head refl,
          ap (λ (u : WorkBriefChildTaskOutput). u.evidence_ids) (sym e),
        )
        | Memᴰ.tail n ↦
            let (task, k, same) = tasks_from_ai-mem o items v read t n in (task, Memᴰ.tail k, same)
      ] in
    subst (λ ts. (task : BriefChildTask) × Memᴰ task ts × (task.evidence_ids ≡ t.evidence_ids))
      whole found

-- What a brief takes from the output, section by section.
content_from_ai-sections :
    (o : Outside) (output : WorkBriefOutput) (w : World) {content : BriefContent}
    → (content_from_ai o output w).0 ≡ ok content
    → (content.requirements ≡ map citation_from_ai output.key_points)
      × (content.acceptance_criteria ≡ map citation_from_ai output.acceptance_criteria)
      × ((tasks_from_ai o output.child_tasks w).0 ≡ ok content.child_tasks)
unfolding content_from_ai
content_from_ai-sections o output w {content = content} h =
    let (tasks, read, h1, _) = bind_ok (tasks_from_ai o output.child_tasks w) _ h in
    let e : brief_from output tasks ≡ content = cc h1 in
    (
      ap (λ (c : BriefContent). c.requirements) (sym e),
      ap (λ (c : BriefContent). c.acceptance_criteria) (sym e),
      read ∙ ap (λ (c : BriefContent). ok c.child_tasks) e,
    )

-- A brief that comes from an output of this client has no gap in its coverage as soon as its owner
-- has selected every child task: the evaluation of the readiness finds nothing.
pub content_from_ai-Covered :
    (a : AiService) (instruction : String) (evidence : List WorkBriefEvidenceInput) (o : Outside)
    (w : World) {output : WorkBriefOutput} {content : BriefContent}
    → generate_brief a instruction evidence ≡ ok output
    → (content_from_ai o output w).0 ≡ ok content
    → evaluate (select_all content) ≡ []
content_from_ai-Covered a instruction evidence o w {output} {content} h k =
    let requested = generate_brief-IsRequested a instruction evidence h in
    let (requirements, criteria, tasks) = content_from_ai-sections o output w k in
    (evaluate-Covered (select_all content)).1 λ r m.
      let (key, n, same) =
        mem-map citation_from_ai output.key_points (subst (Memᴰ r) requirements m) in
      let (c, at_c, (i, here, there)) = requested.criteria key n in
      let (t, at_t, (j, left, right)) = requested.tasks key n in
      let (task, at_task, ids) = tasks_from_ai-mem o output.child_tasks w tasks t at_t in
      let evidence_of_r : key.evidence_ids ≡ r.evidence_ids =
        ap (λ (e : EvidenceCitation). e.evidence_ids) (sym same) in
      record {
        tasked = (
          select task,
          map-mem select content.child_tasks at_task,
          refl,
          (j, subst (Memᴰ j) evidence_of_r left, subst (Memᴰ j) (sym ids) right),
        );
        verified = (
          citation_from_ai c,
          subst (Memᴰ (citation_from_ai c)) (sym criteria)
              (map-mem citation_from_ai output.acceptance_criteria at_c),
          (i, subst (Memᴰ i) evidence_of_r here, there),
        );
      }
