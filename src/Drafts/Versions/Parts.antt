-- ===== src/Drafts/Versions/Parts.antt =====
-- work-briefs.service.ts: under every sequence of calls, each draft gets later.
use work_copilot.Base.{
  String, Option, none, some, List, [], ◌∷◌, refl, starts_with, not, is_empty, filter, eqb, length,
}
use work_copilot.Publication.World.{World, Outside}
use work_copilot.Drafts.Types.{
  WorkBriefChildTaskOutput, WorkBriefOutput, JiraDraftContext, TransientEvidence,
  ConfluenceDraftContext,
}
use work_copilot.Drafts.Versions.{
  Advances, bind-Advances, Advances-refl, Advances-from, require-Advances, if-Advances,
}
use work_copilot.Drafts.Selection.{
  split_ids, selected_jira_evidence, chosen, selected_confluence_evidence, selected_evidence_ids,
  set_of, invalid_selection,
}
use work_copilot.Publication.Service.Queries.{assess_draft_deletion}
use work_copilot.Drafts.Content.{content_from_ai, tasks_from_ai}
use work_copilot.Drafts.Commands.{assert_publication_safety}
use work_copilot.Publication.World.Program.{require, random_uuid, pure}
use work_copilot.Brief.Citations.{is_distinct, includes}
use work_copilot.Failure.{conflict}

tasks_from_ai-Advances :
    (o : Outside) (items : List WorkBriefChildTaskOutput) (w : World)
    → Advances w (tasks_from_ai o items w).1
unfolding tasks_from_ai
tasks_from_ai-Advances o [] w = Advances-refl w
tasks_from_ai-Advances o (item ∷ items) w =
    let v = (random_uuid o w).1 in
    Advances-from w v _ refl (
      bind-Advances (tasks_from_ai o items) _ v (tasks_from_ai-Advances o items v)
        λ tasks. Advances-refl)

pub content_from_ai-Advances :
    (o : Outside) (output : WorkBriefOutput) (w : World) → Advances w (content_from_ai o output w).1
unfolding content_from_ai
content_from_ai-Advances o output w =
    bind-Advances (tasks_from_ai o output.child_tasks) _ w
      (tasks_from_ai-Advances o output.child_tasks w) λ tasks. Advances-refl

assess-Advances : (i : String) (w : World) → Advances w (assess_draft_deletion i w).1
unfolding assess_draft_deletion
assess-Advances i w = Advances-refl w

pub assert_publication_safety-Advances :
    (i : String) (w : World) → Advances w (assert_publication_safety i w).1
unfolding assert_publication_safety
assert_publication_safety-Advances i w =
    bind-Advances (assess_draft_deletion i) _ w (assess-Advances i w) λ a v.
      bind-Advances (require (not a.publishing) (conflict "PUBLICATION_IN_PROGRESS")) _ v
        (require-Advances _ _ v) λ done. require-Advances _ _

split_ids-Advances : (is : List String) (w : World) → Advances w (split_ids is w).1
unfolding split_ids
split_ids-Advances [] w = Advances-refl w
split_ids-Advances (i ∷ is) w =
    let rest = split_ids-Advances is w in
    if-Advances (starts_with "jira:" i) _ _ w
      (bind-Advances (split_ids is) _ w rest λ ids. Advances-refl)
      (if-Advances (starts_with "confluence:" i) _ _ w
        (bind-Advances (split_ids is) _ w rest λ ids. Advances-refl) (Advances-refl w))

pub selected_evidence_ids-Advances :
    (is : List String) (w : World) → Advances w (selected_evidence_ids is w).1
unfolding selected_evidence_ids
selected_evidence_ids-Advances is w =
    if-Advances (is_distinct is) _ _ w (split_ids-Advances is w) (Advances-refl w)

chosen-Advances :
    (is : List String) (items : List TransientEvidence) (w : World)
    → Advances w (chosen is items w).1
unfolding chosen
chosen-Advances is items w =
    let selected = filter (λ item. includes is item.evidence.id) items in
    if-Advances (eqb (length selected) (length (set_of is))) (pure selected) invalid_selection w
      (Advances-refl w) (Advances-refl w)

pub selected_jira_evidence-Advances :
    (context : JiraDraftContext) (is : List String) (w : World)
    → Advances w (selected_jira_evidence context is w).1
unfolding selected_jira_evidence
selected_jira_evidence-Advances context is w =
    bind-Advances (require _ _) _ w (require-Advances _ _ w)
      λ done. chosen-Advances is context.evidence

pub selected_confluence_evidence-Advances :
    (jira : JiraDraftContext) (context : Option ConfluenceDraftContext) (is : List String)
    (w : World)
    → Advances w (selected_confluence_evidence jira context is w).1
unfolding selected_confluence_evidence
selected_confluence_evidence-Advances jira none is w =
    if-Advances (is_empty is) _ _ w (Advances-refl w) (Advances-refl w)
selected_confluence_evidence-Advances jira (some context) is w =
    if-Advances (is_empty is) _ _ w (Advances-refl w) (
      bind-Advances (require _ _) _ w (require-Advances _ _ w)
        λ done. chosen-Advances is context.evidence)
