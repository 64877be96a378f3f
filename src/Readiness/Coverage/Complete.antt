-- ===== src/Readiness/Coverage/Complete.antt =====
-- readiness-coverage-evaluator.service.ts: what it means that the evaluation finds nothing.
use work_copilot.Base.{
  ℕ, suc, String, Bool, true, List, [], ◌∷◌, ◌==◌, ◌≡◌, ◌↔◌, refl, arith, Memᴰ, is_empty, all,
  eq_iff, any_of_mem, any-witness, and_true, eq_refl, subst, sym, ◌&&◌, any-filter, ◌∙◌, all-mem,
  ap, is_empty-nil, all_of_mem,
}
use work_copilot.Readiness.Coverage.{
  has_id, evaluate_from, evaluate, shares_evidence, has_task, has_criterion,
}
use work_copilot.Brief.Types.{BriefContent, EvidenceCitation, BriefChildTask}

-- A list of evidence that both cite.
abbrev pub Shared : List String → List String → Type 0
Shared left right = (i : String) × Memᴰ i left × Memᴰ i right

-- The requirement is covered by a selected task and by a criterion.
pub record Covered (content : BriefContent) (r : EvidenceCitation) : Type 0 where
  pub tasked :
      (task : BriefChildTask) × Memᴰ task content.child_tasks
      × (task.selected ≡ true)
      × Shared r.evidence_ids task.evidence_ids
  pub verified :
      (criterion : EvidenceCitation) × Memᴰ criterion content.acceptance_criteria
      × Shared r.evidence_ids criterion.evidence_ids

abbrev pub is_covered : BriefContent → EvidenceCitation → Bool
is_covered content r = has_task content r && has_criterion content r

has_id-mem : (ids : List String) (i : String) → has_id ids i ≡ true → Memᴰ i ids
has_id-mem ids i h =
    let (j, m, e) = any-witness (λ j. j == i) ids h in subst (λ k. Memᴰ k ids) ((eq_iff j i).0 e) m

mem-has_id : (ids : List String) (i : String) → Memᴰ i ids → has_id ids i ≡ true
mem-has_id ids i m = any_of_mem (λ j. j == i) ids m (eq_refl i)

shares_evidence-Shared :
    (left right : List String) → shares_evidence left right ≡ true ↔ Shared left right
unfolding shares_evidence
shares_evidence-Shared left right = (
  λ h. let (i, m, e) = any-witness (has_id right) left h in (i, m, has_id-mem right i e),
  λ s. any_of_mem (has_id right) left s.1 (mem-has_id right s.0 s.2),
)

is_covered-Covered :
    (content : BriefContent) (r : EvidenceCitation)
    → is_covered content r ≡ true ↔ Covered content r
is_covered-Covered content r = (
  λ h.
      let (tasks, criteria) = and_true _ _ h in
      let (task, m, both) = any-witness _ content.child_tasks (
        sym (
          any-filter (λ task. shares_evidence r.evidence_ids task.evidence_ids)
            (λ task. task.selected) content.child_tasks)
        ∙ tasks) in
      let (chosen, sharing) = and_true _ _ both in
      let (criterion, n, same) = any-witness _ content.acceptance_criteria criteria in
      record {
        tasked =
            (task, m, chosen, (shares_evidence-Shared r.evidence_ids task.evidence_ids).0 sharing);
        verified =
            (criterion, n, (shares_evidence-Shared r.evidence_ids criterion.evidence_ids).0 same);
      },
  λ c.
      let (task, m, chosen, sharing) = c.tasked in
      let (criterion, n, same) = c.verified in
      let tasks : has_task content r ≡ true =
        any-filter (λ task. shares_evidence r.evidence_ids task.evidence_ids)
          (λ task. task.selected) content.child_tasks
        ∙ any_of_mem _ content.child_tasks m (
            rw (chosen, (shares_evidence-Shared r.evidence_ids task.evidence_ids).1 sharing)
              refl) in
      rw
        (
          tasks,
          any_of_mem _ content.acceptance_criteria n
              ((shares_evidence-Shared r.evidence_ids criterion.evidence_ids).1 same),
        )
        refl,
)

evaluate_from-empty :
    (content : BriefContent) (i : ℕ) (rs : List EvidenceCitation)
    → is_empty (evaluate_from content i rs) ≡ all (is_covered content) rs
unfolding evaluate_from
evaluate_from-empty content i [] = refl
evaluate_from-empty content i (r ∷ rs) = ground (arith, evaluate_from-empty content (suc i) rs)

-- The evaluation finds nothing exactly if every requirement shares evidence with a selected child
-- task and with an acceptance criterion.
pub evaluate-Covered :
    (content : BriefContent)
    → (evaluate content ≡ [])
      ↔ ((r : EvidenceCitation) → Memᴰ r content.requirements → Covered content r)
unfolding evaluate
evaluate-Covered content = (
  λ none_found r m. (is_covered-Covered content r).0 (
      all-mem (is_covered content) content.requirements
        (sym (evaluate_from-empty content 0 content.requirements) ∙ ap is_empty none_found) m),
  λ covered. is_empty-nil _ (
      evaluate_from-empty content 0 content.requirements
      ∙ all_of_mem (is_covered content) content.requirements
          λ r m. (is_covered-Covered content r).1 (covered r m)),
)
