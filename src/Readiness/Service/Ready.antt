-- ===== src/Readiness/Service/Ready.antt =====
-- readiness.service.ts: what it takes that a draft may be published.
use work_copilot.Base.{
  ℕ, String, Bool, true, false, Option, none, some, List, [], ◌∷◌, ◌++◌, ◌≡◌, ap, ◌∙◌, arith, not,
  any, map, if◌then◌else◌,
}
use work_copilot.Failure.{Result, ok, then_ok, passed}
use work_copilot.Publication.World.{World}
use work_copilot.Publication.Service.Store.{owned_draft}
use work_copilot.Brief.Types.{WorkBriefDraft}
use work_copilot.Drafts.Types.{ConfluenceEvidenceContext}
use work_copilot.Drafts.Selection.{is_accessible, same_text}
use work_copilot.Drafts.Refresh.{pages_inaccessible}
use work_copilot.Readiness.Coverage.{ReadinessFindingCode, evaluate}
use work_copilot.Readiness.Coverage.Complete.{evaluate-Covered}
use work_copilot.Readiness.Findings.{
  JiraReadinessContext, findings_for, status_for_findings, source_findings, freshness_findings,
  evidence_findings, dependency_finding, create_metadata_findings, is_ready, issue_unread,
  blocking_finding,
}
use work_copilot.Readiness.Service.{
  assert_draft_publish_allowed, assess_draft, collect_readiness_pages, found_draft, assessment_row,
  assessment_view, store_assessment, ReadinessAssessmentView, ReadinessSources, ReadinessAssessment,
  task_selected,
}
use work_copilot.Readiness.Service.Found.{
  append-empty, map-empty, status_for_findings-empty, unique_findings-empty, same_text-some,
  accessible_of, fresh_of, none_found, not-false, evidence_findings-empty, metadata-HasFields,
  pages-readable, IsReady,
}

issue_read :
    (context : JiraReadinessContext)
    → issue_unread context ≡ false
    → is_accessible context.access_status ≡ true
issue_read context h = ground arith

when_true : {A : Type 0} (b : Bool) {xs : List A} → b ≡ true → (if b then xs else []) ≡ [] → xs ≡ []
when_true true e h = h
when_true false e h = cc

-- Where nothing is found the draft is ready.
findings_for-IsReady :
    (d : WorkBriefDraft) (context : JiraReadinessContext) (pages : Option ConfluenceEvidenceContext)
    → findings_for d context pages (any task_selected d.masked_brief.child_tasks) ≡ []
    → IsReady d context pages
unfolding findings_for source_findings
findings_for-IsReady d context pages h =
    let selected = any task_selected d.masked_brief.child_tasks in
    let lost = blocking_finding ReadinessFindingCode.access_changed in
    let created =
      if selected
      then create_metadata_findings context.child_task_template context.create_metadata
      else [] in
    let found =
      evidence_findings d context pages
      ++ (map dependency_finding context.dependencies ++ created) in
    let other_issue = not (same_text context.source_jira_id (some d.source_jira_id)) in
    let other_profile = not (same_text context.profile_id (some d.profile_id)) in
    let hidden = pages_inaccessible d pages in
    let below = if hidden then lost ∷ [] else found in
    let beside = if other_issue then lost ∷ [] else below in
    let moved = blocking_finding ReadinessFindingCode.profile_changed in
    let all_empty = unique_findings-empty _ h in
    let (covered, rest) = append-empty (evaluate d.masked_brief) _ all_empty in
    let (fresh, sources) = append-empty (freshness_findings d.freshness_status) _ rest in
    let (read, h1) =
      none_found (issue_unread context) lost (if other_profile then moved ∷ [] else beside)
        sources in
    let (at_profile, h2) = none_found other_profile moved beside h1 in
    let (at_issue, h3) = none_found other_issue lost below h2 in
    let (seen, h4) = none_found hidden lost found h3 in
    let (evidence, h5) = append-empty (evidence_findings d context pages) _ h4 in
    let (dependencies, creates) =
      append-empty (map dependency_finding context.dependencies) created h5 in
    let (version, versions) = evidence_findings-empty d context pages evidence in
    record {
      covered = (evaluate-Covered d.masked_brief).0 covered;
      fresh = fresh_of d.freshness_status fresh;
      readable = accessible_of context.access_status (issue_read context read);
      same_profile = same_text-some context.profile_id d.profile_id (not-false at_profile);
      same_issue = same_text-some context.source_jira_id d.source_jira_id (not-false at_issue);
      same_version = version;
      pages_readable = pages-readable d pages seen;
      evidence_current = versions;
      unblocked = map-empty dependency_finding context.dependencies dependencies;
      creatable = λ some_task.
          metadata-HasFields context.child_task_template context.create_metadata
            (when_true selected some_task creates);
    }

found_draft-some :
    (o : Option WorkBriefDraft) {d : WorkBriefDraft} → found_draft o ≡ ok d → o ≡ some d
found_draft-some none h = cc
found_draft-some (some d) h = cc h

allowed_of :
    (p q : ReadinessAssessmentView × List ReadinessAssessment)
    → ◌≡◌ {A = Result (ReadinessAssessmentView × List ReadinessAssessment)} (ok p) (ok q)
    → q.0.publish_allowed ≡ true
    → p.0.publish_allowed ≡ true
allowed_of p q h k =
    let e : p ≡ q = cc h in
    ap (λ (r : ReadinessAssessmentView × List ReadinessAssessment). r.0.publish_allowed) e ∙ k

-- The gate before a publication opens only for a live draft of the caller that is ready: its
-- requirements are covered, it waits for no review, its issue and its pages can be read from its
-- profile, they and each of its evidence stand at the stored versions, no other issue blocks it, and
-- if child tasks are selected every field that they need is there.
pub assert_draft_publish_allowed-IsReady :
    (s : ReadinessSources) (user : ℕ) (i correlation : String) (now : ℕ)
    (table : List ReadinessAssessment) (w : World) {stored : List ReadinessAssessment}
    → assert_draft_publish_allowed s user i correlation now table w ≡ ok stored
    → (d : WorkBriefDraft) × (owned_draft user i w ≡ some d)
      × (context : JiraReadinessContext) × (s.collect_readiness_context user d.source_jira_key
            correlation
            (any task_selected d.masked_brief.child_tasks)
          ≡ ok context)
      × (pages : Option ConfluenceEvidenceContext) × (collect_readiness_pages s user d context
            correlation
          ≡ ok pages)
      × IsReady d context pages
unfolding assert_draft_publish_allowed assess_draft
assert_draft_publish_allowed-IsReady s user i correlation now table w h =
    let (assessed, h0, gate) = then_ok (assess_draft s user i correlation now table w) _ h in
    let (allowed, _) = passed assessed.0.publish_allowed assessed.1 _ gate in
    let (d, found, h1) = then_ok (found_draft (owned_draft user i w)) _ h0 in
    let selected = any task_selected d.masked_brief.child_tasks in
    let (context, read, h2) =
      then_ok (s.collect_readiness_context user d.source_jira_key correlation selected) _ h1 in
    let (pages, pages_read, h3) =
      then_ok (collect_readiness_pages s user d context correlation) _ h2 in
    let findings = findings_for d context pages selected in
    let ready : is_ready (status_for_findings findings) ≡ true =
      allowed_of
        (
          assessment_view d (status_for_findings findings) findings context now,
          store_assessment (assessment_row d (status_for_findings findings) findings now) table,
        )
        assessed h3 allowed in
    (
      d,
      found_draft-some (owned_draft user i w) found,
      context,
      read,
      pages,
      pages_read,
      findings_for-IsReady d context pages (status_for_findings-empty findings ready),
    )
