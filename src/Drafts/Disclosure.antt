-- ===== src/Drafts/Disclosure.antt =====
-- work-briefs.service.ts: a draft whose sources are lost shows nothing of them; and what the model
-- has cited counts as included.
use work_copilot.Base.{
  Option, none, List, [], ◌∷◌, ◌≡◌, refl, inl, inr, any, map, Memᴰ, mem-map, Bool-cases, sym, ◌∙◌,
  ◌↔◌, subst,
}
use work_copilot.Brief.Types.{
  WorkBriefDraft, BriefContent, StoredBriefEvidence, DraftFreshnessStatus, included, excluded,
}
use work_copilot.Drafts.Types.{BriefDraftPublicationSummary, TransientEvidence, WorkBriefOutput}
use work_copilot.Drafts.Content.{
  evidence_from_ai, all_citations, cites, evidence_status, stored_evidence, exclusion_reason,
}
use work_copilot.Drafts.Present.{present_draft, present_summary, visibility}
use work_copilot.Drafts.Cited.{CitedIn, all_citations-CitedIn}

-- Two drafts whose access is lost, and which differ only in what was read from the sources, look
-- the same: neither the view nor the row of the list lets anything through of the brief, its title,
-- the evidence or its count.
pub present-undisclosed :
    (d : WorkBriefDraft) (content : BriefContent) (evidence : List StoredBriefEvidence)
    (publication : Option BriefDraftPublicationSummary)
    → d.freshness_status ≡ DraftFreshnessStatus.access_changed
    → (present_draft (record d { masked_brief = content; evidence = evidence }) ≡ present_draft d)
      × (present_summary (record d { masked_brief = content; evidence = evidence }) publication
          ≡ present_summary d publication)
unfolding present_draft present_summary visibility
present-undisclosed d content evidence publication h = (rw h refl, rw h refl)

-- What one evidence counts as.
abbrev Counted : BriefContent → StoredBriefEvidence → Type 0
Counted content e =
    ((e.ai_status ≡ included) ↔ CitedIn e.id content)
    × (e.ai_status ≡ included → e.ai_exclusion_reason ≡ none)

evidence_status-Counted :
    (output : WorkBriefOutput) (content : BriefContent) (item : TransientEvidence)
    → ((evidence_status output content item).id ≡ item.evidence.id)
      × Counted content (evidence_status output content item)
evidence_status-Counted output content item =
    let known = all_citations-CitedIn item.evidence.id content in
    let P = λ (x : StoredBriefEvidence). (x.id ≡ item.evidence.id) × Counted content x in
    elim (Bool-cases (any (cites item.evidence.id) (all_citations content))) [
      | inl e ↦
          let status : stored_evidence item.evidence included none
              ≡ evidence_status output content item =
            rw e refl in
          subst P status (refl, (((λ h. known.0 e), (λ h. refl)), λ h. refl))
      | inr e ↦
          let reason = exclusion_reason item.evidence.id output.excluded_evidence in
          let status : stored_evidence item.evidence excluded reason
              ≡ evidence_status output content item =
            rw e refl in
          subst P status (refl, (((λ h. cc), (λ h. cc (sym e ∙ known.1 h))), λ h. cc))
    ]

status_ids :
    (output : WorkBriefOutput) (content : BriefContent) (selected : List TransientEvidence)
    → map (λ (e : StoredBriefEvidence). e.id) (map (evidence_status output content) selected)
      ≡ map (λ (t : TransientEvidence). t.evidence.id) selected
status_ids output content [] = refl
status_ids output content (item ∷ items) =
    cc ((evidence_status-Counted output content item).0, status_ids output content items)

-- Of the selected evidence each is stored once, in the order of the selection; it counts as
-- included exactly where the title, the summary, a requirement, an acceptance criterion, a risk, a
-- next step or a child task of the brief names it, and what counts as included carries no reason
-- for an exclusion.
pub evidence_from_ai-included :
    (selected : List TransientEvidence) (output : WorkBriefOutput) (content : BriefContent)
    → (map (λ (e : StoredBriefEvidence). e.id) (evidence_from_ai selected output content)
        ≡ map (λ (t : TransientEvidence). t.evidence.id) selected)
      × ((e : StoredBriefEvidence)
          → Memᴰ e (evidence_from_ai selected output content)
          → ((e.ai_status ≡ included) ↔ CitedIn e.id content)
            × (e.ai_status ≡ included → e.ai_exclusion_reason ≡ none))
unfolding evidence_from_ai
evidence_from_ai-included selected output content = (
  status_ids output content selected,
  λ e m.
      let (item, _, same) = mem-map (evidence_status output content) selected m in
      subst (Counted content) (sym same) (evidence_status-Counted output content item).1,
)
