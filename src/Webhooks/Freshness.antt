-- ===== src/Webhooks/Freshness.antt =====
-- webhooks/freshness-review.service.ts: the drafts that cite a changed source go back to review.
pub mod Marked
pub mod Reviewed
pub mod Stale
use work_copilot.Base.{
  ℕ, suc, ◌+◌, String, Bool, true, false, Option, none, some, List, [], ◌∷◌, ◌==◌, if◌then◌else◌,
  any, filter, length, ◌&&◌, ◌||◌, is_empty, update_where, at,
}
use work_copilot.Brief.Types.{EvidenceProvider, DraftFreshnessStatus, WorkBriefDraft, DraftStatus}
use work_copilot.Publication.Types.{BriefPublication}
use work_copilot.Publication.Service.Store.{is_live}
use work_copilot.Publication.World.{World}

abbrev pub same_provider : EvidenceProvider → EvidenceProvider → Bool
same_provider EvidenceProvider.jira EvidenceProvider.jira = true
same_provider EvidenceProvider.confluence EvidenceProvider.confluence = true
same_provider _ _ = false

unfoldable pub references_source : WorkBriefDraft → EvidenceProvider → String → Bool
references_source d provider source =
    (same_provider provider EvidenceProvider.jira && (d.source_jira_id == source))
    || any (λ e. same_provider e.provider provider && (e.source_id == source)) d.evidence

abbrev pub draft_id_of : WorkBriefDraft → String
draft_id_of d = d.id

-- The rows that `find` returns, and of these the ones that cite the source.
abbrev pub is_affected : String → EvidenceProvider → String → WorkBriefDraft → Bool
is_affected profile provider source d =
    (d.profile_id == profile) && is_live d && references_source d provider source

abbrev pub reviewed_freshness : DraftFreshnessStatus → DraftFreshnessStatus
reviewed_freshness DraftFreshnessStatus.access_changed = DraftFreshnessStatus.access_changed
reviewed_freshness _ = DraftFreshnessStatus.review_required

-- The SET clause, with the freshness that the draft had when it was read.
abbrev pub send_to_review : DraftFreshnessStatus → ℕ → WorkBriefDraft → WorkBriefDraft
send_to_review freshness now d = record d {
  status = DraftStatus.review_required;
  freshness_status = reviewed_freshness freshness;
  optimistic_version = d.optimistic_version + 1;
  updated_at = now;
  updated_micros = 0;
}

abbrev pub update_draft : String → ℕ → WorkBriefDraft → List WorkBriefDraft → List WorkBriefDraft
update_draft profile now d =
    update_where (at draft_id_of d.id (λ e. (e.profile_id == profile) && is_live e))
      (send_to_review d.freshness_status now)

unfoldable pub update_drafts :
    String → ℕ → List WorkBriefDraft → List WorkBriefDraft → List WorkBriefDraft
update_drafts profile now [] rows = rows
update_drafts profile now (d ∷ ds) rows =
    update_drafts profile now ds (update_draft profile now d rows)

abbrev pub require_review : List WorkBriefDraft → ℕ → List BriefPublication → List BriefPublication
require_review ds now =
    update_where (λ p. any (λ d. d.id == p.draft_id) ds)
      (λ p. record p { review_required_at = some now; updated_at = now })

-- How many drafts are affected, and the tables after it.
unfoldable pub mark_review_required : String → EvidenceProvider → String → ℕ → World → ℕ × World
mark_review_required profile provider source now w =
    let affected = filter (is_affected profile provider source) w.drafts in
    (
      length affected,
      record w {
        drafts = update_drafts profile now affected w.drafts;
        publications =
            if is_empty affected
            then w.publications
            else require_review affected now w.publications;
      },
    )
