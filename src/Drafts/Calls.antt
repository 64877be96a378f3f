-- ===== src/Drafts/Calls.antt =====
-- work-briefs.service.ts: the commands of the drafts' owners, and the change of a source
-- (../webhooks/freshness-review.service.ts), as calls that follow one another in any order.
use work_copilot.Base.{ℕ, String, List, [], ◌∷◌}
use work_copilot.Publication.World.{World}
use work_copilot.Brief.Types.{EvidenceProvider}
use work_copilot.Webhooks.Freshness.{mark_review_required}
use work_copilot.Drafts.Types.{
  Caller, CreateBriefDraft, UpdateBriefDraft, RegenerateBriefDraft, Sources,
}
use work_copilot.Drafts.Commands.{create_draft, update_draft, delete_draft}
use work_copilot.Drafts.Regeneration.{regenerate_draft}
use work_copilot.Drafts.Refresh.{refresh_draft}

pub data DraftCall : Type 0 where
  create : ℕ → CreateBriefDraft → String → DraftCall
  update : Caller → UpdateBriefDraft → DraftCall
  regenerate : Caller → RegenerateBriefDraft → DraftCall
  -- with the version that the caller has seen
  refresh : Caller → ℕ → DraftCall
  delete : Caller → DraftCall
  -- the profile, the provider and the source, and the time
  source_changed : String → EvidenceProvider → String → ℕ → DraftCall

-- The world after a call, whether it returns or throws.
unfoldable pub answer : Sources → DraftCall → World → World
answer s (create user dto correlation) w = (create_draft s user dto correlation w).1
answer s (update c dto) w = (update_draft s c dto w).1
answer s (regenerate c dto) w = (regenerate_draft s c dto w).1
answer s (refresh c version) w = (refresh_draft s c version w).1
answer s (delete c) w = (delete_draft s c w).1
answer s (source_changed profile provider source now) w =
    (mark_review_required profile provider source now w).1

unfoldable pub answer_all : Sources → List DraftCall → World → World
unfolding answer
answer_all s [] w = w
answer_all s (call ∷ calls) w = answer_all s calls (answer s call w)
