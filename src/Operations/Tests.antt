-- ===== src/Operations/Tests.antt =====
-- operations/deleted-brief-draft-cleanup.ts: a run on a world with one deleted draft.
use work_copilot.Base.{◌<◌, ◌≤◌, true, some, [], ◌∷◌, ◌≡◌, refl, any, map, Memᴰ, length, ◌+◌}
use work_copilot.Brief.Types.{WorkBriefDraft}
use work_copilot.Operations.Cleanup.Retained.{Retained, purge-Retained}
use work_copilot.Operations.Cleanup.{
  purge_deleted_brief_drafts, is_blocked, max_drafts_per_run, is_removable,
}
use work_copilot.Publication.Safety.{
  assess_publication_deletion_safety, deletion_blocked, stored_publication, stored_step,
}
use work_copilot.Publication.World.{World}
use work_copilot.Publication.Safety.FailClosed.{refuses}
use work_copilot.Publication.Tests.Execution.{world_1}
use work_copilot.Publication.Tests.Recovered.{draft_1, publication_1}
use work_copilot.Operations.Cleanup.Bounded.{purge-advances}
use work_copilot.Publication.Service.Initial.{publications_of, steps_of_all}
use work_copilot.Operations.Cleanup.Whole.{Whole, purge-Whole}
use work_copilot.Publication.Tests.{step_1}

abbrev deleted_draft : WorkBriefDraft
deleted_draft = record draft_1 { deleted_at = some 5 }

-- The publication is under way, so the service refuses to delete its draft.
abbrev busy_world : World
busy_world = record world_1 { drafts = deleted_draft ∷ [] }

abbrev idle_world : World
idle_world = record busy_world { publications = []; steps = [] }

busy-refused :
    refuses (
      assess_publication_deletion_safety
        (map stored_publication (publications_of "d1" busy_world))
        (map stored_step (steps_of_all (publications_of "d1" busy_world) busy_world)))
    ≡ true
unfolding assess_publication_deletion_safety
busy-refused = refl

purge-Retained_example :
    Retained deleted_draft busy_world (purge_deleted_brief_drafts true 9 busy_world).1
purge-Retained_example =
    purge-Retained true 9 busy_world deleted_draft (tt, tt) (Memᴰ.head refl) busy-refused

idle-removable : any (is_removable idle_world 9) idle_world.drafts ≡ true
unfolding is_blocked deletion_blocked
idle-removable = refl

purge-advances_example :
    (length (purge_deleted_brief_drafts true 9 idle_world).1.drafts < length idle_world.drafts)
    × (length idle_world.drafts
        ≤ length (purge_deleted_brief_drafts true 9 idle_world).1.drafts + max_drafts_per_run)
    × (length (purge_deleted_brief_drafts true 9 idle_world).1.drafts
          + (purge_deleted_brief_drafts true 9 idle_world).0.deleted_count
        ≡ length idle_world.drafts)
purge-advances_example = purge-advances 9 idle_world (tt, tt) idle-removable

-- A world whose only step is of its only publication.
abbrev whole_world : World
whole_world = record busy_world { steps = step_1 ∷ [] }

whole_world-Whole : Whole whole_world
whole_world-Whole = record {
  drafted = λ p m. elim m [
    | Memᴰ.head e ↦ (deleted_draft, Memᴰ.head refl, rw e refl)
    | Memᴰ.tail k ↦ elim k [ ]
  ];
  published = λ s m. elim m [
    | Memᴰ.head e ↦ (publication_1, Memᴰ.head refl, rw e refl)
    | Memᴰ.tail k ↦ elim k [ ]
  ];
}

purge-Whole_example : Whole (purge_deleted_brief_drafts true 9 whole_world).1
purge-Whole_example = purge-Whole true 9 whole_world whole_world-Whole
