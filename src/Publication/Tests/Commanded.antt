-- ===== src/Publication/Tests/Commanded.antt =====
-- publication.service.ts: commands in a world with one publication.
use work_copilot.Publication.Types.{confluence, jira, child_tasks}
use work_copilot.Publication.Service.Phased.{
  PhaseChecked, jira_first, nothing_first, confluence_first, tasks_preview, page_preview,
  jira_preview, publish_jira-OnlyIf, publish_child_tasks-OnlyIf, retry_confluence-OnlyIf,
}
use work_copilot.Base.{ℕ, true, some, [], ◌∷◌, ◌≡◌, refl, ◌⊎◌, ◌<◌, eqb}
use work_copilot.Publication.Service.Guards.{PhaseInput}
use work_copilot.Publication.Service.Sending.{OnlyIf}
use work_copilot.Publication.Service.Steps.{advance_approval_revision}
use work_copilot.Publication.World.{World}
use work_copilot.Publication.Service.Commands.{
  Target, retry_confluence, publish_jira, publish_child_tasks,
}
use work_copilot.Publication.Tests.Execution.{world_1, outside_1}
use work_copilot.Publication.Service.Opened.{FirstChecked, ResumeChecked, publish-OnlyIf}
use work_copilot.Publication.Tests.{parked_step}
use work_copilot.Failure.{ok}
use work_copilot.Publication.Tests.Recovered.{publication_1}
use work_copilot.Publication.Service.Publish.{publish}
use work_copilot.Publication.Claimer.{reopen_for_review}
use work_copilot.Publication.Service.Revisions.{advance_approval_revision-reopens}

abbrev target_1 : Target
target_1 = record { user_id = 7; draft_id = "d1"; publication_id = "p1"; correlation_id = "x" }

abbrev input_1 : PhaseInput
input_1 = record {
  draft_version = 1;
  preview_hash = "j";
  approved = true;
  approval_revision = some 1;
  idempotency_key = some " key ";
}

publish_jira-OnlyIf_example :
    OnlyIf
      (PhaseChecked outside_1 target_1 input_1 jira confluence_first
        (jira_preview outside_1)
        (λ v. v.preview_hash)
        world_1)
      (publish_jira outside_1 target_1 input_1)
      world_1
publish_jira-OnlyIf_example = publish_jira-OnlyIf outside_1 target_1 input_1 world_1

publish_child_tasks-OnlyIf_example :
    OnlyIf
      (PhaseChecked outside_1 target_1 input_1 child_tasks jira_first
        (tasks_preview outside_1)
        (λ v. v.preview_hash)
        world_1)
      (publish_child_tasks outside_1 target_1 input_1)
      world_1
publish_child_tasks-OnlyIf_example = publish_child_tasks-OnlyIf outside_1 target_1 input_1 world_1

retry_confluence-OnlyIf_example :
    OnlyIf
      (PhaseChecked outside_1 target_1 input_1 confluence nothing_first
        (page_preview outside_1 target_1)
        (λ v. v.preview_hash)
        world_1)
      (retry_confluence outside_1 target_1 input_1)
      world_1
retry_confluence-OnlyIf_example = retry_confluence-OnlyIf outside_1 target_1 input_1 world_1

publish-OnlyIf_example :
    OnlyIf
      (FirstChecked outside_1 target_1 input_1 world_1
        ⊎ ResumeChecked outside_1 target_1 input_1 world_1)
      (publish outside_1 target_1 input_1)
      world_1
publish-OnlyIf_example = publish-OnlyIf outside_1 target_1 input_1 world_1

abbrev parked_world : World
parked_world = record world_1 { steps = parked_step ∷ [] }

advance_approval_revision-reopens_example :
    (revision : ℕ) × ((advance_approval_revision outside_1 publication_1 confluence parked_world).0
      ≡ ok revision)
    × (publication_1.approval_revision < revision)
    × ((approved now : ℕ)
        → (reopen_for_review "s1" approved now
            (advance_approval_revision outside_1 publication_1 confluence parked_world).1.steps).0
          ≡ eqb revision approved)
advance_approval_revision-reopens_example =
    advance_approval_revision-reopens outside_1 publication_1 confluence parked_world parked_step
      (tt, tt) refl refl refl refl
