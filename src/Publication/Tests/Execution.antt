-- ===== src/Publication/Tests/Execution.antt =====
-- publication.service.ts: executions of steps in a world with one publication.
use work_copilot.Base.{refl, ◌+◌, true, none, some, [], ◌∷◌, decimal, ◌≡◌}
use work_copilot.Publication.World.{
  create_jira_summary_comment, Outside, IntegrationProfile, World, wrote, absent, WriteRequest,
}
use work_copilot.Publication.Claimer.{PublicationStepResult}
use work_copilot.Publication.Execute.Dispatch.{Dispatches, execute_step-Dispatches}
use work_copilot.Publication.Execute.{Operation, sends, execute_step, write_result}
use work_copilot.Publication.Recovery.{write_result_from_step}
use work_copilot.Publication.Tests.Recovered.{draft_1, publication_1}
use work_copilot.Failure.{ok}
use work_copilot.Publication.Tests.{step_1, rows, rows-Unique, step_2}
use work_copilot.Publication.Types.{PublicationExecutionMode}
use work_copilot.Publication.Execute.Parks.{Parked, execute_step-Parked}
use work_copilot.Publication.Execute.Delivers.{Delivered, execute_step-delivers}

abbrev pub profile_1 : IntegrationProfile
profile_1 = record {
  id = "f1";
  is_active = true;
  brief_parent_page_id = some "root";
  child_task_template = none;
}

abbrev pub world_1 : World
world_1 = record {
  drafts = draft_1 ∷ [];
  profiles = profile_1 ∷ [];
  publications = publication_1 ∷ [];
  steps = rows;
  clock = 100;
  drawn = 0;
  writes = [];
  metrics = [];
  fragments = [];
  events = [];
}

abbrev page_result : PublicationStepResult
page_result = record {
  provider_object_id = "page";
  provider_object_version = none;
  provider_url = none;
  content_hash = none;
}

-- Services that allow everything, a clock of one step, and a provider that writes every time.
abbrev pub outside_1 : Outside
outside_1 = record {
  tick = λ t. t + 1;
  uuid = λ n. decimal n;
  sha256 = λ t. t;
  assert_draft_publish_allowed = λ w u d c. ok tt;
  assert_safe_model_output = λ ts. ok tt;
  preview_confluence = λ w u d f c. ok (record { preview_hash = "c"; content_hash = "h" });
  preview_jira =
      λ d p. ok (record { preview_hash = "j"; page_id = "page"; page_url = "u"; page_title = "T" });
  preview_child_tasks = λ d p f. ok (record { preview_hash = "t"; child_tasks = [] });
  mode = PublicationExecutionMode.mock;
  respond = λ ws r. wrote page_result;
  reconcile_jira_child_tasks = λ ws c k ts. some absent;
  meanwhile = λ ws r. [];
}

abbrev comment_write : Operation
comment_write = sends (
    create_jira_summary_comment
      (record { user_id = 7; correlation_id = "x"; profile = profile_1; operation_id = "o1" }) "100"
      "S" "page" "u")

execute_step-Dispatches_example :
    Dispatches
      (write_result_from_step step_1)
      "s1"
      comment_write
      world_1
      (execute_step outside_1 step_1 comment_write none world_1).1
execute_step-Dispatches_example =
    execute_step-Dispatches outside_1 step_1 comment_write none world_1 rows-Unique

-- A step in memory that another worker has finished is of no use to this one's claim.
abbrev comment_request : WriteRequest
comment_request =
    create_jira_summary_comment
      (record { user_id = 7; correlation_id = "x"; profile = profile_1; operation_id = "o1" }) "100"
      "S" "page" "u"

step_1-open : write_result_from_step step_1 ≡ none
unfolding write_result_from_step
step_1-open = refl

step_2-open : write_result_from_step step_2 ≡ none
unfolding write_result_from_step
step_2-open = refl

page_answer : write_result none (outside_1.respond [] comment_request) ≡ some page_result
unfolding write_result
page_answer = refl

execute_step-delivers_example :
    Delivered outside_1 step_1 comment_request page_result 1 []
      (execute_step outside_1 step_1 (sends comment_request) none world_1)
execute_step-delivers_example =
    execute_step-delivers outside_1 step_1 step_1 comment_request none world_1 page_result
      rows-Unique refl refl step_1-open refl page_answer

-- A minute later, the lease of the first worker has run out.
abbrev late_world : World
late_world = record world_1 { clock = 60000 }

execute_step-Parked_example :
    Parked outside_1 step_2 [] (execute_step outside_1 step_2 comment_write none late_world)
execute_step-Parked_example =
    execute_step-Parked outside_1 step_2 step_2 comment_write none late_world rows-Unique refl refl
      step_2-open
