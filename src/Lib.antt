-- ===== src/Lib.antt =====
-- Work Copilot: work briefs from their draft to their publication in Confluence and Jira.
--
-- The backend drafts a brief for a Jira issue, and on a user's approval publishes it in three
-- phases: a Confluence page, a link and a comment on the issue, and child tasks. Every external
-- write is a durable step that a worker claims under a lease and a fencing token.
--
-- Base            shared helpers: Boolean tests, lists, tables with a text key, texts
-- Failure         the exceptions of the services as values
-- Brief           backend/src/work-briefs:
--   Types         brief-draft.types.ts and the entity of a draft
--   Citations     brief-citation-validator.service.ts: validate, on JSON values
-- Publication     backend/src/publications:
--   Types         publication.types.ts and entities/
--   Claimer       publication-step-claimer.service.ts: claimWhere, claim, heartbeat,
--                 reopenForReview, markSucceeded, markFailed. Laws has each call as a
--                 compare-and-swap of one row, Machine the calls of all workers in any order,
--                 Traces, Review and Exclusive what holds along them
--   Safety        publication-deletion-safety.ts: the guard of a draft's deletion, and the SQL
--                 condition of operations/deleted-brief-draft-cleanup.ts with NULL as a third value
--   Phases        publication.service.ts: stepKeys, statusFor, latestPhase, hasInvalidPhaseOrder
--   Recovery      publication.service.ts: applyStepResult, recoverPublicationFromSteps
--   World         the tables, the clock, the drawn identifiers, the writes that were sent and the
--                 metrics; World/Program has the monad of the methods
--   Execute       publication.service.ts: executeStep, parkInterruptedExecution. Writes and
--                 Dispatch have when it sends, Delivers and Parks what it leaves in the row
--   Service       publication.service.ts: the commands and queries. Store has the repositories,
--                 Guards the checks of the input, Present the views, Steps the rows of a phase and
--                 their revisions, Run the phases, Initial the first reservation, Commands
--                 publishJira, publishChildTasks and retry, Publish publish, Queries the previews
--                 and the queries. Sending, Checked, Begun, Phased, Resumed, First and Opened
--                 have what a command checks before it sends a write, and Revisions the revisions
--   Tests         concrete runs
-- Readiness       backend/src/readiness: Coverage has the evaluate of
--                 readiness-coverage-evaluator.service.ts, Findings and Service have
--                 readiness.service.ts: findingsFor, statusFor, assessDraft and
--                 assertDraftPublishAllowed
-- Operations      backend/src/operations: Cleanup has purgeDeletedBriefDrafts of
--                 deleted-brief-draft-cleanup.ts
-- Webhooks        backend/src/webhooks: Freshness has freshness-review.service.ts
-- Drafts          backend/src/work-briefs/work-briefs.service.ts: Types has what the service is
--                 given and answers, Content contentFromAi, evidenceFromAi and maskContent,
--                 Selection the checks of the selected evidence, Present the views, versionConflict
--                 and the conditional writes, Commands createDraft, updateDraft and deleteDraft,
--                 Refresh refreshDraft, Regeneration regenerateDraft and Listing listDrafts. Calls
--                 has the calls in any order and Versions what they keep; Edits, Deletion, Guarded
--                 and Disclosure have what each command guarantees, Cited where a brief
--                 cites an evidence, and Sourced and Refused what a regeneration makes of changed
--                 sources. Guard has
--                 work-brief-content-guard.service.ts, and Client generate and sanitize of
--                 work-brief-ai-client.service.ts, as an implementation of two of the services
--                 that the commands take
--
-- A table is the list of its rows, a nullable column an Option, a Date its milliseconds (the time of
-- a draft's last update has the microseconds beside them, which its column keeps and a Date drops),
-- the time of the database the clock of the world, and an integer a natural number without a bound: the revisions and attempts of the code count up from
-- zero and stay far below 2 ^ 31. A method is a function from a world to its result and the next
-- world, and an exception is an err that keeps what was written before it, except inside
-- transaction, which takes the rows back. Every loop of the code runs over a list that is there
-- before, so that the definitions are by structural recursion; only the decimal text of a number
-- runs on fuel, one round more than the number, which is more rounds than it has digits.
--
-- A reader who follows the cursors of the list of drafts is a function on fuel too: one round more
-- than there are listed drafts is enough, which the theorem on the pages proves.
--
-- The services that the drafts call are the fields of Drafts.Types.Sources. At every wait of one of
-- the drafts' commands (Wait: the sources, the model, the masking, the database) the function
-- Sources.meanwhile stands for the other requests that run then, and may change the world as the
-- hypotheses of a theorem allow. The exceptions inside the transactions of the drafts are thrown
-- before the first write, so nothing is taken back.
--
-- The services that publication calls are the fields of World.Outside: readiness, the content
-- guard, the previews, the write gateway, SHA-256, the clock and the random identifiers. While a
-- write is awaited, any calls of other workers and any heartbeats, lost ones too, happen to the
-- steps (Outside.meanwhile); between the other awaits of one method no other worker runs.
--
-- Not modelled: the text of a list's cursor, the lookup of drafts by issue, the test of the values
-- of an audit event, the database's locks beyond one conditional update, HTTP, the framework's wiring,
-- the Atlassian clients, the other services of the backend, the Python service and the frontend.
pub mod Base
pub mod Failure
pub mod Brief
pub mod Publication
pub mod Readiness
pub mod Operations
pub mod Webhooks
pub mod Drafts
