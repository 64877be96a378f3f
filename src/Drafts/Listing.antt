-- ===== src/Drafts/Listing.antt =====
-- work-briefs.service.ts: the list of an owner's drafts, page by page.
-- A cursor is the pair that its text encodes: `toISOString` has no more than the milliseconds.
pub mod Pages
pub mod Paged
pub mod Walked
use work_copilot.Base.{
  ℕ, suc, ◌+◌, ◌*◌, String, Bool, true, false, Option, none, some, List, [], ◌∷◌, ◌++◌, ◌==◌, ◌&&◌,
  ◌||◌, eqb, ltb, any, if◌then◌else◌, length, filter, map, get_or, not, text_lt,
}
use work_copilot.Failure.{Result, ok}
use work_copilot.Publication.Types.{BriefPublication, PublicationStep}
use work_copilot.Publication.Safety.{StoredPublicationForDeletion, stored_publication}
use work_copilot.Publication.World.{World}
use work_copilot.Publication.World.Program.{Program, ◌>>=◌, pure, gets, lift}
use work_copilot.Publication.Service.Store.{is_live, steps_of, last?}
use work_copilot.Publication.Service.Initial.{publications_of}
use work_copilot.Publication.Service.Queries.{
  StoredPublicationRow, StoredPublicationSummary, find_latest_stored_summaries,
}
use work_copilot.Publication.Service.Run.{looked_up}
use work_copilot.Operations.Cleanup.{limit}
use work_copilot.Brief.Types.{WorkBriefDraft, DraftStatus}
use work_copilot.Drafts.Types.{BriefDraftSummary, BriefDraftPublicationSummary}
use work_copilot.Drafts.Present.{present_summary}

abbrev pub draft_list_default_limit : ℕ
draft_list_default_limit = 20

pub record DraftCursor : Type 0 where
  pub updated_at : ℕ
  pub id : String

pub record ListBriefDrafts : Type 0 where
  pub page_limit : Option ℕ
  pub cursor : Option DraftCursor
  pub status : Option DraftStatus

pub record BriefDraftListView : Type 0 where
  pub items : List BriefDraftSummary
  pub next_cursor : Option DraftCursor

-- `(draft."updatedAt", draft."id") < (:cursorUpdatedAt, :cursorId)`.
abbrev pub comes_before_in_time : ℕ → String → ℕ → String → Bool
comes_before_in_time t i u j = ltb t u || (eqb t u && text_lt i j)

-- The column `updatedAt`, in microseconds.
abbrev pub micros_of : WorkBriefDraft → ℕ
micros_of d = d.updated_at * 1000 + d.updated_micros

-- The row against the cursor, whose time is a whole millisecond.
abbrev pub is_older : DraftCursor → WorkBriefDraft → Bool
is_older c d = comes_before_in_time (micros_of d) d.id (c.updated_at * 1000) c.id

abbrev pub cursor_of : WorkBriefDraft → DraftCursor
cursor_of d = record { updated_at = d.updated_at; id = d.id }

-- `ORDER BY draft."updatedAt" DESC, draft."id" DESC`: whether the second stands after the first.
abbrev pub is_below : WorkBriefDraft → WorkBriefDraft → Bool
is_below d e = comes_before_in_time (micros_of e) e.id (micros_of d) d.id

abbrev pub put_newest_first : WorkBriefDraft → List WorkBriefDraft → List WorkBriefDraft
put_newest_first d [] = d ∷ []
put_newest_first d (e ∷ ds) = if is_below d e then d ∷ e ∷ ds else e ∷ put_newest_first d ds

unfoldable pub newest_first : List WorkBriefDraft → List WorkBriefDraft
newest_first [] = []
newest_first (d ∷ ds) = put_newest_first d (newest_first ds)

abbrev pub same_status : DraftStatus → DraftStatus → Bool
same_status DraftStatus.draft DraftStatus.draft = true
same_status DraftStatus.review_required DraftStatus.review_required = true
same_status _ _ = false

abbrev pub has_status : Option DraftStatus → WorkBriefDraft → Bool
has_status none d = true
has_status (some status) d = same_status d.status status

abbrev pub is_listed : ℕ → Option DraftStatus → WorkBriefDraft → Bool
is_listed user status d = eqb d.created_by_user_id user && (is_live d && has_status status d)

abbrev pub is_after : Option DraftCursor → WorkBriefDraft → Bool
is_after none d = true
is_after (some c) d = is_older c d

unfoldable pub listed_after :
    ℕ → Option DraftStatus → Option DraftCursor → World → List WorkBriefDraft
unfolding newest_first
listed_after user status cursor w =
    newest_first (filter (λ d. is_listed user status d && is_after cursor d) w.drafts)

-- The rows of the query of `findLatestStoredSummaries`: the publications of each draft, the latest
-- first, each beside its steps, or alone.
abbrev pub row_alone : StoredPublicationForDeletion → StoredPublicationRow
row_alone p = record {
  publication = p;
  step_publication_id = none;
  step_status = none;
  step_provider_object_id = none;
  step_error_code = none;
}

abbrev pub row_beside : StoredPublicationForDeletion → PublicationStep → StoredPublicationRow
row_beside p s = record {
  publication = p;
  step_publication_id = some s.publication_id;
  step_status = some s.status;
  step_provider_object_id = s.provider_object_id;
  step_error_code = s.error_code;
}

abbrev pub rows_of : StoredPublicationForDeletion → List PublicationStep → List StoredPublicationRow
rows_of p [] = row_alone p ∷ []
rows_of p (s ∷ ss) = map (row_beside p) (s ∷ ss)

abbrev pub reversed_rows : World → List BriefPublication → List StoredPublicationRow
reversed_rows w [] = []
reversed_rows w (p ∷ ps) = reversed_rows w ps ++ rows_of (stored_publication p) (steps_of p.id w)

unfoldable pub stored_rows : List String → World → List StoredPublicationRow
stored_rows [] w = []
stored_rows (i ∷ is) w = reversed_rows w (publications_of i w) ++ stored_rows is w

abbrev pub publication_summary :
    Option StoredPublicationSummary → Option BriefDraftPublicationSummary
publication_summary none = none
publication_summary (some p) =
    some (record {
      id = p.id;
      status = p.status;
      external_write_performed = p.external_write_performed;
    })

abbrev pub id_of : WorkBriefDraft → String
id_of d = d.id

abbrev pub summary_in :
    List (String × StoredPublicationSummary) → WorkBriefDraft → BriefDraftSummary
summary_in publications d = present_summary d (publication_summary (looked_up d.id publications))

abbrev pub cursor_after : ℕ → List WorkBriefDraft → List WorkBriefDraft → Option DraftCursor
cursor_after n rows items =
    if ltb n (length rows)
    then (elim (last? items) [ none ↦ none | some d ↦ some (cursor_of d) ])
    else none

-- One row more than the page tells whether there is another page.
unfoldable pub list_drafts : ℕ → ListBriefDrafts → Program BriefDraftListView
unfolding listed_after stored_rows
list_drafts user query = do
  let n = get_or query.page_limit draft_list_default_limit
  rows ← gets (λ w. limit (n + 1) (listed_after user query.status query.cursor w))
  let items = limit n rows
  stored ← gets (stored_rows (map id_of items))
  let publications = find_latest_stored_summaries stored
  pure (record {
    items = map (summary_in publications) items;
    next_cursor = cursor_after n rows items;
  })
