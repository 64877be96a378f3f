-- ===== src/Drafts/Listing/Walked.antt =====
-- work-briefs.service.ts: whoever follows the cursors from page to page reads the whole list.
use mathlib.Core.List.{map-append}
use work_copilot.Base.{
  ℕ, zero, suc, ◌<◌, ◌≤◌, String, true, Option, none, some, List, [], ◌∷◌, ◌++◌, ◌≡◌, refl, sym, ap,
  ◌∙◌, inl, inr, arith, ltb, length, filter, map, map_some, Unique, Bool-cases, ◌&&◌, subst,
}
use work_copilot.Failure.{Result, ok, err}
use work_copilot.Publication.World.{World}
use work_copilot.Operations.Cleanup.{limit}
use work_copilot.Brief.Types.{WorkBriefDraft, DraftStatus}
use work_copilot.Webhooks.Freshness.{draft_id_of}
use work_copilot.Webhooks.Freshness.Marked.{filter-Unique}
use work_copilot.Drafts.Types.{BriefDraftSummary}
use work_copilot.Drafts.Present.{present_summary}
use work_copilot.Drafts.Listing.{
  DraftCursor, BriefDraftListView, is_older, cursor_of, newest_first, is_listed, listed_after,
  list_drafts, id_of, summary_in,
}
use work_copilot.Drafts.Listing.Pages.{Descending, newest_first-Descending, newest_first-filter}
use work_copilot.Publication.Service.Store.{last?}
use work_copilot.Publication.Service.Queries.{StoredPublicationSummary}
use work_copilot.Drafts.Listing.Paged.{
  WithinMillisecond, ToldApart, filter-and, filter-cursor, limit-split, page-whole, page-part,
  append_assoc, length-after,
}

abbrev pub summary_id : BriefDraftSummary → String
summary_id s = s.id

-- The identifiers of a page and of the pages after it, if there is enough fuel to read them all.
abbrev pub follow :
    Result BriefDraftListView × World → (DraftCursor → Option (List String)) → Option (List String)
follow (err e, w) next = none
follow (ok page, w) next = elim page.next_cursor [
  | none ↦ some (map summary_id page.items)
  | some c ↦ map_some (λ ids. map summary_id page.items ++ ids) (next c)
]

unfoldable pub pages :
    ℕ → ℕ → ℕ → Option DraftStatus → Option DraftCursor → World → Option (List String)
pages zero n user status cursor w = none
pages (suc fuel) n user status cursor w =
    let next = λ (c : DraftCursor). pages fuel n user status (some c) w in
    follow (list_drafts user (record { page_limit = some n; cursor = cursor; status = status }) w)
      next

summary_ids :
    (ps : List (String × StoredPublicationSummary)) (ds : List WorkBriefDraft)
    → map summary_id (map (summary_in ps) ds) ≡ map id_of ds
unfolding present_summary
summary_ids ps [] = refl
summary_ids ps (d ∷ ds) = ap (◌∷◌ d.id) (summary_ids ps ds)

module _ (n : ℕ) (user : ℕ) (status : Option DraftStatus) (w : World) where
  listed_from :
      (x : WorkBriefDraft) (before after : List WorkBriefDraft)
      → Unique draft_id_of w.drafts
      → WithinMillisecond (listed_after user status none w)
      → ToldApart (listed_after user status none w)
      → listed_after user status none w ≡ before ++ x ∷ after
      → listed_after user status (some (cursor_of x)) w ≡ after
  unfolding listed_after
  listed_from x before after u within apart e =
      let kept : List WorkBriefDraft = filter (λ d. is_listed user status d && true) w.drafts in
      let unique : Unique draft_id_of kept = filter-Unique _ w.drafts u in
      ap newest_first (filter-and (is_listed user status) (is_older (cursor_of x)) w.drafts)
      ∙ newest_first-filter (is_older (cursor_of x)) kept unique
      ∙ ap (filter (is_older (cursor_of x))) e
      ∙ filter-cursor x before after (subst WithinMillisecond e within) (subst ToldApart e apart)
          (subst Descending e (newest_first-Descending kept unique))

  pages-last :
      (fuel : ℕ) (cursor : Option DraftCursor) (rest : List WorkBriefDraft)
      → listed_after user status cursor w ≡ rest
      → length rest ≤ n
      → pages (suc fuel) n user status cursor w ≡ some (map id_of rest)
  unfolding pages list_drafts
  pages-last fuel cursor rest here h =
      let (end, items) = page-whole n rest h in rw (here, end, items) (ap some (summary_ids _ rest))

  pages-next :
      (fuel : ℕ) (cursor : Option DraftCursor) (rest : List WorkBriefDraft) (x : WorkBriefDraft)
      (after : List WorkBriefDraft)
      → listed_after user status cursor w ≡ rest
      → n < length rest
      → last? (limit n rest) ≡ some x
      → pages fuel n user status (some (cursor_of x)) w ≡ some (map id_of after)
      → pages (suc fuel) n user status cursor w ≡ some (map id_of (limit n rest) ++ map id_of after)
  unfolding pages list_drafts
  pages-next fuel cursor rest x after here h last others =
      let (more, items) = page-part n rest x h last in
      rw (here, more, items, others)
        (ap (λ is. some (is ++ map id_of after)) (summary_ids _ (limit n rest)))

  -- The walk from any place of the list on.
  pages-rest :
      (fuel : ℕ) (cursor : Option DraftCursor) (before rest : List WorkBriefDraft)
      → 0 < n
      → Unique draft_id_of w.drafts
      → WithinMillisecond (listed_after user status none w)
      → ToldApart (listed_after user status none w)
      → listed_after user status none w ≡ before ++ rest
      → listed_after user status cursor w ≡ rest
      → length rest < fuel
      → pages fuel n user status cursor w ≡ some (map id_of rest)
  pages-rest zero cursor before rest p u within apart whole here h = absurd (omega arith)
  pages-rest (suc fuel) cursor before rest p u within apart whole here h =
      elim (Bool-cases (ltb n (length rest))) [
        | inl long ↦
            let (init, x, after, parts, page, last) = limit-split n rest p (ground arith) in
            let joined : listed_after user status none w ≡ (before ++ init) ++ x ∷ after =
              whole ∙ ap (λ r. before ++ r) parts ∙ append_assoc before init (x ∷ after) in
            let turned : listed_after user status none w ≡ (before ++ (init ++ x ∷ [])) ++ after =
              whole
              ∙ ap (λ r. before ++ r) (parts ∙ append_assoc init (x ∷ []) after)
              ∙ append_assoc before (init ++ x ∷ []) after in
            let shorter : length after < length rest =
              subst (λ ds. length after < length ds) (sym parts) (length-after x init after) in
            let others : pages fuel n user status (some (cursor_of x)) w ≡ some (map id_of after) =
              pages-rest fuel (some (cursor_of x)) (before ++ (init ++ x ∷ [])) after p u within
                apart turned (listed_from x (before ++ init) after u within apart joined)
                (omega arith) in
            pages-next fuel cursor rest x after here (ground arith) last others
            ∙ ap (λ ds. some (map id_of ds ++ map id_of after)) page
            ∙ ap some (sym (map-append id_of (init ++ x ∷ []) after))
            ∙ ap (λ ds. some (map id_of ds)) (sym (parts ∙ append_assoc init (x ∷ []) after))
        | inr short ↦ pages-last fuel cursor rest here (ground arith)
      ]

  -- With a page size above zero and draft identifiers that are all different, where the times of the
  -- listed drafts have less than a thousand microseconds beside their milliseconds, and two of them
  -- in the same millisecond both stand at its beginning: while nothing changes, following the
  -- cursors from the first page with more fuel than there are listed drafts ends, and the pages one
  -- after another are the owner's listed drafts, the latest first, each once and none left out.
  pub pages-all :
      (fuel : ℕ)
      → 0 < n
      → Unique draft_id_of w.drafts
      → WithinMillisecond (listed_after user status none w)
      → ToldApart (listed_after user status none w)
      → length (listed_after user status none w) < fuel
      → pages fuel n user status none w ≡ some (map id_of (listed_after user status none w))
  pages-all fuel p u within apart h =
      pages-rest fuel none [] (listed_after user status none w) p u within apart refl refl h
