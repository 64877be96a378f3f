-- ===== src/Operations/Cleanup/Whole.antt =====
-- operations/deleted-brief-draft-cleanup.ts: a run leaves no row without its owner.
use work_copilot.Base.{
  ℕ, Bool, true, false, List, ◌==◌, ◌≡◌, refl, any, filter, not, Memᴰ, Bool-cases, inl, inr,
  is_empty, ◌∙◌, sym, eq_iff, arith, filter-mem, any_of_mem, false≢true, mem-filter,
}
use work_copilot.Publication.World.{World}
use work_copilot.Operations.Cleanup.{delete_drafts, purge_deleted_brief_drafts, removable, is_among}
use work_copilot.Publication.Types.{BriefPublication, PublicationStep}
use work_copilot.Brief.Types.{WorkBriefDraft}

-- Every publication has its draft, and every step its publication: the two foreign keys.
pub record Whole (w : World) : Type 0 where
  pub drafted :
      (p : BriefPublication)
      → Memᴰ p w.publications
      → (d : WorkBriefDraft) × Memᴰ d w.drafts × (d.id ≡ p.draft_id)
  pub published :
      (s : PublicationStep)
      → Memᴰ s w.steps
      → (p : BriefPublication) × Memᴰ p w.publications × (p.id ≡ s.publication_id)

off_of_negation : (b : Bool) → not b ≡ true → b ≡ false
off_of_negation b h = ground arith

delete_drafts-Whole : (ds : List WorkBriefDraft) (w : World) → Whole w → Whole (delete_drafts ds w)
unfolding delete_drafts
delete_drafts-Whole ds w h = record {
  drafted = λ p m.
      let (k, free) = mem-filter (λ p. not (is_among ds p.draft_id)) w.publications m in
      let (d, l, e) = h.drafted p k in
      (d, filter-mem (λ d. not (is_among ds d.id)) w.drafts l (rw e free), e);
  published = λ s m.
      let (k, free) = mem-filter (λ s. not (any (λ p. p.id == s.publication_id) gone)) w.steps m in
      let (p, l, e) = h.published s k in (p, kept p s l e (off_of_negation _ free), e);
}
  where
    gone : List BriefPublication
    gone = filter (λ p. is_among ds p.draft_id) w.publications

    kept :
        (p : BriefPublication) (s : PublicationStep)
        → Memᴰ p w.publications
        → p.id ≡ s.publication_id
        → any (λ p. p.id == s.publication_id) gone ≡ false
        → Memᴰ p (filter (λ p. not (is_among ds p.draft_id)) w.publications)
    kept p s l e free = elim (Bool-cases (is_among ds p.draft_id)) [
      | inr other ↦ filter-mem (λ p. not (is_among ds p.draft_id)) w.publications l (rw other refl)
      | inl chosen ↦
          let found =
            any_of_mem (λ p. p.id == s.publication_id) gone
              (filter-mem (λ p. is_among ds p.draft_id) w.publications l chosen)
              ((eq_iff p.id s.publication_id).1 e) in
          absurd (false≢true (sym free ∙ found))
    ]

-- If every publication has its draft and every step its publication before a run of the retention
-- job, this holds after it as well.
pub purge-Whole :
    (locked : Bool) (cutoff : ℕ) (w : World)
    → Whole w
    → Whole (purge_deleted_brief_drafts locked cutoff w).1
unfolding purge_deleted_brief_drafts
purge-Whole false cutoff w h = h
purge-Whole true cutoff w h = elim (Bool-cases (is_empty (removable w cutoff))) [
  | inl idle ↦ rw idle h
  | inr busy ↦ rw busy (delete_drafts-Whole (removable w cutoff) w h)
]
