-- ===== src/Operations/Cleanup/Retained.antt =====
-- operations/deleted-brief-draft-cleanup.ts: what a run of the retention job keeps.
use work_copilot.Base.{
  ℕ, String, Bool, true, false, List, [], ◌∷◌, ◌==◌, ◌≡◌, refl, any, filter, not, arith, Memᴰ,
  Bool-cases, inl, inr, is_empty, map, sym, ◌∙◌, Unique, false≢true, any-witness, and_true, is_some,
  mem-map, mem-filter, eq_iff, mem-All, Unique-mem, map-mem, ap, Option-cases, filter-mem,
  any_of_mem, ◌&&◌,
}
use work_copilot.Publication.World.{World}
use work_copilot.Publication.Types.{BriefPublication, PublicationStep}
use work_copilot.Operations.Cleanup.{
  delete_drafts, purge_deleted_brief_drafts, is_blocked, is_among, removable, deleted_by,
}
use work_copilot.Brief.Types.{WorkBriefDraft}
use work_copilot.Publication.Safety.FailClosed.{refuses, BelongTo, fail_closed}
use work_copilot.Publication.Safety.{
  assess_publication_deletion_safety, stored_publication, stored_step, deletion_blocked,
  StoredPublicationForDeletion, publication_by_id, StoredPublicationStepForDeletion,
}
use work_copilot.Publication.Service.Initial.{publications_of, steps_of_all}
use work_copilot.Operations.Cleanup.Chosen.{mem-removable}
use work_copilot.Publication.Safety.Agreement.{any-left_join, blocks_alone, blocks_with}

by_id-some :
    (ps : List BriefPublication) (i : String)
    → any (λ p. p.id == i) ps ≡ true
    → is_some (publication_by_id (map stored_publication ps) i) ≡ true
by_id-some [] i h = cc
by_id-some (p ∷ ps) i h =
    ground (arith, by_id-some ps i, Option-cases (publication_by_id (map stored_publication ps) i))

-- More steps do not unblock a deletion.
deletion_blocked-grows :
    (ps : List StoredPublicationForDeletion) (ss ss' : List StoredPublicationStepForDeletion)
    → ((s : StoredPublicationStepForDeletion) → Memᴰ s ss → Memᴰ s ss')
    → deletion_blocked ps ss ≡ true
    → deletion_blocked ps ss' ≡ true
unfolding deletion_blocked
deletion_blocked-grows ps ss ss' more h =
    let (p, m, e) = any-witness _ ps h in
    any_of_mem _ ps m (
      any-left_join p ss' ∙ elim (Bool-cases (blocks_alone p)) [
        | inl alone ↦ rw alone refl
        | inr other ↦
            let stepped = rw other at (sym (any-left_join p ss) ∙ e) in
            let (s, n, q) = any-witness _ ss stepped in
            rw other
              (any_of_mem (λ s. (s.publication_id == p.id) && blocks_with p s) ss' (more s n) q)
      ])

-- The steps of a draft's publications belong to them.
BelongTo-steps_of_all :
    (ps : List BriefPublication) (ss : List PublicationStep)
    → BelongTo
        (map stored_publication ps)
        (map stored_step (filter (λ s. any (λ p. p.id == s.publication_id) ps) ss))
BelongTo-steps_of_all ps ss = mem-All _ _ λ y m.
    let (s, n, e) = mem-map stored_step _ m in
    let (_, owned) = mem-filter (λ s. any (λ p. p.id == s.publication_id) ps) ss n in
    rw e (by_id-some ps s.publication_id owned)

-- What the service's guard refuses on the draft's own steps, the job leaves on all steps.
refused-is_blocked :
    (w : World) (i : String)
    → refuses (
        assess_publication_deletion_safety
          (map stored_publication (publications_of i w))
          (map stored_step (steps_of_all (publications_of i w) w)))
      ≡ true
    → is_blocked w i ≡ true
unfolding is_blocked
refused-is_blocked w i h =
    let ps = publications_of i w in
    deletion_blocked-grows (map stored_publication ps) (map stored_step (steps_of_all ps w))
      (map stored_step w.steps)
      (λ y m.
        let (s, n, e) = mem-map stored_step _ m in
        let (k, _) = mem-filter (λ s. any (λ p. p.id == s.publication_id) ps) w.steps n in
        rw e (map-mem stored_step w.steps k))
      (fail_closed (map stored_publication ps) (map stored_step (steps_of_all ps w))
        (BelongTo-steps_of_all ps w.steps) h)

not_chosen :
    (w : World) (cutoff : ℕ) (i : String)
    → is_blocked w i ≡ true
    → is_among (removable w cutoff) i ≡ false
not_chosen w cutoff i blocked = elim (Bool-cases (is_among (removable w cutoff) i)) [
  | inr other ↦ other
  | inl chosen ↦
      let (d, m, e) = any-witness (λ d. d.id == i) (removable w cutoff) chosen in
      let same : d.id ≡ i = (eq_iff d.id i).0 e in
      let free =
        (and_true (deleted_by cutoff d) (not (is_blocked w d.id)) (mem-removable w cutoff m).1).1 in
      absurd (false≢true (rw (same, blocked) at free))
]

-- The publications of the draft, and the steps of these, are there as before.
pub record Retained (d : WorkBriefDraft) (w v : World) : Type 0 where
  pub draft : Memᴰ d v.drafts
  pub publications :
      (p : BriefPublication) → Memᴰ p w.publications → p.draft_id ≡ d.id → Memᴰ p v.publications
  pub steps :
      (p : BriefPublication) (s : PublicationStep)
      → Memᴰ p w.publications
      → p.draft_id ≡ d.id
      → Memᴰ s w.steps
      → s.publication_id ≡ p.id
      → Memᴰ s v.steps

delete_drafts-Retained :
    (ds : List WorkBriefDraft) (w : World) (d : WorkBriefDraft)
    → Unique (λ p. p.id) w.publications
    → Memᴰ d w.drafts
    → is_among ds d.id ≡ false
    → Retained d w (delete_drafts ds w)
unfolding delete_drafts
delete_drafts-Retained ds w d u m n = record {
  draft = filter-mem (λ e. not (is_among ds e.id)) w.drafts m (rw n refl);
  publications =
      λ p k e. filter-mem (λ q. not (is_among ds q.draft_id)) w.publications k (rw (e, n) refl);
  steps = λ p s k e l same.
      filter-mem
        (λ t. not (
          any (λ q. q.id == t.publication_id)
            (filter (λ q. is_among ds q.draft_id) w.publications)))
        w.steps l (rw (kept p s k e same) refl);
}
  where
    kept :
        (p : BriefPublication) (s : PublicationStep)
        → Memᴰ p w.publications
        → p.draft_id ≡ d.id
        → s.publication_id ≡ p.id
        → any (λ q. q.id == s.publication_id) (filter (λ q. is_among ds q.draft_id) w.publications)
          ≡ false
    kept p s k e same =
        elim (Bool-cases (
          any (λ q. q.id == s.publication_id)
            (filter (λ q. is_among ds q.draft_id) w.publications))) [
              | inr none_gone ↦ none_gone
              | inl gone ↦
                  let (q, j, eq) = any-witness (λ q. q.id == s.publication_id) _ gone in
                  let (l, chosen) = mem-filter (λ q. is_among ds q.draft_id) w.publications j in
                  let one : q ≡ p =
                    Unique-mem (λ p. p.id) w.publications u l k
                      ((eq_iff q.id s.publication_id).0 eq ∙ same) in
                  absurd (
                    false≢true
                      (sym n ∙ ap (is_among ds) (sym e ∙ ap (λ r. r.draft_id) (sym one)) ∙ chosen))
            ]

unchanged : (w : World) (d : WorkBriefDraft) → Memᴰ d w.drafts → Retained d w w
unchanged w d m = record { draft = m; publications = λ p k e. k; steps = λ p s k e l same. l }

-- Where no two publications share a key, the retention job deletes no draft that the service
-- would refuse to delete, nor any of its publications and their steps.
pub purge-Retained :
    (locked : Bool) (cutoff : ℕ) (w : World) (d : WorkBriefDraft)
    → Unique (λ p. p.id) w.publications
    → Memᴰ d w.drafts
    → refuses (
        assess_publication_deletion_safety
          (map stored_publication (publications_of d.id w))
          (map stored_step (steps_of_all (publications_of d.id w) w)))
      ≡ true
    → Retained d w (purge_deleted_brief_drafts locked cutoff w).1
unfolding purge_deleted_brief_drafts
purge-Retained false cutoff w d u m h = unchanged w d m
purge-Retained true cutoff w d u m h = elim (Bool-cases (is_empty (removable w cutoff))) [
  | inl idle ↦ rw idle (unchanged w d m)
  | inr busy ↦ rw busy (
      delete_drafts-Retained (removable w cutoff) w d u m
        (not_chosen w cutoff d.id (refused-is_blocked w d.id h)))
]
