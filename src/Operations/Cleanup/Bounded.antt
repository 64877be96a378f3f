-- ===== src/Operations/Cleanup/Bounded.antt =====
-- operations/deleted-brief-draft-cleanup.ts: a run deletes something whenever it may, and not much.
use work_copilot.Base.{
  ℕ, ◌+◌, ◌<◌, ◌≤◌, String, Bool, true, false, List, [], ◌∷◌, ◌==◌, ◌≡◌, refl, any, filter, arith,
  Memᴰ, Bool-cases, inl, inr, is_empty, length, Unique, eq_refl, ◌||◌, subst, any_of_mem, All, ◌≢◌,
  sym, eq_iff, not,
}
use work_copilot.Brief.Types.{WorkBriefDraft}
use work_copilot.Operations.Cleanup.{
  purge_deleted_brief_drafts, is_among, is_removable, max_drafts_per_run, removable, delete_drafts,
}
use work_copilot.Publication.World.{World}
use work_copilot.Operations.Cleanup.Chosen.{mem-removable, removable-bounded, removable-nonempty}

length-filter_or :
    {A : Type 0} (p q : A → Bool) (xs : List A)
    → length (filter (λ x. p x || q x) xs) ≤ length (filter p xs) + length (filter q xs)
length-filter_or p q [] = omega arith
length-filter_or p q (x ∷ xs) = ground (arith, length-filter_or p q xs)

length-filter-not :
    {A : Type 0} (p : A → Bool) (xs : List A)
    → length (filter (λ x. not (p x)) xs) + length (filter p xs) ≡ length xs
length-filter-not p [] = refl
length-filter-not p (x ∷ xs) = ground (arith, length-filter-not p xs)

abbrev draft_key : WorkBriefDraft → String
draft_key d = d.id

no_other_key :
    (i : String) (ds : List WorkBriefDraft)
    → All (λ d. draft_key d ≢ i) ds
    → length (filter (λ d. i == d.id) ds) ≡ 0
no_other_key i [] h = refl
no_other_key i (d ∷ ds) (n, h) = elim (Bool-cases (i == d.id)) [
  | inl e ↦ absurd (n (sym ((eq_iff i d.id).0 e)))
  | inr e ↦ rw e (no_other_key i ds h)
]

length-filter_none : (ds : List WorkBriefDraft) → length (filter (λ d. false) ds) ≤ 0
length-filter_none [] = omega arith
length-filter_none (d ∷ ds) = length-filter_none ds

length-filter_key :
    (i : String) (ds : List WorkBriefDraft)
    → Unique draft_key ds
    → length (filter (λ d. i == d.id) ds) ≤ 1
length-filter_key i [] u = omega arith
length-filter_key i (d ∷ ds) (n, u) = elim (Bool-cases (i == d.id)) [
  | inl e ↦
      let others =
        no_other_key i ds
          (subst (λ k. All (λ y. draft_key y ≢ k) ds) (sym ((eq_iff i d.id).0 e)) n) in
      rw e (omega (arith, others))
  | inr e ↦ rw e (length-filter_key i ds u)
]

-- Where no two drafts share a key, at most as many drafts are among the chosen as are chosen.
length-among :
    (chosen ds : List WorkBriefDraft)
    → Unique draft_key ds
    → length (filter (λ d. is_among chosen d.id) ds) ≤ length chosen
length-among [] ds u = length-filter_none ds
length-among (c ∷ chosen) ds u = omega (
  arith,
  length-filter_or (λ d. c.id == d.id) (λ d. is_among chosen d.id) ds,
  length-filter_key c.id ds u,
  length-among chosen ds u,
)

filter-nonempty :
    {A : Type 0} (p : A → Bool) {x : A} (xs : List A)
    → Memᴰ x xs
    → p x ≡ true
    → 0 < length (filter p xs)
filter-nonempty p [] m h = elim m [ ]
filter-nonempty p {x} (y ∷ xs) (Memᴰ.head e) h =
    let here : p y ≡ true = rw (← e) h in rw here (omega arith)
filter-nonempty p (y ∷ xs) (Memᴰ.tail m) h = ground (arith, filter-nonempty p xs m h)

-- Where no two drafts share a key, and any draft is past the retention time and not blocked, however
-- many blocked ones are older: a run that gets the lock removes one draft at least and 200 at most
-- from the table, and reports as many as it has removed.
pub purge-advances :
    (cutoff : ℕ) (w : World)
    → Unique draft_key w.drafts
    → any (is_removable w cutoff) w.drafts ≡ true
    → let run = purge_deleted_brief_drafts true cutoff w in
      (length run.1.drafts < length w.drafts)
      × (length w.drafts ≤ length run.1.drafts + max_drafts_per_run)
      × (length run.1.drafts + run.0.deleted_count ≡ length w.drafts)
unfolding purge_deleted_brief_drafts delete_drafts
purge-advances cutoff w u h =
    let busy : is_empty (removable w cutoff) ≡ false = rw (removable-nonempty w cutoff, h) refl in
    rw busy (
      omega (arith, first_chosen (removable w cutoff) refl busy, split),
      omega (arith, bounded, split),
      split,
    )
  where
    first_chosen :
        (ds : List WorkBriefDraft)
        → ds ≡ removable w cutoff
        → is_empty ds ≡ false
        → 0 < length (filter (λ d. is_among (removable w cutoff) d.id) w.drafts)
    first_chosen [] e n = cc n
    first_chosen (d ∷ ds) e n =
        let m : Memᴰ d (removable w cutoff) = subst (λ l. Memᴰ d l) e (Memᴰ.head refl) in
        filter-nonempty (λ d. is_among (removable w cutoff) d.id) w.drafts
          (mem-removable w cutoff m).0
          (any_of_mem (λ e. e.id == d.id) (removable w cutoff) m (eq_refl d.id))

    split :
        length (filter (λ d. not (is_among (removable w cutoff) d.id)) w.drafts)
          + length (filter (λ d. is_among (removable w cutoff) d.id) w.drafts)
        ≡ length w.drafts
    split = length-filter-not (λ d. is_among (removable w cutoff) d.id) w.drafts

    bounded :
        length (filter (λ d. is_among (removable w cutoff) d.id) w.drafts) ≤ max_drafts_per_run
    bounded =
        omega (arith, length-among (removable w cutoff) w.drafts u, removable-bounded w cutoff)
