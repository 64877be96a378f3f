-- ===== src/Publication/Safety/Retention.antt =====
-- publication-deletion-safety.ts: the retention job leaves no more than the service refuses.
use work_copilot.Base.{
  String, true, Option, none, some, List, [], ◌∷◌, ◌==◌, ◌&&◌, ◌||◌, ◌≡◌, ◌≢◌, inl, inr, refl,
  arith, any, is_some, Memᴰ, All, false≢true, All-mem, any_of_mem, ◌∙◌, Bool-cases, any-witness,
  Unique, any-or, eq_iff, eq_refl, sym, ap, and_true,
}
use work_copilot.Publication.Safety.{
  StoredPublicationForDeletion, StoredPublicationStepForDeletion,
  assess_publication_deletion_safety, deletion_blocked, publication_by_id, step_wrote, is_active,
  publication_wrote,
}
use work_copilot.Publication.Types.{is_running, truthy}
use work_copilot.Publication.Safety.Agreement.{blocks_with, blocks_alone, any-left_join}
use work_copilot.Publication.Safety.FailClosed.{BelongTo, NamesObjects, refuses, fail_closed}

by_id_none :
    (ps : List StoredPublicationForDeletion) (i : String)
    → All (λ q. q.id ≢ i) ps
    → publication_by_id ps i ≡ none
by_id_none [] i h = refl
by_id_none (q ∷ ps) i (n, h) = rw (by_id_none ps i h) (ground (arith, eq_iff q.id i))

by_id-Unique :
    (ps : List StoredPublicationForDeletion) {p : StoredPublicationForDeletion}
    → Unique (λ q. q.id) ps
    → Memᴰ p ps
    → publication_by_id ps p.id ≡ some p
by_id-Unique [] u m = elim m [ ]
by_id-Unique (q ∷ ps) {p} (n, u) (Memᴰ.head e) = rw (e, by_id_none ps q.id n) (rw (eq_refl q.id))
by_id-Unique (q ∷ ps) {p} (n, u) (Memᴰ.tail m) = rw (by_id-Unique ps u m)

some-truthy : (o : Option String) → o ≢ some "" → is_some o ≡ true → truthy o ≡ true
some-truthy none n h = h
some-truthy (some s) n h = ground (arith, eq_iff s "", λ (e : s ≡ ""). n (ap some e))

module _ (ps : List StoredPublicationForDeletion) (ss : List StoredPublicationStepForDeletion) where
  refuse_publication :
      {p : StoredPublicationForDeletion}
      → Memᴰ p ps
      → (is_active p.status || publication_wrote p) ≡ true
      → refuses (assess_publication_deletion_safety ps ss) ≡ true
  unfolding assess_publication_deletion_safety
  refuse_publication m h = ground (
    arith,
    any_of_mem (λ p. is_active p.status || publication_wrote p) ps m h,
    any-or (λ p. is_active p.status) publication_wrote ps,
  )

  refuse_step :
      {s : StoredPublicationStepForDeletion}
      → Memᴰ s ss
      → (is_running s.status || step_wrote ps s) ≡ true
      → refuses (assess_publication_deletion_safety ps ss) ≡ true
  unfolding assess_publication_deletion_safety
  refuse_step n h = ground (
    arith,
    any_of_mem (λ s. is_running s.status || step_wrote ps s) ss n h,
    any-or (λ s. is_running s.status) (step_wrote ps) ss,
  )

  refuse_with :
      {p : StoredPublicationForDeletion} {s : StoredPublicationStepForDeletion}
      → Memᴰ s ss
      → publication_by_id ps s.publication_id ≡ some p
      → s.provider_object_id ≢ some ""
      → blocks_with p s ≡ true
      → refuses (assess_publication_deletion_safety ps ss) ≡ true
  refuse_with {p} {s} n found named h =
      refuse_step n (rw found (ground (arith, some-truthy s.provider_object_id named)))

  -- What blocks a publication in the SQL is its own state or a step of its own.
  refused_of :
      {p : StoredPublicationForDeletion}
      → Unique (λ p. p.id) ps
      → NamesObjects ps ss
      → Memᴰ p ps
      → (blocks_alone p || any (λ s. (s.publication_id == p.id) && blocks_with p s) ss) ≡ true
      → refuses (assess_publication_deletion_safety ps ss) ≡ true
  refused_of {p} u (named, objects) m h = elim (Bool-cases (blocks_alone p)) [
    | inl alone ↦
        refuse_publication m
          (ground (arith, some-truthy p.confluence_content_id (All-mem _ ps named m)))
    | inr other ↦
        let (s, n, e) = any-witness _ ss (rw other at h) in
        let (same, with) = and_true _ _ e in
        refuse_with {p = p} {s = s} n
          (rw ((eq_iff s.publication_id p.id).0 same) (by_id-Unique ps u m))
          (All-mem _ ss objects n) with
  ]

  refused :
      Unique (λ p. p.id) ps
      → NamesObjects ps ss
      → deletion_blocked ps ss ≡ true
      → refuses (assess_publication_deletion_safety ps ss) ≡ true
  unfolding deletion_blocked
  refused u names h =
      let (p, m, e) = any-witness _ ps h in refused_of u names m (sym (any-left_join p ss) ∙ e)

  -- Where every step belongs to one of the publications, no two publications share a key and no
  -- identifier from a provider is the empty text, the service's guard and the retention job's
  -- SQL say the same.
  pub deletion_blocked-refuses :
      BelongTo ps ss
      → Unique (λ p. p.id) ps
      → NamesObjects ps ss
      → deletion_blocked ps ss ≡ refuses (assess_publication_deletion_safety ps ss)
  deletion_blocked-refuses owned u names = elim (Bool-cases (deletion_blocked ps ss)) [
    | inl b ↦ b ∙ sym (refused u names b)
    | inr b ↦ elim (Bool-cases (refuses (assess_publication_deletion_safety ps ss))) [
      | inl r ↦ absurd (false≢true (sym b ∙ fail_closed ps ss owned r))
      | inr r ↦ b ∙ sym r
    ]
  ]
