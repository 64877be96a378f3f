-- ===== src/Operations/Cleanup/Chosen.antt =====
-- operations/deleted-brief-draft-cleanup.ts: which drafts a run chooses.
use work_copilot.Base.{
  ◌<◌, ◌≤◌, length, ◌∙◌, zero, ℕ, suc, true, false, List, [], ◌∷◌, ◌≡◌, refl, any, filter, not,
  arith, Memᴰ, Bool-cases, inl, inr, is_empty, mem-filter, empty-filter,
}
use work_copilot.Operations.Cleanup.{
  removable, limit, put_in_order, max_drafts_per_run, in_order, is_removable, comes_first,
}
use work_copilot.Brief.Types.{WorkBriefDraft}
use work_copilot.Publication.World.{World}

pub mem-limit {ℓ} : {A : Type ℓ} {x : A} (n : ℕ) (xs : List A) → Memᴰ x (limit n xs) → Memᴰ x xs
mem-limit n [] m = m
mem-limit zero (y ∷ xs) m = elim m [ ]
mem-limit (suc n) (y ∷ xs) (Memᴰ.head e) = Memᴰ.head e
mem-limit (suc n) (y ∷ xs) (Memᴰ.tail m) = Memᴰ.tail (mem-limit n xs m)

mem-put_in_order :
    {x : WorkBriefDraft} (d : WorkBriefDraft) (ds : List WorkBriefDraft)
    → Memᴰ x (put_in_order d ds)
    → Memᴰ x (d ∷ ds)
mem-put_in_order d [] m = m
mem-put_in_order {x} d (e ∷ ds) m = elim (Bool-cases (comes_first d e)) [
  | inl first ↦ rw first at m
  | inr later ↦
      let n : Memᴰ x (e ∷ put_in_order d ds) = rw later at m in
      elim n [
        | Memᴰ.head q ↦ Memᴰ.tail (Memᴰ.head q)
        | Memᴰ.tail k ↦ elim (mem-put_in_order d ds k) [
          | Memᴰ.head q ↦ Memᴰ.head q
          | Memᴰ.tail j ↦ Memᴰ.tail (Memᴰ.tail j)
        ]
      ]
]

mem-in_order : {x : WorkBriefDraft} (ds : List WorkBriefDraft) → Memᴰ x (in_order ds) → Memᴰ x ds
mem-in_order [] m = m
mem-in_order (d ∷ ds) m = elim (mem-put_in_order d (in_order ds) m) [
  | Memᴰ.head q ↦ Memᴰ.head q
  | Memᴰ.tail k ↦ Memᴰ.tail (mem-in_order ds k)
]

-- What a run chooses may be removed.
pub mem-removable :
    (w : World) (cutoff : ℕ) {d : WorkBriefDraft}
    → Memᴰ d (removable w cutoff)
    → Memᴰ d w.drafts × (is_removable w cutoff d ≡ true)
unfolding removable
mem-removable w cutoff {d} m =
    mem-filter (is_removable w cutoff) w.drafts
      (mem-in_order (filter (is_removable w cutoff) w.drafts) (mem-limit max_drafts_per_run _ m))

put_in_order-nonempty :
    (d : WorkBriefDraft) (ds : List WorkBriefDraft) → is_empty (put_in_order d ds) ≡ false
put_in_order-nonempty d [] = refl
put_in_order-nonempty d (e ∷ ds) = ground arith

limit-nonempty : {A : Type 0} (n : ℕ) (xs : List A) → 0 < n → is_empty (limit n xs) ≡ is_empty xs
limit-nonempty n [] h = refl
limit-nonempty zero (x ∷ xs) h = absurd (omega arith)
limit-nonempty (suc n) (x ∷ xs) h = refl

in_order-nonempty : (ds : List WorkBriefDraft) → is_empty (in_order ds) ≡ is_empty ds
in_order-nonempty [] = refl
in_order-nonempty (d ∷ ds) = put_in_order-nonempty d (in_order ds)

-- A run chooses no draft only if none may be removed.
pub removable-nonempty :
    (w : World) (cutoff : ℕ)
    → is_empty (removable w cutoff) ≡ not (any (is_removable w cutoff) w.drafts)
unfolding removable
removable-nonempty w cutoff =
    limit-nonempty max_drafts_per_run (in_order (filter (is_removable w cutoff) w.drafts))
      (omega arith)
    ∙ in_order-nonempty (filter (is_removable w cutoff) w.drafts)
    ∙ empty-filter (is_removable w cutoff) w.drafts

limit-bounded : {A : Type 0} (n : ℕ) (xs : List A) → length (limit n xs) ≤ n
limit-bounded n [] = omega arith
limit-bounded zero (x ∷ xs) = omega arith
limit-bounded (suc n) (x ∷ xs) = omega (arith, limit-bounded n xs)

pub removable-bounded : (w : World) (cutoff : ℕ) → length (removable w cutoff) ≤ max_drafts_per_run
unfolding removable
removable-bounded w cutoff = limit-bounded max_drafts_per_run _
