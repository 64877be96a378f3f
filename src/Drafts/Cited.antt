-- ===== src/Drafts/Cited.antt =====
-- work-briefs.service.ts: where a brief cites an evidence, part by part.
use work_copilot.Base.{
  String, true, List, [], ◌∷◌, ◌++◌, ◌≡◌, ◌⊎◌, ◌↔◌, refl, inl, inr, any, Memᴰ, any-witness,
  any_of_mem, mem-map, map-mem, subst,
}
use work_copilot.Brief.Types.{BriefContent, EvidenceCitation, BriefChildTask}
use work_copilot.Drafts.Content.{all_citations, cites, task_citation}
use work_copilot.Drafts.Client.Requested.{includes-mem, mem-includes}

-- The parts of a brief that can name an evidence.
pub data CitedIn (i : String) (c : BriefContent) : Type 0 where
  by_title : Memᴰ i c.title.evidence_ids → CitedIn i c
  by_summary : Memᴰ i c.summary.evidence_ids → CitedIn i c
  by_requirement :
      (e : EvidenceCitation) → Memᴰ e c.requirements → Memᴰ i e.evidence_ids → CitedIn i c
  by_criterion :
      (e : EvidenceCitation) → Memᴰ e c.acceptance_criteria → Memᴰ i e.evidence_ids → CitedIn i c
  by_risk : (e : EvidenceCitation) → Memᴰ e c.risks → Memᴰ i e.evidence_ids → CitedIn i c
  by_next_step : (e : EvidenceCitation) → Memᴰ e c.next_steps → Memᴰ i e.evidence_ids → CitedIn i c
  by_child_task : (t : BriefChildTask) → Memᴰ t c.child_tasks → Memᴰ i t.evidence_ids → CitedIn i c

mem-append :
    {x : EvidenceCitation} (xs ys : List EvidenceCitation)
    → Memᴰ x (xs ++ ys)
    → Memᴰ x xs ⊎ Memᴰ x ys
mem-append [] ys m = inr m
mem-append (z ∷ xs) ys (Memᴰ.head e) = inl (Memᴰ.head e)
mem-append (z ∷ xs) ys (Memᴰ.tail m) = elim (mem-append xs ys m) [
  | inl k ↦ inl (Memᴰ.tail k)
  | inr k ↦ inr k
]

mem_left : {x : EvidenceCitation} (xs ys : List EvidenceCitation) → Memᴰ x xs → Memᴰ x (xs ++ ys)
mem_left [] ys m = elim m [ ]
mem_left (z ∷ xs) ys (Memᴰ.head e) = Memᴰ.head e
mem_left (z ∷ xs) ys (Memᴰ.tail m) = Memᴰ.tail (mem_left xs ys m)

mem_right : {x : EvidenceCitation} (xs ys : List EvidenceCitation) → Memᴰ x ys → Memᴰ x (xs ++ ys)
mem_right [] ys m = m
mem_right (z ∷ xs) ys m = Memᴰ.tail (mem_right xs ys m)

-- Which part a citation of the list is from.
cited_part :
    (i : String) (c : BriefContent) (e : EvidenceCitation)
    → Memᴰ e (all_citations c)
    → Memᴰ i e.evidence_ids
    → CitedIn i c
cited_part i c e (Memᴰ.head q) k = by_title (subst (λ f. Memᴰ i f.evidence_ids) q k)
cited_part i c e (Memᴰ.tail (Memᴰ.head q)) k = by_summary (subst (λ f. Memᴰ i f.evidence_ids) q k)
cited_part i c e (Memᴰ.tail (Memᴰ.tail m)) k = elim (mem-append c.requirements _ m) [
  | inl n ↦ by_requirement e n k
  | inr m ↦ elim (mem-append c.acceptance_criteria _ m) [
    | inl n ↦ by_criterion e n k
    | inr m ↦ elim (mem-append c.risks _ m) [
      | inl n ↦ by_risk e n k
      | inr m ↦ elim (mem-append c.next_steps _ m) [
        | inl n ↦ by_next_step e n k
        | inr n ↦
            let (t, at, q) = mem-map task_citation c.child_tasks n in
            by_child_task t at (subst (λ f. Memᴰ i f.evidence_ids) q k)
      ]
    ]
  ]
]

-- A citation of a part is in the list.
listed_part :
    (i : String) (c : BriefContent)
    → CitedIn i c
    → (e : EvidenceCitation) × Memᴰ e (all_citations c) × Memᴰ i e.evidence_ids
listed_part i c (by_title k) = (c.title, Memᴰ.head refl, k)
listed_part i c (by_summary k) = (c.summary, Memᴰ.tail (Memᴰ.head refl), k)
listed_part i c (by_requirement e m k) = (e, Memᴰ.tail (Memᴰ.tail (mem_left c.requirements _ m)), k)
listed_part i c (by_criterion e m k) =
    let inner = mem_left c.acceptance_criteria _ m in
    (e, Memᴰ.tail (Memᴰ.tail (mem_right c.requirements _ inner)), k)
listed_part i c (by_risk e m k) =
    let inner = mem_right c.acceptance_criteria _ (mem_left c.risks _ m) in
    (e, Memᴰ.tail (Memᴰ.tail (mem_right c.requirements _ inner)), k)
listed_part i c (by_next_step e m k) =
    let inner =
      mem_right c.acceptance_criteria _ (mem_right c.risks _ (mem_left c.next_steps _ m)) in
    (e, Memᴰ.tail (Memᴰ.tail (mem_right c.requirements _ inner)), k)
listed_part i c (by_child_task t m k) =
    let inner =
      mem_right c.acceptance_criteria _
        (mem_right c.risks _ (mem_right c.next_steps _ (map-mem task_citation c.child_tasks m))) in
    (task_citation t, Memᴰ.tail (Memᴰ.tail (mem_right c.requirements _ inner)), k)

pub all_citations-CitedIn :
    (i : String) (c : BriefContent) → (any (cites i) (all_citations c) ≡ true) ↔ CitedIn i c
all_citations-CitedIn i c = (
  λ h.
      let (e, m, q) = any-witness (cites i) (all_citations c) h in
      cited_part i c e m (includes-mem e.evidence_ids i q),
  λ cited.
      let (e, m, k) = listed_part i c cited in
      any_of_mem (cites i) (all_citations c) m (mem-includes e.evidence_ids i k),
)
