-- ===== src/Drafts/Content/Masked.antt =====
-- work-briefs.service.ts: `maskContent` puts every masked value back where its text stood.
use mathlib.Core.List.{map-append}
use work_copilot.Base.{
  ℕ, zero, suc, ◌+◌, ◌≡◌, refl, ap, String, List, [], ◌∷◌, ◌++◌, map, length, arith, length-map,
  sym, ◌∙◌, length-append, subst,
}
use work_copilot.Brief.Types.{EvidenceCitation, BriefChildTask, BriefContent}
use work_copilot.Drafts.Content.{
  value_at, replace_citation, replace_from, replace_tasks, replace_values, texts_of, citation_text,
  task_summary, task_citation, all_citations,
}

-- The next `n` values from an index on.
abbrev slice : List String → ℕ → ℕ → List String
slice vs i zero = []
slice vs i (suc n) = value_at i vs ∷ slice vs (suc i) n

slice-later : (v : String) (vs : List String) (i n : ℕ) → slice (v ∷ vs) (suc i) n ≡ slice vs i n
slice-later v vs i zero = refl
slice-later v vs i (suc n) = ap (◌∷◌ (value_at i vs)) (slice-later v vs (suc i) n)

slice-all : (vs : List String) → slice vs 0 (length vs) ≡ vs
slice-all [] = refl
slice-all (v ∷ vs) = ap (◌∷◌ v) (slice-later v vs 0 (length vs) ∙ slice-all vs)

-- These texts are the values from an index on.
abbrev Reads : List String → ℕ → List String → Type 0
Reads vs i xs = xs ≡ slice vs i (length xs)

Reads-append :
    (vs : List String) (i j : ℕ) (xs ys : List String)
    → i + length xs ≡ j
    → Reads vs i xs
    → Reads vs j ys
    → Reads vs i (xs ++ ys)
Reads-append vs i j [] ys e r t = let e' : j ≡ i = omega arith in subst (λ k. Reads vs k ys) e' t
Reads-append vs i j (x ∷ xs) ys e r t =
    let head : x ≡ value_at i vs = cc r in
    let rest : xs ≡ slice vs (suc i) (length xs) = cc r in
    let more : Reads vs (suc i) (xs ++ ys) = Reads-append vs (suc i) j xs ys (omega arith) rest t in
    cc (head, more)

Reads-split :
    (vs : List String) (i j : ℕ) (xs ys : List String)
    → i + length xs ≡ j
    → Reads vs i (xs ++ ys)
    → Reads vs i xs × Reads vs j ys
Reads-split vs i j [] ys e r =
    let e' : i ≡ j = omega arith in (refl, subst (λ k. Reads vs k ys) e' r)
Reads-split vs i j (x ∷ xs) ys e r =
    let head : x ≡ value_at i vs = cc r in
    let rest : xs ++ ys ≡ slice vs (suc i) (length (xs ++ ys)) = cc r in
    let (a, b) = Reads-split vs (suc i) j xs ys (omega arith) rest in (cc (head, a), b)

replace_from-Reads :
    (vs : List String) (i : ℕ) (cs : List EvidenceCitation)
    → Reads vs i (map citation_text (replace_from vs i cs))
unfolding replace_from
replace_from-Reads vs i [] = refl
replace_from-Reads vs i (c ∷ cs) = ap (◌∷◌ (value_at i vs)) (replace_from-Reads vs (suc i) cs)

replace_tasks-Reads :
    (vs : List String) (i j : ℕ) (ts : List BriefChildTask)
    → Reads vs i (map citation_text (map task_citation (replace_tasks vs i j ts)))
      × Reads vs j (map task_summary (replace_tasks vs i j ts))
unfolding replace_tasks
replace_tasks-Reads vs i j [] = (refl, refl)
replace_tasks-Reads vs i j (t ∷ ts) =
    let (a, b) = replace_tasks-Reads vs (suc i) (suc j) ts in
    (ap (◌∷◌ (value_at i vs)) a, ap (◌∷◌ (value_at j vs)) b)

-- Texts that are read already are replaced by themselves.
replace_from-idle :
    (vs : List String) (i : ℕ) (cs : List EvidenceCitation)
    → Reads vs i (map citation_text cs)
    → replace_from vs i cs ≡ cs
unfolding replace_from
replace_from-idle vs i [] r = refl
replace_from-idle vs i (c ∷ cs) r = cc (replace_from-idle vs (suc i) cs (cc r), r)

replace_tasks-idle :
    (vs : List String) (i j : ℕ) (ts : List BriefChildTask)
    → Reads vs i (map citation_text (map task_citation ts))
    → Reads vs j (map task_summary ts)
    → replace_tasks vs i j ts ≡ ts
unfolding replace_tasks
replace_tasks-idle vs i j [] r q = refl
replace_tasks-idle vs i j (t ∷ ts) r q =
    cc (replace_tasks-idle vs (suc i) (suc j) ts (cc r) (cc q), r, q)

-- A second replacement leaves nothing of the first.
replace_from-twice :
    (vs ws : List String) (i j : ℕ) (cs : List EvidenceCitation)
    → replace_from ws j (replace_from vs i cs) ≡ replace_from ws j cs
unfolding replace_from
replace_from-twice vs ws i j [] = refl
replace_from-twice vs ws i j (c ∷ cs) =
    ap (◌∷◌ (record c { text = value_at j ws })) (replace_from-twice vs ws (suc i) (suc j) cs)

replace_tasks-twice :
    (vs ws : List String) (i j k l : ℕ) (ts : List BriefChildTask)
    → replace_tasks ws k l (replace_tasks vs i j ts) ≡ replace_tasks ws k l ts
unfolding replace_tasks
replace_tasks-twice vs ws i j k l [] = refl
replace_tasks-twice vs ws i j k l (t ∷ ts) =
    ap (◌∷◌ (record t { text = value_at k ws; summary = value_at l ws }))
      (replace_tasks-twice vs ws (suc i) (suc j) (suc k) (suc l) ts)

length-replace_from :
    (vs : List String) (i : ℕ) (cs : List EvidenceCitation)
    → length (replace_from vs i cs) ≡ length cs
unfolding replace_from
length-replace_from vs i [] = refl
length-replace_from vs i (c ∷ cs) = ap suc (length-replace_from vs (suc i) cs)

length-replace_tasks :
    (vs : List String) (i j : ℕ) (ts : List BriefChildTask)
    → length (replace_tasks vs i j ts) ≡ length ts
unfolding replace_tasks
length-replace_tasks vs i j [] = refl
length-replace_tasks vs i j (t ∷ ts) = ap suc (length-replace_tasks vs (suc i) (suc j) ts)

replace_values-twice :
    (c : BriefContent) (vs ws : List String)
    → replace_values (replace_values c vs) ws ≡ replace_values c ws
unfolding replace_values
replace_values-twice c vs ws = simp (
  length-replace_from, length-replace_tasks, replace_from-twice, replace_tasks-twice, length-append,
  length-map,
)

-- The same of the texts of citations.
abbrev Cited : List String → ℕ → List EvidenceCitation → Type 0
Cited vs i cs = Reads vs i (map citation_text cs)

module _ (vs : List String) (i j : ℕ) (cs ds : List EvidenceCitation) (e : i + length cs ≡ j) where
  Cited-append : Cited vs i cs → Cited vs j ds → Cited vs i (cs ++ ds)
  Cited-append r t =
      rw (map-append citation_text cs ds)
        (Reads-append vs i j _ _ (omega (arith, length-map citation_text cs)) r t)

  Cited-split : Cited vs i (cs ++ ds) → Cited vs i cs × Cited vs j ds
  Cited-split r =
      Reads-split vs i j _ _ (omega (arith, length-map citation_text cs))
        (rw (map-append citation_text cs ds) at r)

-- What a replacement reads.
replace_values-Reads :
    (c : BriefContent) (vs : List String) → Reads vs 0 (texts_of (replace_values c vs))
unfolding texts_of replace_values
replace_values-Reads c vs =
    let tasks = replace_tasks-Reads vs _ (length (all_citations c)) c.child_tasks in
    Reads-append vs 0 (length (all_citations c)) _ _
      (simp (length-map, length-append, length-replace_from, length-replace_tasks) (omega arith))
      (Cited-append vs 0 2 (replace_citation vs 0 c.title ∷ replace_citation vs 1 c.summary ∷ []) _
        refl refl
        (Cited-append vs 2 _ _ _ (omega (arith, length-replace_from))
          (replace_from-Reads vs 2 c.requirements)
          (Cited-append vs _ _ _ _ (omega (arith, length-replace_from))
            (replace_from-Reads vs _ c.acceptance_criteria)
            (Cited-append vs _ _ _ _ (omega (arith, length-replace_from))
              (replace_from-Reads vs _ c.risks)
              (Cited-append vs _ _ _ _ (omega (arith, length-replace_from))
                (replace_from-Reads vs _ c.next_steps) tasks.0)))))
      tasks.1

replace_values-idle : (c : BriefContent) → replace_values c (texts_of c) ≡ c
unfolding texts_of replace_values
replace_values-idle c =
    let vs = texts_of c in
    let whole : Reads vs 0 vs = sym (slice-all vs) in
    let (cited, summaries) =
      Reads-split vs 0 (length (all_citations c)) _ _ (simp length-map (omega arith)) whole in
    let (first, rs) = Cited-split vs 0 2 (c.title ∷ c.summary ∷ []) _ refl cited in
    let (requirements, as') = Cited-split vs 2 _ c.requirements _ refl rs in
    let (criteria, ks) = Cited-split vs _ _ c.acceptance_criteria _ refl as' in
    let (risks, ns) = Cited-split vs _ _ c.risks _ refl ks in
    let (steps, tasks) = Cited-split vs _ _ c.next_steps _ refl ns in
    cc (
      replace_from-idle vs _ c.requirements requirements,
      replace_from-idle vs _ c.acceptance_criteria criteria,
      replace_from-idle vs _ c.risks risks,
      replace_from-idle vs _ c.next_steps steps,
      replace_tasks-idle vs _ _ c.child_tasks tasks summaries,
    )

length-texts :
    (c : BriefContent) (vs : List String)
    → length (texts_of (replace_values c vs)) ≡ length (texts_of c)
unfolding texts_of replace_values
length-texts c vs =
    simp (length-map, length-append, length-replace_from, length-replace_tasks) (omega arith)

-- `maskContent` of as many values as the client was given: the texts of the masked content are the
-- masked values, each where its text stood, and nothing else has changed: with the texts put back,
-- the content is the one before.
pub replace_values-texts :
    (c : BriefContent) (vs : List String)
    → length vs ≡ length (texts_of c)
    → (texts_of (replace_values c vs) ≡ vs)
      × (replace_values (replace_values c vs) (texts_of c) ≡ c)
replace_values-texts c vs same = (
  replace_values-Reads c vs ∙ ap (slice vs 0) (length-texts c vs ∙ sym same) ∙ slice-all vs,
  replace_values-twice c vs (texts_of c) ∙ replace_values-idle c,
)
