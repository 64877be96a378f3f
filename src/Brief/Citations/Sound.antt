-- ===== src/Brief/Citations/Sound.antt =====
-- brief-citation-validator.service.ts: what a citation and a task that pass the check are.
use work_copilot.Failure.{then_ok, Result, ok}
use work_copilot.Base.{
  ℕ, suc, ◌≤◌, String, Bool, true, false, Option, none, some, List, [], ◌∷◌, ◌≡◌, ◌≢◌, refl, ◌==◌,
  if◌then◌else◌, not, ltb, length, ◌||◌, trim, text_length, is_empty, arith, All, eq_iff, ap, sym,
  ◌∙◌, trim-shorter, subst, false≢true,
}
use work_copilot.Brief.Citations.{
  null, number, boolean, text, array, object, allowed_ids, Json, max_items, is_distinct,
  max_text_length, checked_text, invalid, includes, is_uuid, max_summary_length, citation_of,
  checked_uuid, citation, all_distinct, evidence_ids_of, child_task, property, items, Fields,
  has_only_keys, checked_boolean, authored,
}
use work_copilot.Brief.Types.{BriefContent, BriefChildTask, EvidenceCitation}

-- A text that is not empty and within the limit.
abbrev pub IsText : ℕ → String → Type 0
IsText limit t = (t ≢ "") × (text_length t ≤ limit)

-- The cited evidence: from one to twenty different identifiers, all of them allowed.
pub record Cites (allowed : List String) (ids : List String) : Type 0 where
  pub some_id : is_empty ids ≡ false
  pub few : length ids ≤ max_items
  pub different : is_distinct ids ≡ true
  pub known : All (λ i. includes allowed i ≡ true) ids

abbrev pub IsCitation : List String → EvidenceCitation → Type 0
IsCitation allowed c = IsText max_text_length c.text × Cites allowed c.evidence_ids

abbrev pub IsTask : List String → BriefChildTask → Type 0
IsTask allowed t =
    IsText max_text_length t.text
    × Cites allowed t.evidence_ids
    × (is_uuid t.client_task_id ≡ true)
    × IsText max_summary_length t.summary

abbrev pub IsSection : {A : Type 0} → (A → Type 0) → List A → Type 0
IsSection P xs = (length xs ≤ max_items) × All P xs

pub record IsBrief (allowed : List String) (c : BriefContent) : Type 0 where
  pub title : IsCitation allowed c.title
  pub summary : IsCitation allowed c.summary
  pub requirements : IsSection (IsCitation allowed) c.requirements
  pub acceptance_criteria : IsSection (IsCitation allowed) c.acceptance_criteria
  pub risks : IsSection (IsCitation allowed) c.risks
  pub next_steps : IsSection (IsCitation allowed) c.next_steps
  pub child_tasks : IsSection (IsTask allowed) c.child_tasks

-- A test that is passed before a result.
pub guarded :
    {A : Type 0} (b : Bool) {r : Result A} {a : A}
    → (if b then invalid else r) ≡ ok a
    → (b ≡ false) × (r ≡ ok a)
guarded true h = cc
guarded false h = (refl, h)

chosen :
    {A : Type 0} (b : Bool) {r : Result A} {a : A}
    → (if b then r else invalid) ≡ ok a
    → (b ≡ true) × (r ≡ ok a)
chosen true h = (refl, h)
chosen false h = cc

or_false : (a b : Bool) → (a || b) ≡ false → (a ≡ false) × (b ≡ false)
or_false a b h = ground arith

pub within : (limit n : ℕ) → ltb limit n ≡ false → n ≤ limit
within limit n h = ground arith

checked_text-IsText :
    (limit : ℕ) (j : Option Json) {t : String} → checked_text limit j ≡ ok t → IsText limit t
checked_text-IsText limit none h = cc
checked_text-IsText limit (some (text s)) {t} h =
    let (tests, same) = guarded ((trim s == "") || ltb limit (text_length s)) h in
    let t_eq : trim s ≡ t = cc same in
    let (worded, short) = or_false (trim s == "") (ltb limit (text_length s)) tests in
    subst (IsText limit) t_eq (
      (λ e. false≢true (sym worded ∙ (eq_iff (trim s) "").1 e)),
      omega (arith, trim-shorter s, within limit (text_length s) short),
    )
checked_text-IsText limit (some null) h = cc
checked_text-IsText limit (some (number k)) h = cc
checked_text-IsText limit (some (boolean b)) h = cc
checked_text-IsText limit (some (array js)) h = cc
checked_text-IsText limit (some (object fs)) h = cc

allowed_ids-known :
    (allowed : List String) (js : List Json) {ids : List String}
    → allowed_ids allowed js ≡ ok ids
    → All (λ i. includes allowed i ≡ true) ids × (length ids ≡ length js)
unfolding allowed_ids
allowed_ids-known allowed [] {ids} h = let e : [] ≡ ids = cc h in rw (← e) (tt, refl)
allowed_ids-known allowed (text i ∷ js) {ids} h =
    let (known, rest) = chosen (includes allowed i) h in
    let (is, r, same) = then_ok (allowed_ids allowed js) _ rest in
    let ids_eq : i ∷ is ≡ ids = cc same in
    let (all_known, count) = allowed_ids-known allowed js {ids = is} r in
    rw (← ids_eq) ((known, all_known), ap suc count)
allowed_ids-known allowed (null ∷ js) h = cc
allowed_ids-known allowed (number k ∷ js) h = cc
allowed_ids-known allowed (boolean b ∷ js) h = cc
allowed_ids-known allowed (array ks ∷ js) h = cc
allowed_ids-known allowed (object fs ∷ js) h = cc

all_distinct-same :
    (is : List String) {ids : List String}
    → all_distinct is ≡ ok ids
    → (is ≡ ids) × (is_distinct is ≡ true)
all_distinct-same is {ids} h =
    let (different, same) = chosen (is_distinct is) h in
    let e : is ≡ ids = cc same in (e, different)

same_emptiness :
    {A B : Type 0} (xs : List A) (ys : List B) → length xs ≡ length ys → is_empty xs ≡ is_empty ys
same_emptiness [] [] h = refl
same_emptiness (x ∷ xs) (y ∷ ys) h = refl
same_emptiness [] (y ∷ ys) h = absurd (omega arith)
same_emptiness (x ∷ xs) [] h = absurd (omega arith)

evidence_ids_of-Cites :
    (allowed : List String) (j : Option Json) {ids : List String}
    → evidence_ids_of allowed j ≡ ok ids
    → Cites allowed ids
unfolding evidence_ids_of
evidence_ids_of-Cites allowed none h = cc
evidence_ids_of-Cites allowed (some (array js)) {ids} h =
    let (tests, rest) = guarded (is_empty (items js) || ltb max_items (length (items js))) h in
    let (full, few) = or_false (is_empty (items js)) (ltb max_items (length (items js))) tests in
    let (is, read, unique) = then_ok (allowed_ids allowed (items js)) _ rest in
    let (same, different) = all_distinct-same is {ids = ids} unique in
    let (known, count) = allowed_ids-known allowed (items js) {ids = is} read in
    subst (Cites allowed) same (record {
      some_id = same_emptiness is (items js) count ∙ full;
      few = omega (arith, count, within max_items (length (items js)) few);
      different = different;
      known = known;
    })
evidence_ids_of-Cites allowed (some null) h = cc
evidence_ids_of-Cites allowed (some (number k)) h = cc
evidence_ids_of-Cites allowed (some (boolean b)) h = cc
evidence_ids_of-Cites allowed (some (text t)) h = cc
evidence_ids_of-Cites allowed (some (object fs)) h = cc

citation_of-IsCitation :
    (allowed additional : List String) (fs : Fields) {c : EvidenceCitation}
    → citation_of allowed additional fs ≡ ok c
    → IsCitation allowed c
unfolding citation_of
citation_of-IsCitation allowed additional fs {c} h =
    let (_, h1) =
      guarded (not (has_only_keys fs ("text" ∷ "evidenceIds" ∷ "userAuthored" ∷ additional))) h in
    let (t, read, h2) = then_ok (checked_text max_text_length (property "text" fs)) _ h1 in
    let (by_user, _, h3) = then_ok (authored (property "userAuthored" fs)) _ h2 in
    let (ids, cited, h4) = then_ok (evidence_ids_of allowed (property "evidenceIds" fs)) _ h3 in
    let made : record { text = t; evidence_ids = ids; user_authored = by_user } ≡ c = cc h4 in
    subst (IsCitation allowed) made (
      checked_text-IsText max_text_length (property "text" fs) {t = t} read,
      evidence_ids_of-Cites allowed (property "evidenceIds" fs) {ids = ids} cited,
    )

pub citation-IsCitation :
    (allowed : List String) (j : Json) {c : EvidenceCitation}
    → citation allowed j ≡ ok c
    → IsCitation allowed c
unfolding citation
citation-IsCitation allowed (object fs) {c} h = citation_of-IsCitation allowed [] fs {c = c} h
citation-IsCitation allowed null h = cc
citation-IsCitation allowed (number k) h = cc
citation-IsCitation allowed (boolean b) h = cc
citation-IsCitation allowed (text t) h = cc
citation-IsCitation allowed (array js) h = cc

checked_uuid-true : (j : Option Json) {t : String} → checked_uuid j ≡ ok t → is_uuid t ≡ true
checked_uuid-true none h = cc
checked_uuid-true (some (text s)) {t} h =
    let (matches, same) = chosen (is_uuid s) h in
    let e : s ≡ t = cc same in subst (λ u. is_uuid u ≡ true) e matches
checked_uuid-true (some null) h = cc
checked_uuid-true (some (number k)) h = cc
checked_uuid-true (some (boolean b)) h = cc
checked_uuid-true (some (array js)) h = cc
checked_uuid-true (some (object fs)) h = cc

pub child_task-IsTask :
    (allowed : List String) (j : Json) {t : BriefChildTask}
    → child_task allowed j ≡ ok t
    → IsTask allowed t
unfolding child_task
child_task-IsTask allowed (object fs) {t} h =
    let (c, cited, h1) =
      then_ok (citation_of allowed ("clientTaskId" ∷ "summary" ∷ "selected" ∷ []) fs) _ h in
    let (i, named, h2) = then_ok (checked_uuid (property "clientTaskId" fs)) _ h1 in
    let (s, summed, h3) = then_ok (checked_text max_summary_length (property "summary" fs)) _ h2 in
    let (b, _, h4) = then_ok (checked_boolean (property "selected" fs)) _ h3 in
    let made : record {
      text = c.text;
      evidence_ids = c.evidence_ids;
      user_authored = c.user_authored;
      client_task_id = i;
      summary = s;
      selected = b;
    }
        ≡ t =
      cc h4 in
    let is_cited =
      citation_of-IsCitation allowed ("clientTaskId" ∷ "summary" ∷ "selected" ∷ []) fs {c = c}
        cited in
    subst (IsTask allowed) made (
      is_cited.0,
      is_cited.1,
      checked_uuid-true (property "clientTaskId" fs) {t = i} named,
      checked_text-IsText max_summary_length (property "summary" fs) {t = s} summed,
    )
child_task-IsTask allowed null h = cc
child_task-IsTask allowed (number k) h = cc
child_task-IsTask allowed (boolean b) h = cc
child_task-IsTask allowed (text t) h = cc
child_task-IsTask allowed (array js) h = cc
