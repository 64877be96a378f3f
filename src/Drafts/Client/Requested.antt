-- ===== src/Drafts/Client/Requested.antt =====
-- work-brief-ai-client.service.ts: what an output that the client lets through cites.
use work_copilot.Base.{
  ℕ, ◌<◌, ◌≤◌, String, Bool, true, false, List, [], ◌∷◌, ◌&&◌, ◌||◌, ◌==◌, ◌≡◌, ◌≢◌, refl, sym, ◌∙◌,
  inl, inr, ◌⊎◌, arith, ltb, not, length, All, Memᴰ, map, all, any, Bool-cases, subst, any-witness,
  any_of_mem, all-mem, all_of_mem, and_true, eq_iff, eq_refl, is_empty, All-mem,
}
use work_copilot.Failure.{ok, next_ok, then_ok, passed}
use work_copilot.Brief.Citations.{includes, is_distinct}
use work_copilot.Drafts.Types.{
  WorkBriefCitation, WorkBriefChildTaskOutput, WorkBriefExcludedEvidence, WorkBriefOutput,
  WorkBriefEvidenceInput,
}
use work_copilot.Drafts.Selection.{set_of}
use work_copilot.Drafts.Selection.Sets.{includes-set_of, is_distinct-set_of, is_distinct-within}
use work_copilot.Drafts.Guard.{assert_safe_request, assert_safe_model_output}
use work_copilot.Drafts.Client.{
  AiService, generate_brief, accept_output, has_only_requested_evidence, output_citations,
  cites_requested, cited_ids, excludes_once, excluded_id, cites_all, is_backed, shares, received,
  requested_id, work_brief_output, model_text,
}
use work_copilot.Readiness.Coverage.Complete.{Shared}
use work_copilot.Drafts.Client.Masking.{or_unavailable-ok}

-- The identifiers that were sent, without repetition.
abbrev pub requested_ids : List WorkBriefEvidenceInput → List String
requested_ids evidence = set_of (map requested_id evidence)

-- From one identifier on, none twice, and all of them sent.
abbrev pub IsCited : List String → WorkBriefCitation → Type 0
IsCited requested c =
    (is_empty c.evidence_ids ≡ false)
    × (is_distinct c.evidence_ids ≡ true)
    × All (λ i. Memᴰ i requested) c.evidence_ids

-- Excluded identifiers: sent, none of these, and none twice.
abbrev pub ExcludedOnce : List String → List String → List String → Type 0
ExcludedOnce requested apart [] = Unit
ExcludedOnce requested apart (i ∷ is) =
    Memᴰ i requested × (includes apart i ≡ false) × ExcludedOnce requested (i ∷ apart) is

-- An output that cites what was sent, item by item.
pub record IsRequested (requested : List String) (o : WorkBriefOutput) : Type 0 where
  pub cited : All (IsCited requested) (output_citations o)
  pub excluded :
      ExcludedOnce requested (cited_ids (output_citations o)) (map excluded_id o.excluded_evidence)
  pub accounted :
      (i : String)
      → Memᴰ i requested
      → Memᴰ i (cited_ids (output_citations o)) ⊎ Memᴰ i (map excluded_id o.excluded_evidence)
  pub told_apart :
      1 < length requested
      → ¬ (
          (c : WorkBriefCitation)
          → Memᴰ c (output_citations o)
          → All (λ i. Memᴰ i c.evidence_ids) requested)
  pub criteria :
      (k : WorkBriefCitation)
      → Memᴰ k o.key_points
      → (c : WorkBriefCitation) × Memᴰ c o.acceptance_criteria
        × Shared k.evidence_ids c.evidence_ids
  pub tasks :
      (k : WorkBriefCitation)
      → Memᴰ k o.key_points
      → (t : WorkBriefChildTaskOutput) × Memᴰ t o.child_tasks × Shared k.evidence_ids t.evidence_ids

pub includes-mem : (is : List String) (i : String) → includes is i ≡ true → Memᴰ i is
includes-mem is i h =
    let (j, m, e) = any-witness (λ j. j == i) is h in subst (λ k. Memᴰ k is) ((eq_iff j i).0 e) m

pub mem-includes : (is : List String) (i : String) → Memᴰ i is → includes is i ≡ true
mem-includes is i m = any_of_mem (λ j. j == i) is m (eq_refl i)

all-All :
    (P : String → Type 0) (p : String → Bool) (is : List String)
    → ((i : String) → p i ≡ true → P i)
    → all p is ≡ true
    → All P is
all-All P p [] f h = tt
all-All P p (i ∷ is) f h = let (here, rest) = and_true _ _ h in (f i here, all-All P p is f rest)

cites_requested-IsCited :
    (requested : List String) (c : WorkBriefCitation)
    → cites_requested requested c ≡ true
    → IsCited requested c
cites_requested-IsCited requested c h =
    let known : all (includes requested) c.evidence_ids ≡ true = ground arith in
    (ground arith, ground arith, all-All _ _ c.evidence_ids (includes-mem requested) known)

all_cited :
    (requested : List String) (cs : List WorkBriefCitation)
    → all (cites_requested requested) cs ≡ true
    → All (IsCited requested) cs
all_cited requested [] h = tt
all_cited requested (c ∷ cs) h =
    let (here, rest) = and_true _ _ h in
    (cites_requested-IsCited requested c here, all_cited requested cs rest)

-- What one exclusion passes, with the identifiers that came before it.
excludes_once-ExcludedOnce :
    (requested cited seen apart : List String) (es : List WorkBriefExcludedEvidence)
    → ((i : String) → includes apart i ≡ (includes cited i || includes seen i))
    → excludes_once requested cited seen es ≡ true
    → ExcludedOnce requested apart (map excluded_id es)
unfolding excludes_once
excludes_once-ExcludedOnce requested cited seen apart [] same h = tt
excludes_once-ExcludedOnce requested cited seen apart (e ∷ es) same h =
    let known : includes requested e.evidence_id ≡ true = ground arith in
    let fresh : includes apart e.evidence_id ≡ false = ground (arith, same e.evidence_id) in
    let rest : excludes_once requested cited (e.evidence_id ∷ seen) es ≡ true = ground arith in
    (
      includes-mem requested e.evidence_id known,
      fresh,
      excludes_once-ExcludedOnce requested cited (e.evidence_id ∷ seen) (e.evidence_id ∷ apart) es
          (λ i. ground (arith, same i)) rest,
    )

-- Citations of all that was sent pass the test of it.
cites_all_of :
    (evidence : List WorkBriefEvidenceInput) (c : WorkBriefCitation)
    → cites_requested (requested_ids evidence) c ≡ true
    → All (λ i. Memᴰ i c.evidence_ids) (requested_ids evidence)
    → cites_all (requested_ids evidence) c ≡ true
cites_all_of evidence c h whole =
    let requested = requested_ids evidence in
    let ids = set_of c.evidence_ids in
    let within : all (includes requested) ids ≡ true = all_of_mem (includes requested) ids λ i m.
      all-mem (includes requested) c.evidence_ids (ground arith) (
        includes-mem c.evidence_ids i
          (sym (includes-set_of c.evidence_ids i) ∙ mem-includes ids i m)) in
    let around : all (includes c.evidence_ids) requested ≡ true =
      all_of_mem (includes c.evidence_ids) requested λ i m.
        mem-includes c.evidence_ids i (All-mem (λ i. Memᴰ i c.evidence_ids) requested whole m) in
    let back : all (includes ids) requested ≡ true = all_of_mem (includes ids) requested λ i m.
      includes-set_of c.evidence_ids i ∙ all-mem (includes c.evidence_ids) requested around m in
    let few : length ids ≤ length requested =
      is_distinct-within ids requested (is_distinct-set_of c.evidence_ids) within in
    let many : length requested ≤ length ids =
      is_distinct-within requested ids (is_distinct-set_of (map requested_id evidence)) back in
    ground arith

shares-Shared : (left right : List String) → shares left right ≡ true → Shared left right
shares-Shared left right h =
    let (i, m, e) = any-witness (includes left) right h in (i, includes-mem left i e, m)

is_backed-criterion :
    (o : WorkBriefOutput) (k : WorkBriefCitation)
    → is_backed o k ≡ true
    → any (λ c. shares k.evidence_ids c.evidence_ids) o.acceptance_criteria ≡ true
is_backed-criterion o k h = ground arith

is_backed-task :
    (o : WorkBriefOutput) (k : WorkBriefCitation)
    → is_backed o k ≡ true
    → any (λ t. shares k.evidence_ids t.evidence_ids) o.child_tasks ≡ true
is_backed-task o k h = ground arith

conjuncts :
    (a b c d e f : Bool)
    → (a && (b && (c && (d && (not e && f))))) ≡ true
    → (a ≡ true) × (c ≡ true) × (d ≡ true) × (e ≡ false) × (f ≡ true)
conjuncts true true true true false true h = (refl, refl, refl, refl, refl)
conjuncts true true true true false false h = cc
conjuncts true true true true true f h = cc
conjuncts true true true false e f h = cc
conjuncts true true false d e f h = cc
conjuncts true false c d e f h = cc
conjuncts false b c d e f h = cc

not_all : (n : ℕ) (b : Bool) → 1 < n → b ≡ true → (ltb 1 n && b) ≢ false
not_all n b several h k = ground arith

exclusion :
    (cited excluded : List String) (i : String)
    → (includes cited i || includes excluded i) ≡ true
    → Memᴰ i cited ⊎ Memᴰ i excluded
exclusion cited excluded i h = elim (Bool-cases (includes cited i)) [
  | inl e ↦ inl (includes-mem cited i e)
  | inr e ↦ inr (includes-mem excluded i (ground (arith, e, h)))
]

has_only_requested_evidence-IsRequested :
    (o : WorkBriefOutput) (evidence : List WorkBriefEvidenceInput)
    → has_only_requested_evidence o evidence ≡ true
    → IsRequested (requested_ids evidence) o
unfolding has_only_requested_evidence
has_only_requested_evidence-IsRequested o evidence h =
    let requested = requested_ids evidence in
    let cited = cited_ids (output_citations o) in
    let excluded = map excluded_id o.excluded_evidence in
    let (all_cite, once, accounted, apart, backed) =
      conjuncts (all (cites_requested requested) (output_citations o)) (not (is_empty cited))
        (excludes_once requested cited [] o.excluded_evidence)
        (all (λ i. includes cited i || includes excluded i) requested)
        (ltb 1 (length requested) && all (cites_all requested) (output_citations o))
        (all (is_backed o) o.key_points) h in
    record {
      cited = all_cited requested (output_citations o) all_cite;
      excluded =
          excludes_once-ExcludedOnce requested cited [] cited o.excluded_evidence
            (λ i. ground arith) once;
      accounted = λ i m.
          exclusion cited excluded i
            (all-mem (λ i. includes cited i || includes excluded i) requested accounted m);
      told_apart = λ several each.
          let whole : all (cites_all requested) (output_citations o) ≡ true =
            all_of_mem (cites_all requested) (output_citations o) λ c m.
              cites_all_of evidence c
                (all-mem (cites_requested requested) (output_citations o) all_cite m) (each c m) in
          not_all (length requested) (all (cites_all requested) (output_citations o)) several whole
            apart;
      criteria = λ k m.
          let (c, n, e) =
            any-witness (λ c. shares k.evidence_ids c.evidence_ids) o.acceptance_criteria
              (is_backed-criterion o k (all-mem (is_backed o) o.key_points backed m)) in
          (c, n, shares-Shared k.evidence_ids c.evidence_ids e);
      tasks = λ k m.
          let (t, n, e) =
            any-witness (λ t. shares k.evidence_ids t.evidence_ids) o.child_tasks
              (is_backed-task o k (all-mem (is_backed o) o.key_points backed m)) in
          (t, n, shares-Shared k.evidence_ids t.evidence_ids e);
    }

-- An output that the client returns cites what was sent, item by item, the child tasks included:
-- every item cites something, nothing twice and nothing that was not sent; what was sent is cited or
-- excluded, never both, and excluded once at most; of several pieces of evidence not every item
-- cites all; and every requirement shares evidence with a criterion and with a child task.
pub generate_brief-IsRequested :
    (a : AiService) (instruction : String) (evidence : List WorkBriefEvidenceInput)
    {o : WorkBriefOutput}
    → generate_brief a instruction evidence ≡ ok o
    → IsRequested (requested_ids evidence) o
unfolding generate_brief
generate_brief-IsRequested a instruction evidence {o} h =
    let (one, safe, h1) = next_ok (assert_safe_request a.is_secret instruction evidence) _ h in
    let (payload, read, h2) =
      then_ok (received _ a.api_key (a.answer_generate instruction evidence)) _ h1 in
    let h3 = or_unavailable-ok _ (accept_output a payload evidence) h2 in
    let (output, typed, h4) = then_ok (work_brief_output payload) _ h3 in
    let (two, clean, h5) =
      next_ok (assert_safe_model_output a.is_secret (model_text output)) _ h4 in
    let (only, same) = passed (has_only_requested_evidence output evidence) output _ h5 in
    subst (IsRequested (requested_ids evidence)) same
      (has_only_requested_evidence-IsRequested output evidence only)
