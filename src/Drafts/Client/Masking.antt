-- ===== src/Drafts/Client/Masking.antt =====
-- work-brief-ai-client.service.ts and work-briefs.service.ts: what masking leaves of a brief.
use work_copilot.Base.{
  ℕ, ◌≤◌, String, Bool, false, List, [], ◌∷◌, ◌≡◌, sym, ap, ◌∙◌, inl, inr, arith, ltb, eqb, length,
  All, Bool-cases, text_length, subst,
}
use work_copilot.Failure.{Result, ok, err, bad_request, next_ok, then_ok, passed}
use work_copilot.Brief.Citations.{Json, null, number, boolean, text, array, object, property}
use work_copilot.Brief.Types.{BriefContent}
use work_copilot.Publication.World.{World}
use work_copilot.Publication.World.Program.{bind_ok, lift}
use work_copilot.Drafts.Types.{Sources, for_masking}
use work_copilot.Drafts.Guard.{
  assert_length, assert_no_secret, assert_safe_model_output, max_evidence_chars, too_large,
}
use work_copilot.Drafts.Client.{
  AiService, or_unavailable, sanitized_values, sanitize_values, served_by, array_value, string_item,
  accept_values, received,
}
use work_copilot.Drafts.Content.{mask_content, replace_values, texts_of}
use work_copilot.Drafts.Content.Masked.{replace_values-texts}

-- A text within the bound and without a match of the patterns.
abbrev pub IsSafe : (String → Bool) → String → Type 0
IsSafe is_secret t = (text_length t ≤ max_evidence_chars) × (is_secret t ≡ false)

assert_length-short : (t : String) (most : ℕ) → assert_length t most ≡ ok tt → text_length t ≤ most
assert_length-short t most h = elim (Bool-cases (ltb most (text_length t))) [
  | inl e ↦ let failed : ◌≡◌ {A = Result (Unit {0})} too_large (ok tt) = rw e at h in cc
  | inr e ↦ ground arith
]

assert_no_secret-clean :
    (is_secret : String → Bool) (t : String)
    → assert_no_secret is_secret t ≡ ok tt
    → is_secret t ≡ false
assert_no_secret-clean is_secret t h = elim (Bool-cases (is_secret t)) [
  | inl e ↦
      let failed : ◌≡◌ {A = Result (Unit {0})}
          (err (bad_request "Sensitive content cannot be processed.")) (ok tt) =
        rw e at h in
      cc
  | inr e ↦ e
]

pub assert_safe_model_output-IsSafe :
    (is_secret : String → Bool) (ts : List String)
    → assert_safe_model_output is_secret ts ≡ ok tt
    → All (IsSafe is_secret) ts
unfolding assert_safe_model_output
assert_safe_model_output-IsSafe is_secret [] h = tt
assert_safe_model_output-IsSafe is_secret (t ∷ ts) h =
    let (one, short, h1) = next_ok (assert_length t max_evidence_chars) _ h in
    let (two, clean, h2) = next_ok (assert_no_secret is_secret t) _ h1 in
    (
      (assert_length-short t max_evidence_chars short, assert_no_secret-clean is_secret t clean),
      assert_safe_model_output-IsSafe is_secret ts h2,
    )

pub or_unavailable-ok :
    {A : Type 0} (message : String) (r : Result A) {a : A}
    → or_unavailable message r ≡ ok a
    → r ≡ ok a
or_unavailable-ok message (ok b) h = h
or_unavailable-ok message (err e) h = cc

sanitized_values-length :
    (n : ℕ) (j : Json) {vs : List String} → sanitized_values n j ≡ ok vs → length vs ≡ n
sanitized_values-length n (object fs) {vs} h =
    let (us, read, h1) = then_ok (array_value string_item (property "values" fs)) _ h in
    let (same, e) = passed (eqb (length us) n) us _ h1 in
    let count : length us ≡ n = ground (arith, same) in ap length (sym e) ∙ count
sanitized_values-length n null h = cc
sanitized_values-length n (number k) h = cc
sanitized_values-length n (boolean b) h = cc
sanitized_values-length n (text t) h = cc
sanitized_values-length n (array js) h = cc

sanitize_values-IsSafe :
    (a : AiService) (ts : List String) {vs : List String}
    → sanitize_values a ts ≡ ok vs
    → (length vs ≡ length ts) × All (IsSafe a.is_secret) vs
unfolding sanitize_values
sanitize_values-IsSafe a ts {vs} h =
    let (one, safe, h1) = next_ok (assert_safe_model_output a.is_secret ts) _ h in
    let (payload, read, h2) = then_ok (received _ a.api_key (a.answer_sanitize ts)) _ h1 in
    let h3 = or_unavailable-ok _ (accept_values a (length ts) payload) h2 in
    let (us, typed, h4) = then_ok (sanitized_values (length ts) payload) _ h3 in
    let (two, clean, h5) = next_ok (assert_safe_model_output a.is_secret us) _ h4 in
    let e : us ≡ vs = cc h5 in
    (
      ap length (sym e) ∙ sanitized_values-length (length ts) payload typed,
      subst (All (IsSafe a.is_secret)) e (assert_safe_model_output-IsSafe a.is_secret us clean),
    )

mask_content-values :
    (s : Sources) (c : BriefContent) (w : World) {masked : BriefContent}
    → (mask_content s c w).0 ≡ ok masked
    → (vs : List String) × (s.sanitize (texts_of c) ≡ ok vs) × (replace_values c vs ≡ masked)
unfolding mask_content
mask_content-values s c w h =
    let (vs, answered, kept, _) =
      bind_ok (lift (s.sanitize (texts_of c)) (s.meanwhile for_masking w)) _ h in
    (vs, answered, cc kept)

-- A brief that the drafts' service has masked with this client holds texts that are at most 8,000
-- units long and match no pattern of a sensitive text, and differs from the brief before in nothing
-- but these texts: with the texts put back where they stood, it is the brief before.
pub mask_content-IsSafe :
    (a : AiService) (s : Sources) (c : BriefContent) (w : World) {masked : BriefContent}
    → (mask_content (served_by a s) c w).0 ≡ ok masked
    → All (IsSafe a.is_secret) (texts_of masked) × (replace_values masked (texts_of c) ≡ c)
mask_content-IsSafe a s c w {masked} h =
    let (vs, answered, e) = mask_content-values (served_by a s) c w h in
    let (count, safe) = sanitize_values-IsSafe a (texts_of c) answered in
    let (texts, back) = replace_values-texts c vs count in
    (
      subst (All (IsSafe a.is_secret)) (sym texts ∙ ap texts_of e) safe,
      ap (λ b. replace_values b (texts_of c)) (sym e) ∙ back,
    )
