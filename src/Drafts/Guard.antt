-- ===== src/Drafts/Guard.antt =====
-- work-brief-content-guard.service.ts: the bounds of what is sent to the model and of what comes
-- back. The patterns of sensitive texts are a parameter, and their counter is left out.
use work_copilot.Base.{ℕ, ◌+◌, String, Bool, List, [], ◌∷◌, if◌then◌else◌, ltb, length, text_length}
use work_copilot.Failure.{Result, ok, err, bad_request, payload_too_large, ◌>>=◌, ◌>>◌}
use work_copilot.Drafts.Types.{WorkBriefEvidenceInput}

abbrev pub max_evidence_items : ℕ
max_evidence_items = 20

abbrev pub max_evidence_chars : ℕ
max_evidence_chars = 8000

abbrev pub max_total_evidence_chars : ℕ
max_total_evidence_chars = 64000

abbrev pub max_instruction_chars : ℕ
max_instruction_chars = 2000

abbrev pub too_large : {A : Type 0} → Result A
too_large = err (payload_too_large "Work brief evidence is too large.")

abbrev pub assert_length : String → ℕ → Result (Unit {0})
assert_length value most = if ltb most (text_length value) then too_large else ok tt

-- `SECRET_PATTERNS.some((pattern) => pattern.test(value))`
module _ (is_secret : String → Bool) where
  abbrev pub assert_no_secret : String → Result (Unit {0})
  assert_no_secret value =
      if is_secret value then err (bad_request "Sensitive content cannot be processed.") else ok tt

  -- The loop over the evidence, with the characters so far.
  unfoldable pub count_evidence : ℕ → List WorkBriefEvidenceInput → Result ℕ
  count_evidence total [] = ok total
  count_evidence total (item ∷ items) = do
    assert_length item.content max_evidence_chars
    assert_no_secret item.evidence_id
    assert_no_secret item.content
    count_evidence (total + text_length item.content) items

  unfoldable pub assert_safe_request : String → List WorkBriefEvidenceInput → Result (Unit {0})
  unfolding count_evidence
  assert_safe_request instruction evidence = do
    assert_length instruction max_instruction_chars
    (if ltb max_evidence_items (length evidence) then too_large else ok tt)
    total ← count_evidence (text_length instruction) evidence
    (if ltb max_total_evidence_chars total then too_large else ok tt)
    assert_no_secret instruction

  unfoldable pub assert_safe_fragment : String → String → Result (Unit {0})
  assert_safe_fragment evidence_id content = do
    assert_length content max_evidence_chars
    assert_no_secret evidence_id
    assert_no_secret content

  unfoldable pub assert_safe_model_output : List String → Result (Unit {0})
  assert_safe_model_output [] = ok tt
  assert_safe_model_output (value ∷ values) = do
    assert_length value max_evidence_chars
    assert_no_secret value
    assert_safe_model_output values
