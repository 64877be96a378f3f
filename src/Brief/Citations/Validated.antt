-- ===== src/Brief/Citations/Validated.antt =====
-- brief-citation-validator.service.ts: what a brief that passes the check is.
use work_copilot.Failure.{then_ok, ok, Result}
use work_copilot.Base.{
  suc, String, Option, none, some, List, [], ◌∷◌, ◌≡◌, refl, not, ltb, length, arith, All, ap,
  subst,
}
use work_copilot.Brief.Citations.{
  null, number, boolean, text, array, object, child_task, section, one, Json, validate, each,
  max_items, has_required_keys, items, citation, property,
}
use work_copilot.Brief.Citations.Sound.{
  IsSection, IsBrief, guarded, within, citation-IsCitation, child_task-IsTask, IsCitation, IsTask,
}
use work_copilot.Brief.Types.{BriefContent, EvidenceCitation, BriefChildTask}

module _ {A : Type 0} (f : Json → Result A) (P : A → Type 0)
    (sound : (j : Json) (a : A) → f j ≡ ok a → P a) where
  each-All : (js : List Json) {xs : List A} → each f js ≡ ok xs → All P xs × (length xs ≡ length js)
  each-All [] {xs} h = let e : [] ≡ xs = cc h in rw (← e) (tt, refl)
  each-All (j ∷ js) {xs} h =
      let (a, read, h1) = then_ok (f j) _ h in
      let (read_all, rest, h2) = then_ok (each f js) _ h1 in
      let made : a ∷ read_all ≡ xs = cc h2 in
      let (sounds, count) = each-All js {xs = read_all} rest in
      rw (← made) ((sound j a read, sounds), ap suc count)

  section-IsSection : (j : Option Json) {xs : List A} → section f j ≡ ok xs → IsSection P xs
  unfolding section
  section-IsSection none h = cc
  section-IsSection (some (array js)) {xs} h =
      let (few, rest) = guarded (ltb max_items (length (items js))) h in
      let (sounds, count) = each-All (items js) {xs = xs} rest in
      (omega (arith, count, within max_items (length (items js)) few), sounds)
  section-IsSection (some null) h = cc
  section-IsSection (some (number k)) h = cc
  section-IsSection (some (boolean b)) h = cc
  section-IsSection (some (text t)) h = cc
  section-IsSection (some (object fs)) h = cc

  one-sound : (j : Option Json) {a : A} → one f j ≡ ok a → P a
  one-sound none h = cc
  one-sound (some j) {a} h = sound j a h

-- A brief that passes the check has in every section at most twenty items; each text is not empty
-- and at most 8,000 units long, a task's summary at most 512, and its identifier a UUID; and each
-- citation names from one to twenty different pieces of evidence, all of them allowed.
pub validate-IsBrief :
    (allowed : List String) (j : Json) (c : BriefContent)
    → validate allowed j ≡ ok c
    → IsBrief allowed c
unfolding validate
validate-IsBrief allowed (object fs) c h =
    let (_, h0) = guarded (not (has_required_keys fs)) h in
    let (title, e1, h1) = then_ok (one (citation allowed) (property "title" fs)) _ h0 in
    let (summary, e2, h2) = then_ok (one (citation allowed) (property "summary" fs)) _ h1 in
    let (requirements, e3, h3) =
      then_ok (section (citation allowed) (property "requirements" fs)) _ h2 in
    let (criteria, e4, h4) =
      then_ok (section (citation allowed) (property "acceptanceCriteria" fs)) _ h3 in
    let (risks, e5, h5) = then_ok (section (citation allowed) (property "risks" fs)) _ h4 in
    let (next_steps, e6, h6) =
      then_ok (section (citation allowed) (property "nextSteps" fs)) _ h5 in
    let (tasks, e7, h7) = then_ok (section (child_task allowed) (property "childTasks" fs)) _ h6 in
    let made : record {
      title = title;
      summary = summary;
      requirements = requirements;
      acceptance_criteria = criteria;
      risks = risks;
      next_steps = next_steps;
      child_tasks = tasks;
    }
        ≡ c =
      cc h7 in
    let cited = λ (j : Json) (a : EvidenceCitation). citation-IsCitation allowed j {c = a} in
    let tasked = λ (j : Json) (a : BriefChildTask). child_task-IsTask allowed j {t = a} in
    subst (IsBrief allowed) made (record {
      title =
          one-sound (citation allowed) (IsCitation allowed) cited (property "title" fs) {a = title}
            e1;
      summary =
          one-sound (citation allowed) (IsCitation allowed) cited (property "summary" fs)
            {a = summary} e2;
      requirements =
          section-IsSection (citation allowed) (IsCitation allowed) cited
            (property "requirements" fs) {xs = requirements} e3;
      acceptance_criteria =
          section-IsSection (citation allowed) (IsCitation allowed) cited
            (property "acceptanceCriteria" fs) {xs = criteria} e4;
      risks =
          section-IsSection (citation allowed) (IsCitation allowed) cited (property "risks" fs)
            {xs = risks} e5;
      next_steps =
          section-IsSection (citation allowed) (IsCitation allowed) cited (property "nextSteps" fs)
            {xs = next_steps} e6;
      child_tasks =
          section-IsSection (child_task allowed) (IsTask allowed) tasked (property "childTasks" fs)
            {xs = tasks} e7;
    })
validate-IsBrief allowed null c h = cc
validate-IsBrief allowed (number k) c h = cc
validate-IsBrief allowed (boolean b) c h = cc
validate-IsBrief allowed (text t) c h = cc
validate-IsBrief allowed (array js) c h = cc
