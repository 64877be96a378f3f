-- ===== src/Brief/Citations.antt =====
-- work-briefs/brief-citation-validator.service.ts: the check of a brief that the model or the user
-- wrote, a JSON value, against the evidence that it may cite.
pub mod Sound
pub mod Validated
use Prim.Native.Char.{code}
use work_copilot.Failure.{◌>>=◌, Result, err, ok, bad_request}
use work_copilot.Base.{
  ℕ, suc, String, Bool, true, false, Option, none, some, List, [], ◌∷◌, ◌++◌, ◌==◌, if◌then◌else◌,
  any, all, not, ltb, leb, eqb, length, ◌&&◌, ◌||◌, trim, text_length, is_empty, find,
}
use work_copilot.Brief.Types.{EvidenceCitation, BriefChildTask, BriefContent}

-- A JSON value; a number is a natural number, for no other is read. No object has a key twice.
mutual
  pub data Json : Type 0 where
    null : Json
    number : ℕ → Json
    boolean : Bool → Json
    text : String → Json
    array : Items → Json
    object : Fields → Json

  pub data Items : Type 0 where
    nil : Items
    cons : Json → Items → Items

  pub data Fields : Type 0 where
    end : Fields
    field : String → Json → Fields → Fields

abbrev pub max_text_length : ℕ
max_text_length = 8000

abbrev pub max_items : ℕ
max_items = 20

abbrev pub max_summary_length : ℕ
max_summary_length = 512

abbrev pub items : Items → List Json
items nil = []
items (cons j js) = j ∷ items js

abbrev pub keys : Fields → List String
keys end = []
keys (field k j fs) = k ∷ keys fs

-- A property of an object, `none` where it is undefined.
abbrev pub property : String → Fields → Option Json
property k end = none
property k (field l j fs) = if l == k then some j else property k fs

abbrev pub invalid : {A : Type 0} → Result A
invalid = err (bad_request "Brief citations are invalid.")

abbrev pub includes : List String → String → Bool
includes ks k = any (λ l. l == k) ks

unfoldable pub has_only_keys : Fields → List String → Bool
has_only_keys fs allowed = all (includes allowed) (keys fs)

-- `UUID_PATTERN`, position by position.
abbrev pub is_hex : ℕ → Bool
is_hex c = (leb 48 c && leb c 57) || (leb 97 c && leb c 102) || (leb 65 c && leb c 70)

abbrev pub fits_uuid : ℕ → ℕ → Bool
fits_uuid i c =
    if eqb i 8 || eqb i 13 || eqb i 18 || eqb i 23
    then eqb c 45
    else if eqb i 14
    then leb 49 c && leb c 53
    else if eqb i 19
    then eqb c 56 || eqb c 57 || eqb c 97 || eqb c 98 || eqb c 65 || eqb c 66
    else is_hex c

unfoldable pub uuid_from : ℕ → String → Bool
uuid_from i String.[] = eqb i 36
uuid_from i (String.◌∷◌ c s) =
    let rest = uuid_from (suc i) s in ltb i 36 && fits_uuid i (code c) && rest

unfoldable pub is_uuid : String → Bool
is_uuid s = uuid_from 0 s

-- `new Set(evidenceIds).size === evidenceIds.length`.
abbrev pub is_distinct : List String → Bool
is_distinct [] = true
is_distinct (i ∷ is) = not (includes is i) && is_distinct is

unfoldable pub allowed_ids : List String → List Json → Result (List String)
allowed_ids allowed [] = ok []
allowed_ids allowed (text i ∷ js) =
    if includes allowed i then (do rest ← allowed_ids allowed js; ok (i ∷ rest)) else invalid
allowed_ids allowed (_ ∷ js) = invalid

abbrev pub all_distinct : List String → Result (List String)
all_distinct is = if is_distinct is then ok is else invalid

unfoldable pub evidence_ids_of : List String → Option Json → Result (List String)
evidence_ids_of allowed (some (array js)) =
    if is_empty (items js) || ltb max_items (length (items js))
    then invalid
    else (do is ← allowed_ids allowed (items js); all_distinct is)
evidence_ids_of allowed _ = invalid

-- `typeof … === 'string'`, with the tests of its text.
abbrev pub checked_text : ℕ → Option Json → Result String
checked_text limit (some (text t)) =
    if (trim t == "") || ltb limit (text_length t) then invalid else ok (trim t)
checked_text limit _ = invalid

-- `userAuthored` is kept only if it is true.
abbrev pub authored : Option Json → Result (Option Bool)
authored none = ok none
authored (some (boolean true)) = ok (some true)
authored (some (boolean false)) = ok none
authored (some _) = invalid

unfoldable pub citation_of : List String → List String → Fields → Result EvidenceCitation
citation_of allowed additional fs =
    if not (has_only_keys fs ("text" ∷ "evidenceIds" ∷ "userAuthored" ∷ additional))
    then invalid
    else (do
      t ← checked_text max_text_length (property "text" fs)
      by_user ← authored (property "userAuthored" fs)
      is ← evidence_ids_of allowed (property "evidenceIds" fs)
      ok (record { text = t; evidence_ids = is; user_authored = by_user }))

unfoldable pub citation : List String → Json → Result EvidenceCitation
citation allowed (object fs) = citation_of allowed [] fs
citation allowed _ = invalid

abbrev pub checked_uuid : Option Json → Result String
checked_uuid (some (text t)) = if is_uuid t then ok t else invalid
checked_uuid _ = invalid

abbrev pub checked_boolean : Option Json → Result Bool
checked_boolean (some (boolean b)) = ok b
checked_boolean _ = invalid

unfoldable pub child_task : List String → Json → Result BriefChildTask
child_task allowed (object fs) = do
  c ← citation_of allowed ("clientTaskId" ∷ "summary" ∷ "selected" ∷ []) fs
  i ← checked_uuid (property "clientTaskId" fs)
  s ← checked_text max_summary_length (property "summary" fs)
  chosen ← checked_boolean (property "selected" fs)
  ok (record {
    text = c.text;
    evidence_ids = c.evidence_ids;
    user_authored = c.user_authored;
    client_task_id = i;
    summary = s;
    selected = chosen;
  })
child_task allowed _ = invalid

-- `value.map(item => …)`, whose first exception ends it.
abbrev pub each : {A : Type 0} → (Json → Result A) → List Json → Result (List A)
each f [] = ok []
each f (j ∷ js) = do a ← f j; rest ← each f js; ok (a ∷ rest)

unfoldable pub section : {A : Type 0} → (Json → Result A) → Option Json → Result (List A)
section f (some (array js)) =
    if ltb max_items (length (items js)) then invalid else each f (items js)
section f _ = invalid

abbrev pub one : {A : Type 0} → (Json → Result A) → Option Json → Result A
one f (some j) = f j
one f none = invalid

abbrev pub required_keys : List String
required_keys =
    "title" ∷ "summary" ∷ "requirements" ∷ "acceptanceCriteria" ∷ "risks" ∷ "nextSteps"
    ∷ "childTasks" ∷ []

abbrev pub has_required_keys : Fields → Bool
has_required_keys fs =
    eqb (length (keys fs)) (length required_keys) && all (includes (keys fs)) required_keys

unfoldable pub validate : List String → Json → Result BriefContent
validate allowed (object fs) = if not (has_required_keys fs) then invalid else (do
  title ← one (citation allowed) (property "title" fs)
  summary ← one (citation allowed) (property "summary" fs)
  requirements ← section (citation allowed) (property "requirements" fs)
  acceptance_criteria ← section (citation allowed) (property "acceptanceCriteria" fs)
  risks ← section (citation allowed) (property "risks" fs)
  next_steps ← section (citation allowed) (property "nextSteps" fs)
  child_tasks ← section (child_task allowed) (property "childTasks" fs)
  ok (record {
    title = title;
    summary = summary;
    requirements = requirements;
    acceptance_criteria = acceptance_criteria;
    risks = risks;
    next_steps = next_steps;
    child_tasks = child_tasks;
  }))
validate allowed _ = invalid
