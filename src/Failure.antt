-- ===== src/Failure.antt =====
-- The exceptions of the services, as values: the HTTP exceptions with their code or message, and
-- the errors of the database.
use work_copilot.Base.{Bool, true, false, if◌then◌else◌, refl, ◌≡◌, ℕ, String, Option}

pub data Failure : Type 0 where
  bad_request unauthorized forbidden not_found conflict : String → Failure
  -- `DRAFT_VERSION_CONFLICT`, with the current and the expected version
  version_conflict : ℕ → Option ℕ → Failure
  -- a draft that is not current, with its version after the mark
  freshness_conflict : String → ℕ → Failure
  -- the unique violation of the database, code 23505
  duplicate_key : Failure
  payload_too_large service_unavailable : String → Failure
  -- any other error
  other : String → Failure

pub data Result {ℓ} (A : Type ℓ) : Type ℓ where
  ok : A → Result A
  err : Failure → Result A

-- The next computation runs if this one returns.
infixl 5 ◌>>=◌
infixl 5 ◌>>◌
abbrev pub ◌>>=◌ {ℓ κ} : {A : Type ℓ} {B : Type κ} → Result A → (A → Result B) → Result B
ok a >>= f = f a
err e >>= f = err e

abbrev pub ◌>>◌ {ℓ κ} : {A : Type ℓ} {B : Type κ} → Result A → Result B → Result B
ok a >> r = r
err e >> r = err e

-- Inversion of a computation that returns.
pub then_ok {ℓ κ} :
    {A : Type ℓ} {B : Type κ} (r : Result A) (f : A → Result B) {b : B}
    → r >>= f ≡ ok b
    → (a : A) × (r ≡ ok a) × (f a ≡ ok b)
then_ok (ok a) f h = (a, refl, h)
then_ok (err e) f h = cc

pub next_ok {ℓ κ} :
    {A : Type ℓ} {B : Type κ} (r : Result A) (q : Result B) {b : B}
    → r >> q ≡ ok b
    → (a : A) × (r ≡ ok a) × (q ≡ ok b)
next_ok (ok a) q h = (a, refl, h)
next_ok (err e) q h = cc

-- A test that has to pass.
pub passed {ℓ} :
    {A : Type ℓ} (b : Bool) (a : A) (e : Failure) {c : A}
    → (if b then ok a else err e) ≡ ok c
    → (b ≡ true) × (a ≡ c)
passed true a e h = (refl, cc h)
passed false a e h = cc
