-- ===== src/Publication/World/Program.antt =====
-- The service's methods: they change the world, and may throw. What was written before an exception
-- stays written.
use work_copilot.Base.{ℕ, suc, String, Bool, true, false, Option, none, some, List, refl, ◌≡◌}
use work_copilot.Failure.{Failure, Result, ok, err}
use work_copilot.Publication.Types.{PublicationStep}
use work_copilot.Publication.Claimer.{Draw}
use work_copilot.Publication.World.{World, Outside}

abbrev pub Program : Type 0 → Type 0
Program A = World → Result A × World

abbrev pub bind_result : {A B : Type 0} → Result A × World → (A → Program B) → Result B × World
bind_result (ok a, w) f = f a w
bind_result (err e, w) f = (err e, w)

infixl 5 ◌>>=◌ ◌>>◌
abbrev pub ◌>>=◌ : {A B : Type 0} → Program A → (A → Program B) → Program B
◌>>=◌ m f w = bind_result (m w) f

abbrev pub ◌>>◌ : {B : Type 0} → Program (Unit {0}) → Program B → Program B
m >> k = m >>= λ _. k

abbrev pub pure : {A : Type 0} → A → Program A
pure a w = (ok a, w)

abbrev pub throw : {A : Type 0} → Failure → Program A
throw e w = (err e, w)

abbrev pub lift : {A : Type 0} → Result A → Program A
lift r w = (r, w)

-- A call that reads the tables and may throw.
abbrev pub ask : {A : Type 0} → (World → Result A) → Program A
ask f w = (f w, w)

-- `if (!test) throw failure`.
abbrev pub require : Bool → Failure → Program (Unit {0})
require true e = pure tt
require false e = throw e

abbrev pub gets : {A : Type 0} → (World → A) → Program A
gets f w = (ok (f w), w)

abbrev pub modify : (World → World) → Program (Unit {0})
modify f w = (ok tt, f w)

abbrev pub or_throw : {A : Type 0} → Option A → Failure → Program A
or_throw none e = throw e
or_throw (some a) e = pure a

-- `new Date()`.
abbrev pub new_date : Outside → Program ℕ
new_date o w = (ok w.clock, record w { clock = o.tick w.clock })

-- `randomUUID()`, and the keys that the database draws.
abbrev pub random_uuid : Outside → Program String
random_uuid o w = (ok (o.uuid w.drawn), record w { drawn = suc w.drawn })

abbrev pub draw : Outside → Program Draw
draw o = do now ← new_date o; token ← random_uuid o; pure (record { now = now; token = token })

-- A conditional update of the steps.
abbrev pub on_steps : {A : Type 0} → (List PublicationStep → A × List PublicationStep) → Program A
on_steps f w = (ok (f w.steps).0, record w { steps = (f w.steps).1 })

-- What the first program establishes and every continuation keeps, holds after both.
pub bind_holds :
    {A B : Type 0} (P : World → Type 0) (p : Result A × World) (f : A → Program B)
    → P p.1
    → ((a : A) → p.0 ≡ ok a → P (f a p.1).1)
    → P (bind_result p f).1
bind_holds P (ok a, w) f h k = k a refl
bind_holds P (err e, w) f h k = h

-- Inversion of a program that returns.
pub bind_ok :
    {A B : Type 0} (p : Result A × World) (f : A → Program B) {b : B}
    → (bind_result p f).0 ≡ ok b
    → (a : A) × (p.0 ≡ ok a) × ((f a p.1).0 ≡ ok b) × ((bind_result p f).1 ≡ (f a p.1).1)
bind_ok (ok a, w) f h = (a, refl, h, refl)
bind_ok (err e, w) f h = cc

-- A program that is known to return hands its value and its world on.
pub bind-ok_at :
    {A B : Type 0} (p : Result A × World) (f : A → Program B) {a : A}
    → p.0 ≡ ok a
    → bind_result p f ≡ f a p.1
bind-ok_at (ok b, w) f {a} h = let same : b ≡ a = cc h in rw same refl
bind-ok_at (err e, w) f h = cc
