-- ===== src/Publication/Service/Sending.antt =====
-- publication.service.ts: which programs send no write, and what a program that sends one has
-- checked before.
use work_copilot.Base.{
  Bool, true, false, Option, none, some, List, ◌≡◌, refl, ◌⊎◌, inl, inr, ◌∙◌, arith,
}
use work_copilot.Publication.World.Program.{
  Program, require, or_throw, ◌>>=◌, bind_holds, bind_result, bind_ok,
}
use work_copilot.Publication.World.{Outside, World}
use work_copilot.Failure.{Failure, ok}
use work_copilot.Publication.Service.Present.{recover_with, recover_publication_from_steps}
use work_copilot.Publication.Service.Store.{
  save_publication, touch_publication, steps_for, steps_of,
}
use work_copilot.Publication.Types.{BriefPublication, PublicationStep}
use work_copilot.Brief.Types.{WorkBriefDraft}

-- The program sends nothing from `w`, or the condition holds.
abbrev pub OnlyIf : {A : Type 0} → Type 0 → Program A → World → Type 0
OnlyIf Q m w = ((m w).1.writes ≡ w.writes) ⊎ Q

abbrev pub Quiet : {A : Type 0} → Program A → World → Type 0
Quiet m w = (m w).1.writes ≡ w.writes

-- After a program that sends nothing, the rest decides.
pub bind-OnlyIf :
    {A B : Type 0} (Q : Type 0) (m : Program A) (f : A → Program B) (w : World)
    → Quiet m w
    → ((a : A) → (m w).0 ≡ ok a → OnlyIf Q (f a) (m w).1)
    → OnlyIf Q (m >>= f) w
bind-OnlyIf Q m f w quiet rest =
    bind_holds (λ v. (v.writes ≡ w.writes) ⊎ Q) (m w) f (inl quiet)
      λ a e. elim (rest a e) [ inl same ↦ inl (same ∙ quiet) | inr q ↦ inr q ]

pub bind-Quiet :
    {A B : Type 0} (m : Program A) (f : A → Program B) (w : World)
    → Quiet m w
    → ((a : A) → (m w).0 ≡ ok a → Quiet (f a) (m w).1)
    → Quiet (m >>= f) w
bind-Quiet m f w quiet rest =
    bind_holds (λ v. v.writes ≡ w.writes) (m w) f quiet λ a e. rest a e ∙ quiet

-- The checks and the lookups leave the world as it is.
pub require-idle : (b : Bool) (e : Failure) (w : World) → (require b e w).1 ≡ w
require-idle true e w = refl
require-idle false e w = refl

pub require-true :
    (b : Bool) (e : Failure) (w : World) {u : Unit {0}} → (require b e w).0 ≡ ok u → b ≡ true
require-true true e w h = refl
require-true false e w h = cc

pub or_throw-idle : {A : Type 0} (x : Option A) (e : Failure) (w : World) → (or_throw x e w).1 ≡ w
or_throw-idle none e w = refl
or_throw-idle (some a) e w = refl

pub or_throw-some :
    {A : Type 0} (x : Option A) (e : Failure) (w : World) {a : A}
    → (or_throw x e w).0 ≡ ok a
    → x ≡ some a
or_throw-some none e w h = cc
or_throw-some (some b) e w h = cc

-- Programs that leave the world as it is, in sequence.
pub bind-idle :
    {A B : Type 0} (m : Program A) (f : A → Program B) (w : World)
    → (m w).1 ≡ w
    → ((a : A) → (f a w).1 ≡ w)
    → (bind_result (m w) f).1 ≡ w
bind-idle m f w e rest = bind_holds (λ v. v ≡ w) (m w) f e λ a _. rw e (rest a)

pub bind-ok :
    {A B : Type 0} (m : Program A) (f : A → Program B) (w : World) {b : B}
    → (m w).1 ≡ w
    → (bind_result (m w) f).0 ≡ ok b
    → (a : A) × ((m w).0 ≡ ok a) × ((f a w).0 ≡ ok b)
bind-ok m f w e h = let (a, r, k, _) = bind_ok (m w) f h in (a, r, rw e at k)

module _ (o : Outside) where
  pub save_publication-Quiet : (p : BriefPublication) (w : World) → Quiet (save_publication p) w
  unfolding save_publication
  save_publication-Quiet p w = ground arith

  pub recover_with-Quiet :
      (p : BriefPublication) (d : WorkBriefDraft) (steps : List PublicationStep) (w : World)
      → Quiet (recover_with o p d steps) w
  unfolding recover_with touch_publication save_publication
  recover_with-Quiet p d steps w = ground arith

  pub recover-Quiet :
      (p : BriefPublication) (d : WorkBriefDraft) (w : World)
      → Quiet (recover_publication_from_steps o p d) w
  unfolding recover_publication_from_steps steps_for
  recover-Quiet p d w = recover_with-Quiet p d (steps_of p.id w) w
