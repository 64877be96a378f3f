-- ===== src/Drafts/Listing/Pages.antt =====
-- work-briefs.service.ts: the pages of the list, one after another, are the list.
use work_copilot.Base.{
  ℕ, String, Bool, true, false, List, [], ◌∷◌, ◌≡◌, ◌≢◌, refl, inl, inr, arith, if◌then◌else◌,
  filter, All, Unique, Bool-cases, text_lt, text_lt_trans, text_lt-total, text_lt_irrefl,
}
use work_copilot.Brief.Types.{WorkBriefDraft}
use work_copilot.Webhooks.Freshness.{draft_id_of}
use work_copilot.Drafts.Listing.{
  comes_before_in_time, is_below, micros_of, put_newest_first, newest_first,
}

-- The order is strict, and total between different identifiers.
comes_before_in_time_trans :
    (t u v : ℕ) (i j k : String)
    → comes_before_in_time t i u j ≡ true
    → comes_before_in_time u j v k ≡ true
    → comes_before_in_time t i v k ≡ true
comes_before_in_time_trans t u v i j k h g = ground (arith, text_lt_trans i j k)

comes_before_in_time-total :
    (t u : ℕ) (i j : String)
    → i ≢ j
    → comes_before_in_time t i u j ≡ false
    → comes_before_in_time u j t i ≡ true
comes_before_in_time-total t u i j n h = elim (Bool-cases (text_lt j i)) [
  | inl e ↦ ground (arith, e)
  | inr e ↦ elim (Bool-cases (text_lt i j)) [
    | inl f ↦ ground (arith, e, f)
    | inr f ↦ absurd (n (text_lt-total i j f e))
  ]
]

pub comes_before_in_time_irrefl : (t : ℕ) (i : String) → comes_before_in_time t i t i ≡ false
comes_before_in_time_irrefl t i = ground (arith, text_lt_irrefl i)

pub is_below_trans :
    (c d e : WorkBriefDraft) → is_below c d ≡ true → is_below d e ≡ true → is_below c e ≡ true
is_below_trans c d e h k =
    comes_before_in_time_trans (micros_of e) (micros_of d) (micros_of c) e.id d.id c.id k h

is_below-total :
    (d e : WorkBriefDraft)
    → draft_id_of e ≢ draft_id_of d
    → is_below d e ≡ false
    → is_below e d ≡ true
is_below-total d e n h = comes_before_in_time-total (micros_of e) (micros_of d) e.id d.id n h

-- All of these are older, and a list in the order of the page.
abbrev pub AllBelow : WorkBriefDraft → List WorkBriefDraft → Type 0
AllBelow d ds = All (λ e. is_below d e ≡ true) ds

abbrev pub Descending : List WorkBriefDraft → Type 0
Descending [] = Unit
Descending (d ∷ ds) = AllBelow d ds × Descending ds

AllBelow-trans :
    (c d : WorkBriefDraft) (ds : List WorkBriefDraft)
    → is_below c d ≡ true
    → AllBelow d ds
    → AllBelow c ds
AllBelow-trans c d [] h a = tt
AllBelow-trans c d (e ∷ ds) h (o, a) = (is_below_trans c d e h o, AllBelow-trans c d ds h a)

put-AllBelow :
    (c d : WorkBriefDraft) (ds : List WorkBriefDraft)
    → is_below c d ≡ true
    → AllBelow c ds
    → AllBelow c (put_newest_first d ds)
put-AllBelow c d [] h a = (h, tt)
put-AllBelow c d (e ∷ ds) h (o, a) = elim (Bool-cases (is_below d e)) [
  | inl q ↦ rw q (h, (o, a))
  | inr q ↦ rw q (o, put-AllBelow c d ds h a)
]

put-Descending :
    (d : WorkBriefDraft) (ds : List WorkBriefDraft)
    → All (λ e. draft_id_of e ≢ draft_id_of d) ds
    → Descending ds
    → Descending (put_newest_first d ds)
put-Descending d [] n s = (tt, tt)
put-Descending d (e ∷ ds) (n, ns) (o, s) = elim (Bool-cases (is_below d e)) [
  | inl q ↦ rw q ((q, AllBelow-trans d e ds q o), (o, s))
  | inr q ↦ rw q (put-AllBelow e d ds (is_below-total d e n q) o, put-Descending d ds ns s)
]

put-first :
    (d : WorkBriefDraft) (ds : List WorkBriefDraft) → AllBelow d ds → put_newest_first d ds ≡ d ∷ ds
put-first d [] a = refl
put-first d (e ∷ ds) (o, a) = rw o refl

put-All :
    (P : WorkBriefDraft → Type 0) (d : WorkBriefDraft) (ds : List WorkBriefDraft)
    → P d
    → All P ds
    → All P (put_newest_first d ds)
put-All P d [] p a = (p, tt)
put-All P d (e ∷ ds) p (q, a) = elim (Bool-cases (is_below d e)) [
  | inl o ↦ rw o (p, (q, a))
  | inr o ↦ rw o (q, put-All P d ds p a)
]

newest_first-All :
    (P : WorkBriefDraft → Type 0) (ds : List WorkBriefDraft) → All P ds → All P (newest_first ds)
unfolding newest_first
newest_first-All P [] a = tt
newest_first-All P (d ∷ ds) (p, a) = put-All P d (newest_first ds) p (newest_first-All P ds a)

pub newest_first-Descending :
    (ds : List WorkBriefDraft) → Unique draft_id_of ds → Descending (newest_first ds)
unfolding newest_first
newest_first-Descending [] u = tt
newest_first-Descending (d ∷ ds) (n, u) =
    put-Descending d (newest_first ds) (newest_first-All _ ds n) (newest_first-Descending ds u)

pub filter-All :
    (P : WorkBriefDraft → Type 0) (p : WorkBriefDraft → Bool) (ds : List WorkBriefDraft)
    → All P ds
    → All P (filter p ds)
filter-All P p [] a = tt
filter-All P p (d ∷ ds) (h, a) = elim (Bool-cases (p d)) [
  | inl e ↦ rw e (h, filter-All P p ds a)
  | inr e ↦ rw e (filter-All P p ds a)
]

-- A filter may come before the order or after it.
filter-put :
    (p : WorkBriefDraft → Bool) (d : WorkBriefDraft) (ds : List WorkBriefDraft)
    → Descending ds
    → filter p (put_newest_first d ds)
      ≡ (if p d then put_newest_first d (filter p ds) else filter p ds)
filter-put p d [] s = elim (Bool-cases (p d)) [ inl e ↦ rw e refl | inr e ↦ rw e refl ]
filter-put p d (e ∷ ds) (o, s) = elim (Bool-cases (is_below d e)) [
  | inl q ↦
      let first : put_newest_first d (filter p ds) ≡ d ∷ filter p ds =
        put-first d (filter p ds) (filter-All _ p ds (AllBelow-trans d e ds q o)) in
      rw q (ground (arith, q, first))
  | inr q ↦ rw q (ground (arith, q, filter-put p d ds s))
]

pub newest_first-filter :
    (p : WorkBriefDraft → Bool) (ds : List WorkBriefDraft)
    → Unique draft_id_of ds
    → newest_first (filter p ds) ≡ filter p (newest_first ds)
unfolding newest_first
newest_first-filter p [] u = refl
newest_first-filter p (d ∷ ds) (n, u) = ground (
  arith,
  filter-put p d (newest_first ds) (newest_first-Descending ds u),
  newest_first-filter p ds u,
)
