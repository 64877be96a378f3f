-- ===== src/Drafts/Listing/Paged.antt =====
-- work-briefs.service.ts: what stands on a page, and what is left for the pages after it.
use work_copilot.Base.{
  ℕ, zero, suc, ◌+◌, ◌<◌, ◌≤◌, Bool, true, false, none, some, List, [], ◌∷◌, ◌++◌, ◌≡◌, refl, ap,
  inl, inr, arith, ltb, length, filter, Bool-cases, ◌&&◌, All-mem, Memᴰ, ◌⊎◌, All, eqb, ◌∙◌, eqb-eq,
  text_lt_irrefl,
}
use work_copilot.Operations.Cleanup.{limit}
use work_copilot.Brief.Types.{WorkBriefDraft}
use work_copilot.Drafts.Listing.{is_below, cursor_of, micros_of, cursor_after, is_older}
use work_copilot.Drafts.Listing.Pages.{
  Descending, AllBelow, is_below_trans, comes_before_in_time_irrefl,
}
use work_copilot.Publication.Service.Store.{last?}

pub filter-and :
    (p q : WorkBriefDraft → Bool) (ds : List WorkBriefDraft)
    → filter (λ d. p d && q d) ds ≡ filter q (filter (λ d. p d && true) ds)
filter-and p q [] = refl
filter-and p q (d ∷ ds) = ground (arith, filter-and p q ds)

filter-below :
    (x : WorkBriefDraft) (ds : List WorkBriefDraft) → AllBelow x ds → filter (is_below x) ds ≡ ds
filter-below x [] a = refl
filter-below x (d ∷ ds) (o, a) = rw o (ap (◌∷◌ d) (filter-below x ds a))

mem_middle :
    (before : List WorkBriefDraft) (x : WorkBriefDraft) (after : List WorkBriefDraft)
    → Memᴰ x (before ++ x ∷ after)
mem_middle [] x after = Memᴰ.head refl
mem_middle (d ∷ before) x after = Memᴰ.tail (mem_middle before x after)

not_older_both : (d x : WorkBriefDraft) → is_below d x ≡ true → is_below x d ≡ false
not_older_both d x h = elim (Bool-cases (is_below x d)) [
  | inl both ↦
      let e : is_below d d ≡ true = is_below_trans d x d h both in
      let i : is_below d d ≡ false = comes_before_in_time_irrefl (micros_of d) d.id in absurd (cc)
  | inr e ↦ e
]

-- In a list in order, what is older than an element is what stands after it.
filter-suffix :
    (x : WorkBriefDraft) (before after : List WorkBriefDraft)
    → Descending (before ++ x ∷ after)
    → filter (is_below x) (before ++ x ∷ after) ≡ after
filter-suffix x [] after (o, s) =
    rw (comes_before_in_time_irrefl (micros_of x) x.id) (filter-below x after o)
filter-suffix x (d ∷ before) after (o, s) =
    let newer : is_below d x ≡ true =
      All-mem _ (before ++ x ∷ after) o (mem_middle before x after) in
    rw (not_older_both d x newer) (filter-suffix x before after s)

-- A cursor that comes from a row whose time no other row shares below the millisecond selects what
-- stands below the row.
older-below :
    (x e : WorkBriefDraft)
    → x.updated_micros < 1000
    → e.updated_micros < 1000
    → (x.updated_at ≡ e.updated_at → (x ≡ e) ⊎ (x.updated_micros ≡ 0))
    → is_older (cursor_of x) e ≡ is_below x e
older-below x e p q apart = elim (Bool-cases (eqb x.updated_at e.updated_at)) [
  | inl same ↦ elim (apart (eqb-eq _ _ same)) [
    | inl one ↦ rw one (ground (arith, text_lt_irrefl e.id))
    | inr whole ↦ ground arith
  ]
  | inr differ ↦ ground arith
]

filter-agree :
    (p q : WorkBriefDraft → Bool) (ds : List WorkBriefDraft)
    → ((e : WorkBriefDraft) → Memᴰ e ds → p e ≡ q e)
    → filter p ds ≡ filter q ds
filter-agree p q [] h = refl
filter-agree p q (d ∷ ds) h =
    rw (h d (Memᴰ.head refl), filter-agree p q ds (λ e m. h e (Memᴰ.tail m))) refl

-- Every time is given in milliseconds and microseconds beyond.
abbrev pub WithinMillisecond : List WorkBriefDraft → Type 0
WithinMillisecond ds = All (λ d. d.updated_micros < 1000) ds

-- Two drafts in the same millisecond both stand at its beginning.
abbrev pub ToldApart : List WorkBriefDraft → Type 0
ToldApart ds =
    (d e : WorkBriefDraft)
    → Memᴰ d ds
    → Memᴰ e ds
    → d.updated_at ≡ e.updated_at
    → (d ≡ e) ⊎ (d.updated_micros ≡ 0)

pub filter-cursor :
    (x : WorkBriefDraft) (before after : List WorkBriefDraft)
    → WithinMillisecond (before ++ x ∷ after)
    → ToldApart (before ++ x ∷ after)
    → Descending (before ++ x ∷ after)
    → filter (is_older (cursor_of x)) (before ++ x ∷ after) ≡ after
filter-cursor x before after within apart s =
    let here = mem_middle before x after in
    filter-agree (is_older (cursor_of x)) (is_below x) (before ++ x ∷ after) (λ e m.
      older-below x e (All-mem _ (before ++ x ∷ after) within here)
        (All-mem _ (before ++ x ∷ after) within m) (apart x e here m))
    ∙ filter-suffix x before after s

limit-zero : (ds : List WorkBriefDraft) → limit zero ds ≡ []
limit-zero [] = refl
limit-zero (d ∷ ds) = refl

last-cons :
    (d x : WorkBriefDraft) (ds : List WorkBriefDraft) → last? ds ≡ some x → last? (d ∷ ds) ≡ some x
last-cons d x [] h = cc
last-cons d x (e ∷ ds) h = h

-- A page that is not the last ends in an element, and the rest follows.
pub limit-split :
    (n : ℕ) (ds : List WorkBriefDraft)
    → 0 < n
    → n < length ds
    → (init : List WorkBriefDraft) × (x : WorkBriefDraft) × (after : List WorkBriefDraft) × (ds
        ≡ init ++ x ∷ after)
      × (limit n ds ≡ init ++ x ∷ [])
      × (last? (limit n ds) ≡ some x)
limit-split zero ds p q = absurd (omega arith)
limit-split (suc n) [] p q = absurd (omega arith)
limit-split (suc zero) (d ∷ ds) p q =
    ([], d, ds, refl, ap (◌∷◌ d) (limit-zero ds), rw (limit-zero ds) refl)
limit-split (suc (suc n)) (d ∷ ds) p q =
    let (init, x, after, whole, page, last) = limit-split (suc n) ds (omega arith) (omega arith) in
    (d ∷ init, x, after, ap (◌∷◌ d) whole, ap (◌∷◌ d) page, last-cons d x (limit (suc n) ds) last)

limit-all : (n : ℕ) (ds : List WorkBriefDraft) → length ds ≤ n → limit n ds ≡ ds
limit-all n [] h = refl
limit-all zero (d ∷ ds) h = absurd (omega arith)
limit-all (suc n) (d ∷ ds) h = ap (◌∷◌ d) (limit-all n ds (omega arith))

limit-limit : (n : ℕ) (ds : List WorkBriefDraft) → limit n (limit (suc n) ds) ≡ limit n ds
limit-limit n [] = refl
limit-limit zero (d ∷ ds) = refl
limit-limit (suc n) (d ∷ ds) = ap (◌∷◌ d) (limit-limit n ds)

length-limit : (n : ℕ) (ds : List WorkBriefDraft) → n ≤ length ds → length (limit n ds) ≡ n
length-limit zero ds h = rw (limit-zero ds) refl
length-limit (suc n) [] h = absurd (omega arith)
length-limit (suc n) (d ∷ ds) h = ap suc (length-limit n ds (omega arith))

pub page-whole :
    (n : ℕ) (ds : List WorkBriefDraft)
    → length ds ≤ n
    → (cursor_after n (limit (n + 1) ds) (limit n (limit (n + 1) ds)) ≡ none)
      × (limit n (limit (n + 1) ds) ≡ ds)
page-whole n ds h =
    let rows : limit (n + 1) ds ≡ ds = limit-all (n + 1) ds (omega arith) in
    let items : limit n ds ≡ ds = limit-all n ds h in
    let short : ltb n (length ds) ≡ false = ground arith in (rw rows (rw short refl), rw rows items)

pub page-part :
    (n : ℕ) (ds : List WorkBriefDraft) (x : WorkBriefDraft)
    → n < length ds
    → last? (limit n ds) ≡ some x
    → (cursor_after n (limit (n + 1) ds) (limit n (limit (n + 1) ds)) ≡ some (cursor_of x))
      × (limit n (limit (n + 1) ds) ≡ limit n ds)
page-part n ds x h last =
    let next : n + 1 ≡ suc n = omega arith in
    let items : limit n (limit (n + 1) ds) ≡ limit n ds = rw next (limit-limit n ds) in
    let rows : length (limit (n + 1) ds) ≡ n + 1 = length-limit (n + 1) ds (omega arith) in
    let long : ltb n (length (limit (n + 1) ds)) ≡ true = ground (arith, rows) in
    (rw (long, items, last) refl, items)

pub append_assoc : (xs ys zs : List WorkBriefDraft) → xs ++ (ys ++ zs) ≡ (xs ++ ys) ++ zs
append_assoc [] ys zs = refl
append_assoc (x ∷ xs) ys zs = ap (◌∷◌ x) (append_assoc xs ys zs)

pub length-after :
    (x : WorkBriefDraft) (init after : List WorkBriefDraft)
    → length after < length (init ++ x ∷ after)
length-after x [] after = omega arith
length-after x (d ∷ init) after = let shorter = length-after x init after in omega arith
