-- ===== src/Drafts/Selection/Sets.antt =====
-- Sets of identifiers, as lists without repetition: `new Set(ids)` and its size.
use work_copilot.Base.{
  ◌≤◌, ◌<◌, String, true, false, List, [], ◌∷◌, ◌==◌, ◌&&◌, ◌≡◌, refl, sym, ap, ◌∙◌, inl, inr,
  arith, not, length, filter, all, Bool-cases, eq_iff, eq_refl,
}
use work_copilot.Brief.Citations.{includes, is_distinct}
use work_copilot.Drafts.Selection.{set_of}

abbrev without : String → List String → List String
without i is = filter (λ j. not (j == i)) is

eq_swap : (i j : String) → (i == j) ≡ (j == i)
eq_swap i j = elim (Bool-cases (i == j)) [
  | inl e ↦ rw ((eq_iff i j).0 e) refl
  | inr e ↦ elim (Bool-cases (j == i)) [
    | inl f ↦
        let same : (i == j) ≡ true = (eq_iff i j).1 (sym ((eq_iff j i).0 f)) in
        absurd (cc (e, same))
    | inr f ↦ e ∙ sym f
  ]
]

includes-without :
    (i k : String) (is : List String) → includes (without i is) k ≡ (includes is k && not (k == i))
includes-without i k [] = refl
includes-without i k (j ∷ is) = elim (Bool-cases (j == i)) [
  | inl e ↦ elim (Bool-cases (j == k)) [
    | inl f ↦
        let same : (k == i) ≡ true = (eq_iff k i).1 (sym ((eq_iff j k).0 f) ∙ (eq_iff j i).0 e) in
        ground (arith, e, f, same, includes-without i k is)
    | inr f ↦ ground (arith, e, f, includes-without i k is)
  ]
  | inr e ↦ elim (Bool-cases (j == k)) [
    | inl f ↦
        let same : (k == i) ≡ false = ap (λ l. l == i) (sym ((eq_iff j k).0 f)) ∙ e in
        ground (arith, e, f, same)
    | inr f ↦ ground (arith, e, f, includes-without i k is)
  ]
]

pub includes-set_of : (is : List String) (k : String) → includes (set_of is) k ≡ includes is k
includes-set_of [] k = refl
includes-set_of (i ∷ is) k =
    ground (arith, includes-without i k (set_of is), includes-set_of is k, eq_swap i k)

is_distinct-without :
    (i : String) (is : List String) → is_distinct is ≡ true → is_distinct (without i is) ≡ true
is_distinct-without i [] h = refl
is_distinct-without i (j ∷ is) h = ground (arith, is_distinct-without i is, includes-without i j is)

pub is_distinct-set_of : (is : List String) → is_distinct (set_of is) ≡ true
is_distinct-set_of [] = refl
is_distinct-set_of (i ∷ is) = ground (
  arith,
  includes-without i i (set_of is),
  eq_refl i,
  is_distinct-without i (set_of is) (is_distinct-set_of is),
)

length-without : (i : String) (is : List String) → length (without i is) ≤ length is
length-without i [] = omega arith
length-without i (j ∷ is) = ground (arith, length-without i is)

without-shorter :
    (i : String) (is : List String) → includes is i ≡ true → length (without i is) < length is
without-shorter i [] h = cc
without-shorter i (j ∷ is) h = ground (arith, without-shorter i is, length-without i is)

all-without :
    (i : String) (is js : List String)
    → includes is i ≡ false
    → all (includes js) is ≡ true
    → all (includes (without i js)) is ≡ true
all-without i [] js n h = refl
all-without i (k ∷ is) js n h = ground (arith, includes-without i k js, all-without i is js)

-- A set within a list is at most as long.
pub is_distinct-within :
    (is js : List String)
    → is_distinct is ≡ true
    → all (includes js) is ≡ true
    → length is ≤ length js
is_distinct-within [] js d h = omega arith
is_distinct-within (i ∷ is) js d h =
    let shorter : length (without i js) < length js = without-shorter i js (ground arith) in
    let rest : length is ≤ length (without i js) =
      is_distinct-within is (without i js) (ground arith)
        (all-without i is js (ground arith) (ground arith)) in
    omega arith
