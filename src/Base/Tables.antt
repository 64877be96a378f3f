-- ===== src/Base/Tables.antt =====
-- A database table as the list of its rows, with a text for its key.
use Prim.Native.Nat.{ℕ}
use Prim.Native.String.{String}
use mathlib.Core.Path.{sym, ◌∙◌, ◌≡◌, refl, subst, ap}
use mathlib.Core.Logic.{inl, inr, ◌≢◌}
use mathlib.Core.Bool.{Bool, true, ◌&&◌}
use mathlib.Core.Option.{Option, none, some}
use mathlib.Core.List.{Memᴰ, List, [], ◌∷◌}
use native.Mathlib.Omega.{arith}
use text.Mathlib.Text.{◌==◌}
use text.Mathlib.TextEquality.{eq_iff}
use work_copilot.Base.Tests.{if◌then◌else◌, Bool-cases, Option-cases, eqb}
use work_copilot.Base.Lists.{All-mem, length, filter, find, All}

-- `UPDATE … SET … WHERE …`.
abbrev pub update_where {ℓ} : {A : Type ℓ} → (A → Bool) → (A → A) → List A → List A
update_where p set [] = []
update_where p set (x ∷ xs) = (if p x then set x else x) ∷ update_where p set xs

abbrev pub map_some {ℓ κ} : {A : Type ℓ} {B : Type κ} → (A → B) → Option A → Option B
map_some f none = none
map_some f (some a) = some (f a)

abbrev pub count_some {ℓ} : {A : Type ℓ} → (A → Bool) → Option A → ℕ
count_some p none = 0
count_some p (some a) = if p a then 1 else 0

abbrev pub keep_if {ℓ} : {A : Type ℓ} → (A → Bool) → Option A → Option A
keep_if p none = none
keep_if p (some a) = if p a then some a else none

module _ {ℓ} {A : Type ℓ} (key : A → String) where
  -- The row of a key.
  abbrev pub row : String → List A → Option A
  row i xs = find (λ x. key x == i) xs

  -- The primary key: no two rows share one.
  abbrev pub Unique : List A → Type 0
  Unique [] = Unit
  Unique (x ∷ xs) = All (λ y. key y ≢ key x) xs × Unique xs

  abbrev pub at : String → (A → Bool) → A → Bool
  at i c x = (key x == i) && c x

module _ {ℓ} {A : Type ℓ} (key : A → String) (set : A → A)
    (keeps : (x : A) → key (set x) ≡ key x) where
  -- An update of the row of `i` reads back at `i`, and leaves the row of every other key.
  pub row-update :
      (i j : String) (c : A → Bool) (xs : List A)
      → row key j (update_where (at key i c) set xs)
        ≡ (if i == j then map_some (λ x. if c x then set x else x) (row key j xs) else row key j xs)
  row-update i j c [] = ground arith
  row-update i j c (x ∷ xs) = ground (
    arith,
    keeps x,
    row-update i j c xs,
    eq_iff (key x) i,
    eq_iff (key x) j,
    eq_iff (key (set x)) j,
    eq_iff i j,
  )

  spread :
      (p : A → Bool) (k : String) (ys : List A)
      → All (λ y. key y ≢ k) ys
      → All (λ y. key y ≢ k) (update_where p set ys)
  spread p k [] h = tt
  spread p k (y ∷ ys) (n, h) = elim (Bool-cases (p y)) [
    | inl e ↦ rw (e, keeps y) (n, spread p k ys h)
    | inr e ↦ rw e (n, spread p k ys h)
  ]

  pub update-Unique :
      (p : A → Bool) (xs : List A) → Unique key xs → Unique key (update_where p set xs)
  update-Unique p [] u = tt
  update-Unique p (x ∷ xs) (h, u) = elim (Bool-cases (p x)) [
    | inl e ↦ rw (e, keeps x) (spread p (key x) xs h, update-Unique p xs u)
    | inr e ↦ rw e (spread p (key x) xs h, update-Unique p xs u)
  ]

module _ {ℓ} {A : Type ℓ} (key : A → String) where
  count_none :
      (i : String) (c : A → Bool) (xs : List A)
      → All (λ y. key y ≢ i) xs
      → filter (at key i c) xs ≡ []
  count_none i c [] h = refl
  count_none i c (x ∷ xs) h = ground (arith, eq_iff (key x) i, count_none i c xs h.1, h.0)

  find-none :
      (i : String) (c : A → Bool) (xs : List A)
      → All (λ y. key y ≢ i) xs
      → find (at key i c) xs ≡ none
  find-none i c [] h = refl
  find-none i c (x ∷ xs) h = ground (arith, eq_iff (key x) i, find-none i c xs h.1, h.0)

  -- At most one row has the key.
  pub filter-at :
      (i : String) (c : A → Bool) (xs : List A)
      → Unique key xs
      → length (filter (at key i c) xs) ≡ count_some c (row key i xs)
  filter-at i c [] u = refl
  filter-at i c (x ∷ xs) u = elim (Bool-cases (key x == i)) [
    | inl e ↦
        let k : key x ≡ i = (eq_iff (key x) i).0 e in
        rw e (ground (arith, count_none i c xs (subst (λ j. All (λ y. key y ≢ j) xs) k u.0)))
    | inr n ↦ rw n (filter-at i c xs u.1)
  ]

  -- Where one row meets the condition, it is the row of the key.
  pub one-row :
      (i : String) (c : A → Bool) (xs : List A)
      → Unique key xs
      → eqb (length (filter (at key i c) xs)) 1 ≡ true
      → (x : A) × (row key i xs ≡ some x) × (c x ≡ true)
  one-row i c xs u h =
      let counted : eqb (count_some c (row key i xs)) 1 ≡ true =
        ap (λ n. eqb n 1) (sym (filter-at i c xs u)) ∙ h in
      elim (Option-cases (row key i xs)) [
        | inl e ↦ absurd (ground (arith, rw e at counted))
        | inr (x, e) ↦ (x, e, ground (arith, rw e at counted))
      ]

  -- A search by key and condition reads the row of the key.
  pub find-at :
      (i : String) (c : A → Bool) (xs : List A)
      → Unique key xs
      → find (at key i c) xs ≡ keep_if c (row key i xs)
  find-at i c [] u = refl
  find-at i c (x ∷ xs) u = elim (Bool-cases (key x == i)) [
    | inl e ↦
        let k : key x ≡ i = (eq_iff (key x) i).0 e in
        let others : All (λ y. key y ≢ i) xs = subst (λ j. All (λ y. key y ≢ j) xs) k u.0 in
        rw e (ground (arith, find-none i c xs others))
    | inr n ↦ rw n (find-at i c xs u.1)
  ]

-- An update that no row meets changes nothing.
pub update-idle {ℓ} :
    {A : Type ℓ} (p : A → Bool) (set : A → A) (xs : List A)
    → length (filter p xs) ≡ 0
    → update_where p set xs ≡ xs
update-idle p set [] h = refl
update-idle p set (x ∷ xs) h = elim (Bool-cases (p x)) [
  | inl e ↦ absurd (omega (arith, rw e at h))
  | inr e ↦ rw e (ap (◌∷◌ x) (update-idle p set xs (rw e at h)))
]

-- An update of any rows reads back row by row.
pub row-update_where {ℓ} :
    {A : Type ℓ} (key : A → String) (set : A → A) (keeps : (x : A) → key (set x) ≡ key x)
    (p : A → Bool) (i : String) (xs : List A)
    → row key i (update_where p set xs) ≡ map_some (λ x. if p x then set x else x) (row key i xs)
row-update_where key set keeps p i [] = refl
row-update_where key set keeps p i (x ∷ xs) =
    ground (arith, keeps x, row-update_where key set keeps p i xs)

-- Two rows with one key are one row.
pub Unique-mem {ℓ} :
    {A : Type ℓ} (key : A → String) {x y : A} (xs : List A)
    → Unique key xs
    → Memᴰ x xs
    → Memᴰ y xs
    → key x ≡ key y
    → x ≡ y
Unique-mem key [] u m n e = elim m [ ]
Unique-mem key (z ∷ xs) u (Memᴰ.head a) (Memᴰ.head b) e = a ∙ sym b
Unique-mem key {x} {y} (z ∷ xs) (n, u) (Memᴰ.head a) (Memᴰ.tail m) e =
    absurd (All-mem (λ w. key w ≢ key z) xs n m (sym e ∙ ap key a))
Unique-mem key {x} {y} (z ∷ xs) (n, u) (Memᴰ.tail m) (Memᴰ.head b) e =
    absurd (All-mem (λ w. key w ≢ key z) xs n m (e ∙ ap key b))
Unique-mem key (z ∷ xs) (n, u) (Memᴰ.tail m) (Memᴰ.tail k) e = Unique-mem key xs u m k e
