-- ===== src/Base/Lists.antt =====
-- Lists with Boolean tests, and lengths over the native numbers.
use Prim.Native.Nat.{ℕ, suc, ◌+◌}
use mathlib.Core.Path.{◌≡◌, refl, ap}
use mathlib.Core.Logic.{inl, inr}
use mathlib.Core.Bool.{Bool, true, false, ◌&&◌, ◌||◌, not}
use mathlib.Core.Option.{Option, none, some}
use mathlib.Core.List.{List, [], ◌∷◌, ◌++◌, map, Memᴰ}
use native.Mathlib.Omega.{arith}
use work_copilot.Base.Tests.{if◌then◌else◌, Bool-cases}

module _ {ℓ} {A : Type ℓ} where
  abbrev pub length : List A → ℕ
  length [] = 0
  length (x ∷ xs) = suc (length xs)

  -- `Array.some`, `Array.every`, `Array.filter` and `Array.find`.
  abbrev pub any : (A → Bool) → List A → Bool
  any p [] = false
  any p (x ∷ xs) = p x || any p xs

  abbrev pub all : (A → Bool) → List A → Bool
  all p [] = true
  all p (x ∷ xs) = p x && all p xs

  abbrev pub filter : (A → Bool) → List A → List A
  filter p [] = []
  filter p (x ∷ xs) = if p x then x ∷ filter p xs else filter p xs

  abbrev pub find : (A → Bool) → List A → Option A
  find p [] = none
  find p (x ∷ xs) = if p x then some x else find p xs

  abbrev pub head? : List A → Option A
  head? [] = none
  head? (x ∷ xs) = some x

  abbrev pub is_empty : List A → Bool
  is_empty [] = true
  is_empty (x ∷ xs) = false

-- A predicate at every element, and at some element.
module _ {ℓ κ} {A : Type ℓ} (P : A → Type κ) where
  abbrev pub All : List A → Type κ
  All [] = Unit
  All (x ∷ xs) = P x × All xs

pub length-map {ℓ κ} :
    {A : Type ℓ} {B : Type κ} (f : A → B) (xs : List A) → length (map f xs) ≡ length xs
length-map f [] = refl
length-map f (x ∷ xs) = omega (arith, length-map f xs)

pub length-append {ℓ} : {A : Type ℓ} (xs ys : List A) → length (xs ++ ys) ≡ length xs + length ys
length-append [] ys = omega arith
length-append (x ∷ xs) ys = omega (arith, length-append xs ys)

-- An element where a test passes, and back.
module _ {ℓ} {A : Type ℓ} (p : A → Bool) where
  pub any-witness : (xs : List A) → any p xs ≡ true → (x : A) × Memᴰ x xs × (p x ≡ true)
  any-witness [] h = cc
  any-witness (x ∷ xs) h = elim (Bool-cases (p x)) [
    | inl e ↦ (x, Memᴰ.head refl, e)
    | inr e ↦ let (y, m, q) = any-witness xs (ground arith) in (y, Memᴰ.tail m, q)
  ]

  pub any_of_mem : {x : A} (xs : List A) → Memᴰ x xs → p x ≡ true → any p xs ≡ true
  any_of_mem [] m h = elim m [ ]
  any_of_mem (y ∷ xs) (Memᴰ.head e) h = rw (← e) (rw h)
  any_of_mem (y ∷ xs) (Memᴰ.tail m) h = ground (arith, any_of_mem xs m h)

pub any-filter {ℓ} :
    {A : Type ℓ} (p q : A → Bool) (xs : List A) → any p (filter q xs) ≡ any (λ x. q x && p x) xs
any-filter p q [] = refl
any-filter p q (x ∷ xs) = ground (arith, any-filter p q xs)

pub any-map {ℓ κ} :
    {A : Type ℓ} {B : Type κ} (p : B → Bool) (f : A → B) (xs : List A)
    → any p (map f xs) ≡ any (λ x. p (f x)) xs
any-map p f [] = refl
any-map p f (x ∷ xs) = ap (λ b. p (f x) || b) (any-map p f xs)

pub All-mem {ℓ κ} : {A : Type ℓ} (P : A → Type κ) {x : A} (xs : List A) → All P xs → Memᴰ x xs → P x
All-mem P [] h m = elim m [ ]
All-mem P (y ∷ xs) (h, hs) (Memᴰ.head e) = rw e h
All-mem P (y ∷ xs) (h, hs) (Memᴰ.tail m) = All-mem P xs hs m

pub any-or {ℓ} :
    {A : Type ℓ} (p q : A → Bool) (xs : List A) → any (λ x. p x || q x) xs ≡ (any p xs || any q xs)
any-or p q [] = refl
any-or p q (x ∷ xs) = ground (arith, any-or p q xs)

pub empty-filter {ℓ} :
    {A : Type ℓ} (p : A → Bool) (xs : List A) → is_empty (filter p xs) ≡ not (any p xs)
empty-filter p [] = refl
empty-filter p (x ∷ xs) = ground (arith, empty-filter p xs)

pub any-not {ℓ} :
    {A : Type ℓ} (p : A → Bool) (xs : List A) → any (λ x. not (p x)) xs ≡ not (all p xs)
any-not p [] = refl
any-not p (x ∷ xs) = ground (arith, any-not p xs)

-- Where one test passes for all elements, a test that excludes it passes for none.
pub any-excluded {ℓ} :
    {A : Type ℓ} (p q : A → Bool) (xs : List A)
    → ((x : A) → p x ≡ true → q x ≡ false)
    → all p xs ≡ true
    → any q xs ≡ false
any-excluded p q [] no_both h = refl
any-excluded p q (x ∷ xs) no_both h = ground (arith, no_both x, any-excluded p q xs no_both)

-- A test that passes everywhere, element by element.
module _ {ℓ} {A : Type ℓ} (p : A → Bool) where
  pub all-mem : {x : A} (xs : List A) → all p xs ≡ true → Memᴰ x xs → p x ≡ true
  all-mem [] h m = elim m [ ]
  all-mem (y ∷ xs) h (Memᴰ.head e) = rw e (ground arith)
  all-mem (y ∷ xs) h (Memᴰ.tail m) = all-mem xs (ground arith) m

  pub all_of_mem : (xs : List A) → ((x : A) → Memᴰ x xs → p x ≡ true) → all p xs ≡ true
  all_of_mem [] h = refl
  all_of_mem (y ∷ xs) h = rw (h y (Memᴰ.head refl)) (all_of_mem xs λ x m. h x (Memᴰ.tail m))

pub is_empty-nil {ℓ} : {A : Type ℓ} (xs : List A) → is_empty xs ≡ true → xs ≡ []
is_empty-nil [] h = refl
is_empty-nil (x ∷ xs) h = cc

-- Membership in what a filter leaves.
module _ {ℓ} {A : Type ℓ} (p : A → Bool) where
  pub mem-filter : {x : A} (xs : List A) → Memᴰ x (filter p xs) → Memᴰ x xs × (p x ≡ true)
  mem-filter [] m = elim m [ ]
  mem-filter {x} (y ∷ xs) m = elim (Bool-cases (p y)) [
    | inl e ↦
        let n : Memᴰ x (y ∷ filter p xs) = rw e at m in
        elim n [
          | Memᴰ.head q ↦ (Memᴰ.head q, rw q e)
          | Memᴰ.tail k ↦ let (j, h) = mem-filter xs k in (Memᴰ.tail j, h)
        ]
    | inr e ↦
        let n : Memᴰ x (filter p xs) = rw e at m in let (j, h) = mem-filter xs n in (Memᴰ.tail j, h)
  ]

  pub filter-mem : {x : A} (xs : List A) → Memᴰ x xs → p x ≡ true → Memᴰ x (filter p xs)
  filter-mem [] m h = elim m [ ]
  filter-mem {x} (y ∷ xs) (Memᴰ.head q) h =
      let here : p y ≡ true = rw (← q) h in rw here (Memᴰ.head q)
  filter-mem (y ∷ xs) (Memᴰ.tail m) h = elim (Bool-cases (p y)) [
    | inl e ↦ rw e (Memᴰ.tail (filter-mem xs m h))
    | inr e ↦ rw e (filter-mem xs m h)
  ]

-- Membership and maps, and a predicate of every member.
pub map-mem {ℓ κ} :
    {A : Type ℓ} {B : Type κ} (f : A → B) {x : A} (xs : List A) → Memᴰ x xs → Memᴰ (f x) (map f xs)
map-mem f [] m = elim m [ ]
map-mem f (y ∷ xs) (Memᴰ.head e) = Memᴰ.head (ap f e)
map-mem f (y ∷ xs) (Memᴰ.tail m) = Memᴰ.tail (map-mem f xs m)

pub mem-map {ℓ κ} :
    {A : Type ℓ} {B : Type κ} (f : A → B) {y : B} (xs : List A)
    → Memᴰ y (map f xs)
    → (x : A) × Memᴰ x xs × (y ≡ f x)
mem-map f [] m = elim m [ ]
mem-map f (x ∷ xs) (Memᴰ.head e) = (x, Memᴰ.head refl, e)
mem-map f (x ∷ xs) (Memᴰ.tail m) = let (z, n, e) = mem-map f xs m in (z, Memᴰ.tail n, e)

pub mem-All {ℓ κ} :
    {A : Type ℓ} (P : A → Type κ) (xs : List A) → ((x : A) → Memᴰ x xs → P x) → All P xs
mem-All P [] h = tt
mem-All P (x ∷ xs) h = (h x (Memᴰ.head refl), mem-All P xs λ y m. h y (Memᴰ.tail m))
