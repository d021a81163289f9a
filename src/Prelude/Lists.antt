-- ===== src/Prelude/Lists.antt =====
-- Lists measured and indexed by native numbers, membership tests, and a stable sort by key.
use Prim.Native.Nat.{ℕ, zero, suc, ◌+◌, ◌<◌}
use mathlib.Core.Path.{◌≡◌, refl, sym, ap, ◌∙◌}
use mathlib.Core.Bool.{Bool, true, false, ◌||◌}
use mathlib.Core.Logic.{◌⊎◌, inl, inr}
use mathlib.Core.List.{List, [], ◌∷◌, ◌++◌, Memᴰ}
use mathlib.Core.Option.{Option, none, some}
use native.Mathlib.Omega.{arith}
use threshold.Prelude.Tests.{if◌then◌else◌, Bool-cases}
use threshold.Prelude.Classes.{Eq, Ord, ◌==◌, ==_iff}

module _ {ℓ} {A : Type ℓ} where
  abbrev pub length : List A → ℕ
  length [] = 0
  length (x ∷ xs) = suc (length xs)

  abbrev pub get_elem? : List A → ℕ → Option A
  get_elem? [] i = none
  get_elem? (x ∷ xs) zero = some x
  get_elem? (x ∷ xs) (suc i) = get_elem? xs i

  -- `Vec::retain`
  abbrev pub retain : (A → Bool) → List A → List A
  retain p [] = []
  retain p (x ∷ xs) = if p x then x ∷ retain p xs else retain p xs

  -- `Iterator::find`
  abbrev pub find : (A → Bool) → List A → Option A
  find p [] = none
  find p (x ∷ xs) = if p x then some x else find p xs

  pub length-append : (xs ys : List A) → length (xs ++ ys) ≡ length xs + length ys
  length-append [] ys = omega arith
  length-append (x ∷ xs) ys = omega (arith, length-append xs ys)

  pub get_elem?-lt_length :
      (xs : List A) (i : ℕ) → i < length xs → (a : A) × (get_elem? xs i ≡ some a)
  get_elem?-lt_length [] i h = elim h [ ]
  get_elem?-lt_length (x ∷ xs) zero h = (x, refl)
  get_elem?-lt_length (x ∷ xs) (suc i) h = get_elem?-lt_length xs i (omega arith)

  pub get_elem?-mem : (xs : List A) (i : ℕ) {a : A} → get_elem? xs i ≡ some a → Memᴰ a xs
  get_elem?-mem [] i h = cc
  get_elem?-mem (x ∷ xs) zero h = Memᴰ.head (cc)
  get_elem?-mem (x ∷ xs) (suc i) h = Memᴰ.tail (get_elem?-mem xs i h)

  pub mem-append : (xs ys : List A) {a : A} → Memᴰ a (xs ++ ys) → Memᴰ a xs ⊎ Memᴰ a ys
  mem-append [] ys m = inr m
  mem-append (x ∷ xs) ys (Memᴰ.head p) = inl (Memᴰ.head p)
  mem-append (x ∷ xs) ys (Memᴰ.tail m) = elim (mem-append xs ys m) [
    | inl here ↦ inl (Memᴰ.tail here)
    | inr there ↦ inr there
  ]

  mem-if :
      (p : A → Bool) (x : A) (xs rest : List A) {a : A}
      → (Memᴰ a rest → Memᴰ a xs × (p a ≡ true))
      → (b : Bool) → p x ≡ b
      → Memᴰ a (if b then x ∷ rest else rest)
      → Memᴰ a (x ∷ xs) × (p a ≡ true)
  mem-if p x xs rest h true kept m = elim (mem-append (x ∷ []) rest m) [
    | inl (Memᴰ.head q) ↦ (Memᴰ.head q, ap p q ∙ kept)
    | inl (Memᴰ.tail none_left) ↦ elim none_left [ ]
    | inr later ↦ let (old, holds) = h later in (Memᴰ.tail old, holds)
  ]
  mem-if p x xs rest h false dropped m = let (old, holds) = h m in (Memᴰ.tail old, holds)

  pub mem-retain :
      (p : A → Bool) (xs : List A) {a : A} → Memᴰ a (retain p xs) → Memᴰ a xs × (p a ≡ true)
  mem-retain p [] m = elim m [ ]
  mem-retain p (x ∷ xs) m = mem-if p x xs (retain p xs) (mem-retain p xs) (p x) refl m

module _ {ℓ} {A : Type ℓ} ⦃e : Eq A⦄ where
  -- `slice::contains`
  abbrev pub contains : List A → A → Bool
  contains [] a = false
  contains (x ∷ xs) a = (x == a) || contains xs a

  -- `HashSet::insert`, on the list of the elements: nothing changes if the element is there.
  abbrev pub set_insert : A → List A → List A
  set_insert a xs = if contains xs a then xs else a ∷ xs

  pub contains-append :
      (xs ys : List A) (a : A) → contains (xs ++ ys) a ≡ (contains xs a || contains ys a)
  contains-append [] ys a = refl
  contains-append (x ∷ xs) ys a = ground (arith, contains-append xs ys a)

  pub contains-mem : (xs : List A) (a : A) → contains xs a ≡ true → Memᴰ a xs
  contains-mem [] a h = absurd (cc)
  contains-mem (x ∷ xs) a h = elim (Bool-cases (x == a)) [
    | inl here ↦ Memᴰ.head (sym ((==_iff x a).0 here))
    | inr away ↦ Memᴰ.tail (contains-mem xs a (ground arith))
  ]

  pub mem-contains : (xs : List A) (a : A) → Memᴰ a xs → contains xs a ≡ true
  mem-contains [] a h = elim h [ ]
  mem-contains (x ∷ xs) a (Memᴰ.head p) = ground (arith, ==_iff x a)
  mem-contains (x ∷ xs) a (Memᴰ.tail m) = ground (arith, mem-contains xs a m)

-- No element is listed twice.
abbrev pub Distinct {ℓ} : {A : Type ℓ} ⦃e : Eq A⦄ → List A → Type 0
Distinct [] = Unit
Distinct (x ∷ xs) = (contains xs x ≡ false) × Distinct xs

module _ {ℓ κ} {A : Type ℓ} {K : Type κ} ⦃o : Ord K⦄ (key : A → K) where
  -- `sort_by_key` is stable, and so is the insertion sort: their results are the same.
  unfoldable pub sorted_insert : A → List A → List A
  sorted_insert x [] = x ∷ []
  sorted_insert x (y ∷ ys) =
      if o.ord_leb (key x) (key y) then x ∷ y ∷ ys else y ∷ sorted_insert x ys

  unfoldable pub sort_by_key : List A → List A
  sort_by_key [] = []
  sort_by_key (x ∷ xs) = sorted_insert x (sort_by_key xs)

module _ {ℓ} {A : Type ℓ} where
  -- A member stands at some position.
  pub mem-position :
      (xs : List A) {a : A} → Memᴰ a xs → (i : ℕ) × (i < length xs) × (get_elem? xs i ≡ some a)
  mem-position [] m = elim m [ ]
  mem-position (x ∷ xs) (Memᴰ.head p) = (0, omega arith, cc)
  mem-position (x ∷ xs) (Memᴰ.tail m) =
      let (i, bound, found) = mem-position xs m in (suc i, omega arith, found)
