-- ===== src/Prelude/Sorting.antt =====
-- The sort by key gives one result for all orders of the same elements.
use mathlib.Core.Path.{◌≡◌, refl, sym, ◌∙◌, ap}
use Prim.Native.Nat.{suc}
use mathlib.Core.Logic.{inl, inr}
use mathlib.Core.List.{List, [], ◌∷◌, Memᴰ, Permᴰ}
use native.Mathlib.Omega.{arith}
use threshold.Prelude.Tests.{Bool-cases}
use threshold.Prelude.Classes.{Ord}
use threshold.Prelude.Lists.{sorted_insert, sort_by_key, length}

module _ {ℓ} {A : Type ℓ} where
  pub mem-perm : {a : A} {xs ys : List A} → Permᴰ xs ys → Memᴰ a ys → Memᴰ a xs
  mem-perm Permᴰ.nil m = m
  mem-perm (Permᴰ.cons e p) (Memᴰ.head q) = Memᴰ.head (q ∙ sym e)
  mem-perm (Permᴰ.cons e p) (Memᴰ.tail m) = Memᴰ.tail (mem-perm p m)
  mem-perm (Permᴰ.swap e f) (Memᴰ.head q) = Memᴰ.tail (Memᴰ.head (q ∙ sym f))
  mem-perm (Permᴰ.swap e f) (Memᴰ.tail (Memᴰ.head q)) = Memᴰ.head (q ∙ sym e)
  mem-perm (Permᴰ.swap e f) (Memᴰ.tail (Memᴰ.tail m)) = Memᴰ.tail (Memᴰ.tail m)
  mem-perm (Permᴰ.trans p q) m = mem-perm p (mem-perm q m)

pub perm_refl {ℓ} : {A : Type ℓ} (l : List A) → Permᴰ l l
perm_refl [] = Permᴰ.nil
perm_refl (x ∷ l) = Permᴰ.cons refl (perm_refl l)

pub perm_sym {ℓ} : {A : Type ℓ} {k l : List A} → Permᴰ k l → Permᴰ l k
perm_sym Permᴰ.nil = Permᴰ.nil
perm_sym (Permᴰ.cons e p) = Permᴰ.cons (sym e) (perm_sym p)
perm_sym (Permᴰ.swap e f) = Permᴰ.swap (sym f) (sym e)
perm_sym (Permᴰ.trans p q) = Permᴰ.trans (perm_sym q) (perm_sym p)

pub length-perm {ℓ} : {A : Type ℓ} {k l : List A} → Permᴰ k l → length k ≡ length l
length-perm Permᴰ.nil = refl
length-perm (Permᴰ.cons e p) = ap suc (length-perm p)
length-perm (Permᴰ.swap e f) = refl
length-perm (Permᴰ.trans p q) = length-perm p ∙ length-perm q

module _ {A K : Type 0} ⦃o : Ord K⦄ (key : A → K) where
  -- No two elements share a key.
  abbrev pub NoClash : List A → Type 0
  NoClash xs = (a b : A) → Memᴰ a xs → Memᴰ b xs → key a ≡ key b → a ≡ b

  sorted_insert_comm :
      (x y : A) (l : List A)
      → (key x ≡ key y → x ≡ y)
      → sorted_insert key x (sorted_insert key y l) ≡ sorted_insert key y (sorted_insert key x l)
  unfolding sorted_insert
  sorted_insert_comm x y [] h =
      ground (arith, o.leb_total (key x) (key y), o.leb_antisymm (key x) (key y))
  sorted_insert_comm x y (z ∷ l) h = ground (
    arith,
    sorted_insert_comm x y l h,
    o.leb_total (key x) (key y),
    o.leb_antisymm (key x) (key y),
    o.leb_total (key x) (key z),
    o.leb_total (key y) (key z),
    o.leb_trans (key x) (key y) (key z),
    o.leb_trans (key y) (key x) (key z),
  )

  pub sort_by_key-perm :
      {xs ys : List A} → Permᴰ xs ys → NoClash xs → sort_by_key key xs ≡ sort_by_key key ys
  unfolding sort_by_key
  sort_by_key-perm Permᴰ.nil h = refl
  sort_by_key-perm (Permᴰ.cons {a = a} {b = b} {l₁ = l} {l₂ = k} e p) h =
      let rest : sort_by_key key l ≡ sort_by_key key k =
        sort_by_key-perm p (λ c d m n. h c d (Memᴰ.tail m) (Memᴰ.tail n)) in
      cc
  sort_by_key-perm (Permᴰ.swap {a = a} {b = b} {l = l} e f) h =
      let swapped =
        sorted_insert_comm a b (sort_by_key key l)
          (h a b (Memᴰ.head refl) (Memᴰ.tail (Memᴰ.head refl))) in
      cc
  sort_by_key-perm (Permᴰ.trans p q) h =
      sort_by_key-perm p h ∙ sort_by_key-perm q (λ c d m n. h c d (mem-perm p m) (mem-perm p n))

  length-sorted_insert : (x : A) (l : List A) → length (sorted_insert key x l) ≡ length (x ∷ l)
  unfolding sorted_insert
  length-sorted_insert x [] = refl
  length-sorted_insert x (y ∷ l) = ground (arith, length-sorted_insert x l)

  pub length-sort_by_key : (l : List A) → length (sort_by_key key l) ≡ length l
  unfolding sort_by_key
  length-sort_by_key [] = refl
  length-sort_by_key (x ∷ l) =
      omega (arith, length-sorted_insert x (sort_by_key key l), length-sort_by_key l)

  sorted_insert-perm : (x : A) (l : List A) → Permᴰ (sorted_insert key x l) (x ∷ l)
  unfolding sorted_insert
  sorted_insert-perm x [] = Permᴰ.cons refl Permᴰ.nil
  sorted_insert-perm x (y ∷ l) = elim (Bool-cases (o.ord_leb (key x) (key y))) [
    | inl before ↦ rw before (perm_refl (x ∷ y ∷ l))
    | inr after ↦
        rw after (Permᴰ.trans (Permᴰ.cons refl (sorted_insert-perm x l)) (Permᴰ.swap refl refl))
  ]

  -- The sorted list holds the same elements, as often.
  pub sort_by_key-Perm : (l : List A) → Permᴰ (sort_by_key key l) l
  unfolding sort_by_key
  sort_by_key-Perm [] = Permᴰ.nil
  sort_by_key-Perm (x ∷ l) =
      Permᴰ.trans (sorted_insert-perm x (sort_by_key key l)) (Permᴰ.cons refl (sort_by_key-Perm l))
