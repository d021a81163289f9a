-- ===== src/Prelude/Classes.antt =====
-- Rust's `Eq` and `Ord` as interfaces, with the instances for numbers and lists.
use Prim.Native.Nat.{ℕ}
use mathlib.Core.Path.{◌≡◌, refl}
use mathlib.Core.Logic.{◌↔◌}
use mathlib.Core.Bool.{Bool, true, false, ◌&&◌}
use mathlib.Core.List.{List, [], ◌∷◌}
use native.Mathlib.Omega.{arith}
use threshold.Prelude.Tests.{leb, nat_eqb, nat_eqb_iff, if◌then◌else◌}

-- `Eq` and `Ord` are records: a test, with what it decides. `Eq.same_sound` says that the test is no
-- coarser than equality, `Eq.same_refl` that it is no finer.
pub record Eq {κ} (T : Type κ) : Type κ where
  pub same : T → T → Bool
  pub same_sound : (x y : T) → same x y ≡ true → x ≡ y
  pub same_refl : (x : T) → same x x ≡ true

module _ {κ} {T : Type κ} where
  infix 50 ◌==◌
  abbrev pub ◌==◌ : ⦃q : Eq T⦄ → T → T → Bool
  ◌==◌ ⦃q⦄ x y = q.same x y

  pub ==_iff : ⦃q : Eq T⦄ (x y : T) → ((x == y) ≡ true) ↔ (x ≡ y)
  ==_iff ⦃q⦄ x y = (q.same_sound x y, λ p. rw p (q.same_refl y))

  -- An instance, from a test that is shown to decide equality.
  abbrev pub eq_by : (test : T → T → Bool) → ((x y : T) → (test x y ≡ true) ↔ (x ≡ y)) → Eq T
  eq_by test decides = record {
    same = test;
    same_sound = λ x y. (decides x y).0;
    same_refl = λ x. (decides x x).1 refl;
  }

pub ==_refl {ℓ} : {A : Type ℓ} ⦃e : Eq A⦄ (a : A) → (a == a) ≡ true
==_refl ⦃e⦄ a = e.same_refl a

pub ==_sym {ℓ} : {A : Type ℓ} ⦃e : Eq A⦄ (a b : A) → (a == b) ≡ (b == a)
==_sym a b = ground (arith, ==_iff a b, ==_iff b a)

instance abbrev pub nat_eq : Eq ℕ
nat_eq = eq_by nat_eqb nat_eqb_iff

module _ {ℓ} {A : Type ℓ} ⦃e : Eq A⦄ where
  abbrev pub list_eqb : List A → List A → Bool
  list_eqb [] [] = true
  list_eqb [] (y ∷ ys) = false
  list_eqb (x ∷ xs) [] = false
  list_eqb (x ∷ xs) (y ∷ ys) = (x == y) && list_eqb xs ys

  pub list_eqb_iff : (xs ys : List A) → (list_eqb xs ys ≡ true) ↔ (xs ≡ ys)
  list_eqb_iff [] [] = ground arith
  list_eqb_iff [] (y ∷ ys) = ground arith
  list_eqb_iff (x ∷ xs) [] = ground arith
  list_eqb_iff (x ∷ xs) (y ∷ ys) = ground (arith, ==_iff x y, list_eqb_iff xs ys)

instance abbrev pub list_eq {ℓ} : {A : Type ℓ} ⦃e : Eq A⦄ → Eq (List A)
list_eq = eq_by list_eqb list_eqb_iff

-- A total order, by its test `≤`.
pub record Ord {ℓ} (A : Type ℓ) : Type ℓ where
  pub ord_leb : A → A → Bool
  pub leb_total : (a b : A) → ord_leb a b ≡ false → ord_leb b a ≡ true
  pub leb_trans : (a b c : A) → ord_leb a b ≡ true → ord_leb b c ≡ true → ord_leb a c ≡ true
  pub leb_antisymm : (a b : A) → ord_leb a b ≡ true → ord_leb b a ≡ true → a ≡ b

pub nat_leb_total : (a b : ℕ) → leb a b ≡ false → leb b a ≡ true
nat_leb_total a b h = ground arith

pub nat_leb_trans : (a b c : ℕ) → leb a b ≡ true → leb b c ≡ true → leb a c ≡ true
nat_leb_trans a b c h k = ground arith

pub nat_leb_antisymm : (a b : ℕ) → leb a b ≡ true → leb b a ≡ true → a ≡ b
nat_leb_antisymm a b h k = ground arith

instance abbrev pub nat_ord : Ord ℕ
nat_ord = record {
  ord_leb = leb;
  leb_total = nat_leb_total;
  leb_trans = nat_leb_trans;
  leb_antisymm = nat_leb_antisymm;
}

-- The order of `[u8; 32]` and `Vec<u8>`: lexicographic.
abbrev pub bytes_leb : List ℕ → List ℕ → Bool
bytes_leb [] ys = true
bytes_leb (x ∷ xs) [] = false
bytes_leb (x ∷ xs) (y ∷ ys) = if nat_eqb x y then bytes_leb xs ys else leb x y

pub bytes_leb_total : (a b : List ℕ) → bytes_leb a b ≡ false → bytes_leb b a ≡ true
bytes_leb_total [] b h = ground arith
bytes_leb_total (x ∷ xs) [] h = refl
bytes_leb_total (x ∷ xs) (y ∷ ys) h = ground (arith, bytes_leb_total xs ys)

pub bytes_leb_trans :
    (a b c : List ℕ) → bytes_leb a b ≡ true → bytes_leb b c ≡ true → bytes_leb a c ≡ true
bytes_leb_trans [] b c h k = refl
bytes_leb_trans (x ∷ xs) [] c h k = ground arith
bytes_leb_trans (x ∷ xs) (y ∷ ys) [] h k = ground arith
bytes_leb_trans (x ∷ xs) (y ∷ ys) (z ∷ zs) h k = ground (arith, bytes_leb_trans xs ys zs)

pub bytes_leb_antisymm : (a b : List ℕ) → bytes_leb a b ≡ true → bytes_leb b a ≡ true → a ≡ b
bytes_leb_antisymm [] [] h k = refl
bytes_leb_antisymm [] (y ∷ ys) h k = ground arith
bytes_leb_antisymm (x ∷ xs) [] h k = ground arith
bytes_leb_antisymm (x ∷ xs) (y ∷ ys) h k = ground (arith, bytes_leb_antisymm xs ys)

instance abbrev pub bytes_ord : Ord (List ℕ)
bytes_ord = record {
  ord_leb = bytes_leb;
  leb_total = bytes_leb_total;
  leb_trans = bytes_leb_trans;
  leb_antisymm = bytes_leb_antisymm;
}
