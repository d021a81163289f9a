-- ===== src/Prelude/Dict.antt =====
-- `HashMap` as an association list: the first entry of a key is its value.
use threshold.Prelude.Tests.{if◌then◌else◌}
use threshold.Prelude.Lists.{length}
use threshold.Prelude.Classes.{Eq, ◌==◌, ==_iff}
use Prim.Native.Nat.{ℕ, ◌+◌, ◌≤◌}
use mathlib.Core.Path.{◌≡◌, refl}
use mathlib.Core.Option.{Option, none, some}
use mathlib.Core.List.{List, [], ◌∷◌}
use native.Mathlib.Omega.{arith}

abbrev pub Dict {ℓ κ} : Type ℓ → Type κ → Type (ℓ ⊔ κ)
Dict K V = List (K × V)

-- `Option::unwrap_or`
abbrev pub unwrap_or {ℓ} : {A : Type ℓ} → Option A → A → A
unwrap_or none d = d
unwrap_or (some a) d = a

-- The sum of a measure over the entries.
abbrev pub total {ℓ κ} : {K : Type ℓ} {V : Type κ} → (V → ℕ) → Dict K V → ℕ
total f [] = 0
total f ((j, w) ∷ d) = f w + total f d

module _ {ℓ κ} {K : Type ℓ} {V : Type κ} ⦃e : Eq K⦄ where
  unfoldable pub lookup : K → Dict K V → Option V
  lookup k [] = none
  lookup k ((j, v) ∷ d) = if j == k then some v else lookup k d

  -- `HashMap::insert`
  unfoldable pub insert : K → V → Dict K V → Dict K V
  insert k v [] = (k, v) ∷ []
  insert k v ((j, w) ∷ d) = if j == k then (k, v) ∷ d else (j, w) ∷ insert k v d

  -- `HashMap::remove`
  unfoldable pub erase : K → Dict K V → Dict K V
  erase k [] = []
  erase k ((j, w) ∷ d) = if j == k then erase k d else (j, w) ∷ erase k d

  pub lookup-insert :
      (k j : K) (v : V) (d : Dict K V)
      → lookup j (insert k v d) ≡ (if k == j then some v else lookup j d)
  unfolding lookup insert
  lookup-insert k j v [] = refl
  lookup-insert k j v ((i, w) ∷ d) =
      ground (arith, ==_iff k j, ==_iff i k, ==_iff i j, lookup-insert k j v d)

  pub lookup-erase :
      (k j : K) (d : Dict K V) → lookup j (erase k d) ≡ (if k == j then none else lookup j d)
  unfolding lookup erase
  lookup-erase k j [] = ground arith
  lookup-erase k j ((i, w) ∷ d) =
      ground (arith, ==_iff k j, ==_iff i k, ==_iff i j, lookup-erase k j d)

  pub lookup-insert_self : (k : K) (v : V) (d : Dict K V) → lookup k (insert k v d) ≡ some v
  lookup-insert_self k v d = ground (arith, lookup-insert k k v d, ==_iff k k)

  pub length-insert_present :
      (k : K) (v : V) (d : Dict K V) {old : V}
      → lookup k d ≡ some old
      → length (insert k v d) ≡ length d
  unfolding lookup insert
  length-insert_present k v [] h = absurd (cc)
  length-insert_present k v ((i, w) ∷ d) {old} h =
      ground (arith, length-insert_present k v d {old = old})

  pub erase-absent : (k : K) (d : Dict K V) → lookup k d ≡ none → erase k d ≡ d
  unfolding lookup erase
  erase-absent k [] h = refl
  erase-absent k ((i, w) ∷ d) h = ground (arith, erase-absent k d)

  abbrev pub measure_at : (V → ℕ) → K → Dict K V → ℕ
  measure_at f k d = elim (lookup k d) [ none ↦ 0 | some w ↦ f w ]

  -- An insertion replaces what the key had before.
  pub total-insert :
      (f : V → ℕ) (k : K) (v : V) (d : Dict K V)
      → total f (insert k v d) + measure_at f k d ≡ total f d + f v
  unfolding lookup insert
  total-insert f k v [] = omega arith
  total-insert f k v ((i, w) ∷ d) = ground (arith, total-insert f k v d)

  pub measure_at-le-total : (f : V → ℕ) (k : K) (d : Dict K V) → measure_at f k d ≤ total f d
  unfolding lookup
  measure_at-le-total f k [] = omega arith
  measure_at-le-total f k ((i, w) ∷ d) = ground (arith, measure_at-le-total f k d)

pub ruleset dict_laws = (lookup-insert, lookup-erase)
