-- ===== src/Prelude/Decimal.antt =====
-- `Display` of unsigned integers: the decimal digits, as the bytes of a text.
use Prim.Native.Nat.{ℕ, zero, suc, ◌+◌, ◌-◌, ◌*◌, ◌/◌, ◌%◌, ◌<◌}
use mathlib.Core.Path.{◌≡◌, refl, ap, sym, ◌∙◌}
use mathlib.Core.Logic.{inl, inr}
use mathlib.Core.Bool.{true, false}
use mathlib.Core.List.{[], ◌∷◌, ◌++◌}
use native.Mathlib.Omega.{arith}
use threshold.Prelude.Tests.{ltb, Bool-cases}
use threshold.Prelude.ByteForms.{Text}

-- The fuel bounds the number of digits.
unfoldable decimal : (fuel n : ℕ) → Text
decimal zero n = []
decimal (suc fuel) n = elim (ltb n 10) [
  | true ↦ (48 + n) ∷ []
  | false ↦ decimal fuel (n / 10) ++ (48 + n % 10) ∷ []
]

unfoldable pub display : ℕ → Text
unfolding decimal
display n = decimal (suc n) n

-- The number that a row of digits stands for, after a number that stands before it.
abbrev value_after : ℕ → Text → ℕ
value_after n [] = n
value_after n (d ∷ ds) = value_after (n * 10 + (d - 48)) ds

value_after-append :
    (n : ℕ) (xs ys : Text) → value_after n (xs ++ ys) ≡ value_after (value_after n xs) ys
value_after-append n [] ys = refl
value_after-append n (x ∷ xs) ys = value_after-append (n * 10 + (x - 48)) xs ys

value-decimal : (fuel n : ℕ) → n < fuel → value_after 0 (decimal fuel n) ≡ n
unfolding decimal
value-decimal zero n h = absurd (omega arith)
value-decimal (suc fuel) n h = elim (Bool-cases (ltb n 10)) [
  | inl small ↦ rw (decimal, small) (omega arith)
  | inr large ↦
      rw
        (
          decimal,
          large,
          value_after-append 0 (decimal fuel (n / 10)) ((48 + n % 10) ∷ []),
          value-decimal fuel (n / 10) (ground arith),
        )
        (omega arith)
]

-- A text displays one number only.
pub display-injective : (m n : ℕ) → display m ≡ display n → m ≡ n
unfolding display
display-injective m n h =
    sym (value-decimal (suc m) m (omega arith))
    ∙ ap (value_after 0) h
    ∙ value-decimal (suc n) n (omega arith)
