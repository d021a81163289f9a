-- ===== src/Prelude/Moves.antt =====
-- What an action may do to the object, whether it returns or fails: a preorder that holds between
-- the state before and the state after.
use mathlib.Core.Bool.{Bool, true, false}
use Prim.Native.String.{String}
use threshold.Prelude.Tests.{if◌then◌else◌}
use threshold.Prelude.Results.{
  Result, ok, err, Action, pure, lift, gets, modify, fail, then_do, ◌>>=◌,
}

pub record Preorder {ℓ} {S : Type ℓ} (R : S → S → Type 0) : Type ℓ where
  pub stay : (s : S) → R s s
  pub chain : (s t u : S) → R s t → R t u → R s u

pub record Moves {ℓ κ} {S : Type ℓ} {A : Type κ} (R : S → S → Type 0) (m : Action S A)
    : Type ℓ where
  pub at : (s : S) → R s (m s).1

module _ {ℓ κ} {S : Type ℓ} {A : Type κ} {R : S → S → Type 0} (p : Preorder R) where
  pub Moves-pure : (a : A) → Moves R (pure {S = S} a)
  Moves-pure a = record { at = λ s. p.stay s }

  pub Moves-lift : (r : Result A) → Moves R (lift {S = S} r)
  Moves-lift r = record { at = λ s. p.stay s }

  pub Moves-gets : (f : S → A) → Moves R (gets f)
  Moves-gets f = record { at = λ s. p.stay s }

  pub Moves-fail : (message : String) → Moves R (fail {S = S} {A = A} message)
  Moves-fail message = record { at = λ s. p.stay s }

  pub Moves-if :
      (b : Bool) (m n : Action S A) → Moves R m → Moves R n → Moves R (if b then m else n)
  Moves-if true m n hm hn = hm
  Moves-if false m n hm hn = hn

module _ {ℓ} {S : Type ℓ} {R : S → S → Type 0} where
  pub Moves-modify : (f : S → S) → ((s : S) → R s (f s)) → Moves R (modify f)
  Moves-modify f h = record { at = h }

module _ {ℓ κ μ} {S : Type ℓ} {A : Type κ} {B : Type μ} {R : S → S → Type 0} (p : Preorder R) where
  then_do-moves :
      (s : S) (r : Result A) (t : S) (f : A → Action S B)
      → R s t
      → ((a : A) → Moves R (f a))
      → R s (then_do (r, t) f).1
  then_do-moves s (ok a) t f h k = p.chain s t (f a t).1 h ((k a).at t)
  then_do-moves s (err e) t f h k = h

  pub Moves-bind :
      (m : Action S A) (f : A → Action S B)
      → Moves R m
      → ((a : A) → Moves R (f a))
      → Moves R (m >>= f)
  Moves-bind m f hm hf = record { at = λ s. then_do-moves s (m s).0 (m s).1 f (hm.at s) hf }

  -- What follows may use what was read of the state.
  pub Moves-gets_bind :
      (g : S → A) (f : A → Action S B) → ((s : S) → R s (f (g s) s).1) → Moves R (gets g >>= f)
  Moves-gets_bind g f h = record { at = h }

-- A first action under one relation, the rest under another that absorbs it.
module _ {ℓ κ μ} {S : Type ℓ} {A : Type κ} {B : Type μ} {R Q : S → S → Type 0}
    (extend : (s t u : S) → R s t → Q t u → Q s u) (stay : (s : S) → Q s s) where
  then_do-extends :
      (s : S) (r : Result A) (t : S) (f : A → Action S B)
      → R s t
      → ((a : A) → Moves Q (f a))
      → Q s (then_do (r, t) f).1
  then_do-extends s (ok a) t f h k = extend s t (f a t).1 h ((k a).at t)
  then_do-extends s (err e) t f h k = extend s t t h (stay t)

  pub Moves-extend :
      (m : Action S A) (f : A → Action S B)
      → Moves R m
      → ((a : A) → Moves Q (f a))
      → Moves Q (m >>= f)
  Moves-extend m f hm hf = record { at = λ s. then_do-extends s (m s).0 (m s).1 f (hm.at s) hf }

pub ruleset moves_rules =
    (Moves-pure, Moves-lift, Moves-gets, Moves-fail, Moves-if, Moves-modify, Moves-bind)
