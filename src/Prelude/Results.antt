-- ===== src/Prelude/Results.antt =====
-- `Result<_, NodeError>`, and methods that change an object and may fail.
use mathlib.Core.Option.{Option, none, some}
use mathlib.Core.Path.{◌≡◌, refl}
use mathlib.Core.Logic.{◌⊎◌, inl, inr}
use Prim.Native.String.{String}

-- types/src/errors.rs: `NodeError`
pub data NodeError : Type 0 where
  error : String → NodeError

pub data Result {ℓ} (A : Type ℓ) : Type ℓ where
  ok : A → Result A
  err : NodeError → Result A

pub Result-cases {ℓ} :
    {A : Type ℓ} (r : Result A) → ((a : A) × (r ≡ ok a)) ⊎ ((e : NodeError) × (r ≡ err e))
Result-cases (ok a) = inl (a, refl)
Result-cases (err e) = inr (e, refl)

-- `ok_or_else`
abbrev pub ok_or {ℓ} : {A : Type ℓ} → Option A → String → Result A
ok_or none message = err (error message)
ok_or (some a) message = ok a

-- `Result::err`
abbrev pub error_of {ℓ} : {A : Type ℓ} → Result A → Option NodeError
error_of (ok a) = none
error_of (err e) = some e

-- `?` on a result, where no object changes.
abbrev pub and_then {ℓ κ} : {A : Type ℓ} {B : Type κ} → Result A → (A → Result B) → Result B
and_then (ok a) f = f a
and_then (err e) f = err e

-- `.map_err(|_| NodeError::Error(message))`
abbrev pub or_error {ℓ} : {A : Type ℓ} → String → Result A → Result A
or_error message (ok a) = ok a
or_error message (err e) = err (error message)

-- `Result::ok`
abbrev pub ok_of {ℓ} : {A : Type ℓ} → Result A → Option A
ok_of (ok a) = some a
ok_of (err e) = none

-- What a method wrote before `?` returned an error stays written, so the state comes back too.
abbrev pub Action {ℓ κ} : Type ℓ → Type κ → Type (ℓ ⊔ κ)
Action S A = S → Result A × S

module _ {ℓ κ} {S : Type ℓ} {A : Type κ} where
  abbrev pub pure : A → Action S A
  pure a s = (ok a, s)

  abbrev pub lift : Result A → Action S A
  lift r s = (r, s)

  abbrev pub gets : (S → A) → Action S A
  gets f s = (ok (f s), s)

abbrev pub modify {ℓ} : {S : Type ℓ} → (S → S) → Action S (Unit {0})
modify f s = (ok tt, f s)

abbrev pub fail {ℓ κ} : {S : Type ℓ} {A : Type κ} → String → Action S A
fail message s = (err (error message), s)

abbrev pub then_do {ℓ κ μ} :
    {S : Type ℓ} {A : Type κ} {B : Type μ} → Result A × S → (A → Action S B) → Result B × S
then_do (ok a, s) f = f a s
then_do (err e, s) f = (err e, s)

infixl 5 ◌>>=◌ ◌>>◌
abbrev pub ◌>>=◌ {ℓ κ μ} :
    {S : Type ℓ} {A : Type κ} {B : Type μ} → Action S A → (A → Action S B) → Action S B
◌>>=◌ m f s = then_do (m s) f

abbrev pub ◌>>◌ {ℓ κ μ} :
    {S : Type ℓ} {A : Type κ} {B : Type μ} → Action S A → Action S B → Action S B
m >> k = m >>= λ _. k

-- An action in two parts that succeeds: both parts did.
pub then_do-ok {ℓ κ μ} :
    {S : Type ℓ} {A : Type κ} {B : Type μ} (r : Result A) (s : S) (f : A → Action S B) {b : B}
    → (then_do (r, s) f).0 ≡ ok b
    → (a : A) × (r ≡ ok a) × ((f a s).0 ≡ ok b) × ((then_do (r, s) f).1 ≡ (f a s).1)
then_do-ok (ok a) s f h = (a, refl, h, refl)
then_do-ok (err e) s f h = absurd (cc)
