-- ===== src/Prelude/Raise.antt =====
-- Exceptions as values. `Result` is what a pure function that may raise returns; `Tx` is a method
-- that reads and writes the tables inside the caller's transaction. A method that raises leaves no
-- tables behind: every service method runs it under `session.begin()`, which rolls back when an
-- exception passes through.
use Prim.Native.String.{String}
use mathlib.Core.Path.{◌≡◌, refl}
use mathlib.Core.Logic.{◌⊎◌, inl, inr}
use mathlib.Core.Bool.{Bool, true, false}
use mathlib.Core.Option.{Option, none, some}

-- The classes of shared/exceptions.py with the message that each is raised with, and
-- `sqlalchemy.exc.IntegrityError`, which a broken constraint of a table raises.
pub data Error : Type 0 where
  not_found unauthorized forbidden validation conflict : String → Error
  unprocessable rate_limited service_unavailable : String → Error
  integrity_error : Error

pub data Result {ℓ} (A : Type ℓ) : Type ℓ where
  ok : A → Result A
  err : Error → Result A

-- `if test: raise e`.
abbrev pub raise_if : Bool → Error → Result (Unit {0})
raise_if true e = err e
raise_if false e = ok tt

infixl 5 ◌then_check◌
-- One statement that may raise after another.
abbrev pub ◌then_check◌ : Result (Unit {0}) → Result (Unit {0}) → Result (Unit {0})
ok _ then_check r = r
err e then_check r = err e

abbrev pub Tx {ℓ κ} : Type ℓ → Type κ → Type (ℓ ⊔ κ)
Tx S A = S → Result (A × S)

module _ {S A : Type 0} where
  abbrev pub pure : A → Tx S A
  pure a s = ok (a, s)

  abbrev pub raise : Error → Tx S A
  raise e s = err e

  abbrev pub gets : (S → A) → Tx S A
  gets f s = ok (f s, s)

  abbrev pub lift : Result A → Tx S A
  lift (ok a) s = ok (a, s)
  lift (err e) s = err e

  -- `if x is None: raise e`, and `x` from there on.
  abbrev pub or_raise : Option A → Error → Tx S A
  or_raise none e s = err e
  or_raise (some a) e s = ok (a, s)

abbrev pub modify : {S : Type 0} → (S → S) → Tx S (Unit {0})
modify f s = ok (tt, f s)

infixl 5 ◌>>=◌ ◌>>◌
abbrev pub ◌>>=◌ : {S A B : Type 0} → Tx S A → (A → Tx S B) → Tx S B
◌>>=◌ m f s = elim (m s) [ ok (a, s') ↦ f a s' | err e ↦ err e ]

abbrev pub ◌>>◌ : {S B : Type 0} → Tx S (Unit {0}) → Tx S B → Tx S B
m >> k = m >>= λ _. k

-- A request as the database sees it: committed if it returns, rolled back if it raises.
abbrev pub after {ℓ κ} : {S : Type ℓ} {A : Type κ} → Tx S A → S → S
after m s = elim (m s) [ ok (a, s') ↦ s' | err e ↦ s ]

pub Result-cases {ℓ} :
    {A : Type ℓ} (r : Result A) → ((a : A) × (r ≡ ok a)) ⊎ ((e : Error) × (r ≡ err e))
Result-cases (ok a) = inl (a, refl)
Result-cases (err e) = inr (e, refl)

abbrev pub is_err {ℓ} : {A : Type ℓ} → Result A → Bool
is_err (ok _) = false
is_err (err _) = true
