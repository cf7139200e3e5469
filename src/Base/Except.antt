-- ===== src/Base/Except.antt =====
-- Methods that change state and may raise: what was written before a raise stays written, so the
-- state comes back beside the error too. `E` is the type of the exceptions.
use mathlib.Core.Path.{◌≡◌, refl}
use mathlib.Core.Logic.{◌⊎◌, inl, inr}
use mathlib.Core.Bool.{Bool, true, false}

pub data Result {ℓ} (E A : Type ℓ) : Type ℓ where
  ok : A → Result E A
  err : E → Result E A

pub Result-cases {ℓ} :
    {E A : Type ℓ} (r : Result E A) → ((a : A) × (r ≡ ok a)) ⊎ ((e : E) × (r ≡ err e))
Result-cases (ok a) = inl (a, refl)
Result-cases (err e) = inr (e, refl)

abbrev pub Method : Type 0 → Type 0 → Type 0 → Type 0
Method S E A = S → Result E A × S

module _ {S E A : Type 0} where
  abbrev pub pure : A → Method S E A
  pure a s = (ok a, s)

  abbrev pub raise : E → Method S E A
  raise e s = (err e, s)

  abbrev pub lift : Result E A → Method S E A
  lift r s = (r, s)

  abbrev pub gets : (S → A) → Method S E A
  gets f s = (ok (f s), s)

infixl 5 ◌>>=◌ ◌>>◌
abbrev pub ◌>>=◌ : {S E A B : Type 0} → Method S E A → (A → Method S E B) → Method S E B
◌>>=◌ m f s = let (r, s') = m s in elim r [ ok a ↦ f a s' | err e ↦ (err e, s') ]

abbrev pub ◌>>◌ : {S E A B : Type 0} → Method S E A → Method S E B → Method S E B
m >> k = m >>= λ _. k

-- `if not c: raise e`
abbrev pub require : {S E : Type 0} → Bool → E → Method S E (Unit {0})
require true e s = (ok tt, s)
require false e s = (err e, s)

abbrev pub modify : {S E : Type 0} → (S → S) → Method S E (Unit {0})
modify f s = (ok tt, f s)
