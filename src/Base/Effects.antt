-- ===== src/Base/Effects.antt =====
-- A Go function that may return an error, alone (`Result`) and over a world that it changes
-- (`Exec`). An error keeps the changes made before it.

use mathlib.Core.Path.{◌≡◌, refl}
use mathlib.Core.Logic.{◌⊎◌, inl, inr}

pub data Result (E : Type 0) (A : Type 0) : Type 0 where
  ok : A → Result E A
  err : E → Result E A

abbrev pub Exec : Type 0 → Type 0 → Type 0 → Type 0
Exec W E A = W → Result E A × W

module _ {W E : Type 0} where
  abbrev pub pure : {A : Type 0} → A → Exec W E A
  pure a w = (ok a, w)

  abbrev pub raise : {A : Type 0} → E → Exec W E A
  raise e w = (err e, w)

  abbrev pub lift : {A : Type 0} → Result E A → Exec W E A
  lift r w = (r, w)

  abbrev pub reads : {A : Type 0} → (W → Result E A) → Exec W E A
  reads f w = (f w, w)

  abbrev pub resume : {A B : Type 0} → (A → Exec W E B) → Result E A × W → Result E B × W
  resume f (ok a, w) = f a w
  resume f (err e, w) = (err e, w)

  infixl 5 ◌>>=◌ ◌>>◌
  abbrev pub ◌>>=◌ : {A B : Type 0} → Exec W E A → (A → Exec W E B) → Exec W E B
  ◌>>=◌ m f w = resume f (m w)

  abbrev pub ◌>>◌ : {B : Type 0} → Exec W E (Unit {0}) → Exec W E B → Exec W E B
  m >> k = m >>= λ _. k

-- `fmt.Errorf("...: %w", err)`: the error is wrapped, the value passes.
abbrev pub wrap : {W E F A : Type 0} → (E → F) → Result E A × W → Result F A × W
wrap f (ok a, w) = (ok a, w)
wrap f (err e, w) = (err (f e), w)

pub state-wrap : {W E F A : Type 0} (f : E → F) (r : Result E A × W) → (wrap f r).1 ≡ r.1
state-wrap f (ok a, w) = refl
state-wrap f (err e, w) = refl

pub Result-cases :
    {E A : Type 0} (r : Result E A) → ((a : A) × (r ≡ ok a)) ⊎ ((e : E) × (r ≡ err e))
Result-cases (ok a) = inl (a, refl)
Result-cases (err e) = inr (e, refl)
