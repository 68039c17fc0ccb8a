-- ===== src/Base/Outcome.antt =====
-- Results of code that may raise.
use mathlib.Core.Path.{◌≡◌, refl}
use mathlib.Core.Logic.{◌⊎◌, inl, inr}
use mathlib.Core.Bool.{Bool, true, false}
use mathlib.Core.Option.{Option, none, some}

pub data Outcome {ℓ} (E A : Type ℓ) : Type ℓ where
  ok : A → Outcome E A
  err : E → Outcome E A

module _ {ℓ} {E A B : Type ℓ} where
  infixl 5 ◌>>=◌
  abbrev pub ◌>>=◌ : Outcome E A → (A → Outcome E B) → Outcome E B
  ok a >>= f = f a
  err e >>= f = err e

  infixr 5 ◌>>◌
  abbrev pub ◌>>◌ : Outcome E A → Outcome E B → Outcome E B
  m >> k = m >>= λ _. k

module _ {E : Type 0} where
  -- `if b: raise e`
  abbrev pub raise_if : Bool → E → Outcome E (Unit {0})
  raise_if true e = err e
  raise_if false e = ok tt

  abbrev pub or_raise : {A : Type 0} → Option A → E → Outcome E A
  or_raise none e = err e
  or_raise (some a) e = ok a

  -- What follows a passed check, and that the check was passed.
  pub raise_if->>-ok :
      {A : Type 0} (b : Bool) (e : E) (m : Outcome E A) {a : A}
      → (raise_if b e >> m) ≡ ok a
      → (b ≡ false) × (m ≡ ok a)
  raise_if->>-ok true e m h = cc
  raise_if->>-ok false e m h = (refl, h)

pub ok-injective {ℓ} : {E A : Type ℓ} {a b : A} → ◌≡◌ {A = Outcome E A} (ok a) (ok b) → a ≡ b
ok-injective h = cc

-- Both parts of a bind that returned have returned.
pub >>=-eq-ok {ℓ} :
    {E A B : Type ℓ} (first : Outcome E A) (next : A → Outcome E B) {last : B}
    → (first >>= next) ≡ ok last
    → (mid : A) × (first ≡ ok mid) × (next mid ≡ ok last)
>>=-eq-ok (err raised) next returned = cc
>>=-eq-ok (ok mid) next returned = (mid, refl, returned)

pub Outcome-cases {ℓ} :
    {E A : Type ℓ} (o : Outcome E A) → ((e : E) × (o ≡ err e)) ⊎ ((a : A) × (o ≡ ok a))
Outcome-cases (ok a) = inr (a, refl)
Outcome-cases (err e) = inl (e, refl)
