-- ===== src/Base/Method.antt =====
-- Methods that change an object and may raise: what was written before a raise stays written, so
-- the state comes back beside the error. A database transaction takes the writes back.
use mathlib.Core.Path.{◌≡◌, sym, ap, ◌∙◌}
use mathlib.Core.Logic.{inl, inr}
use mathlib.Core.Bool.{Bool, true, false}
use mathlib.Core.Option.{Option, none, some}
use witness_subnet.Base.Outcome.{Outcome, ok, err, Outcome-cases}

abbrev pub Action {ℓ} : Type ℓ → Type ℓ → Type ℓ → Type ℓ
Action E S A = S → Outcome E A × S

module _ {E S A B : Type 0} where
  infixl 5 ◌>>=◌ ◌>>◌
  abbrev pub ◌>>=◌ : Action E S A → (A → Action E S B) → Action E S B
  ◌>>=◌ m f s = let (r, s') = m s in elim r [ ok a ↦ f a s' | err e ↦ (err e, s') ]

  abbrev pub ◌>>◌ : Action E S A → Action E S B → Action E S B
  m >> k = m >>= λ _. k

module _ {E S : Type 0} where
  abbrev pub modify : (S → S) → Action E S (Unit {0})
  modify f s = (ok tt, f s)

  abbrev pub guard : Bool → E → Action E S (Unit {0})
  guard true e s = (err e, s)
  guard false e s = (ok tt, s)

module _ {E S A : Type 0} where
  abbrev pub pure : A → Action E S A
  pure a s = (ok a, s)

  abbrev pub raise : E → Action E S A
  raise e s = (err e, s)

  abbrev pub gets : (S → A) → Action E S A
  gets f s = (ok (f s), s)

  abbrev pub lift : Outcome E A → Action E S A
  lift r s = (r, s)

  abbrev pub or_raise : Option A → E → Action E S A
  or_raise none e s = (err e, s)
  or_raise (some a) e s = (ok a, s)

  -- `BEGIN`, the body, `COMMIT`; and `ROLLBACK` with the same exception on the way out of a raise.
  unfoldable pub transaction : Action E S A → Action E S A
  transaction m s = let (r, s') = m s in elim r [ ok a ↦ (ok a, s') | err e ↦ (err e, s) ]

module _ {ℓ} {E S A : Type 0} (P : S → Type ℓ) where
  -- A transaction leaves the state of its start or that of its body.
  pub transaction_keeps : (m : Action E S A) (s : S) → P s → P (m s).1 → P (transaction m s).1
  unfolding transaction
  transaction_keeps m s before after = go (m s) after
    where
      go :
          (r : Outcome E A × S)
          → P r.1
          → P (elim r.0 as (λ x. Outcome E A × S) [ ok a ↦ (ok a, r.1) | err e ↦ (err e, s) ]).1
      go (ok a, s') h = h
      go (err e, s') h = before

module _ {E S A : Type 0} where
  -- What a transaction makes of a body that raises, and of one that returns.
  pub transaction-err :
      (m : Action E S A) (s s' : S) (e : E) → m s ≡ (err e, s') → transaction m s ≡ (err e, s)
  unfolding transaction
  transaction-err m s s' e h = rw (h, transaction)

  pub transaction-ok :
      (m : Action E S A) (s s' : S) (a : A) → m s ≡ (ok a, s') → transaction m s ≡ (ok a, s')
  unfolding transaction
  transaction-ok m s s' a h = rw (h, transaction, h)

-- A relation between the states before and after that holds of every step holds of a chain of them.
module _ {ℓ} {E S A B : Type 0} (R : S → S → Type ℓ) where
  pub >>=_keeps :
      (m : Action E S A) (k : A → Action E S B)
      → ((s t u : S) → R s t → R t u → R s u)
      → ((s : S) → R s (m s).1)
      → ((a : A) (s : S) → R s (k a s).1)
      → (s : S) → R s ((m >>= k) s).1
  >>=_keeps m k trans first next s = go (m s) (first s)
    where
      go :
          (r : Outcome E A × S)
          → R s r.1
          → R s (elim r.0 as (λ x. Outcome E B × S) [ ok a ↦ k a r.1 | err e ↦ (err e, r.1) ]).1
      go (ok a, s') h = trans s s' _ h (next a s')
      go (err e, s') h = h

-- A chain whose first step is known to return, and one whose first step is known to raise.
module _ {E S A B : Type 0} (m : Action E S A) (k : A → Action E S B) where
  pub >>=-ok : (s s' : S) (a : A) → m s ≡ (ok a, s') → (m >>= k) s ≡ k a s'
  >>=-ok s s' a h = rw (h, ◌>>=◌, h)

  pub >>=-err : (s s' : S) (e : E) → m s ≡ (err e, s') → (m >>= k) s ≡ (err e, s')
  >>=-err s s' e h = rw (h, ◌>>=◌, h)

-- Both parts of a chain that returned have returned.
module _ {E S A B : Type 0} (m : Action E S A) (k : A → Action E S B) where
  pub >>=-returned :
      (s : S) (b : B)
      → ((m >>= k) s).0 ≡ ok b
      → (a : A) × (t : S) × (m s ≡ (ok a, t)) × ((k a t).0 ≡ ok b) × ((m >>= k) s ≡ k a t)
  >>=-returned s b h = elim (Outcome-cases (m s).0) [
    | inl (e, bad) ↦ cc (rw (bad, ◌>>=◌) at h)
    | inr (a, good) ↦
        let all : m s ≡ (ok a, (m s).1) = ap (λ x. (x, (m s).1)) good in
        let rest = >>=-ok m k s (m s).1 a all in
        (a, (m s).1, all, ap (λ r. r.0) (sym rest) ∙ h, rest)
  ]
