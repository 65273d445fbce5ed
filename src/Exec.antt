-- ===== src/Exec.antt =====
-- Go methods over a state: they return a value, return an error, or panic, and what they wrote
-- before an error or a panic stays written.
pub mod Triple
use go_crawling_bazaar.Base.{◌≡◌, refl, ◌⊎◌, inl, inr}

pub data Outcome {ℓ} (E A : Type ℓ) : Type ℓ where
  ok : A → Outcome E A
  err : E → Outcome E A
  panic : Outcome E A

-- A method of an object with state `S`.
abbrev pub Exec {ℓ} : Type ℓ → Type ℓ → Type ℓ → Type ℓ
Exec E S A = S → Outcome E A × S

module _ {ℓ} {E S A : Type ℓ} where
  abbrev pub pure : A → Exec E S A
  pure a s = (ok a, s)

  abbrev pub raise : E → Exec E S A
  raise e s = (err e, s)

  abbrev pub crash : Exec E S A
  crash s = (panic, s)

  abbrev pub lift : Outcome E A → Exec E S A
  lift r s = (r, s)

  -- A computation that reads the state only.
  abbrev pub ask : (S → Outcome E A) → Exec E S A
  ask f s = (f s, s)

  abbrev pub gets : (S → A) → Exec E S A
  gets f s = (ok (f s), s)

-- s = f(s)
abbrev pub modify {ℓ} : {E S : Type ℓ} → (S → S) → Exec E S (Unit {ℓ})
modify f s = (ok tt, f s)

module _ {ℓ} {E S A B : Type ℓ} where
  abbrev pub continue : Outcome E A → (A → Exec E S B) → Exec E S B
  continue (ok a) f s = f a s
  continue (err e) f s = (err e, s)
  continue panic f s = (panic, s)

  infixl 5 ◌>>=◌
  -- `if err != nil { return }` between two steps.
  abbrev pub ◌>>=◌ : Exec E S A → (A → Exec E S B) → Exec E S B
  ◌>>=◌ m f s = let (r, t) = m s in continue r f t

infixl 5 ◌>>◌
abbrev pub ◌>>◌ {ℓ} : {E S B : Type ℓ} → Exec E S (Unit {ℓ}) → Exec E S B → Exec E S B
m >> n = m >>= λ _. n

-- A split on a computed outcome that keeps the equation.
pub Outcome-cases {ℓ} :
    {E A : Type ℓ} (r : Outcome E A)
    → ((a : A) × (r ≡ ok a)) ⊎ ((e : E) × (r ≡ err e)) ⊎ (r ≡ panic)
Outcome-cases (ok a) = inl (a, refl)
Outcome-cases (err e) = inr (inl (e, refl))
Outcome-cases panic = inr (inr refl)
