-- ===== src/Exec/Triple.antt =====
-- Invariants of methods, one rule for each way to build a method: a method keeps `P` however it
-- ends, and what it returns satisfies `Q`.
use go_crawling_bazaar.Base.{◌≡◌, refl, Bool, true, false, if◌then◌else◌}
use go_crawling_bazaar.Exec.{
  Outcome, ok, err, panic, Exec, pure, raise, crash, lift, ask, gets, modify, continue, ◌>>=◌,
}

abbrev pub Post {ℓ} : {E A : Type ℓ} → (A → Type ℓ) → Outcome E A → Type ℓ
Post Q (ok a) = Q a
Post Q (err e) = Unit
Post Q panic = Unit

pub record Triple {ℓ} {E S A : Type ℓ} (P : S → Type ℓ) (m : Exec E S A) (Q : A → Type ℓ)
    : Type ℓ where
  pub at : (s : S) → P s → P (m s).1 × Post Q (m s).0

module _ {ℓ} {E S A : Type ℓ} {P : S → Type ℓ} {Q : A → Type ℓ} where
  pub Triple-pure : (a : A) → Q a → Triple {E = E} P (pure a) Q
  Triple-pure a q = record { at = λ s h. (h, q) }

  pub Triple-raise : (e : E) → Triple P (raise e) Q
  Triple-raise e = record { at = λ s h. (h, tt) }

  pub Triple-crash : Triple {E = E} P crash Q
  Triple-crash = record { at = λ s h. (h, tt) }

  pub Triple-lift : (r : Outcome E A) → Post Q r → Triple P (lift r) Q
  Triple-lift r q = record { at = λ s h. (h, q) }

  pub Triple-ask : (f : S → Outcome E A) → ((s : S) → P s → Post Q (f s)) → Triple P (ask f) Q
  Triple-ask f q = record { at = λ s h. (h, q s h) }

  pub Triple-gets : (f : S → A) → ((s : S) → P s → Q (f s)) → Triple {E = E} P (gets f) Q
  Triple-gets f q = record { at = λ s h. (h, q s h) }

  pub Triple-if :
      (b : Bool) (m n : Exec E S A)
      → (b ≡ true → Triple P m Q)
      → (b ≡ false → Triple P n Q)
      → Triple P (if b then m else n) Q
  Triple-if true m n tm tn = tm refl
  Triple-if false m n tm tn = tn refl

pub Triple-modify {ℓ} :
    {E S : Type ℓ} {P : S → Type ℓ} (f : S → S)
    → ((s : S) → P s → P (f s))
    → Triple {E = E} P (modify f) (λ _. Unit)
Triple-modify f k = record { at = λ s h. (k s h, tt) }

module _ {ℓ} {E S A B : Type ℓ} {P : S → Type ℓ} {Q : A → Type ℓ} {R : B → Type ℓ} where
  continue_keeps :
      (r : Outcome E A) (f : A → Exec E S B) (s : S)
      → P s
      → Post Q r
      → ((a : A) → Q a → Triple P (f a) R)
      → P (continue r f s).1 × Post R (continue r f s).0
  continue_keeps (ok a) f s h q t = (t a q).at s h
  continue_keeps (err e) f s h q t = (h, tt)
  continue_keeps panic f s h q t = (h, tt)

  pub Triple-bind :
      (m : Exec E S A) (f : A → Exec E S B)
      → Triple P m Q
      → ((a : A) → Q a → Triple P (f a) R)
      → Triple P (m >>= f) R
  Triple-bind m f tm tf = record {
    at = λ s h. let kept = tm.at s h in continue_keeps (m s).0 f (m s).1 kept.0 kept.1 tf;
  }

module _ {ℓ} {E S A B : Type ℓ} {P : S → Type ℓ} {R : B → Type ℓ} where
  -- The rest of a block behind a computed outcome.
  pub Triple-bind-lift :
      (r : Outcome E A) (f : A → Exec E S B)
      → ((a : A) → r ≡ ok a → Triple P (f a) R)
      → Triple P (lift r >>= f) R
  Triple-bind-lift (ok a) f tf = record { at = λ s h. (tf a refl).at s h }
  Triple-bind-lift (err e) f tf = record { at = λ s h. (h, tt) }
  Triple-bind-lift panic f tf = record { at = λ s h. (h, tt) }
