-- ===== src/GoMap/Entries.antt =====
-- Association lists, the representation of a map.
use go_crawling_bazaar.Base.{
  ◌≡◌, refl, Option, none, some, List, [], ◌∷◌, ◌++◌, arith, Key, ◌==◌, if◌then◌else◌,
}

-- The first value, or the second where there is none.
abbrev pub or_else {ℓ} : {A : Type ℓ} → Option A → Option A → Option A
or_else none o = o
or_else (some a) o = some a

module _ {ℓ κ} {K : Type ℓ} {V : Type κ} ⦃e : Key K⦄ where
  unfoldable pub lookup : K → List (K × V) → Option V
  lookup k [] = none
  lookup k ((j, v) ∷ m) = if j == k then some v else lookup k m

  unfoldable pub without : K → List (K × V) → List (K × V)
  without k [] = []
  without k ((j, v) ∷ m) = let rest = without k m in if j == k then rest else (j, v) ∷ rest

  -- No key stands twice.
  abbrev pub Distinct : List (K × V) → Type κ
  Distinct [] = Unit
  Distinct ((k, v) ∷ m) = (lookup k m ≡ none) × Distinct m

  pub lookup-append :
      (k : K) (m n : List (K × V)) → lookup k (m ++ n) ≡ or_else (lookup k m) (lookup k n)
  unfolding lookup
  lookup-append k [] n = refl
  lookup-append k ((j, v) ∷ m) n = ground (arith, lookup-append k m n)

  pub lookup-without :
      (k j : K) (m : List (K × V)) → lookup j (without k m) ≡ (if k == j then none else lookup j m)
  unfolding lookup without
  lookup-without k j [] = ground arith
  lookup-without k j ((i, v) ∷ m) =
      ground (arith, lookup-without k j m, e.same_iff i k, e.same_iff i j, e.same_iff k j)

  pub Distinct-without : (k : K) (m : List (K × V)) → Distinct m → Distinct (without k m)
  unfolding without
  Distinct-without k [] d = d
  Distinct-without k ((j, v) ∷ m) d = ground (arith, Distinct-without k m d.1, lookup-without k j m)

  pub Distinct-append :
      (k : K) (v : V) (m : List (K × V))
      → lookup k m ≡ none
      → Distinct m
      → Distinct (m ++ (k, v) ∷ [])
  unfolding lookup
  Distinct-append k v [] h d = (refl, tt)
  Distinct-append k v ((j, w) ∷ m) h d = ground (
    arith,
    Distinct-append k v m,
    lookup-append j m ((k, v) ∷ []),
    e.same_iff j k,
    e.same_iff k j,
  )
