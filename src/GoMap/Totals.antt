-- ===== src/GoMap/Totals.antt =====
-- The sum of a measure over the values of a map.
use go_crawling_bazaar.Base.{
  ℕ, ◌+◌, ◌≡◌, refl, Option, none, some, List, [], ◌∷◌, ◌++◌, arith, Key, ◌==◌, length, Bool-cases,
  inl, inr, subst,
}
use go_crawling_bazaar.GoMap.{GoMap, IsMap, range, put, delete, get, empty, len}
use go_crawling_bazaar.GoMap.Entries.{lookup, without, Distinct}

-- The measure of a value that may be missing.
abbrev pub weight {ℓ} : {V : Type ℓ} → (V → ℕ) → Option V → ℕ
weight f none = 0
weight f (some v) = f v

module _ {ℓ κ} {K : Type ℓ} {V : Type κ} where
  abbrev pub total_entries : (V → ℕ) → List (K × V) → ℕ
  total_entries f [] = 0
  total_entries f (kv ∷ m) = f kv.1 + total_entries f m

  -- The sum over the values.
  unfoldable pub total : (V → ℕ) → GoMap K V → ℕ
  unfolding range
  total f m = total_entries f (range m)

  total_entries-append :
      (f : V → ℕ) (m n : List (K × V))
      → total_entries f (m ++ n) ≡ total_entries f m + total_entries f n
  total_entries-append f [] n = ground arith
  total_entries-append f (kv ∷ m) n = ground (arith, total_entries-append f m n)

  total_entries-one : (m : List (K × V)) → total_entries (λ _. 1) m ≡ length m
  total_entries-one [] = refl
  total_entries-one (kv ∷ m) = ground (arith, total_entries-one m)

module _ {ℓ κ} {K : Type ℓ} {V : Type κ} ⦃e : Key K⦄ where
  total_entries-without :
      (f : V → ℕ) (k : K) (m : List (K × V))
      → Distinct m
      → total_entries f (without k m) + weight f (lookup k m) ≡ total_entries f m
  unfolding without lookup
  total_entries-without f k [] d = ground arith
  total_entries-without f k ((j, v) ∷ m) d = elim (Bool-cases (j == k)) [
    | inl h ↦
        let absent : lookup k m ≡ none =
          subst (λ i. lookup i m ≡ none) ((e.same_iff j k).0 h) d.0 in
        ground (arith, h, absent, total_entries-without f k m d.1)
    | inr h ↦ ground (arith, h, total_entries-without f k m d.1)
  ]

  pub total-delete :
      (f : V → ℕ) (m : GoMap K V) (k : K)
      → IsMap m
      → total f (delete m k) + weight f (get m k) ≡ total f m
  unfolding total delete get
  total-delete f m k w = total_entries-without f k m.entries w.distinct

  pub total-put :
      (f : V → ℕ) (m : GoMap K V) (k : K) (v : V)
      → IsMap m
      → total f (put m k v) + weight f (get m k) ≡ total f m + f v
  unfolding total put get
  total-put f m k v w = ground (
    arith,
    total_entries-append f (without k m.entries) ((k, v) ∷ []),
    total_entries-without f k m.entries w.distinct,
  )

  pub len-delete :
      (m : GoMap K V) (k : K) → IsMap m → len (delete m k) + weight (λ _. 1) (get m k) ≡ len m
  unfolding len delete total
  len-delete m k w = ground (
    arith,
    total-delete (λ _. 1) m k w,
    total_entries-one m.entries,
    total_entries-one (without k m.entries),
  )

  pub len-put :
      (m : GoMap K V) (k : K) (v : V)
      → IsMap m
      → len (put m k v) + weight (λ _. 1) (get m k) ≡ len m + 1
  unfolding len put total
  len-put m k v w = ground (
    arith,
    total-put (λ _. 1) m k v w,
    total_entries-one m.entries,
    total_entries-one (without k m.entries ++ (k, v) ∷ []),
  )

pub total-empty {ℓ κ} : (K : Type ℓ) (V : Type κ) (f : V → ℕ) → total f (empty {K = K} {V = V}) ≡ 0
unfolding total empty
total-empty K V f = refl

pub len-empty {ℓ κ} : (K : Type ℓ) (V : Type κ) → len (empty {K = K} {V = V}) ≡ 0
unfolding len empty
len-empty K V = refl
