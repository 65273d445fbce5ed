-- ===== src/GoMap.antt =====
-- Go's built-in map. The representation is private to this tree: clients have `map_laws`, and an
-- iteration is over `range`, one of the enumerations of the map (Go fixes no order).
mod Entries
pub use Entries.{Distinct, or_else}
unfoldable pub use Entries.{lookup, without}
pub mod Overlay
pub mod Totals
use Entries.{lookup-without, Distinct-without, Distinct-append, lookup-append}
use go_crawling_bazaar.Base.{
  ℕ, ◌≡◌, refl, Option, none, some, List, [], ◌∷◌, ◌++◌, arith, Key, ◌==◌, if◌then◌else◌, length,
}

pub record GoMap {ℓ κ} (K : Type ℓ) (V : Type κ) : Type (ℓ ⊔ κ) where
  entries : List (K × V)

module _ {ℓ κ} {K : Type ℓ} {V : Type κ} where
  unfoldable pub empty : GoMap K V
  empty = record { entries = [] }

  -- `for k, v := range m`, in one order.
  unfoldable pub range : GoMap K V → List (K × V)
  range m = m.entries

  -- len(m)
  pub len : GoMap K V → ℕ
  len m = length m.entries

module _ {ℓ κ} {K : Type ℓ} {V : Type κ} ⦃e : Key K⦄ where
  -- v, ok := m[k]
  unfoldable pub get : GoMap K V → K → Option V
  get m k = lookup k m.entries

  -- m[k] = v
  unfoldable pub put : GoMap K V → K → V → GoMap K V
  put m k v = record { entries = without k m.entries ++ (k, v) ∷ [] }

  -- delete(m, k)
  unfoldable pub delete : GoMap K V → K → GoMap K V
  delete m k = record { entries = without k m.entries }

  -- Each key has one entry.
  pub record IsMap (m : GoMap K V) : Type (ℓ ⊔ κ) where
    distinct : Distinct m.entries

  -- `es` lists the entries of `m`, each once: an order in which Go may iterate.
  pub record Enumerates (es : List (K × V)) (m : GoMap K V) : Type (ℓ ⊔ κ) where
    pub distinct : Distinct es
    pub lookups : (k : K) → lookup k es ≡ get m k

  pub range-Enumerates : (m : GoMap K V) → IsMap m → Enumerates (range m) m
  unfolding range get
  range-Enumerates m w = record { distinct = w.distinct; lookups = λ k. refl }

  pub get-delete :
      (m : GoMap K V) (k j : K) → get (delete m k) j ≡ (if k == j then none else get m j)
  unfolding get delete
  get-delete m k j = lookup-without k j m.entries

  pub get-put :
      (m : GoMap K V) (k j : K) (v : V) → get (put m k v) j ≡ (if k == j then some v else get m j)
  unfolding get put lookup
  get-put m k j v = ground (
    arith,
    lookup-append j (without k m.entries) ((k, v) ∷ []),
    lookup-without k j m.entries,
    e.same_iff k j,
  )

  pub delete-IsMap : (m : GoMap K V) (k : K) → IsMap m → IsMap (delete m k)
  unfolding delete
  delete-IsMap m k w = record { distinct = Distinct-without k m.entries w.distinct }

  pub put-IsMap : (m : GoMap K V) (k : K) (v : V) → IsMap m → IsMap (put m k v)
  unfolding put
  put-IsMap m k v w = record {
    distinct =
        Distinct-append k v (without k m.entries)
          (ground (arith, lookup-without k k m.entries, e.same_iff k k))
          (Distinct-without k m.entries w.distinct);
  }

pub get-empty {ℓ κ} : {K : Type ℓ} {V : Type κ} ⦃e : Key K⦄ (k : K) → get (empty {V = V}) k ≡ none
unfolding get empty lookup
get-empty k = refl

pub empty-IsMap {ℓ κ} : {K : Type ℓ} {V : Type κ} ⦃e : Key K⦄ → IsMap (empty {K = K} {V = V})
unfolding empty
empty-IsMap = record { distinct = tt }

pub ruleset map_laws = (get-empty, get-put, get-delete)
