-- ===== src/GoMap/Overlay.antt =====
-- The loop that writes a map of pending changes into another map: a change that is `none`, a nil
-- pointer in the source, deletes the key.
use go_crawling_bazaar.Base.{
  ◌≡◌, refl, Option, none, some, List, [], ◌∷◌, arith, Key, ◌==◌, if◌then◌else◌,
}
use go_crawling_bazaar.GoMap.{
  GoMap, get, put, delete, lookup, Distinct, IsMap, Enumerates, get-put, get-delete, put-IsMap,
  delete-IsMap,
}

-- A pending change, if there is one, over the value below it.
abbrev pub override {ℓ} : {A : Type ℓ} → Option (Option A) → Option A → Option A
override none o = o
override (some c) o = c

module _ {ℓ κ} {K : Type ℓ} {V : Type κ} ⦃e : Key K⦄ where
  abbrev pub change : GoMap K V → K → Option V → GoMap K V
  change m k none = delete m k
  change m k (some v) = put m k v

  -- One round for each entry of the iteration.
  unfoldable pub overlay : List (K × Option V) → GoMap K V → GoMap K V
  overlay [] m = m
  overlay ((k, c) ∷ es) m = overlay es (change m k c)

  get-change :
      (m : GoMap K V) (k j : K) (c : Option V)
      → get (change m k c) j ≡ (if k == j then c else get m j)
  get-change m k j none = get-delete m k j
  get-change m k j (some v) = get-put m k j v

  get-overlay-lookup :
      (es : List (K × Option V)) (m : GoMap K V) (j : K)
      → Distinct es
      → get (overlay es m) j ≡ override (lookup j es) (get m j)
  unfolding overlay lookup
  get-overlay-lookup [] m j d = refl
  get-overlay-lookup ((k, c) ∷ es) m j d =
      ground (arith, get-overlay-lookup es (change m k c) j d.1, get-change m k j c, e.same_iff k j)

  -- Whatever the order of the iteration, the result is the pending changes over the old values.
  pub get-overlay :
      (es : List (K × Option V)) (d : GoMap K (Option V)) (m : GoMap K V) (j : K)
      → Enumerates es d
      → get (overlay es m) j ≡ override (get d j) (get m j)
  get-overlay es d m j n = rw (← n.lookups j) (get-overlay-lookup es m j n.distinct)

  pub overlay-IsMap : (es : List (K × Option V)) (m : GoMap K V) → IsMap m → IsMap (overlay es m)
  unfolding overlay
  overlay-IsMap [] m w = w
  overlay-IsMap ((k, none) ∷ es) m w = overlay-IsMap es (delete m k) (delete-IsMap m k w)
  overlay-IsMap ((k, some v) ∷ es) m w = overlay-IsMap es (put m k v) (put-IsMap m k v w)
