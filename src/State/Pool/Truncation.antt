-- ===== src/State/Pool/Truncation.antt =====
-- state/pool.go: the pool after queries have been enqueued and truncated.
use go_crawling_bazaar.Base.{
  ℕ, zero, suc, ◌+◌, ◌-◌, ◌%◌, ◌<◌, ◌≡◌, refl, false, some, List, [], ◌∷◌, nat_key, arith, ltb,
  Bool-cases, Option-cases, inl, inr, ap, ◌∙◌, if◌then◌else◌, length, get_elem?, drop,
}
use go_crawling_bazaar.GoMap
use go_crawling_bazaar.GoMap.{
  GoMap, IsMap, lookup, Distinct, range-Enumerates, get-put, get-empty, put-IsMap, empty-IsMap,
}
use go_crawling_bazaar.Word.{u32_mod, add64, sub64}
use go_crawling_bazaar.Exec.{ok}
use go_crawling_bazaar.State.Pool.{
  Request, QueryTracker, Pool, match, rebuild_index, slice_from, truncate,
}
use go_crawling_bazaar.State.Pool.Indexed.{IsIndexed, index-truncate}

length-drop : (n : ℕ) (qs : List QueryTracker) → length (drop n qs) ≡ length qs - n
length-drop zero qs = ground arith
length-drop (suc n) [] = ground arith
length-drop (suc n) (q ∷ qs) = ground (arith, length-drop n qs)

get_elem?-drop : (n i : ℕ) (qs : List QueryTracker) → get_elem? (drop n qs) i ≡ get_elem? qs (n + i)
get_elem?-drop zero i qs = ap (get_elem? qs) (omega arith)
get_elem?-drop (suc n) i [] = refl
get_elem?-drop (suc n) i (q ∷ qs) =
    let up : suc (n + i) ≡ suc n + i = omega arith in
    get_elem?-drop n i qs ∙ ap (get_elem? (q ∷ qs)) up

-- The pool after a truncation at a savepoint that has a query.
abbrev rest_of : ℕ → ℕ → Pool → Pool
rest_of sp pos p = record p {
  index = rebuild_index sp pos (GoMap.range p.index) GoMap.empty;
  queries = drop (pos + 1) p.queries;
  tracker_count = length (drop (pos + 1) p.queries) % u32_mod;
}

truncate-rest_of :
    (sp pos : ℕ) (p : Pool)
    → IsIndexed p
    → GoMap.get p.index sp ≡ some pos
    → truncate sp p ≡ ok (rest_of sp pos p)
unfolding truncate slice_from
truncate-rest_of sp pos p w e =
    let inside = w.placed sp pos e in
    let next : add64 pos 1 ≡ pos + 1 = ground (arith, inside, w.fits) in
    let enough : ltb (length p.queries) (pos + 1) ≡ false = ground (arith, inside) in
    rw (e, truncate, next, slice_from, enough) refl

rebuild_index-IsMap :
    (sp pos : ℕ) (es : List (ℕ × ℕ)) (ni : GoMap ℕ ℕ)
    → IsMap ni
    → IsMap (rebuild_index sp pos es ni)
unfolding rebuild_index
rebuild_index-IsMap sp pos [] ni w = w
rebuild_index-IsMap sp pos (kv ∷ es) ni w = elim (Bool-cases (ltb sp kv.0)) [
  | inl l ↦ rw l (
      rebuild_index-IsMap sp pos es (GoMap.put ni kv.0 (sub64 kv.1 (add64 pos 1)))
        (put-IsMap ni kv.0 (sub64 kv.1 (add64 pos 1)) w))
  | inr l ↦ rw l (rebuild_index-IsMap sp pos es ni w)
]

-- Where a later query of the pool stands after the truncation.
moved :
    (sp pos k v : ℕ) (p : Pool)
    → IsIndexed p
    → GoMap.get p.index sp ≡ some pos
    → GoMap.get p.index k ≡ some v
    → sp < k
    → (GoMap.get (rest_of sp pos p).index k ≡ some (v - (pos + 1)))
      × (pos + 1 + (v - (pos + 1)) ≡ v)
moved sp pos k v p w e f l =
    let above = w.ordered sp pos k v e f l in
    let inside = w.placed k v f in
    let exact : sub64 v (add64 pos 1) ≡ v - (pos + 1) = ground (arith, above, inside, w.fits) in
    (ground (arith, index-truncate sp pos k p w.keyed, f, exact), ground (arith, above))

-- What the index holds after the truncation was there before, for a later query.
came_from :
    (sp pos k i : ℕ) (p : Pool)
    → IsIndexed p
    → GoMap.get p.index sp ≡ some pos
    → GoMap.get (rest_of sp pos p).index k ≡ some i
    → (v : ℕ) × (GoMap.get p.index k ≡ some v) × (sp < k) × (v ≡ pos + 1 + i)
came_from sp pos k i p w e f =
    let there = index-truncate sp pos k p w.keyed in
    elim (Option-cases (GoMap.get p.index k)) [
      | inl n ↦ absurd (ground (arith, there, n, f))
      | inr (v, g) ↦ elim (Bool-cases (ltb sp k)) [
        | inr n ↦ absurd (ground (arith, there, n, g, f))
        | inl l ↦
            let (at, place) = moved sp pos k v p w e g (ground arith) in
            (v, g, ground arith, ground (arith, at, f, place))
      ]
    ]

rest_of-IsIndexed :
    (sp pos : ℕ) (p : Pool)
    → IsIndexed p
    → GoMap.get p.index sp ≡ some pos
    → IsIndexed (rest_of sp pos p)
rest_of-IsIndexed sp pos p w e =
    let size = length-drop (pos + 1) p.queries in
    record {
      keyed = rebuild_index-IsMap sp pos (GoMap.range p.index) GoMap.empty empty-IsMap;
      placed = λ k i f.
          let (v, g, l, place) = came_from sp pos k i p w e f in
          ground (arith, size, place, w.placed k v g);
      ordered = λ k i k' i' f g l.
          let (v, at, a, b) = came_from sp pos k i p w e f in
          let (v', at', a', b') = came_from sp pos k' i' p w e g in
          ground (arith, w.ordered k v k' v' at at' l, b, b');
      counted = refl;
      fits = ground (arith, size, w.fits);
    }

-- On an indexed pool, truncate at the savepoint of a query panics nowhere, drops this query and all
-- before it, keeps the pool indexed, and afterwards a query matches as before if its savepoint is
-- later, and not at all otherwise.
pub truncate-match :
    (sp pos : ℕ) (p : Pool)
    → IsIndexed p
    → GoMap.get p.index sp ≡ some pos
    → (p' : Pool) × (truncate sp p ≡ ok p')
      × IsIndexed p'
      × (p'.queries ≡ drop (pos + 1) p.queries)
      × ((k : ℕ) (req : Request) → match k req p' ≡ (if ltb sp k then match k req p else ok false))
unfolding match
truncate-match sp pos p w e = (
  rest_of sp pos p,
  truncate-rest_of sp pos p w e,
  rest_of-IsIndexed sp pos p w e,
  refl,
  λ k req. elim (Option-cases (GoMap.get p.index k)) [
    | inl n ↦ ground (arith, index-truncate sp pos k p w.keyed, n)
    | inr (v, g) ↦ elim (Bool-cases (ltb sp k)) [
      | inr n ↦ ground (arith, index-truncate sp pos k p w.keyed, n, g)
      | inl l ↦
          let (at, place) = moved sp pos k v p w e g (ground arith) in
          let same : get_elem? (drop (pos + 1) p.queries) (v - (pos + 1)) ≡ get_elem? p.queries v =
            get_elem?-drop (pos + 1) (v - (pos + 1)) p.queries ∙ ap (get_elem? p.queries) place in
          rw (at, match, same, l, g) refl
    ]
  ],
)
