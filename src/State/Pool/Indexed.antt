-- ===== src/State/Pool/Indexed.antt =====
-- state/pool.go: the index of the pool is that of its queries.
use go_crawling_bazaar.Base.{
  ℕ, ◌+◌, ◌%◌, ◌<◌, ◌≡◌, refl, none, some, List, [], ◌∷◌, nat_key, ◌==◌, arith, ltb, Bool-cases,
  inl, inr, subst, if◌then◌else◌, length, length-append,
}
use go_crawling_bazaar.GoMap
use go_crawling_bazaar.GoMap.{
  GoMap, IsMap, lookup, Distinct, range-Enumerates, get-put, get-empty, put-IsMap, empty-IsMap,
}
use go_crawling_bazaar.Word.{u32_mod, u64_mod, add64, sub64}
use go_crawling_bazaar.State.Pool.{QueryTracker, Pool, new_pool, enqueue, rebuild_index}

-- The savepoints are in the order of their queries, and the queries fit a 64-bit int.
pub record IsIndexed (p : Pool) : Type 0 where
  pub keyed : IsMap p.index
  pub placed : (sp pos : ℕ) → GoMap.get p.index sp ≡ some pos → pos < length p.queries
  pub ordered :
      (sp pos sp' pos' : ℕ)
      → GoMap.get p.index sp ≡ some pos
      → GoMap.get p.index sp' ≡ some pos'
      → sp < sp'
      → pos < pos'
  pub counted : p.tracker_count ≡ length p.queries % u32_mod
  pub fits : length p.queries < u64_mod

pub new_pool-IsIndexed : IsIndexed new_pool
unfolding new_pool
new_pool-IsIndexed = record {
  keyed = empty-IsMap;
  placed = λ sp pos e. absurd (ground (arith, e, get-empty {V = ℕ} sp));
  ordered = λ sp pos sp' pos' e f l. absurd (ground (arith, e, get-empty {V = ℕ} sp));
  counted = ground arith;
  fits = ground arith;
}

-- A query with a later savepoint than all the others may be enqueued.
pub enqueue-IsIndexed :
    (sp : ℕ) (q : QueryTracker) (p : Pool)
    → IsIndexed p
    → ((k pos : ℕ) → GoMap.get p.index k ≡ some pos → k < sp)
    → length p.queries + 1 < u64_mod
    → IsIndexed (enqueue sp q p)
unfolding enqueue
enqueue-IsIndexed sp q p w later room =
    let size = length-append p.queries (q ∷ []) in
    record {
      keyed = put-IsMap p.index sp (length p.queries) w.keyed;
      placed = λ k pos e.
          ground (arith, e, get-put p.index sp k (length p.queries), w.placed k pos, size);
      ordered = λ k pos k' pos' e f l. ground (
        arith,
        e,
        f,
        get-put p.index sp k (length p.queries),
        get-put p.index sp k' (length p.queries),
        w.placed k pos,
        w.ordered k pos k' pos',
        later k pos,
        later k' pos',
      );
      counted = refl;
      fits = ground (arith, size);
    }

pub get-rebuild_index :
    (sp pos k : ℕ) (es : List (ℕ × ℕ)) (ni : GoMap ℕ ℕ)
    → Distinct es
    → GoMap.get (rebuild_index sp pos es ni) k ≡ elim (lookup k es) [
      | none ↦ GoMap.get ni k
      | some v ↦ if ltb sp k then some (sub64 v (add64 pos 1)) else GoMap.get ni k
    ]
unfolding rebuild_index lookup
get-rebuild_index sp pos k [] ni d = refl
get-rebuild_index sp pos k ((j, v) ∷ es) ni d =
    let acc : GoMap ℕ ℕ = if ltb sp j then GoMap.put ni j (sub64 v (add64 pos 1)) else ni in
    let ih = get-rebuild_index sp pos k es acc d.1 in
    let put_at = get-put ni j k (sub64 v (add64 pos 1)) in
    elim (Bool-cases (j == k)) [
      | inr o ↦ ground (arith, ih, put_at, o)
      | inl s ↦
          let same : j ≡ k = ground arith in
          let absent : lookup k es ≡ none = subst (λ i. lookup i es ≡ none) same d.0 in
          ground (arith, ih, put_at, s, absent, same)
    ]

-- The index after a truncation: only the later savepoints, each at its query.
pub index-truncate :
    (sp pos k : ℕ) (p : Pool)
    → IsMap p.index
    → GoMap.get (rebuild_index sp pos (GoMap.range p.index) GoMap.empty) k
      ≡ elim (GoMap.get p.index k) [
        | none ↦ none
        | some v ↦ if ltb sp k then some (sub64 v (add64 pos 1)) else none
      ]
index-truncate sp pos k p w =
    let r = range-Enumerates p.index w in
    ground (
      arith,
      get-rebuild_index sp pos k (GoMap.range p.index) GoMap.empty r.distinct,
      r.lookups k,
      get-empty {V = ℕ} k,
    )
