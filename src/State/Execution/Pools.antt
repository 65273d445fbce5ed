-- ===== src/State/Execution/Pools.antt =====
-- state/state.go: what a replay makes of the pool.
use go_crawling_bazaar.Base.{
  ℕ, ◌+◌, ◌<◌, ◌≡◌, refl, some, List, [], ◌∷◌, arith, nat_key, Option-cases, inl, inr, length,
  length-append,
}
use go_crawling_bazaar.GoMap
use go_crawling_bazaar.GoMap.{get-put}
use go_crawling_bazaar.Word.{u64_mod}
use go_crawling_bazaar.Exec.{ok, Outcome-cases}
use go_crawling_bazaar.Types.Queries.{Request}
use go_crawling_bazaar.State.Pool.{Pool, QueryTracker, enqueue, truncate, slice_from, remove_failed}
use go_crawling_bazaar.State.Execution.Replay.{remove_all_failed}

-- The index points into the queries.
abbrev pub Placed : Pool → Type 0
Placed p = (sp pos : ℕ) → GoMap.get p.index sp ≡ some pos → pos < length p.queries

pub enqueue-Placed : (sp : ℕ) (q : QueryTracker) (p : Pool) → Placed p → Placed (enqueue sp q p)
unfolding enqueue
enqueue-Placed sp q p w k pos e =
    ground
      (arith, e, get-put p.index sp k (length p.queries), w k pos, length-append p.queries (q ∷ []))

pub enqueue-length :
    (sp : ℕ) (q : QueryTracker) (p : Pool) → length (enqueue sp q p).queries ≡ length p.queries + 1
unfolding enqueue
enqueue-length sp q p = length-append p.queries (q ∷ [])

pub truncate-ok :
    (sp : ℕ) (p : Pool)
    → Placed p
    → length p.queries < u64_mod
    → (p' : Pool) × (truncate sp p ≡ ok p')
unfolding truncate slice_from
truncate-ok sp p w f = elim (Outcome-cases (truncate sp p)) [
  | inl found ↦ found
  | inr other ↦ elim (Option-cases (GoMap.get p.index sp)) [
    | inl e ↦ absurd (ground (arith, e, other))
    | inr (pos, e) ↦ absurd (ground (arith, e, other, w sp pos e))
  ]
]

-- What the removal of failed requests leaves alone.
pub remove_all_failed-queries :
    (rs : List Request) (p : Pool)
    → ((remove_all_failed rs p).queries ≡ p.queries) × ((remove_all_failed rs p).index ≡ p.index)
unfolding remove_all_failed remove_failed
remove_all_failed-queries [] p = (refl, refl)
remove_all_failed-queries (r ∷ rs) p = remove_all_failed-queries rs (remove_failed r p)
