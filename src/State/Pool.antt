-- ===== src/State/Pool.antt =====
-- state/pool.go: the queries that have been executed and wait for their block, by savepoint. An int is
-- the bit pattern of its two's complement.
pub mod Indexed
pub mod Truncation
use go_crawling_bazaar.Base.{
  ℕ, suc, ◌+◌, ◌-◌, ◌%◌, ◌^◌, Bool, true, false, ◌&&◌, Option, none, some, List, [], ◌∷◌, ◌++◌,
  nat_key, ◌==◌, ltb, length, get_elem?, drop, map, if◌then◌else◌,
}
pub use go_crawling_bazaar.Types.Queries.{Request, Response}
use go_crawling_bazaar.GoMap
use go_crawling_bazaar.GoMap.{GoMap}
use go_crawling_bazaar.Word.{u32_mod, u64_mod, add64, sub64}
use go_crawling_bazaar.Exec.{Outcome, ok, err, panic}

-- QueryTracker
pub record QueryTracker : Type 0 where
  pub req : Request
  pub resp : Option Response

-- UpdateResp
unfoldable pub update_resp : QueryTracker → Response → QueryTracker
update_resp q resp = record q { resp = some resp }

-- Ready
unfoldable pub ready : QueryTracker → Bool
ready q = elim q.resp [ none ↦ false | some _ ↦ true ]

-- pool
pub record Pool : Type 0 where
  pub failed : GoMap ℕ Request
  pub reads : GoMap ℕ QueryTracker
  pub queries : List QueryTracker
  pub index : GoMap ℕ ℕ
  pub failed_request_count : ℕ
  pub tracker_count : ℕ

-- newPool
unfoldable pub new_pool : Pool
new_pool = record {
  failed = GoMap.empty;
  reads = GoMap.empty;
  queries = [];
  index = GoMap.empty;
  failed_request_count = 0;
  tracker_count = 0;
}

-- enqueue
unfoldable pub enqueue : ℕ → QueryTracker → Pool → Pool
enqueue sp q p = record p {
  queries = p.queries ++ q ∷ [];
  index = GoMap.put p.index sp (length p.queries);
  tracker_count = length (p.queries ++ q ∷ []) % u32_mod;
}

-- enqueueRead
unfoldable pub enqueue_read : QueryTracker → Pool → Pool
enqueue_read q p = record p { reads = GoMap.put p.reads q.req.header_hash q }

-- setFailed
unfoldable pub set_failed : Request → Pool → Pool
set_failed req p =
    let failed = GoMap.put p.failed req.header_hash req in
    record p { failed = failed; failed_request_count = GoMap.len failed % u32_mod }

-- failedList, in one order.
unfoldable pub failed_list : Pool → List Request
failed_list p = map (λ kv. kv.1) (GoMap.range p.failed)

-- removeFailed
unfoldable pub remove_failed : Request → Pool → Pool
remove_failed req p =
    let failed = GoMap.delete p.failed req.header_hash in
    record p { failed = failed; failed_request_count = GoMap.len failed % u32_mod }

-- match; a position outside the queries is a panic.
unfoldable pub match : ℕ → Request → Pool → Outcome Unit Bool
match sp req p = elim (GoMap.get p.index sp) [
  | none ↦ ok false
  | some pos ↦ elim (get_elem? p.queries pos) [
    | none ↦ panic
    | some q ↦ ok (q.req.header_hash == req.header_hash)
  ]
]

-- matchLast
unfoldable pub match_last : ℕ → Pool → Bool
match_last sp p = elim (GoMap.get p.index sp) [
  | none ↦ false
  | some pos ↦ pos == sub64 (length p.queries) 1
]

-- The loop of `truncate` that rebuilds the index.
unfoldable pub rebuild_index : ℕ → ℕ → List (ℕ × ℕ) → GoMap ℕ ℕ → GoMap ℕ ℕ
rebuild_index sp pos [] ni = ni
rebuild_index sp pos (kv ∷ kvs) ni =
    rebuild_index sp pos kvs
      (if ltb sp kv.0 then GoMap.put ni kv.0 (sub64 kv.1 (add64 pos 1)) else ni)

-- p.queries[n:]
unfoldable pub slice_from : ℕ → List QueryTracker → Option (List QueryTracker)
slice_from n qs = if ltb (length qs) n then none else some (drop n qs)

-- truncate
unfoldable pub truncate : ℕ → Pool → Outcome Unit Pool
unfolding rebuild_index slice_from
truncate sp p = elim (GoMap.get p.index sp) [
  | none ↦ ok p
  | some pos ↦ elim (slice_from (add64 pos 1) p.queries) [
    | none ↦ panic
    | some qs ↦ ok (record p {
      index = rebuild_index sp pos (GoMap.range p.index) GoMap.empty;
      queries = qs;
      tracker_count = length qs % u32_mod;
    })
  ]
]
