-- ===== src/Frontera/ProbBiddingQueue/Overtaking.antt =====
-- frontera/bidding_queue_prob.go: what insert does to an element that a bidding overtakes.
use go_crawling_bazaar.Base.{
  ◌≡◌, ◌≢◌, refl, some, true, false, none, [], ◌∷◌, String, string_key, nat_key, arith, ◌∙◌,
}
use go_crawling_bazaar.GoMap
use go_crawling_bazaar.GoMap.{GoMap, get-put, get-empty, empty-IsMap, put-IsMap}
use go_crawling_bazaar.GoMap.Totals.{len-put, len-empty}
use go_crawling_bazaar.Exec.{ok, panic}
use go_crawling_bazaar.Frontera.ProbBiddingQueue.{
  UrlBidding, Runtime, ProbBiddingQueue, new_prob_bidding_queue, has, find_place, rear, front,
  put_at, place, insert, inserts,
}

module _ (go : Runtime) where
  insert-new :
      (b : UrlBidding) (q : ProbBiddingQueue)
      → GoMap.get q.eset b.url ≡ none
      → insert go b 0 q ≡ place go b 0 q
  unfolding insert has
  insert-new b q e = let no : has q b.url ≡ false = rw (e, has) refl in rw (no, insert) refl

  -- Into an empty queue.
  insert-first :
      (a : UrlBidding)
      → insert go a 0 new_prob_bidding_queue
        ≡ ok (1, record { elems = a ∷ []; eset = GoMap.put GoMap.empty a.url tt })
  unfolding new_prob_bidding_queue place find_place put_at front
  insert-first a =
      let none_yet = len-empty String (Unit {0}) in
      let there : place go a 0 new_prob_bidding_queue ≡ put_at go a 0 new_prob_bidding_queue =
        rw (none_yet, place) refl in
      insert-new a new_prob_bidding_queue (get-empty a.url) ∙ there ∙ rw (put_at, none_yet) refl

  -- In front of the only element.
  insert-overtakes :
      (a b : UrlBidding)
      → a.url ≢ b.url
      → go.greater b.probability a.probability ≡ true
      → insert go b 0 (record { elems = a ∷ []; eset = GoMap.put GoMap.empty a.url tt })
        ≡ ok (
          1,
          record { elems = b ∷ []; eset = GoMap.put (GoMap.put GoMap.empty a.url tt) b.url tt },
        )
  unfolding place find_place put_at front rear
  insert-overtakes a b other more =
      let q : ProbBiddingQueue = record { elems = a ∷ []; eset = GoMap.put GoMap.empty a.url tt } in
      let one : GoMap.len q.eset ≡ 1 = ground (
        arith,
        len-put (GoMap.empty {K = String} {V = Unit {0}}) a.url tt empty-IsMap,
        len-empty String (Unit {0}),
        get-empty {K = String} {V = Unit {0}} a.url,
      ) in
      let absent : GoMap.get q.eset b.url ≡ none = ground (
        arith,
        get-put (GoMap.empty {K = String} {V = Unit {0}}) a.url b.url tt,
        get-empty {K = String} {V = Unit {0}} b.url,
        other,
        string_key.same_iff a.url b.url,
      ) in
      let there : place go b 0 q ≡ put_at go b 0 q = rw (one, place, more) refl in
      insert-new b q absent ∙ there ∙ rw (put_at, one, rear) refl

  -- Let three biddings have different URLs, the second a higher probability than the first, and the third
  -- none higher than the second. Their insertion into a new queue panics: after the first two, the slice
  -- holds the second alone, while the set has the URLs of both.
  pub inserts-panic :
      (a b c : UrlBidding)
      → a.url ≢ b.url
      → a.url ≢ c.url
      → b.url ≢ c.url
      → go.greater b.probability a.probability ≡ true
      → go.greater c.probability b.probability ≡ false
      → ((q : ProbBiddingQueue) × (inserts go (a ∷ b ∷ []) new_prob_bidding_queue ≡ ok q)
          × (q.elems ≡ b ∷ [])
          × (GoMap.get q.eset a.url ≡ some tt)
          × (GoMap.get q.eset b.url ≡ some tt))
        × (inserts go (a ∷ b ∷ c ∷ []) new_prob_bidding_queue ≡ panic)
  unfolding inserts place find_place
  inserts-panic a b c ab ac bc more less =
      let one = GoMap.put GoMap.empty a.url tt in
      let q : ProbBiddingQueue = record { elems = b ∷ []; eset = GoMap.put one b.url tt } in
      let two : GoMap.len q.eset ≡ 2 = ground (
        arith,
        len-put (GoMap.empty {K = String} {V = Unit {0}}) a.url tt empty-IsMap,
        len-put one b.url tt (put-IsMap GoMap.empty a.url tt empty-IsMap),
        len-empty String (Unit {0}),
        get-empty {K = String} {V = Unit {0}} a.url,
        get-empty {K = String} {V = Unit {0}} b.url,
        get-put (GoMap.empty {K = String} {V = Unit {0}}) a.url b.url tt,
        ab,
        string_key.same_iff a.url b.url,
      ) in
      let absent : GoMap.get q.eset c.url ≡ none = ground (
        arith,
        get-put (GoMap.empty {K = String} {V = Unit {0}}) a.url c.url tt,
        get-put one b.url c.url tt,
        get-empty {K = String} {V = Unit {0}} c.url,
        ac,
        bc,
        string_key.same_iff a.url c.url,
        string_key.same_iff b.url c.url,
      ) in
      let third : insert go c 0 q ≡ panic = insert-new c q absent ∙ rw (two, place, less) refl in
      let kept : GoMap.get q.eset a.url ≡ some tt = ground (
        arith,
        get-put (GoMap.empty {K = String} {V = Unit {0}}) a.url a.url tt,
        get-put one b.url a.url tt,
        ab,
        string_key.same_iff a.url a.url,
        string_key.same_iff b.url a.url,
      ) in
      let added : GoMap.get q.eset b.url ≡ some tt =
        ground (arith, get-put one b.url b.url tt, string_key.same_iff b.url b.url) in
      (
        (q, rw (insert-first a, inserts, insert-overtakes a b ab more) refl, refl, kept, added),
        rw (insert-first a, inserts, insert-overtakes a b ab more, third) refl,
      )
