-- ===== src/Tests/Indexes.antt =====
-- The theorems on the ack index, the pool of queries and the bidding queue, at small inputs.
use go_crawling_bazaar.Base.{
  ℕ, ◌+◌, ◌-◌, ◌<◌, ◌⊎◌, inl, inr, sym, ◌∙◌, Bool-cases, true, ◌≡◌, ◌≢◌, refl, false, none, some,
  List, [], ◌∷◌, drop, ltb, ltb→lt, leb, if◌then◌else◌, arith, nat_key, string_key, String, ◌==◌,
}
use go_crawling_bazaar.GoMap.{
  get, get-put, get-empty, empty, put, range, IsMap, put-IsMap, empty-IsMap,
}
use go_crawling_bazaar.Exec.{ok, panic}
use go_crawling_bazaar.Word.{u64_mod}
use go_crawling_bazaar.UrlChain.AckIndex.{QueryKey, Response, Ack, new_ack_index}
use go_crawling_bazaar.UrlChain.AckIndex.Counters.{IsConsistent}
use go_crawling_bazaar.UrlChain.AckIndex.Calls.{
  Call, responded, registered, advanced, perform_all, overwrites, perform_all-IsConsistent,
}
use go_crawling_bazaar.Types.Queries.{write_query}
use go_crawling_bazaar.State.Pool.{QueryTracker, Pool, Request, new_pool, enqueue, match, truncate}
use go_crawling_bazaar.State.Pool.Indexed.{IsIndexed, new_pool-IsIndexed, enqueue-IsIndexed}
use go_crawling_bazaar.State.Pool.Truncation.{truncate-match}
use go_crawling_bazaar.Frontera.ProbBiddingQueue.{
  UrlBidding, Runtime, ProbBiddingQueue, new_prob_bidding_queue, inserts, pop,
}
use go_crawling_bazaar.Frontera.ProbBiddingQueue.Pops as Pops
use go_crawling_bazaar.Frontera.ProbBiddingQueue.Pops.{Popped, pop-perform_all, pushed, removed}
use go_crawling_bazaar.Frontera.ProbBiddingQueue.Overtaking.{inserts-panic}
use go_crawling_bazaar.Frontera.BiddingList.{
  BidEntry, BiddingEntry, new_bidding_entry, new_bid, add_bid, need_crawl_more, get_cid,
}
use go_crawling_bazaar.Frontera.BiddingList.Bids.{near, checked, add_bid_lem}
use go_crawling_bazaar.Frontera.BiddingList.Most.{IsMost, need_crawl_more_lem}

abbrev query : QueryKey
query = record { node_id = "n"; connection_id = 1; seq_no = 2 }

abbrev response : Response
response = record {
  key = query;
  hash = 7;
  request_timestamp = 0;
  log_offset = 0;
  row_count = 0;
  affected_rows = 0;
  response_account = 0;
}

abbrev ack : Ack
ack = record {
  key = query;
  response_hash = 7;
  hash = 8;
  request_timestamp = 0;
  response_timestamp = 0;
}

abbrev request : Request
request = record {
  header_hash = 5;
  query_type = write_query;
  key = query;
  timestamp = 0;
  signee = 0;
  queries = [];
}

-- The query is acknowledged twice.
abbrev calls : List Call
calls =
    responded 3 response
    ∷ registered 3 ack
    ∷ responded 3 response
    ∷ registered 3 ack
    ∷ advanced 5
    ∷ []

perform_all-IsConsistent_example :
    IsConsistent (overwrites calls new_ack_index 0) (perform_all calls new_ack_index)
perform_all-IsConsistent_example = perform_all-IsConsistent calls

abbrev tracker : QueryTracker
tracker = record { req = request; resp = none }

abbrev pool : Pool
pool = enqueue 4 tracker new_pool

pool-IsIndexed : IsIndexed pool
unfolding new_pool
pool-IsIndexed =
    enqueue-IsIndexed 4 tracker new_pool new_pool-IsIndexed
      (λ k pos e. absurd (ground (arith, e, get-empty {V = ℕ} k))) (ltb→lt 1 u64_mod refl)

at_four : get pool.index 4 ≡ some 0
unfolding enqueue new_pool
at_four = get-put (empty {K = ℕ} {V = ℕ}) 4 4 0

truncate-match_example :
    (p' : Pool) × (truncate 4 pool ≡ ok p')
    × IsIndexed p'
    × (p'.queries ≡ drop (0 + 1) pool.queries)
    × ((k : ℕ) (req : Request) → match k req p' ≡ (if ltb 4 k then match k req pool else ok false))
truncate-match_example = truncate-match 4 0 pool pool-IsIndexed at_four

abbrev runtime : Runtime
runtime = record { greater = λ a b. ltb b a; less = ltb; less_or_equal = leb; beyond = λ _ _. none }

abbrev low : UrlBidding
low = record { url = "a"; probability = 1 }

abbrev high : UrlBidding
high = record { url = "b"; probability = 2 }

abbrev next : UrlBidding
next = record { url = "c"; probability = 1 }

abbrev pushes : List Pops.Call
pushes = pushed low ∷ pushed high ∷ removed "a" ∷ []

pop-perform_all_example :
    let q = Pops.perform_all pushes new_prob_bidding_queue in Popped q.eset (pop q)
pop-perform_all_example = pop-perform_all pushes

different : (a b : String) → (a == b) ≡ false → a ≢ b
different a b h e = ground (arith, (string_key.same_iff a b).1 e, h)

inserts-panic_example :
    ((q : ProbBiddingQueue) × (inserts runtime (low ∷ high ∷ []) new_prob_bidding_queue ≡ ok q)
      × (q.elems ≡ high ∷ [])
      × (get q.eset low.url ≡ some tt)
      × (get q.eset high.url ≡ some tt))
    × (inserts runtime (low ∷ high ∷ next ∷ []) new_prob_bidding_queue ≡ panic)
inserts-panic_example =
    inserts-panic runtime low high next (different "a" "b" refl) (different "a" "c" refl)
      (different "b" "c" refl) refl refl

abbrev bid : BidEntry
bid = record { cid = "c"; hash = 3; from = "n"; verified_count = 1 }

abbrev entry : BiddingEntry
entry = record (new_bidding_entry "u" "" 1 "d" 2 0) { bids = put empty "n" bid }

abbrev apart : ℕ → ℕ → ℕ
apart a b = (a - b) + (b - a)

entry-IsMap : IsMap entry.bids
unfolding new_bidding_entry
entry-IsMap = put-IsMap (empty {K = String} {V = BidEntry}) "n" bid empty-IsMap

bids-positive : (k : String) (b : BidEntry) → get entry.bids k ≡ some b → 0 < b.verified_count
unfolding new_bidding_entry
bids-positive k b e =
    let e' = sym (get-put (empty {K = String} {V = BidEntry}) "n" k bid) ∙ e in
    elim (Bool-cases ("n" == k)) [
      | inl s ↦ ground (arith, e', s)
      | inr o ↦ absurd (ground (arith, e', o, get-empty {V = BidEntry} k))
    ]

no_bid : get entry.bids "m" ≡ none
unfolding new_bidding_entry
no_bid = get-put (empty {K = String} {V = BidEntry}) "n" "m" bid ∙ get-empty {V = BidEntry} "m"

add_bid_lem_example :
    let r = add_bid apart "x" "m" 4 entry in
    (r.0 ≡ true)
    × (get r.1.bids "m" ≡ some (new_bid "x" "m" (1 + near apart 4 (range entry.bids))))
    × ((k : String)
        → k ≢ "m"
        → get r.1.bids k
          ≡ elim (get entry.bids k) [ none ↦ none | some b ↦ some (checked apart 4 b) ])
add_bid_lem_example = add_bid_lem apart "x" "m" 4 entry entry-IsMap no_bid

need_crawl_more_lem_example :
    (((k : String) → get entry.bids k ≡ none)
      × (need_crawl_more entry ≡ ok entry.expect_crawler_count)
      × (get_cid entry ≡ panic))
    ⊎ ((b : BidEntry) × IsMost entry b
        × (need_crawl_more entry ≡ ok (entry.expect_crawler_count - b.verified_count))
        × (get_cid entry ≡ ok b.cid))
need_crawl_more_lem_example = need_crawl_more_lem entry entry-IsMap bids-positive
