-- ===== src/Frontera/ProbBiddingQueue.antt =====
-- frontera/bidding_queue_prob.go: the queue of biddings by probability, a slice and the set of the URLs
-- that are in it. A probability is the bit pattern of a double, and its comparisons are parameters.
pub mod Pops
pub mod Overtaking
use go_crawling_bazaar.Base.{
  ℕ, zero, suc, ◌+◌, ◌-◌, ◌≡◌, ◌≢◌, refl, Bool, true, false, Option, none, some, List, [], ◌∷◌,
  ◌++◌, String, string_key, nat_key, ◌==◌, arith, ltb, length, get_elem?, take, drop, if◌then◌else◌,
  Bool-cases, Option-cases, inl, inr, ◌⊎◌, subst, sym, ap, ◌∙◌,
}
use go_crawling_bazaar.GoMap
use go_crawling_bazaar.GoMap.{GoMap, get-delete, get-put, get-empty}
use go_crawling_bazaar.Exec.{Outcome, ok, err, panic}

-- The fields of types.UrlBidding that the queue reads.
pub record UrlBidding : Type 0 where
  pub url : String
  pub probability : ℕ

-- `beyond` is what elems[0:i] shows for an `i` past the length, if the capacity reaches that far.
pub record Runtime : Type 0 where
  pub greater : ℕ → ℕ → Bool
  pub less : ℕ → ℕ → Bool
  pub less_or_equal : ℕ → ℕ → Bool
  pub beyond : List UrlBidding → ℕ → Option (List UrlBidding)

-- errors.New("no item can be poped")
pub data Error : Type 0 where
  no_item : Error

-- ProbBiddingQueue
pub record ProbBiddingQueue : Type 0 where
  pub elems : List UrlBidding
  pub eset : GoMap String (Unit {0})

-- newProbBiddingQueue
unfoldable pub new_prob_bidding_queue : ProbBiddingQueue
new_prob_bidding_queue = record { elems = []; eset = GoMap.empty }

-- Has
unfoldable pub has : ProbBiddingQueue → String → Bool
has q u = elim (GoMap.get q.eset u) [ none ↦ false | some _ ↦ true ]

-- Len: the size of the set.
abbrev pub len : ProbBiddingQueue → ℕ
len q = GoMap.len q.eset

-- The loop of Pop over the slice.
unfoldable pub pop_rounds :
    List UrlBidding → GoMap String (Unit {0}) → Outcome Error UrlBidding × ProbBiddingQueue
pop_rounds [] eset = (err no_item, record { elems = []; eset = eset })
pop_rounds (out ∷ rest) eset =
    let skipped = pop_rounds rest eset in
    elim (GoMap.get eset out.url) [
      | some _ ↦ (ok out, record { elems = rest; eset = GoMap.delete eset out.url })
      | none ↦ skipped
    ]

-- Pop
unfoldable pub pop : ProbBiddingQueue → Outcome Error UrlBidding × ProbBiddingQueue
unfolding pop_rounds
pop q = pop_rounds q.elems q.eset

-- Push
unfoldable pub push : UrlBidding → ProbBiddingQueue → ProbBiddingQueue
unfolding has
push b q =
    if has q b.url
    then q
    else record { elems = q.elems ++ b ∷ []; eset = GoMap.put q.eset b.url tt }

-- Remove: the slice keeps the bidding.
unfoldable pub remove : String → ProbBiddingQueue → ProbBiddingQueue
remove u q = record q { eset = GoMap.delete q.eset u }

module _ (go : Runtime) where
  -- The first loop of insert: the index, from `i` on, and the bidding with the URL.
  unfoldable pub find_url : String → ℕ → List UrlBidding → Option (ℕ × UrlBidding)
  find_url u i [] = none
  find_url u i (b ∷ bs) =
      let rest = find_url u (suc i) bs in if b.url == u then some (i, b) else rest

  -- elems[i+1:] where `i` is not the last index by Len, and nothing otherwise; a slice that begins
  -- past the elements is a panic.
  unfoldable pub rear : ProbBiddingQueue → ℕ → Option (List UrlBidding)
  rear q i =
      if ltb i (len q - 1)
      then (if ltb (length q.elems) (i + 1) then none else some (drop (i + 1) q.elems))
      else some []

  -- The second loop of insert, for `n` indexes from `i`: where it stops, or `none` for an index that
  -- the slice does not have.
  unfoldable pub find_place : UrlBidding → ℕ → ℕ → List UrlBidding → Option ℕ
  find_place bidding zero i elems = some i
  find_place bidding (suc n) i elems =
      let rest = find_place bidding n (suc i) elems in
      elim (get_elem? elems i) [
        | none ↦ none
        | some b ↦ if go.greater bidding.probability b.probability then some i else rest
      ]

  -- elems[0:i]
  unfoldable pub front : ProbBiddingQueue → ℕ → Option (List UrlBidding)
  front q i = if ltb (length q.elems) i then go.beyond q.elems i else some (take i q.elems)

  -- The rest of insert: the bidding takes the place of the element there.
  unfoldable pub put_at : UrlBidding → ℕ → ProbBiddingQueue → Outcome Error (ℕ × ProbBiddingQueue)
  unfolding rear front
  put_at bidding i q = elim (front q i) [
    | none ↦ panic
    | some before ↦ elim (if ltb i (len q) then rear q i else some []) [
      | none ↦ panic
      | some rear2 ↦ ok (
        i + 1,
        record {
          elems = (before ++ bidding ∷ []) ++ rear2;
          eset = GoMap.put q.eset bidding.url tt;
        },
      )
    ]
  ]

  -- The part of insert after the first loop, from the index `from`.
  unfoldable pub place : UrlBidding → ℕ → ProbBiddingQueue → Outcome Error (ℕ × ProbBiddingQueue)
  unfolding find_place put_at
  place bidding from q = elim (find_place bidding (len q - from) from q.elems) [
    | none ↦ panic
    | some i ↦ put_at bidding i q
  ]

  -- Without the element at the index.
  unfoldable pub drop_at : ℕ → UrlBidding → ProbBiddingQueue → Option ProbBiddingQueue
  unfolding rear
  drop_at i b q = elim (rear q i) [
    | none ↦ none
    | some rear1 ↦
        some (record { elems = take i q.elems ++ rear1; eset = GoMap.delete q.eset b.url })
  ]

  -- insert: the position after the bidding, and the queue.
  unfoldable pub insert : UrlBidding → ℕ → ProbBiddingQueue → Outcome Error (ℕ × ProbBiddingQueue)
  unfolding has find_url place drop_at
  insert bidding from q =
      if has q bidding.url
      then elim (find_url bidding.url 0 q.elems) [
        | none ↦ place bidding from q
        | some (i, b) ↦
            if go.less_or_equal bidding.probability b.probability
            then ok (i + 1, q)
            else elim (drop_at i b q) [ none ↦ panic | some q' ↦ place bidding from q' ]
      ]
      else place bidding from q

  -- Inserts
  unfoldable pub inserts : List UrlBidding → ProbBiddingQueue → Outcome Error ProbBiddingQueue
  unfolding insert
  inserts [] q = ok q
  inserts (b ∷ bs) q = elim (insert b 0 q) [ ok r ↦ inserts bs r.1 | err e ↦ err e | panic ↦ panic ]

  -- sort.Slice of FastInserts, one of the orders that it may leave.
  unfoldable pub insert_sorted : UrlBidding → List UrlBidding → List UrlBidding
  insert_sorted b [] = b ∷ []
  insert_sorted b (c ∷ cs) =
      if go.less c.probability b.probability then c ∷ insert_sorted b cs else b ∷ c ∷ cs

  unfoldable pub sort_biddings : List UrlBidding → List UrlBidding
  unfolding insert_sorted
  sort_biddings [] = []
  sort_biddings (b ∷ bs) = insert_sorted b (sort_biddings bs)

  -- The loop of FastInserts.
  unfoldable pub inserts_from :
      List UrlBidding → ℕ → ProbBiddingQueue → Outcome Error ProbBiddingQueue
  unfolding insert
  inserts_from [] pos q = ok q
  inserts_from (b ∷ bs) pos q = elim (insert b pos q) [
    | ok r ↦ inserts_from bs r.0 r.1
    | err e ↦ err e
    | panic ↦ panic
  ]

  -- FastInserts
  unfoldable pub fast_inserts : List UrlBidding → ProbBiddingQueue → Outcome Error ProbBiddingQueue
  unfolding sort_biddings inserts_from
  fast_inserts biddings q = inserts_from (sort_biddings biddings) 0 q
