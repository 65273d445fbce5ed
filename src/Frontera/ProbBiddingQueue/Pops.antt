-- ===== src/Frontera/ProbBiddingQueue/Pops.antt =====
-- frontera/bidding_queue_prob.go: Push, Remove and Pop.
use go_crawling_bazaar.Base.{
  ◌≡◌, ◌≢◌, refl, none, some, List, [], ◌∷◌, ◌++◌, String, string_key, ◌==◌, arith, Bool-cases,
  Option-cases, inl, inr, ◌⊎◌, subst, ap,
}
use go_crawling_bazaar.GoMap
use go_crawling_bazaar.GoMap.{GoMap, get-delete, get-put, get-empty}
use go_crawling_bazaar.Exec.{Outcome, ok, err}
use go_crawling_bazaar.Frontera.ProbBiddingQueue.{
  UrlBidding, Error, no_item, ProbBiddingQueue, new_prob_bidding_queue, has, pop_rounds, pop, push,
  remove,
}

-- A bidding of the URL is in the slice.
unfoldable pub Holds : String → List UrlBidding → Type 0
Holds u [] = ⊥
Holds u (b ∷ bs) = (b.url ≡ u) ⊎ Holds u bs

-- Every URL of the set has a bidding in the slice.
abbrev pub IsCovered : ProbBiddingQueue → Type 0
IsCovered q = (u : String) → GoMap.get q.eset u ≡ some tt → Holds u q.elems

Holds-append : (u : String) (bs cs : List UrlBidding) → Holds u bs → Holds u (bs ++ cs)
unfolding Holds
Holds-append u [] cs h = absurd h
Holds-append u (b ∷ bs) cs (inl e) = inl e
Holds-append u (b ∷ bs) cs (inr h) = inr (Holds-append u bs cs h)

Holds-last : (b : UrlBidding) (bs : List UrlBidding) → Holds b.url (bs ++ b ∷ [])
unfolding Holds
Holds-last b [] = inl refl
Holds-last b (c ∷ cs) = inr (Holds-last b cs)

Holds-behind :
    (u : String) (b : UrlBidding) (bs : List UrlBidding) → Holds u (b ∷ bs) → b.url ≢ u → Holds u bs
unfolding Holds
Holds-behind u b bs (inl e) n = absurd (n e)
Holds-behind u b bs (inr h) n = h

pub push-IsCovered : (b : UrlBidding) (q : ProbBiddingQueue) → IsCovered q → IsCovered (push b q)
unfolding push has
push-IsCovered b q w = elim (Bool-cases (has q b.url)) [
  | inl h ↦ rw (h, push) w
  | inr h ↦
      rw (h, push)
        (λ u e. elim (Bool-cases (b.url == u)) [
          | inl s ↦
              subst (λ v. Holds v (q.elems ++ b ∷ [])) ((string_key.same_iff b.url u).0 s)
                (Holds-last b q.elems)
          | inr s ↦
              Holds-append u q.elems (b ∷ [])
                (w u (ground (arith, e, get-put q.eset b.url u tt, s)))
        ])
]

pub remove-IsCovered : (u : String) (q : ProbBiddingQueue) → IsCovered q → IsCovered (remove u q)
unfolding remove
remove-IsCovered u q w v e = w v (ground (arith, e, get-delete q.eset u v))

-- What Pop returns from the slice and the set.
abbrev pub Popped : GoMap String (Unit {0}) → Outcome Error UrlBidding × ProbBiddingQueue → Type 0
Popped eset r =
    ((r.0 ≡ err no_item) × ((u : String) → GoMap.get eset u ≡ none) × (r.1.eset ≡ eset))
    ⊎ ((b : UrlBidding) × (r.0 ≡ ok b)
        × (GoMap.get eset b.url ≡ some tt)
        × (r.1.eset ≡ GoMap.delete eset b.url)
        × IsCovered r.1)

pop_rounds-Popped :
    (elems : List UrlBidding) (eset : GoMap String (Unit {0}))
    → IsCovered (record { elems = elems; eset = eset })
    → Popped eset (pop_rounds elems eset)
unfolding pop_rounds Holds
pop_rounds-Popped [] eset w = inl (
  refl,
  (λ u. elim (Option-cases (GoMap.get eset u)) [ inl n ↦ n | inr (tt, s) ↦ absurd (w u s) ]),
  refl,
)
pop_rounds-Popped (b ∷ bs) eset w = elim (Option-cases (GoMap.get eset b.url)) [
  | inr (tt, s) ↦
      rw (s, pop_rounds)
        (inr (
          b,
          refl,
          s,
          refl,
          λ u e.
              Holds-behind u b bs (w u (ground (arith, e, get-delete eset b.url u))) (λ q.
                ground (arith, e, get-delete eset b.url u, (string_key.same_iff b.url u).1 q)),
        ))
  | inl n ↦
      rw (n, pop_rounds)
        (pop_rounds-Popped bs eset
          (λ u e. Holds-behind u b bs (w u e) (λ q. ground (arith, e, n, ap (GoMap.get eset) q))))
]

-- On a queue whose set is covered by its slice, Pop ends: it fails exactly if the set is empty, and
-- otherwise it returns a bidding whose URL is in the set and takes this URL out of it; what is left is
-- covered.
pub pop-Popped : (q : ProbBiddingQueue) → IsCovered q → Popped q.eset (pop q)
unfolding pop
pop-Popped q w = pop_rounds-Popped q.elems q.eset w

-- A call of the queue; insert is not among them.
pub data Call : Type 0 where
  pushed : UrlBidding → Call
  removed : String → Call
  popped : Call

unfoldable pub perform : Call → ProbBiddingQueue → ProbBiddingQueue
unfolding push remove pop
perform (pushed b) q = push b q
perform (removed u) q = remove u q
perform popped q = (pop q).1

-- The first call is the head of the list.
unfoldable pub perform_all : List Call → ProbBiddingQueue → ProbBiddingQueue
unfolding perform
perform_all [] q = q
perform_all (c ∷ cs) q = perform_all cs (perform c q)

pop-IsCovered : (q : ProbBiddingQueue) → IsCovered q → IsCovered (pop q).1
pop-IsCovered q w = elim (pop-Popped q w) [
  | inr (b, r, s, e, c) ↦ c
  | inl (r, n, e) ↦ λ u s. absurd (ground (arith, n u, s, ap (λ m. GoMap.get m u) e))
]

perform-IsCovered : (c : Call) (q : ProbBiddingQueue) → IsCovered q → IsCovered (perform c q)
unfolding perform
perform-IsCovered (pushed b) q w = push-IsCovered b q w
perform-IsCovered (removed u) q w = remove-IsCovered u q w
perform-IsCovered popped q w = pop-IsCovered q w

perform_all-from :
    (cs : List Call) (q : ProbBiddingQueue) → IsCovered q → IsCovered (perform_all cs q)
unfolding perform_all
perform_all-from [] q w = w
perform_all-from (c ∷ cs) q w = perform_all-from cs (perform c q) (perform-IsCovered c q w)

-- After any pushes, removals and pops of a new queue, Pop ends: it fails exactly if the set of the
-- queue is empty, and otherwise it returns a bidding whose URL is in the set and takes this URL out of
-- it; every URL that is left in the set still has a bidding in the slice.
pub pop-perform_all :
    (cs : List Call) → let q = perform_all cs new_prob_bidding_queue in Popped q.eset (pop q)
unfolding new_prob_bidding_queue
pop-perform_all cs = pop-Popped (perform_all cs new_prob_bidding_queue) (
    perform_all-from cs new_prob_bidding_queue
      (λ u e. absurd (ground (arith, e, get-empty {V = Unit {0}} u))))
