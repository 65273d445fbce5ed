-- ===== src/Frontera/BiddingList/Most.antt =====
-- frontera/bidding_list.go: the bid with the highest count, and how many crawlers are still wanted.
use go_crawling_bazaar.Base.{
  ℕ, ◌-◌, ◌<◌, ◌≤◌, ◌≡◌, refl, false, none, some, List, [], ◌∷◌, String, string_key, ◌==◌, arith,
  ltb, All, Bool-cases, inl, inr, ◌⊎◌, subst, sym, ap, ◌∙◌, if◌then◌else◌,
}
use go_crawling_bazaar.GoMap
use go_crawling_bazaar.GoMap.{GoMap, IsMap, lookup, Distinct, Enumerates, range-Enumerates, get-put}
use go_crawling_bazaar.Exec.{ok, panic}
use go_crawling_bazaar.Frontera.BiddingList.{
  BidEntry, BiddingEntry, max_rounds, get_max_verified_bid, need_crawl_more, get_cid,
}

-- What the loop of GetMaxVerifiedBid finds: the best so far or an entry, and none is above it.
abbrev Highest : List (String × BidEntry) → ℕ × String → ℕ × String → Type 0
Highest es best r =
    All (λ kv. kv.1.verified_count ≤ r.0) es
    × (best.0 ≤ r.0)
    × ((r ≡ best) ⊎ ((b : BidEntry) × (lookup r.1 es ≡ some b) × (b.verified_count ≡ r.0)))

max_rounds-Highest :
    (es : List (String × BidEntry)) (best : ℕ × String)
    → Distinct es
    → Highest es best (max_rounds es best)
unfolding max_rounds lookup
max_rounds-Highest [] best d = (tt, ground arith, inl refl)
max_rounds-Highest ((j, v) ∷ es) best d =
    let best' : ℕ × String = if ltb best.0 v.verified_count then (v.verified_count, j) else best in
    let r = max_rounds es best' in
    let (below, above, which) = max_rounds-Highest es best' d.1 in
    elim which [
      | inr (b, at, count) ↦
          let other : (j == r.1) ≡ false = elim (Bool-cases (j == r.1)) [
            | inr o ↦ o
            | inl s ↦ absurd (
                ground (
                  arith,
                  at,
                  subst (λ i. lookup i es ≡ none) ((string_key.same_iff j r.1).0 s) d.0,
                ))
          ] in
          (
            (ground (arith, above), below),
            ground (arith, above),
            inr (b, ground (arith, at, other), count),
          )
      | inl same ↦ elim (Bool-cases (ltb best.0 v.verified_count)) [
        | inl l ↦
            let taken : best' ≡ (v.verified_count, j) = rw l refl in
            (
              (ground (arith, above), below),
              ground (arith, above),
              inr (
                v,
                subst (λ (x : ℕ × String). lookup x.1 ((j, v) ∷ es) ≡ some v) (sym (same ∙ taken))
                    (ground (arith, string_key.same_iff j j)),
                ap (λ x. x.0) (sym (same ∙ taken)),
              ),
            )
        | inr l ↦
            let left : best' ≡ best = rw l refl in
            ((ground (arith, above), below), ground (arith, above), inl (same ∙ left))
      ]
    ]

All-lookup :
    (P : BidEntry → Type 0) (es : List (String × BidEntry)) (k : String) (b : BidEntry)
    → All (λ kv. P kv.1) es
    → lookup k es ≡ some b
    → P b
unfolding lookup
All-lookup P [] k b h e = absurd (ground arith)
All-lookup P ((j, v) ∷ es) k b h e = elim (Bool-cases (j == k)) [
  | inl s ↦ subst P (ground arith) h.0
  | inr s ↦ All-lookup P es k b h.1 (ground arith)
]

List-cases {ℓ} : {A : Type ℓ} (xs : List A) → (xs ≡ []) ⊎ ((x : A) × (ys : List A) × (xs ≡ x ∷ ys))
List-cases [] = inl refl
List-cases (x ∷ xs) = inr (x, xs, refl)

-- The bid that GetMaxVerifiedBid returns, and what NeedCrawlMore makes of it.
abbrev pub IsMost : BiddingEntry → BidEntry → Type 0
IsMost e b =
    ((k : String) × (GoMap.get e.bids k ≡ some b))
    × ((k : String) (c : BidEntry)
        → GoMap.get e.bids k ≡ some c
        → c.verified_count ≤ b.verified_count)

get_max_verified_bid-IsMost :
    (e : BiddingEntry) (x : String × BidEntry) (es : List (String × BidEntry))
    → IsMap e.bids
    → ((k : String) (b : BidEntry) → GoMap.get e.bids k ≡ some b → 0 < b.verified_count)
    → GoMap.range e.bids ≡ x ∷ es
    → (b : BidEntry) × (get_max_verified_bid e ≡ some b) × IsMost e b
unfolding get_max_verified_bid lookup
get_max_verified_bid-IsMost e x es w positive q =
    let r = range-Enumerates e.bids w in
    let best = max_rounds (GoMap.range e.bids) (0, "") in
    let (below, above, which) = max_rounds-Highest (GoMap.range e.bids) (0, "") r.distinct in
    let first : GoMap.get e.bids x.0 ≡ some x.1 =
      sym (r.lookups x.0) ∙ ap (lookup x.0) q ∙ ground (arith, string_key.same_iff x.0 x.0) in
    let bound = λ (k : String) (c : BidEntry) (g : GoMap.get e.bids k ≡ some c).
      All-lookup (λ b. b.verified_count ≤ best.0) (GoMap.range e.bids) k c below
        (r.lookups k ∙ g) in
    elim which [
      | inl none_found ↦
          absurd
            (ground (arith, positive x.0 x.1 first, bound x.0 x.1 first, ap (λ p. p.0) none_found))
      | inr (b, at, count) ↦ (
        b,
        rw (q, get_max_verified_bid) (sym (r.lookups best.1) ∙ at),
        ((best.1, sym (r.lookups best.1) ∙ at), λ k c g. ground (arith, bound k c g, count)),
      )
    ]

-- Where every count is positive, NeedCrawlMore and GetCid do not panic on an entry with a bid: the one
-- subtracts the count of a bid with the highest count from the crawlers that are expected, the other
-- returns the identifier of this bid. Without a bid NeedCrawlMore returns the expected number and
-- GetCid panics.
pub need_crawl_more_lem :
    (e : BiddingEntry)
    → IsMap e.bids
    → ((k : String) (b : BidEntry) → GoMap.get e.bids k ≡ some b → 0 < b.verified_count)
    → (((k : String) → GoMap.get e.bids k ≡ none)
        × (need_crawl_more e ≡ ok e.expect_crawler_count)
        × (get_cid e ≡ panic))
      ⊎ ((b : BidEntry) × IsMost e b
          × (need_crawl_more e ≡ ok (e.expect_crawler_count - b.verified_count))
          × (get_cid e ≡ ok b.cid))
unfolding need_crawl_more get_cid get_max_verified_bid lookup
need_crawl_more_lem e w positive =
    let r = range-Enumerates e.bids w in
    elim (List-cases (GoMap.range e.bids)) [
      | inl q ↦ inl (
        λ k. sym (r.lookups k) ∙ ap (lookup k) q,
        rw (q, need_crawl_more) refl,
        rw (q, get_cid, get_max_verified_bid) refl,
      )
      | inr (x, es, q) ↦
          let (b, found, most) = get_max_verified_bid-IsMost e x es w positive q in
          inr (b, most, rw (q, found, need_crawl_more) refl, rw (found, get_cid) refl)
    ]
