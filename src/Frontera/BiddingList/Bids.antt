-- ===== src/Frontera/BiddingList/Bids.antt =====
-- frontera/bidding_list.go: which bids AddBid verifies.
use go_crawling_bazaar.Base.{
  Bool, ℕ, suc, ◌+◌, ◌≡◌, ◌≢◌, refl, true, false, none, some, List, [], ◌∷◌, String, string_key,
  ◌==◌, arith, ltb, Bool-cases, inl, inr, subst, sym, ap, if◌then◌else◌,
}
use go_crawling_bazaar.GoMap
use go_crawling_bazaar.GoMap.{GoMap, IsMap, lookup, Distinct, Enumerates, range-Enumerates, get-put}
use go_crawling_bazaar.Frontera.BiddingList.{
  BidEntry, BiddingEntry, verified, new_bid, verify_rounds, add_bid,
}

module _ (distance : ℕ → ℕ → ℕ) where
  -- The number of bids near the hash.
  unfoldable pub near : ℕ → List (String × BidEntry) → ℕ
  near hash [] = 0
  near hash (kv ∷ kvs) =
      if ltb (distance hash kv.1.hash) 2 then suc (near hash kvs) else near hash kvs

  -- A bid after another one with this hash.
  abbrev pub checked : ℕ → BidEntry → BidEntry
  checked hash b = if ltb (distance hash b.hash) 2 then verified b else b

  verify_rounds-count :
      (hash : ℕ) (es : List (String × BidEntry)) (n : ℕ) (bids : GoMap String BidEntry)
      → (verify_rounds distance hash es (n, bids)).0 ≡ n + near hash es
  unfolding verify_rounds near
  verify_rounds-count hash [] n bids = ground arith
  verify_rounds-count hash (kv ∷ es) n bids = elim (Bool-cases (ltb (distance hash kv.1.hash) 2)) [
    | inl c ↦
        ground (arith, c, verify_rounds-count hash es (n + 1) (GoMap.put bids kv.0 (verified kv.1)))
    | inr c ↦ ground (arith, c, verify_rounds-count hash es n bids)
  ]

  get-verify_rounds :
      (hash : ℕ) (es : List (String × BidEntry)) (n : ℕ) (bids : GoMap String BidEntry) (k : String)
      → Distinct es
      → GoMap.get (verify_rounds distance hash es (n, bids)).1 k ≡ elim (lookup k es) [
        | none ↦ GoMap.get bids k
        | some b ↦ if ltb (distance hash b.hash) 2 then some (verified b) else GoMap.get bids k
      ]
  unfolding verify_rounds lookup
  get-verify_rounds hash [] n bids k d = refl
  get-verify_rounds hash ((j, b) ∷ es) n bids k d =
      let put_at = get-put bids j k (verified b) in
      let far = get-verify_rounds hash es n bids k d.1 in
      let close = get-verify_rounds hash es (n + 1) (GoMap.put bids j (verified b)) k d.1 in
      elim (Bool-cases (j == k)) [
        | inr o ↦ elim (Bool-cases (ltb (distance hash b.hash) 2)) [
          | inl c ↦ ground (arith, close, put_at, o, c)
          | inr c ↦ ground (arith, far, o, c)
        ]
        | inl s ↦
            let absent : lookup k es ≡ none =
              subst (λ i. lookup i es ≡ none) ((string_key.same_iff j k).0 s) d.0 in
            elim (Bool-cases (ltb (distance hash b.hash) 2)) [
              | inl c ↦ ground (arith, close, put_at, s, c, absent)
              | inr c ↦ ground (arith, far, s, c, absent)
            ]
      ]

  -- AddBid for a node without a bid returns true and stores its bid with the hash 0 and a count of one
  -- more than the bids whose hash is at a distance below 2; of the other bids, exactly these are
  -- verified once more.
  pub add_bid_lem :
      (cid from : String) (hash : ℕ) (e : BiddingEntry)
      → IsMap e.bids
      → GoMap.get e.bids from ≡ none
      → let r = add_bid distance cid from hash e in
        (r.0 ≡ true)
        × (GoMap.get r.1.bids from ≡ some (new_bid cid from (1 + near hash (GoMap.range e.bids))))
        × ((k : String)
            → k ≢ from
            → GoMap.get r.1.bids k
              ≡ elim (GoMap.get e.bids k) [ none ↦ none | some b ↦ some (checked hash b) ])
  unfolding add_bid
  add_bid_lem cid from hash e w absent =
      let es = GoMap.range e.bids in
      let r = range-Enumerates e.bids w in
      let rounds = verify_rounds distance hash es (1, e.bids) in
      let bid = new_bid cid from rounds.0 in
      let step : add_bid distance cid from hash e
          ≡ (true, record e { seen = false; bids = GoMap.put rounds.1 from bid }) =
        rw (absent, add_bid) refl in
      subst
        (λ (x : Bool × BiddingEntry).
          (x.0 ≡ true)
          × (GoMap.get x.1.bids from ≡ some (new_bid cid from (1 + near hash es)))
          × ((k : String)
              → k ≢ from
              → GoMap.get x.1.bids k
                ≡ elim (GoMap.get e.bids k) [ none ↦ none | some b ↦ some (checked hash b) ]))
        (sym step)
        (
          refl,
          ground (
            arith,
            get-put rounds.1 from from bid,
            string_key.same_iff from from,
            ap (new_bid cid from) (verify_rounds-count hash es 1 e.bids),
          ),
          λ k other. ground (
            arith,
            get-put rounds.1 from k bid,
            string_key.same_iff from k,
            other,
            get-verify_rounds hash es 1 e.bids k r.distinct,
            r.lookups k,
          ),
        )
