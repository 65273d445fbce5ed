-- ===== src/Frontera/BiddingList.antt =====
-- frontera/bidding_list.go: the bids for a URL, by node, and the list of the URLs by their text. Counts
-- are not negative; a content identifier is its text.
pub mod Bids
pub mod Most
use go_crawling_bazaar.Base.{
  ℕ, ◌+◌, ◌-◌, Bool, true, false, Option, none, some, List, [], ◌∷◌, String, string_key, ltb, map,
  if◌then◌else◌,
}
use go_crawling_bazaar.GoMap
use go_crawling_bazaar.GoMap.{GoMap}
use go_crawling_bazaar.Exec.{Outcome, ok, err, panic}

-- BidEntry
pub record BidEntry : Type 0 where
  pub cid : String
  pub hash : ℕ
  pub from : String
  pub verified_count : ℕ

-- BiddingEntry
pub record BiddingEntry : Type 0 where
  pub url : String
  pub parent_url : String
  pub probability : ℕ
  pub trash : Bool
  pub seen : Bool
  pub bids : GoMap String BidEntry
  pub domain_id : String
  pub expect_crawler_count : ℕ
  pub last_broadcast_time : ℕ
  pub hash : List ℕ
  pub proof : List ℕ

-- NewBiddingEntry
unfoldable pub new_bidding_entry : String → String → ℕ → String → ℕ → ℕ → BiddingEntry
new_bidding_entry url parent_url p domain_id expected broadcast = record {
  url = url;
  parent_url = parent_url;
  probability = p;
  trash = false;
  seen = false;
  bids = GoMap.empty;
  domain_id = domain_id;
  expect_crawler_count = expected;
  last_broadcast_time = broadcast;
  hash = [];
  proof = [];
}

-- bid.VerifiedCount++
abbrev pub verified : BidEntry → BidEntry
verified b = record b { verified_count = b.verified_count + 1 }

-- The bid that AddBid stores: its hash stays zero.
abbrev pub new_bid : String → String → ℕ → BidEntry
new_bid cid from count = record { cid = cid; hash = 0; from = from; verified_count = count }

module _ (distance : ℕ → ℕ → ℕ) where
  -- The loop of AddBid; `distance` is simhash.Compare.
  unfoldable pub verify_rounds :
      ℕ → List (String × BidEntry) → ℕ × GoMap String BidEntry → ℕ × GoMap String BidEntry
  verify_rounds hash [] (count, bids) = (count, bids)
  verify_rounds hash (kv ∷ kvs) (count, bids) = verify_rounds hash kvs (
      if ltb (distance hash kv.1.hash) 2
      then (count + 1, GoMap.put bids kv.0 (verified kv.1))
      else (count, bids))

  -- AddBid
  unfoldable pub add_bid : String → String → ℕ → BiddingEntry → Bool × BiddingEntry
  unfolding verify_rounds
  add_bid cid from hash e = elim (GoMap.get e.bids from) [
    | some _ ↦ (false, record e { seen = false })
    | none ↦
        let (count, bids) = verify_rounds hash (GoMap.range e.bids) (1, e.bids) in
        (true, record e { seen = false; bids = GoMap.put bids from (new_bid cid from count) })
  ]

-- The loop of GetMaxVerifiedBid.
unfoldable pub max_rounds : List (String × BidEntry) → ℕ × String → ℕ × String
max_rounds [] best = best
max_rounds (kv ∷ kvs) best =
    max_rounds kvs (if ltb best.0 kv.1.verified_count then (kv.1.verified_count, kv.0) else best)

-- GetMaxVerifiedBid; `none` is the nil pointer.
unfoldable pub get_max_verified_bid : BiddingEntry → Option BidEntry
unfolding max_rounds
get_max_verified_bid e = elim (GoMap.range e.bids) [
  | [] ↦ none
  | _ ∷ _ ↦ GoMap.get e.bids (max_rounds (GoMap.range e.bids) (0, "")).1
]

-- NeedCrawlMore
unfoldable pub need_crawl_more : BiddingEntry → Outcome Unit ℕ
unfolding get_max_verified_bid
need_crawl_more e = elim (GoMap.range e.bids) [
  | [] ↦ ok e.expect_crawler_count
  | _ ∷ _ ↦ elim (get_max_verified_bid e) [
    | none ↦ panic
    | some b ↦ ok (e.expect_crawler_count - b.verified_count)
  ]
]

-- GetCid
unfoldable pub get_cid : BiddingEntry → Outcome Unit String
unfolding get_max_verified_bid
get_cid e = elim (get_max_verified_bid e) [ none ↦ panic | some b ↦ ok b.cid ]

-- BiddingList
abbrev pub BiddingList : Type 0
BiddingList = GoMap String BiddingEntry

abbrev unseen : BiddingEntry → BiddingEntry
unseen e = record e { seen = false }

-- AddBiddingEntry
unfoldable pub add_bidding_entry : BiddingEntry → BiddingList → Bool × BiddingList
add_bidding_entry e w = elim (GoMap.get w e.url) [
  | some be ↦ (false, GoMap.put w e.url (unseen be))
  | none ↦ (true, GoMap.put w e.url e)
]

-- Add
unfoldable pub add : String → String → ℕ → ℕ → List ℕ → List ℕ → BiddingList → Bool × BiddingList
unfolding add_bidding_entry new_bidding_entry
add url parent_url p expected hash proof =
    add_bidding_entry
      (record (new_bidding_entry url parent_url p "" expected 0) { hash = hash; proof = proof })

-- Remove
unfoldable pub remove : String → BiddingList → Bool × BiddingList
remove url w = elim (GoMap.get w url) [ none ↦ (false, w) | some _ ↦ (true, GoMap.delete w url) ]

-- Contains
abbrev pub contains : String → BiddingList → Option BiddingEntry
contains url w = GoMap.get w url
