-- ===== src/Frontera.antt =====
-- Package frontera, the queues of the URLs to crawl.
pub mod ProbBiddingQueue
pub mod BiddingList
