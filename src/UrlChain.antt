-- ===== src/UrlChain.antt =====
-- Package urlchain, the chain of the queries of one domain.
pub mod AckIndex
pub mod Block
pub mod BlockIndex
pub mod Runtime
pub mod Chain
